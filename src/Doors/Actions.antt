-- ===== src/Doors/Actions.antt =====
-- modules/doorman/DoormanInstance.cpp: the commands that a doorman sends after an answer. The clock
-- stands still during a call; `exec` is the service that a command goes to, whose reply is only
-- logged. The commands sent are kept as a list, the oldest first.
use access_control.Prelude.{
  ℕ, Bool, true, false, not, ◌||◌, Bytes, bytes_eq, ◌==◌, List, [], ◌∷◌, Option, none, some, ℤ,
  stoi, undefined_behaviour, Result, ok, err, ◌>>=◌, if◌then◌else◌,
}
use access_control.Schedule.{Tm, TimePoint}
use access_control.Gpio.{FGpio}
use access_control.Access.Source.{Message, Frame, text, number}
use access_control.Access.Instance.{AccessStatus, granted, denied}
use access_control.Doors.{AuthTarget, is_always_open, is_always_closed}

pub record DoormanAction : Type 0 where
  pub on : AccessStatus
  pub target : Bytes
  pub cmd : List Bytes

abbrev pub same_status : AccessStatus → AccessStatus → Bool
same_status granted granted = true
same_status granted denied = false
same_status denied granted = false
same_status denied denied = true

-- A number where `std::stoi` reads one, the text otherwise.
abbrev frame_of : Bytes → Result ℤ → Frame
frame_of frame (ok v) = number v
frame_of frame (err e) = text frame

unfoldable pub frames : List Bytes → Message
frames [] = []
frames (f ∷ fs) = frame_of f (stoi f) ∷ frames fs

-- A door without a pin is read through a null pointer.
abbrev pub found :
    Bytes → AuthTarget → Option FGpio → Result (Option AuthTarget) → Result (Option AuthTarget)
found name d none rest = err undefined_behaviour
found name d (some g) rest = if g.gpio_name == name then ok (some d) else rest

unfoldable pub find_target : Bytes → List AuthTarget → Result (Option AuthTarget)
find_target name [] = ok none
find_target name (d ∷ doors) = let rest = find_target name doors in found name d d.gpio rest

module _ (localtime : TimePoint → Tm) where
  abbrev pub immutable : ℕ → Option AuthTarget → Bool
  immutable now none = false
  immutable now (some d) = is_always_closed localtime d now || is_always_open localtime d now

  unfoldable pub ignore_action : ℕ → List AuthTarget → DoormanAction → AccessStatus → Result Bool
  unfolding find_target
  ignore_action now doors a status =
      if not (same_status a.on status)
      then ok true
      else (find_target a.target doors >>= λ t. ok (immutable now t))

  module _ (W : Type 0) (exec : Bytes → Message → W → Bytes × W) where
    abbrev pub Sent : Type 0
    Sent = List (Bytes × Message) × W

    abbrev pub also : Bytes × Message → Sent → Result Sent
    also c (sent, w) = ok (c ∷ sent, w)

    abbrev pub act : DoormanAction → W → (W → Result Sent) → Bool → Result Sent
    act a w rest true = rest w
    act a w rest false = rest (exec a.target (frames a.cmd) w).1 >>= also (a.target, frames a.cmd)

    unfoldable pub handle_bus_msg :
        ℕ → AccessStatus → List AuthTarget → List DoormanAction → W → Result Sent
    unfolding ignore_action frames
    handle_bus_msg now status doors [] w = ok ([], w)
    handle_bus_msg now status doors (a ∷ actions) w =
        ignore_action now doors a status
        >>= act a w (λ after. handle_bus_msg now status doors actions after)
