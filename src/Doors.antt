-- ===== src/Doors.antt =====
-- core/auth/AuthTarget.cpp and modules/doorman: what follows an answer at a door, the requests to
-- leave, the door contacts and the schedules that keep a door open or closed. Times count
-- milliseconds. The bus of pins, the targets of commands and the alarms are parameters; an alarm
-- replies with frames. Every doorman has one DoormanDoor for each door of the module, in order: the
-- doors themselves are shared.
pub mod Actions
pub mod Module
pub mod Immutable
pub mod Expected
pub mod Contact
use access_control.Prelude.{
  ℕ, ◌+◌, Bool, true, false, not, ◌&&◌, ◌||◌, Bytes, codes, is_empty, bytes_eq, ◌==◌, List, [], ◌∷◌,
  ◌++◌, Option, none, some, any, pos, Failure, aborted, undefined_behaviour, Result, ok, err, ◌>>=◌,
  if◌then◌else◌,
}
use access_control.Schedule.{Schedule, Tm, TimePoint, is_in_schedule}
use access_control.Gpio.{Command, Reply, FGpio, turn_on, turn_off, turn_on_for, is_on, is_off}

pub record AuthTarget : Type 0 where
  pub name : Bytes
  pub always_open : List Schedule
  pub always_close : List Schedule
  pub gpio : Option FGpio
  pub exitreq_gpio : Option Bytes
  pub exitreq_duration : ℕ
  pub contact_gpio : Option Bytes
  pub contact_duration : ℕ
  pub alarm : Option Bytes

unfoldable pub new_target : Bytes → ℕ → AuthTarget
new_target name unset = record {
  name = name;
  always_open = [];
  always_close = [];
  gpio = none;
  exitreq_gpio = none;
  exitreq_duration = unset;
  contact_gpio = none;
  contact_duration = 15000;
  alarm = none;
}

unfoldable pub add_always_open_sched : Schedule → AuthTarget → AuthTarget
add_always_open_sched s d = record d { always_open = d.always_open ++ s ∷ [] }

unfoldable pub add_always_close_sched : Schedule → AuthTarget → AuthTarget
add_always_close_sched s d = record d { always_close = d.always_close ++ s ∷ [] }

abbrev pub put_gpio {ℓ} : {W : Type ℓ} → AuthTarget → Bool × FGpio × W → Result (AuthTarget × W)
put_gpio d (done, g, w) = ok (record d { gpio = some g }, w)

module _ (localtime : TimePoint → Tm) where
  unfoldable pub is_always_open : AuthTarget → ℕ → Bool
  is_always_open d tp = any (λ s. is_in_schedule localtime s (pos tp)) d.always_open

  unfoldable pub is_always_closed : AuthTarget → ℕ → Bool
  is_always_closed d tp = any (λ s. is_in_schedule localtime s (pos tp)) d.always_close

  module _ (W : Type 0) (send : Bytes → Command → W → Option Reply × W) where
    -- The pin of a door in one of its schedules, once the state that it has is known.
    abbrev pub open_unless : ℕ → AuthTarget → FGpio → Bool × W → Result (AuthTarget × W)
    open_unless tp d g (true, w) = ok (d, w)
    open_unless tp d g (false, w) = turn_on W send tp g w >>= put_gpio d

    abbrev pub close_unless : ℕ → AuthTarget → FGpio → Bool × W → Result (AuthTarget × W)
    close_unless tp d g (true, w) = ok (d, w)
    close_unless tp d g (false, w) = turn_off W send tp g w >>= put_gpio d

    abbrev pub with_gpio :
        AuthTarget → W → (FGpio → Result (AuthTarget × W)) → Option FGpio → Result (AuthTarget × W)
    with_gpio d w act none = err undefined_behaviour
    with_gpio d w act (some g) = act g

    -- A door that is in both schedules, or in none, is left alone.
    unfoldable pub reset_to_expected_state : ℕ → AuthTarget → W → Result (AuthTarget × W)
    unfolding is_always_open is_always_closed
    reset_to_expected_state tp d w =
        if is_always_open d tp && is_always_closed d tp
        then ok (d, w)
        else if is_always_open d tp
        then with_gpio d w (λ g. is_on W send g w >>= open_unless tp d g) d.gpio
        else if is_always_closed d tp
        then with_gpio d w (λ g. is_off W send g w >>= close_unless tp d g) d.gpio
        else ok (d, w)

-- `door` is the place of its door among those of the module; an empty topic is none.
pub record DoormanDoor : Type 0 where
  pub topic_exitreq : Bytes
  pub topic_contact : Bytes
  pub contact_triggered : Bool
  pub contact_lastupdate : ℕ
  pub alarm_forced : Bytes

abbrev pub topic : Option Bytes → Bytes
topic none = []
topic (some name) = codes "S_INT:" ++ name

unfoldable pub new_door : AuthTarget → DoormanDoor
new_door d = record {
  topic_exitreq = topic d.exitreq_gpio;
  topic_contact = topic d.contact_gpio;
  contact_triggered = false;
  contact_lastupdate = 0;
  alarm_forced = [];
}

module _ (W : Type 0) (send : Bytes → Command → W → Option Reply × W) where
  abbrev pub let_out : ℕ → AuthTarget → Option FGpio → W → Result (AuthTarget × W)
  let_out now d none w = ok (d, w)
  let_out now d (some g) w = turn_on_for W send d.exitreq_duration now g w >>= put_gpio d

  -- DoormanDoor::handle_bus_msg: a request to leave, or a change of the door contact.
  unfoldable pub handle_door_msg :
      ℕ → Bytes → DoormanDoor → AuthTarget → W → Result (DoormanDoor × AuthTarget × W)
  handle_door_msg now msg s d w =
      if msg == s.topic_exitreq
      then (let_out now d d.gpio w >>= λ x. ok (s, x.0, x.1))
      else if msg == s.topic_contact
      then ok
          (record s { contact_triggered = not s.contact_triggered; contact_lastupdate = now }, d, w)
      else ok (s, d, w)
