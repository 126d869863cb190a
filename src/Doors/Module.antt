-- ===== src/Doors/Module.antt =====
-- modules/doorman/DoormanModule.cpp: what the module does every two seconds.
use access_control.Prelude.{
  ℕ, ◌+◌, Bool, true, false, not, ◌&&◌, Bytes, codes, is_empty, bytes_eq, ◌==◌, List, [], ◌∷◌,
  Option, none, some, ltb, leb, Result, ok, err, undefined_behaviour, ◌>>=◌, if◌then◌else◌,
}
use access_control.Schedule.{Tm, TimePoint}
use access_control.Gpio.{Command, Reply, FGpio}
use access_control.Alarms.{Request, raise_alarm, get_state, unrecognized, raised_name, second_frame}
use access_control.Doors.{AuthTarget, DoormanDoor, reset_to_expected_state}

module _ (localtime : TimePoint → Tm) (W : Type 0) (send : Bytes → Command → W → Option Reply × W)
    (ask : ℕ → Bytes → Request → W → Result (List Bytes × W)) where
  abbrev raise_forced : ℕ → Bytes → Bytes → DoormanDoor → W → Result (DoormanDoor × W)
  raise_forced now alarm reason s w = ask now alarm (raise_alarm 1 reason) w >>= λ x.
      ok (record s { alarm_forced = raised_name x.0 }, x.1)

  -- `state(alarm) == STATE_RAISED`
  abbrev says_raised : List Bytes → Bool
  says_raised frames = second_frame frames == (1 ∷ [])

  abbrev disarm : ℕ → Bytes → Bool → W → Result W
  disarm now alarm true w = ask now alarm unrecognized w >>= λ x. ok x.1
  disarm now alarm false w = ok w

  abbrev gpio_is_late : ℕ → AuthTarget → Option FGpio → Bool
  gpio_is_late now d none = false
  gpio_is_late now d (some g) = ltb (g.lastupdate + d.contact_duration) now

  abbrev with_alarm : ℕ → DoormanDoor → AuthTarget → Bytes → W → Result (DoormanDoor × W)
  with_alarm now s d alarm w =
      if is_empty s.alarm_forced && s.contact_triggered
      then if leb now (s.contact_lastupdate + d.contact_duration)
        then raise_forced now alarm (codes "Door forced (opened too long).") s w
        else if gpio_is_late now d d.gpio
        then raise_forced now alarm (codes "Door forced (unexpected opening).") s w
        else ok (s, w)
      else if not (is_empty s.alarm_forced) && not s.contact_triggered
      then (ask now alarm (get_state s.alarm_forced) w >>= λ x.
          disarm now alarm (says_raised x.0) x.1 >>= λ after.
          ok (record s { alarm_forced = [] }, after))
      else ok (s, w)

  unfoldable pub check_alarm :
      ℕ → DoormanDoor → AuthTarget → Option Bytes → W → Result (DoormanDoor × W)
  check_alarm now s d none w = ok (s, w)
  check_alarm now s d (some alarm) w = with_alarm now s d alarm w

  unfoldable pub update_door :
      ℕ → DoormanDoor → AuthTarget → W → Result (DoormanDoor × AuthTarget × W)
  unfolding check_alarm
  update_door now s d w = check_alarm now s d d.alarm w >>= λ x.
      reset_to_expected_state localtime W send now d x.1 >>= λ y. ok (x.0, y.0, y.1)

  -- The doors of one doorman, each with its door of the module.
  unfoldable pub update_doors :
      ℕ → List DoormanDoor → List AuthTarget → W → Result (List DoormanDoor × List AuthTarget × W)
  unfolding update_door
  update_doors now [] ds w = ok ([], ds, w)
  update_doors now (s ∷ ss) [] w = err undefined_behaviour
  update_doors now (s ∷ ss) (d ∷ ds) w = update_door now s d w >>= λ x.
      update_doors now ss ds x.2 >>= λ y. ok (x.0 ∷ y.0, x.1 ∷ y.1, y.2)

  unfoldable pub update :
      ℕ
      → List (List DoormanDoor)
      → List AuthTarget
      → W
      → Result (List (List DoormanDoor) × List AuthTarget × W)
  unfolding update_doors
  update now [] ds w = ok ([], ds, w)
  update now (doorman ∷ doormen) ds w = update_doors now doorman ds w >>= λ x.
      update now doormen x.1 x.2 >>= λ y. ok (x.0 ∷ y.0, y.1, y.2)
