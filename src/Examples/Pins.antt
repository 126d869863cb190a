-- ===== src/Examples/Pins.antt =====
-- Pins that keep a bit, a door with such a pin, its doorman and its alarm.
use access_control.Prelude.{
  ℕ, ◌+◌, ◌-◌, ◌≡◌, ◌≢◌, ◌↔◌, ◌⊎◌, refl, Bool, true, false, List, [], ◌∷◌, Option, none, some, ok,
  err, aborted, Result, codes, Bytes, ℤ, pos, negsuc, length, arith, Memᴰ,
}
use access_control.Schedule.{Schedule, Tm, TimePoint, is_in_schedule, is_in_timeframe}
use access_control.Gpio.{
  Command, on, on_for, toggle, Reply, ok_reply, ko_reply, Direction, output, FGpio, compute_timeout,
}
use access_control.Gpio.Piface.{PfDigitalPin}
use access_control.Gpio.Piface as Piface
use access_control.Gpio.Sysfs.{SysFsGpioPin}
use access_control.Gpio.Libgpiod.{LibgpiodPin}
use access_control.Gpio.Libgpiod as Libgpiod
use access_control.Gpio.Pulse.{polls, pulse, pulse_outlives}
use access_control.Gpio.Silent.{number_of, libgpiod_refuses}
use access_control.Gpio.Timeout.{NoneAsked, IsSoonest, IsNear, compute_timeout-IsSoonest}
use access_control.Alarms.{AlarmEntry, AlarmInstance, raise_alarm, raised_name, handle_request}
use access_control.Alarms.Replies.{IsBare, handle_request-IsBare, raise_aborts}
use access_control.Access.Instance.{granted}
use access_control.Access.Source.{Message}
use access_control.Doors.{
  AuthTarget, DoormanDoor, is_always_open, is_always_closed, reset_to_expected_state,
}
use access_control.Doors.Actions.{DoormanAction, handle_bus_msg}
use access_control.Doors.Immutable.{IsDue, command, sent_iff}
use access_control.Doors.Expected.{expected, piface_bus, sysfs_bus, reset_piface, reset_sysfs}
use access_control.Doors.Contact.{checks, checks_raise}

abbrev write_bit : Bool → Bool → Bool
write_bit b h = b

abbrev read_bit : Direction → Bool → Bool
read_bit d h = h

abbrev lock : PfDigitalPin Bool
lock = record {
  direction = output;
  next_update_time = 0;
  want_update = false;
  board = false;
  published = [];
}

pulse_example :
    (polls write_bit read_bit
      (λ b h. refl)
      (1020 ∷ 1100 ∷ [])
      (Piface.handle_message write_bit read_bit 1000 (on_for 50) lock).1).board
    ≡ false
pulse_example = pulse write_bit read_bit (λ b h. refl) 1000 50 (1020 ∷ 1100 ∷ []) lock refl

pulse_outlives_example :
    (polls write_bit read_bit
      (λ b h. refl)
      (1020 ∷ 1100 ∷ [])
      (Piface.handle_message write_bit read_bit 1010 on
        (Piface.handle_message write_bit read_bit 1000 (on_for 50) lock).1).1).board
    ≡ false
pulse_outlives_example =
    pulse_outlives write_bit read_bit (λ b h. refl) 1000 50 1010 (1020 ∷ 1100 ∷ []) lock refl

abbrev set_value : Bool → Bool → ℤ × Bool
set_value b l = (pos 0, b)

abbrev buzzer : LibgpiodPin Bool
buzzer = record { next_update_time = none; line = true; published = [] }

libgpiod_refuses_example :
    (q : LibgpiodPin Bool) × (Libgpiod.handle_message set_value number_of 5 toggle buzzer
      ≡ ok (ko_reply, q))
    × (q.line ≡ true)
libgpiod_refuses_example =
    libgpiod_refuses set_value number_of (λ l. l) (λ l. refl) (λ b l. refl) (λ b l. refl) 5 toggle
      buzzer

all-IsNear : (u : ℕ) → Memᴰ (some u) (none ∷ some 70 ∷ some 60 ∷ []) → IsNear 50 u
all-IsNear u (Memᴰ.head e) = cc
all-IsNear u (Memᴰ.tail (Memᴰ.head e)) = let is_it : u ≡ 70 = cc in (omega arith, omega arith)
all-IsNear u (Memᴰ.tail (Memᴰ.tail (Memᴰ.head e))) =
    let is_it : u ≡ 60 = cc in (omega arith, omega arith)
all-IsNear u (Memᴰ.tail (Memᴰ.tail (Memᴰ.tail m))) = elim m [ ]

compute_timeout-IsSoonest_example :
    let ts : List (Option ℕ) = none ∷ some 70 ∷ some 60 ∷ [] in
    ((compute_timeout 50 ts ≡ negsuc 0) × NoneAsked ts)
    ⊎ ((t : ℕ) × (compute_timeout 50 ts ≡ pos (t - 50)) × IsSoonest t ts)
compute_timeout-IsSoonest_example =
    compute_timeout-IsSoonest 50 (none ∷ some 70 ∷ some 60 ∷ []) all-IsNear

-- A bus whose pins say "OK" and keep nothing.
abbrev yes_bus : Bytes → Command → Unit {0} → Option Reply × Unit {0}
yes_bus name c w = (some ok_reply, w)

abbrev siren : Option (List (ℕ × AlarmEntry)) → AlarmInstance
siren db = record {
  database = db;
  gpio = record { gpio_name = codes "siren"; lastupdate = 0 };
  raise_counter = 2;
}

abbrev new_id : List (ℕ × AlarmEntry) → ℕ
new_id db = 1

abbrev id_text : ℕ → Bytes
id_text n = codes "1"

abbrev first_byte : Bytes → Result ℕ
first_byte s = err aborted

siren_raised :
    handle_request
      (Unit {0})
      yes_bus
      new_id
      id_text
      first_byte
      9
      (raise_alarm 1 (codes "x"))
      (siren none)
      tt
    ≡ ok (codes "OK" ∷ [], record (siren none) { raise_counter = 3 }, tt)
unfolding handle_request
siren_raised = refl

handle_request-IsBare_example : IsBare (codes "OK" ∷ []) × (raised_name (codes "OK" ∷ []) ≡ [])
handle_request-IsBare_example =
    handle_request-IsBare (Unit {0}) yes_bus new_id id_text first_byte 9 (raise_alarm 1 (codes "x"))
      (siren none) (record (siren none) { raise_counter = 3 }) tt tt (codes "OK" ∷ []) siren_raised

raise_aborts_example :
    handle_request
      (Unit {0})
      yes_bus
      new_id
      id_text
      first_byte
      9
      (raise_alarm 1 (codes "x"))
      (siren (some []))
      tt
    ≡ err aborted
raise_aborts_example =
    raise_aborts (Unit {0}) yes_bus new_id id_text first_byte 9 1 (codes "x") (siren (some [])) tt
      [] refl

abbrev noon : TimePoint → Tm
noon tp = record { tm_wday = pos 2; tm_hour = pos 12; tm_min = pos 0 }

abbrev lunch : Schedule
lunch = record {
  id = 1;
  name = codes "lunch";
  description = [];
  timeframes =
      record {
        day = pos 2;
        start_hour = pos 11;
        start_min = pos 0;
        end_hour = pos 13;
        end_min = pos 0;
      }
      ∷ [];
}

abbrev pin_of_door : FGpio
pin_of_door = record { gpio_name = codes "lock"; lastupdate = 0 }

-- Open at noon.
abbrev canteen : AuthTarget
canteen = record {
  name = codes "canteen";
  always_open = lunch ∷ [];
  always_close = [];
  gpio = some pin_of_door;
  exitreq_gpio = none;
  exitreq_duration = 0;
  contact_gpio = some (codes "contact");
  contact_duration = 15000;
  alarm = some (codes "siren");
}

canteen_open : is_always_open noon canteen 0 ≡ true
unfolding is_always_open is_in_schedule is_in_timeframe
canteen_open = refl

canteen_not_closed : is_always_closed noon canteen 0 ≡ false
unfolding is_always_closed
canteen_not_closed = refl

reset_piface_example :
    (e : AuthTarget) × (q : PfDigitalPin Bool) × (reset_to_expected_state noon
        (PfDigitalPin Bool)
        (piface_bus noon write_bit read_bit (λ b h. refl) 0)
        0
        canteen
        lock
      ≡ ok (e, q))
    × (q.board ≡ expected (is_always_open noon canteen 0) (is_always_closed noon canteen 0) false)
reset_piface_example =
    reset_piface noon write_bit read_bit (λ b h. refl) 0 canteen pin_of_door lock refl refl

abbrev write_value : ℕ → ℕ → ℕ
write_value v f = v

abbrev file_value : ℕ → ℕ
file_value f = f

abbrev kernel_pin : SysFsGpioPin ℕ
kernel_pin = record { next_update_time = none; file = 0; published = [] }

one_schedule : is_always_open noon canteen 0 ≢ is_always_closed noon canteen 0
one_schedule e = let o = canteen_open in let c = canteen_not_closed in cc

reset_sysfs_example :
    reset_to_expected_state noon
      (SysFsGpioPin ℕ)
      (sysfs_bus noon write_value file_value 0)
      0
      canteen
      kernel_pin
    ≡ err aborted
reset_sysfs_example =
    reset_sysfs noon write_value file_value 0 canteen pin_of_door kernel_pin refl one_schedule

abbrev open_action : DoormanAction
open_action = record { on = granted; target = codes "gate"; cmd = codes "ON" ∷ codes "500" ∷ [] }

abbrev run_command : Bytes → Message → Unit {0} → Bytes × Unit {0}
run_command target msg w = (codes "OK", w)

opened :
    handle_bus_msg noon (Unit {0}) run_command 0 granted [] (open_action ∷ []) tt
    ≡ ok (command noon 0 granted [] (Unit {0}) run_command open_action ∷ [], tt)
unfolding handle_bus_msg
opened = refl

sent_iff_example :
    let c = command noon 0 granted [] (Unit {0}) run_command open_action in
    Memᴰ c (c ∷ []) ↔ (
      (a : DoormanAction) × Memᴰ a (open_action ∷ [])
      × IsDue noon 0 granted [] a
      × (c ≡ command noon 0 granted [] (Unit {0}) run_command a))
sent_iff_example =
    let c = command noon 0 granted [] (Unit {0}) run_command open_action in
    sent_iff noon 0 granted [] (Unit {0}) run_command (open_action ∷ []) tt tt (c ∷ []) c opened

abbrev ajar : DoormanDoor
ajar = record {
  topic_exitreq = [];
  topic_contact = codes "S_INT:contact";
  contact_triggered = true;
  contact_lastupdate = 1000;
  alarm_forced = [];
}

always_yes :
    (name : Bytes) (c : Command) (v : Unit {0})
    → (r : Reply) × (u : Unit {0}) × (yes_bus name c v ≡ (some r, u))
always_yes name c v = (ok_reply, v, refl)

checks_raise_example :
    (b : AlarmInstance) × (u : Unit {0}) × (checks noon
        (Unit {0})
        yes_bus
        always_yes
        new_id
        id_text
        first_byte
        (2000 ∷ 4000 ∷ [])
        ajar
        canteen
        (codes "siren")
        (siren none, tt)
      ≡ ok (ajar, (b, u)))
    × (b.raise_counter ≡ 2 + length {A = ℕ} (2000 ∷ 4000 ∷ []))
checks_raise_example =
    checks_raise noon (Unit {0}) yes_bus always_yes new_id id_text first_byte (2000 ∷ 4000 ∷ [])
      ajar canteen (codes "siren") (siren none) tt refl (omega arith) refl refl refl
