-- ===== src/Doors/Contact.antt =====
-- The alarm of a door whose contact is open, from the door to the instance that counts alarms.
use access_control.Prelude.{
  ℕ, ◌+◌, ◌≡◌, ◌<◌, ◌%◌, ◌^◌, refl, ap, sym, ◌∙◌, Bool, true, false, Bool-cases, not, ◌&&◌, inl,
  inr, Bytes, codes, is_empty, nat_eq, ◌==◌, List, [], ◌∷◌, Option, none, some, leb, all, length,
  Result, ok, ◌>>=◌, if◌then◌else◌, arith,
}
use access_control.Schedule.{Tm, TimePoint}
use access_control.Gpio.{Command, Reply, FGpio, turn_on, ordered}
use access_control.Alarms.{
  AlarmInstance, AlarmEntry, Request, raise_alarm, raised_name, handle_request, raise, change_state,
  handle_gpio, entered, stored, state_raised,
}
use access_control.Doors.{AuthTarget, DoormanDoor}
use access_control.Doors.Module.{check_alarm}

both : (p q : Bool) → (p && q) ≡ true → (p ≡ true) × (q ≡ true)
both true q e = (refl, e)
both false q e = cc

first_branch {ℓ} :
    {A : Type ℓ} (b c l : Bool) (x y z : A)
    → b ≡ true
    → c ≡ true
    → l ≡ true
    → (if b && c then if l then x else y else z) ≡ x
first_branch b c l x y z p q r = rw (p, q, r) refl

module _ (localtime : TimePoint → Tm) (V : Type 0) (send : Bytes → Command → V → Option Reply × V)
    (answers : (name : Bytes) (c : Command) (v : V)
      → (r : Reply) × (u : V) × (send name c v ≡ (some r, u)))
    (persist : List (ℕ × AlarmEntry) → ℕ) (to_string : ℕ → Bytes) (byte_of : Bytes → Result ℕ) where
  -- The world of a doorman whose alarms all go to one instance.
  abbrev pub World : Type 0
  World = AlarmInstance × V

  abbrev pub pins : Bytes → Command → World → Option Reply × World
  pins name c (a, v) = let (r, u) = send name c v in (r, (a, u))

  abbrev regroup : List Bytes × AlarmInstance × V → List Bytes × World
  regroup (frames, a, v) = (frames, (a, v))

  abbrev pub to_instance : ℕ → Bytes → Request → World → Result (List Bytes × World)
  to_instance now name q (a, v) =
      handle_request V send persist to_string byte_of now q a v >>= λ x. ok (regroup x)

  abbrev ordered_on : ℕ → FGpio → Reply × V → Bool × FGpio × V
  ordered_on now g x = ordered V send now g x

  turn_on_answers :
      (now : ℕ) (g : FGpio) (v : V) → (x : Bool × FGpio × V) × (turn_on V send now g v ≡ ok x)
  unfolding turn_on
  turn_on_answers now g v =
      let (r, u, e) = answers g.gpio_name Command.on v in (ordered_on now g (r, u), rw e refl)

  handle_gpio_raised :
      (now : ℕ) (a : AlarmInstance) (v : V)
      → a.raise_counter + 1 < 2 ^ 32
      → (b : AlarmInstance) × (u : V) × (handle_gpio V send persist to_string byte_of now
            state_raised a v
          ≡ ok (b, u))
        × (b.raise_counter ≡ a.raise_counter + 1)
        × (b.database ≡ a.database)
  unfolding handle_gpio
  handle_gpio_raised now a v small =
      let counted_up : (a.raise_counter + 1) % 2 ^ 32 ≡ a.raise_counter + 1 = omega arith in
      elim (Bool-cases (((a.raise_counter + 1) % 2 ^ 32 == 1) && not (is_empty a.gpio.gpio_name))) [
        | inl first ↦
            let (x, e) = turn_on_answers now a.gpio v in
            (
              record a { raise_counter = (a.raise_counter + 1) % 2 ^ 32; gpio = x.1 },
              x.2,
              rw (first, e) refl,
              counted_up,
              refl,
            )
        | inr more ↦ (
          record a { raise_counter = (a.raise_counter + 1) % 2 ^ 32 },
          v,
          rw more refl,
          counted_up,
          refl,
        )
      ]

  request_raised :
      (now type : ℕ) (reason : Bytes) (a : AlarmInstance) (v : V)
      → a.database ≡ none
      → a.raise_counter + 1 < 2 ^ 32
      → (b : AlarmInstance) × (u : V) × (handle_request V send persist to_string byte_of now
            (raise_alarm type reason)
            a
            v
          ≡ ok (codes "OK" ∷ [], b, u))
        × (b.raise_counter ≡ a.raise_counter + 1)
        × (b.database ≡ none)
  unfolding handle_request raise change_state entered stored
  request_raised now type reason a v plain small =
      let (b, u, e, more, same) = handle_gpio_raised now (record a { database = none }) v small in
      (b, u, rw plain (rw e refl), more, same)

  forced :
      (now : ℕ) (s : DoormanDoor) (d : AuthTarget) (alarm : Bytes) (a : AlarmInstance) (v : V)
      → a.database ≡ none
      → a.raise_counter + 1 < 2 ^ 32
      → s.alarm_forced ≡ []
      → s.contact_triggered ≡ true
      → leb now (s.contact_lastupdate + d.contact_duration) ≡ true
      → (b : AlarmInstance) × (u : V) × (check_alarm localtime World pins to_instance now s d
            (some alarm)
            (a, v)
          ≡ ok (s, (b, u)))
        × (b.raise_counter ≡ a.raise_counter + 1)
        × (b.database ≡ none)
  unfolding check_alarm raised_name
  forced now s d alarm a v plain small calm ajar early =
      let (b, u, e, more, same) =
        request_raised now 1 (codes "Door forced (opened too long).") a v plain small in
      (
        b,
        u,
        first_branch _ _ _ _ _ _ (ap is_empty calm) ajar early
            ∙ rw e (ap (λ x. ok (record s { alarm_forced = x }, (b, u))) (sym calm)),
        more,
        same,
      )

  -- The checks of a door at these times, as long as nothing is heard of its contact.
  abbrev pub checks :
      List ℕ → DoormanDoor → AuthTarget → Bytes → World → Result (DoormanDoor × World)
  checks [] s d alarm w = ok (s, w)
  checks (now ∷ later) s d alarm w =
      check_alarm localtime World pins to_instance now s d (some alarm) w >>= λ x.
      checks later x.0 d alarm x.1

  -- Where the pins answer, there is no database and the count of alarms does not wrap around: as soon as the contact opens, and for as long as
  -- it may stay open, every check raises an alarm of its own, and the door does not know of it.
  pub checks_raise :
      (times : List ℕ) (s : DoormanDoor) (d : AuthTarget) (alarm : Bytes) (a : AlarmInstance)
      (v : V)
      → a.database ≡ none
      → a.raise_counter + length times < 2 ^ 32
      → s.alarm_forced ≡ []
      → s.contact_triggered ≡ true
      → all (λ now. leb now (s.contact_lastupdate + d.contact_duration)) times ≡ true
      → (b : AlarmInstance) × (u : V) × (checks times s d alarm (a, v) ≡ ok (s, (b, u)))
        × (b.raise_counter ≡ a.raise_counter + length times)
  checks_raise [] s d alarm a v plain small calm ajar early = (a, v, refl, omega arith)
  checks_raise (now ∷ later) s d alarm a v plain small calm ajar early =
      let (first, rest) = both (leb now (s.contact_lastupdate + d.contact_duration)) _ early in
      let (b, u, e, more, same) = forced now s d alarm a v plain (omega arith) calm ajar first in
      let (c, x, f, total) =
        checks_raise later s d alarm b u same (omega (arith, more, small)) calm ajar rest in
      (c, x, rw e f, omega (arith, more, total))
