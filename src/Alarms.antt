-- ===== src/Alarms.antt =====
-- modules/alarms/AlarmInstance.cpp and AlarmEntry.cpp, and hardware/facades/FAlarm.cpp, which asks
-- an instance for its service. The bus of pins, the number that the database gives to an entry and
-- the reading of one byte from a frame (zmqpp) are parameters. An entry keeps its state and its
-- type; the database is the list of the entries, or `none` for the null pointer.
pub mod Replies
use access_control.Prelude.{
  ℕ, ◌+◌, ◌-◌, ◌%◌, ◌^◌, Bool, true, false, not, ◌&&◌, ◌||◌, Bytes, codes, is_empty, List, [], ◌∷◌,
  Option, none, some, lookup, insert, length, nat_eq, bytes_eq, ◌==◌, ltb, stoull, Failure, aborted,
  undefined_behaviour, entity_not_found, Result, ok, err, guard, enforce, ◌>>◌, ◌>>=◌,
  if◌then◌else◌,
}
use access_control.Gpio.{Command, Reply, FGpio, turn_on, turn_off}

pub data AlarmState : Type 0 where
  state_default state_raised state_disarmed state_resolved state_unknown : AlarmState

-- The requests by their frames; `unrecognized` is any other message, such as "DISARM".
pub data Request : Type 0 where
  raise_alarm : ℕ → Bytes → Request
  get_state : Bytes → Request
  set_state : Bytes → AlarmState → Request
  unrecognized : Request

pub record AlarmEntry : Type 0 where
  pub state : AlarmState
  pub type : ℕ
  pub reason : Bytes

pub record AlarmInstance : Type 0 where
  pub database : Option (List (ℕ × AlarmEntry))
  pub gpio : FGpio
  pub raise_counter : ℕ

abbrev pub same_state : AlarmState → AlarmState → Bool
same_state state_default state_default = true
same_state state_raised state_raised = true
same_state state_disarmed state_disarmed = true
same_state state_resolved state_resolved = true
same_state state_unknown state_unknown = true
same_state _ _ = false

unfoldable pub finalized : AlarmEntry → Bool
finalized e = same_state e.state state_default || same_state e.state state_raised

-- The setters of an entry.
unfoldable pub change_type : ℕ → AlarmEntry → Result AlarmEntry
unfolding finalized
change_type t e = guard (not (finalized e)) aborted >> ok (record e { type = t })

unfoldable pub change_entry : AlarmState → AlarmEntry → Result AlarmEntry
unfolding finalized
change_entry st e = guard (not (finalized e)) aborted >> ok (record e { state = st })

unfoldable pub new_entry : AlarmEntry
new_entry = record { state = state_default; type = 0; reason = [] }

module _ (W : Type 0) (send : Bytes → Command → W → Option Reply × W)
    (persist : List (ℕ × AlarmEntry) → ℕ) (to_string : ℕ → Bytes) (byte_of : Bytes → Result ℕ) where
  -- `AlarmEntry::create`: the number of the entry, and the database.
  unfoldable pub create : ℕ → Bytes → List (ℕ × AlarmEntry) → Result (ℕ × List (ℕ × AlarmEntry))
  unfolding change_type new_entry
  create type reason db = change_type type new_entry >>= λ e.
      ok (persist db, insert (persist db) (record e { reason = reason }) db)

  abbrev pub counted : AlarmInstance → Result (Bool × FGpio × W) → Result (AlarmInstance × W)
  counted a (err e) = err e
  counted a (ok (done, g, w)) = ok (record a { gpio = g }, w)

  -- One alarm less; the pin goes off with the last.
  abbrev pub lowered : ℕ → AlarmInstance → W → Result (AlarmInstance × W)
  lowered now a w =
      let fewer = record a { raise_counter = a.raise_counter - 1 } in
      if ltb 0 a.raise_counter
      then if (fewer.raise_counter == 0) && not (is_empty a.gpio.gpio_name)
        then counted fewer (turn_off W send now a.gpio w)
        else ok (fewer, w)
      else ok (a, w)

  unfoldable pub handle_gpio : ℕ → AlarmState → AlarmInstance → W → Result (AlarmInstance × W)
  handle_gpio now state_raised a w =
      let more = record a { raise_counter = (a.raise_counter + 1) % 2 ^ 32 } in
      if (more.raise_counter == 1) && not (is_empty a.gpio.gpio_name)
      then counted more (turn_on W send now a.gpio w)
      else ok (more, w)
  handle_gpio now state_disarmed a w = lowered now a w
  handle_gpio now state_resolved a w = lowered now a w
  handle_gpio now state_default a w = ok (a, w)
  handle_gpio now state_unknown a w = ok (a, w)

  unfoldable pub store_state :
      ℕ → AlarmState → List (ℕ × AlarmEntry) → AlarmEntry → Result (List (ℕ × AlarmEntry))
  unfolding change_entry
  store_state i st db e =
      guard (same_state e.state state_raised) aborted >> change_entry st e >>= λ changed.
      ok (insert i changed db)

  unfoldable pub stored :
      Bytes → AlarmState → Option (List (ℕ × AlarmEntry)) → Result (Option (List (ℕ × AlarmEntry)))
  unfolding store_state
  stored alarm st none = ok none
  stored alarm st (some db) = stoull alarm >>= λ i.
      enforce (lookup i db) entity_not_found >>= store_state i st db >>= λ after. ok (some after)

  unfoldable pub change_state :
      ℕ → Bytes → AlarmState → AlarmInstance → W → Result (AlarmInstance × W)
  unfolding handle_gpio stored
  change_state now alarm st a w =
      stored alarm st a.database >>= λ db. handle_gpio now st (record a { database = db }) w

  unfoldable pub entered :
      ℕ → Bytes → Option (List (ℕ × AlarmEntry)) → Result (Bytes × Option (List (ℕ × AlarmEntry)))
  unfolding create
  entered type reason none = ok (codes "single", none)
  entered type reason (some db) =
      create type reason db >>= λ made. ok (to_string made.0, some made.1)

  -- The name of the alarm that was raised.
  unfoldable pub raise : ℕ → ℕ → Bytes → AlarmInstance → W → Result (Bytes × AlarmInstance × W)
  unfolding change_state entered
  raise now type reason a w = entered type reason a.database >>= λ made.
      change_state now made.0 state_raised (record a { database = made.1 }) w >>= λ after.
      ok (made.0, after.0, after.1)

  abbrev pub state_in : Bytes → Option (List (ℕ × AlarmEntry)) → Result AlarmState
  state_in alarm none = ok state_unknown
  state_in alarm (some db) =
      stoull alarm >>= λ i. enforce (lookup i db) entity_not_found >>= λ e. ok e.state

  -- An exception is answered with "KO"; a process that is aborted does not answer.
  abbrev pub caught :
      AlarmInstance × W
      → Result (List Bytes × AlarmInstance × W)
      → Result (List Bytes × AlarmInstance × W)
  caught before (ok x) = ok x
  caught before (err aborted) = err aborted
  caught before (err undefined_behaviour) = err undefined_behaviour
  caught before (err e) = ok (codes "KO" ∷ [], before.0, before.1)

  -- The reply is "OK" alone: `>>` reads the frame "OK" back from it and adds nothing.
  unfoldable pub handle_request :
      ℕ → Request → AlarmInstance → W → Result (List Bytes × AlarmInstance × W)
  unfolding raise change_state
  handle_request now (raise_alarm type reason) a w =
      caught (a, w) (raise now type reason a w >>= λ x. ok (codes "OK" ∷ [], x.1, x.2))
  handle_request now (get_state alarm) a w =
      caught (a, w)
        (state_in alarm a.database >>= λ st.
          byte_of (codes "OK") >>= λ b. ok (codes "OK" ∷ [], a, w))
  handle_request now (set_state alarm st) a w =
      caught (a, w) (change_state now alarm st a w >>= λ x. ok (codes "OK" ∷ [], x.0, x.1))
  handle_request now unrecognized a w = ok (codes "KO" ∷ [], a, w)

-- hardware/facades/FAlarm.cpp: what the frames of a reply mean to who asked.
abbrev pub second_frame : List Bytes → Bytes
second_frame (status ∷ argument ∷ []) = if status == codes "OK" then argument else []
second_frame _ = []

abbrev first_is_ok : List Bytes → Bool
first_is_ok [] = false
first_is_ok (status ∷ rest) = status == codes "OK"

-- `raise` gives the name of the alarm, empty where the reply has none.
unfoldable pub raised_name : List Bytes → Bytes
raised_name frames = second_frame frames

unfoldable pub disarmed : List Bytes → Bool
disarmed frames = first_is_ok frames
