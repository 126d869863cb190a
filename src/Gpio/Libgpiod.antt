-- ===== src/Gpio/Libgpiod.antt =====
-- modules/libgpiod/LibgpiodPin.cpp, and the loop of LibgpiodModule.cpp. The line of libgpiod is a
-- parameter: `gpiod_line_set_value` and `gpiod_line_get_value`, each with the number it returns.
use access_control.Prelude.{
  ℕ, ◌+◌, Bool, true, false, List, [], ◌∷◌, ◌++◌, Option, none, some, ℤ, pos, beq_ℤ, leb_ℤ, Result,
  ok, guard, ◌>>◌, ◌>>=◌, aborted, if◌then◌else◌,
}
use access_control.Gpio.{
  Command, on, on_for, off, toggle, state, other, Reply, ok_reply, ko_reply, is_due,
}

pub record LibgpiodPin (Line : Type 0) : Type 0 where
  pub next_update_time : Option ℕ
  pub line : Line
  pub published : List Bool

module _ {Line : Type 0} (set_value : Bool → Line → ℤ × Line) (get_value : Line → ℤ) where
  -- `ret == 1`, for what `gpiod_line_set_value` returned.
  abbrev pub set_line : Bool → LibgpiodPin Line → Bool × LibgpiodPin Line
  set_line v p =
      let (ret, line) = set_value v p.line in (beq_ℤ ret (pos 1), record p { line = line })

  unfoldable pub read_value : LibgpiodPin Line → Result Bool
  read_value p =
      guard (leb_ℤ (pos 0) (get_value p.line)) aborted >> ok (beq_ℤ (get_value p.line) (pos 1))

  abbrev planned : ℕ → Option ℕ → LibgpiodPin Line → LibgpiodPin Line
  planned now none p = p
  planned now (some d) p = record p { next_update_time = some (now + d) }

  unfoldable pub turn_on : ℕ → Option ℕ → LibgpiodPin Line → Bool × LibgpiodPin Line
  turn_on now duration p = set_line true (planned now duration p)

  unfoldable pub turn_off : LibgpiodPin Line → Bool × LibgpiodPin Line
  turn_off p = set_line false p

  abbrev toggled : LibgpiodPin Line → Bool → Result (Bool × LibgpiodPin Line)
  toggled p v = guard (leb_ℤ (pos 0) (set_value v p.line).0) aborted >> ok (set_line v p)

  -- The line is set to the value that was read.
  unfoldable pub toggle_pin : LibgpiodPin Line → Result (Bool × LibgpiodPin Line)
  unfolding read_value
  toggle_pin p = read_value p >>= λ v. toggled p (if v then true else false)

  unfoldable pub run_command : ℕ → Command → LibgpiodPin Line → Result (Bool × LibgpiodPin Line)
  unfolding turn_on turn_off toggle_pin
  run_command now on p = ok (turn_on now none p)
  run_command now (on_for d) p = ok (turn_on now (some d) p)
  run_command now off p = ok (turn_off p)
  run_command now toggle p = toggle_pin p
  run_command now state p = ok (false, p)
  run_command now other p = ok (false, p)

  unfoldable pub replied : Bool × LibgpiodPin Line → Result (Reply × LibgpiodPin Line)
  unfolding read_value
  replied (done, p) = read_value p >>= λ v.
      ok (if done then ok_reply else ko_reply, record p { published = p.published ++ v ∷ [] })

  unfoldable pub handle_message : ℕ → Command → LibgpiodPin Line → Result (Reply × LibgpiodPin Line)
  unfolding run_command replied
  handle_message now c p = run_command now c p >>= replied

  unfoldable pub update : LibgpiodPin Line → LibgpiodPin Line
  unfolding turn_off
  update p = record (turn_off p).1 { next_update_time = none }

  unfoldable pub poll : ℕ → LibgpiodPin Line → LibgpiodPin Line
  unfolding update
  poll now p = if is_due now p.next_update_time then update p else p
