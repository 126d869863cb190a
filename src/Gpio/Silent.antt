-- ===== src/Gpio/Silent.antt =====
-- What the pins of the kernel's interfaces answer.
use access_control.Prelude.{
  ℕ, ◌+◌, guard, ◌>>◌, ◌>>=◌, ◌≡◌, refl, ap, Bool, true, false, [], ◌∷◌, ◌++◌, some, ℤ, pos, beq_ℤ,
  leb_ℤ, Result, ok, aborted,
}
use access_control.Gpio.{Command, on, on_for, off, toggle, state, other, ko_reply}
use access_control.Gpio.Libgpiod as Libgpiod
use access_control.Gpio.Libgpiod.{LibgpiodPin}

-- The level of a line after a command.
abbrev pub level_after : Command → Bool → Bool
level_after on before = true
level_after (on_for d) before = true
level_after off before = false
level_after toggle before = before
level_after state before = before
level_after other before = before

abbrev pub number_of : Bool → ℤ
number_of true = pos 1
number_of false = pos 0

module _ {Line : Type 0} (set_value : Bool → Line → ℤ × Line) (get_value : Line → ℤ)
    (level : Line → Bool) (reads : (l : Line) → get_value l ≡ number_of (level l))
    (returns : (b : Bool) (l : Line) → (set_value b l).0 ≡ pos 0)
    (sets : (b : Bool) (l : Line) → level (set_value b l).1 ≡ b) where
  read_number :
      (n : ℤ) (b : Bool)
      → n ≡ number_of b
      → (guard (leb_ℤ (pos 0) n) aborted >> ok (beq_ℤ n (pos 1))) ≡ ok b
  read_number n true e = rw e refl
  read_number n false e = rw e refl

  read_level :
      (p : LibgpiodPin Line) → Libgpiod.read_value set_value get_value p ≡ ok (level p.line)
  unfolding Libgpiod.read_value
  read_level p = read_number (get_value p.line) (level p.line) (reads p.line)

  replied_ko :
      (p : LibgpiodPin Line) (b : Bool)
      → level p.line ≡ b
      → (q : LibgpiodPin Line) × (Libgpiod.replied set_value get_value (false, p)
          ≡ ok (ko_reply, q))
        × (level q.line ≡ b)
  unfolding Libgpiod.replied
  replied_ko p b e =
      (record p { published = p.published ++ level p.line ∷ [] }, rw (read_level p) refl, e)

  set_line_ko :
      (v : Bool) (p : LibgpiodPin Line)
      → Libgpiod.set_line set_value get_value v p
        ≡ (false, record p { line = (set_value v p.line).1 })
  set_line_ko v p = rw (returns v p.line) refl

  toggle_ko :
      (p : LibgpiodPin Line) (b : Bool)
      → level p.line ≡ b
      → Libgpiod.toggle_pin set_value get_value p
        ≡ ok (false, record p { line = (set_value b p.line).1 })
  unfolding Libgpiod.toggle_pin
  toggle_ko p true e = rw (read_level p, e) (rw (returns true p.line) refl)
  toggle_ko p false e = rw (read_level p, e) (rw (returns false p.line) refl)

  finish :
      (r : Result (Bool × LibgpiodPin Line)) (p : LibgpiodPin Line) (b : Bool)
      → r ≡ ok (false, p)
      → level p.line ≡ b
      → (q : LibgpiodPin Line) × ((r >>= Libgpiod.replied set_value get_value) ≡ ok (ko_reply, q))
        × (level q.line ≡ b)
  finish r p b e l = rw e (replied_ko p b l)

  -- With `gpiod_line_set_value` returning 0 for success, a pin of libgpiod answers every command with
  -- "KO". It obeys "ON" and "OFF" all the same, and "TOGGLE" leaves the line as it was.
  pub libgpiod_refuses :
      (now : ℕ) (c : Command) (p : LibgpiodPin Line)
      → (q : LibgpiodPin Line) × (Libgpiod.handle_message set_value get_value now c p
          ≡ ok (ko_reply, q))
        × (level q.line ≡ level_after c (level p.line))
  unfolding Libgpiod.handle_message Libgpiod.run_command Libgpiod.turn_on Libgpiod.turn_off
  libgpiod_refuses now on p =
      finish (Libgpiod.run_command set_value get_value now on p) _ true (ap ok (set_line_ko true p))
        (sets true p.line)
  libgpiod_refuses now (on_for d) p =
      finish (Libgpiod.run_command set_value get_value now (on_for d) p) _ true
        (ap ok (set_line_ko true (record p { next_update_time = some (now + d) })))
        (sets true p.line)
  libgpiod_refuses now off p =
      finish (Libgpiod.run_command set_value get_value now off p) _ false
        (ap ok (set_line_ko false p)) (sets false p.line)
  libgpiod_refuses now toggle p =
      finish (Libgpiod.run_command set_value get_value now toggle p) _ (level p.line)
        (toggle_ko p (level p.line) refl) (sets (level p.line) p.line)
  libgpiod_refuses now state p = replied_ko p (level p.line) refl
  libgpiod_refuses now other p = replied_ko p (level p.line) refl
