-- ===== src/Gpio/Piface.antt =====
-- modules/pifacedigital/PFDigitalPin.cpp, and the loop of PFDigitalModule.cpp. The board's registers
-- are a parameter: writing a bit of the output register, and reading one of each register.
use access_control.Prelude.{
  ℕ, ◌+◌, Bool, true, false, not, List, [], ◌∷◌, ◌++◌, Option, none, some, if◌then◌else◌,
}
use access_control.Gpio.{
  Command, on, on_for, off, toggle, state, other, Reply, ok_reply, ko_reply, on_reply, off_reply,
  Direction, input, output, is_due,
}

-- The messages that a pin publishes are its state each time, the oldest first.
pub record PfDigitalPin (Board : Type 0) : Type 0 where
  pub direction : Direction
  pub next_update_time : ℕ
  pub want_update : Bool
  pub board : Board
  pub published : List Bool

module _ {Board : Type 0} (write_bit : Bool → Board → Board)
    (read_bit : Direction → Board → Bool) where
  -- The direction says which register is read.
  unfoldable pub read_value : PfDigitalPin Board → Bool
  read_value p = read_bit p.direction p.board

  unfoldable pub publish_state : PfDigitalPin Board → PfDigitalPin Board
  unfolding read_value
  publish_state p = record p { published = p.published ++ read_value p ∷ [] }

  abbrev pub written : Bool → PfDigitalPin Board → PfDigitalPin Board
  unfolding publish_state
  written b p = publish_state (record p { board = write_bit b p.board })

  abbrev is_output : Direction → Bool
  is_output output = true
  is_output input = false

  -- An output only; the duration is the second frame of the message, if it has one.
  abbrev planned : ℕ → Option ℕ → PfDigitalPin Board → PfDigitalPin Board
  planned now none p = p
  planned now (some d) p = record p { next_update_time = now + d; want_update = true }

  unfoldable pub turn_on : ℕ → Option ℕ → PfDigitalPin Board → Bool × PfDigitalPin Board
  unfolding written
  turn_on now duration p =
      if is_output p.direction then (true, written true (planned now duration p)) else (false, p)

  unfoldable pub turn_off : PfDigitalPin Board → Bool × PfDigitalPin Board
  unfolding written
  turn_off p = if is_output p.direction then (true, written false p) else (false, p)

  unfoldable pub toggle_pin : PfDigitalPin Board → Bool × PfDigitalPin Board
  unfolding written
  toggle_pin p =
      if is_output p.direction
      then (true, written (not (read_bit output p.board)) p)
      else (false, p)

  abbrev replied : Bool × PfDigitalPin Board → Reply × PfDigitalPin Board
  replied (true, p) = (ok_reply, p)
  replied (false, p) = (ko_reply, p)

  unfoldable pub handle_message : ℕ → Command → PfDigitalPin Board → Reply × PfDigitalPin Board
  unfolding turn_on turn_off toggle_pin read_value
  handle_message now on p = replied (turn_on now none p)
  handle_message now (on_for d) p = replied (turn_on now (some d) p)
  handle_message now off p = replied (turn_off p)
  handle_message now toggle p = replied (toggle_pin p)
  handle_message now state p = if read_value p then (on_reply, p) else (off_reply, p)
  handle_message now other p = (ko_reply, p)

  unfoldable pub update : PfDigitalPin Board → PfDigitalPin Board
  unfolding turn_off
  update p = record (turn_off p).1 { want_update = false }

  unfoldable pub next_update : PfDigitalPin Board → Option ℕ
  next_update p = if p.want_update then some p.next_update_time else none

  -- What `run` does to a pin after each wait.
  unfoldable pub poll : ℕ → PfDigitalPin Board → PfDigitalPin Board
  unfolding update next_update
  poll now p = if is_due now (next_update p) then update p else p
