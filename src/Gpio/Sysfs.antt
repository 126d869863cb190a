-- ===== src/Gpio/Sysfs.antt =====
-- modules/sysfsgpio/SysFSGPIOPin.cpp, and the loop of SysFsGpioModule.cpp. The value file is a
-- parameter: writing a number to it and reading it, both taken to succeed.
use access_control.Prelude.{
  ℕ, ◌+◌, Bool, true, false, List, [], ◌∷◌, ◌++◌, Option, none, some, nat_eq, ◌==◌, if◌then◌else◌,
}
use access_control.Gpio.{
  Command, on, on_for, off, toggle, state, other, Reply, ok_reply, ko_reply, is_due,
}

pub record SysFsGpioPin (File : Type 0) : Type 0 where
  pub next_update_time : Option ℕ
  pub file : File
  pub published : List Bool

module _ {File : Type 0} (write_value : ℕ → File → File) (file_value : File → ℕ) where
  -- Whatever the direction of the pin is.
  abbrev pub written : ℕ → SysFsGpioPin File → SysFsGpioPin File
  written v p = record p { file = write_value v p.file }

  abbrev planned : ℕ → Option ℕ → SysFsGpioPin File → SysFsGpioPin File
  planned now none p = p
  planned now (some d) p = record p { next_update_time = some (now + d) }

  unfoldable pub turn_on : ℕ → Option ℕ → SysFsGpioPin File → Bool × SysFsGpioPin File
  turn_on now duration p = (true, written 1 (planned now duration p))

  unfoldable pub turn_off : SysFsGpioPin File → Bool × SysFsGpioPin File
  turn_off p = (true, written 0 p)

  unfoldable pub toggle_pin : SysFsGpioPin File → Bool × SysFsGpioPin File
  toggle_pin p = (true, written (if file_value p.file == 1 then 0 else 1) p)

  unfoldable pub read_value : SysFsGpioPin File → Bool
  read_value p = file_value p.file == 1

  abbrev run_command : ℕ → Command → SysFsGpioPin File → Bool × SysFsGpioPin File
  unfolding turn_on turn_off toggle_pin
  run_command now on p = turn_on now none p
  run_command now (on_for d) p = turn_on now (some d) p
  run_command now off p = turn_off p
  run_command now toggle p = toggle_pin p
  run_command now state p = (false, p)
  run_command now other p = (false, p)

  -- After the reply, the new state is published.
  abbrev replied : Bool × SysFsGpioPin File → Reply × SysFsGpioPin File
  unfolding read_value
  replied (done, p) = (
    if done then ok_reply else ko_reply,
    record p { published = p.published ++ read_value p ∷ [] },
  )

  unfoldable pub handle_message : ℕ → Command → SysFsGpioPin File → Reply × SysFsGpioPin File
  unfolding run_command replied
  handle_message now c p = replied (run_command now c p)

  unfoldable pub update : SysFsGpioPin File → SysFsGpioPin File
  unfolding turn_off
  update p = record (turn_off p).1 { next_update_time = none }

  unfoldable pub poll : ℕ → SysFsGpioPin File → SysFsGpioPin File
  unfolding update
  poll now p = if is_due now p.next_update_time then update p else p
