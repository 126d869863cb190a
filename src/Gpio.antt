-- ===== src/Gpio.antt =====
-- hardware/facades/FGPIO.cpp: what the modules ask of a pin, over a bus of pins that is a parameter,
-- and tools/timeout.hpp. Times and durations count milliseconds; `none` is `time_point::max()`. A
-- pin that does not reply in time is `none` too.
pub mod Piface
pub mod Sysfs
pub mod Libgpiod
pub mod Pulse
pub mod Silent
pub mod Timeout
use access_control.Prelude.{
  ℕ, ◌+◌, ◌-◌, ◌%◌, ◌^◌, Bool, true, false, not, Bytes, List, [], ◌∷◌, Option, none, some, ltb, leb,
  ℤ, pos, negsuc, Failure, aborted, Result, ok, err, ◌>>=◌, if◌then◌else◌,
}

-- The frames of a request to a pin; `other` is a first frame that no pin knows.
pub data Command : Type 0 where
  on off toggle state other : Command
  on_for : ℕ → Command

pub data Reply : Type 0 where
  ok_reply ko_reply on_reply off_reply : Reply

pub data Direction : Type 0 where
  input output : Direction

pub record FGpio : Type 0 where
  pub gpio_name : Bytes
  pub lastupdate : ℕ

module _ (W : Type 0) (send : Bytes → Command → W → Option Reply × W) where
  abbrev received : Option Reply × W → Result (Reply × W)
  received (none, w) = err aborted
  received (some r, w) = ok (r, w)

  unfoldable pub request : FGpio → Command → W → Result (Reply × W)
  request g c w = received (send g.gpio_name c w)

  abbrev is_ok : Reply → Bool
  is_ok ok_reply = true
  is_ok _ = false

  -- A command; `at` is the time that an "OK" leaves in `lastupdate_`.
  abbrev pub ordered : ℕ → FGpio → Reply × W → Bool × FGpio × W
  ordered at g (r, w) = if is_ok r then (true, record g { lastupdate = at }, w) else (false, g, w)

  unfoldable pub turn_on : ℕ → FGpio → W → Result (Bool × FGpio × W)
  unfolding request
  turn_on now g w = request g on w >>= λ x. ok (ordered now g x)

  unfoldable pub turn_on_for : ℕ → ℕ → FGpio → W → Result (Bool × FGpio × W)
  unfolding request
  turn_on_for duration now g w =
      request g (on_for duration) w >>= λ x. ok (ordered (now + duration) g x)

  unfoldable pub turn_off : ℕ → FGpio → W → Result (Bool × FGpio × W)
  unfolding request
  turn_off now g w = request g off w >>= λ x. ok (ordered now g x)

  unfoldable pub toggle_gpio : ℕ → FGpio → W → Result (Bool × FGpio × W)
  unfolding request
  toggle_gpio now g w = request g toggle w >>= λ x. ok (ordered now g x)

  abbrev state_of : Reply × W → Result (Bool × W)
  state_of (on_reply, w) = ok (true, w)
  state_of (off_reply, w) = ok (false, w)
  state_of (_, w) = err aborted

  unfoldable pub is_on : FGpio → W → Result (Bool × W)
  unfolding request
  is_on g w = request g state w >>= state_of

  unfoldable pub is_off : FGpio → W → Result (Bool × W)
  unfolding is_on
  is_off g w = is_on g w >>= λ x. ok (not x.0, x.1)

-- `compute_timeout`: the time left to the soonest of the updates, -1 where there is none.
abbrev pub sooner : Option ℕ → Option ℕ → Option ℕ
sooner none best = best
sooner (some t) none = some t
sooner (some t) (some best) = if ltb t best then some t else some best

abbrev pub soonest : List (Option ℕ) → Option ℕ → Option ℕ
soonest [] best = best
soonest (t ∷ ts) best = soonest ts (sooner t best)

-- The low 32 bits of the time from now to then, which may be over.
abbrev pub low_bits : ℕ → ℕ → ℕ
low_bits now t = if ltb t now then (2 ^ 32 - (now - t) % 2 ^ 32) % 2 ^ 32 else (t - now) % 2 ^ 32

-- `int timeout` keeps these bits; where the sign bit is set it is negative, and 0 is returned.
abbrev pub time_left : ℕ → Option ℕ → ℤ
time_left now none = negsuc 0
time_left now (some t) = if ltb (low_bits now t) (2 ^ 31) then pos (low_bits now t) else pos 0

unfoldable pub compute_timeout : ℕ → List (Option ℕ) → ℤ
compute_timeout now ts = time_left now (soonest ts none)

-- `if (pin.next_update() < now)`
abbrev pub is_due : ℕ → Option ℕ → Bool
is_due now none = false
is_due now (some t) = ltb t now
