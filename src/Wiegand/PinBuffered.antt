-- ===== src/Wiegand/PinBuffered.antt =====
-- modules/wiegand/strategies/WiegandPinBuffered.cpp.
use access_control.Prelude.{
  ℕ, zero, suc, ◌+◌, ◌-◌, ◌*◌, ◌/◌, ◌%◌, ◌^◌, Bytes, Bool, true, false, not, List, [], get_or, ltb,
  ◌≡◌, refl, nat_eq, ◌==◌, bit_or, Result, ok, err, ◌>>=◌, undefined_behaviour, if◌then◌else◌,
}
use access_control.Wiegand.{Reader, read_reset}

pub record WiegandPinBuffered : Type 0 where
  pub ready : Bool
  pub pin : Bytes

-- `for (i = 9; i < 26; ++i) n |= bit_i << (15 - (i - 9));`, with `steps` rounds to go. A shift by a
-- negative count, at i = 25, is undefined.
unfoldable pin_loop : ℕ → ℕ → List ℕ → ℕ → Result ℕ
pin_loop zero i buf n = ok n
pin_loop (suc steps) i buf n =
    let v = get_or buf (i / 8) 0 / 2 ^ (7 - i % 8) % 2 in
    let rest = pin_loop steps (i + 1) buf (bit_or n (v * 2 ^ (15 - (i - 9)))) in
    if ltb 15 (i - 9) then err undefined_behaviour else rest

module _ (to_string : ℕ → Bytes) where
  unfoldable pub timeout : Reader → WiegandPinBuffered → Result (Reader × WiegandPinBuffered)
  unfolding pin_loop read_reset
  timeout r s =
      if r.counter == 0
      then ok (r, s)
      else if not (r.counter == 26)
      then ok (read_reset r, record { ready = false; pin = [] })
      else do
        n ← pin_loop 17 9 r.buffer 0
        if n == 65535 then ok (r, s) else ok (r, record { ready = true; pin = to_string n })

  -- On a reader that holds 26 bits, the only number that the timeout accepts, it runs into a shift by
  -- a negative count, which is undefined.
  pub timeout_undefined :
      (r : Reader) (s : WiegandPinBuffered) → r.counter ≡ 26 → timeout r s ≡ err undefined_behaviour
  unfolding timeout
  timeout_undefined r s h = rw h refl
