-- ===== src/Wiegand/PinNBits.antt =====
-- modules/wiegand/strategies/WiegandPinNBitsOnly.cpp, for 4 or 8 bits per key, and
-- WiegandReaderImpl::timeout with it. `system_clock::now()` is an argument, in milliseconds, and
-- stands for every reading of the clock during one call.
use access_control.Prelude.{
  ℕ, ◌+◌, ◌-◌, ◌*◌, ◌/◌, ◌%◌, ◌^◌, Bytes, Bool, false, not, [], ◌∷◌, ◌++◌, codes, is_empty, Option,
  none, some, get_or, ltb, nat_eq, ◌==◌, Result, ok, guard, ◌>>=◌, ◌>>◌, aborted, if◌then◌else◌,
}
use access_control.Access.Source.{Message, text, source, wiegand_pin}
use access_control.Wiegand.{Reader, read_reset}

pub record WiegandPinNBitsOnly : Type 0 where
  pub inputs : Bytes
  pub ready : Bool
  pub last_update : ℕ

-- The loop over the four high bits, most significant first; eight-bit readers send their complement.
unfoldable key_value : ℕ → ℕ → ℕ
key_value nb_bits input =
    let bit : ℕ → ℕ =
      λ i. if nb_bits == 8 then 1 - input / 2 ^ (7 - i) % 2 else input / 2 ^ (7 - i) % 2 in
    bit 0 * 8 + bit 1 * 4 + bit 2 * 2 + bit 3

-- `std::to_string(n).at(0)` of a number below 16 is its first decimal digit.
unfoldable pub extract_from_raw : ℕ → ℕ → ℕ
unfolding key_value
extract_from_raw nb_bits input =
    let n = key_value nb_bits input in
    if n == 10 then b'*' else if n == 11 then b'#' else if ltb n 10 then b'0' + n else b'1'

abbrev end_of_input : WiegandPinNBitsOnly → WiegandPinNBitsOnly
end_of_input s = record s { ready = not (is_empty s.inputs) }

unfoldable pub reset : ℕ → Reader → WiegandPinNBitsOnly → Reader × WiegandPinNBitsOnly
unfolding read_reset
reset now r s = (read_reset r, record { inputs = []; ready = false; last_update = now })

module _ (nb_bits pin_timeout pin_end_key : ℕ) where
  abbrev key_pressed : ℕ → ℕ → WiegandPinNBitsOnly → WiegandPinNBitsOnly
  key_pressed now c s =
      if c == pin_end_key
      then end_of_input (record s { last_update = now })
      else record s { inputs = s.inputs ++ (c ∷ []); last_update = now }

  unfoldable pub timeout : ℕ → Reader → WiegandPinNBitsOnly → Reader × WiegandPinNBitsOnly
  unfolding extract_from_raw reset read_reset
  timeout now r s =
      if r.counter == 0
      then (r, if ltb pin_timeout (now - s.last_update) then end_of_input s else s)
      else if not (r.counter == nb_bits)
      then reset now r s
      else (read_reset r, key_pressed now (extract_from_raw nb_bits (get_or r.buffer 0 0)) s)

  unfoldable pub signal : Reader → WiegandPinNBitsOnly → Result Message
  signal r s = do
    guard s.ready aborted
    guard (not (is_empty s.inputs)) aborted
    ok (text (codes "S_" ++ r.name) ∷ source wiegand_pin ∷ text s.inputs ∷ [])

  -- `WiegandReaderImpl::timeout`: `signal` resets, and so does the reader after it.
  unfoldable pub reader_timeout :
      ℕ → Reader → WiegandPinNBitsOnly → Result (Option Message × Reader × WiegandPinNBitsOnly)
  unfolding timeout signal reset
  reader_timeout now r s =
      let (q, t) = timeout now r s in
      if not t.ready then ok (none, q, t) else do
        msg ← signal q t
        let again = reset now q t
        let left = reset now again.0 again.1
        ok (some msg, left.0, left.1)
