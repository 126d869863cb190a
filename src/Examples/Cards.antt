-- ===== src/Examples/Cards.antt =====
-- A card of 26 bits and one of 34.
use access_control.Prelude.{ℕ, ◌≡◌, ◌/◌, ◌^◌, ◌*◌, ◌-◌, [], ◌∷◌, length, ok, arith}
use access_control.Credentials.{to_raw_int}
use access_control.Credentials.Hex.{AllBytes, big_endian}
use access_control.Credentials.Wiegand26.{printed, to_raw_int-printed}

four_bytes : AllBytes (128 ∷ 129 ∷ 1 ∷ 128 ∷ [])
four_bytes = (omega arith, (omega arith, (omega arith, (omega arith, tt))))

five_bytes : AllBytes (128 ∷ 129 ∷ 1 ∷ 2 ∷ 128 ∷ [])
five_bytes = (omega arith, (omega arith, (omega arith, (omega arith, (omega arith, tt)))))

to_raw_int-printed_example :
    to_raw_int (printed (128 ∷ 129 ∷ 1 ∷ 128 ∷ []) 26)
    ≡ ok (
        big_endian 0 (128 ∷ 129 ∷ 1 ∷ 128 ∷ [])
        / 2 ^ (8 * length {A = ℕ} (128 ∷ 129 ∷ 1 ∷ 128 ∷ []) - 26))
to_raw_int-printed_example =
    to_raw_int-printed 128 (129 ∷ 1 ∷ 128 ∷ []) 26 four_bytes (omega arith) (omega arith)
      (omega arith)
