-- ===== src/Credentials/Wiegand26.antt =====
-- What a printed card id of n bits stands for: RFIDCard::to_raw_int and RFIDCard::to_int.
use access_control.Prelude.{
  ℕ, zero, suc, ◌+◌, ◌-◌, ◌*◌, ◌/◌, ◌%◌, ◌^◌, ◌≤◌, ◌<◌, ◌≡◌, refl, List, [], ◌∷◌, length, pos, ok,
  arith, ap, le→leb,
}
use native.Mathlib.Nat.{pow-suc}
use access_control.Credentials.{RfidCard, to_raw_int, to_int}
use access_control.Credentials.Hex.{join_hex, AllBytes, big_endian, stoull_16-join_hex}

-- The card that SimpleWiegandStrategy signals for these bytes of its buffer and this many bits.
abbrev pub printed : List ℕ → ℕ → RfidCard
printed bs n = record { card_id = join_hex bs; nb_bits = pos n }

big_endian-lt :
    (bs : List ℕ) (acc : ℕ) → AllBytes bs → big_endian acc bs < (acc + 1) * 256 ^ length bs
big_endian-lt [] acc h = omega arith
big_endian-lt (b ∷ bs) acc h =
    let rest = big_endian-lt bs (acc * 256 + b) h.1 in
    let grow : (acc * 256 + b + 1) * 256 ^ length bs ≤ (acc + 1) * 256 * 256 ^ length bs =
      grind arith in
    let unfold_pow : 256 ^ suc (length bs) ≡ 256 ^ length bs * 256 = pow-suc 256 (length bs) in
    omega (arith, ap (λ (t : ℕ). (acc + 1) * t) unfold_pow)

pow_256_le : (n : ℕ) → n ≤ 8 → 256 ^ n ≤ 2 ^ 64
pow_256_le zero h = omega arith
pow_256_le (suc zero) h = omega arith
pow_256_le (suc (suc zero)) h = omega arith
pow_256_le (suc (suc (suc zero))) h = omega arith
pow_256_le (suc (suc (suc (suc zero)))) h = omega arith
pow_256_le (suc (suc (suc (suc (suc zero))))) h = omega arith
pow_256_le (suc (suc (suc (suc (suc (suc zero)))))) h = omega arith
pow_256_le (suc (suc (suc (suc (suc (suc (suc zero))))))) h = omega arith
pow_256_le (suc (suc (suc (suc (suc (suc (suc (suc zero)))))))) h = omega arith
pow_256_le (suc (suc (suc (suc (suc (suc (suc (suc (suc n))))))))) h = absurd (omega arith)

-- A card of n bits, printed with as many bytes as n bits need and at most eight, stands for the
-- first n bits of those bytes.
pub to_raw_int-printed :
    (b : ℕ) (bs : List ℕ) (n : ℕ)
    → AllBytes (b ∷ bs)
    → length (b ∷ bs) ≤ 8
    → 8 * length bs < n
    → n ≤ 8 * length (b ∷ bs)
    → to_raw_int (printed (b ∷ bs) n) ≡ ok (big_endian 0 (b ∷ bs) / 2 ^ (8 * length (b ∷ bs) - n))
unfolding to_raw_int
to_raw_int-printed b bs n h short low high =
    let small : big_endian 0 (b ∷ bs) < 2 ^ 64 =
      omega (arith, big_endian-lt (b ∷ bs) 0 h, pow_256_le (length (b ∷ bs)) short) in
    let drop : (64 - n) % 8 ≡ 8 * length (b ∷ bs) - n = omega arith in
    let fits = le→leb n 64 (omega arith) in rw (stoull_16-join_hex b bs h small, fits, drop) refl

module _ (b0 b1 b2 b3 : ℕ) (h : AllBytes (b0 ∷ b1 ∷ b2 ∷ b3 ∷ [])) where
  -- A 26-bit frame is a parity bit, an 8-bit facility code, a 16-bit card number and a parity bit,
  -- followed in the buffer by six zeros: the card stands for its number.
  pub to_int-wiegand_26 :
      (p facility number q : ℕ)
      → number < 2 ^ 16
      → q < 2
      → big_endian 0 (b0 ∷ b1 ∷ b2 ∷ b3 ∷ [])
        ≡ (((p * 256 + facility) * 2 ^ 16 + number) * 2 + q) * 64
      → to_int (printed (b0 ∷ b1 ∷ b2 ∷ b3 ∷ []) 26) ≡ ok number
  unfolding to_int join_hex
  to_int-wiegand_26 p facility number q small bit frame =
      let raw =
        to_raw_int-printed b0 (b1 ∷ b2 ∷ b3 ∷ []) 26 h (omega arith) (omega arith) (omega arith) in
      let value : big_endian 0 (b0 ∷ b1 ∷ b2 ∷ b3 ∷ []) / 2 ^ 6 / 2 % 2 ^ 16 ≡ number =
        omega arith in
      rw raw (ap ok value)

-- A 34-bit frame printed as five bytes: the card stands for the 24 bits before the last parity bit.
pub to_int-wiegand_34 :
    (b0 b1 b2 b3 b4 : ℕ)
    → AllBytes (b0 ∷ b1 ∷ b2 ∷ b3 ∷ b4 ∷ [])
    → (high number q : ℕ) → number < 2 ^ 24
    → q < 2
    → big_endian 0 (b0 ∷ b1 ∷ b2 ∷ b3 ∷ b4 ∷ []) ≡ ((high * 2 ^ 24 + number) * 2 + q) * 64
    → to_int (printed (b0 ∷ b1 ∷ b2 ∷ b3 ∷ b4 ∷ []) 34) ≡ ok number
unfolding to_int join_hex
to_int-wiegand_34 b0 b1 b2 b3 b4 h high number q small bit frame =
    let bytes = b1 ∷ b2 ∷ b3 ∷ b4 ∷ [] in
    let raw = to_raw_int-printed b0 bytes 34 h (omega arith) (omega arith) (omega arith) in
    let value : big_endian 0 (b0 ∷ bytes) / 2 ^ 6 / 2 % 2 ^ 24 ≡ number = omega arith in
    rw raw (ap ok value)
