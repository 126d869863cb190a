-- ===== src/Wiegand/Bits.antt =====
-- Bits on the two data lines, and one bit written into a byte.
use access_control.Prelude.{
  ℕ, zero, suc, ◌+◌, ◌-◌, ◌*◌, ◌^◌, ◌<◌, ◌≡◌, refl, Bool, true, false, ◌&&◌, List, [], ◌∷◌,
  Bool-cases, nat_beq_iff, inl, inr, nat_eq, ◌==◌, arith,
}
use access_control.Wiegand.{Pulse, high, low, mark}

abbrev pub pulse_of : Bool → Pulse
pulse_of true = high
pulse_of false = low

abbrev pub bit_of : Bool → ℕ
bit_of true = 1
bit_of false = 0

-- The number that bits stand for, most significant first.
abbrev pub bits_value : ℕ → List Bool → ℕ
bits_value acc [] = acc
bits_value acc (b ∷ bs) = bits_value (acc * 2 + bit_of b) bs

abbrev pub pulses : List Bool → List Pulse
pulses [] = []
pulses (b ∷ bs) = pulse_of b ∷ pulses bs

-- A test that holds of every number below a bound.
abbrev below : ℕ → (ℕ → Bool) → Bool
below zero p = true
below (suc n) p = p n && below n p

below_lem : (n : ℕ) (p : ℕ → Bool) → below n p ≡ true → (i : ℕ) → i < n → p i ≡ true
below_lem zero p h i l = absurd (omega arith)
below_lem (suc n) p h i l = elim (Bool-cases (i == n)) [
  | inl e ↦ ground arith
  | inr e ↦ below_lem n p (ground arith) i (ground arith)
]

abbrev marked : Bool → ℕ → ℕ → Bool
marked b shift q = mark (pulse_of b) shift (q * 2 ^ (shift + 1)) == (q * 2 + bit_of b) * 2 ^ shift

marked_small : (b : Bool) (shift : ℕ) → shift < 8 → below (2 ^ (7 - shift)) (marked b shift) ≡ true
unfolding mark
marked_small true zero h = refl
marked_small true (suc zero) h = refl
marked_small true (suc (suc zero)) h = refl
marked_small true (suc (suc (suc zero))) h = refl
marked_small true (suc (suc (suc (suc zero)))) h = refl
marked_small true (suc (suc (suc (suc (suc zero))))) h = refl
marked_small true (suc (suc (suc (suc (suc (suc zero)))))) h = refl
marked_small true (suc (suc (suc (suc (suc (suc (suc zero))))))) h = refl
marked_small false zero h = refl
marked_small false (suc zero) h = refl
marked_small false (suc (suc zero)) h = refl
marked_small false (suc (suc (suc zero))) h = refl
marked_small false (suc (suc (suc (suc zero)))) h = refl
marked_small false (suc (suc (suc (suc (suc zero))))) h = refl
marked_small false (suc (suc (suc (suc (suc (suc zero)))))) h = refl
marked_small false (suc (suc (suc (suc (suc (suc (suc zero))))))) h = refl
marked_small _ (suc (suc (suc (suc (suc (suc (suc (suc n)))))))) h = absurd (omega arith)

-- One pulse writes one bit below those that a byte has.
pub mark_lem :
    (b : Bool) (shift q : ℕ)
    → shift < 8
    → q < 2 ^ (7 - shift)
    → mark (pulse_of b) shift (q * 2 ^ (shift + 1)) ≡ (q * 2 + bit_of b) * 2 ^ shift
mark_lem b shift q h small =
    (nat_beq_iff _ _).0
      (below_lem (2 ^ (7 - shift)) (marked b shift) (marked_small b shift h) q small)
