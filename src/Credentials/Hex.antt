-- ===== src/Credentials/Hex.antt =====
-- Card ids as the Wiegand reader prints them: two lower-case digits for each byte, with colons.
use access_control.Prelude.{
  ℕ, ◌+◌, ◌*◌, ◌/◌, ◌%◌, ◌^◌, ◌≤◌, ◌<◌, ◌≡◌, ◌⊎◌, refl, ◌∙◌, true, List, [], ◌∷◌, ltb, Bytes,
  nat_eq, ok, arith, if◌then◌else◌,
}
use access_control.Credentials.{
  is_xdigit, drop_spaces, pairs_accepted, validate_card_id, remove_colons, hex_value, hex_prefix,
  stoull_16,
}

-- `std::hex` of a number below 16.
unfoldable pub hex_digit : ℕ → ℕ
hex_digit n = if ltb n 10 then n + 48 else n + 87

-- `std::hex << std::setfill('0') << std::setw(2)` for each byte, and ":" between two.
unfoldable pub join_hex : List ℕ → Bytes
join_hex [] = []
join_hex (b ∷ []) = hex_digit (b / 16) ∷ hex_digit (b % 16) ∷ []
join_hex (b ∷ c ∷ bs) = hex_digit (b / 16) ∷ hex_digit (b % 16) ∷ b':' ∷ join_hex (c ∷ bs)

abbrev pub AllBytes : List ℕ → Type 0
AllBytes [] = Unit {0}
AllBytes (b ∷ bs) = (b < 256) × AllBytes bs

abbrev pub big_endian : ℕ → List ℕ → ℕ
big_endian acc [] = acc
big_endian acc (b ∷ bs) = big_endian (acc * 256 + b) bs

abbrev flat_hex : List ℕ → Bytes
flat_hex [] = []
flat_hex (b ∷ bs) = hex_digit (b / 16) ∷ hex_digit (b % 16) ∷ flat_hex bs

-- A digit below `a`, or one of `a` to `f`.
hex_digit_cases :
    (n : ℕ) → n < 16 → ((hex_digit n ≡ n + 48) × (n < 10)) ⊎ ((hex_digit n ≡ n + 87) × (10 ≤ n))
unfolding hex_digit
hex_digit_cases n h = ground arith

remove_colons-join_hex : (bs : List ℕ) → AllBytes bs → remove_colons (join_hex bs) ≡ flat_hex bs
unfolding remove_colons join_hex
remove_colons-join_hex [] h = refl
remove_colons-join_hex (b ∷ []) h =
    let hi = hex_digit_cases (b / 16) (omega arith) in
    let lo = hex_digit_cases (b % 16) (omega arith) in ground arith
remove_colons-join_hex (b ∷ c ∷ bs) h =
    let hi = hex_digit_cases (b / 16) (omega arith) in
    let lo = hex_digit_cases (b % 16) (omega arith) in
    let rest = remove_colons-join_hex (c ∷ bs) h.1 in ground arith

drop_spaces-join_hex : (bs : List ℕ) → AllBytes bs → drop_spaces (join_hex bs) ≡ join_hex bs
unfolding drop_spaces join_hex
drop_spaces-join_hex [] h = refl
drop_spaces-join_hex (b ∷ []) h =
    let hi = hex_digit_cases (b / 16) (omega arith) in
    let lo = hex_digit_cases (b % 16) (omega arith) in ground arith
drop_spaces-join_hex (b ∷ c ∷ bs) h =
    let hi = hex_digit_cases (b / 16) (omega arith) in
    let lo = hex_digit_cases (b % 16) (omega arith) in
    let rest = drop_spaces-join_hex (c ∷ bs) h.1 in ground arith

pairs_accepted-join_hex :
    (b : ℕ) (bs : List ℕ) → AllBytes (b ∷ bs) → pairs_accepted (join_hex (b ∷ bs)) ≡ true
unfolding pairs_accepted join_hex
pairs_accepted-join_hex b [] h =
    let hi = hex_digit_cases (b / 16) (omega arith) in
    let lo = hex_digit_cases (b % 16) (omega arith) in ground arith
pairs_accepted-join_hex b (c ∷ bs) h =
    let hi = hex_digit_cases (b / 16) (omega arith) in
    let lo = hex_digit_cases (b % 16) (omega arith) in
    let rest = pairs_accepted-join_hex c bs h.1 in ground arith

-- The ids that the reader prints pass the validation.
pub validate_card_id-join_hex :
    (b : ℕ) (bs : List ℕ) → AllBytes (b ∷ bs) → validate_card_id (join_hex (b ∷ bs)) ≡ ok tt
unfolding validate_card_id
validate_card_id-join_hex b bs h =
    rw (drop_spaces-join_hex (b ∷ bs) h, pairs_accepted-join_hex b bs h) refl

hex_digit_value :
    (n : ℕ) → n < 16 → (is_xdigit (hex_digit n) ≡ true) × (hex_value (hex_digit n) ≡ n)
hex_digit_value n h = ground (arith, hex_digit_cases n h)

-- One byte of text is read as that byte.
hex_prefix_byte :
    (b acc : ℕ) (s : Bytes)
    → b < 256
    → hex_prefix acc (hex_digit (b / 16) ∷ hex_digit (b % 16) ∷ s) ≡ hex_prefix (acc * 256 + b) s
unfolding hex_prefix
hex_prefix_byte b acc s h =
    let hi = hex_digit_value (b / 16) (omega arith) in
    let lo = hex_digit_value (b % 16) (omega arith) in
    let join : (acc * 16 + b / 16) * 16 + b % 16 ≡ acc * 256 + b = omega arith in
    rw (hi.0, lo.0, hi.1, lo.1, join) refl

hex_prefix-flat_hex :
    (bs : List ℕ) (acc : ℕ) → AllBytes bs → hex_prefix acc (flat_hex bs) ≡ big_endian acc bs
hex_prefix-flat_hex [] acc h = unfold hex_prefix in refl
hex_prefix-flat_hex (b ∷ bs) acc h =
    hex_prefix_byte b acc (flat_hex bs) h.0 ∙ hex_prefix-flat_hex bs (acc * 256 + b) h.1

-- Reading the digits of a printed id back yields the bytes as one big-endian number.
pub stoull_16-join_hex :
    (b : ℕ) (bs : List ℕ)
    → AllBytes (b ∷ bs)
    → big_endian 0 (b ∷ bs) < 2 ^ 64
    → stoull_16 (remove_colons (join_hex (b ∷ bs))) ≡ ok (big_endian 0 (b ∷ bs))
unfolding stoull_16
stoull_16-join_hex b bs h small =
    let hi = hex_digit_cases (b / 16) (omega arith) in
    let read = hex_prefix-flat_hex (b ∷ bs) 0 h in
    rw (remove_colons-join_hex (b ∷ bs) h) (ground arith)
