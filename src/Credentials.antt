-- ===== src/Credentials.antt =====
-- core/credentials/RFIDCard.cpp and PinCode.cpp: the validation of card ids and pin codes, and the
-- integer that a card id stands for. `std::stoull` and `std::istringstream` are the C++ library's.
-- `x >> k` is `x / 2 ^ k`, and `x & (2 ^ k - 1)` is `x % 2 ^ k`.
pub mod Hex
pub mod Wiegand26
use access_control.Prelude.{
  ℕ, ◌+◌, ◌-◌, ◌*◌, ◌/◌, ◌%◌, ◌^◌, Bool, true, false, not, ◌&&◌, ◌||◌, List, [], ◌∷◌, ◌++◌, ltb,
  leb, all, Bytes, nat_eq, ◌==◌, is_digit, ℤ, pos, pos_part, leb_ℤ, Result, ok, err, guard, ◌>>=◌,
  ◌>>◌, model_exception, invalid_argument, out_of_range, undefined_behaviour, aborted, length,
  beq_ℤ, if◌then◌else◌,
}

abbrev pub is_xdigit : ℕ → Bool
is_xdigit c = is_digit c || ((leb b'a' c && leb c b'f') || (leb b'A' c && leb c b'F'))

abbrev is_space : ℕ → Bool
is_space c = c == 32 || (leb 9 c && leb c 13)

-- Formatted input skips white space before each character.
unfoldable pub drop_spaces : Bytes → Bytes
drop_spaces [] = []
drop_spaces (c ∷ s) = let rest = drop_spaces s in if is_space c then rest else c ∷ rest

-- `!fail` at the end of the loop: two hexadecimal digits, then the end or a colon and more.
unfoldable pub pairs_accepted : Bytes → Bool
pairs_accepted [] = false
pairs_accepted (a ∷ []) = false
pairs_accepted (a ∷ b ∷ []) = is_xdigit a && is_xdigit b
pairs_accepted (a ∷ b ∷ c ∷ s) = (is_xdigit a && is_xdigit b) && (c == b':' && pairs_accepted s)

unfoldable pub validate_card_id : Bytes → Result (Unit {0})
validate_card_id card_id = guard (pairs_accepted (drop_spaces card_id)) model_exception

unfoldable pub validate_nb_bits : ℤ → Result (Unit {0})
validate_nb_bits nb = guard (not (leb_ℤ nb (pos 0))) model_exception

unfoldable pub validate_pin_code : Bytes → Result (Unit {0})
validate_pin_code pin = guard (all is_digit pin) model_exception

pub record RfidCard : Type 0 where
  pub card_id : Bytes
  pub nb_bits : ℤ

-- The constructor with two arguments goes through both setters.
unfoldable pub new_rfid_card : Bytes → ℤ → Result RfidCard
unfolding validate_card_id validate_nb_bits
new_rfid_card id bits = do
  validate_card_id id
  validate_nb_bits bits
  ok (record { card_id = id; nb_bits = bits })

unfoldable pub remove_colons : Bytes → Bytes
remove_colons [] = []
remove_colons (c ∷ s) = let rest = remove_colons s in if c == b':' then rest else c ∷ rest

abbrev pub hex_value : ℕ → ℕ
hex_value c = if is_digit c then c - 48 else if leb b'a' c then c - 87 else c - 55

-- The value of the longest prefix of hexadecimal digits.
unfoldable pub hex_prefix : ℕ → Bytes → ℕ
hex_prefix acc [] = acc
hex_prefix acc (c ∷ s) =
    let rest = hex_prefix (acc * 16 + hex_value c) s in if is_xdigit c then rest else acc

-- `std::stoull(s, nullptr, 16)`. A sign or a prefix `0x` is read by the library and not here: an id
-- that was validated holds neither.
unfoldable pub stoull_16 : Bytes → Result ℕ
stoull_16 [] = err invalid_argument
stoull_16 (c ∷ s) =
    let skipped = stoull_16 s in
    if is_space c
    then skipped
    else if not (is_xdigit c)
    then err invalid_argument
    else if ltb (hex_prefix 0 (c ∷ s)) (2 ^ 64)
    then ok (hex_prefix 0 (c ∷ s))
    else err out_of_range

-- `tmp >>= (64 - nb_bits_) % 8` in `int`: the remainder is negative, and the shift undefined, for
-- more than 64 bits that are no multiple of 8.
unfoldable pub to_raw_int : RfidCard → Result ℕ
unfolding stoull_16 remove_colons
to_raw_int card = do
  tmp ← stoull_16 (remove_colons card.card_id)
  let nb = pos_part card.nb_bits
  if leb nb 64
      then ok (tmp / 2 ^ ((64 - nb) % 8))
      else if (nb - 64) % 8 == 0
      then ok tmp
      else err undefined_behaviour

-- The assertions on the number of bits hold where `to_int` calls; those on the length of the id
-- stop a debug build.
unfoldable to_wiegand_26 : RfidCard → Result ℕ
unfolding to_raw_int
to_wiegand_26 card = do
  guard (length card.card_id == 11) aborted
  tmp ← to_raw_int card
  ok (tmp / 2 % 2 ^ 16)

unfoldable to_wiegand_34 : RfidCard → Result ℕ
unfolding to_raw_int
to_wiegand_34 card = do
  guard (length card.card_id == 14) aborted
  tmp ← to_raw_int card
  ok (tmp / 2 % 2 ^ 24)

unfoldable pub to_int : RfidCard → Result ℕ
unfolding to_raw_int to_wiegand_26 to_wiegand_34
to_int card =
    if beq_ℤ card.nb_bits (pos 26)
    then to_wiegand_26 card
    else if beq_ℤ card.nb_bits (pos 34)
    then to_wiegand_34 card
    else to_raw_int card
