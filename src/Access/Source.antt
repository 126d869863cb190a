-- ===== src/Access/Source.antt =====
-- core/auth/AuthSourceBuilder.cpp: the credential that an authentication message carries. Frames
-- arrive typed as the readers of this repository write them; a frame of another type is the
-- conversion error of zmqpp, which is not part of the repository.
use access_control.Prelude.{
  ◌-◌, ◌*◌, ◌%◌, ◌^◌, List, [], ◌∷◌, Option, none, some, Bytes, bytes_eq, nat_eq, ◌==◌, ltb, length,
  ℤ, pos, Result, ok, err, guard, ◌>>=◌, ◌>>◌, aborted, bad_frame, leosac_exception, if◌then◌else◌,
  ◌&&◌, enforce,
}
use access_control.Credentials.{new_rfid_card, validate_pin_code, remove_colons}
use access_control.Access.Validity.{new_validity}
use access_control.Access.Mapper.{Credential, Token, rfid_card, pin_code, rfid_card_pin}

-- `enum class SourceType : uint8_t`; any other value is `other_source`.
pub data SourceType : Type 0 where
  simple_wiegand wiegand_pin wiegand_card_pin simple_csn other_source : SourceType

pub data Frame : Type 0 where
  text : Bytes → Frame
  number : ℤ → Frame
  source : SourceType → Frame

abbrev pub Message : Type 0
Message = List Frame

abbrev pub as_text : Frame → Result Bytes
as_text (text s) = ok s
as_text (number z) = err bad_frame
as_text (source t) = err bad_frame

abbrev as_number : Frame → Result ℤ
as_number (text s) = err bad_frame
as_number (number z) = ok z
as_number (source t) = err bad_frame

abbrev as_source : Frame → Result SourceType
as_source (text s) = err bad_frame
as_source (number z) = err bad_frame
as_source (source t) = ok t

-- A credential as its constructor leaves it.
unfoldable pub fresh_credential : Token → Credential
unfolding new_validity
fresh_credential t = record { token = t; id = 0; owner = none; alias = []; validity = new_validity }

unfoldable create_simple_wiegand : Message → Result Credential
create_simple_wiegand (f1 ∷ f2 ∷ []) = do
  card_id ← as_text f1
  bits ← as_number f2
  card ← new_rfid_card card_id bits
  ok (fresh_credential (rfid_card card.card_id card.nb_bits))
create_simple_wiegand _ = err aborted

unfoldable create_pincode : Message → Result Credential
create_pincode (f1 ∷ []) = do
  pin ← as_text f1
  validate_pin_code pin
  ok (fresh_credential (pin_code pin))
create_pincode _ = err aborted

unfoldable create_wiegand_card_pin : Message → Result Credential
create_wiegand_card_pin (f1 ∷ f2 ∷ f3 ∷ []) = do
  card_id ← as_text f1
  bits ← as_number f2
  pin ← as_text f3
  card ← new_rfid_card card_id bits
  validate_pin_code pin
  ok (fresh_credential (rfid_card_pin card.card_id card.nb_bits pin))
create_wiegand_card_pin _ = err aborted

-- The number of bits is eight for each character of the id without its colons.
unfoldable create_simple_csn : Message → Result Credential
create_simple_csn (f1 ∷ []) = do
  card_id ← as_text f1
  let raw_csn = remove_colons card_id
  guard (length raw_csn % 2 == 0) leosac_exception
  let bits = length raw_csn * 8
  guard (ltb bits (2 ^ 31 - 1)) aborted
  card ← new_rfid_card card_id (pos bits)
  ok (fresh_credential (rfid_card card.card_id card.nb_bits))
create_simple_csn _ = err aborted

-- `input.size() > 2 && input.substr(0, 2) == "S_"`, and what follows.
unfoldable extract_source_name : Bytes → Option Bytes
extract_source_name (a ∷ b ∷ c ∷ s) = if a == b'S' && b == b'_' then some (c ∷ s) else none
extract_source_name _ = none

abbrev by_type : SourceType → Message → Result Credential
by_type simple_wiegand rest = create_simple_wiegand rest
by_type wiegand_pin rest = create_pincode rest
by_type wiegand_card_pin rest = create_wiegand_card_pin rest
by_type simple_csn rest = create_simple_csn rest
by_type other_source rest = err leosac_exception

-- The name is only checked and logged.
unfoldable pub create : Message → Result Credential
unfolding extract_source_name create_simple_wiegand create_pincode create_wiegand_card_pin
    create_simple_csn
create (f1 ∷ f2 ∷ rest) = do
  source_name ← as_text f1
  type ← as_source f2
  name ← enforce (extract_source_name source_name) aborted
  by_type type rest
create _ = err aborted
