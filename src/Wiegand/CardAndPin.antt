-- ===== src/Wiegand/CardAndPin.antt =====
-- modules/wiegand/strategies/WiegandCardAndPin.cpp over SimpleWiegandStrategy and
-- WiegandPinNBitsOnly, and WiegandReaderImpl::timeout with it. Times are in milliseconds; the clock
-- does not go back.
use access_control.Prelude.{
  ℕ, ◌-◌, Bool, true, false, [], ◌∷◌, ◌++◌, codes, Option, none, some, ltb, nat_eq, ◌==◌, pos,
  if◌then◌else◌,
}
use access_control.Access.Source.{Message, text, number, source, wiegand_card_pin}
use access_control.Wiegand.{Reader, read_reset}
use access_control.Wiegand.Simple as Card
use access_control.Wiegand.PinNBits as Pin

pub record WiegandCardAndPin : Type 0 where
  pub read_card : Card.SimpleWiegandStrategy
  pub read_pin : Pin.WiegandPinNBitsOnly
  pub time_card_read : ℕ
  pub reading_card : Bool
  pub ready : Bool

unfoldable pub reset : ℕ → Reader → WiegandCardAndPin → Reader × WiegandCardAndPin
unfolding read_reset Card.new_simple
reset now r s = (
  read_reset r,
  record s {
    read_card = Card.new_simple;
    read_pin = record { inputs = []; ready = false; last_update = now };
    reading_card = true;
    ready = false;
  },
)

unfoldable pub signal : ℕ → Reader → WiegandCardAndPin → Message × Reader × WiegandCardAndPin
unfolding reset
signal now r s =
    let left = reset now r s in
    (
      text (codes "S_" ++ r.name)
          ∷ source wiegand_card_pin
          ∷ text s.read_card.card_id
          ∷ number (pos s.read_card.nb_bits)
          ∷ text s.read_pin.inputs
          ∷ [],
      left.0,
      left.1,
    )

module _ (nb_bits pin_timeout pin_end_key delay : ℕ) where
  abbrev pub card_timeout :
      ℕ → Reader → WiegandCardAndPin → Card.SimpleWiegandStrategy → Reader × WiegandCardAndPin
  card_timeout now r s card =
      if card.ready
      then (read_reset r, record s { read_card = card; reading_card = false; time_card_read = now })
      else (r, record s { read_card = card })

  abbrev pub pin_timeout_done :
      ℕ → Reader → WiegandCardAndPin → Reader × Pin.WiegandPinNBitsOnly → Reader × WiegandCardAndPin
  pin_timeout_done now r s (q, pin) = (
    q,
    record s {
      read_pin = pin;
      time_card_read = if r.counter == 0 then s.time_card_read else now;
      ready = if pin.ready then true else s.ready;
    },
  )

  unfoldable pub timeout : ℕ → Reader → WiegandCardAndPin → Reader × WiegandCardAndPin
  unfolding reset read_reset Card.timeout Pin.timeout
  timeout now r s =
      if s.reading_card
      then card_timeout now r s (Card.timeout r s.read_card)
      else if ltb delay (now - s.time_card_read)
      then reset now r s
      else pin_timeout_done now r s (Pin.timeout nb_bits pin_timeout pin_end_key now r s.read_pin)

  -- The message sent, if any, and what is left; `signal` resets, and so does the reader after it.
  abbrev pub finish : ℕ → Reader × WiegandCardAndPin → Option Message × Reader × WiegandCardAndPin
  finish now (q, t) =
      let (msg, q1, t1) = signal now q t in
      let left = reset now q1 t1 in if t.ready then (some msg, left.0, left.1) else (none, q, t)

  unfoldable pub reader_timeout :
      ℕ → Reader → WiegandCardAndPin → Option Message × Reader × WiegandCardAndPin
  unfolding timeout signal reset
  reader_timeout now r s = finish now (timeout now r s)
