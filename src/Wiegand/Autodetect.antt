-- ===== src/Wiegand/Autodetect.antt =====
-- modules/wiegand/strategies/Autodetect.cpp over SimpleWiegandStrategy and WiegandPinNBitsOnly, and
-- WiegandReaderImpl::timeout with it. Times are in milliseconds; the clock does not go back. The member
-- `reading_card_` is never read, and left out. A code
-- strategy comes with its bits per key; `none` is the null pointer, whose use is undefined.
use access_control.Prelude.{
  ℕ, ◌-◌, Bytes, Bool, true, false, not, ◌&&◌, ◌||◌, [], ◌∷◌, ◌++◌, codes, is_empty, Option, none,
  some, ltb, nat_eq, ◌==◌, pos, Result, ok, err, ◌>>=◌, undefined_behaviour, if◌then◌else◌,
}
use access_control.Access.Source.{
  Message, text, number, source, simple_wiegand, wiegand_pin, wiegand_card_pin,
}
use access_control.Wiegand.{Reader, read_reset}
use access_control.Wiegand.Simple as Card
use access_control.Wiegand.PinNBits as Pin

abbrev pub Keypad : Type 0
Keypad = ℕ × Pin.WiegandPinNBitsOnly

pub record Autodetect : Type 0 where
  pub read_card : Card.SimpleWiegandStrategy
  pub read_pin : Option Keypad
  pub time_card_read : ℕ
  pub last_pin_read : ℕ
  pub reading_pin : Bool
  pub ready : Bool

-- `reading_pin_` stays.
unfoldable pub reset : Reader → Autodetect → Reader × Autodetect
unfolding read_reset Card.new_simple
reset r s = (read_reset r, record s { read_card = Card.new_simple; read_pin = none; ready = false })

abbrev pub with_card : Autodetect → Bool
with_card s = not (s.read_card.nb_bits == 0)

abbrev pub typed_inputs : Option Keypad → Bytes
typed_inputs none = []
typed_inputs (some (n, pin)) = pin.inputs

abbrev pub with_pin : Autodetect → Bool
with_pin s = not (is_empty (typed_inputs s.read_pin))

-- The frames behind the name of the source.
abbrev pub frames : Bool → Bool → Card.SimpleWiegandStrategy → Bytes → Message
frames true true card pin =
    source wiegand_card_pin ∷ text card.card_id ∷ number (pos card.nb_bits) ∷ text pin ∷ []
frames true false card pin =
    source simple_wiegand ∷ text card.card_id ∷ number (pos card.nb_bits) ∷ []
frames false true card pin = source wiegand_pin ∷ text pin ∷ []
frames false false card pin = []

unfoldable pub signal : Reader → Autodetect → Message
signal r s =
    text (codes "S_" ++ r.name)
    ∷ frames (with_card s) (with_pin s) s.read_card (typed_inputs s.read_pin)

module _ (delay pin_key_end : ℕ) (nowait : Bool) where
  abbrev pub keypad_of : ℕ → Reader → Option Keypad → Keypad
  keypad_of now r (some keypad) = keypad
  keypad_of now r none = (r.counter, record { inputs = []; ready = false; last_update = now })

  -- A code that is complete makes the strategy ready, and resets the reader.
  abbrev pub after_pin : Autodetect → ℕ → Reader × Pin.WiegandPinNBitsOnly → Reader × Autodetect
  after_pin s n (q, pin) =
      if pin.ready
      then (read_reset q, record s { read_pin = some (n, pin); ready = true; reading_pin = false })
      else (q, record s { read_pin = some (n, pin) })

  abbrev pub key_read : ℕ → Reader → Autodetect → Keypad → Reader × Autodetect
  key_read now r s (n, pin) =
      after_pin (record s { reading_pin = true; last_pin_read = now }) n
        (Pin.timeout n delay pin_key_end now r pin)

  abbrev pub card_read : ℕ → Reader → Autodetect → Card.SimpleWiegandStrategy → Reader × Autodetect
  card_read now r s card =
      (if card.ready then read_reset r else r, record s { read_card = card; time_card_read = now })

  abbrev pub pin_idle : ℕ → Reader → Autodetect → Option Keypad → Result (Reader × Autodetect)
  pin_idle now r s none = err undefined_behaviour
  pin_idle now r s (some (n, pin)) = ok (after_pin s n (Pin.timeout n delay pin_key_end now r pin))

  abbrev pub card_idle : ℕ → Reader × Autodetect → Reader × Autodetect
  card_idle now (r, s) =
      if (ltb delay (now - s.time_card_read) && ltb delay (now - s.last_pin_read)) || nowait
      then (if s.read_card.ready && with_card s then (r, record s { ready = true }) else (r, s))
      else (r, s)

  unfoldable pub check_timeout : ℕ → Reader → Autodetect → Result (Reader × Autodetect)
  unfolding Pin.timeout read_reset
  check_timeout now r s = do
    after ←
        if s.reading_pin && ltb delay (now - s.last_pin_read)
        then pin_idle now r s s.read_pin
        else ok (r, s)
    ok (card_idle now after)

  unfoldable pub timeout : ℕ → Reader → Autodetect → Result (Reader × Autodetect)
  unfolding check_timeout Pin.timeout Card.timeout read_reset
  timeout now r s =
      if r.counter == 4 || r.counter == 8
      then ok (key_read now r s (keypad_of now r s.read_pin))
      else if not (r.counter == 0)
      then ok (card_read now r s (Card.timeout r s.read_card))
      else check_timeout now r s

  abbrev pub finish : Reader × Autodetect → Option Message × Reader × Autodetect
  finish (q, t) =
      let once = reset q t in
      let twice = reset once.0 once.1 in
      if t.ready then (some (signal q t), twice.0, twice.1) else (none, q, t)

  -- The message sent, if any, and what is left; `signal` resets, and so does the reader after it.
  unfoldable pub reader_timeout :
      ℕ → Reader → Autodetect → Result (Option Message × Reader × Autodetect)
  unfolding timeout signal reset
  reader_timeout now r s = do after ← timeout now r s; ok (finish after)
