-- ===== src/Examples/Readers.antt =====
-- A card of four bits, and a code of two keys.
use access_control.Prelude.{
  false, ℕ, ◌≡◌, refl, true, false, List, Bool, [], ◌∷◌, ◌++◌, arith, ok, some, none, pos, codes,
  Bytes, err, undefined_behaviour, replicate,
}
use access_control.Credentials.{RfidCard, to_raw_int}
use access_control.Access.Mapper.{rfid_card}
use access_control.Access.Source.{
  Message, create, fresh_credential, text, number, source, simple_wiegand,
}
use access_control.Wiegand.{Reader, read_reset, handle_all}
use access_control.Wiegand.Bits.{pulses}
use access_control.Wiegand.Pulses.{Holds, received}
use access_control.Wiegand.Simple.{new_simple, reader_timeout}
use access_control.Wiegand.Card.{reader_timeout-handle_all}
use access_control.Wiegand.Keys.{
  Key, key, NoEnd, pin_message, Turn, reading, run_turns, run_turns_lem,
}
use access_control.Wiegand.PinBuffered.{WiegandPinBuffered, timeout, timeout_undefined}
use access_control.Wiegand.Simple as Card
use access_control.Wiegand.Autodetect as Auto
use access_control.Wiegand.Detected.{sent_then_undefined}
use access_control.Wiegand.CardTurns as After
use access_control.Wiegand.CardTurns.{idle}
use access_control.Wiegand.CardThenPin.{run_turns_card}

abbrev front_reader : Reader
front_reader = record { buffer = replicate 16 0; counter = 26; name = codes "front" }

abbrev eleven : List Bool
eleven = true ∷ false ∷ true ∷ true ∷ []

received_example : Holds (handle_all (read_reset front_reader) (pulses eleven)) 4 11
received_example = received front_reader eleven (omega arith)

reader_timeout-handle_all_example :
    let r1 = handle_all (read_reset front_reader) (pulses eleven) in
    (msg : Message) × (card : RfidCard) × (reader_timeout r1 new_simple
      ≡ ok (some msg, read_reset r1, new_simple))
    × (create msg ≡ ok (fresh_credential (rfid_card card.card_id card.nb_bits)))
    × (card.nb_bits ≡ pos 4)
    × (to_raw_int card ≡ ok 11)
reader_timeout-handle_all_example =
    reader_timeout-handle_all front_reader b'f' (codes "ront") eleven refl (omega arith)
      (omega arith)

abbrev seven : Key
seven = key false true true true

abbrev sharp : Key
sharp = key true false true true

not_the_end : NoEnd b'#' (seven ∷ seven ∷ [])
not_the_end =
    (λ (h : 55 ≡ b'#'). absurd (omega arith), (λ (h : 55 ≡ b'#'). absurd (omega arith), tt))

-- A key, two polls, and a second key; then the end key.
abbrev slow_keys : List Turn
slow_keys = (1000, some seven) ∷ (1050, none) ∷ (3900, none) ∷ (5000, some seven) ∷ []

run_turns_lem_example :
    run_turns 3000 b'#'
      (read_reset front_reader)
      (reading 0 [])
      (slow_keys ++ (6000, some sharp) ∷ [])
    ≡ ok (pin_message (codes "front") (codes "77") ∷ [], read_reset front_reader, reading 6000 [])
run_turns_lem_example =
    run_turns_lem 3000 b'#' front_reader 0 6000 slow_keys seven (seven ∷ []) sharp refl
      (omega arith, (omega arith, tt)) not_the_end refl

-- The card at 500; the whole code takes longer than the delay.
run_turns_card_example :
    After.run_turns 3000 b'#' 4500 front_reader
      (idle 0 0)
      ((500, none) ∷ (slow_keys ++ (6000, some sharp) ∷ []))
    ≡ After.concluded 3000 b'#' 4500 front_reader
        (Card.timeout front_reader new_simple)
        5000
        6000
        (codes "77")
run_turns_card_example =
    run_turns_card 3000 b'#' 4500 front_reader 0 0 500 6000 slow_keys seven (seven ∷ []) sharp
      (omega arith) refl
      (omega arith, ((omega arith, omega arith, (omega arith, omega arith, (omega arith, tt)))))
      not_the_end refl

abbrev nothing_read : WiegandPinBuffered
nothing_read = record { ready = false; pin = [] }

abbrev one_digit : ℕ → Bytes
one_digit n = b'0' ∷ []

timeout_undefined_example : timeout one_digit front_reader nothing_read ≡ err undefined_behaviour
timeout_undefined_example = timeout_undefined one_digit front_reader nothing_read refl

abbrev card_reader : Reader
card_reader = record { buffer = replicate 16 7; counter = 26; name = codes "front" }

abbrev waiting_card : Auto.Autodetect
waiting_card = record {
  read_card = new_simple;
  read_pin = none;
  time_card_read = 0;
  last_pin_read = 0;
  reading_pin = false;
  ready = false;
}

-- The end key was pressed first, with no code before it, and then a card was read.
abbrev end_key_first : Auto.Autodetect
end_key_first = record {
  read_card = record { ready = true; nb_bits = 26; card_id = codes "80:81:01:80" };
  read_pin = some (4, record { inputs = []; ready = false; last_update = 0 });
  time_card_read = 10;
  last_pin_read = 0;
  reading_pin = true;
  ready = false;
}

abbrev silent_reader : Reader
silent_reader = record { buffer = replicate 16 0; counter = 0; name = codes "front" }

abbrev left_behind : Auto.Autodetect
left_behind = record {
  read_card = record { ready = false; nb_bits = 0; card_id = [] };
  read_pin = none;
  time_card_read = 10;
  last_pin_read = 0;
  reading_pin = true;
  ready = false;
}

abbrev card_sent : Message
card_sent =
    text (codes "S_front")
    ∷ source simple_wiegand
    ∷ text (codes "80:81:01:80")
    ∷ number (pos 26)
    ∷ []

card_was_sent :
    Auto.reader_timeout 2000 b'#' false 3000 silent_reader end_key_first
    ≡ ok (some card_sent, silent_reader, left_behind)
unfolding Auto.reader_timeout
card_was_sent = refl

sent_then_undefined_example :
    Auto.reader_timeout 2000 b'#' false 3002 silent_reader left_behind ≡ err undefined_behaviour
sent_then_undefined_example =
    sent_then_undefined 2000 b'#' false 3000 3002 silent_reader end_key_first card_sent
      silent_reader left_behind card_was_sent refl (omega arith)
