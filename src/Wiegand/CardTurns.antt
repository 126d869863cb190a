-- ===== src/Wiegand/CardTurns.antt =====
-- One timeout of a reader in card-and-code mode, with four bits per key.
use access_control.Prelude.{
  ℕ, ◌-◌, ◌*◌, ◌≡◌, ◌≢◌, ◌≤◌, refl, ap, ◌∙◌, Bool, true, false, Bool-cases, inl, inr, List, [], ◌∷◌,
  ◌++◌, Bytes, arith, Option, some, none, codes, pos, nat_eq, nat_beq_iff, ◌==◌, ltb, if◌then◌else◌,
}
use access_control.Access.Source.{Message, text, number, source, wiegand_card_pin}
use access_control.Wiegand.{Reader, read_reset, handle_all}
use access_control.Wiegand.Simple as Card
use access_control.Wiegand.PinNBits as Pin
use access_control.Wiegand.CardAndPin.{WiegandCardAndPin, reader_timeout}
use access_control.Wiegand.Keys.{
  Key, key_number, key_char, handle_all-key, one_byte, reading, different, in_time, Turn, pulses_of,
  with_message,
}

-- The card was read, the last activity was at `active`, and the keys so far are these.
abbrev pub waiting : Card.SimpleWiegandStrategy → ℕ → ℕ → Bytes → WiegandCardAndPin
waiting card active last inputs = record {
  read_card = card;
  read_pin = reading last inputs;
  time_card_read = active;
  reading_card = false;
  ready = false;
}

abbrev pub idle : ℕ → ℕ → WiegandCardAndPin
idle active last = record {
  read_card = Card.new_simple;
  read_pin = reading last [];
  time_card_read = active;
  reading_card = true;
  ready = false;
}

abbrev pub card_message : Bytes → Card.SimpleWiegandStrategy → Bytes → Message
card_message name card pin =
    text (codes "S_" ++ name)
    ∷ source wiegand_card_pin
    ∷ text card.card_id
    ∷ number (pos card.nb_bits)
    ∷ text pin
    ∷ []

-- The time of the last key, or else of the card.
abbrev pub last_active : ℕ → List Turn → ℕ
last_active active [] = active
last_active active ((at, none) ∷ turns) = last_active active turns
last_active active ((at, some k) ∷ turns) = last_active at turns

module _ (pin_timeout pin_end_key delay : ℕ) where
  -- Each turn comes at most `delay` after the card or the last key, and one without a key at most
  -- `pin_timeout` after the last key, if there was one.
  abbrev pub IsPaced : Bool → ℕ → List Turn → Type 0
  IsPaced started active [] = Unit {0}
  IsPaced started active ((at, some k) ∷ turns) = (at - active ≤ delay) × IsPaced true at turns
  IsPaced false active ((at, none) ∷ turns) = (at - active ≤ delay) × IsPaced false active turns
  IsPaced true active ((at, none) ∷ turns) =
      (at - active ≤ delay) × (at - active ≤ pin_timeout) × IsPaced true active turns

  abbrev pub turn : Reader → WiegandCardAndPin → Turn → Option Message × Reader × WiegandCardAndPin
  turn r s (at, k) =
      reader_timeout 4 pin_timeout pin_end_key delay at (handle_all r (pulses_of k)) s

  -- All the messages that are sent, and what is left.
  abbrev pub run_turns :
      Reader → WiegandCardAndPin → List Turn → List Message × Reader × WiegandCardAndPin
  run_turns r s [] = ([], r, s)
  run_turns r s (t ∷ turns) =
      let step = turn r s t in
      let rest = run_turns step.1 step.2 turns in (with_message step.0 rest.0, rest.1, rest.2)

  abbrev pub in_front :
      Option Message
      → List Message × Reader × WiegandCardAndPin
      → List Message × Reader × WiegandCardAndPin
  in_front m (messages, r, s) = (with_message m messages, r, s)

  -- A turn, and then the others.
  pub first_turn :
      (r r1 : Reader) (s s1 : WiegandCardAndPin) (t : Turn) (turns : List Turn) (m : Option Message)
      → turn r s t ≡ (m, r1, s1)
      → run_turns r s (t ∷ turns) ≡ in_front m (run_turns r1 s1 turns)
  first_turn r r1 s s1 t turns m e = ap (λ x. in_front x.0 (run_turns x.1 x.2 turns)) e

  add_digit :
      (r : Reader) (card : Card.SimpleWiegandStrategy) (active last at b c : ℕ) (inputs : Bytes)
      → at - active ≤ delay
      → Pin.extract_from_raw 4 b ≡ c
      → (c == pin_end_key) ≡ false
      → reader_timeout 4 pin_timeout pin_end_key delay at
          (one_byte r b)
          (waiting card active last inputs)
        ≡ (none, read_reset r, waiting card at at (inputs ++ (c ∷ [])))
  unfolding reader_timeout Pin.timeout read_reset
  add_digit r card active last at b c inputs soon read other =
      rw (in_time delay (at - active) soon, read, other) refl

  end_code :
      (r : Reader) (card : Card.SimpleWiegandStrategy) (active last at b c first : ℕ)
      (inputs : Bytes)
      → at - active ≤ delay
      → Pin.extract_from_raw 4 b ≡ c
      → (c == pin_end_key) ≡ true
      → reader_timeout 4 pin_timeout pin_end_key delay at
          (one_byte r b)
          (waiting card active last (first ∷ inputs))
        ≡ (some (card_message r.name card (first ∷ inputs)), read_reset r, idle at at)
  unfolding reader_timeout Pin.timeout read_reset
  end_code r card active last at b c first inputs soon read same =
      rw (in_time delay (at - active) soon, read, same) refl

  too_late :
      (r : Reader) (card : Card.SimpleWiegandStrategy) (active last at b : ℕ) (inputs : Bytes)
      → ltb delay (at - active) ≡ true
      → reader_timeout 4 pin_timeout pin_end_key delay at
          (one_byte r b)
          (waiting card active last inputs)
        ≡ (none, read_reset r, idle active at)
  unfolding reader_timeout read_reset
  too_late r card active last at b inputs late = rw late refl

  pub press_digit :
      (r : Reader) (card : Card.SimpleWiegandStrategy) (active last at : ℕ) (inputs : Bytes)
      (k : Key)
      → at - active ≤ delay
      → key_char k ≢ pin_end_key
      → turn (read_reset r) (waiting card active last inputs) (at, some k)
        ≡ (none, read_reset r, waiting card at at (inputs ++ (key_char k ∷ [])))
  press_digit r card active last at inputs k soon other =
      let (got, char) = handle_all-key r k in
      ap
        (λ q. reader_timeout 4 pin_timeout pin_end_key delay at q (waiting card active last inputs))
        got
      ∙ add_digit r card active last at (key_number k * 16) (key_char k) inputs soon char
          (different pin_end_key (key_char k) other)

  -- What the end key leads to, in time and too late.
  abbrev pub concluded :
      Reader
      → Card.SimpleWiegandStrategy
      → ℕ
      → ℕ
      → Bytes
      → List Message × Reader × WiegandCardAndPin
  concluded r card active at code =
      if ltb delay (at - active)
      then ([], read_reset r, idle active at)
      else (card_message r.name card code ∷ [], read_reset r, idle at at)

  pub press_end :
      (r : Reader) (card : Card.SimpleWiegandStrategy) (active last at first : ℕ) (inputs : Bytes)
      (k : Key)
      → key_char k ≡ pin_end_key
      → run_turns (read_reset r) (waiting card active last (first ∷ inputs)) ((at, some k) ∷ [])
        ≡ concluded r card active at (first ∷ inputs)
  press_end r card active last at first inputs k same =
      let (got, char) = handle_all-key r k in
      let ends = (nat_beq_iff (key_char k) pin_end_key).1 same in
      let byte = key_number k * 16 in
      let pressed =
        ap
          (λ q.
            reader_timeout 4 pin_timeout pin_end_key delay at q
              (waiting card active last (first ∷ inputs)))
          got in
      elim (Bool-cases (ltb delay (at - active))) [
        | inl late ↦
            first_turn _ _ _ _ (at, some k) [] none
              (pressed ∙ too_late r card active last at byte (first ∷ inputs) late)
            ∙ rw late refl
        | inr early ↦
            let soon : at - active ≤ delay = ground arith in
            first_turn _ _ _ _ (at, some k) [] _
              (pressed
                ∙ end_code r card active last at byte (key_char k) first inputs soon char ends)
            ∙ rw early refl
      ]

  pub idle_before :
      (r : Reader) (card : Card.SimpleWiegandStrategy) (active last at : ℕ)
      → at - active ≤ delay
      → turn (read_reset r) (waiting card active last []) (at, none)
        ≡ (none, read_reset r, waiting card active last [])
  unfolding reader_timeout Pin.timeout read_reset handle_all
  idle_before r card active last at soon = elim (Bool-cases (ltb pin_timeout (at - last))) [
    | inl late ↦ rw (in_time delay (at - active) soon, late) refl
    | inr early ↦ rw (in_time delay (at - active) soon, early) refl
  ]

  pub idle_in_time :
      (r : Reader) (card : Card.SimpleWiegandStrategy) (active at : ℕ) (inputs : Bytes)
      → at - active ≤ delay
      → at - active ≤ pin_timeout
      → turn (read_reset r) (waiting card active active inputs) (at, none)
        ≡ (none, read_reset r, waiting card active active inputs)
  unfolding reader_timeout Pin.timeout read_reset handle_all
  idle_in_time r card active at inputs soon early =
      rw (in_time delay (at - active) soon, in_time pin_timeout (at - active) early) refl
