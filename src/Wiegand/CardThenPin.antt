-- ===== src/Wiegand/CardThenPin.antt =====
-- A card, and then a code on a keypad of four bits per key.
use access_control.Prelude.{
  ℕ, ◌≡◌, ◌<◌, refl, ap, ◌∙◌, true, false, List, [], ◌∷◌, ◌++◌, append_assoc, append-nil, map,
  Bytes, arith, some, none, nat_eq, ◌==◌,
}
use access_control.Wiegand.{Reader, read_reset, handle_all}
use access_control.Wiegand.Simple as Card
use access_control.Wiegand.CardAndPin.{reader_timeout}
use access_control.Wiegand.Keys.{Key, key_char, NoEnd, Turn, keys_of}
use access_control.Wiegand.CardTurns.{
  waiting, idle, last_active, IsPaced, turn, run_turns, first_turn, concluded, press_digit,
  press_end, idle_before, idle_in_time,
}

module _ (pin_timeout pin_end_key delay : ℕ) where
  typed :
      (r : Reader) (card : Card.SimpleWiegandStrategy) (active at first : ℕ) (inputs : Bytes)
      (turns : List Turn) (last : Key)
      → IsPaced pin_timeout pin_end_key delay true active turns
      → NoEnd pin_end_key (keys_of turns)
      → key_char last ≡ pin_end_key
      → run_turns pin_timeout pin_end_key delay
          (read_reset r)
          (waiting card active active (first ∷ inputs))
          (turns ++ (at, some last) ∷ [])
        ≡ concluded pin_timeout pin_end_key delay r card
            (last_active active turns)
            at
            (first ∷ (inputs ++ map key_char (keys_of turns)))
  typed r card active at first inputs [] last paced free end =
      rw (append-nil inputs)
        (press_end pin_timeout pin_end_key delay r card active active at first inputs last end)
  typed r card active at first inputs ((t, none) ∷ turns) last paced free end =
      first_turn pin_timeout pin_end_key delay _ _ _ _ (t, none) (turns ++ (at, some last) ∷ [])
        none
        (idle_in_time pin_timeout pin_end_key delay r card active t (first ∷ inputs) paced.0
          paced.1)
      ∙ typed r card active at first inputs turns last paced.2 free end
  typed r card active at first inputs ((t, some k) ∷ turns) last paced free end =
      first_turn pin_timeout pin_end_key delay _ _ _ _ (t, some k) (turns ++ (at, some last) ∷ [])
        none
        (press_digit pin_timeout pin_end_key delay r card active active t (first ∷ inputs) k paced.0
          free.0)
      ∙ typed r card t at first (inputs ++ (key_char k ∷ [])) turns last paced.1 free.1 end
      ∙ ap
          (λ l. concluded pin_timeout pin_end_key delay r card (last_active t turns) at (first ∷ l))
          (append_assoc inputs (key_char k ∷ []) (map key_char (keys_of turns)))

  code_typed :
      (r : Reader) (card : Card.SimpleWiegandStrategy) (active since at : ℕ) (turns : List Turn)
      (first : Key) (more : List Key) (last : Key)
      → keys_of turns ≡ first ∷ more
      → IsPaced pin_timeout pin_end_key delay false active turns
      → NoEnd pin_end_key (keys_of turns)
      → key_char last ≡ pin_end_key
      → run_turns pin_timeout pin_end_key delay
          (read_reset r)
          (waiting card active since [])
          (turns ++ (at, some last) ∷ [])
        ≡ concluded pin_timeout pin_end_key delay r card
            (last_active active turns)
            at
            (map key_char (keys_of turns))
  code_typed r card active since at [] first more last some_key paced free end = cc
  code_typed r card active since at ((t, none) ∷ turns) first more last some_key paced free end =
      first_turn pin_timeout pin_end_key delay _ _ _ _ (t, none) (turns ++ (at, some last) ∷ [])
        none (idle_before pin_timeout pin_end_key delay r card active since t paced.0)
      ∙ code_typed r card active since at turns first more last some_key paced.1 free end
  code_typed r card active since at ((t, some k) ∷ turns) first more last some_key paced free end =
      first_turn pin_timeout pin_end_key delay _ _ _ _ (t, some k) (turns ++ (at, some last) ∷ [])
        none (press_digit pin_timeout pin_end_key delay r card active since t [] k paced.0 free.0)
      ∙ typed r card t at (key_char k) [] turns last paced.1 free.1 end

  -- A card that is read is kept, and the reader waits for keys.
  card_kept :
      (r : Reader) (active since at : ℕ)
      → 0 < r.counter
      → turn pin_timeout pin_end_key delay r (idle active since) (at, none)
        ≡ (none, read_reset r, waiting (Card.timeout r Card.new_simple) at since [])
  unfolding reader_timeout Card.timeout handle_all
  card_kept r active since at h =
      let some_read : (r.counter == 0) ≡ false = ground arith in rw some_read refl

  -- In card-and-code mode with four bits per key: an idle strategy gets a card of at least one bit at
  -- a timeout, and behind it, at any readings of the clock, one or more keys that are not the end
  -- key, each before a timeout of its own, with timeouts without a key between them, each at most
  -- `delay` behind the card or the last key, and without a key at most `pin_timeout` behind the last
  -- key, and then the end key. Where that comes at most `delay` behind the key before it, exactly one
  -- message is sent, at the end, with the card as SimpleWiegandStrategy reads it and the code; where
  -- it comes later, none is. Both times the reader is reset and the strategy idle again.
  pub run_turns_card :
      (r : Reader) (active since card_at at : ℕ) (turns : List Turn) (first : Key) (more : List Key)
      (last : Key)
      → 0 < r.counter
      → keys_of turns ≡ first ∷ more
      → IsPaced pin_timeout pin_end_key delay false card_at turns
      → NoEnd pin_end_key (keys_of turns)
      → key_char last ≡ pin_end_key
      → run_turns pin_timeout pin_end_key delay r
          (idle active since)
          ((card_at, none) ∷ (turns ++ (at, some last) ∷ []))
        ≡ concluded pin_timeout pin_end_key delay r
            (Card.timeout r Card.new_simple)
            (last_active card_at turns)
            at
            (map key_char (keys_of turns))
  run_turns_card r active since card_at at turns first more last h some_key paced free end =
      first_turn pin_timeout pin_end_key delay _ _ _ _ (card_at, none)
        (turns ++ (at, some last) ∷ []) none (card_kept r active since card_at h)
      ∙ code_typed r (Card.timeout r Card.new_simple) card_at since at turns first more last
          some_key paced free end
