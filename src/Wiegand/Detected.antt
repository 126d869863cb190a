-- ===== src/Wiegand/Detected.antt =====
-- What the automatic strategy sends, and what it leaves behind.
use access_control.Prelude.{
  ℕ, ◌-◌, ◌≡◌, ◌≢◌, ◌<◌, refl, sym, ap, Bool, true, false, Option, none, some, [], ◌∷◌, ◌++◌, ltb,
  nat_eq, ◌==◌, Result, ok, err, undefined_behaviour, arith, if◌then◌else◌, codes, pos, ◌>>=◌,
  ok_injective,
}
use access_control.Access.Source.{Message, text, number, source, simple_wiegand}
use access_control.Wiegand.{Reader, read_reset}
use access_control.Wiegand.Simple as Card
use access_control.Wiegand.Autodetect.{
  Autodetect, reset, signal, timeout, check_timeout, finish, reader_timeout,
}

chosen :
    (b : Bool) (m msg : Message) (q1 : Reader) (t1 : Autodetect) (q : Reader) (t : Autodetect)
    (r1 : Reader) (s1 : Autodetect)
    → ◌≡◌ {A = Option Message × Reader × Autodetect}
        (if b then (some m, q1, t1) else (none, q, t))
        (some msg, r1, s1)
    → (q1 ≡ r1) × (t1 ≡ s1)
chosen true m msg q1 t1 q t r1 s1 e = (ap (λ x. x.1) e, ap (λ x. x.2) e)
chosen false m msg q1 t1 q t r1 s1 e = absurd (let h = ap (λ x. x.0) e in cc)

module _ (delay pin_key_end : ℕ) (nowait : Bool) where
  finish_sent :
      (q : Reader) (t : Autodetect) (msg : Message) (r1 : Reader) (s1 : Autodetect)
      → finish delay pin_key_end nowait (q, t) ≡ (some msg, r1, s1)
      → (r1.counter ≡ 0) × (s1.read_pin ≡ none)
  unfolding reset read_reset
  finish_sent q t msg r1 s1 e =
      let (same_r, same_s) = chosen t.ready (signal q t) msg _ _ q t r1 s1 e in
      (ap (λ x. x.counter) (sym same_r), ap (λ x. x.read_pin) (sym same_s))

  timeout_sent :
      (after : Result (Reader × Autodetect)) (msg : Message) (r1 : Reader) (s1 : Autodetect)
      → (after >>= λ x. ok (finish delay pin_key_end nowait x)) ≡ ok (some msg, r1, s1)
      → (r1.counter ≡ 0) × (s1.read_pin ≡ none)
  timeout_sent (err e) msg r1 s1 h = cc
  timeout_sent (ok (q, t)) msg r1 s1 h = finish_sent q t msg r1 s1 (ok_injective h)

  idle_null :
      (later : ℕ) (r : Reader) (s : Autodetect)
      → r.counter ≡ 0
      → s.read_pin ≡ none
      → s.reading_pin ≡ true
      → delay < later - s.last_pin_read
      → reader_timeout delay pin_key_end nowait later r s ≡ err undefined_behaviour
  unfolding reader_timeout check_timeout
  idle_null later r s count null reading late =
      let over : ltb delay (later - s.last_pin_read) ≡ true = ground arith in
      rw count (rw null (rw reading (rw over refl)))

  -- Once the strategy has sent a message while it was reading a code, the first idle timeout later
  -- than the delay after the last key goes through the null code strategy: undefined behaviour.
  pub sent_then_undefined :
      (now later : ℕ) (r : Reader) (s : Autodetect) (msg : Message) (r1 : Reader) (s1 : Autodetect)
      → reader_timeout delay pin_key_end nowait now r s ≡ ok (some msg, r1, s1)
      → s1.reading_pin ≡ true
      → delay < later - s1.last_pin_read
      → reader_timeout delay pin_key_end nowait later r1 s1 ≡ err undefined_behaviour
  unfolding reader_timeout
  sent_then_undefined now later r s msg r1 s1 sent reading late =
      let (count, null) = timeout_sent (timeout delay pin_key_end nowait now r s) msg r1 s1 sent in
      idle_null later r1 s1 count null reading late

  first_timeout :
      (now : ℕ) (r : Reader) (s : Autodetect)
      → r.counter ≢ 0
      → r.counter ≢ 4
      → r.counter ≢ 8
      → s.ready ≡ false
      → reader_timeout delay pin_key_end nowait now r s
        ≡ ok (
          none,
          read_reset r,
          record s { read_card = Card.timeout r s.read_card; time_card_read = now },
        )
  unfolding reader_timeout Card.timeout
  first_timeout now r s some_bits not4 not8 fresh =
      let zero_bits : (r.counter == 0) ≡ false = ground arith in
      let four_bits : (r.counter == 4) ≡ false = ground arith in
      let eight_bits : (r.counter == 8) ≡ false = ground arith in
      rw (zero_bits, four_bits, eight_bits, fresh) refl

  second_timeout :
      (now later : ℕ) (r : Reader) (s : Autodetect)
      → r.counter ≢ 0
      → s.read_pin ≡ none
      → s.reading_pin ≡ false
      → delay < later - now
      → delay < later - s.last_pin_read
      → reader_timeout delay pin_key_end nowait later
          (read_reset r)
          (record s { read_card = Card.timeout r s.read_card; time_card_read = now })
        ≡ ok (
          some (
              text (codes "S_" ++ r.name)
              ∷ source simple_wiegand
              ∷ text (Card.timeout r s.read_card).card_id
              ∷ number (pos (Card.timeout r s.read_card).nb_bits)
              ∷ []),
          (reset r (record s { time_card_read = now })).0,
          (reset r (record s { time_card_read = now })).1,
        )
  unfolding reader_timeout Card.timeout check_timeout
  second_timeout now later r s some_bits no_pin idle late late_pin =
      let zero_bits : (r.counter == 0) ≡ false = ground arith in
      let over : ltb delay (later - now) ≡ true = ground arith in
      let over_pin : ltb delay (later - s.last_pin_read) ≡ true = ground arith in
      rw (zero_bits, idle) (rw (over, over_pin, no_pin, zero_bits) (rw zero_bits refl))

  -- A card of neither 4 nor 8 bits, and then an idle timeout later than the delay, both when no key
  -- was pressed: nothing is sent at first, and then the card as SimpleWiegandStrategy reads it.
  pub card_alone :
      (now later : ℕ) (r : Reader) (s : Autodetect)
      → r.counter ≢ 0
      → r.counter ≢ 4
      → r.counter ≢ 8
      → s.read_pin ≡ none
      → s.reading_pin ≡ false
      → s.ready ≡ false
      → delay < later - now
      → delay < later - s.last_pin_read
      → let card = Card.timeout r s.read_card in
        (r1 : Reader) × (s1 : Autodetect) × (reader_timeout delay pin_key_end nowait now r s
          ≡ ok (none, r1, s1))
        × ((result : Reader × Autodetect) × (reader_timeout delay pin_key_end nowait later r1 s1
              ≡ ok (
                some (
                    text (codes "S_" ++ r.name)
                    ∷ source simple_wiegand
                    ∷ text card.card_id
                    ∷ number (pos card.nb_bits)
                    ∷ []),
                result.0,
                result.1,
              )))
  unfolding reader_timeout check_timeout Card.timeout signal reset read_reset
  card_alone now later r s some_bits not4 not8 no_pin idle fresh late late_pin =
      let card = Card.timeout r s.read_card in
      (
        read_reset r,
        record s { read_card = card; time_card_read = now },
        first_timeout now r s some_bits not4 not8 fresh,
        (
          reset r (record s { time_card_read = now }),
          second_timeout now later r s some_bits no_pin idle late late_pin,
        ),
      )
