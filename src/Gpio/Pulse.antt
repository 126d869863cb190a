-- ===== src/Gpio/Pulse.antt =====
-- How long a timed command keeps a pin on.
use access_control.Prelude.{
  ℕ, ◌+◌, ◌≡◌, ◌∙◌, ap, ◌++◌, ◌⊎◌, inl, inr, refl, Bool, true, false, Bool-cases, List, [], ◌∷◌,
  all, leb, ltb, arith, if◌then◌else◌,
}
use access_control.Gpio.{on, on_for, Direction, output}
use access_control.Gpio.Piface as Piface
use access_control.Gpio.Piface.{PfDigitalPin}

-- Until the end, and not yet over.
split_end :
    (end now : ℕ)
    → ((ltb end now ≡ true) × (leb now end ≡ false))
      ⊎ ((ltb end now ≡ false) × (leb now end ≡ true))
split_end end now = elim (Bool-cases (ltb end now)) [
  | inl over ↦ inl (over, ground arith)
  | inr fresh ↦ inr (fresh, ground arith)
]

module _ {Board : Type 0} (write_bit : Bool → Board → Board) (read_bit : Direction → Board → Bool)
    (read_written : (b : Bool) (h : Board) → read_bit output (write_bit b h) ≡ b) where
  -- The turns of the loop, at these times.
  abbrev pub polls : List ℕ → PfDigitalPin Board → PfDigitalPin Board
  polls [] p = p
  polls (now ∷ later) p = polls later (Piface.poll write_bit read_bit now p)

  abbrev pin : ℕ → Bool → Board → List Bool → PfDigitalPin Board
  pin end wanted h sent = record {
    direction = output;
    next_update_time = end;
    want_update = wanted;
    board = h;
    published = sent;
  }

  still_off :
      (later : List ℕ) (end : ℕ) (h : Board) (sent : List Bool)
      → polls later (pin end false h sent) ≡ pin end false h sent
  unfolding Piface.poll Piface.next_update
  still_off [] end h sent = refl
  still_off (now ∷ later) end h sent = still_off later end h sent

  poll_timed :
      (now end : ℕ) (h : Board) (sent : List Bool)
      → Piface.poll write_bit read_bit now (pin end true h sent) ≡ (
          if ltb end now
          then pin end false (write_bit false h) (sent ++ read_bit output (write_bit false h) ∷ [])
          else pin end true h sent)
  unfolding Piface.poll Piface.next_update Piface.update Piface.turn_off Piface.publish_state
      Piface.read_value
  poll_timed now end h sent = refl

  timed :
      (end : ℕ) (later : List ℕ) (h : Board) (sent : List Bool)
      → read_bit output h ≡ true
      → read_bit output (polls later (pin end true h sent)).board ≡ all (λ now. leb now end) later
  timed end [] h sent lit = lit
  timed end (now ∷ later) h sent lit =
      ap (λ (q : PfDigitalPin Board). read_bit output (polls later q).board)
        (poll_timed now end h sent)
      ∙ elim (split_end end now) [
        | inl (over, late) ↦
            let dark = write_bit false h in
            let off_now = still_off later end dark (sent ++ read_bit output dark ∷ []) in
            rw (over, late)
              (ap (λ (q : PfDigitalPin Board). read_bit output q.board) off_now
                ∙ read_written false h)
        | inr (fresh, early) ↦ rw (fresh, early) (timed end later h sent lit)
      ]

  -- A command to turn an output of the board on for a time: the output is on as long as no turn of
  -- the loop comes after that time, whatever the pin was to do before.
  pub pulse :
      (now duration : ℕ) (later : List ℕ) (p : PfDigitalPin Board)
      → p.direction ≡ output
      → read_bit output
          (polls later (Piface.handle_message write_bit read_bit now (on_for duration) p).1).board
        ≡ all (λ t. leb t (now + duration)) later
  unfolding Piface.handle_message Piface.turn_on Piface.publish_state Piface.read_value
  pulse now duration later p out =
      simp out (timed (now + duration) later (write_bit true p.board) _ (read_written true p.board))

  -- A command to turn it on for good, given during such a time, does not last: the output goes off
  -- with the first turn of the loop after that time.
  pub pulse_outlives :
      (now duration again : ℕ) (later : List ℕ) (p : PfDigitalPin Board)
      → p.direction ≡ output
      → let first = (Piface.handle_message write_bit read_bit now (on_for duration) p).1 in
        let second = (Piface.handle_message write_bit read_bit again on first).1 in
        read_bit output (polls later second).board ≡ all (λ t. leb t (now + duration)) later
  unfolding Piface.handle_message Piface.turn_on Piface.publish_state Piface.read_value
  pulse_outlives now duration again later p out = simp out (
      timed (now + duration) later (write_bit true (write_bit true p.board)) _
        (read_written true (write_bit true p.board)))
