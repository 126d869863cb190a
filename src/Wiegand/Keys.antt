-- ===== src/Wiegand/Keys.antt =====
-- Typing a code on a keypad that sends four bits per key.
use access_control.Prelude.{
  ℕ, ◌+◌, ◌-◌, ◌*◌, ◌≤◌, ◌≡◌, ◌≢◌, refl, ap, ◌∙◌, Bool, true, false, List, [], ◌∷◌, ◌++◌,
  append_assoc, append-nil, map, Bytes, replicate, Option, some, none, codes, Result, ok, ◌>>=◌,
  nat_eq, nat_beq_iff, ◌==◌, arith, Bool-cases, inl, inr, if◌then◌else◌, ltb,
}
use access_control.Access.Source.{Message, text, source, wiegand_pin}
use access_control.Wiegand.{Reader, Pulse, read_reset, handle_all, mark}
use access_control.Wiegand.Bits.{pulses, bit_of}
use access_control.Wiegand.PinNBits.{WiegandPinNBitsOnly, extract_from_raw, reader_timeout}

pub data Key : Type 0 where
  key : Bool → Bool → Bool → Bool → Key

abbrev pub key_bits : Key → List Bool
key_bits (key a b c d) = a ∷ b ∷ c ∷ d ∷ []

abbrev pub key_number : Key → ℕ
key_number (key a b c d) = bit_of a * 8 + bit_of b * 4 + bit_of c * 2 + bit_of d

-- The digit on the key; ten is the star and eleven the sharp.
abbrev pub key_char : Key → ℕ
key_char k =
    if key_number k == 10
    then b'*'
    else if key_number k == 11
    then b'#'
    else if ltb (key_number k) 10
    then b'0' + key_number k
    else b'1'

abbrev key_buffer : Reader → Key → Reader
key_buffer r k = record r { buffer = key_number k * 16 ∷ replicate 15 0; counter = 4 }

-- The four pulses of a key, and the character that its byte stands for.
pub handle_all-key :
    (r : Reader) (k : Key)
    → (handle_all (read_reset r) (pulses (key_bits k)) ≡ key_buffer r k)
      × (extract_from_raw 4 (key_number k * 16) ≡ key_char k)
unfolding handle_all mark read_reset extract_from_raw
handle_all-key r (key true true true true) = (refl, refl)
handle_all-key r (key true true true false) = (refl, refl)
handle_all-key r (key true true false true) = (refl, refl)
handle_all-key r (key true true false false) = (refl, refl)
handle_all-key r (key true false true true) = (refl, refl)
handle_all-key r (key true false true false) = (refl, refl)
handle_all-key r (key true false false true) = (refl, refl)
handle_all-key r (key true false false false) = (refl, refl)
handle_all-key r (key false true true true) = (refl, refl)
handle_all-key r (key false true true false) = (refl, refl)
handle_all-key r (key false true false true) = (refl, refl)
handle_all-key r (key false true false false) = (refl, refl)
handle_all-key r (key false false true true) = (refl, refl)
handle_all-key r (key false false true false) = (refl, refl)
handle_all-key r (key false false false true) = (refl, refl)
handle_all-key r (key false false false false) = (refl, refl)

abbrev pub NoEnd : ℕ → List Key → Type 0
NoEnd pin_end_key [] = Unit {0}
NoEnd pin_end_key (k ∷ ks) = (key_char k ≢ pin_end_key) × NoEnd pin_end_key ks

abbrev pub pin_message : Bytes → Bytes → Message
pin_message name pin = text (codes "S_" ++ name) ∷ source wiegand_pin ∷ text pin ∷ []

-- A timeout of the reader, at a reading of the clock, behind the pulses of one key or of none.
abbrev pub Turn : Type 0
Turn = ℕ × Option Key

abbrev pub pulses_of : Option Key → List Pulse
pulses_of none = []
pulses_of (some k) = pulses (key_bits k)

abbrev pub keys_of : List Turn → List Key
keys_of [] = []
keys_of ((at, none) ∷ turns) = keys_of turns
keys_of ((at, some k) ∷ turns) = k ∷ keys_of turns

abbrev pub with_message : Option Message → List Message → List Message
with_message none messages = messages
with_message (some m) messages = m ∷ messages

abbrev pub reading : ℕ → Bytes → WiegandPinNBitsOnly
reading last inputs = record { inputs = inputs; ready = false; last_update = last }

abbrev pub one_byte : Reader → ℕ → Reader
one_byte r b = record r { buffer = b ∷ replicate 15 0; counter = 4 }

pub different : (end c : ℕ) → c ≢ end → (c == end) ≡ false
different end c h = elim (Bool-cases (c == end)) [
  | inl same ↦ absurd (h ((nat_beq_iff c end).0 same))
  | inr other ↦ other
]

pub in_time : (limit elapsed : ℕ) → elapsed ≤ limit → ltb limit elapsed ≡ false
in_time limit elapsed h = ground arith

module _ (pin_timeout pin_end_key : ℕ) where
  -- A turn without a key comes at most `pin_timeout` after the last key, if there was one.
  abbrev pub IsPaced : Option ℕ → List Turn → Type 0
  IsPaced last [] = Unit {0}
  IsPaced last ((at, some k) ∷ turns) = IsPaced (some at) turns
  IsPaced none ((at, none) ∷ turns) = IsPaced none turns
  IsPaced (some last) ((at, none) ∷ turns) = (at - last ≤ pin_timeout) × IsPaced (some last) turns

  abbrev turn :
      Reader → WiegandPinNBitsOnly → Turn → Result (Option Message × Reader × WiegandPinNBitsOnly)
  turn r s (at, k) = reader_timeout 4 pin_timeout pin_end_key at (handle_all r (pulses_of k)) s

  -- All the messages that are sent, and what is left.
  abbrev pub run_turns :
      Reader
      → WiegandPinNBitsOnly
      → List Turn
      → Result (List Message × Reader × WiegandPinNBitsOnly)
  run_turns r s [] = ok ([], r, s)
  run_turns r s (t ∷ turns) = do
    step ← turn r s t
    rest ← run_turns step.1 step.2 turns
    ok (with_message step.0 rest.0, rest.1, rest.2)

  add_digit :
      (r : Reader) (last at b c : ℕ) (inputs : Bytes)
      → extract_from_raw 4 b ≡ c
      → (c == pin_end_key) ≡ false
      → reader_timeout 4 pin_timeout pin_end_key at (one_byte r b) (reading last inputs)
        ≡ ok (none, read_reset r, reading at (inputs ++ (c ∷ [])))
  unfolding reader_timeout read_reset
  add_digit r last at b c inputs read other = rw (read, other) refl

  end_code :
      (r : Reader) (last at b c first : ℕ) (inputs : Bytes)
      → extract_from_raw 4 b ≡ c
      → (c == pin_end_key) ≡ true
      → reader_timeout 4 pin_timeout pin_end_key at (one_byte r b) (reading last (first ∷ inputs))
        ≡ ok (some (pin_message r.name (first ∷ inputs)), read_reset r, reading at [])
  unfolding reader_timeout read_reset
  end_code r last at b c first inputs read same = rw (read, same) refl

  -- A key that does not end the code is added to it, and nothing is sent.
  press_digit :
      (r : Reader) (last at : ℕ) (inputs : Bytes) (k : Key)
      → key_char k ≢ pin_end_key
      → turn (read_reset r) (reading last inputs) (at, some k)
        ≡ ok (none, read_reset r, reading at (inputs ++ (key_char k ∷ [])))
  press_digit r last at inputs k other =
      let (got, char) = handle_all-key r k in
      ap (λ q. reader_timeout 4 pin_timeout pin_end_key at q (reading last inputs)) got
      ∙ add_digit r last at (key_number k * 16) (key_char k) inputs char
          (different pin_end_key (key_char k) other)

  -- The end key sends the code, and resets everything.
  press_end :
      (r : Reader) (last at first : ℕ) (inputs : Bytes) (k : Key)
      → key_char k ≡ pin_end_key
      → turn (read_reset r) (reading last (first ∷ inputs)) (at, some k)
        ≡ ok (some (pin_message r.name (first ∷ inputs)), read_reset r, reading at [])
  press_end r last at first inputs k same =
      let (got, char) = handle_all-key r k in
      let ends = (nat_beq_iff (key_char k) pin_end_key).1 same in
      ap (λ q. reader_timeout 4 pin_timeout pin_end_key at q (reading last (first ∷ inputs))) got
      ∙ end_code r last at (key_number k * 16) (key_char k) first inputs char ends

  -- A turn without a key changes nothing before the first key, and in time after a key.
  idle_before :
      (r : Reader) (last at : ℕ)
      → turn (read_reset r) (reading last []) (at, none) ≡ ok (none, read_reset r, reading last [])
  unfolding reader_timeout read_reset handle_all
  idle_before r last at = elim (Bool-cases (ltb pin_timeout (at - last))) [
    | inl late ↦ rw late refl
    | inr early ↦ rw early refl
  ]

  idle_in_time :
      (r : Reader) (last at : ℕ) (inputs : Bytes)
      → at - last ≤ pin_timeout
      → turn (read_reset r) (reading last inputs) (at, none)
        ≡ ok (none, read_reset r, reading last inputs)
  unfolding reader_timeout read_reset handle_all
  idle_in_time r last at inputs h = rw (in_time pin_timeout (at - last) h) refl

  typed :
      (r : Reader) (since at first : ℕ) (inputs : Bytes) (turns : List Turn) (last : Key)
      → IsPaced (some since) turns
      → NoEnd pin_end_key (keys_of turns)
      → key_char last ≡ pin_end_key
      → run_turns (read_reset r) (reading since (first ∷ inputs)) (turns ++ (at, some last) ∷ [])
        ≡ ok (
          pin_message r.name (first ∷ (inputs ++ map key_char (keys_of turns))) ∷ [],
          read_reset r,
          reading at [],
        )
  typed r since at first inputs [] last paced free end =
      rw (append-nil inputs) (rw (press_end r since at first inputs last end) refl)
  typed r since at first inputs ((t, none) ∷ turns) last paced free end =
      rw (idle_in_time r since t (first ∷ inputs) paced.0)
        (rw (typed r since at first inputs turns last paced.1 free end) refl)
  typed r since at first inputs ((t, some k) ∷ turns) last paced free end =
      let more = typed r t at first (inputs ++ (key_char k ∷ [])) turns last paced free.1 end in
      rw (press_digit r since t (first ∷ inputs) k free.0)
        (rw more (rw (append_assoc inputs (key_char k ∷ []) (map key_char (keys_of turns))) refl))

  -- On a keypad of four bits per key, from a reset reader with no keys yet, at any readings of the
  -- clock: one or more keys that are not the end key, each received before a timeout of its own, and
  -- then the end key make the reader send exactly the code, at the end, and reset it. Timeouts
  -- without a key may come between, after the first key at most `pin_timeout` behind the last one.
  pub run_turns_lem :
      (r : Reader) (since at : ℕ) (turns : List Turn) (first : Key) (more : List Key) (last : Key)
      → keys_of turns ≡ first ∷ more
      → IsPaced none turns
      → NoEnd pin_end_key (keys_of turns)
      → key_char last ≡ pin_end_key
      → run_turns (read_reset r) (reading since []) (turns ++ (at, some last) ∷ [])
        ≡ ok (pin_message r.name (map key_char (keys_of turns)) ∷ [], read_reset r, reading at [])
  run_turns_lem r since at [] first more last some_key paced free end = cc
  run_turns_lem r since at ((t, none) ∷ turns) first more last some_key paced free end =
      rw (idle_before r since t)
        (rw (run_turns_lem r since at turns first more last some_key paced free end) refl)
  run_turns_lem r since at ((t, some k) ∷ turns) first more last some_key paced free end =
      rw (press_digit r since t [] k free.0)
        (rw (typed r t at (key_char k) [] turns last paced free.1 end) refl)
