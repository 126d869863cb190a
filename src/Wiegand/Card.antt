-- ===== src/Wiegand/Card.antt =====
-- From the pulses of a card to the credential that the application is told of.
use access_control.Prelude.{
  ℕ, Bytes, zero, suc, ◌+◌, ◌-◌, ◌*◌, ◌/◌, ◌^◌, ◌≤◌, ◌<◌, ◌≡◌, refl, ap, ◌∙◌, Bool, false, List, [],
  ◌∷◌, ◌++◌, length, length-append, replicate, arith, some, codes, ok, pos, is_empty, ◌==◌, nat_eq,
}
use access_control.Credentials.{RfidCard, to_raw_int, new_rfid_card, validate_nb_bits}
use access_control.Credentials.Hex.{join_hex, AllBytes, big_endian, validate_card_id-join_hex}
use access_control.Credentials.Wiegand26.{printed, to_raw_int-printed}
use access_control.Access.Mapper.{rfid_card}
use access_control.Access.Source.{
  Message, create, fresh_credential, text, number, source, simple_wiegand,
}
use access_control.Wiegand.{Reader, Pulse, read_reset, handle_bus_msg, handle_all}
use access_control.Wiegand.Pulses.{Holds, holding, received, AllBytes-snoc, big_endian-snoc}
use access_control.Wiegand.Bits.{pulses, bits_value}
use access_control.Wiegand.Simple.{new_simple, first_bytes, reader_timeout}

-- The bytes that `n` bits standing for `v` fill.
record Packs (bytes : List ℕ) (n v : ℕ) : Type 0 where
  are_bytes : AllBytes bytes
  reached : 8 * length bytes < n + 8
  enough : n ≤ 8 * length bytes
  valued : big_endian 0 bytes / 2 ^ (8 * length bytes - n) ≡ v

first_bytes-append : (xs ys : List ℕ) → first_bytes (length xs) (xs ++ ys) ≡ xs
unfolding first_bytes
first_bytes-append [] ys = refl
first_bytes-append (x ∷ xs) ys = ap (◌∷◌ x) (first_bytes-append xs ys)

first_bytes-append_one :
    (xs ys : List ℕ) (y : ℕ) → first_bytes (length xs + 1) (xs ++ (y ∷ ys)) ≡ xs ++ (y ∷ [])
unfolding first_bytes
first_bytes-append_one [] ys y = refl
first_bytes-append_one (x ∷ xs) ys y =
    let count : suc (length xs) + 1 ≡ suc (length xs + 1) = omega arith in
    rw count (ap (◌∷◌ x) (first_bytes-append_one xs ys y))

last_byte :
    (k q be : ℕ)
    → 0 < k
    → k < 8
    → q < 2 ^ k
    → (q * 2 ^ (8 - k) < 256) × ((be * 256 + q * 2 ^ (8 - k)) / 2 ^ (8 - k) ≡ be * 2 ^ k + q)
last_byte zero q be p h l = absurd (omega arith)
last_byte (suc zero) q be p h l = (omega arith, omega arith)
last_byte (suc (suc zero)) q be p h l = (omega arith, omega arith)
last_byte (suc (suc (suc zero))) q be p h l = (omega arith, omega arith)
last_byte (suc (suc (suc (suc zero)))) q be p h l = (omega arith, omega arith)
last_byte (suc (suc (suc (suc (suc zero))))) q be p h l = (omega arith, omega arith)
last_byte (suc (suc (suc (suc (suc (suc zero)))))) q be p h l = (omega arith, omega arith)
last_byte (suc (suc (suc (suc (suc (suc (suc zero))))))) q be p h l = (omega arith, omega arith)
last_byte (suc (suc (suc (suc (suc (suc (suc (suc k)))))))) q be p h l = absurd (omega arith)

frames_full :
    (full : List ℕ) (q : ℕ)
    → AllBytes full
    → q < 1
    → Packs full (8 * length full + 0) (big_endian 0 full * 1 + q)
frames_full full q bytes small =
    let none_left : 8 * length full - (8 * length full + 0) ≡ 0 = omega arith in
    record {
      are_bytes = bytes;
      reached = omega arith;
      enough = omega arith;
      valued = rw none_left (omega arith);
    }

frames_partial :
    (full : List ℕ) (q k : ℕ)
    → AllBytes full
    → 0 < k
    → k < 8
    → q < 2 ^ k
    → Packs (full ++ (q * 2 ^ (8 - k) ∷ [])) (8 * length full + k) (big_endian 0 full * 2 ^ k + q)
frames_partial full q k bytes more h small =
    let byte = q * 2 ^ (8 - k) in
    let (fits, value) = last_byte k q (big_endian 0 full) more h small in
    let grown = length-append full (byte ∷ []) in
    let unused : 8 * length (full ++ (byte ∷ [])) - (8 * length full + k) ≡ 8 - k = omega arith in
    record {
      are_bytes = AllBytes-snoc full byte bytes fits;
      reached = omega arith;
      enough = omega arith;
      valued = rw (unused, big_endian-snoc full byte 0) value;
    }

-- What the strategy reads of a reader that holds some bits.
read_frames :
    (name : Bytes) (full : List ℕ) (q k rest : ℕ)
    → AllBytes full
    → 0 < 8 * length full + k
    → k < 8
    → q < 2 ^ k
    → Packs
        (first_bytes ((8 * length full + k - 1) / 8 + 1) (holding name full q k rest).buffer)
        (8 * length full + k)
        (big_endian 0 full * 2 ^ k + q)
read_frames name full q zero rest bytes more h small =
    let size : (8 * length full + 0 - 1) / 8 + 1 ≡ length full = omega arith in
    rw (size, first_bytes-append full (q * 2 ^ 8 ∷ replicate rest 0))
      (frames_full full q bytes small)
read_frames name full q (suc k) rest bytes more h small =
    let size : (8 * length full + suc k - 1) / 8 + 1 ≡ length full + 1 = omega arith in
    rw (size, first_bytes-append_one full (replicate rest 0) (q * 2 ^ (8 - suc k)))
      (frames_partial full q (suc k) bytes (omega arith) h small)

Holds-counter : (r : Reader) (n v : ℕ) → Holds r n v → r.counter ≡ n
Holds-counter r n v w = ap (λ x. x.counter) w.is_state ∙ w.counted

Holds-frames :
    (r : Reader) (n v : ℕ)
    → Holds r n v
    → 0 < n
    → Packs (first_bytes ((n - 1) / 8 + 1) r.buffer) n v
Holds-frames r n v w more =
    let got =
      read_frames r.name w.full w.last w.left_over w.rest w.are_bytes (omega (arith, w.counted))
        w.partial w.last_fits in
    let buffer = ap (λ x. x.buffer) w.is_state in rw (buffer, ← w.counted, ← w.valued) got

-- The card that is signalled for bytes that a frame fills.
abbrev signalled : Bytes → List ℕ → ℕ → Message
signalled name bytes n =
    text (codes "S_" ++ name) ∷ source simple_wiegand ∷ text (join_hex bytes) ∷ number (pos n) ∷ []

join_hex_more : (b : ℕ) (bytes : List ℕ) → is_empty (join_hex (b ∷ bytes)) ≡ false
unfolding join_hex
join_hex_more b [] = refl
join_hex_more b (c ∷ bytes) = refl

some_bits : (n : ℕ) → 0 < n → validate_nb_bits (pos n) ≡ ok tt
unfolding validate_nb_bits
some_bits n h = ground arith

some_card :
    (bytes : List ℕ) (n v : ℕ) (c : ℕ) (name : Bytes)
    → Packs bytes n v
    → 0 < n
    → n ≤ 64
    → (create (signalled (c ∷ name) bytes n)
        ≡ ok (fresh_credential (rfid_card (join_hex bytes) (pos n))))
      × (is_empty (join_hex bytes) ≡ false)
      × (to_raw_int (printed bytes n) ≡ ok v)
unfolding create new_rfid_card
some_card [] n v c name w more short = absurd (omega (arith, w.enough))
some_card (b ∷ bytes) n v c name w more short =
    let valid = validate_card_id-join_hex b bytes w.are_bytes in
    let raw =
      to_raw_int-printed b bytes n w.are_bytes (omega (arith, w.reached)) (omega (arith, w.reached))
        w.enough in
    (rw (valid, some_bits n more) refl, join_hex_more b bytes, raw ∙ ap ok w.valued)

name-handle_bus_msg : (r : Reader) (p : Pulse) → (handle_bus_msg r p).name ≡ r.name
unfolding handle_bus_msg
name-handle_bus_msg r p = ground arith

name-handle_all : (r : Reader) (ps : List Pulse) → (handle_all r ps).name ≡ r.name
unfolding handle_all
name-handle_all r [] = refl
name-handle_all r (p ∷ ps) = name-handle_all (handle_bus_msg r p) ps ∙ name-handle_bus_msg r p

reader_timeout_lem :
    (r : Reader) (n : ℕ) (name : Bytes)
    → r.counter ≡ n
    → r.name ≡ name
    → 0 < n
    → let bytes = first_bytes ((n - 1) / 8 + 1) r.buffer in
      is_empty (join_hex bytes) ≡ false
      → reader_timeout r new_simple ≡ ok (some (signalled name bytes n), read_reset r, new_simple)
unfolding reader_timeout
reader_timeout_lem r n name count named more nonempty =
    let some_read : (n == 0) ≡ false = ground arith in
    rw (count, some_read) (rw (nonempty, named) refl)

-- From a reset reader with a name, 1 to 64 pulses and then a timeout send one message and reset the
-- reader. The authentication side reads it as a card of as many bits as there were pulses, whose raw
-- number is the one that the pulses spell, most significant bit first.
pub reader_timeout-handle_all :
    (r : Reader) (c : ℕ) (name : Bytes) (bits : List Bool)
    → r.name ≡ c ∷ name
    → 0 < length bits
    → length bits ≤ 64
    → let r1 = handle_all (read_reset r) (pulses bits) in
      (msg : Message) × (card : RfidCard) × (reader_timeout r1 new_simple
        ≡ ok (some msg, read_reset r1, new_simple))
      × (create msg ≡ ok (fresh_credential (rfid_card card.card_id card.nb_bits)))
      × (card.nb_bits ≡ pos (length bits))
      × (to_raw_int card ≡ ok (bits_value 0 bits))
unfolding read_reset
reader_timeout-handle_all r c name bits named more short =
    let r1 = handle_all (read_reset r) (pulses bits) in
    let holds = received r bits (omega arith) in
    let count = Holds-counter r1 (length bits) (bits_value 0 bits) holds in
    let called : r1.name ≡ c ∷ name = name-handle_all (read_reset r) (pulses bits) ∙ named in
    let bytes = first_bytes ((length bits - 1) / 8 + 1) r1.buffer in
    let (created, nonempty, raw) =
      some_card bytes (length bits) (bits_value 0 bits) c name
        (Holds-frames r1 (length bits) (bits_value 0 bits) holds more) more short in
    (
      signalled (c ∷ name) bytes (length bits),
      printed bytes (length bits),
      reader_timeout_lem r1 (length bits) (c ∷ name) count called more nonempty,
      created,
      refl,
      raw,
    )
