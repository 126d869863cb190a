-- ===== src/Wiegand/Pulses.antt =====
-- The buffer after a series of pulses: their bits, most significant first, and zeros behind them.
use access_control.Prelude.{
  Bytes, ℕ, zero, suc, ◌+◌, ◌-◌, ◌*◌, ◌/◌, ◌%◌, ◌^◌, ◌<◌, ◌≡◌, refl, sym, ap, ◌∙◌, Bool, true,
  false, List, [], ◌∷◌, ◌++◌, dec_lt, subst, append_assoc, length, length-append, set, get_or,
  replicate, ltb, nat_eq, arith,
}
use native.Mathlib.Numerals.{unary_clauses}
use access_control.Credentials.Hex.{AllBytes, big_endian}
use access_control.Wiegand.{Reader, handle_bus_msg, handle_all, read_reset, mark}
use access_control.Wiegand.Bits.{pulse_of, bit_of, bits_value, pulses, mark_lem}

-- A reader with some full bytes, the `k` bits `q` of the next one, and zeros.
abbrev pub holding : Bytes → List ℕ → ℕ → ℕ → ℕ → Reader
holding name full q k rest = record {
  buffer = full ++ (q * 2 ^ (8 - k) ∷ replicate rest 0);
  counter = 8 * length full + k;
  name = name;
}

-- The reader holds `n` bits that stand for the number `v`.
pub record Holds (r : Reader) (n v : ℕ) : Type 0 where
  pub full : List ℕ
  pub last : ℕ
  pub left_over : ℕ
  pub rest : ℕ
  pub is_state : r ≡ holding r.name full last left_over rest
  pub partial : left_over < 8
  pub last_fits : last < 2 ^ left_over
  pub room : length full + (rest + 1) ≡ 16
  pub counted : 8 * length full + left_over ≡ n
  pub are_bytes : AllBytes full
  pub valued : big_endian 0 full * 2 ^ left_over + last ≡ v

set-append : (xs ys : List ℕ) (y v : ℕ) → set (xs ++ (y ∷ ys)) (length xs) v ≡ xs ++ (v ∷ ys)
set-append [] ys y v = refl
set-append (x ∷ xs) ys y v = ap (◌∷◌ x) (set-append xs ys y v)

get_or-append : (xs ys : List ℕ) (y d : ℕ) → get_or (xs ++ (y ∷ ys)) (length xs) d ≡ y
get_or-append [] ys y d = refl
get_or-append (x ∷ xs) ys y d = get_or-append xs ys y d

-- A pulse on a byte that is not full.
handle_bus_msg-holding :
    (name : Bytes) (full : List ℕ) (q k rest : ℕ) (b : Bool)
    → k < 8
    → q < 2 ^ k
    → length full < 16
    → handle_bus_msg (holding name full q k rest) (pulse_of b)
      ≡ holding name full (q * 2 + bit_of b) (k + 1) rest
unfolding handle_bus_msg
handle_bus_msg-holding name full q k rest b h small room =
    let under : ltb (8 * length full + k) 128 ≡ true = ground arith in
    let at : (8 * length full + k) / 8 ≡ length full = omega arith in
    let within : (8 * length full + k) % 8 ≡ k = omega arith in
    let shift : 7 - k + 1 ≡ 8 - k = omega arith in
    let next : 8 - (k + 1) ≡ 7 - k = omega arith in
    let low_bits : 7 - (7 - k) ≡ k = omega arith in
    let count : 8 * length full + k + 1 ≡ 8 * length full + (k + 1) = omega arith in
    let bit : mark (pulse_of b) (7 - k) (q * 2 ^ (8 - k)) ≡ (q * 2 + bit_of b) * 2 ^ (7 - k) =
      rw (← shift) (mark_lem b (7 - k) q (omega arith) (rw low_bits small)) in
    let found = get_or-append full (replicate rest 0) (q * 2 ^ (8 - k)) 0 in
    rw
      (
        under,
        at,
        within,
        found,
        bit,
        set-append full (replicate rest 0) (q * 2 ^ (8 - k)) ((q * 2 + bit_of b) * 2 ^ (7 - k)),
        next,
        count,
      )
      refl

pub AllBytes-snoc : (bs : List ℕ) (b : ℕ) → AllBytes bs → b < 256 → AllBytes (bs ++ (b ∷ []))
AllBytes-snoc [] b h l = (l, tt)
AllBytes-snoc (c ∷ bs) b h l = (h.0, AllBytes-snoc bs b h.1 l)

pub big_endian-snoc :
    (bs : List ℕ) (b acc : ℕ) → big_endian acc (bs ++ (b ∷ [])) ≡ big_endian acc bs * 256 + b
big_endian-snoc [] b acc = refl
big_endian-snoc (c ∷ bs) b acc = big_endian-snoc bs b (acc * 256 + c)

-- The eighth bit fills a byte.
holding-full :
    (name : Bytes) (full : List ℕ) (q rest : ℕ)
    → holding name full q 8 (suc rest) ≡ holding name (full ++ (q ∷ [])) 0 0 rest
holding-full name full q rest =
    let count : 8 * length full + 8 ≡ 8 * (length full + 1) + 0 = omega arith in
    let one : q * 1 ≡ q = omega arith in
    rw (append_assoc full (q ∷ []) (0 ∷ replicate rest 0), length-append full (q ∷ []), count, one)
      refl

bit_small : (b : Bool) → bit_of b < 2
bit_small true = omega arith
bit_small false = omega arith

one_more :
    (name : Bytes) (full : List ℕ) (q k rest : ℕ) (b : Bool)
    → k + 1 < 8
    → q < 2 ^ k
    → length full + (rest + 1) ≡ 16
    → AllBytes full
    → Holds
        (holding name full (q * 2 + bit_of b) (k + 1) rest)
        (8 * length full + k + 1)
        ((big_endian 0 full * 2 ^ k + q) * 2 + bit_of b)
one_more name full q k rest b h small room bytes =
    let twice : 2 ^ (k + 1) ≡ 2 ^ k * 2 = simp unary_clauses (omega arith) in
    record {
      full = full;
      last = q * 2 + bit_of b;
      left_over = k + 1;
      rest = rest;
      is_state = refl;
      partial = h;
      last_fits = omega (arith, twice, bit_small b);
      room = room;
      counted = omega arith;
      are_bytes = bytes;
      valued = omega (arith, ap (λ (t : ℕ). big_endian 0 full * t) twice);
    }

byte_filled :
    (name : Bytes) (full : List ℕ) (q rest : ℕ) (b : Bool)
    → q < 2 ^ 7
    → length full + (suc rest + 1) ≡ 16
    → AllBytes full
    → Holds
        (holding name full (q * 2 + bit_of b) 8 (suc rest))
        (8 * length full + 7 + 1)
        ((big_endian 0 full * 2 ^ 7 + q) * 2 + bit_of b)
byte_filled name full q rest b small room bytes =
    let new = q * 2 + bit_of b in
    let grown = length-append full (new ∷ []) in
    record {
      full = full ++ (new ∷ []);
      last = 0;
      left_over = 0;
      rest = rest;
      is_state = holding-full name full new rest;
      partial = omega arith;
      last_fits = omega arith;
      room = omega (arith, grown);
      counted = omega (arith, grown);
      are_bytes = AllBytes-snoc full new bytes (omega (arith, bit_small b));
      valued = omega (arith, big_endian-snoc full new 0);
    }

next_state :
    (name : Bytes) (full : List ℕ) (q k rest : ℕ) (b : Bool)
    → k < 8
    → q < 2 ^ k
    → length full + (rest + 1) ≡ 16
    → 8 * length full + k + 1 < 128
    → AllBytes full
    → Holds
        (holding name full (q * 2 + bit_of b) (k + 1) rest)
        (8 * length full + k + 1)
        ((big_endian 0 full * 2 ^ k + q) * 2 + bit_of b)
next_state name full q k zero b h small room under bytes =
    one_more name full q k zero b (omega arith) small room bytes
next_state name full q k (suc rest) b h small room under bytes = elim (dec_lt (k + 1) 8) [
  | yes inside ↦ one_more name full q k (suc rest) b inside small room bytes
  | no last ↦
      let seven : k ≡ 7 = omega arith in
      subst
        (λ (j : ℕ).
          Holds (holding name full (q * 2 + bit_of b) (j + 1) (suc rest)) (8 * length full + j + 1)
            ((big_endian 0 full * 2 ^ j + q) * 2 + bit_of b))
        (sym seven)
        (byte_filled name full q rest b (subst (λ (j : ℕ). q < 2 ^ j) seven small) room bytes)
]

Holds-handle_bus_msg :
    (r : Reader) (n v : ℕ) (b : Bool)
    → Holds r n v
    → n + 1 < 128
    → Holds (handle_bus_msg r (pulse_of b)) (n + 1) (v * 2 + bit_of b)
Holds-handle_bus_msg r n v b w h =
    let step =
      handle_bus_msg-holding r.name w.full w.last w.left_over w.rest b w.partial w.last_fits
        (omega (arith, w.room)) in
    let next =
      next_state r.name w.full w.last w.left_over w.rest b w.partial w.last_fits w.room
        (omega (arith, w.counted)) w.are_bytes in
    let moved : handle_bus_msg r (pulse_of b)
        ≡ holding r.name w.full (w.last * 2 + bit_of b) (w.left_over + 1) w.rest =
      ap (λ x. handle_bus_msg x (pulse_of b)) w.is_state ∙ step in
    subst (λ x. Holds x (n + 1) (v * 2 + bit_of b)) (sym moved) (rw (← w.counted, ← w.valued) next)

Holds-handle_all :
    (r : Reader) (bits : List Bool) (n v : ℕ)
    → Holds r n v
    → n + length bits < 128
    → Holds (handle_all r (pulses bits)) (n + length bits) (bits_value v bits)
unfolding handle_all
Holds-handle_all r [] n v w h = subst (λ (m : ℕ). Holds r m v) (omega arith) w
Holds-handle_all r (b ∷ bits) n v w h =
    let first = Holds-handle_bus_msg r n v b w (omega arith) in
    subst
      (λ (m : ℕ).
        Holds (handle_all (handle_bus_msg r (pulse_of b)) (pulses bits)) m
          (bits_value (v * 2 + bit_of b) bits))
      (omega arith)
      (Holds-handle_all (handle_bus_msg r (pulse_of b)) bits (n + 1) (v * 2 + bit_of b) first
        (omega arith))

Holds-read_reset : (r : Reader) → Holds (read_reset r) 0 0
unfolding read_reset
Holds-read_reset r = record {
  full = [];
  last = 0;
  left_over = 0;
  rest = 15;
  is_state = refl;
  partial = omega arith;
  last_fits = omega arith;
  room = refl;
  counted = refl;
  are_bytes = tt;
  valued = refl;
}

-- A reader that is reset and then gets fewer than 128 pulses holds exactly their bits: its counter
-- is their number, its full bytes and the last one spell them, most significant bit first, and the
-- rest of the buffer is zero.
pub received :
    (r : Reader) (bits : List Bool)
    → length bits < 128
    → Holds (handle_all (read_reset r) (pulses bits)) (length bits) (bits_value 0 bits)
received r bits h =
    subst (λ (m : ℕ). Holds (handle_all (read_reset r) (pulses bits)) m (bits_value 0 bits))
      (omega arith) (Holds-handle_all (read_reset r) bits 0 0 (Holds-read_reset r) (omega arith))
