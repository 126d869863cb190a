-- ===== src/Rpleth/Ring/Contents.antt =====
-- The ring as a queue of bytes.
use access_control.Prelude.{
  ℕ, zero, suc, ◌+◌, ◌-◌, ◌%◌, ◌^◌, ◌≤◌, ◌<◌, ◌≡◌, ◌≢◌, ◌⊎◌, inl, inr, refl, sym, ◌∙◌, ap, false,
  ◌||◌, List, [], ◌∷◌, ◌++◌, length, get_or, set, length-set, get_or-set_self, get_or-set_ne, ltb,
  nat_eq, ◌==◌, if◌then◌else◌, arith, dec_lt, subst, Bool-cases, nat_beq_iff,
}
use Prim.Native.Nat.add
use native.Mathlib.Nat.{mod-eq_of_lt, mod-eq-sub-mod, mod-add-mod, mod-lt}
use access_control.Rpleth.Ring.{CircularBuffer, window, write_loop, write}

pub record IsValid (cb : CircularBuffer) : Type 0 where
  pub not_empty : 0 < cb.size
  pub representable : cb.size < 2 ^ 63
  pub allocated : length cb.buffer ≡ cb.size
  pub r_inside : cb.r_idx < cb.size
  pub w_inside : cb.w_idx < cb.size
  pub filled : cb.to_read ≤ cb.size
  pub in_step : cb.w_idx ≡ (cb.r_idx + cb.to_read) % cb.size

-- Oldest byte first.
abbrev pub contents : CircularBuffer → List ℕ
contents cb = window cb.buffer cb.size cb.r_idx cb.to_read

-- An index at most once round the ring.
slot_cases : (n x : ℕ) → x < n + n → ((x < n) × (x % n ≡ x)) ⊎ ((n ≤ x) × (x % n + n ≡ x))
slot_cases n x h = elim (dec_lt x n) [
  | yes low ↦ inl (low, mod-eq_of_lt low)
  | no high ↦
      let wrapped : x % n ≡ (x - n) % n = mod-eq-sub-mod (omega arith) in
      let inside : (x - n) % n ≡ x - n = mod-eq_of_lt (omega arith) in
      inr (omega arith, omega arith)
]

length-write_loop :
    (buf : List ℕ) (n w : ℕ) (ds : List ℕ) → length (write_loop buf n w ds) ≡ length buf
unfolding write_loop
length-write_loop buf n w [] = refl
length-write_loop buf n w (d ∷ ds) =
    length-write_loop (set buf (w % n) d) n (w + 1) ds ∙ length-set buf (w % n) d

-- A slot outside the span that is written keeps its byte.
write_loop_outside :
    (ds buf : List ℕ) (n w p : ℕ)
    → ((i : ℕ) → i < length ds → (w + i) % n ≢ p)
    → get_or (write_loop buf n w ds) p 0 ≡ get_or buf p 0
unfolding write_loop
write_loop_outside [] buf n w p h = refl
write_loop_outside (d ∷ ds) buf n w p h =
    write_loop_outside ds (set buf (w % n) d) n (w + 1) p
      (λ i lt e. h (suc i) (omega arith) (ap (λ (t : ℕ). t % n) (omega arith) ∙ e))
    ∙ get_or-set_ne buf (w % n) p d 0
        (λ e. h 0 (omega arith) (ap (λ (t : ℕ). t % n) (omega arith) ∙ e))

-- Indexes that agree modulo the size name the same slots.
next_slot : (n w v : ℕ) → w % n ≡ v % n → (w + 1) % n ≡ (v + 1) % n
next_slot n w v e = sym (mod-add-mod w n 1) ∙ ap (λ (t : ℕ). (t + 1) % n) e ∙ mod-add-mod v n 1

pub window_cong : (buf : List ℕ) (n r s k : ℕ) → r % n ≡ s % n → window buf n r k ≡ window buf n s k
unfolding window
window_cong buf n r s zero e = refl
window_cong buf n r s (suc k) e =
    let rest = window_cong buf n (r + 1) (s + 1) k (next_slot n r s e) in cc

write_loop_cong :
    (ds buf : List ℕ) (n w v : ℕ) → w % n ≡ v % n → write_loop buf n w ds ≡ write_loop buf n v ds
unfolding write_loop
write_loop_cong [] buf n w v e = refl
write_loop_cong (d ∷ ds) buf n w v e =
    rw e (write_loop_cong ds (set buf (v % n) d) n (w + 1) (v + 1) (next_slot n w v e))

slots_differ : (n w k : ℕ) → 0 < k → k < n → (w + k) % n ≢ w % n
slots_differ n w k pos_k small e =
    let folded : (w % n + k) % n ≡ w % n = mod-add-mod w n k ∙ e in
    let start : w % n < n = mod-lt w (omega arith) in
    elim (slot_cases n (w % n + k) (omega arith)) [
      | inl (_, same) ↦ omega arith
      | inr (_, same) ↦ omega arith
    ]

window_ext :
    (a b : List ℕ) (n r k : ℕ)
    → ((j : ℕ) → j < k → get_or a ((r + j) % n) 0 ≡ get_or b ((r + j) % n) 0)
    → window a n r k ≡ window b n r k
unfolding window
window_ext a b n r zero h = refl
window_ext a b n r (suc k) h =
    let first = h 0 (omega arith) in
    let here : (r + 0) % n ≡ r % n = ap (λ (t : ℕ). t % n) (omega arith) in
    let rest = window_ext a b n (r + 1) k (λ j lt.
      let there : (r + 1 + j) % n ≡ (r + suc j) % n = ap (λ (t : ℕ). t % n) (omega arith) in
      rw there (h (suc j) (omega arith))) in
    cc

window-append :
    (buf : List ℕ) (n r a b : ℕ)
    → window buf n r (a + b) ≡ window buf n r a ++ window buf n (r + a) b
unfolding window
window-append buf n r zero b =
    rw (add.zero b) (window_cong buf n r (r + 0) b (ap (λ (t : ℕ). t % n) (omega arith)))
window-append buf n r (suc a) b =
    let shift : r + suc a ≡ r + 1 + a = omega arith in
    rw (add.suc a b, shift) (ap (◌∷◌ (get_or buf (r % n) 0)) (window-append buf n (r + 1) a b))

-- What was written is read back.
window-write_loop :
    (ds buf : List ℕ) (n w : ℕ)
    → 0 < n
    → length buf ≡ n
    → length ds ≤ n
    → window (write_loop buf n w ds) n w (length ds) ≡ ds
unfolding window write_loop
window-write_loop [] buf n w p a h = refl
window-write_loop (d ∷ ds) buf n w p a h =
    let inside : w % n < n = mod-lt w p in
    let kept = write_loop_outside ds (set buf (w % n) d) n (w + 1) (w % n) (λ i lt e.
      slots_differ n w (suc i) (omega arith) (omega arith)
        (ap (λ (t : ℕ). t % n) (omega arith) ∙ e)) in
    let new = get_or-set_self buf (w % n) d 0 (omega arith) in
    let rest =
      window-write_loop ds (set buf (w % n) d) n (w + 1) p (length-set buf (w % n) d ∙ a)
        (omega arith) in
    cc

-- Writing behind a span of `t` bytes that leaves room does not touch the span.
window-write_loop_before :
    (ds buf : List ℕ) (n r t : ℕ)
    → 0 < n
    → t + length ds ≤ n
    → window (write_loop buf n (r + t) ds) n r t ≡ window buf n r t
window-write_loop_before ds buf n r t p h =
    window_ext (write_loop buf n (r + t) ds) buf n r t λ j lt.
      write_loop_outside ds buf n (r + t) ((r + j) % n) λ i li e.
        slots_differ n (r + j) (t + i - j) (omega arith) (omega arith)
          (ap (λ (x : ℕ). x % n) (omega arith) ∙ e)

-- The number of unread bytes that `write` computes from the two indexes.
unread :
    (n r t k : ℕ)
    → 0 < n
    → n < 2 ^ 63
    → r < n
    → 0 < k
    → t + k ≤ n
    → (if r == (r + (t + k)) % n
        then n
        else (((r + (t + k)) % n + 2 ^ 64 - r) % 2 ^ 64 + n) % 2 ^ 64 % n)
      ≡ t + k
unread n r t k p big inside some_ fits = elim (slot_cases n (r + (t + k)) (omega arith)) [
  | inl (low, e) ↦
      let apart : (r == (r + (t + k))) ≡ false = ground arith in
      let behind : (r + (t + k) + 2 ^ 64 - r) % 2 ^ 64 ≡ t + k = omega arith in
      let once : (t + k + n) % 2 ^ 64 ≡ t + k + n = omega arith in
      let turn : (t + k + n) % n ≡ t + k = elim (slot_cases n (t + k + n) (omega arith)) [
        | inl (below, _) ↦ absurd (omega arith)
        | inr (_, f) ↦ omega arith
      ] in
      rw (e, apart, behind, once, turn) refl
  | inr (high, e) ↦ elim (Bool-cases (r == (r + (t + k)) % n)) [
    | inl same ↦ let full = (nat_beq_iff r ((r + (t + k)) % n)).0 same in rw same (omega arith)
    | inr apart ↦
        let gap : r ≢ (r + (t + k)) % n =
          λ q. let yes_ = (nat_beq_iff r ((r + (t + k)) % n)).1 q in cc in
        let back : ((r + (t + k)) % n + 2 ^ 64 - r) % 2 ^ 64 ≡ (r + (t + k)) % n + 2 ^ 64 - r =
          omega arith in
        let over : ((r + (t + k)) % n + 2 ^ 64 - r + n) % 2 ^ 64 ≡ t + k = omega arith in
        rw (apart, back, over) (mod-eq_of_lt (omega arith))
  ]
]

-- A ring whose write index is the one that its other fields give.
abbrev ring : List ℕ → ℕ → ℕ → ℕ → CircularBuffer
ring buf n r t = record { buffer = buf; size = n; r_idx = r; w_idx = (r + t) % n; to_read = t }

IsValid-ring : (cb : CircularBuffer) → IsValid cb → cb ≡ ring cb.buffer cb.size cb.r_idx cb.to_read
IsValid-ring cb v = λ i. record cb { w_idx = v.in_step i }

write-ring :
    (buf : List ℕ) (n r t : ℕ) (ds : List ℕ)
    → IsValid (ring buf n r t)
    → 0 < length ds
    → t + length ds ≤ n
    → write (ring buf n r t) ds
      ≡ (length ds, ring (write_loop buf n (r + t) ds) n r (t + length ds))
unfolding write
write-ring buf n r t ds v more fits =
    let k = length ds in
    let goes_on : (k == 0 || ltb n k) ≡ false = ground arith in
    let folded : ((r + t) % n + k) % n ≡ (r + (t + k)) % n =
      mod-add-mod (r + t) n k ∙ ap (λ (x : ℕ). x % n) (omega arith) in
    let at =
      write_loop_cong ds buf n ((r + t) % n) (r + t) (mod-eq_of_lt (mod-lt (r + t) v.not_empty)) in
    rw (goes_on, folded, at, unread n r t k v.not_empty v.representable v.r_inside more fits) refl

ring_appends :
    (buf : List ℕ) (n r t : ℕ) (ds : List ℕ)
    → IsValid (ring buf n r t)
    → t + length ds ≤ n
    → IsValid (ring (write_loop buf n (r + t) ds) n r (t + length ds))
      × (contents (ring (write_loop buf n (r + t) ds) n r (t + length ds)) ≡ window buf n r t ++ ds)
ring_appends buf n r t ds v fits = (
  record {
    not_empty = v.not_empty;
    representable = v.representable;
    allocated = length-write_loop buf n (r + t) ds ∙ v.allocated;
    r_inside = v.r_inside;
    w_inside = mod-lt (r + (t + length ds)) v.not_empty;
    filled = fits;
    in_step = refl;
  },
  rw
      (
        window-append (write_loop buf n (r + t) ds) n r t (length ds),
        window-write_loop_before ds buf n r t v.not_empty fits,
        window-write_loop ds buf n (r + t) v.not_empty v.allocated (omega arith),
      )
      refl,
)

abbrev Appends : CircularBuffer → List ℕ → Type 0
Appends cb ds =
    ((write cb ds).0 ≡ length ds)
    × IsValid (write cb ds).1
    × (contents (write cb ds).1 ≡ contents cb ++ ds)

-- On a valid ring with room for them, `write` puts the bytes behind the unread ones and returns
-- their number, and the ring stays valid.
pub write_appends :
    (cb : CircularBuffer) (ds : List ℕ)
    → IsValid cb
    → 0 < length ds
    → cb.to_read + length ds ≤ cb.size
    → ((write cb ds).0 ≡ length ds)
      × IsValid (write cb ds).1
      × (contents (write cb ds).1 ≡ contents cb ++ ds)
write_appends cb ds v more fits =
    let e = IsValid-ring cb v in
    let valid : IsValid (ring cb.buffer cb.size cb.r_idx cb.to_read) = subst IsValid e v in
    let done = ring_appends cb.buffer cb.size cb.r_idx cb.to_read ds valid fits in
    let step = write-ring cb.buffer cb.size cb.r_idx cb.to_read ds valid more fits in
    subst (λ c. Appends c ds) (sym e) (rw step (refl, done.0, done.1))
