-- ===== src/Rpleth/Ring/Reads.antt =====
-- Taking bytes off the ring: `fastForward`, `operator[]` and `read`.
use native.Mathlib.Nat.{mod-lt, mod-eq_of_lt, mod-add-mod}
use access_control.Prelude.{
  ℕ, zero, suc, ◌+◌, ◌-◌, ◌%◌, ◌≤◌, ◌<◌, ◌≡◌, refl, sym, ap, ◌∙◌, List, [], length, get_or, drop,
  ltb, arith, ltb→lt, Bool-cases, inl, inr,
}
use access_control.Rpleth.Ring.{CircularBuffer, window, byte_at, fast_forward, read}
use access_control.Rpleth.Ring.Contents.{IsValid, contents, window_cong}

length-window : (buf : List ℕ) (n r k : ℕ) → length (window buf n r k) ≡ k
unfolding window
length-window buf n r zero = refl
length-window buf n r (suc k) = ap suc (length-window buf n (r + 1) k)

drop-window :
    (buf : List ℕ) (n r t k : ℕ) → drop k (window buf n r t) ≡ window buf n (r + k) (t - k)
unfolding window
drop-window buf n r t zero =
    let same : t - 0 ≡ t = omega arith in
    rw same (window_cong buf n r (r + 0) t (ap (λ (x : ℕ). x % n) (omega arith)))
drop-window buf n r zero (suc k) = let none_left : 0 - suc k ≡ 0 = omega arith in rw none_left refl
drop-window buf n r (suc t) (suc k) =
    let less : suc t - suc k ≡ t - k = omega arith in
    let on : r + suc k ≡ r + 1 + k = omega arith in rw (less, on) (drop-window buf n (r + 1) t k)

get_or-window :
    (buf : List ℕ) (n r t k : ℕ)
    → k < t
    → get_or (window buf n r t) k 0 ≡ get_or buf ((r + k) % n) 0
unfolding window
get_or-window buf n r zero k h = absurd (omega arith)
get_or-window buf n r (suc t) zero h = let here : r + 0 ≡ r = omega arith in rw here refl
get_or-window buf n r (suc t) (suc k) h =
    let on : r + suc k ≡ r + 1 + k = omega arith in
    rw on (get_or-window buf n (r + 1) t k (omega arith))

-- `buffer[k]` is the k-th unread byte.
pub byte_at-contents :
    (cb : CircularBuffer) (k : ℕ) → k < cb.to_read → byte_at cb k ≡ get_or (contents cb) k 0
unfolding byte_at
byte_at-contents cb k h = sym (get_or-window cb.buffer cb.size cb.r_idx cb.to_read k h)

pub length-contents : (cb : CircularBuffer) → length (contents cb) ≡ cb.to_read
length-contents cb = length-window cb.buffer cb.size cb.r_idx cb.to_read

abbrev advance : CircularBuffer → ℕ → CircularBuffer
advance cb k = record cb { r_idx = (cb.r_idx + k) % cb.size; to_read = cb.to_read - k }

advance_drops :
    (cb : CircularBuffer) (k : ℕ)
    → IsValid cb
    → k ≤ cb.to_read
    → IsValid (advance cb k) × (contents (advance cb k) ≡ drop k (contents cb))
advance_drops cb k v h = (
  record {
    not_empty = v.not_empty;
    representable = v.representable;
    allocated = v.allocated;
    r_inside = mod-lt (cb.r_idx + k) v.not_empty;
    w_inside = v.w_inside;
    filled = omega (arith, v.filled);
    in_step =
        v.in_step
        ∙ ap (λ (x : ℕ). x % cb.size) (omega arith)
        ∙ sym (mod-add-mod (cb.r_idx + k) cb.size (cb.to_read - k));
  },
  window_cong cb.buffer cb.size ((cb.r_idx + k) % cb.size) (cb.r_idx + k) (cb.to_read - k)
        (mod-eq_of_lt (mod-lt (cb.r_idx + k) v.not_empty))
      ∙ sym (drop-window cb.buffer cb.size cb.r_idx cb.to_read k),
)

drop_past : (cb : CircularBuffer) (k : ℕ) → cb.to_read ≤ k → drop k (contents cb) ≡ []
unfolding window
drop_past cb k h =
    let none_left : cb.to_read - k ≡ 0 = omega arith in
    drop-window cb.buffer cb.size cb.r_idx cb.to_read k ∙ rw none_left refl

-- On a valid ring `fastForward` drops that many of the oldest bytes, or all there are, and the
-- ring stays valid.
pub fast_forward_drops :
    (cb : CircularBuffer) (offset : ℕ)
    → IsValid cb
    → IsValid (fast_forward cb offset)
      × (contents (fast_forward cb offset) ≡ drop offset (contents cb))
unfolding fast_forward
fast_forward_drops cb offset v = elim (Bool-cases (ltb cb.to_read offset)) [
  | inl past ↦
      let (valid, left) = advance_drops cb cb.to_read v (omega arith) in
      let gone = drop_past cb cb.to_read (omega arith) in
      let beyond = drop_past cb offset (omega (arith, ltb→lt cb.to_read offset past)) in
      rw past (valid, left ∙ gone ∙ sym beyond)
  | inr within ↦ rw within (advance_drops cb offset v (ground arith))
]

-- `read` copies the oldest bytes out and never takes them off the ring: it returns 0 bytes read,
-- whatever it copied, and leaves the ring as it was.
pub read_keeps : (cb : CircularBuffer) (n : ℕ) → ((read cb n).1 ≡ 0) × ((read cb n).2 ≡ cb)
unfolding read
read_keeps cb n = ground arith
