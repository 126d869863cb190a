-- ===== src/Rpleth/Ring.antt =====
-- modules/rpleth/network/circularbuffer.cpp. `std::size_t` has 64 bits: the subtraction of the two
-- indexes wraps, and their sums do not, as long as the size is below 2 ^ 63. `n % 0` is a division
-- by zero in the source; it is only reached on a ring of size 0.
pub mod Contents
pub mod Reads
use access_control.Prelude.{
  ℕ, zero, suc, ◌+◌, ◌-◌, ◌%◌, ◌^◌, Bool, true, false, ◌||◌, List, [], ◌∷◌, length, get_or, set,
  replicate, min, ltb, nat_eq, ◌==◌, if◌then◌else◌,
}

pub record CircularBuffer : Type 0 where
  pub buffer : List ℕ
  pub size : ℕ
  pub r_idx : ℕ
  pub w_idx : ℕ
  pub to_read : ℕ

unfoldable pub new_buffer : ℕ → CircularBuffer
new_buffer n = record { buffer = replicate n 0; size = n; r_idx = 0; w_idx = 0; to_read = 0 }

-- `for (readIdx = 0; readIdx < size; ++readIdx) data[readIdx] = _buffer[(_rIdx + readIdx) % _size];`
unfoldable pub window : List ℕ → ℕ → ℕ → ℕ → List ℕ
window buf size r zero = []
window buf size r (suc n) = get_or buf (r % size) 0 ∷ window buf size (r + 1) n

-- The bytes copied out, the returned count and the ring. The loop ends with `readIdx == size`.
unfoldable pub read : CircularBuffer → ℕ → List ℕ × ℕ × CircularBuffer
read cb size =
    let n = min size cb.to_read in
    let read_idx = n in
    if size == 0 || ltb cb.size size
    then ([], 0, cb)
    else if cb.to_read == 0
    then ([], 0, cb)
    else if read_idx == n
    then (window cb.buffer cb.size cb.r_idx n, 0, cb)
    else (
      window cb.buffer cb.size cb.r_idx n,
      read_idx + 1,
      record cb {
        r_idx = (cb.r_idx + (read_idx + 1)) % cb.size;
        to_read = cb.to_read - (read_idx + 1);
      },
    )

-- `for (i = 0; i < size; ++i) _buffer[(_wIdx + i) % _size] = data[i];`
unfoldable pub write_loop : List ℕ → ℕ → ℕ → List ℕ → List ℕ
write_loop buf size w [] = buf
write_loop buf size w (d ∷ ds) = write_loop (set buf (w % size) d) size (w + 1) ds

unfoldable pub write : CircularBuffer → List ℕ → ℕ × CircularBuffer
write cb bytes =
    let n = length bytes in
    let w = (cb.w_idx + n) % cb.size in
    if n == 0 || ltb cb.size n then (0, cb) else (
      n,
      record cb {
        buffer = write_loop cb.buffer cb.size cb.w_idx bytes;
        w_idx = w;
        to_read =
            if cb.r_idx == w
            then cb.size
            else ((w + 2 ^ 64 - cb.r_idx) % 2 ^ 64 + cb.size) % 2 ^ 64 % cb.size;
      },
    )

-- `operator[]`
unfoldable pub byte_at : CircularBuffer → ℕ → ℕ
byte_at cb idx = get_or cb.buffer ((cb.r_idx + idx) % cb.size) 0

unfoldable pub fast_forward : CircularBuffer → ℕ → CircularBuffer
fast_forward cb offset =
    let n = if ltb cb.to_read offset then cb.to_read else offset in
    record cb { r_idx = (cb.r_idx + n) % cb.size; to_read = cb.to_read - n }

unfoldable pub reset : CircularBuffer → CircularBuffer
reset cb = record cb { r_idx = 0; w_idx = 0; to_read = 0 }

unfoldable pub is_empty : CircularBuffer → Bool
is_empty cb = ltb 0 cb.to_read
