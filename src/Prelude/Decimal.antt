-- ===== src/Prelude/Decimal.antt =====
-- `std::stoi` and `std::stoull` in base 10, on the "C" locale: white space, a sign, digits, and then
-- anything. `int` has 32 bits and `unsigned long long` 64.
use Prim.Native.Nat.{ℕ, ◌+◌, ◌-◌, ◌*◌, ◌%◌, ◌^◌}
use mathlib.Core.Bool.{Bool, true, false, ◌&&◌, ◌||◌}
use mathlib.Core.List.{[], ◌∷◌}
use access_control.Prelude.Tests.{if◌then◌else◌, leb, nat_eq, ◌==◌}
use access_control.Prelude.Int.{ℤ, pos, negsuc}
use access_control.Prelude.Text.{Bytes, is_digit}
use access_control.Prelude.Failures.{Result, ok, err, invalid_argument, out_of_range}

abbrev is_space : ℕ → Bool
is_space c = (c == 32) || (leb 9 c && leb c 13)

abbrev skip_spaces : Bytes → Bytes
skip_spaces [] = []
skip_spaces (c ∷ s) = let rest = skip_spaces s in if is_space c then rest else c ∷ s

abbrev digits : ℕ → Bytes → ℕ
digits acc [] = acc
digits acc (c ∷ s) = let more = digits (10 * acc + (c - b'0')) s in if is_digit c then more else acc

abbrev starts_with_digit : Bytes → Bool
starts_with_digit [] = false
starts_with_digit (c ∷ s) = is_digit c

-- Whether there is a minus, and what follows the sign.
abbrev signed : Bytes → Bool × Bytes
signed [] = (false, [])
signed (c ∷ s) = if c == b'-' then (true, s) else if c == b'+' then (false, s) else (false, c ∷ s)

abbrev magnitude : Bool × Bytes → Result (Bool × ℕ)
magnitude (minus, s) = if starts_with_digit s then ok (minus, digits 0 s) else err invalid_argument

abbrev to_int_range : Result (Bool × ℕ) → Result ℤ
to_int_range (err e) = err e
to_int_range (ok (true, n)) =
    if n == 0 then ok (pos 0) else if leb n (2 ^ 31) then ok (negsuc (n - 1)) else err out_of_range
to_int_range (ok (false, n)) = if leb n (2 ^ 31 - 1) then ok (pos n) else err out_of_range

abbrev to_unsigned_range : Result (Bool × ℕ) → Result ℕ
to_unsigned_range (err e) = err e
to_unsigned_range (ok (minus, n)) =
    if leb n (2 ^ 64 - 1) then ok (if minus then (2 ^ 64 - n) % 2 ^ 64 else n) else err out_of_range

abbrev pub stoi : Bytes → Result ℤ
stoi s = to_int_range (magnitude (signed (skip_spaces s)))

abbrev pub stoull : Bytes → Result ℕ
stoull s = to_unsigned_range (magnitude (signed (skip_spaces s)))
