-- ===== src/Access/Validity.antt =====
-- core/auth/ValidityInfo.cpp. `system_clock::now()` is an argument. `strptime`, `mktime` and
-- `from_time_t` belong to the C and C++ libraries: together they are the parameter `parse_date`,
-- which yields no value where `strptime` refuses the text.
use access_control.Prelude.{
  ◌-◌, ◌^◌, ◌≡◌, Bool, true, ◌&&◌, pos, negsuc, leb_ℤ, ◌≤ℤ◌, [], ◌∷◌, Option, Bytes, Result, ok,
  runtime_error, enforce, ◌>>=◌, arith,
}
use access_control.Schedule.{TimePoint}

pub record ValidityInfo : Type 0 where
  pub start : TimePoint
  pub end : TimePoint
  pub enabled : Bool

-- Ticks are counted in 64 signed bits.
abbrev pub time_point_min : TimePoint
time_point_min = negsuc (2 ^ 63 - 1)

abbrev pub time_point_max : TimePoint
time_point_max = pos (2 ^ 63 - 1)

unfoldable pub new_validity : ValidityInfo
new_validity = record { start = time_point_min; end = time_point_max; enabled = true }

unfoldable is_in_range : ValidityInfo → TimePoint → Bool
is_in_range v now = leb_ℤ v.start now && leb_ℤ now v.end

unfoldable pub is_valid : ValidityInfo → TimePoint → Bool
unfolding is_in_range
is_valid v now = v.enabled && is_in_range v now

unfoldable set_enabled : ValidityInfo → Bool → ValidityInfo
set_enabled v b = record v { enabled = b }

module _ (parse_date : Bytes → Option TimePoint) where
  -- A debug build stops at `assert(0)` just before the throw.
  unfoldable pub set_start_date : ValidityInfo → Bytes → Result ValidityInfo
  set_start_date v [] = ok (record v { start = time_point_min })
  set_start_date v (c ∷ s) = do
    tp ← enforce (parse_date (c ∷ s)) runtime_error
    ok (record v { start = tp })

  unfoldable pub set_end_date : ValidityInfo → Bytes → Result ValidityInfo
  set_end_date v [] = ok (record v { end = time_point_max })
  set_end_date v (c ∷ s) = do
    tp ← enforce (parse_date (c ∷ s)) runtime_error
    ok (record v { end = tp })

-- With both dates left out of the file, an enabled entry is valid at every representable time.
pub new_validity_unbounded :
    (parse_date : Bytes → Option TimePoint) (now : TimePoint)
    → time_point_min ≤ℤ now
    → now ≤ℤ time_point_max
    → (v w : ValidityInfo) → set_start_date parse_date new_validity [] ≡ ok v
    → set_end_date parse_date v [] ≡ ok w
    → is_valid w now ≡ true
unfolding set_start_date set_end_date new_validity is_valid
new_validity_unbounded parse_date now h k v w p q = ground arith
