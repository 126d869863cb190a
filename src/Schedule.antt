-- ===== src/Schedule.antt =====
-- tools/SingleTimeFrame.{hpp,cpp} and tools/Schedule.cpp: weekly time frames and schedules.
-- A time point is its count of ticks. `std::localtime` belongs to the C library: it is the
-- parameter `localtime`, and yields the three fields of `std::tm` that the code reads.
pub mod Order
pub mod Window
pub mod Names
use access_control.Prelude.{
  ℕ, Bool, true, false, not, ◌&&◌, ◌||◌, List, [], ◌∷◌, ◌++◌, ℤ, pos, ltb_ℤ, leb_ℤ, beq_ℤ, ltb, all,
  any, length, Bytes, is_alnum, ◌==◌, nat_eq, if◌then◌else◌,
}

abbrev pub TimePoint : Type 0
TimePoint = ℤ

pub record Tm : Type 0 where
  pub tm_wday : ℤ
  pub tm_hour : ℤ
  pub tm_min : ℤ

pub record SingleTimeFrame : Type 0 where
  pub day : ℤ
  pub start_hour : ℤ
  pub start_min : ℤ
  pub end_hour : ℤ
  pub end_min : ℤ

-- The default constructor.
unfoldable empty_frame : SingleTimeFrame
empty_frame = record {
  day = pos 0;
  start_hour = pos 0;
  start_min = pos 0;
  end_hour = pos 0;
  end_min = pos 0;
}

-- `operator==`
unfoldable pub frame_beq : SingleTimeFrame → SingleTimeFrame → Bool
frame_beq f o =
    beq_ℤ f.day o.day
    && (beq_ℤ f.start_hour o.start_hour
        && (beq_ℤ f.start_min o.start_min
            && (beq_ℤ f.end_hour o.end_hour && beq_ℤ f.end_min o.end_min)))

-- `std::tuple`'s comparison: the first pair of fields that differ decides.
unfoldable pub lexicographic : List ℤ → List ℤ → Bool
lexicographic (a ∷ s) (b ∷ t) = if ltb_ℤ a b then true else beq_ℤ a b && lexicographic s t
lexicographic _ _ = false

abbrev pub frame_key : SingleTimeFrame → List ℤ
frame_key f = f.day ∷ f.start_hour ∷ f.start_min ∷ f.end_hour ∷ f.end_min ∷ []

-- `operator<`
unfoldable pub frame_ltb : SingleTimeFrame → SingleTimeFrame → Bool
frame_ltb f o = lexicographic (frame_key f) (frame_key o)

pub record Schedule : Type 0 where
  pub id : ℕ
  pub name : Bytes
  pub description : Bytes
  pub timeframes : List SingleTimeFrame

-- The constructor takes the name as it is; only the setter validates.
unfoldable new_schedule : Bytes → Schedule
new_schedule n = record { id = 0; name = n; description = []; timeframes = [] }

unfoldable pub add_timeframe : Schedule → SingleTimeFrame → Schedule
add_timeframe s tf = record s { timeframes = s.timeframes ++ (tf ∷ []) }

unfoldable clear_timeframes : Schedule → Schedule
clear_timeframes s = record s { timeframes = [] }

-- `ModelException` carries the attribute at fault and a text; both refusals name the same one.
pub data NameCheck : Type 0 where
  accepted bad_length bad_character : NameCheck

abbrev pub allowed_character : ℕ → Bool
allowed_character c = is_alnum c || (c == b'_' || (c == b'-' || c == b'.'))

-- `validate_name` of Schedule.cpp and of core/auth/Group.cpp, which have one body.
unfoldable pub validate_name : Bytes → NameCheck
validate_name name =
    if ltb (length name) 3 || ltb 50 (length name)
    then bad_length
    else if all allowed_character name
    then accepted
    else bad_character

abbrev renamed : NameCheck → Schedule → Bytes → Schedule
renamed accepted s name = record s { name = name }
renamed bad_length s name = s
renamed bad_character s name = s

-- The setter: on a refusal the exception leaves the object as it was.
unfoldable pub set_name : Schedule → Bytes → Schedule
set_name s name = renamed (validate_name name) s name

module _ (localtime : TimePoint → Tm) where
  unfoldable pub is_in_timeframe : SingleTimeFrame → TimePoint → Bool
  is_in_timeframe f tp =
      let t = localtime tp in
      if not (beq_ℤ f.day t.tm_wday)
      then false
      else if not (
          ltb_ℤ f.start_hour t.tm_hour
          || (beq_ℤ f.start_hour t.tm_hour && leb_ℤ f.start_min t.tm_min))
      then false
      else if not
          (ltb_ℤ t.tm_hour f.end_hour || (beq_ℤ f.end_hour t.tm_hour && leb_ℤ t.tm_min f.end_min))
      then false
      else true

  unfoldable pub is_in_schedule : Schedule → TimePoint → Bool
  is_in_schedule s tp = any (λ tf. is_in_timeframe tf tp) s.timeframes
