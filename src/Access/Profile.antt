-- ===== src/Access/Profile.antt =====
-- core/auth/SimpleAccessProfile.cpp and core/auth/ProfileMerger.cpp. A target counts by its name
-- alone; `none` is the null target. `std::map` is an association list.
pub mod Coverage
use access_control.Prelude.{
  ℕ, ◌+◌, Bool, true, false, ◌||◌, List, [], ◌∷◌, ◌++◌, Option, none, some, any, length, lookup,
  insert, Bytes, bytes_eq, if◌then◌else◌,
}
use access_control.Schedule.{Schedule, TimePoint, Tm, is_in_schedule}

pub record Profile : Type 0 where
  pub schedules : List (Bytes × List Schedule)
  pub default_schedule : List Schedule

unfoldable pub new_profile : Profile
new_profile = record { schedules = []; default_schedule = [] }

-- `schedules_[name]` read: an absent key is there afterwards, with the empty vector.
abbrev pub or_empty : Option (List Schedule) → List Schedule
or_empty none = []
or_empty (some l) = l

unfoldable pub add_access_schedule : Profile → Option Bytes → Schedule → Profile
add_access_schedule p (some name) s = record p {
  schedules = insert name (or_empty (lookup name p.schedules) ++ (s ∷ [])) p.schedules;
}
add_access_schedule p none s = record p { default_schedule = p.default_schedule ++ (s ∷ []) }

unfoldable pub schedule_count : Profile → ℕ
schedule_count p = length p.default_schedule + length p.schedules

module _ (localtime : TimePoint → Tm) where
  abbrev pub in_one_of : TimePoint → List Schedule → Bool
  in_one_of tp = any (λ s. is_in_schedule localtime s tp)

  -- The answer, and the profile afterwards: asking about a target makes its key exist.
  unfoldable pub is_access_granted : Profile → TimePoint → Option Bytes → Bool × Profile
  is_access_granted p tp none = (in_one_of tp p.default_schedule, p)
  is_access_granted p tp (some name) =
      let own = or_empty (lookup name p.schedules) in
      if in_one_of tp p.default_schedule
      then (true, p)
      else (in_one_of tp own, record p { schedules = insert name own p.schedules })

-- `for (sched : schedules) result->addAccessSchedule(target, sched);`
unfoldable pub add_all : Option Bytes → List Schedule → Profile → Profile
add_all target [] p = p
add_all target (s ∷ l) p = add_all target l (add_access_schedule p target s)

unfoldable pub add_pairs : List (Bytes × List Schedule) → Profile → Profile
add_pairs [] p = p
add_pairs ((name, l) ∷ m) p = add_pairs m (add_all (some name) l p)

unfoldable pub merge : Profile → Profile → Profile
merge p1 p2 =
    let defaults =
      add_all none p2.default_schedule (add_all none p1.default_schedule new_profile) in
    add_pairs p2.schedules (add_pairs p1.schedules defaults)
