-- ===== src/Access/Profile/Coverage.antt =====
-- What a profile grants, as a Boolean function of the target and the time.
use access_control.Prelude.{
  length, ◌≡◌, refl, Bool, true, false, ◌||◌, List, [], ◌∷◌, ◌++◌, Option, none, some, any-append,
  lookup, lookup-insert, Distinct, insert-Distinct, Bytes, bytes_eq, bytes_beq_iff, ◌==◌, ◌&&◌,
  arith,
}
use access_control.Schedule.{Schedule, TimePoint, Tm, is_in_schedule}
use access_control.Access.Profile.{
  Profile, new_profile, schedule_count, or_empty, add_access_schedule, in_one_of, is_access_granted,
  add_all, add_pairs, merge,
}

abbrev pub WellKeyed : Profile → Type 0
WellKeyed p = Distinct p.schedules

pub add_access_schedule-WellKeyed :
    (p : Profile) (target : Option Bytes) (s : Schedule)
    → WellKeyed p
    → WellKeyed (add_access_schedule p target s)
unfolding add_access_schedule
add_access_schedule-WellKeyed p none s d = d
add_access_schedule-WellKeyed p (some name) s d = insert-Distinct name _ p.schedules d

add_all-WellKeyed :
    (at : Option Bytes) (l : List Schedule) (p : Profile) → WellKeyed p → WellKeyed (add_all at l p)
unfolding add_all
add_all-WellKeyed at [] p d = d
add_all-WellKeyed at (s ∷ l) p d =
    add_all-WellKeyed at l (add_access_schedule p at s) (add_access_schedule-WellKeyed p at s d)

add_pairs-WellKeyed :
    (m : List (Bytes × List Schedule)) (p : Profile) → WellKeyed p → WellKeyed (add_pairs m p)
unfolding add_pairs
add_pairs-WellKeyed [] p d = d
add_pairs-WellKeyed ((k, l) ∷ m) p d =
    add_pairs-WellKeyed m (add_all (some k) l p) (add_all-WellKeyed (some k) l p d)

pub merge-WellKeyed : (p q : Profile) → WellKeyed (merge p q)
unfolding merge new_profile
merge-WellKeyed p q = add_pairs-WellKeyed q.schedules _ (
    add_pairs-WellKeyed p.schedules _ (
      add_all-WellKeyed none q.default_schedule _ (add_all-WellKeyed none p.default_schedule _ tt)))

pub new_profile-WellKeyed : WellKeyed new_profile
unfolding new_profile
new_profile-WellKeyed = tt

-- A schedule added for no target serves all of them.
abbrev pub serves : Option Bytes → Option Bytes → Bool
serves none target = true
serves (some name) none = false
serves (some name) (some target) = name == target

module _ (localtime : TimePoint → Tm) (tp : TimePoint) where
  -- A default schedule serves any target, a schedule of a target that target only.
  unfoldable pub covers : Profile → Option Bytes → Bool
  covers p none = in_one_of localtime tp p.default_schedule
  covers p (some name) =
      in_one_of localtime tp p.default_schedule
      || in_one_of localtime tp (or_empty (lookup name p.schedules))

  pub is_access_granted-covers :
      (p : Profile) (target : Option Bytes)
      → (is_access_granted localtime p tp target).0 ≡ covers p target
  unfolding is_access_granted covers
  is_access_granted-covers p none = refl
  is_access_granted-covers p (some name) = ground arith

  pub covers-add_access_schedule :
      (p : Profile) (at target : Option Bytes) (s : Schedule)
      → covers (add_access_schedule p at s) target
        ≡ (covers p target || (serves at target && in_one_of localtime tp (s ∷ [])))
  unfolding covers add_access_schedule
  covers-add_access_schedule p none none s =
      let split = any-append (λ x. is_in_schedule localtime x tp) p.default_schedule (s ∷ []) in
      ground arith
  covers-add_access_schedule p none (some t) s =
      let split = any-append (λ x. is_in_schedule localtime x tp) p.default_schedule (s ∷ []) in
      ground arith
  covers-add_access_schedule p (some k) none s = ground arith
  covers-add_access_schedule p (some k) (some t) s =
      let own = or_empty (lookup k p.schedules) in
      let split = any-append (λ x. is_in_schedule localtime x tp) own (s ∷ []) in
      let found = lookup-insert k t (own ++ (s ∷ [])) p.schedules in
      ground (arith, bytes_beq_iff k t)

  covers-add_all :
      (at target : Option Bytes) (l : List Schedule) (p : Profile)
      → covers (add_all at l p) target
        ≡ (covers p target || (serves at target && in_one_of localtime tp l))
  unfolding add_all
  covers-add_all at target [] p = ground arith
  covers-add_all at target (s ∷ l) p = ground (
    arith,
    covers-add_all at target l (add_access_schedule p at s),
    covers-add_access_schedule p at target s,
  )

  -- What the entries of a map of targets serve.
  abbrev listed : List (Bytes × List Schedule) → Option Bytes → Bool
  listed m none = false
  listed m (some name) = in_one_of localtime tp (or_empty (lookup name m))

  covers-add_pairs :
      (m : List (Bytes × List Schedule)) (target : Option Bytes) (p : Profile)
      → Distinct m
      → covers (add_pairs m p) target ≡ (covers p target || listed m target)
  unfolding add_pairs
  covers-add_pairs [] none p d = ground arith
  covers-add_pairs [] (some name) p d = ground arith
  covers-add_pairs ((k, l) ∷ m) none p d =
      ground (
        arith,
        covers-add_pairs m none (add_all (some k) l p) d.1,
        covers-add_all (some k) none l p,
      )
  covers-add_pairs ((k, l) ∷ m) (some t) p d = ground (
    arith,
    covers-add_pairs m (some t) (add_all (some k) l p) d.1,
    covers-add_all (some k) (some t) l p,
    bytes_beq_iff k t,
    d.0,
  )

  pub covers-new_profile : (target : Option Bytes) → covers new_profile target ≡ false
  unfolding covers new_profile
  covers-new_profile none = refl
  covers-new_profile (some t) = refl

  covers_split :
      (p : Profile) (target : Option Bytes)
      → covers p target ≡ (in_one_of localtime tp p.default_schedule || listed p.schedules target)
  unfolding covers
  covers_split p none = ground arith
  covers_split p (some t) = refl

  -- Merging grants a target at a time exactly when one of the two profiles does.
  pub covers-merge :
      (p q : Profile) (target : Option Bytes)
      → WellKeyed p
      → WellKeyed q
      → covers (merge p q) target ≡ (covers p target || covers q target)
  unfolding merge
  covers-merge p q target dp dq =
      let first = add_all none p.default_schedule new_profile in
      let both = add_all none q.default_schedule first in
      ground (
        arith,
        covers-add_pairs q.schedules target (add_pairs p.schedules both) dq,
        covers-add_pairs p.schedules target both dp,
        covers-add_all none target q.default_schedule first,
        covers-add_all none target p.default_schedule new_profile,
        covers-new_profile target,
        covers_split p target,
        covers_split q target,
      )

  -- A profile that counts no schedule grants nothing.
  pub covers-empty :
      (p : Profile) (target : Option Bytes) → schedule_count p ≡ 0 → covers p target ≡ false
  unfolding covers schedule_count
  covers-empty p target e =
      no_entries p.default_schedule p.schedules target (omega arith) (omega arith)
    where
      no_entries :
          (l : List Schedule) (m : List (Bytes × List Schedule)) (at : Option Bytes)
          → length l ≡ 0
          → length m ≡ 0
          → covers (record { schedules = m; default_schedule = l }) at ≡ false
      no_entries [] [] none h k = refl
      no_entries [] [] (some t) h k = refl
      no_entries (x ∷ l) m at h k = absurd (omega arith)
      no_entries [] (x ∷ m) at h k = absurd (omega arith)
