-- ===== src/Access/Mapper/Decision.antt =====
-- What the profile that FileAuthSourceMapper builds grants, against a description of the mappings.
use access_control.Prelude.{
  ◌≡◌, refl, inl, inr, Bool, true, false, not, ◌&&◌, ◌||◌, List, [], ◌∷◌, Option, none, some, any,
  Bytes, bytes_eq, nat_eq, is_empty, Result, ok, if◌then◌else◌, arith, Bool-cases,
}
use access_control.Schedule.{Schedule, TimePoint, Tm, is_in_schedule}
use access_control.Access.Profile.{Profile, add_access_schedule}
use access_control.Access.Profile.Coverage.{
  WellKeyed, covers, serves, covers-add_access_schedule, add_access_schedule-WellKeyed,
}
use access_control.Access.Mapper.{
  DoorRef, ZoneRef, ScheduleMapping, add_doors, add_zones, add_schedule_from_mapping_to_profile,
  add_matching,
}

-- The objects that a mapping points to are still there.
abbrev LiveDoors : List DoorRef → Type 0
LiveDoors [] = Unit {0}
LiveDoors (some _ ∷ ds) = LiveDoors ds
LiveDoors (none ∷ ds) = ⊥

abbrev LiveZones : List ZoneRef → Type 0
LiveZones [] = Unit {0}
LiveZones (some ds ∷ zs) = LiveDoors ds × LiveZones zs
LiveZones (none ∷ zs) = ⊥

abbrev IsLive : ScheduleMapping → Type 0
IsLive m = ((s : Schedule) × (m.schedule ≡ some s)) × LiveDoors m.doors × LiveZones m.zones

abbrev pub AllLive : List ScheduleMapping → Type 0
AllLive [] = Unit {0}
AllLive (m ∷ ms) = IsLive m × AllLive ms

-- The doors that a mapping opens: those it names; else those of the zones it names; else all,
-- the null target included.
abbrev opens_door : Option Bytes → DoorRef → Bool
opens_door target none = false
opens_door target (some alias) = serves (some alias) target

abbrev opens_zone : Option Bytes → ZoneRef → Bool
opens_zone target none = false
opens_zone target (some doors) = any (opens_door target) doors

abbrev pub opens : ScheduleMapping → Option Bytes → Bool
opens m target =
    if not (is_empty m.doors)
    then any (opens_door target) m.doors
    else if not (is_empty m.zones)
    then any (opens_zone target) m.zones
    else true

module _ (localtime : TimePoint → Tm) (tp : TimePoint) where
  abbrev pub runs : Option Schedule → Bool
  runs none = false
  runs (some s) = is_in_schedule localtime s tp

  -- The result of a call that adds to the profile `p` what `f` says.
  pub record Adds (p : Profile) (r : Result Profile) (f : Option Bytes → Bool) : Type 0 where
    pub result : Profile
    pub returns : r ≡ ok result
    pub keyed : WellKeyed result
    pub grants :
        (target : Option Bytes)
        → covers localtime tp result target ≡ (covers localtime tp p target || f target)

  add_doors-Adds :
      (ds : List DoorRef) (s : Schedule) (p : Profile)
      → LiveDoors ds
      → WellKeyed p
      → Adds p (add_doors ds s p) (λ t. is_in_schedule localtime s tp && any (opens_door t) ds)
  unfolding add_doors
  add_doors-Adds [] s p live d = record {
    result = p;
    returns = refl;
    keyed = d;
    grants = λ t. ground arith;
  }
  add_doors-Adds (none ∷ ds) s p live d = elim live [ ]
  add_doors-Adds (some a ∷ ds) s p live d =
      let q = add_access_schedule p (some a) s in
      let rest = add_doors-Adds ds s q live (add_access_schedule-WellKeyed p (some a) s d) in
      record {
        result = rest.result;
        returns = rest.returns;
        keyed = rest.keyed;
        grants = λ t.
            ground (arith, rest.grants t, covers-add_access_schedule localtime tp p (some a) t s);
      }

  add_zones-Adds :
      (zs : List ZoneRef) (s : Schedule) (p : Profile)
      → LiveZones zs
      → WellKeyed p
      → Adds p (add_zones zs s p) (λ t. is_in_schedule localtime s tp && any (opens_zone t) zs)
  unfolding add_zones
  add_zones-Adds [] s p live d = record {
    result = p;
    returns = refl;
    keyed = d;
    grants = λ t. ground arith;
  }
  add_zones-Adds (none ∷ zs) s p live d = elim live [ ]
  add_zones-Adds (some ds ∷ zs) s p live d =
      let first = add_doors-Adds ds s p live.0 d in
      let rest = add_zones-Adds zs s first.result live.1 first.keyed in
      record {
        result = rest.result;
        returns = rw first.returns rest.returns;
        keyed = rest.keyed;
        grants = λ t. ground (arith, rest.grants t, first.grants t);
      }

  default-Adds :
      (s : Schedule) (p : Profile)
      → WellKeyed p
      → Adds p (ok (add_access_schedule p none s)) (λ t. is_in_schedule localtime s tp && true)
  default-Adds s p d = record {
    result = add_access_schedule p none s;
    returns = refl;
    keyed = add_access_schedule-WellKeyed p none s d;
    grants = λ t. ground (arith, covers-add_access_schedule localtime tp p none t s);
  }

  -- A mapping whose objects are all there adds its schedule at exactly the doors that it opens.
  mapping-Adds :
      (m : ScheduleMapping) (p : Profile)
      → IsLive m
      → WellKeyed p
      → Adds p (add_schedule_from_mapping_to_profile m p) (λ t. runs m.schedule && opens m t)
  unfolding add_schedule_from_mapping_to_profile
  mapping-Adds m p ((s, e), live_doors, live_zones) d =
      by_kind m.schedule m.doors m.zones e live_doors live_zones
    where
      by_kind :
          (o : Option Schedule) (ds : List DoorRef) (zs : List ZoneRef)
          → o ≡ some s
          → LiveDoors ds
          → LiveZones zs
          → let n = record m { schedule = o; doors = ds; zones = zs } in
            Adds p (add_schedule_from_mapping_to_profile n p) (λ t. runs o && opens n t)
      by_kind none ds zs h ld lz = absurd (cc)
      by_kind (some s') [] [] h ld lz = default-Adds s' p d
      by_kind (some s') [] (z ∷ zs) h ld lz = add_zones-Adds (z ∷ zs) s' p lz d
      by_kind (some s') (x ∷ ds) zs h ld lz = add_doors-Adds (x ∷ ds) s' p ld d

  pub matching-Adds :
      (test : ScheduleMapping → Bool) (ms : List ScheduleMapping) (p : Profile)
      → AllLive ms
      → WellKeyed p
      → Adds p
          (add_matching test ms p)
          (λ t. any (λ m. test m && (runs m.schedule && opens m t)) ms)
  unfolding add_matching
  matching-Adds test [] p live d = record {
    result = p;
    returns = refl;
    keyed = d;
    grants = λ t. ground arith;
  }
  matching-Adds test (m ∷ ms) p live d = elim (Bool-cases (test m)) [
    | inl applies ↦
        let first = mapping-Adds m p live.0 d in
        let rest = matching-Adds test ms first.result live.1 first.keyed in
        record {
          result = rest.result;
          returns = rw applies (rw first.returns rest.returns);
          keyed = rest.keyed;
          grants = λ t. ground (arith, applies, rest.grants t, first.grants t);
        }
    | inr skipped ↦
        let rest = matching-Adds test ms p live.1 d in
        record {
          result = rest.result;
          returns = rw skipped rest.returns;
          keyed = rest.keyed;
          grants = λ t. ground (arith, skipped, rest.grants t);
        }
  ]
