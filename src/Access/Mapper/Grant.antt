-- ===== src/Access/Mapper/Grant.antt =====
-- The decision of FileAuthSourceMapper::buildProfile and SimpleAccessProfile::isAccessGranted.
use access_control.Prelude.{
  ◌≡◌, refl, ◌↔◌, Bool, true, false, ◌&&◌, ◌||◌, List, [], ◌∷◌, ◌++◌, Option, none, some, any,
  any-append, any-false, any-or, any_ext, sym, ◌∙◌, any→mem, mem→any, Memᴰ, Bytes, nat_eq, Result,
  ok, arith, Bool-cases, inl, inr,
}
use access_control.Schedule.{TimePoint, Tm}
use access_control.Access.Validity.{is_valid}
use access_control.Access.Profile.{Profile, new_profile, is_access_granted, merge}
use access_control.Access.Profile.Coverage.{
  WellKeyed, covers, is_access_granted-covers, covers-merge, merge-WellKeyed, new_profile-WellKeyed,
  covers-new_profile, covers-empty,
}
use access_control.Access.Mapper.{
  User, Group, Credential, ScheduleMapping, Mapper, has_user, has_group, has_cred, get_user_groups,
  build_user_profile, build_group_profile, build_cred_profile, merge_all, merge_profiles,
  build_group_profiles, owner_profiles, owner_is_valid, build_profile,
}
use access_control.Access.Mapper.Decision.{AllLive, opens, runs, matching-Adds}

-- A mapping concerns the owner of the credential, one of the owner's groups, or the credential.
abbrev concerns_owner : Mapper → Option User → ScheduleMapping → Bool
concerns_owner M none m = false
concerns_owner M (some u) m = has_user m u.id || any (λ g. has_group m g.id) (get_user_groups M u)

abbrev pub concerns : Mapper → Credential → ScheduleMapping → Bool
concerns M c m = concerns_owner M c.owner m || has_cred m c.id

abbrev AllKeyed : List Profile → Type 0
AllKeyed [] = Unit {0}
AllKeyed (p ∷ ps) = WellKeyed p × AllKeyed ps

AllKeyed-append : (ps qs : List Profile) → AllKeyed ps → AllKeyed qs → AllKeyed (ps ++ qs)
AllKeyed-append [] qs h k = k
AllKeyed-append (p ∷ ps) qs h k = (h.0, AllKeyed-append ps qs h.1 k)

module _ (localtime : TimePoint → Tm) (tp : TimePoint) where
  abbrev covered : List Profile → Option Bytes → Bool
  covered ps t = any (λ p. covers localtime tp p t) ps

  covers-merge_all :
      (ps : List Profile) (r : Profile) (t : Option Bytes)
      → AllKeyed ps
      → WellKeyed r
      → covers localtime tp (merge_all ps r) t ≡ (covers localtime tp r t || covered ps t)
  unfolding merge_all
  covers-merge_all [] r t k w = ground arith
  covers-merge_all (p ∷ ps) r t k w =
      let step = covers-merge localtime tp r p t w k.0 in
      let rest = covers-merge_all ps (merge r p) t k.1 (merge-WellKeyed r p) in ground arith

  -- What the caller reads off the profile that it is given: the null profile grants nothing.
  abbrev pub granted : Option Profile → Option Bytes → Bool
  granted none target = false
  granted (some p) target = (is_access_granted localtime p tp target).0

  granted-merge_profiles :
      (ps : List Profile) (t : Option Bytes)
      → AllKeyed ps
      → granted (merge_profiles ps) t ≡ covered ps t
  unfolding merge_profiles
  granted-merge_profiles ps t k =
      let all = covers-merge_all ps new_profile t k new_profile-WellKeyed in
      let start = covers-new_profile localtime tp t in
      let asked = is_access_granted-covers localtime tp (merge_all ps new_profile) t in
      let nothing = covers-empty localtime tp (merge_all ps new_profile) t in ground arith

  -- A mapping gives access to a target now.
  abbrev pub gives : ScheduleMapping → Option Bytes → Bool
  gives m t = runs localtime tp m.schedule && opens m t

  -- Profiles that were built, and what they cover together.
  record Built (r : Result (List Profile)) (f : Option Bytes → Bool) : Type 0 where
    result : List Profile
    returns : r ≡ ok result
    keyed : AllKeyed result
    grants : (t : Option Bytes) → covered result t ≡ f t

  group_profiles-Built :
      (M : Mapper) (gs : List Group)
      → AllLive M.mappings
      → Built
          (build_group_profiles M gs)
          (λ t. any (λ g. any (λ m. has_group m g.id && gives m t) M.mappings) gs)
  unfolding build_group_profiles build_group_profile
  group_profiles-Built M [] live = record {
    result = [];
    returns = refl;
    keyed = tt;
    grants = λ t. refl;
  }
  group_profiles-Built M (g ∷ gs) live =
      let one =
        matching-Adds localtime tp (λ m. has_group m g.id) M.mappings new_profile live
          new_profile-WellKeyed in
      let rest = group_profiles-Built M gs live in
      record {
        result = one.result ∷ rest.result;
        returns = rw one.returns (rw rest.returns refl);
        keyed = (one.keyed, rest.keyed);
        grants =
            λ t. ground (arith, one.grants t, rest.grants t, covers-new_profile localtime tp t);
      }

  -- The order of the two searches, over groups and over mappings, does not matter.
  group_mappings :
      (gs : List Group) (ms : List ScheduleMapping) (t : Option Bytes)
      → any (λ g. any (λ m. has_group m g.id && gives m t) ms) gs
        ≡ any (λ m. any (λ g. has_group m g.id) gs && gives m t) ms
  group_mappings [] ms t = sym (any-false ms)
  group_mappings (g ∷ gs) ms t =
      rw
        (
          group_mappings gs ms t,
          any-or (λ m. has_group m g.id && gives m t)
              (λ m. any (λ x. has_group m x.id) gs && gives m t) ms,
        )
        (any_ext _ _ ms (λ m. ground arith))

  owner_profiles-Built :
      (M : Mapper) (o : Option User)
      → AllLive M.mappings
      → Built (owner_profiles M o) (λ t. any (λ m. concerns_owner M o m && gives m t) M.mappings)
  unfolding owner_profiles build_user_profile
  owner_profiles-Built M none live = record {
    result = [];
    returns = refl;
    keyed = tt;
    grants = λ t. sym (any-false M.mappings);
  }
  owner_profiles-Built M (some u) live =
      let one =
        matching-Adds localtime tp (λ m. has_user m u.id) M.mappings new_profile live
          new_profile-WellKeyed in
      let rest = group_profiles-Built M (get_user_groups M u) live in
      record {
        result = one.result ∷ rest.result;
        returns = rw one.returns (rw rest.returns refl);
        keyed = (one.keyed, rest.keyed);
        grants = λ t.
            let swap = group_mappings (get_user_groups M u) M.mappings t in
            let join =
              any-or (λ m. has_user m u.id && gives m t)
                (λ m. any (λ g. has_group m g.id) (get_user_groups M u) && gives m t) M.mappings in
            let same =
              any_ext
                (λ m.
                  (has_user m u.id && gives m t)
                  || (any (λ g. has_group m g.id) (get_user_groups M u) && gives m t))
                (λ m. concerns_owner M (some u) m && gives m t) M.mappings (λ m. ground arith) in
            ground (arith, one.grants t, rest.grants t, covers-new_profile localtime tp t);
      }

  all_profiles-Built :
      (M : Mapper) (c : Credential)
      → AllLive M.mappings
      → (ps : List Profile) × (p : Profile) × (owner_profiles M c.owner ≡ ok ps)
        × (build_cred_profile M c ≡ ok p)
        × ((t : Option Bytes)
            → granted (merge_profiles (ps ++ (p ∷ []))) t
              ≡ any (λ m. concerns M c m && gives m t) M.mappings)
  unfolding build_cred_profile
  all_profiles-Built M c live =
      let own = owner_profiles-Built M c.owner live in
      let cred =
        matching-Adds localtime tp (λ m. has_cred m c.id) M.mappings new_profile live
          new_profile-WellKeyed in
      (
        own.result,
        cred.result,
        own.returns,
        cred.returns,
        λ t.
            let all = own.result ++ (cred.result ∷ []) in
            let asked =
              granted-merge_profiles all t
                (AllKeyed-append own.result (cred.result ∷ []) own.keyed (cred.keyed, tt)) in
            let split = any-append (λ p. covers localtime tp p t) own.result (cred.result ∷ []) in
            let join =
              any-or (λ m. concerns_owner M c.owner m && gives m t)
                (λ m. has_cred m c.id && gives m t) M.mappings in
            let same =
              any_ext
                (λ m. (concerns_owner M c.owner m && gives m t) || (has_cred m c.id && gives m t))
                (λ m. concerns M c m && gives m t) M.mappings (λ m. ground arith) in
            ground (arith, own.grants t, cred.grants t, covers-new_profile localtime tp t),
      )

  witness :
      (M : Mapper) (c : Credential)
      → is_valid c.validity tp ≡ true
      → owner_is_valid c.owner tp ≡ true
      → (t : Option Bytes) {b : Bool} → b ≡ any (λ m. concerns M c m && gives m t) M.mappings
      → (b ≡ true) ↔ (
          (is_valid c.validity tp ≡ true)
          × (owner_is_valid c.owner tp ≡ true)
          × ((m : ScheduleMapping) × Memᴰ m M.mappings
              × (concerns M c m ≡ true)
              × (runs localtime tp m.schedule ≡ true)
              × (opens m t ≡ true)))
  witness M c good fine t e = (
    λ h.
        let (m, at, found) = any→mem (λ x. concerns M c x && gives x t) M.mappings (sym e ∙ h) in
        (good, fine, (m, at, ground arith, ground arith, ground arith)),
    λ h.
        let (m, at, a, r, o) = h.2 in
        e ∙ mem→any (λ x. concerns M c x && gives x t) at (ground arith),
  )

  -- As long as the objects that the mappings point to are there, building the profile returns, and
  -- the profile grants a target exactly when the credential is valid, its owner, if any, is valid,
  -- and some mapping that concerns the credential, its owner or a group of the owner has a schedule
  -- that holds now and opens that target.
  pub build_profile_decision :
      (M : Mapper) (c : Credential)
      → AllLive M.mappings
      → (r : Option Profile) × (build_profile M tp c ≡ ok r)
        × ((target : Option Bytes)
            → (granted r target ≡ true) ↔ (
                (is_valid c.validity tp ≡ true)
                × (owner_is_valid c.owner tp ≡ true)
                × ((m : ScheduleMapping) × Memᴰ m M.mappings
                    × (concerns M c m ≡ true)
                    × (runs localtime tp m.schedule ≡ true)
                    × (opens m target ≡ true))))
  unfolding build_profile
  build_profile_decision M c live =
      let (ps, p, own, cred, grants) = all_profiles-Built M c live in
      elim (Bool-cases (is_valid c.validity tp)) [
        | inr bad ↦ (none, rw bad refl, λ t. (λ h. cc, λ h. cc (h.0)))
        | inl good ↦ elim (Bool-cases (owner_is_valid c.owner tp)) [
          | inr bad ↦ (none, rw (good, bad) refl, λ t. (λ h. cc, λ h. cc (h.1)))
          | inl fine ↦ (
            merge_profiles (ps ++ (p ∷ [])),
            rw (good, fine) (rw own (rw cred refl)),
            λ t. witness M c good fine t (grants t),
          )
        ]
      ]
