-- ===== src/Access/Mapper.antt =====
-- modules/auth/auth-file/FileAuthSourceMapper.cpp, the part that answers a request: the credential
-- is looked up, and the profiles of its owner, of the owner's groups and of the credential itself
-- are merged. Pointers are values, since nothing read here changes after loading; a lazy or weak
-- pointer is what locking it yields, `none` if its object is gone. Maps are association lists: a
-- loop over one meets the keys in order of insertion, where `std::map` sorts them.
pub mod Decision
pub mod Grant
use access_control.Prelude.{
  ℕ, ℤ, Bool, true, false, not, ◌&&◌, List, [], ◌∷◌, ◌++◌, Option, none, some, any, lookup, insert,
  Bytes, bytes_eq, nat_eq, ◌==◌, is_empty, map, Result, ok, err, leosac_exception, enforce, ◌>>=◌,
  if◌then◌else◌, Eq, ◌≡◌, ◌↔◌, arith, bytes_beq, bytes_beq_iff,
}
use access_control.Schedule.{Schedule, TimePoint, Tm}
use access_control.Access.Validity.{ValidityInfo, is_valid}
use access_control.Access.Profile.{Profile, new_profile, add_access_schedule, schedule_count, merge}

pub record User : Type 0 where
  pub id : ℕ
  pub username : Bytes
  pub firstname : Bytes
  pub lastname : Bytes
  pub email : Bytes
  pub validity : ValidityInfo

pub record Group : Type 0 where
  pub id : ℕ
  pub name : Bytes
  pub members : List User

-- The three credential classes of core/credentials, told apart by what they carry.
pub data Token : Type 0 where
  rfid_card : Bytes → ℤ → Token
  pin_code : Bytes → Token
  rfid_card_pin : Bytes → ℤ → Bytes → Token

pub record Credential : Type 0 where
  pub token : Token
  pub id : ℕ
  pub owner : Option User
  pub alias : Bytes
  pub validity : ValidityInfo

-- A door counts by its alias; a zone by its doors.
abbrev pub DoorRef : Type 0
DoorRef = Option Bytes

abbrev pub ZoneRef : Type 0
ZoneRef = Option (List DoorRef)

pub record ScheduleMapping : Type 0 where
  pub schedule : Option Schedule
  pub users : List ℕ
  pub groups : List ℕ
  pub creds : List ℕ
  pub doors : List DoorRef
  pub zones : List ZoneRef

unfoldable pub has_user : ScheduleMapping → ℕ → Bool
has_user m uid = any (λ id. id == uid) m.users

unfoldable pub has_group : ScheduleMapping → ℕ → Bool
has_group m gid = any (λ id. id == gid) m.groups

unfoldable pub has_cred : ScheduleMapping → ℕ → Bool
has_cred m cid = any (λ id. id == cid) m.creds

pub record Mapper : Type 0 where
  pub users : List (Bytes × User)
  pub groups : List (Bytes × Group)
  pub rfid_cards : List (Bytes × Credential)
  pub pin_codes : List (Bytes × Credential)
  pub rfid_cards_pin : List ((Bytes × Bytes) × Credential)
  pub id_to_cred : List (Bytes × Credential)
  pub xml_schedules : List (Bytes × Schedule)
  pub mappings : List ScheduleMapping

-- `std::pair`'s equality, for the keys of `rfid_cards_pin`.
abbrev pair_beq : Bytes × Bytes → Bytes × Bytes → Bool
pair_beq (a, b) (c, d) = bytes_beq a c && bytes_beq b d

pub pair_beq_iff : (p q : Bytes × Bytes) → (pair_beq p q ≡ true) ↔ (p ≡ q)
pair_beq_iff (a, b) (c, d) = ground (arith, bytes_beq_iff a c, bytes_beq_iff b d)

instance abbrev pub pair_eq : Eq (Bytes × Bytes)
pair_eq = record { same = pair_beq; same_iff = pair_beq_iff }

-- The three `visit` functions look up the stored credential of the same class.
unfoldable pub find_stored : Mapper → Token → Option Credential
find_stored m (rfid_card card bits) = lookup card m.rfid_cards
find_stored m (pin_code pin) = lookup pin m.pin_codes
find_stored m (rfid_card_pin card bits pin) = lookup (card, pin) m.rfid_cards_pin

-- `src = *cred` replaces the caller's object by the stored one; a credential that is not in the file
-- stays as it is, with no owner.
unfoldable pub map_to_user : Mapper → Credential → Credential
map_to_user m c = elim (find_stored m c.token) [ none ↦ c | some stored ↦ stored ]

abbrev has_member : User → Group → Bool
has_member u g = any (λ user. user.username == u.username) g.members

abbrev keep_groups : User → List (Bytes × Group) → List Group
keep_groups u [] = []
keep_groups u ((_, g) ∷ rest) =
    let others = keep_groups u rest in if has_member u g then g ∷ others else others

unfoldable pub get_user_groups : Mapper → User → List Group
get_user_groups m u = keep_groups u m.groups

add_doors : List DoorRef → Schedule → Profile → Result Profile
add_doors [] s p = ok p
add_doors (d ∷ ds) s p = do
  alias ← enforce d leosac_exception
  add_doors ds s (add_access_schedule p (some alias) s)

add_zones : List ZoneRef → Schedule → Profile → Result Profile
unfolding add_doors
add_zones [] s p = ok p
add_zones (z ∷ zs) s p = do
  doors ← enforce z leosac_exception
  q ← add_doors doors s p
  add_zones zs s q

unfoldable pub add_schedule_from_mapping_to_profile : ScheduleMapping → Profile → Result Profile
unfolding add_doors add_zones
add_schedule_from_mapping_to_profile m p = do
  s ← enforce m.schedule leosac_exception
  if not (is_empty m.doors)
      then add_doors m.doors s p
      else if not (is_empty m.zones)
      then add_zones m.zones s p
      else ok (add_access_schedule p none s)

-- The loop that the three `build_*_profile` functions share.
pub add_matching : (ScheduleMapping → Bool) → List ScheduleMapping → Profile → Result Profile
add_matching test [] p = ok p
add_matching test (m ∷ ms) p = do
  q ← if test m then add_schedule_from_mapping_to_profile m p else ok p
  add_matching test ms q

unfoldable pub build_user_profile : Mapper → User → Result Profile
unfolding add_matching
build_user_profile m u = add_matching (λ x. has_user x u.id) m.mappings new_profile

unfoldable pub build_group_profile : Mapper → Group → Result Profile
unfolding add_matching
build_group_profile m g = add_matching (λ x. has_group x g.id) m.mappings new_profile

unfoldable pub build_cred_profile : Mapper → Credential → Result Profile
unfolding add_matching
build_cred_profile m c = add_matching (λ x. has_cred x c.id) m.mappings new_profile

merge_all : List Profile → Profile → Profile
merge_all [] result = result
merge_all (p ∷ ps) result = merge_all ps (merge result p)

-- A merged profile with no schedule is the null pointer. The profiles handed over are never null.
unfoldable pub merge_profiles : List Profile → Option Profile
unfolding merge_all
merge_profiles ps =
    let result = merge_all ps new_profile in
    if schedule_count result == 0 then none else some result

build_group_profiles : Mapper → List Group → Result (List Profile)
build_group_profiles m [] = ok []
build_group_profiles m (g ∷ gs) = do
  p ← build_group_profile m g
  ps ← build_group_profiles m gs
  ok (p ∷ ps)

owner_profiles : Mapper → Option User → Result (List Profile)
unfolding build_group_profiles
owner_profiles m none = ok []
owner_profiles m (some u) = do
  p ← build_user_profile m u
  ps ← build_group_profiles m (get_user_groups m u)
  ok (p ∷ ps)

unfoldable pub owner_is_valid : Option User → TimePoint → Bool
owner_is_valid none now = true
owner_is_valid (some u) now = is_valid u.validity now

-- `ok none` is the null profile. The two validity checks read the clock once each; `now` stands for
-- both readings.
unfoldable pub build_profile : Mapper → TimePoint → Credential → Result (Option Profile)
unfolding owner_profiles owner_is_valid
build_profile m now c =
    if not (is_valid c.validity now)
    then ok none
    else if not (owner_is_valid c.owner now)
    then ok none
    else do
      ps ← owner_profiles m c.owner
      p ← build_cred_profile m c
      ok (merge_profiles (ps ++ (p ∷ [])))
