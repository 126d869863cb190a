-- ===== src/Security/Database.antt =====
-- The ranks, the actions and the objects that the permissions depend on: core/auth/AuthFwd.hpp,
-- core/SecurityContext.hpp, core/auth/Group.cpp and tools/ScheduleMapping.cpp.
use access_control.Prelude.{
  ℕ, Bool, ◌||◌, List, [], ◌∷◌, Option, none, some, any, nat_eq, ◌==◌, if◌then◌else◌,
}

pub data GroupRank : Type 0 where
  member operator admin_of_group : GroupRank

abbrev pub group_rank_value : GroupRank → ℕ
group_rank_value member = 0
group_rank_value operator = 1
group_rank_value admin_of_group = 2

pub data UserRank : Type 0 where
  user viewer manager supervisor admin : UserRank

abbrev pub user_rank_value : UserRank → ℕ
user_rank_value user = 0
user_rank_value viewer = 1
user_rank_value manager = 2
user_rank_value supervisor = 3
user_rank_value admin = 4

-- The actions in the order of the enumeration.
pub data Action : Type 0 where
  is_admin_action is_manager_action : Action
  user_create user_read user_read_email user_update user_change_password user_search : Action
  user_update_rank user_manage_validity user_delete : Action
  group_create group_read group_update group_delete group_search : Action
  group_list_membership group_membership_joined group_membership_left membership_read : Action
  credential_read credential_update credential_create credential_delete : Action
  schedule_read schedule_update schedule_create schedule_delete schedule_search : Action
  door_read door_update door_create door_delete door_search : Action
  access_point_read access_point_update access_point_create access_point_delete : Action
  access_point_search : Action
  zone_read zone_update zone_create zone_delete zone_search : Action
  smtp_getconfig smtp_setconfig smtp_sendmail log_read audit_read audit_read_full : Action
  access_overview restart_server : Action
  hardware_read hardware_update hardware_create hardware_delete hardware_search : Action

-- `union ActionParam`: every member begins with its id in the same word, `id` here; the others are
-- those of MembershipActionParam.
pub record ActionParam : Type 0 where
  pub id : ℕ
  pub group_id : ℕ
  pub user_id : ℕ
  pub rank : GroupRank

pub record Membership : Type 0 where
  pub id : ℕ
  pub user_id : ℕ
  pub group_id : ℕ
  pub rank : GroupRank

pub record Group : Type 0 where
  pub id : ℕ
  pub memberships : List Membership

pub record User : Type 0 where
  pub id : ℕ
  pub rank : UserRank
  pub group_memberships : List Membership
  pub credentials : List ℕ

pub record Mapping : Type 0 where
  pub users : List ℕ
  pub groups : List ℕ
  pub creds : List ℕ

pub record Db : Type 0 where
  pub find_user : ℕ → Option User
  pub find_group : ℕ → Option Group
  pub find_membership : ℕ → Option Membership
  pub find_schedule : ℕ → Option (List Mapping)
  pub find_door : ℕ → Option (List Mapping)
  pub find_credential_owner : ℕ → Option ℕ

abbrev contains : List ℕ → ℕ → Bool
contains ids id = any (λ x. x == id) ids

-- `Group::member_has`, with the rank that it writes out.
unfoldable pub member_has : List Membership → ℕ → Option GroupRank
member_has [] uid = none
member_has (m ∷ ms) uid = if m.user_id == uid then some m.rank else member_has ms uid

-- `ScheduleMapping::has_user_indirect`
unfoldable pub has_user_indirect : User → Mapping → Bool
has_user_indirect u m =
    contains m.users u.id
    || (any (λ x. contains m.groups x.group_id) u.group_memberships
        || any (λ c. contains m.creds c) u.credentials)
