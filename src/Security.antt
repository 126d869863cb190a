-- ===== src/Security.antt =====
-- core/SecurityContext.{hpp,cpp} and core/UserSecurityContext.cpp: who may perform which action.
-- The database is the parameter `db`: what its look-ups by id yield. Loading a pointer to an object
-- that the database does not hold is an exception, as is a look-up that may not fail.
mod Database
pub mod Ranks
pub mod Groups
use access_control.Prelude.{
  ℕ, Bool, true, false, ◌&&◌, ◌||◌, List, [], ◌∷◌, Option, none, some, any, nat_eq, ◌==◌, leb,
  Result, ok, err, enforce, ◌>>=◌, entity_not_found, permission_denied, aborted, if◌then◌else◌,
}
unfoldable pub use Database.*

-- At least operator, and no rank above one's own.
abbrev pub may_invite : Option GroupRank → GroupRank → Bool
may_invite none target = false
may_invite (some r) target =
    leb 1 (group_rank_value r) && leb (group_rank_value target) (group_rank_value r)

module _ (db : Db) (user_id : ℕ) where
  abbrev rank_is_admin : Option User → Bool
  rank_is_admin none = false
  rank_is_admin (some u) = user_rank_value u.rank == 4

  abbrev rank_is_manager : Option User → Bool
  rank_is_manager none = false
  rank_is_manager (some u) = leb 2 (user_rank_value u.rank)

  unfoldable pub is_admin : Bool
  is_admin = rank_is_admin (db.find_user user_id)

  unfoldable pub is_manager : Bool
  is_manager = rank_is_manager (db.find_user user_id)

  unfoldable pub is_self : ℕ → Bool
  is_self id = user_id == id

  unfoldable self : Result User
  self = enforce (db.find_user user_id) entity_not_found

  abbrev is_some_rank : Option GroupRank → Bool
  is_some_rank none = false
  is_some_rank (some r) = true

  unfoldable pub can_read_group : ActionParam → Result Bool
  can_read_group gap = if is_manager || gap.id == 0 then ok true else do
    group ← enforce (db.find_group gap.id) entity_not_found
    ok (is_some_rank (member_has group.memberships user_id))

  abbrev administrates : Option GroupRank → Bool
  administrates none = false
  administrates (some r) = group_rank_value r == 2

  unfoldable pub can_administrate_group : ℕ → Result Bool
  can_administrate_group gid = if is_manager then ok true else do
    group ← enforce (db.find_group gid) entity_not_found
    ok (administrates (member_has group.memberships user_id))

  -- The nested check of GROUP_LIST_MEMBERSHIP begins, as every check does, with the administrator.
  unfoldable pub can_read_membership : ActionParam → Result Bool
  unfolding can_administrate_group
  can_read_membership map = do
    ugm ← enforce (db.find_membership map.id) entity_not_found
    if ugm.user_id == user_id
        then ok true
        else if is_admin
        then ok true
        else can_administrate_group ugm.group_id

  unfoldable pub can_read_user_detail : ActionParam → Bool
  can_read_user_detail uap = is_self uap.id || is_manager

  unfoldable pub can_update_user : ActionParam → Bool
  can_update_user uap = is_self uap.id || is_manager

  unfoldable pub can_create_membership : ActionParam → Result Bool
  can_create_membership map = if is_manager then ok true else do
    group ← enforce (db.find_group map.group_id) entity_not_found
    ok (may_invite (member_has group.memberships user_id) map.rank)

  unfoldable pub can_delete_membership : ActionParam → Result Bool
  can_delete_membership map = if is_manager then ok true else do
    membership ← enforce (db.find_membership map.id) entity_not_found
    group ← enforce (db.find_group membership.group_id) entity_not_found
    target ← enforce (db.find_user membership.user_id) entity_not_found
    ok (target.id == user_id || may_invite (member_has group.memberships user_id) membership.rank)

  -- The loop over the mappings; the user is loaded in each round.
  unfoldable pub mapped_to_me : List Mapping → Result Bool
  unfolding self
  mapped_to_me [] = ok false
  mapped_to_me (m ∷ ms) = do
    me ← self
    let rest = mapped_to_me ms
    if has_user_indirect me m then ok true else rest

  unfoldable pub can_read_schedule : ActionParam → Result Bool
  can_read_schedule cap =
      if is_manager || cap.id == 0
      then ok true
      else do mapping ← enforce (db.find_schedule cap.id) entity_not_found; mapped_to_me mapping

  unfoldable pub can_read_door : ActionParam → Result Bool
  can_read_door dap =
      if is_manager || dap.id == 0
      then ok true
      else do mapping ← enforce (db.find_door dap.id) entity_not_found; mapped_to_me mapping

  unfoldable pub can_read_credential : ActionParam → Result Bool
  can_read_credential cap = if is_manager || cap.id == 0 then ok true else do
    owner_id ← enforce (db.find_credential_owner cap.id) entity_not_found
    ok (is_self owner_id)

  -- The `switch`; the last clause is `default`, which stops a debug build.
  unfoldable permission_of : Action → ActionParam → Result Bool
  permission_of is_admin_action ap = ok is_admin
  permission_of is_manager_action ap = ok is_manager
  permission_of user_create ap = ok is_manager
  permission_of user_delete ap = ok is_admin
  permission_of user_read ap = ok true
  permission_of user_read_email ap = ok (can_read_user_detail ap)
  permission_of user_update ap = ok (can_update_user ap)
  permission_of user_update_rank ap = ok is_manager
  permission_of user_manage_validity ap = ok is_manager
  permission_of user_change_password ap = ok (is_manager || is_self ap.id)
  permission_of group_search ap = ok true
  permission_of group_create ap = ok true
  permission_of group_read ap = can_read_group ap
  permission_of group_list_membership ap = can_administrate_group ap.id
  permission_of group_delete ap = can_administrate_group ap.id
  permission_of group_update ap = can_administrate_group ap.id
  permission_of membership_read ap = can_read_membership ap
  permission_of group_membership_joined ap = can_create_membership ap
  permission_of group_membership_left ap = can_delete_membership ap
  permission_of credential_read ap = can_read_credential ap
  permission_of credential_create ap = ok is_manager
  permission_of credential_update ap = ok is_manager
  permission_of credential_delete ap = ok is_manager
  permission_of schedule_read ap = can_read_schedule ap
  permission_of schedule_create ap = ok is_manager
  permission_of schedule_update ap = ok is_manager
  permission_of schedule_delete ap = ok is_manager
  permission_of schedule_search ap = ok true
  permission_of door_read ap = can_read_door ap
  permission_of door_create ap = ok is_manager
  permission_of door_update ap = ok is_manager
  permission_of door_delete ap = ok is_manager
  permission_of door_search ap = ok true
  permission_of access_point_read ap = ok is_manager
  permission_of access_point_create ap = ok is_manager
  permission_of access_point_update ap = ok is_manager
  permission_of access_point_delete ap = ok is_manager
  permission_of access_point_search ap = ok is_manager
  permission_of zone_read ap = ok is_manager
  permission_of zone_create ap = ok is_manager
  permission_of zone_update ap = ok is_manager
  permission_of zone_delete ap = ok is_manager
  permission_of zone_search ap = ok is_manager
  permission_of smtp_getconfig ap = ok is_admin
  permission_of smtp_setconfig ap = ok is_admin
  permission_of smtp_sendmail ap = ok is_admin
  permission_of log_read ap = ok is_manager
  permission_of audit_read ap = ok is_manager
  permission_of audit_read_full ap = ok is_admin
  permission_of access_overview ap = ok is_manager
  permission_of restart_server ap = ok is_admin
  permission_of _ ap = err aborted

  unfoldable pub check_permission_impl : Action → ActionParam → Result Bool
  unfolding permission_of
  check_permission_impl action ap = if is_admin then ok true else permission_of action ap

-- The three kinds of context, and the virtual call.
pub data SecurityContext : Type 0 where
  system_context null_context : SecurityContext
  user_context : ℕ → SecurityContext

unfoldable check_permission : Db → SecurityContext → Action → ActionParam → Result Bool
check_permission db system_context a ap = ok true
check_permission db null_context a ap = ok false
check_permission db (user_context uid) a ap = check_permission_impl db uid a ap

abbrev must : Bool → Result (Unit {0})
must true = ok tt
must false = err permission_denied

unfoldable enforce_permission : Db → SecurityContext → Action → ActionParam → Result (Unit {0})
unfolding check_permission
enforce_permission db sc a ap = do allowed ← check_permission db sc a ap; must allowed
