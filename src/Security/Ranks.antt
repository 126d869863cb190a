-- ===== src/Security/Ranks.antt =====
-- What the rank of a user decides.
use access_control.Prelude.{
  ℕ, ◌≤◌, ◌≡◌, refl, Bool, true, false, not, Option, Result, none, some, List, [], ◌∷◌, nat_eq,
  nat_beq_iff, ◌==◌, ok, err, aborted, arith, if◌then◌else◌, Bool-cases, Option-cases, inl, inr,
  enforce, ◌>>=◌, entity_not_found,
}
use access_control.Security.{
  Db, User, UserRank, user_rank_value, Action, ActionParam, is_admin, is_manager,
  check_permission_impl, can_read_group, can_administrate_group, can_read_membership,
  can_create_membership, can_delete_membership, can_read_schedule, can_read_door,
  can_read_credential, can_read_user_detail, can_update_user, is_self, mapped_to_me,
  has_user_indirect, Mapping,
}

-- The actions that the `switch` reserves to administrators.
abbrev pub admin_only : Action → Bool
admin_only Action.is_admin_action = true
admin_only Action.user_delete = true
admin_only Action.smtp_getconfig = true
admin_only Action.smtp_setconfig = true
admin_only Action.smtp_sendmail = true
admin_only Action.audit_read_full = true
admin_only Action.restart_server = true
admin_only _ = false

-- The actions that the `switch` does not name.
abbrev pub unhandled : Action → Bool
unhandled Action.user_search = true
unhandled Action.hardware_read = true
unhandled Action.hardware_update = true
unhandled Action.hardware_create = true
unhandled Action.hardware_delete = true
unhandled Action.hardware_search = true
unhandled _ = false

-- What the rank of manager alone decides.
abbrev pub manager_says : Db → Action → ActionParam → Result Bool
manager_says db Action.membership_read ap =
    enforce (db.find_membership ap.id) entity_not_found >>= λ membership. ok true
manager_says db a ap = if unhandled a then err aborted else ok (not (admin_only a))

-- A manager who is no administrator may do whatever is not for administrators only, and the actions
-- that the switch does not name abort. A membership can be read if it exists; no other look-up can
-- fail for a manager.
pub manager_table :
    (db : Db) (uid : ℕ) (a : Action) (ap : ActionParam)
    → is_admin db uid ≡ false
    → is_manager db uid ≡ true
    → check_permission_impl db uid a ap ≡ manager_says db a ap
unfolding check_permission_impl can_read_group can_administrate_group can_create_membership
    can_delete_membership can_read_schedule can_read_door can_read_credential can_read_user_detail
    can_update_user can_read_membership
manager_table db uid Action.is_admin_action ap h k = ground arith
manager_table db uid Action.membership_read ap h k =
    elim (Option-cases (db.find_membership ap.id)) [
      | inl e ↦ ground arith
      | inr (m, e) ↦ ground arith
    ]
manager_table db uid _ ap h k = ground arith

-- The database in which one user has another rank.
abbrev with_rank : UserRank → Option User → Option User
with_rank r none = none
with_rank r (some u) = some (record u { rank = r })

abbrev pub promote : Db → ℕ → UserRank → Db
promote db uid r = record db {
  find_user = λ id. if id == uid then with_rank r (db.find_user id) else db.find_user id;
}

below_admin : (r : UserRank) → user_rank_value r ≤ 4
below_admin UserRank.user = omega arith
below_admin _ = omega arith

admin_up :
    (old new : UserRank)
    → user_rank_value old ≤ user_rank_value new
    → (user_rank_value old == 4) ≡ true
    → (user_rank_value new == 4) ≡ true
admin_up old new up h = let top = below_admin new in ground arith

module _ (db : Db) (uid : ℕ) (u : User) (r : UserRank) (known : db.find_user uid ≡ some u) where
  promoted : (promote db uid r).find_user uid ≡ some (record u { rank = r })
  promoted = let same = (nat_beq_iff uid uid).1 refl in rw (same, known) refl

  mapped_to_me-promote :
      (ms : List Mapping) → mapped_to_me (promote db uid r) uid ms ≡ mapped_to_me db uid ms
  unfolding mapped_to_me has_user_indirect
  mapped_to_me-promote [] = refl
  mapped_to_me-promote (m ∷ ms) = rw (promoted, known) (rw (mapped_to_me-promote ms) refl)

  still_admin :
      user_rank_value u.rank ≤ user_rank_value r
      → is_admin db uid ≡ true
      → is_admin (promote db uid r) uid ≡ true
  unfolding is_admin
  still_admin up = rw (promoted, known) (admin_up u.rank r up)

  still_manager :
      user_rank_value u.rank ≤ user_rank_value r
      → is_manager db uid ≡ true
      → is_manager (promote db uid r) uid ≡ true
  unfolding is_manager
  still_manager up = rw (promoted, known) (λ h. ground arith)

  same_target :
      (id : ℕ) {v : User}
      → db.find_user id ≡ some v
      → (w : User) × ((promote db uid r).find_user id ≡ some w) × (w.id ≡ v.id)
  same_target id {v} e = elim (Bool-cases (id == uid)) [
    | inl same ↦ (record v { rank = r }, rw (same, e) refl, refl)
    | inr other ↦ (v, rw (other, e) refl, refl)
  ]

  keeps_mapped :
      (o : Option (List Mapping))
      → (enforce o entity_not_found >>= mapped_to_me (promote db uid r) uid)
        ≡ (enforce o entity_not_found >>= mapped_to_me db uid)
  keeps_mapped none = refl
  keeps_mapped (some ms) = mapped_to_me-promote ms

  -- Giving a user a higher rank takes no permission away.
  pub promote_keeps :
      (a : Action) (map : ActionParam)
      → user_rank_value u.rank ≤ user_rank_value r
      → check_permission_impl db uid a map ≡ ok true
      → check_permission_impl (promote db uid r) uid a map ≡ ok true
  unfolding check_permission_impl can_read_group can_administrate_group can_create_membership
      can_delete_membership can_read_schedule can_read_door can_read_credential can_read_user_detail
      can_update_user can_read_membership is_self
  promote_keeps Action.is_admin_action map up h =
      let adm = still_admin up in let man = still_manager up in ground arith
  promote_keeps Action.group_membership_left map up h =
      let adm = still_admin up in
      let man = still_manager up in
      elim (Option-cases (db.find_membership map.id)) [
        | inl e ↦ ground arith
        | inr (m, e) ↦ elim (Option-cases (db.find_user m.user_id)) [
          | inl e' ↦ ground arith
          | inr (v, e') ↦ let (w, now, id) = same_target m.user_id e' in ground arith
        ]
      ]
  promote_keeps Action.schedule_read map up h =
      let adm = still_admin up in
      let man = still_manager up in
      let mapped = keeps_mapped (db.find_schedule map.id) in ground arith
  promote_keeps Action.door_read map up h =
      let adm = still_admin up in
      let man = still_manager up in let mapped = keeps_mapped (db.find_door map.id) in ground arith
  promote_keeps _ map up h = let adm = still_admin up in let man = still_manager up in ground arith
