-- ===== src/Security/Groups.antt =====
-- The permissions inside a group.
use access_control.Prelude.{
  ℕ, ap, Bool-cases, ◌≤◌, ◌≡◌, ◌↔◌, ◌⊎◌, inl, inr, refl, true, false, Option, none, some, nat_eq,
  nat_beq_iff, ◌==◌, ok, arith,
}
use access_control.Security.{
  Db, User, Membership, Group, GroupRank, group_rank_value, Action, ActionParam, is_admin,
  is_manager, check_permission_impl, may_invite, member_has, can_create_membership,
  can_delete_membership,
}

-- A rank in the group that is enough to deal with a member of rank `target`.
abbrev pub Outranks : Option GroupRank → GroupRank → Type 0
Outranks held target =
    (r : GroupRank) × (held ≡ some r)
    × (1 ≤ group_rank_value r)
    × (group_rank_value target ≤ group_rank_value r)

may_invite_iff :
    (held : Option GroupRank) (target : GroupRank)
    → (may_invite held target ≡ true) ↔ Outranks held target
may_invite_iff none target = (λ h. cc, λ w. let e = w.1 in cc)
may_invite_iff (some mine) target =
    (λ h. (mine, refl, ground arith, ground arith), λ (r, e, low, high). ground arith)

module _ (db : Db) (uid : ℕ) (map : ActionParam) (plain : is_manager db uid ≡ false) where
  not_admin : is_admin db uid ≡ false
  unfolding is_admin is_manager
  not_admin = ground arith

  -- Someone below manager may add a member to an existing group exactly when the group holds them
  -- as operator or above, and for no rank above their own.
  pub invite_iff :
      (g : Group)
      → db.find_group map.group_id ≡ some g
      → (check_permission_impl db uid Action.group_membership_joined map ≡ ok true)
        ↔ Outranks (member_has g.memberships uid) map.rank
  unfolding check_permission_impl can_create_membership
  invite_iff g found =
      let (to, from) = may_invite_iff (member_has g.memberships uid) map.rank in
      rw (not_admin, plain, found) (λ h. to (ground arith), λ w. ap ok (from w))

  -- Someone below manager may remove a membership, all of whose objects exist, exactly when it is
  -- their own, or when they are operator or above in its group and its rank is not above theirs.
  pub remove_iff :
      (m : Membership) (g : Group) (u : User)
      → db.find_membership map.id ≡ some m
      → db.find_group m.group_id ≡ some g
      → db.find_user m.user_id ≡ some u
      → (check_permission_impl db uid Action.group_membership_left map ≡ ok true)
        ↔ ((u.id ≡ uid) ⊎ Outranks (member_has g.memberships uid) m.rank)
  unfolding check_permission_impl can_delete_membership
  remove_iff m g u fm fg fu =
      let (to, from) = may_invite_iff (member_has g.memberships uid) m.rank in
      rw (not_admin, plain, fm, fg, fu)
        (
          λ h. elim (Bool-cases (u.id == uid)) [
            | inl mine ↦ inl ((nat_beq_iff u.id uid).0 mine)
            | inr other ↦ inr (to (ground arith))
          ],
          λ w. elim w [
            | inl mine ↦ rw ((nat_beq_iff u.id uid).1 mine) refl
            | inr enough ↦ let h = from enough in ground arith
          ],
        )
