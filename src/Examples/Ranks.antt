-- ===== src/Examples/Ranks.antt =====
-- Permissions of three users, two of them in one group.
use access_control.Prelude.{
  ℕ, ◌≡◌, ◌⊎◌, ◌↔◌, refl, true, false, none, some, [], ◌∷◌, ok, if◌then◌else◌, ◌==◌, nat_eq, arith,
}
use access_control.Security.{
  Db, User, UserRank, Membership, Group, GroupRank, Action, ActionParam, check_permission_impl,
  is_admin, is_manager, member_has,
}
use access_control.Security.Ranks.{manager_table, manager_says}
use access_control.Security.Groups.{Outranks, invite_iff, remove_iff}

abbrev boss : User
boss = record { id = 1; rank = UserRank.manager; group_memberships = []; credentials = [] }

abbrev of_operator : Membership
of_operator = record { id = 10; user_id = 2; group_id = 5; rank = GroupRank.operator }

abbrev of_member : Membership
of_member = record { id = 11; user_id = 3; group_id = 5; rank = GroupRank.member }

abbrev deputy : User
deputy = record {
  id = 2;
  rank = UserRank.user;
  group_memberships = of_operator ∷ [];
  credentials = [];
}

abbrev visitor : User
visitor = record {
  id = 3;
  rank = UserRank.viewer;
  group_memberships = of_member ∷ [];
  credentials = [];
}

abbrev staff : Group
staff = record { id = 5; memberships = of_operator ∷ of_member ∷ [] }

abbrev site : Db
site = record {
  find_user = λ id.
      if id == 1
      then some boss
      else if id == 2
      then some deputy
      else if id == 3
      then some visitor
      else none;
  find_group = λ id. if id == 5 then some staff else none;
  find_membership = λ id. if id == 11 then some of_member else none;
  find_schedule = λ id. none;
  find_door = λ id. none;
  find_credential_owner = λ id. none;
}

abbrev request : ActionParam
request = record { id = 11; group_id = 5; user_id = 3; rank = GroupRank.operator }

boss_no_admin : is_admin site 1 ≡ false
unfolding is_admin
boss_no_admin = refl

boss_manager : is_manager site 1 ≡ true
unfolding is_manager
boss_manager = refl

deputy_plain : is_manager site 2 ≡ false
unfolding is_manager
deputy_plain = refl

deputy-Outranks : Outranks (member_has staff.memberships 2) GroupRank.operator
unfolding member_has
deputy-Outranks = (GroupRank.operator, refl, omega arith, omega arith)

deputy_invites : check_permission_impl site 2 Action.group_membership_joined request ≡ ok true
deputy_invites = (invite_iff site 2 request deputy_plain staff refl).1 deputy-Outranks

manager_table_example :
    check_permission_impl site 1 Action.membership_read request
    ≡ manager_says site Action.membership_read request
manager_table_example =
    manager_table site 1 Action.membership_read request boss_no_admin boss_manager

remove_iff_example :
    (check_permission_impl site 2 Action.group_membership_left request ≡ ok true)
    ↔ (◌≡◌ {A = ℕ} 3 2 ⊎ Outranks (member_has staff.memberships 2) GroupRank.member)
remove_iff_example = remove_iff site 2 request deputy_plain of_member staff visitor refl refl refl
