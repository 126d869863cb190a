-- ===== src/Remote/Exceptions.antt =====
-- What the children of an entry add to the lists of commands.
use access_control.Prelude.{
  ◌≡◌, refl, sym, ap, subst, ◌∙◌, Bool, true, false, Bool-cases, not, ◌&&◌, ◌||◌, Bytes, bytes_eq,
  bytes_beq_iff, ◌==◌, any, any-append, List, [], ◌∷◌, ◌++◌, Failure, Option, none, some, lookup,
  lookup-insert, runtime_error, Result, ok, enforce, bind-ok, ok_injective, arith, if◌then◌else◌,
  ◌⊎◌, inl, inr,
}
use access_control.Remote.{
  RemoteControlSecurity, Entry, differ, commands_of, set_commands, is_setting, process_commands,
}

grown :
    (x y z k a b : Bool) → y ≡ (x || (k && a)) → z ≡ (y || (k && b)) → z ≡ (x || (k && (a || b)))
grown x y z k a b e f = ground arith

skip_setting : (n b c x : Bool) → b ≡ true → x ≡ (n && not b && c || x)
skip_setting n b c x e = ground arith

or_nothing : (a b : Bool) → (a || (b || false)) ≡ (a || b)
or_nothing a b = ground arith

pub or_false_lem : (a : Bool) → a ≡ (a || false)
or_false_lem a = ground arith

pub or_assoc : (a b c : Bool) → ((a || b) || c) ≡ (a || (b || c))
or_assoc a b c = ground arith

and_true : (b : Bool) → b ≡ (b && true)
and_true b = ground arith

and_false : (b : Bool) → false ≡ (b && false)
and_false b = ground arith

chosen :
    {A : Type 0} (b : Bool) (x y : Result A) (a : A)
    → (if b then x else y) ≡ ok a
    → ((b ≡ true) × (x ≡ ok a)) ⊎ ((b ≡ false) × (y ≡ ok a))
chosen true x y a h = inl (refl, h)
chosen false x y a h = inr (refl, h)

pub enforced : {A : Type 0} (o : Option A) (e : Failure) (a : A) → enforce o e ≡ ok a → o ≡ some a
enforced none e a h = cc
enforced (some b) e a h = ap some (ok_injective h)

module _ (to_bool : Bytes → Option Bool) where
  -- The text of this child is a Boolean that differs from the default.
  abbrev contradicts : Bool → Option Bool → Bool
  contradicts granted none = false
  contradicts granted (some allowed) = differ granted allowed

  contradicted :
      (n b granted allowed : Bool) (o : Option Bool)
      → b ≡ false
      → o ≡ some allowed
      → (n && not b && contradicts granted o) ≡ (n && differ granted allowed)
  contradicted n b granted allowed o e f = rw (e, f) (ground arith)

  -- The entry has a child of this name, no setting, that contradicts its default.
  abbrev pub excepts : Bytes → Bool → Entry → Bool
  excepts req granted [] = false
  excepts req granted ((name, text) ∷ children) =
      (name == req) && not (is_setting to_bool name) && contradicts granted (to_bool text)
      || excepts req granted children

  commands-set :
      (user pk : Bytes) (cmds : List Bytes) (s : RemoteControlSecurity)
      → commands_of user (set_commands pk cmds s)
        ≡ (if pk == user then cmds else commands_of user s)
  commands-set user pk cmds s = ground (arith, lookup-insert pk user cmds s.permissions)

  -- What the children of an entry of `pk` change for this client and this command.
  abbrev pub Adds :
      Bytes → Bytes → Bytes → Bool → RemoteControlSecurity → RemoteControlSecurity → Type 0
  Adds user req pk exception s after =
      (after.unrestricted ≡ s.unrestricted)
      × (after.default_permissions ≡ s.default_permissions)
      × (any (λ c. c == req) (commands_of user after)
          ≡ (any (λ c. c == req) (commands_of user s) || ((pk == user) && exception)))
      × (pk == user ≡ false → lookup user after.permissions ≡ lookup user s.permissions)

  Adds-nothing : (user req pk : Bytes) (s : RemoteControlSecurity) → Adds user req pk false s s
  Adds-nothing user req pk s = (refl, refl, ground arith, λ h. refl)

  added :
      (user req pk name : Bytes) (s : RemoteControlSecurity)
      → any (λ c. c == req) (commands_of user (set_commands pk (commands_of pk s ++ name ∷ []) s))
        ≡ (any (λ c. c == req) (commands_of user s) || ((pk == user) && (name == req)))
  added user req pk name s =
      let set = commands-set user pk (commands_of pk s ++ name ∷ []) s in
      elim (Bool-cases (pk == user)) [
        | inl same ↦
            let to_user = ap (λ k. commands_of k s) ((bytes_beq_iff pk user).0 same) in
            let one : commands_of user (set_commands pk (commands_of pk s ++ name ∷ []) s)
                ≡ commands_of user s ++ name ∷ [] =
              set ∙ rw same (ap (λ l. l ++ name ∷ []) to_user) in
            ap (any (λ c. c == req)) one
            ∙ any-append (λ c. c == req) (commands_of user s) (name ∷ [])
            ∙ rw same (or_nothing (any (λ c. c == req) (commands_of user s)) (name == req))
        | inr other ↦
            let kept : commands_of user (set_commands pk (commands_of pk s ++ name ∷ []) s)
                ≡ commands_of user s =
              set ∙ rw other refl in
            ap (any (λ c. c == req)) kept
            ∙ rw other (or_false_lem (any (λ c. c == req) (commands_of user s)))
      ]

  Adds-one :
      (user req pk name : Bytes) (s : RemoteControlSecurity)
      → Adds user req pk (name == req) s (set_commands pk (commands_of pk s ++ name ∷ []) s)
  Adds-one user req pk name s =
      (refl, refl, added user req pk name s, λ h. lookup-insert pk user _ s.permissions ∙ rw h refl)

  choose-Adds :
      (user req pk name : Bytes) (s : RemoteControlSecurity) (d : Bool)
      → Adds user req pk
          ((name == req) && d)
          s
          (if d then set_commands pk (commands_of pk s ++ name ∷ []) s else s)
  choose-Adds user req pk name s true =
      subst (λ x. Adds user req pk x s (set_commands pk (commands_of pk s ++ name ∷ []) s))
        (and_true (name == req)) (Adds-one user req pk name s)
  choose-Adds user req pk name s false =
      subst (λ x. Adds user req pk x s s) (and_false (name == req)) (Adds-nothing user req pk s)

  Adds-both :
      (user req pk : Bytes) (a b : Bool) (s mid after : RemoteControlSecurity)
      → Adds user req pk a s mid
      → Adds user req pk b mid after
      → Adds user req pk (a || b) s after
  Adds-both user req pk a b s mid after (u, d, e, l) (u1, d1, e1, l1) = (
    u1 ∙ u,
    d1 ∙ d,
    grown (any (λ c. c == req) (commands_of user s)) _ _ (pk == user) a b e e1,
    λ h. l1 h ∙ l h,
  )

  pub commands-Adds :
      (user req pk : Bytes) (granted : Bool) (entry : Entry) (s after : RemoteControlSecurity)
      → process_commands to_bool pk granted entry s ≡ ok after
      → Adds user req pk (excepts req granted entry) s after
  unfolding process_commands
  commands-Adds user req pk granted [] s after h =
      let same = ok_injective h in
      subst (λ x. Adds user req pk false s x) same (Adds-nothing user req pk s)
  commands-Adds user req pk granted ((name, text) ∷ children) s after h =
      elim (chosen (is_setting to_bool name) _ _ after h) [
        | inl (setting, skipped) ↦
            let rest = commands-Adds user req pk granted children s after skipped in
            subst (λ x. Adds user req pk x s after) (skip_setting (name == req) _ _ _ setting) rest
        | inr (command, done) ↦
            let (allowed, read, more) =
              bind-ok (enforce (to_bool text) runtime_error) _ after done in
            let is_bool = enforced (to_bool text) runtime_error allowed read in
            let mid =
              if differ granted allowed
              then set_commands pk (commands_of pk s ++ name ∷ []) s
              else s in
            let first = choose-Adds user req pk name s (differ granted allowed) in
            let rest = commands-Adds user req pk granted children mid after more in
            let same : ((name == req)
                  && not (is_setting to_bool name)
                  && contradicts granted (to_bool text))
                ≡ ((name == req) && differ granted allowed) =
              contradicted (name == req) _ granted allowed (to_bool text) command is_bool in
            subst (λ x. Adds user req pk (x || excepts req granted children) s after) (sym same)
              (Adds-both user req pk _ _ s mid after first rest)
      ]

  pub commands-touch :
      (user pk : Bytes) (s : RemoteControlSecurity)
      → commands_of user (set_commands pk (commands_of pk s) s) ≡ commands_of user s
  commands-touch user pk s =
      let set = commands-set user pk (commands_of pk s) s in
      elim (Bool-cases (pk == user)) [
        | inl same ↦ set ∙ rw same (ap (λ k. commands_of k s) ((bytes_beq_iff pk user).0 same))
        | inr other ↦ set ∙ rw other refl
      ]
