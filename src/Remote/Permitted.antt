-- ===== src/Remote/Permitted.antt =====
-- What the remote control permits, in terms of the configuration.
use access_control.Prelude.{
  ◌≡◌, refl, sym, ap, subst, ◌∙◌, Bool, true, false, Bool-cases, not, ◌&&◌, ◌||◌, Bytes, bytes_eq,
  ◌==◌, any, codes, List, [], ◌∷◌, Option, none, some, lookup, insert, lookup-insert, runtime_error,
  aborted, ok, enforce, guard-ok, bind-ok, ok_injective, if◌then◌else◌, inl, inr,
}
use access_control.Remote.{
  RemoteControlSecurity, Entry, unconfigured, or_empty, commands_of, permitted, allow_request,
  default_access, process_commands, process_security_entry, process_entries, process_config,
  handle_msg, Handler, dispatch,
}
use access_control.Remote.Exceptions.{
  excepts, Adds, commands-Adds, commands-touch, enforced, or_false_lem, or_assoc,
}

module _ (to_bool : Bytes → Option Bool) where
  abbrev names : Bytes → Option Bytes → Bool
  names user none = false
  names user (some pk) = pk == user

  -- The default of the last entry for this client.
  abbrev pub last_default : Bytes → List (Bytes × Entry) → Option Bool → Option Bool
  last_default user [] before = before
  last_default user ((name, entry) ∷ entries) before = last_default user entries (
      if names user (lookup (codes "pk") entry)
      then some (default_access to_bool entry)
      else before)

  -- An entry for this client has an exception for this command.
  abbrev pub excepted : Bytes → Bytes → List (Bytes × Entry) → Bool
  excepted user req [] = false
  excepted user req ((name, entry) ∷ entries) =
      names user (lookup (codes "pk") entry)
        && excepts to_bool req (default_access to_bool entry) entry
      || excepted user req entries

  abbrev pub decided : Option Bool → Bool → Bool
  decided none exception = false
  decided (some true) exception = not exception
  decided (some false) exception = exception

  abbrev pub may : Bytes → Bytes → Option (List (Bytes × Entry)) → Bool
  may user req none = true
  may user req (some entries) = decided (last_default user entries none) (excepted user req entries)

  abbrev is_in : {A : Type 0} → Option A → Bool
  is_in none = false
  is_in (some a) = true

  -- What a state says of this client and this command.
  abbrev Says : Bytes → Bytes → Option Bool → Bool → RemoteControlSecurity → Type 0
  Says user req granted exception s =
      (s.unrestricted ≡ false)
      × (lookup user s.default_permissions ≡ granted)
      × (any (λ c. c == req) (commands_of user s) ≡ exception)
      × (is_in (lookup user s.default_permissions) ≡ is_in (lookup user s.permissions))

  permitted-decided :
      (req : Bytes) (o : Option Bool) (l : Option (List Bytes))
      → is_in o ≡ is_in l
      → permitted req o l ≡ decided o (any (λ c. c == req) (or_empty l))
  permitted-decided req none none h = refl
  permitted-decided req none (some l) h = refl
  permitted-decided req (some g) none h = cc
  permitted-decided req (some true) (some l) h = refl
  permitted-decided req (some false) (some l) h = refl

  allow-Says :
      (user req : Bytes) (granted : Option Bool) (exception : Bool) (s : RemoteControlSecurity)
      → Says user req granted exception s
      → allow_request user req s ≡ decided granted exception
  unfolding allow_request
  allow-Says user req granted exception s (shut, d, e, same) =
      rw
        (
          shut,
          permitted-decided req (lookup user s.default_permissions) (lookup user s.permissions)
              same,
        )
        (ap (λ o. decided o (any (λ c. c == req) (commands_of user s))) d ∙ ap (decided granted) e)

  entry-is_in :
      (user req pk : Bytes) (granted exception : Bool) (s mid : RemoteControlSecurity)
      → is_in (lookup user s.default_permissions) ≡ is_in (lookup user s.permissions)
      → Adds to_bool user req pk exception
          (record s { default_permissions = insert pk granted s.default_permissions })
          mid
      → is_in (lookup user mid.default_permissions)
        ≡ is_in (lookup user (insert pk (commands_of pk mid) mid.permissions))
  entry-is_in user req pk granted exception s mid same (u, d, e, l) =
      let defaults = lookup-insert pk user granted s.default_permissions in
      let lists = lookup-insert pk user (commands_of pk mid) mid.permissions in
      elim (Bool-cases (pk == user)) [
        | inl mine ↦ rw (d, defaults, lists, mine) refl
        | inr other ↦ rw (d, defaults, lists, other, l other) same
      ]

  entry-Says :
      (user req : Bytes) (granted : Option Bool) (exception : Bool) (entry : Entry)
      (s after : RemoteControlSecurity)
      → Says user req granted exception s
      → process_security_entry to_bool entry s ≡ ok after
      → Says user req
          (if names user (lookup (codes "pk") entry)
            then some (default_access to_bool entry)
            else granted)
          (exception
            || (names user (lookup (codes "pk") entry)
                && excepts to_bool req (default_access to_bool entry) entry))
          after
  unfolding process_security_entry
  entry-Says user req granted exception entry s after (shut, d, e, same) h =
      let (pk, read, more) =
        bind-ok (enforce (lookup (codes "pk") entry) runtime_error) _ after h in
      let key = enforced (lookup (codes "pk") entry) runtime_error pk read in
      let (mid, ran, last) =
        bind-ok (process_commands to_bool pk (default_access to_bool entry) entry _) _ after more in
      let (u1, d1, e1, l1) =
        commands-Adds to_bool user req pk (default_access to_bool entry) entry _ mid ran in
      let defaults =
        ap (lookup user) d1
        ∙ lookup-insert pk user (default_access to_bool entry) s.default_permissions in
      rw key (
        subst
          (λ x.
            Says user req (if pk == user then some (default_access to_bool entry) else granted)
              (exception
                || ((pk == user) && excepts to_bool req (default_access to_bool entry) entry))
              x)
          (ok_injective last)
          (
            u1 ∙ shut,
            defaults ∙ ap (λ o. if pk == user then some (default_access to_bool entry) else o) d,
            ap (any (λ c. c == req)) (commands-touch to_bool user pk mid)
                ∙ e1
                ∙ ap
                    (λ x.
                      x
                      || ((pk == user) && excepts to_bool req (default_access to_bool entry) entry))
                    e,
            entry-is_in user req pk (default_access to_bool entry) _ s mid same (u1, d1, e1, l1),
          ))

  entries-Says :
      (user req : Bytes) (granted : Option Bool) (exception : Bool) (entries : List (Bytes × Entry))
      (s after : RemoteControlSecurity)
      → Says user req granted exception s
      → process_entries to_bool entries s ≡ ok after
      → Says user req
          (last_default user entries granted)
          (exception || excepted user req entries)
          after
  unfolding process_entries
  entries-Says user req granted exception [] s after says h =
      subst (λ x. Says user req granted (exception || false) x) (ok_injective h)
        (subst (λ b. Says user req granted b s) (or_false_lem exception) says)
  entries-Says user req granted exception ((name, entry) ∷ entries) s after says h =
      let (mid, first, more) =
        bind-ok (process_security_entry to_bool entry s) _ after
          (guard-ok (name == codes "map") aborted _ after h) in
      let rest =
        entries-Says user req
          (if names user (lookup (codes "pk") entry)
            then some (default_access to_bool entry)
            else granted)
          (exception
            || (names user (lookup (codes "pk") entry)
                && excepts to_bool req (default_access to_bool entry) entry))
          entries mid after (entry-Says user req granted exception entry s mid says first) more in
      subst (λ b. Says user req (last_default user ((name, entry) ∷ entries) granted) b after)
        (or_assoc exception _ _) rest

  -- Once the configuration is read without an exception, a command is permitted to a client as it
  -- says: everything without one, nothing to a client without an entry, and else the default of the
  -- client's last entry; but the reverse of that, where an entry of the client gives this command a
  -- value other than the default of that entry.
  pub allow_request-may :
      (user req : Bytes) (config : Option (List (Bytes × Entry))) (s : RemoteControlSecurity)
      → process_config to_bool config ≡ ok s
      → allow_request user req s ≡ may user req config
  unfolding process_config allow_request
  allow_request-may user req none s h = ap (allow_request user req) (sym (ok_injective h))
  allow_request-may user req (some entries) s h =
      allow-Says user req _ _ s
        (entries-Says user req none false entries unconfigured s (refl, refl, refl, refl) h)

  -- Once the configuration is read without an exception, a command that it does not permit to a
  -- client changes nothing, and the client is told KO.
  pub handle_msg_denied :
      (W : Type 0) (handlers : List (Bytes × Handler W)) (user req identity : Bytes)
      (args : List Bytes) (config : Option (List (Bytes × Entry))) (s : RemoteControlSecurity)
      (w : W)
      → process_config to_bool config ≡ ok s
      → may user req config ≡ false
      → (why : Bytes) × (handle_msg W handlers s user (identity ∷ req ∷ args) w
          ≡ ok (identity ∷ codes "KO" ∷ why ∷ [], w))
  unfolding handle_msg
  handle_msg_denied W handlers user req identity args config s w h denied =
      denied_by (lookup req handlers)
    where
      denied_by :
          (o : Option (Handler W))
          → (why : Bytes) × (dispatch W s user identity req args o w
              ≡ ok (identity ∷ codes "KO" ∷ why ∷ [], w))
      denied_by none = (codes "UNKOWN MESSAGE", refl)
      denied_by (some handler) =
          (codes "Insuficient permission", rw (allow_request-may user req config s h ∙ denied) refl)
