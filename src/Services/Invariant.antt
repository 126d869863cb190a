-- ===== src/Services/Invariant.antt =====
-- Every run of the registry: what it holds, and what a listener to its events knows.
use access_control.Prelude.{
  ℕ, zero, suc, ◌+◌, ◌≡◌, ◌<◌, ◌⊎◌, inl, inr, refl, ap, subst, ◌∙◌, Bool, true, false, Bool-cases,
  List, [], ◌∷◌, ◌++◌, Option, none, some, insert, lookup, length, length-append, get_or, erase_key,
  lookup-insert, lookup-erase_key, insert-Distinct, erase_key-Distinct, Distinct, nat_eq,
  nat_beq_iff, ◌==◌, ltb, Result, ok, guard, ◌>>◌, guard-ok, ok_injective, aborted, arith,
  if◌then◌else◌,
}
use access_control.Services.{
  RegistrationInfo, Event, service_registered, service_unregistered, ServiceRegistry,
  empty_registry, registration, blank, has_service, register, register_unique, register_service,
  unregister_service, unregister_interface, get_service, release, forget, unregister_found,
  get_found, pointers,
}
use access_control.Services.Counts.{Typed}

-- Who heard all events knows which interfaces have a service.
abbrev announced : ℕ → List Event → Bool → Bool
announced t [] before = before
announced t (service_registered u ∷ es) before = announced t es (if u == t then true else before)
announced t (service_unregistered u ∷ es) before = announced t es (if u == t then false else before)

pub record IsValid (r : ServiceRegistry) : Type 0 where
  pub distinct : Distinct r.services
  pub typed : Typed (λ i. (registration r i).service_interface) r.services
  pub made : (t i : ℕ) → lookup t r.services ≡ some i → i < length r.registrations
  pub heard : (t : ℕ) → announced t r.events false ≡ has_service (lookup t r.services)

pub data Step : ServiceRegistry → ServiceRegistry → Type 0 where
  registers :
      {r s : ServiceRegistry} (t srv h : ℕ) → register_service t srv r ≡ ok (h, s) → Step r s
  registers_unique :
      {r s : ServiceRegistry} (t srv h : ℕ) → register_unique t srv r ≡ ok (h, s) → Step r s
  unregisters :
      {r s : ServiceRegistry} (h : ℕ) (b : Bool) → unregister_service h r ≡ ok (b, s) → Step r s
  unregisters_interface : {r : ServiceRegistry} (t : ℕ) → Step r (unregister_interface t r).1
  gets : {r : ServiceRegistry} (t : ℕ) → Step r (get_service t r).1
  releases : {r : ServiceRegistry} (i : ℕ) → Step r (release i r)

pub data Reach : ServiceRegistry → Type 0 where
  start : Reach empty_registry
  later : {r s : ServiceRegistry} → Reach r → Step r s → Reach s

announced-append :
    (t : ℕ) (es : List Event) (e : Event) (before : Bool)
    → announced t (es ++ e ∷ []) before ≡ announced t (e ∷ []) (announced t es before)
announced-append t [] e before = ground arith
announced-append t (service_registered u ∷ es) e before =
    announced-append t es e (if u == t then true else before)
announced-append t (service_unregistered u ∷ es) e before =
    announced-append t es e (if u == t then false else before)

module _ {ℓ} {A : Type ℓ} where
  get_or-append :
      (xs ys : List A) (i : ℕ) (d : A) → i < length xs → get_or (xs ++ ys) i d ≡ get_or xs i d
  get_or-append [] ys i d h = elim h [ ]
  get_or-append (x ∷ xs) ys zero d h = refl
  get_or-append (x ∷ xs) ys (suc i) d h = get_or-append xs ys i d (omega arith)

  get_or-append_last : (xs : List A) (x d : A) → get_or (xs ++ x ∷ []) (length xs) d ≡ x
  get_or-append_last [] x d = refl
  get_or-append_last (y ∷ xs) x d = get_or-append_last xs x d

-- The registry after a registration.
abbrev registered : ℕ → RegistrationInfo → ServiceRegistry → ServiceRegistry
registered t info r = record r {
  services = insert t (length r.registrations) r.services;
  registrations = r.registrations ++ info ∷ [];
  events = r.events ++ service_registered t ∷ [];
}

heard_insert :
    (b : Bool) (n : ℕ) (before after : Option ℕ)
    → after ≡ (if b then some n else before)
    → (if b then true else has_service before) ≡ has_service after
heard_insert true n before after e = rw e refl
heard_insert false n before after e = rw e refl

heard_erase :
    (b : Bool) (before after : Option ℕ)
    → after ≡ (if b then none else before)
    → (if b then false else has_service before) ≡ has_service after
heard_erase true before after e = rw e refl
heard_erase false before after e = rw e refl

inserted :
    (t n u i : ℕ) (m : List (ℕ × ℕ))
    → lookup u (insert t n m) ≡ some i
    → ((t ≡ u) × (n ≡ i)) ⊎ (lookup u m ≡ some i)
inserted t n u i m h = let q = lookup-insert t u n m in ground (arith, nat_beq_iff t u)

erased : (t u i : ℕ) (m : List (ℕ × ℕ)) → lookup u (erase_key t m) ≡ some i → lookup u m ≡ some i
erased t u i m h = let q = lookup-erase_key t u m in ground (arith, nat_beq_iff t u)

register-IsValid :
    (t : ℕ) (info : RegistrationInfo) (r : ServiceRegistry)
    → info.service_interface ≡ t
    → IsValid r
    → IsValid (registered t info r)
register-IsValid t info r same v = record {
  distinct = insert-Distinct t (length r.registrations) r.services v.distinct;
  typed = λ u i h. elim (inserted t (length r.registrations) u i r.services h) [
    | inl (tu, ni) ↦
        subst (λ j. (get_or (r.registrations ++ info ∷ []) j blank).service_interface ≡ u) ni
          (ap (λ (x : RegistrationInfo). x.service_interface)
              (get_or-append_last r.registrations info _)
            ∙ same
            ∙ tu)
    | inr old ↦
        ap (λ (x : RegistrationInfo). x.service_interface)
          (get_or-append r.registrations (info ∷ []) i _ (v.made u i old))
        ∙ v.typed u i old
  ];
  made = λ u i h.
      let more = length-append r.registrations (info ∷ []) in
      elim (inserted t (length r.registrations) u i r.services h) [
        | inl (tu, ni) ↦ omega (arith, more, ni)
        | inr old ↦ omega (arith, more, v.made u i old)
      ];
  heard = λ u.
      let last = announced-append u r.events (service_registered t) false in
      let q = lookup-insert t u (length r.registrations) r.services in
      last ∙ ap (λ x. if t == u then true else x) (v.heard u) ∙ heard_insert (t == u) _ _ _ q;
}

forget-IsValid : (t : ℕ) (r : ServiceRegistry) → IsValid r → IsValid (forget t r)
forget-IsValid t r v = record {
  distinct = erase_key-Distinct t r.services v.distinct;
  typed = λ u i h. v.typed u i (erased t u i r.services h);
  made = λ u i h. v.made u i (erased t u i r.services h);
  heard = λ u.
      let last = announced-append u r.events (service_unregistered t) false in
      let q = lookup-erase_key t u r.services in
      last ∙ ap (λ x. if t == u then false else x) (v.heard u) ∙ heard_erase (t == u) _ _ q;
}

-- The list of pointers with the clients plays no part.
held-IsValid : (js : List ℕ) (r : ServiceRegistry) → IsValid r → IsValid (record r { held = js })
held-IsValid js r v = record {
  distinct = v.distinct;
  typed = v.typed;
  made = v.made;
  heard = v.heard;
}

register_done :
    (t : ℕ) (info : RegistrationInfo) (r s : ServiceRegistry) (h : ℕ)
    → register t info r ≡ ok (h, s)
    → registered t info r ≡ s
register_done t info r s h e = ap (λ x. x.1) (ok_injective (guard-ok _ aborted _ (h, s) e))

abbrev outcome :
    Bool → Bool → Bool → ServiceRegistry → ServiceRegistry → Result (Bool × ServiceRegistry)
outcome expired used there r after =
    if expired
    then ok (false, r)
    else if used
    then ok (false, r)
    else guard there aborted >> ok (true, after)

unregister_done :
    (expired used there b : Bool) (r after s : ServiceRegistry)
    → outcome expired used there r after ≡ ok (b, s)
    → IsValid r
    → IsValid after
    → IsValid s
unregister_done true used there b r after s e v w = subst IsValid (ap (λ x. x.1) (ok_injective e)) v
unregister_done false true there b r after s e v w =
    subst IsValid (ap (λ x. x.1) (ok_injective e)) v
unregister_done false false there b r after s e v w =
    subst IsValid (ap (λ x. x.1) (ok_injective (guard-ok there aborted _ (b, s) e))) w

unregister_found-IsValid :
    (t : ℕ) (o : Option ℕ) (r : ServiceRegistry) → IsValid r → IsValid (unregister_found t o r).1
unregister_found-IsValid t none r v = v
unregister_found-IsValid t (some i) r v = elim (Bool-cases (ltb 3 (pointers i r + 1))) [
  | inl used ↦ rw used v
  | inr free ↦ rw free (forget-IsValid t r v)
]

get_found-IsValid : (o : Option ℕ) (r : ServiceRegistry) → IsValid r → IsValid (get_found o r).1
get_found-IsValid none r v = v
get_found-IsValid (some i) r v = held-IsValid (i ∷ r.held) r v

Step-IsValid : {r s : ServiceRegistry} → Step r s → IsValid r → IsValid s
unfolding register_service register_unique unregister_service unregister_interface get_service
    release
Step-IsValid (registers t srv h e) v =
    subst IsValid (register_done t _ _ _ h e) (register-IsValid t _ _ refl v)
Step-IsValid (registers_unique t srv h e) v =
    subst IsValid (register_done t _ _ _ h e) (register-IsValid t _ _ refl v)
Step-IsValid (unregisters {r} h b e) v =
    let t = (registration r h).service_interface in
    unregister_done (pointers h r == 0) (ltb 3 (pointers h r + 2))
      (has_service (lookup t r.services)) b r (forget t r) _ e v (forget-IsValid t r v)
Step-IsValid (unregisters_interface {r} t) v = unregister_found-IsValid t (lookup t r.services) r v
Step-IsValid (gets {r} t) v = get_found-IsValid (lookup t r.services) r v
Step-IsValid (releases {r} i) v = held-IsValid _ r v

-- In every state that the operations reach from the empty registry, each interface is registered
-- once at most, a registration stands under its own interface, and the events sent so far say of
-- every interface whether it has a service.
pub Reach-IsValid : {r : ServiceRegistry} → Reach r → IsValid r
Reach-IsValid start = record {
  distinct = tt;
  typed = λ t i h. cc;
  made = λ t i h. cc;
  heard = λ t. refl;
}
Reach-IsValid (later run step) = Step-IsValid step (Reach-IsValid run)
