-- ===== src/Registry/Expiry.antt =====
-- What a purge removes.
use access_control.Prelude.{
  ℕ, ok, ◌≤◌, ◌<◌, ◌≡◌, inl, inr, refl, sym, ap, ◌∙◌, Bool, true, false, Bool-cases, List, [], ◌∷◌,
  Option, none, some, lookup, Distinct, lookup-insert, lookup-erase_key, erase_key-Distinct, Eq,
  nat_eq, nat_beq_iff, ◌==◌, ltb, any, arith, if◌then◌else◌,
}
use access_control.Registry.{
  Any, Registry, expired, erase_all, erase, purge, get, has, set, set_until,
}

-- Whether a key with this time of expiry, if any, is purged.
abbrev pub is_over : ℕ → Option ℕ → Bool
is_over now none = false
is_over now (some at) = ltb at now

module _ {ℓ} {K : Type ℓ} ⦃e : Eq K⦄ where
  expired_lem :
      (now : ℕ) (m : List (K × ℕ)) (k : K)
      → Distinct m
      → any (λ j. j == k) (expired now m) ≡ is_over now (lookup k m)
  expired_lem now [] k d = refl
  expired_lem now ((j, at) ∷ m) k d =
      let rest = expired_lem now m k d.1 in
      elim (Bool-cases (ltb at now)) [
        | inl over ↦ elim (Bool-cases (j == k)) [
          | inl same ↦ rw (over, same) (rw over refl)
          | inr other ↦ rw (over, other) rest
        ]
        | inr fresh ↦ elim (Bool-cases (j == k)) [
          | inl same ↦
              let away : lookup k m ≡ none = ground (arith, e.same_iff j k) in
              rw (fresh, same) (rest ∙ ap (is_over now) away ∙ sym fresh)
          | inr other ↦ rw (fresh, other) rest
        ]
      ]

module _ {ℓ κ} {K : Type ℓ} {V : Type κ} ⦃e : Eq K⦄ where
  erase_all_store :
      (keys : List K) (r : Registry K V) (k : K)
      → lookup k (erase_all keys r).store
        ≡ (if any (λ j. j == k) keys then none else lookup k r.store)
  unfolding erase
  erase_all_store [] r k = refl
  erase_all_store (j ∷ keys) r k =
      erase_all_store keys (erase j r) k ∙ (let q = lookup-erase_key j k r.store in ground arith)

  erase_all_expiry :
      (keys : List K) (r : Registry K V) (k : K)
      → lookup k (erase_all keys r).expiry
        ≡ (if any (λ j. j == k) keys then none else lookup k r.expiry)
  unfolding erase
  erase_all_expiry [] r k = refl
  erase_all_expiry (j ∷ keys) r k =
      erase_all_expiry keys (erase j r) k ∙ (let q = lookup-erase_key j k r.expiry in ground arith)

  -- A purge removes a key exactly when its time of expiry is over, and changes no other value.
  pub lookup-purge :
      (now : ℕ) (r : Registry K V) (k : K)
      → Distinct r.expiry
      → lookup k (purge now r).store
        ≡ (if is_over now (lookup k r.expiry) then none else lookup k r.store)
  unfolding purge
  lookup-purge now r k d =
      let q = expired_lem now r.expiry k d in
      erase_all_store (expired now r.expiry) r k ∙ ap (λ b. if b then none else lookup k r.store) q

  expiry-purge :
      (now : ℕ) (r : Registry K V) (k : K)
      → Distinct r.expiry
      → lookup k (purge now r).expiry
        ≡ (if is_over now (lookup k r.expiry) then none else lookup k r.expiry)
  unfolding purge
  expiry-purge now r k d =
      erase_all_expiry (expired now r.expiry) r k
      ∙ ap (λ b. if b then none else lookup k r.expiry) (expired_lem now r.expiry k d)

  erase_all-Distinct :
      (keys : List K) (r : Registry K V) → Distinct r.expiry → Distinct (erase_all keys r).expiry
  unfolding erase
  erase_all-Distinct [] r d = d
  erase_all-Distinct (j ∷ keys) r d =
      erase_all-Distinct keys (erase j r) (erase_key-Distinct j r.expiry d)

  pub purge-Distinct :
      (now : ℕ) (r : Registry K V) → Distinct r.expiry → Distinct (purge now r).expiry
  unfolding purge
  purge-Distinct now r d = erase_all-Distinct (expired now r.expiry) r d

  -- A value that is set, with a time of expiry or without, is what `get` returns for the same type;
  -- other keys keep theirs as a purge at that moment leaves them.
  pub get-set :
      (now at : ℕ) (k : K) (a : Any V) (r : Registry K V)
      → (get a.type_id k (set now k a r) ≡ ok a.value)
        × (get a.type_id k (set_until now k a at r) ≡ ok a.value)
  unfolding get set set_until
  get-set now at k a r =
      let self : (k == k) ≡ true = (e.same_iff k k).1 refl in
      let type_self : (a.type_id == a.type_id) ≡ true = (nat_beq_iff a.type_id a.type_id).1 refl in
      let found = lookup-insert k k a (purge now r).store in
      (rw found (rw self (rw type_self refl)), rw found (rw self (rw type_self refl)))

  -- `set` without a time leaves an earlier one in force: a value set before that time is purged
  -- after it.
  pub set_then_lost :
      (now later at : ℕ) (k : K) (a : Any V) (r : Registry K V)
      → Distinct r.expiry
      → lookup k r.expiry ≡ some at
      → now ≤ at
      → at < later
      → has k (purge later (set now k a r)) ≡ false
  unfolding has set
  set_then_lost now later at k a r d until early late =
      let before : lookup k (purge now r).expiry ≡ some at =
        expiry-purge now r k d
        ∙ (let fresh : ltb at now ≡ false = ground arith in rw until (rw fresh refl)) in
      let over : ltb at later ≡ true = ground arith in
      let gone : lookup k (purge later (set now k a r)).store ≡ none =
        lookup-purge later (set now k a r) k (purge-Distinct now r d) ∙ rw before (rw over refl) in
      rw gone refl
