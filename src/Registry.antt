-- ===== src/Registry.antt =====
-- tools/registry/Registry.hpp: values of any type under a key, some with a time of expiry. A time is
-- counted from the start of the steady clock.
pub mod Expiry
use access_control.Prelude.{
  ℕ, Bool, true, false, List, [], ◌∷◌, Option, none, some, insert, lookup, length, erase_key, Eq,
  nat_eq, ◌==◌, ltb, Result, ok, err, guard, ◌>>◌, leosac_exception, aborted, if◌then◌else◌,
}

-- A `boost::any`: a value with the number of its type.
pub record Any {ℓ} (V : Type ℓ) : Type ℓ where
  pub type_id : ℕ
  pub value : V

pub record Registry {ℓ κ} (K : Type ℓ) (V : Type κ) : Type (ℓ ⊔ κ) where
  pub expiry : List (K × ℕ)
  pub store : List (K × Any V)

module _ {κ} {V : Type κ} where
  abbrev typed_value : ℕ → Any V → Result V
  typed_value wanted a = guard (a.type_id == wanted) aborted >> ok a.value

  abbrev pub get_found : ℕ → Option (Any V) → Result V
  get_found wanted none = err leosac_exception
  get_found wanted (some a) = typed_value wanted a

  abbrev pub has_value : Option (Any V) → Bool
  has_value none = false
  has_value (some a) = true

-- The keys whose time is over.
abbrev pub expired {ℓ} : {K : Type ℓ} → ℕ → List (K × ℕ) → List K
expired now [] = []
expired now ((key, at) ∷ m) = let rest = expired now m in if ltb at now then key ∷ rest else rest

module _ {ℓ κ} {K : Type ℓ} {V : Type κ} ⦃e : Eq K⦄ where
  unfoldable pub get : ℕ → K → Registry K V → Result V
  get wanted key r = get_found wanted (lookup key r.store)

  unfoldable pub erase : K → Registry K V → Registry K V
  erase key r = record { expiry = erase_key key r.expiry; store = erase_key key r.store }

  unfoldable pub has : K → Registry K V → Bool
  has key r = has_value (lookup key r.store)

  unfoldable pub size : Registry K V → ℕ
  size r = length r.store

  abbrev pub erase_all : List K → Registry K V → Registry K V
  unfolding erase
  erase_all [] r = r
  erase_all (key ∷ keys) r = erase_all keys (erase key r)

  unfoldable pub purge : ℕ → Registry K V → Registry K V
  unfolding erase
  purge now r = erase_all (expired now r.expiry) r

  -- Without a time of expiry; an earlier one of the key stays.
  unfoldable pub set : ℕ → K → Any V → Registry K V → Registry K V
  unfolding purge
  set now key a r = let kept = purge now r in record kept { store = insert key a kept.store }

  unfoldable pub set_until : ℕ → K → Any V → ℕ → Registry K V → Registry K V
  unfolding purge
  set_until now key a expire_at r =
      let kept = purge now r in
      record { expiry = insert key expire_at kept.expiry; store = insert key a kept.store }
