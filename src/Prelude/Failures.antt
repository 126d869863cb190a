-- ===== src/Prelude/Failures.antt =====
-- Exceptions as values. Each constructor is a class that the source throws; `aborted` is a failed
-- `assert` or `ASSERT_LOG` of a debug build; `undefined_behaviour` is what the C++ standard leaves
-- undefined.
use mathlib.Core.Path.{◌≡◌, refl, ap}
use mathlib.Core.Logic.{◌⊎◌, inl, inr}
use mathlib.Core.Bool.{Bool, true, false}
use mathlib.Core.Option.{Option, none, some}

pub data Failure : Type 0 where
  leosac_exception module_exception config_exception model_exception runtime_error : Failure
  entity_not_found permission_denied invalid_argument out_of_range bad_path bad_frame : Failure
  session_aborted invalid_call aborted undefined_behaviour : Failure

pub data Result {ℓ} (A : Type ℓ) : Type ℓ where
  ok : A → Result A
  err : Failure → Result A

-- `LEOSAC_ENFORCE`, and any other use of a pointer that may be null.
abbrev pub enforce {ℓ} : {A : Type ℓ} → Option A → Failure → Result A
enforce none e = err e
enforce (some a) e = ok a

abbrev pub guard : Bool → Failure → Result (Unit {0})
guard false thrown = err thrown
guard true thrown = ok tt

-- An exception leaves the rest of the code out.
infixl 5 ◌>>=◌ ◌>>◌
abbrev pub ◌>>=◌ {ℓ κ} : {V : Type ℓ} {W : Type κ} → Result V → (V → Result W) → Result W
err thrown >>= next = err thrown
ok value >>= next = next value

abbrev pub ◌>>◌ {ℓ} : {W : Type ℓ} → Result (Unit {0}) → Result W → Result W
err thrown >> next = err thrown
ok done >> next = next

pub Result-cases {ℓ} :
    {A : Type ℓ} (r : Result A) → ((a : A) × (r ≡ ok a)) ⊎ ((e : Failure) × (r ≡ err e))
Result-cases (ok a) = inl (a, refl)
Result-cases (err e) = inr (e, refl)

ok_value {ℓ} : {A : Type ℓ} → A → Result A → A
ok_value a (ok b) = b
ok_value a (err e) = a

pub ok_injective {ℓ} : {A : Type ℓ} {a b : A} → ok a ≡ ok b → a ≡ b
unfolding ok_value
ok_injective {a} e = ap (ok_value a) e

failure {ℓ} : {A : Type ℓ} → Failure → Result A → Failure
failure e (ok a) = e
failure e (err f) = f

pub err_injective {ℓ} : {A : Type ℓ} {e f : Failure} → ◌≡◌ {A = Result A} (err e) (err f) → e ≡ f
unfolding failure
err_injective {e} h = ap (failure e) h

-- A result after a guard is the result without it.
pub guard-ok {ℓ} :
    {A : Type ℓ} (b : Bool) (e : Failure) (r : Result A) (a : A)
    → (guard b e >> r) ≡ ok a
    → r ≡ ok a
guard-ok true e r a h = h
guard-ok false e r a h = cc

-- What a chain that succeeds went through.
pub bind-ok {ℓ κ} :
    {V : Type ℓ} {W : Type κ} (r : Result V) (next : V → Result W) (w : W)
    → (r >>= next) ≡ ok w
    → (v : V) × (r ≡ ok v) × (next v ≡ ok w)
bind-ok (ok v) next w h = (v, refl, h)
bind-ok (err e) next w h = cc
