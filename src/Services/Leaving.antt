-- ===== src/Services/Leaving.antt =====
-- Taking a service away while clients use it, by its handle and by its interface.
use access_control.Prelude.{
  ℕ, ◌+◌, ◌-◌, ◌≡◌, ◌≢◌, inl, inr, refl, true, false, Bool-cases, some, lookup, nat_eq, nat_beq_iff,
  ◌==◌, ltb, leb, pos, negsuc, ok, guard, ◌>>◌, aborted, arith, if◌then◌else◌,
}
use access_control.Services.{
  ServiceRegistry, registration, count, references, forget, unregister_service,
  unregister_interface, get_service, service_address, use_count,
}
use access_control.Services.Counts.{references_registered}
use access_control.Services.Invariant.{IsValid}

module _ {ℓ} {A : Type ℓ} where
  by_handle :
      (c : ℕ) (x y : A)
      → (if 1 + c == 0 then y else if ltb 3 (1 + c + 2) then y else x) ≡ (if c == 0 then x else y)
  by_handle c x y = elim (Bool-cases (c == 0)) [
    | inl none_left ↦
        let over : ltb 3 (1 + c + 2) ≡ false = ground arith in
        let shared : (1 + c == 0) ≡ false = ground arith in rw (none_left, over, shared) refl
    | inr some_left ↦
        let over : ltb 3 (1 + c + 2) ≡ true = ground arith in
        let shared : (1 + c == 0) ≡ false = ground arith in rw (some_left, over, shared) refl
  ]

  by_interface :
      (c : ℕ) (x y : A) → (if ltb 3 (1 + c + 1) then y else x) ≡ (if leb c 1 then x else y)
  by_interface c x y = elim (Bool-cases (leb c 1)) [
    | inl few ↦ let over : ltb 3 (1 + c + 1) ≡ false = ground arith in rw (few, over) refl
    | inr many ↦ let over : ltb 3 (1 + c + 1) ≡ true = ground arith in rw (many, over) refl
  ]

use_count_lem :
    (srv c : ℕ)
    → srv ≢ 0
    → (if srv == 0
        then ok (negsuc 0)
        else guard (leb 2 (1 + (1 + c))) aborted >> ok (pos (1 + (1 + c) - 2)))
      ≡ ok (pos c)
use_count_lem srv c real =
    let other : (srv == 0) ≡ false = ground arith in
    let fine : leb 2 (1 + (1 + c)) ≡ true = ground arith in
    let rest : 1 + (1 + c) - 2 ≡ c = omega arith in rw (other, fine, rest) refl

module _ (r : ServiceRegistry) (v : IsValid r) (t h : ℕ)
    (there : lookup t r.services ≡ some h) where
  under : (registration r h).service_interface ≡ t
  under = v.typed t h there

  registered_once : references h r.services ≡ 1
  registered_once =
      references_registered (λ i. (registration r i).service_interface) r.services t h v.distinct
        v.typed there

  -- By its handle, a registered service leaves exactly when no client holds it; otherwise the call
  -- returns false and changes nothing.
  pub unregister_service_free :
      unregister_service h r
      ≡ (if count h r.held == 0 then ok (true, forget t r) else ok (false, r))
  unfolding unregister_service
  unregister_service_free =
      rw (under, registered_once, there)
        (by_handle (count h r.held) (ok (true, forget t r)) (ok (false, r)))

  -- By its interface, it leaves also while one client holds it: the call refuses from two on.
  pub unregister_interface_held :
      unregister_interface t r ≡ (if leb (count h r.held) 1 then (true, forget t r) else (false, r))
  unfolding unregister_interface
  unregister_interface_held =
      rw there (rw registered_once (by_interface (count h r.held) (true, forget t r) (false, r)))

  -- Of a service that is not null, `use_count` is the number of pointers that clients hold.
  pub use_count_held :
      service_address (registration r h) ≢ 0 → use_count t r ≡ ok (pos (count h r.held))
  unfolding use_count get_service
  use_count_held real =
      let self : (h == h) ≡ true = ground (arith, nat_beq_iff h h) in
      rw there (rw (registered_once, self) (use_count_lem _ (count h r.held) real))

-- Once a service was taken away from the one client that holds it and another took its interface,
-- the old handle takes the other away, whoever holds that.
pub stale_handle :
    (r : ServiceRegistry) (t old new : ℕ)
    → (registration r old).service_interface ≡ t
    → references old r.services ≡ 0
    → count old r.held ≡ 1
    → lookup t r.services ≡ some new
    → unregister_service old r ≡ ok (true, forget t r)
unfolding unregister_service
stale_handle r t old new under gone one there = rw (gone, one, under) (rw there refl)
