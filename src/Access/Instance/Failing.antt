-- ===== src/Access/Instance/Failing.antt =====
-- How the handling of a request ends: what is caught, and what stops the process.
use access_control.Prelude.{
  ◌≡◌, inl, inr, refl, ap, ◌∙◌, Bool, false, Bytes, Failure, Result, ok, err, Result-cases,
  bytes_eq, Bool-cases, ◌⊎◌,
}
use access_control.Access.Mapper.{Credential}
use access_control.Access.Instance.{
  AuthResult, Audit, store_audit, is_caught, uncaught, refused, caught, finish,
}

abbrev pub success_of : Result (Credential × AuthResult) → Bool
success_of (err e) = false
success_of (ok (c, a)) = a.success

-- The handling, or else storing its event, ends in a failure that is not caught.
abbrev pub Escapes : Audit → Bytes → Result (Credential × AuthResult) → Failure → Type 0
Escapes audit target r e =
    (is_caught e ≡ false)
    × ((r ≡ err e)
        ⊎ ((x : Credential × AuthResult) × (r ≡ ok x) × (store_audit audit target x ≡ err e)))

uncaught_cases :
    (e : Failure) (a : AuthResult)
    → (uncaught e a ≡ ok a) ⊎ ((is_caught e ≡ false) × (uncaught e a ≡ err e))
uncaught_cases e a = elim (Bool-cases (is_caught e)) [
  | inl held ↦ inl (rw held refl)
  | inr loose ↦ inr (loose, rw loose refl)
]

pub Escapes-finish :
    (audit : Audit) (target : Bytes) (r : Result (Credential × AuthResult)) (e : Failure)
    → Escapes audit target r e
    → finish audit target r ≡ err e
Escapes-finish audit target r e (loose, inl h) = ap (finish audit target) h ∙ rw loose refl
Escapes-finish audit target r e (loose, inr (x, h, lost)) =
    ap (finish audit target) h ∙ ap (λ o. caught o x.1) lost ∙ rw loose refl

-- Whether the event could be stored does not matter, but for a failure that is not caught.
pub finish_cases :
    (audit : Audit) (target : Bytes) (r : Result (Credential × AuthResult))
    → ((a : AuthResult) × (finish audit target r ≡ ok a) × (a.success ≡ success_of r))
      ⊎ ((e : Failure) × (finish audit target r ≡ err e) × Escapes audit target r e)
finish_cases audit target (err e) = elim (uncaught_cases e refused) [
  | inl h ↦ inl (refused, h, refl)
  | inr (loose, h) ↦ inr (e, h, (loose, inl refl))
]
finish_cases audit target (ok x) = elim (Result-cases (store_audit audit target x)) [
  | inl (u, stored) ↦ inl (x.1, ap (λ o. caught o x.1) stored, refl)
  | inr (e, lost) ↦ elim (uncaught_cases e x.1) [
    | inl h ↦ inl (x.1, ap (λ o. caught o x.1) lost ∙ h, refl)
    | inr (loose, h) ↦ inr (e, ap (λ o. caught o x.1) lost ∙ h, (loose, inr (x, refl, lost)))
  ]
]
