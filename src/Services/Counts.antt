-- ===== src/Services/Counts.antt =====
-- How many pointers of the registry's own a registration has.
use access_control.Prelude.{
  ℕ, ◌≡◌, inl, inr, refl, ap, ◌∙◌, true, Bool-cases, List, [], ◌∷◌, Option, none, some, lookup,
  Distinct, nat_eq, nat_beq_iff, ◌==◌, arith, if◌then◌else◌,
}
use access_control.Services.{references}

-- Each registration stands under its own interface.
abbrev pub Typed : (ℕ → ℕ) → List (ℕ × ℕ) → Type 0
Typed f m = (t i : ℕ) → lookup t m ≡ some i → f i ≡ t

abbrev points_at : ℕ → Option ℕ → ℕ
points_at i none = 0
points_at i (some j) = if j == i then 1 else 0

tail-Typed :
    (f : ℕ → ℕ) (t i : ℕ) (m : List (ℕ × ℕ)) → lookup t m ≡ none → Typed f ((t, i) ∷ m) → Typed f m
tail-Typed f t i m away ty = λ u j h. let q = ty u j in ground (arith, nat_beq_iff t u)

references_lem :
    (f : ℕ → ℕ) (m : List (ℕ × ℕ)) (i : ℕ)
    → Distinct m
    → Typed f m
    → references i m ≡ points_at i (lookup (f i) m)
references_lem f [] i d ty = refl
references_lem f ((t, j) ∷ m) i d ty =
    let rest = references_lem f m i d.1 (tail-Typed f t j m d.0 ty) in
    let head = ty t j (ground (arith, nat_beq_iff t t)) in
    elim (Bool-cases (j == i)) [
      | inl same ↦
          let q = nat_beq_iff j i in
          let gone : lookup (f i) m ≡ none = ground arith in
          let none_left : references i m ≡ 0 = rest ∙ ap (points_at i) gone in
          let under : (t == f i) ≡ true = ground arith in
          rw (same, under) (rw (same, none_left) refl)
      | inr other ↦ elim (Bool-cases (t == f i)) [
        | inl under ↦
            let q = nat_beq_iff t (f i) in
            let gone : lookup (f i) m ≡ none = ground arith in
            let none_left : references i m ≡ 0 = rest ∙ ap (points_at i) gone in
            rw (other, under) (rw (other, none_left) refl)
        | inr apart ↦ rw (other, apart) rest
      ]
    ]

pub references_registered :
    (f : ℕ → ℕ) (m : List (ℕ × ℕ)) (t i : ℕ)
    → Distinct m
    → Typed f m
    → lookup t m ≡ some i
    → references i m ≡ 1
references_registered f m t i d ty h =
    let all = references_lem f m i d ty in
    let here : f i ≡ t = ty t i h in
    let found : lookup (f i) m ≡ some i = rw here h in
    let one : points_at i (some i) ≡ 1 = ground (arith, nat_beq_iff i i) in
    all ∙ ap (points_at i) found ∙ one
