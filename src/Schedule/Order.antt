-- ===== src/Schedule/Order.antt =====
-- `operator<` and `operator==` of SingleTimeFrame, which order the frames of a set.
use access_control.Prelude.{
  ◌≡◌, ◌≢◌, ◌⊎◌, inl, inr, refl, sym, Bool-cases, true, false, arith, ℤ, List, [], ◌∷◌, beq_ℤ_iff,
}
use access_control.Schedule.{SingleTimeFrame, lexicographic, frame_ltb, frame_key}

lexicographic_asymm : (s t : List ℤ) → lexicographic s t ≡ true → lexicographic t s ≡ false
unfolding lexicographic
lexicographic_asymm [] t h = cc
lexicographic_asymm (a ∷ s) [] h = cc
lexicographic_asymm (a ∷ s) (b ∷ t) h = ground (arith, lexicographic_asymm s t)

lexicographic_irrefl : (s : List ℤ) → lexicographic s s ≡ false
unfolding lexicographic
lexicographic_irrefl [] = refl
lexicographic_irrefl (a ∷ s) = ground (arith, lexicographic_irrefl s)

lexicographic_trans :
    (s t u : List ℤ)
    → lexicographic s t ≡ true
    → lexicographic t u ≡ true
    → lexicographic s u ≡ true
unfolding lexicographic
lexicographic_trans [] t u h k = cc
lexicographic_trans (a ∷ s) [] u h k = cc
lexicographic_trans (a ∷ s) (b ∷ t) [] h k = cc
lexicographic_trans (a ∷ s) (b ∷ t) (c ∷ u) h k = ground (arith, lexicographic_trans s t u)

abbrev SameLength : List ℤ → List ℤ → Type 0
SameLength [] [] = Unit {0}
SameLength (a ∷ s) (b ∷ t) = SameLength s t
SameLength _ _ = ⊥

-- Neither is below the other: with as many fields on both sides, they are the same.
lexicographic_tie :
    (s t : List ℤ) (n : SameLength s t)
    → lexicographic s t ≡ false
    → lexicographic t s ≡ false
    → s ≡ t
unfolding lexicographic
lexicographic_tie [] [] n h k = refl
lexicographic_tie [] (b ∷ t) n h k = elim n [ ]
lexicographic_tie (a ∷ s) [] n h k = elim n [ ]
lexicographic_tie (a ∷ s) (b ∷ t) n h k = ground (arith, lexicographic_tie s t n, beq_ℤ_iff a b)

frame_tie : (f o : SingleTimeFrame) → frame_ltb f o ≡ false → frame_ltb o f ≡ false → f ≡ o
unfolding frame_ltb
frame_tie f o h k = let e = lexicographic_tie (frame_key f) (frame_key o) tt h k in cc

frame_ltb_ne : (f o : SingleTimeFrame) → frame_ltb f o ≡ true → f ≢ o
unfolding frame_ltb
frame_ltb_ne f o h e =
    let same : frame_ltb f o ≡ false = rw e (lexicographic_irrefl (frame_key o)) in cc

-- Of `f < o`, `f == o` and `o < f` one holds, and it excludes the other two.
pub frame_ltb_trichotomy :
    (f o : SingleTimeFrame)
    → ((frame_ltb f o ≡ true) × (f ≢ o) × (frame_ltb o f ≡ false))
      ⊎ (((f ≡ o) × (frame_ltb f o ≡ false) × (frame_ltb o f ≡ false))
          ⊎ ((frame_ltb o f ≡ true) × (f ≢ o) × (frame_ltb f o ≡ false)))
unfolding frame_ltb
frame_ltb_trichotomy f o = elim (Bool-cases (frame_ltb f o)) [
  | inl below ↦
      inl (below, frame_ltb_ne f o below, lexicographic_asymm (frame_key f) (frame_key o) below)
  | inr not_below ↦ elim (Bool-cases (frame_ltb o f)) [
    | inl above ↦ inr (inr (above, λ e. frame_ltb_ne o f above (sym e), not_below))
    | inr not_above ↦ inr (inl (frame_tie f o not_below not_above, not_below, not_above))
  ]
]

-- `operator<` of time frames is transitive.
pub frame_ltb_trans :
    (f g h : SingleTimeFrame) → frame_ltb f g ≡ true → frame_ltb g h ≡ true → frame_ltb f h ≡ true
unfolding frame_ltb
frame_ltb_trans f g h = lexicographic_trans (frame_key f) (frame_key g) (frame_key h)
