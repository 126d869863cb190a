-- ===== src/Schedule/Names.antt =====
-- The rule for the names of schedules and groups.
use access_control.Prelude.{
  ℕ, ◌≡◌, ◌≢◌, ◌⊎◌, inl, inr, refl, ◌≤◌, ◌↔◌, true, arith, all, length, Bytes, Memᴰ, Bool, [], ◌∷◌,
  List,
}
use access_control.Schedule.{
  Schedule, NameCheck, accepted, bad_length, bad_character, allowed_character, validate_name,
  set_name, renamed,
}

all→mem : (p : ℕ → Bool) (xs : List ℕ) → all p xs ≡ true → (c : ℕ) → Memᴰ c xs → p c ≡ true
all→mem p [] h c m = elim m [ ]
all→mem p (x ∷ xs) h c (Memᴰ.head e) = ground arith
all→mem p (x ∷ xs) h c (Memᴰ.tail m) = all→mem p xs (ground arith) c m

mem→all : (p : ℕ → Bool) (xs : List ℕ) → ((c : ℕ) → Memᴰ c xs → p c ≡ true) → all p xs ≡ true
mem→all p [] h = refl
mem→all p (x ∷ xs) h =
    let first = h x (Memᴰ.head refl) in
    let rest = mem→all p xs (λ c m. h c (Memᴰ.tail m)) in ground arith

-- A name is accepted exactly when it has 3 to 50 bytes, each of which is an ASCII letter, a digit,
-- `_`, `-` or `.`.
pub validate_name_iff :
    (name : Bytes)
    → (validate_name name ≡ accepted) ↔ (
        (3 ≤ length name)
        × (length name ≤ 50)
        × ((c : ℕ) → Memᴰ c name → allowed_character c ≡ true))
unfolding validate_name
validate_name_iff name = (
  λ h. (ground arith, ground arith, all→mem allowed_character name (ground arith)),
  λ h. let ok = mem→all allowed_character name h.2 in ground arith,
)

renamed_cases :
    (s : Schedule) (name : Bytes) (r : NameCheck)
    → validate_name name ≡ r
    → ((validate_name name ≡ accepted) × (renamed r s name ≡ record s { name = name }))
      ⊎ ((validate_name name ≢ accepted) × (renamed r s name ≡ s))
renamed_cases s name accepted e = inl (e, refl)
renamed_cases s name bad_length e = inr (λ h. cc, refl)
renamed_cases s name bad_character e = inr (λ h. cc, refl)

-- The setter stores exactly the accepted names, and leaves the schedule alone on a refusal; so a
-- schedule whose name follows the rule keeps such a name.
pub set_name_valid :
    (s : Schedule) (name : Bytes)
    → validate_name s.name ≡ accepted
    → (validate_name (set_name s name).name ≡ accepted)
      × (((validate_name name ≡ accepted) × (set_name s name ≡ record s { name = name }))
          ⊎ ((validate_name name ≢ accepted) × (set_name s name ≡ s)))
unfolding set_name
set_name_valid s name h =
    let cases = renamed_cases s name (validate_name name) refl in
    (elim cases [ inl (ok, e) ↦ rw e ok | inr (_, e) ↦ rw e h ], cases)
