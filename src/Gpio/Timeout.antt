-- ===== src/Gpio/Timeout.antt =====
-- How long a loop over pins waits.
use access_control.Prelude.{
  ℕ, ◌+◌, ◌-◌, ◌%◌, ◌^◌, ◌<◌, ◌≡◌, ◌≤◌, ◌⊎◌, inl, inr, refl, ap, ◌∙◌, Bool-cases, List, [], ◌∷◌,
  Option, none, some, Memᴰ, true, false, ltb, pos, negsuc, arith,
}
use access_control.Gpio.{soonest, time_left, compute_timeout}

-- No pin asks for an update.
abbrev pub NoneAsked : List (Option ℕ) → Type 0
NoneAsked ts = (t : ℕ) → Memᴰ (some t) ts → ⊥

abbrev pub IsSoonest : ℕ → List (Option ℕ) → Type 0
IsSoonest t ts = Memᴰ (some t) ts × ((u : ℕ) → Memᴰ (some u) ts → t ≤ u)

past_none : {u : ℕ} {ts : List (Option ℕ)} → Memᴰ (some u) (none ∷ ts) → Memᴰ (some u) ts
past_none (Memᴰ.head e) = cc
past_none (Memᴰ.tail m) = m

either : {u a : ℕ} {ts : List (Option ℕ)} → Memᴰ (some u) (some a ∷ ts) → (u ≡ a) ⊎ Memᴰ (some u) ts
either (Memᴰ.head e) = inl cc
either (Memᴰ.tail m) = inr m

-- The soonest of a time and those of a list.
soonest-some :
    (ts : List (Option ℕ)) (b : ℕ)
    → (t : ℕ) × (soonest ts (some b) ≡ some t)
      × (t ≤ b)
      × ((t ≡ b) ⊎ Memᴰ (some t) ts)
      × ((u : ℕ) → Memᴰ (some u) ts → t ≤ u)
soonest-some [] b = (b, refl, omega arith, inl refl, λ u m. elim m [ ])
soonest-some (none ∷ ts) b =
    let (t, e, low, from, least) = soonest-some ts b in
    (
      t,
      e,
      low,
      elim from [ inl q ↦ inl q | inr m ↦ inr (Memᴰ.tail m) ],
      λ u m. least u (past_none m),
    )
soonest-some (some a ∷ ts) b = elim (Bool-cases (ltb a b)) [
  | inl less ↦
      let (t, e, low, from, least) = soonest-some ts a in
      rw less (
        t,
        e,
        ground arith,
        elim from [ inl q ↦ inr (Memᴰ.head (ap some q)) | inr m ↦ inr (Memᴰ.tail m) ],
        λ u m. elim (either m) [ inl q ↦ omega (arith, low, q) | inr n ↦ least u n ],
      )
  | inr more ↦
      let (t, e, low, from, least) = soonest-some ts b in
      rw more (
        t,
        e,
        low,
        elim from [ inl q ↦ inl q | inr m ↦ inr (Memᴰ.tail m) ],
        λ u m. elim (either m) [ inl q ↦ ground arith | inr n ↦ least u n ],
      )
]

-- The time is less than 2 ^ 31 milliseconds ahead, and at most as many behind.
abbrev pub IsNear : ℕ → ℕ → Type 0
IsNear now t = (t < now + 2 ^ 31) × (now ≤ t + 2 ^ 31)

past_negative : (d : ℕ) → 0 < d → d ≤ 2 ^ 31 → ltb ((2 ^ 32 - d % 2 ^ 32) % 2 ^ 32) (2 ^ 31) ≡ false
past_negative d some_time near =
    let far : 2 ^ 31 ≤ (2 ^ 32 - d % 2 ^ 32) % 2 ^ 32 = omega arith in ground arith

ahead_kept : (d : ℕ) → d < 2 ^ 31 → (d % 2 ^ 32 ≡ d) × (ltb d (2 ^ 31) ≡ true)
ahead_kept d near = (omega arith, ground arith)

time_left-some : (now t : ℕ) → IsNear now t → time_left now (some t) ≡ pos (t - now)
time_left-some now t near = elim (Bool-cases (ltb t now)) [
  | inl over ↦
      let before : t < now = ground arith in
      let zero_left : t - now ≡ 0 = omega arith in
      let negative = past_negative (now - t) (omega arith) (omega (arith, near)) in
      rw (over, negative, zero_left) refl
  | inr left ↦
      let after : now ≤ t = ground arith in
      let (kept, positive) = ahead_kept (t - now) (omega (arith, near)) in
      rw (left, kept, positive) refl
]

-- Where no pin asks for an update 2 ^ 31 milliseconds ahead or later, or more than as many behind: the
-- wait is -1 exactly where no pin asks for one, and otherwise the time left to the soonest one that is
-- asked for, zero where it is over.
pub compute_timeout-IsSoonest :
    (now : ℕ) (ts : List (Option ℕ))
    → ((u : ℕ) → Memᴰ (some u) ts → IsNear now u)
    → ((compute_timeout now ts ≡ negsuc 0) × NoneAsked ts)
      ⊎ ((t : ℕ) × (compute_timeout now ts ≡ pos (t - now)) × IsSoonest t ts)
unfolding compute_timeout
compute_timeout-IsSoonest now [] near = inl (refl, λ t m. elim m [ ])
compute_timeout-IsSoonest now (none ∷ ts) near =
    elim (compute_timeout-IsSoonest now ts (λ u m. near u (Memᴰ.tail m))) [
      | inl (e, idle) ↦ inl (e, λ t m. idle t (past_none m))
      | inr (t, e, (m, least)) ↦ inr (t, e, (Memᴰ.tail m, λ u n. least u (past_none n)))
    ]
compute_timeout-IsSoonest now (some a ∷ ts) near =
    let (t, e, low, from, least) = soonest-some ts a in
    let there : Memᴰ (some t) (some a ∷ ts) = elim from [
      | inl q ↦ Memᴰ.head (ap some q)
      | inr m ↦ Memᴰ.tail m
    ] in
    inr (
      t,
      ap (time_left now) e ∙ time_left-some now t (near t there),
      (there, λ u m. elim (either m) [ inl q ↦ omega (arith, low, q) | inr n ↦ least u n ]),
    )
