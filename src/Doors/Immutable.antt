-- ===== src/Doors/Immutable.antt =====
-- Which commands a doorman sends.
use access_control.Prelude.{
  ℕ, ◌≡◌, ◌↔◌, ◌⊎◌, inl, inr, refl, sym, ap, subst, ◌∙◌, Bool, true, false, not, Bytes, List, [],
  ◌∷◌, Memᴰ, Option, none, some, Result, ok, err, ok_injective, bind-ok, ◌>>=◌, arith,
  if◌then◌else◌,
}
use access_control.Schedule.{Tm, TimePoint}
use access_control.Access.Source.{Message}
use access_control.Access.Instance.{AccessStatus}
use access_control.Doors.{AuthTarget, is_always_open, is_always_closed}
use access_control.Doors.Actions.{
  DoormanAction, same_status, frames, find_target, immutable, ignore_action, act, also,
  handle_bus_msg,
}

same_status_iff : (a b : AccessStatus) → (same_status a b ≡ true) ↔ (a ≡ b)
same_status_iff a b = ground arith

module _ (localtime : TimePoint → Tm) (now : ℕ) (status : AccessStatus)
    (doors : List AuthTarget) where
  -- No door, or a door that is in none of its schedules.
  abbrev pub IsFree : Option AuthTarget → Type 0
  IsFree none = Unit
  IsFree (some d) =
      (is_always_closed localtime d now ≡ false) × (is_always_open localtime d now ≡ false)

  immutable-IsFree : (t : Option AuthTarget) → (immutable localtime now t ≡ false) ↔ IsFree t
  immutable-IsFree none = (λ e. tt, λ u. refl)
  immutable-IsFree (some d) = (λ e. (ground arith, ground arith), λ (c, o). ground arith)

  -- The action is for this answer, and its target is no door, or a door that is in none of its
  -- schedules.
  abbrev pub IsDue : DoormanAction → Type 0
  IsDue a =
      (a.on ≡ status) × ((t : Option AuthTarget) × (find_target a.target doors ≡ ok t) × IsFree t)

  split_ignore :
      (b i : Bool) (r : Result (Option AuthTarget))
      → (if not b then ok true else (r >>= λ t. ok (immutable localtime now t))) ≡ ok i
      → ((b ≡ false) × (i ≡ true))
        ⊎ ((t : Option AuthTarget) × (b ≡ true) × (r ≡ ok t) × (immutable localtime now t ≡ i))
  split_ignore false i r e = inl (refl, sym (ok_injective e))
  split_ignore true i (ok t) e = inr (t, refl, refl, ok_injective e)
  split_ignore true i (err f) e = cc

  due : (a : DoormanAction) → ignore_action localtime now doors a status ≡ ok false → IsDue a
  unfolding ignore_action
  due a e = elim (split_ignore (same_status a.on status) false (find_target a.target doors) e) [
    | inl (other, skipped) ↦ cc
    | inr (t, same, found, free) ↦
        ((same_status_iff a.on status).0 same, (t, found, (immutable-IsFree t).0 free))
  ]

  not_due : (a : DoormanAction) → ignore_action localtime now doors a status ≡ ok true → IsDue a → ⊥
  unfolding ignore_action
  not_due a e (same, (t, found, free)) =
      elim (split_ignore (same_status a.on status) true (find_target a.target doors) e) [
        | inl (other, skipped) ↦ let q = (same_status_iff a.on status).1 same in cc
        | inr (u, agrees, found_too, kept) ↦
            let q : t ≡ u = ok_injective (sym found ∙ found_too) in
            let clash = (immutable-IsFree u).1 (subst IsFree q free) in cc
      ]

  module _ (W : Type 0) (exec : Bytes → Message → W → Bytes × W) where
    abbrev pub command : DoormanAction → Bytes × Message
    command a = (a.target, frames a.cmd)

    abbrev Sources : List DoormanAction → Bytes × Message → Type 0
    Sources actions c = (a : DoormanAction) × Memᴰ a actions × IsDue a × (c ≡ command a)

    later_source :
        (a : DoormanAction) (actions : List DoormanAction) (c : Bytes × Message)
        → Sources actions c
        → Sources (a ∷ actions) c
    later_source a actions c (b, m, d, q) = (b, Memᴰ.tail m, d, q)

    earlier_source :
        (a : DoormanAction) (actions : List DoormanAction) (c : Bytes × Message)
        → (IsDue a → ⊥)
        → Sources (a ∷ actions) c
        → Sources actions c
    earlier_source a actions c away (b, Memᴰ.head e, d, q) = absurd (away (subst IsDue e d))
    earlier_source a actions c away (b, Memᴰ.tail m, d, q) = (b, m, d, q)

    to_source :
        (a : DoormanAction) (actions : List DoormanAction) (more : List (Bytes × Message))
        (c : Bytes × Message)
        → IsDue a
        → (Memᴰ c more → Sources actions c)
        → Memᴰ c (command a ∷ more)
        → Sources (a ∷ actions) c
    to_source a actions more c d to (Memᴰ.head e) = (a, Memᴰ.head refl, d, e)
    to_source a actions more c d to (Memᴰ.tail m) = later_source a actions c (to m)

    from_source :
        (a : DoormanAction) (actions : List DoormanAction) (more : List (Bytes × Message))
        (c : Bytes × Message)
        → (Sources actions c → Memᴰ c more)
        → Sources (a ∷ actions) c
        → Memᴰ c (command a ∷ more)
    from_source a actions more c from (b, Memᴰ.head e, d, q) = Memᴰ.head (q ∙ ap command e)
    from_source a actions more c from (b, Memᴰ.tail m, d, q) = Memᴰ.tail (from (b, m, d, q))

    skip_iff :
        (a : DoormanAction) (actions : List DoormanAction) (sent : List (Bytes × Message))
        (c : Bytes × Message)
        → (IsDue a → ⊥)
        → Memᴰ c sent ↔ Sources actions c
        → Memᴰ c sent ↔ Sources (a ∷ actions) c
    skip_iff a actions sent c away (to, from) =
        (λ m. later_source a actions c (to m), λ x. from (earlier_source a actions c away x))

    send_iff :
        (a : DoormanAction) (actions : List DoormanAction) (more : List (Bytes × Message))
        (c : Bytes × Message)
        → IsDue a
        → Memᴰ c more ↔ Sources actions c
        → Memᴰ c (command a ∷ more) ↔ Sources (a ∷ actions) c
    send_iff a actions more c d (to, from) =
        (to_source a actions more c d to, from_source a actions more c from)

    act_split :
        (a : DoormanAction) (b : Bool) (w : W) (rest : W → Result (List (Bytes × Message) × W))
        (sent : List (Bytes × Message)) (v : W)
        → act localtime W exec a w rest b ≡ ok (sent, v)
        → ((b ≡ true) × (rest w ≡ ok (sent, v)))
          ⊎ ((b ≡ false)
              × ((more : List (Bytes × Message)) × (u : W) × (rest u ≡ ok (more, v))
                  × (sent ≡ command a ∷ more)))
    act_split a true w rest sent v e = inl (refl, e)
    act_split a false w rest sent v e =
        let ((more, u), r, h) =
          bind-ok (rest (exec a.target (frames a.cmd) w).1) (also localtime W exec (command a))
            (sent, v) e in
        let pair = ok_injective h in
        inr (
          refl,
          (
            more,
            (exec a.target (frames a.cmd) w).1,
            r ∙ ap (λ x. ok (more, x)) (ap (λ x. x.1) pair),
            sym (ap (λ x. x.0) pair),
          ),
        )

    -- When a doorman is through with an answer, the commands that it sent are those of the actions
    -- for this answer whose target is not a door in one of its schedules.
    pub sent_iff :
        (actions : List DoormanAction) (w v : W) (sent : List (Bytes × Message))
        (c : Bytes × Message)
        → handle_bus_msg localtime W exec now status doors actions w ≡ ok (sent, v)
        → Memᴰ c sent ↔ ((a : DoormanAction) × Memᴰ a actions × IsDue a × (c ≡ command a))
    unfolding handle_bus_msg
    sent_iff [] w v sent c e =
        let nothing : sent ≡ [] = sym (ap (λ x. x.0) (ok_injective e)) in
        (λ m. elim (subst (λ l. Memᴰ c l) nothing m) [ ], λ (a, m, d, q). elim m [ ])
    sent_iff (a ∷ actions) w v sent c e =
        let (b, ig, h) = bind-ok (ignore_action localtime now doors a status) _ (sent, v) e in
        elim (act_split a b w (λ u. handle_bus_msg localtime W exec now status doors actions u) sent
          v h) [
            | inl (skipped, rest) ↦
                skip_iff a actions sent c (not_due a (ig ∙ ap ok skipped))
                  (sent_iff actions w v sent c rest)
            | inr (kept, (more, u, rest, now_sent)) ↦
                subst (λ l. Memᴰ c l ↔ Sources (a ∷ actions) c) (sym now_sent)
                  (send_iff a actions more c (due a (ig ∙ ap ok kept))
                    (sent_iff actions u v more c rest))
          ]
