-- ===== src/Alarms/Replies.antt =====
-- What an alarm instance answers, and its count of alarms.
use access_control.Prelude.{
  ℕ, ◌≡◌, ◌⊎◌, inl, inr, refl, subst, Bytes, codes, List, [], ◌∷◌, Option, some, Result, ok, err,
  aborted, ◌>>=◌, leosac_exception, module_exception, config_exception, model_exception,
  runtime_error, entity_not_found, permission_denied, invalid_argument, out_of_range, bad_path,
  bad_frame, session_aborted, invalid_call, undefined_behaviour,
}
use access_control.Gpio.{Command, Reply}
use access_control.Alarms.{
  Request, raise_alarm, get_state, set_state, unrecognized, AlarmEntry, AlarmInstance,
  handle_request, caught, raise, create, entered, change_state, change_type, new_entry, finalized,
  raised_name, state_in,
}

-- One frame, "OK" or "KO".
abbrev pub IsBare : List Bytes → Type 0
IsBare frames = (frames ≡ codes "OK" ∷ []) ⊎ (frames ≡ codes "KO" ∷ [])

module _ (W : Type 0) (send : Bytes → Command → W → Option Reply × W)
    (persist : List (ℕ × AlarmEntry) → ℕ) (to_string : ℕ → Bytes) (byte_of : Bytes → Result ℕ) where
  abbrev Bare : Result (List Bytes × AlarmInstance × W) → Type 0
  Bare (ok x) = IsBare x.0
  Bare (err e) = Unit

  caught-Bare :
      (before : AlarmInstance × W) (r : Result (List Bytes × AlarmInstance × W))
      → Bare r
      → Bare (caught W send persist to_string byte_of before r)
  caught-Bare before (ok x) b = b
  caught-Bare before (err aborted) b = tt
  caught-Bare before (err undefined_behaviour) b = tt
  caught-Bare before (err leosac_exception) b = inr refl
  caught-Bare before (err module_exception) b = inr refl
  caught-Bare before (err config_exception) b = inr refl
  caught-Bare before (err model_exception) b = inr refl
  caught-Bare before (err runtime_error) b = inr refl
  caught-Bare before (err entity_not_found) b = inr refl
  caught-Bare before (err permission_denied) b = inr refl
  caught-Bare before (err invalid_argument) b = inr refl
  caught-Bare before (err out_of_range) b = inr refl
  caught-Bare before (err bad_path) b = inr refl
  caught-Bare before (err bad_frame) b = inr refl
  caught-Bare before (err session_aborted) b = inr refl
  caught-Bare before (err invalid_call) b = inr refl

  bind-Bare :
      {A : Type 0} (r : Result A) (next : A → Result (List Bytes × AlarmInstance × W))
      → ((a : A) → Bare (next a))
      → Bare (r >>= next)
  bind-Bare (ok a) next f = f a
  bind-Bare (err e) next f = tt

  request-Bare :
      (now : ℕ) (q : Request) (a : AlarmInstance) (w : W)
      → Bare (handle_request W send persist to_string byte_of now q a w)
  unfolding handle_request
  request-Bare now (raise_alarm type reason) a w =
      caught-Bare (a, w) _
        (bind-Bare (raise W send persist to_string byte_of now type reason a w) _ (λ x. inl refl))
  request-Bare now (get_state alarm) a w =
      caught-Bare (a, w) _
        (bind-Bare (state_in W send persist to_string byte_of alarm a.database) _
          (λ st. bind-Bare (byte_of (codes "OK")) _ (λ b. inl refl)))
  request-Bare now (set_state alarm st) a w =
      caught-Bare (a, w) _
        (bind-Bare (change_state W send persist to_string byte_of now alarm st a w) _
          (λ x. inl refl))
  request-Bare now unrecognized a w = inr refl

  bare_unnamed : (frames : List Bytes) → IsBare frames → raised_name frames ≡ []
  unfolding raised_name
  bare_unnamed frames (inl e) = rw e refl
  bare_unnamed frames (inr e) = rw e refl

  -- Every reply is the one frame "OK" or "KO"; so who raises an alarm never learns its name.
  pub handle_request-IsBare :
      (now : ℕ) (q : Request) (a b : AlarmInstance) (w x : W) (frames : List Bytes)
      → handle_request W send persist to_string byte_of now q a w ≡ ok (frames, b, x)
      → IsBare frames × (raised_name frames ≡ [])
  handle_request-IsBare now q a b w x frames e =
      let bare : IsBare frames = subst Bare e (request-Bare now q a w) in
      (bare, bare_unnamed frames bare)

  -- With a database, raising an alarm aborts the process: an entry that was just made counts as
  -- finalized, so its type may not be set.
  pub raise_aborts :
      (now type : ℕ) (reason : Bytes) (a : AlarmInstance) (w : W) (db : List (ℕ × AlarmEntry))
      → a.database ≡ some db
      → handle_request W send persist to_string byte_of now (raise_alarm type reason) a w
        ≡ err aborted
  unfolding handle_request raise create entered change_type new_entry finalized
  raise_aborts now type reason a w db e = rw e refl
