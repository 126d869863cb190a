-- ===== src/WebApi/Sessions.antt =====
-- Whose rights a request is handled with.
use access_control.Prelude.{
  ℕ, ◌≡◌, ◌⊎◌, inl, inr, refl, Bytes, Bool, List, Option, none, some, lookup, Failure, bytes_eq,
  if◌then◌else◌, Bool-cases, ◌∙◌, ap, sym, subst,
}
use access_control.WebApi.{
  Token, AuthStatus, not_authenticated, logged_in, is_logged_in, ApiSession, State, Command,
  create_auth_token, authenticate_with_token, Call, individual_call, crud_call, asio_call,
  method_call, unknown_call, Reloaded, current, hook_before_request, run, allowed, dispatch_request,
  is_valid, after_hook, keep_alive, open_session, close_session, with_token, with_credentials,
  check_token, changed, failed, expire_in, mark_authenticated, abort_session, clear_authentication,
  get_leosac_version, logout, system_overview,
}

-- The user that a session may act for: the owner of its token while it is logged in.
abbrev pub IsConsistent : ApiSession → Type 0
IsConsistent s =
    (s.auth_status ≡ logged_in)
    → (t : Token) × (s.current_auth_token ≡ some t) × (s.security ≡ some t.owner)

status_cases : (a : AuthStatus) → (a ≡ logged_in) ⊎ (a ≡ not_authenticated)
status_cases logged_in = inl refl
status_cases not_authenticated = inr refl

module _ (reload : List (Bytes × Token) → Token → Reloaded)
    (authenticate : Bytes → Bytes → Option ℕ) (enabled : ℕ → Bool) where
  check_alive :
      (now : ℕ) (s : State) (a : AuthStatus) (c : Option Token) (t : Token)
      → a ≡ logged_in
      → c ≡ some t
      → (if is_logged_in a then check_token reload authenticate enabled now s c else (none, s))
        ≡ keep_alive reload authenticate enabled now s (reload s.tokens t)
  check_alive now s a c t inside held = rw (inside, held) refl

  -- A session that is logged in reads its token again before a request.
  pub hook_alive :
      (now : ℕ) (s : State) (t : Token)
      → s.session.auth_status ≡ logged_in
      → s.session.current_auth_token ≡ some t
      → hook_before_request reload authenticate enabled now s
        ≡ keep_alive reload authenticate enabled now s (reload s.tokens t)
  unfolding hook_before_request
  hook_alive now s t inside held =
      check_alive now s s.session.auth_status s.session.current_auth_token t inside held

module _ (reload : List (Bytes × Token) → Token → Reloaded)
    (authenticate : Bytes → Bytes → Option ℕ) (enabled : ℕ → Bool)
    (same_owner : (m : List (Bytes × Token)) (t u : Token)
      → reload m t ≡ current u
      → u.owner ≡ t.owner) where
  keep_alive-IsConsistent :
      (now : ℕ) (s : State) (t : Token) (r : Reloaded)
      → s.session.current_auth_token ≡ some t
      → s.session.security ≡ some t.owner
      → ((u : Token) → r ≡ current u → u.owner ≡ t.owner)
      → IsConsistent (keep_alive reload authenticate enabled now s r).1.session
  unfolding abort_session is_valid expire_in
  keep_alive-IsConsistent now s t changed held acts owner = λ h. cc
  keep_alive-IsConsistent now s t (failed e) held acts owner = λ h. (t, held, acts)
  keep_alive-IsConsistent now s t (current u) held acts owner = elim (Bool-cases (is_valid now u)) [
    | inl fresh ↦ rw fresh (λ h. (expire_in now u, refl, acts ∙ ap some (sym (owner u refl))))
    | inr expired ↦ rw expired (λ h. cc)
  ]

  hook-IsConsistent :
      (now : ℕ) (s : State)
      → IsConsistent s.session
      → IsConsistent (hook_before_request reload authenticate enabled now s).1.session
  unfolding hook_before_request
  hook-IsConsistent now s w = elim (status_cases s.session.auth_status) [
    | inr out ↦ rw out (λ h. cc)
    | inl inside ↦
        let (t, held, acts) = w inside in
        subst (λ (h : Option Failure × State). IsConsistent h.1.session)
          (sym (hook_alive reload authenticate enabled now s t inside held))
          (keep_alive-IsConsistent now s t (reload s.tokens t) held acts (same_owner s.tokens t))
  ]

  open_session-IsConsistent :
      (now : ℕ) (t : Token) (s : State)
      → IsConsistent s.session
      → IsConsistent (open_session reload authenticate enabled now t s).1.session
  unfolding mark_authenticated expire_in
  open_session-IsConsistent now t s w = elim (Bool-cases (enabled t.owner)) [
    | inl active ↦ rw active (λ h. (expire_in now t, refl, refl))
    | inr locked ↦ rw locked w
  ]

  with_token-IsConsistent :
      (now : ℕ) (t : Option Token) (s : State)
      → IsConsistent s.session
      → IsConsistent (with_token reload authenticate enabled now t s).1.session
  with_token-IsConsistent now none s w = w
  with_token-IsConsistent now (some t) s w = elim (Bool-cases (is_valid now t)) [
    | inl fresh ↦ rw fresh (open_session-IsConsistent now t s w)
    | inr expired ↦ rw expired w
  ]

  with_credentials-IsConsistent :
      (now : ℕ) (uuid : Bytes) (u : Option ℕ) (s : State)
      → IsConsistent s.session
      → IsConsistent (with_credentials reload authenticate enabled now uuid u s).1.session
  with_credentials-IsConsistent now uuid none s w = w
  with_credentials-IsConsistent now uuid (some u) s w =
      open_session-IsConsistent now (record { token = uuid; owner = u; expiration = now }) s w

  close_session-IsConsistent :
      (t : Option Token) (s : State)
      → IsConsistent s.session
      → IsConsistent (close_session reload authenticate enabled t s).1.session
  unfolding clear_authentication
  close_session-IsConsistent none s w = w
  close_session-IsConsistent (some t) s w = λ h. cc

  run-IsConsistent :
      (now : ℕ) (uuid : Bytes) (c : Command) (s : State)
      → IsConsistent s.session
      → IsConsistent (run reload authenticate enabled now uuid c s).1.session
  unfolding run
  run-IsConsistent now uuid get_leosac_version s w = w
  run-IsConsistent now uuid (create_auth_token none) s w = w
  run-IsConsistent now uuid (create_auth_token (some (name, password))) s w =
      with_credentials-IsConsistent now uuid (authenticate name password) s w
  run-IsConsistent now uuid (authenticate_with_token none) s w = w
  run-IsConsistent now uuid (authenticate_with_token (some text)) s w =
      with_token-IsConsistent now (lookup text s.tokens) s w
  run-IsConsistent now uuid logout s w = close_session-IsConsistent s.session.current_auth_token s w
  run-IsConsistent now uuid system_overview s w = w

  after_hook-IsConsistent :
      (now : ℕ) (uuid : Bytes) (call : Call) (h : Option Failure × State)
      → IsConsistent h.1.session
      → IsConsistent (after_hook reload authenticate enabled now uuid call h).1.session
  after_hook-IsConsistent now uuid call (some e, s) w = w
  after_hook-IsConsistent now uuid asio_call (none, s) w = w
  after_hook-IsConsistent now uuid individual_call (none, s) w = w
  after_hook-IsConsistent now uuid crud_call (none, s) w = w
  after_hook-IsConsistent now uuid unknown_call (none, s) w = w
  after_hook-IsConsistent now uuid (method_call c) (none, s) w =
      elim (Bool-cases (allowed s.session c)) [
        | inl fine ↦ rw fine (run-IsConsistent now uuid c s w)
        | inr denied ↦ rw denied w
      ]

  -- Where reading a token again never changes its owner, every request keeps this: a session that is
  -- logged in has a token, and its security context is that of the token's owner.
  pub dispatch_request-IsConsistent :
      (now : ℕ) (uuid : Bytes) (call : Call) (s : State)
      → IsConsistent s.session
      → IsConsistent (dispatch_request reload authenticate enabled now uuid call s).1.session
  unfolding dispatch_request
  dispatch_request-IsConsistent now uuid asio_call s w = w
  dispatch_request-IsConsistent now uuid individual_call s w =
      after_hook-IsConsistent now uuid individual_call _ (hook-IsConsistent now s w)
  dispatch_request-IsConsistent now uuid crud_call s w =
      after_hook-IsConsistent now uuid crud_call _ (hook-IsConsistent now s w)
  dispatch_request-IsConsistent now uuid unknown_call s w =
      after_hook-IsConsistent now uuid unknown_call _ (hook-IsConsistent now s w)
  dispatch_request-IsConsistent now uuid (method_call c) s w =
      after_hook-IsConsistent now uuid (method_call c) _ (hook-IsConsistent now s w)
