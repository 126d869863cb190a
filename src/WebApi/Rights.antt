-- ===== src/WebApi/Rights.antt =====
-- When a request is handled, and when it still is although the session was ended.
use access_control.Prelude.{
  ℕ, ◌≡◌, inl, inr, refl, ◌≤◌, Bytes, Bool, List, Option, none, some, arith, Failure, bytes_eq, leb,
  leb→le, Bool-cases, ◌∙◌, ap, sym,
}
use access_control.WebApi.{
  Token, not_authenticated, logged_in, State, Call, individual_call, crud_call, asio_call,
  method_call, unknown_call, ran, Reloaded, current, hook_before_request, dispatch_request,
  is_valid, after_hook, keep_alive, changed, failed, expire_in, abort_session,
}
use access_control.WebApi.Sessions.{IsConsistent, hook_alive}

abbrev aborted_state : State → State
aborted_state s = record s {
  session = record s.session { auth_status = not_authenticated; current_auth_token = none };
}

-- The calls that end in a handler with a security context, after the hook.
abbrev IsResource : Call → Type 0
IsResource crud_call = Unit {0}
IsResource individual_call = Unit {0}
IsResource asio_call = ⊥
IsResource unknown_call = ⊥
IsResource (method_call c) = ⊥

module _ (reload : List (Bytes × Token) → Token → Reloaded)
    (authenticate : Bytes → Bytes → Option ℕ) (enabled : ℕ → Bool) where
  after_hook-ran :
      (now : ℕ) (uuid : Bytes) (call : Call) (s : State) (e : Option Failure) (who : Option ℕ)
      → IsResource call
      → (after_hook reload authenticate enabled now uuid call (e, s)).0 ≡ ran who
      → (e ≡ none) × (who ≡ s.session.security)
  after_hook-ran now uuid call s (some e) who i h = cc
  after_hook-ran now uuid crud_call s none who i h = (refl, cc)
  after_hook-ran now uuid individual_call s none who i h = (refl, cc)
  after_hook-ran now uuid asio_call s none who i h = elim i [ ]
  after_hook-ran now uuid unknown_call s none who i h = elim i [ ]
  after_hook-ran now uuid (method_call c) s none who i h = elim i [ ]

  keep_alive-ran :
      (now : ℕ) (s : State) (r : Reloaded)
      → (keep_alive reload authenticate enabled now s r).0 ≡ none
      → (u : Token) × (r ≡ current u)
        × (now ≤ u.expiration)
        × ((keep_alive reload authenticate enabled now s r).1.session.security ≡ s.session.security)
  unfolding is_valid abort_session expire_in
  keep_alive-ran now s changed h = cc
  keep_alive-ran now s (failed e) h = cc
  keep_alive-ran now s (current u) h = elim (Bool-cases (leb now u.expiration)) [
    | inl fresh ↦ (u, refl, leb→le now u.expiration fresh, rw fresh refl)
    | inr expired ↦ ground arith
  ]

  dispatch_resource :
      (now : ℕ) (uuid : Bytes) (call : Call) (s : State)
      → IsResource call
      → dispatch_request reload authenticate enabled now uuid call s
        ≡ after_hook reload authenticate enabled now uuid call
            (hook_before_request reload authenticate enabled now s)
  unfolding dispatch_request
  dispatch_resource now uuid crud_call s i = refl
  dispatch_resource now uuid individual_call s i = refl
  dispatch_resource now uuid asio_call s i = elim i [ ]
  dispatch_resource now uuid unknown_call s i = refl
  dispatch_resource now uuid (method_call c) s i = refl

  -- A resource or a single handler that runs for a session that is logged in runs with the rights of
  -- the owner of its token, and only if that token, read again, has not expired.
  pub resource_alive :
      (now : ℕ) (uuid : Bytes) (call : Call) (s : State) (who : Option ℕ)
      → IsResource call
      → IsConsistent s.session
      → s.session.auth_status ≡ logged_in
      → (dispatch_request reload authenticate enabled now uuid call s).0 ≡ ran who
      → (t : Token) × (u : Token) × (s.session.current_auth_token ≡ some t)
        × (reload s.tokens t ≡ current u)
        × (now ≤ u.expiration)
        × (who ≡ some t.owner)
  resource_alive now uuid call s who i w inside h =
      let (t, held, acts) = w inside in
      let kept = keep_alive reload authenticate enabled now s (reload s.tokens t) in
      let started : after_hook reload authenticate enabled now uuid call kept
          ≡ dispatch_request reload authenticate enabled now uuid call s =
        ap (after_hook reload authenticate enabled now uuid call)
          (sym (hook_alive reload authenticate enabled now s t inside held))
        ∙ sym (dispatch_resource now uuid call s i) in
      let (fine, acting) =
        after_hook-ran now uuid call kept.1 kept.0 who i (ap (λ x. x.0) started ∙ h) in
      let (u, read, fresh, same) = keep_alive-ran now s (reload s.tokens t) fine in
      (t, u, held, read, fresh, acting ∙ same ∙ acts)
