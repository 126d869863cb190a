-- ===== src/WebApi.antt =====
-- modules/websock-api/api/APISession.cpp, api/APIAuth.cpp and WSServer::dispatch_request: the life of
-- an authenticated session. Times count seconds. `reload` of the database library, the password check
-- and the validity of a user are parameters. A request arrives sorted by the table of handlers that
-- has its name; a member of its content may be missing.
pub mod Sessions
pub mod Rights
use access_control.Prelude.{
  ℕ, ◌+◌, Bytes, Bool, true, false, not, List, [], ◌∷◌, Option, none, some, insert, lookup,
  bytes_eq, ◌==◌, leb, Failure, leosac_exception, permission_denied, out_of_range, session_aborted,
  invalid_call, aborted, undefined_behaviour, if◌then◌else◌,
}

pub record Token : Type 0 where
  pub token : Bytes
  pub owner : ℕ
  pub expiration : ℕ

pub data AuthStatus : Type 0 where
  not_authenticated logged_in : AuthStatus

-- `security` is the user of `security_`, `none` for the null pointer.
pub record ApiSession : Type 0 where
  pub auth_status : AuthStatus
  pub current_auth_token : Option Token
  pub security : Option ℕ

unfoldable new_session : ApiSession
new_session = record { auth_status = not_authenticated; current_auth_token = none; security = none }

-- The tokens in the database, and one session.
pub record State : Type 0 where
  pub tokens : List (Bytes × Token)
  pub session : ApiSession

pub data Command : Type 0 where
  get_leosac_version : Command
  create_auth_token : Option (Bytes × Bytes) → Command
  authenticate_with_token : Option Bytes → Command
  logout : Command
  system_overview : Command

pub data Call : Type 0 where
  asio_call individual_call crud_call unknown_call : Call
  method_call : Command → Call

-- `ran` is a handler outside this component, with the user of the security context that it gets.
pub data Reply : Type 0 where
  ran : Option ℕ → Reply
  version overview rejected goodbye : Reply
  welcome : ℕ → Bytes → Reply
  threw : Failure → Reply

-- What `reload` of a token does: it reads it again, finds it changed, or throws another exception.
pub data Reloaded : Type 0 where
  current : Token → Reloaded
  changed : Reloaded
  failed : Failure → Reloaded

abbrev pub is_logged_in : AuthStatus → Bool
is_logged_in logged_in = true
is_logged_in not_authenticated = false

unfoldable pub allowed : ApiSession → Command → Bool
allowed s get_leosac_version = true
allowed s (create_auth_token _) = not (is_logged_in s.auth_status)
allowed s (authenticate_with_token _) = not (is_logged_in s.auth_status)
allowed s logout = is_logged_in s.auth_status
allowed s system_overview = is_logged_in s.auth_status

unfoldable pub mark_authenticated : ApiSession → Token → ApiSession
mark_authenticated s t = record {
  auth_status = logged_in;
  current_auth_token = some t;
  security = some t.owner;
}

unfoldable pub clear_authentication : ApiSession → ApiSession
clear_authentication s = record {
  auth_status = not_authenticated;
  current_auth_token = none;
  security = none;
}

-- The security context stays.
unfoldable pub abort_session : ApiSession → ApiSession
abort_session s = record s { auth_status = not_authenticated; current_auth_token = none }

unfoldable pub is_valid : ℕ → Token → Bool
is_valid now t = leb now t.expiration

-- Twenty minutes.
unfoldable pub expire_in : ℕ → Token → Token
expire_in now t = record t { expiration = now + 1200 }

unfoldable pub erase : Bytes → List (Bytes × Token) → List (Bytes × Token)
erase key [] = []
erase key ((k, t) ∷ m) = let rest = erase key m in if k == key then rest else (k, t) ∷ rest

module _ (reload : List (Bytes × Token) → Token → Reloaded)
    (authenticate : Bytes → Bytes → Option ℕ) (enabled : ℕ → Bool) where
  -- A valid token that was read again is prolonged, in the session and in the database.
  abbrev pub keep_alive : ℕ → State → Reloaded → Option Failure × State
  keep_alive now s changed = (some session_aborted, record s { session = abort_session s.session })
  keep_alive now s (failed e) = (some e, s)
  keep_alive now s (current t) =
      if not (is_valid now t)
      then (some session_aborted, record s { session = abort_session s.session })
      else (
        none,
        record {
          tokens = insert t.token (expire_in now t) s.tokens;
          session = record s.session { current_auth_token = some (expire_in now t) };
        },
      )

  abbrev pub check_token : ℕ → State → Option Token → Option Failure × State
  check_token now s none = (some undefined_behaviour, s)
  check_token now s (some t) = keep_alive now s (reload s.tokens t)

  -- The exception thrown, if any, and the state.
  unfoldable pub hook_before_request : ℕ → State → Option Failure × State
  unfolding abort_session is_valid expire_in
  hook_before_request now s =
      if is_logged_in s.session.auth_status
      then check_token now s s.session.current_auth_token
      else (none, s)

  -- A fresh token for a user whose account is active.
  abbrev pub open_session : ℕ → Token → State → Reply × State
  open_session now t s =
      let kept = expire_in now t in
      if enabled t.owner
      then (
        welcome t.owner t.token,
        record {
          tokens = insert t.token kept s.tokens;
          session = mark_authenticated s.session kept;
        },
      )
      else (threw leosac_exception, s)

  abbrev pub with_credentials : ℕ → Bytes → Option ℕ → State → Reply × State
  with_credentials now uuid none s = (rejected, s)
  with_credentials now uuid (some uid) s =
      open_session now (record { token = uuid; owner = uid; expiration = now }) s

  abbrev pub with_token : ℕ → Option Token → State → Reply × State
  with_token now none s = (rejected, s)
  with_token now (some t) s = if is_valid now t then open_session now t s else (rejected, s)

  abbrev pub close_session : Option Token → State → Reply × State
  close_session none s = (threw aborted, s)
  close_session (some t) s = (
    goodbye,
    record { tokens = erase t.token s.tokens; session = clear_authentication s.session },
  )

  -- The methods of the session; `uuid` is the text of a new token.
  unfoldable pub run : ℕ → Bytes → Command → State → Reply × State
  unfolding mark_authenticated clear_authentication is_valid expire_in erase
  run now uuid get_leosac_version s = (version, s)
  run now uuid (create_auth_token none) s = (threw out_of_range, s)
  run now uuid (create_auth_token (some (name, password))) s =
      with_credentials now uuid (authenticate name password) s
  run now uuid (authenticate_with_token none) s = (threw out_of_range, s)
  run now uuid (authenticate_with_token (some text)) s = with_token now (lookup text s.tokens) s
  run now uuid logout s = close_session s.session.current_auth_token s
  run now uuid system_overview s = (overview, s)

  abbrev pub after_hook : ℕ → Bytes → Call → Option Failure × State → Reply × State
  after_hook now uuid call (some e, s) = (threw e, s)
  after_hook now uuid asio_call (none, s) = (ran s.session.security, s)
  after_hook now uuid individual_call (none, s) = (ran s.session.security, s)
  after_hook now uuid crud_call (none, s) = (ran s.session.security, s)
  after_hook now uuid unknown_call (none, s) = (threw invalid_call, s)
  after_hook now uuid (method_call c) (none, s) =
      if allowed s.session c then run now uuid c s else (threw permission_denied, s)

  -- A handler of a module runs before the token is looked at.
  unfoldable pub dispatch_request : ℕ → Bytes → Call → State → Reply × State
  unfolding hook_before_request run allowed
  dispatch_request now uuid asio_call s = (ran s.session.security, s)
  dispatch_request now uuid call s = after_hook now uuid call (hook_before_request now s)
