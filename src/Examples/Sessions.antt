-- ===== src/Examples/Sessions.antt =====
-- One user with a token, before and after it expires.
use access_control.Prelude.{
  ℕ, ◌≡◌, ◌≤◌, refl, true, Bool, Bytes, List, [], ◌∷◌, Option, some, none, codes,
}
use access_control.WebApi.{
  Token, State, logged_in, Reloaded, current, crud_call, method_call, logout, ran, dispatch_request,
}
use access_control.WebApi.Sessions.{IsConsistent, dispatch_request-IsConsistent}
use access_control.WebApi.Rights.{resource_alive}

abbrev pass : Token
pass = record { token = codes "a1"; owner = 7; expiration = 100 }

abbrev busy : State
busy = record {
  tokens = (codes "a1", pass) ∷ [];
  session = record { auth_status = logged_in; current_auth_token = some pass; security = some 7 };
}

abbrev read_again : List (Bytes × Token) → Token → Reloaded
read_again m t = current t

abbrev nobody : Bytes → Bytes → Option ℕ
nobody name password = none

abbrev anyone : ℕ → Bool
anyone uid = true

same_owner :
    (m : List (Bytes × Token)) (t u : Token) → read_again m t ≡ current u → u.owner ≡ t.owner
same_owner m t u e = cc

busy-IsConsistent : IsConsistent busy.session
busy-IsConsistent h = (pass, refl, refl)

served : (dispatch_request read_again nobody anyone 50 (codes "b2") crud_call busy).0 ≡ ran (some 7)
unfolding dispatch_request
served = refl

dispatch_request-IsConsistent_example :
    IsConsistent
      (dispatch_request read_again nobody anyone 50
        (codes "b2")
        (method_call logout)
        busy).1.session
dispatch_request-IsConsistent_example =
    dispatch_request-IsConsistent read_again nobody anyone same_owner 50 (codes "b2")
      (method_call logout) busy busy-IsConsistent

resource_alive_example :
    (t : Token) × (u : Token) × (busy.session.current_auth_token ≡ some t)
    × (read_again busy.tokens t ≡ current u)
    × (50 ≤ u.expiration)
    × (some 7 ≡ some t.owner)
resource_alive_example =
    resource_alive read_again nobody anyone 50 (codes "b2") crud_call busy (some 7) tt
      busy-IsConsistent refl served
