-- ===== src/Oauth/Handoff.antt =====
-- internal/oauth/server.go: ServeLogin, the hand-off between a login at the proxy and the OIDC library,
-- and serveOAuth of internal/authn/oauth.go.
pub mod Handed
use token_auth_proxy.Common.{
  ℕ, Bool, true, false, not, ◌&&◌, ◌||◌, Option, none, some, List, [], ◌∷◌, ◌++◌, is_empty,
  if◌then◌else◌, ltb,
}
use token_auth_proxy.Text.{Text, text, ◌==◌}
use token_auth_proxy.Config.Oauth.{oauth_path_prefix}
use token_auth_proxy.Oauth.Seal.{seal, open_token, kind_pending, kind_done}
use token_auth_proxy.Oauth.Clients.{Settings}
use token_auth_proxy.Oauth.Tokens.{unix, ReqData, Storage, denied, finish_login}
use token_auth_proxy.Oauth.Identity.{
  Identity, TokenClaims, Extracted, extract, Authenticated, LoginResult, already_responded, nobody,
  issued_token, allowed, login_result,
}
use token_auth_proxy.Oauth.Server.{PublicDocument, Route, served_route}

pub data LoginAnswer : Type 0 where
  login_off only_get invalid_request answered_by_login no_principal token_no_login no_subject
        denied_subject not_permitted :
      LoginAnswer
  -- The sealed login that the browser carries back to the callback of the library.
  handed_off : Text → LoginAnswer

-- What a login of ServeLogin is given: the times of the check and of the hand-off, the nonce that is
-- drawn for sealing, and what authenticate and the access rules say.
pub record Login : Type 0 where
  pub checked_at : ℕ
  pub finished_at : ℕ
  pub nonce : Text
  pub authenticated : Authenticated
  pub permit : Extracted → Bool

module _ (s : Storage) (names : TokenClaims) where
  open s use {base64, requests, sealer, settings}

  abbrev pub finished_data : Login → Settings → ReqData → Extracted → Identity → ReqData
  finished_data l srv d e who = finish_login s l.finished_at srv e.sub e.email e.groups who.mode d

  abbrev hand_off : Login → Settings → ReqData → Identity → Option Extracted → LoginAnswer
  hand_off l srv d who none = no_subject
  hand_off l srv d who (some e) =
      if denied s e.sub
      then denied_subject
      else if not (l.permit e)
      then not_permitted
      else handed_off (seal base64 requests sealer l.nonce kind_done (finished_data l srv d e who))

  abbrev after_login : Login → Settings → ReqData → LoginResult → LoginAnswer
  after_login l srv d already_responded = answered_by_login
  after_login l srv d nobody = no_principal
  after_login l srv d issued_token = token_no_login
  after_login l srv d (allowed who) = hand_off l srv d who (extract names who)

  abbrev login_for : Login → Settings → Option ReqData → LoginAnswer
  login_for l srv none = invalid_request
  login_for l srv (some d) =
      if ltb d.exp (unix l.checked_at)
      then invalid_request
      else after_login l srv d (login_result l.authenticated)

  abbrev login_under : Bool → Text → Text → Login → Option Settings → LoginAnswer
  login_under built method id l none = login_off
  login_under built method id l (some srv) =
      if not built
      then login_off
      else if not (method == text "GET")
      then only_get
      else login_for l srv (open_token base64 requests sealer kind_pending id)

  -- ServeLogin, for whether a server is built and the id of the query.
  unfoldable pub serve_login : Bool → Text → Text → Login → LoginAnswer
  unfolding login_result extract finish_login denied
  serve_login built method id l = login_under built method id l settings

-- serveOAuth: the route of the login, or one of ServeHTTP.
pub data OauthRoute : Type 0 where
  to_login : OauthRoute
  to_server : Route → OauthRoute

unfoldable pub oauth_route : Option (List (Text × PublicDocument)) → Text → OauthRoute
unfolding served_route
oauth_route built path =
    if not (path == oauth_path_prefix ++ text "/login")
    then to_server (served_route built path)
    else to_login
