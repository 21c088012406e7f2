-- ===== src/Oauth/Server.antt =====
-- internal/oauth/server.go and register.go, and serveOAuth of internal/authn/oauth.go: the routes of the
-- OAuth server, the registration of a client and the hand-off of a login. The OIDC library, which
-- serves the remaining routes, is a result of its own.
pub mod Registered
use token_auth_proxy.Common.{
  ℕ, Bool, true, false, not, ◌&&◌, ◌||◌, Option, none, some, List, [], ◌∷◌, ◌++◌, any, all,
  is_empty, if◌then◌else◌, ltb, length, ◌before◌, fail_if,
}
use token_auth_proxy.Text.{Text, text, ◌==◌, cut_prefix, has_prefix}
use token_auth_proxy.Config.Oauth.{oauth_path_prefix}
use token_auth_proxy.Oauth.Seal.{seal, open_token, kind_pending, kind_done, kind_client}
use token_auth_proxy.Oauth.Clients.{Uris, DynamicRegistration, Settings, allows_dynamic_redirect}
use token_auth_proxy.Oauth.Tokens.{unix, ReqData, Storage, denied, finish_login}
use token_auth_proxy.Oauth.Identity.{
  Identity, TokenClaims, Extracted, extract, Authenticated, LoginResult, already_responded, nobody,
  issued_token, allowed, login_result,
}

-- The two documents that are served without the library.
pub data PublicDocument : Type 0 where
  metadata discovery : PublicDocument

pub data Route : Type 0 where
  no_route : Route
  document : PublicDocument → Route
  registration library : Route

abbrev alias_of : List (Text × PublicDocument) → Text → Option PublicDocument
alias_of [] path = none
alias_of ((p, d) ∷ rest) path =
    let later = alias_of rest path in if p == path then some d else later

abbrev has_alias : Option PublicDocument → Bool
has_alias none = false
has_alias (some d) = true

-- wellKnownPaths, for the path of the MCP URL if that parses.
abbrev root_path : Option Text → Text → List (Text × PublicDocument)
root_path none base = []
root_path (some path) base =
    if is_empty path || path == text "/" then [] else (base ++ path, metadata) ∷ []

unfoldable pub well_known_paths : Option Text → List (Text × PublicDocument)
well_known_paths mcp_path =
    root_path mcp_path (text "/.well-known/oauth-protected-resource")
    ++ ((text "/.well-known/oauth-protected-resource", metadata)
        ∷ (text "/.well-known/oauth-authorization-server" ++ oauth_path_prefix, discovery)
        ∷ (text "/.well-known/openid-configuration" ++ oauth_path_prefix, discovery)
        ∷ [])

-- Registry.Serves, for the paths of the server that is built.
unfoldable pub serves : Option (List (Text × PublicDocument)) → Text → Bool
serves none path = false
serves (some well_known) path =
    has_alias (alias_of well_known path)
    || (path == oauth_path_prefix || has_prefix path (oauth_path_prefix ++ text "/"))

abbrev pub library_routes : List Text
library_routes =
    text "/authorize" ∷ text "/authorize/callback" ∷ text "/token" ∷ text "/jwks.json" ∷ []

abbrev without_prefix : Option Text → Text → Text
without_prefix none path = path
without_prefix (some rest) path = rest

unfoldable pub relative_route : Text → Route
relative_route rel =
    if rel == text "/protected-resource"
    then document metadata
    else if rel == text "/.well-known/openid-configuration"
    then document discovery
    else if rel == text "/register"
    then registration
    else if any (λ r. r == rel) library_routes
    then library
    else no_route

abbrev aliased : Option PublicDocument → Text → Route
aliased (some d) path = document d
aliased none path = relative_route (without_prefix (cut_prefix path oauth_path_prefix) path)

-- ServeHTTP
unfoldable pub served_route : Option (List (Text × PublicDocument)) → Text → Route
unfolding relative_route
served_route none path = no_route
served_route (some well_known) path = aliased (alias_of well_known path) path

-- serveDoc
pub data DocAnswer : Type 0 where
  preflight whole head_only not_allowed : DocAnswer

unfoldable pub serve_doc : Text → DocAnswer
serve_doc method =
    if method == text "OPTIONS"
    then preflight
    else if method == text "GET"
    then whole
    else if method == text "HEAD"
    then head_only
    else not_allowed

-- registrationRequest
pub record RegistrationRequest : Type 0 where
  pub redirect_uris : List Text
  pub client_name : Text
  pub auth_method : Text
  pub grant_types : List Text
  pub response_types : List Text

pub data RegistrationError : Type 0 where
  how_many uri_not_allowed confidential other_grant no_code_grant other_response no_code_response :
      RegistrationError

pub data RegisterAnswer : Type 0 where
  registration_off register_preflight method_not_allowed bad_body : RegisterAnswer
  refused : RegistrationError → RegisterAnswer
  -- The sealed client ID and the redirect URIs.
  registered : Text → List Text → RegisterAnswer

abbrev contains_text : List Text → Text → Bool
contains_text l s = any (λ x. x == s) l

module _ (uris : Uris) (d : DynamicRegistration) where
  abbrev pub uri_ok : Text → Bool
  uri_ok u = not (ltb 512 (length u) || not (allows_dynamic_redirect uris d u))

  unfoldable pub check_registration : RegistrationRequest → Option RegistrationError
  unfolding allows_dynamic_redirect
  check_registration r =
      fail_if (is_empty r.redirect_uris || ltb 10 (length r.redirect_uris)) how_many
      before fail_if (not (all uri_ok r.redirect_uris)) uri_not_allowed
      before fail_if (not (is_empty r.auth_method) && not (r.auth_method == text "none"))
          confidential
      before fail_if
          (not
            (all (λ g. g == text "authorization_code" || g == text "refresh_token") r.grant_types))
          other_grant
      before fail_if
          (not (is_empty r.grant_types)
            && not (contains_text r.grant_types (text "authorization_code")))
          no_code_grant
      before fail_if (not (all (λ t. t == text "code") r.response_types)) other_response
      before fail_if
          (not (is_empty r.response_types) && not (contains_text r.response_types (text "code")))
          no_code_response

-- maxRegistrationBody
abbrev max_registration_body : ℕ
max_registration_body = 16384

module _ (s : Storage) where
  open s use {base64, requests, registrations, uris, sealer, settings}

  abbrev register_checked : Text → RegistrationRequest → Option RegistrationError → RegisterAnswer
  register_checked nonce r (some e) = refused e
  register_checked nonce r none =
      registered (seal base64 registrations sealer nonce kind_client r.redirect_uris)
        r.redirect_uris

  abbrev register_parsed : DynamicRegistration → Text → Option RegistrationRequest → RegisterAnswer
  register_parsed d nonce none = bad_body
  register_parsed d nonce (some r) = register_checked nonce r (check_registration uris d r)

  abbrev register_under :
      Text → Text → Text → (Text → Option RegistrationRequest) → Option Settings → RegisterAnswer
  register_under method body nonce parse none = registration_off
  register_under method body nonce parse (some srv) =
      if not srv.dynamic_registration.enabled
      then registration_off
      else if method == text "OPTIONS"
      then register_preflight
      else if not (method == text "POST")
      then method_not_allowed
      else if ltb max_registration_body (length body)
      then bad_body
      else register_parsed srv.dynamic_registration nonce (parse body)

  -- serveRegister; `parse` decodes JSON, and `nonce` is the one drawn for sealing.
  unfoldable pub serve_register :
      Text → Text → Text → (Text → Option RegistrationRequest) → RegisterAnswer
  unfolding check_registration
  serve_register method body nonce parse = register_under method body nonce parse settings
