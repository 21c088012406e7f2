-- ===== src/Middleware/Picker.antt =====
-- internal/authn/login_picker.go: the page on which a browser picks a way to sign in, and the routes of
-- the ways. The query, the parsing and writing of URLs, base64 and what Start draws are parameters; the
-- texts of the page are left out.
pub mod Chosen
mod Tests
use token_auth_proxy.Common.{
  Bool, true, false, not, ◌&&◌, ◌||◌, Option, none, some, List, [], ◌∷◌, ◌++◌, map, any, is_empty,
  if◌then◌else◌,
}
use token_auth_proxy.Text.{Text, text, ◌==◌}
use token_auth_proxy.Config.{InboundAuth, BasicSource, JwtSource, JwtLogin}
use token_auth_proxy.Basic.{BasicRegistry}
use token_auth_proxy.Jwt.{Carried}
use token_auth_proxy.Login.{LoginMethod, by_jwt, by_saml, by_basic, login_methods, jwt_login_source}
use token_auth_proxy.Login.Callback.{
  ReturnUrl, LoginState, Begun, root, start, sanitize_return_to, login_path_prefix,
}
use token_auth_proxy.Middleware.{
  Response, Config, Services, BasicOutcome, basic_no_credential, basic_allowed, basic_rejected,
  enforce_basic,
}

-- loginFontPath
abbrev pub login_font_path : Text
login_font_path = login_path_prefix ++ text "/font.woff2"

abbrev pub same_method : LoginMethod → LoginMethod → Bool
same_method (by_jwt source) (by_jwt source') = source == source'
same_method by_saml by_saml = true
same_method by_basic by_basic = true
same_method _ _ = false

-- What a login route comes to. `back_to` redirects, to a reference that was sanitized.
pub data RouteAnswer : Type 0 where
  only_get_and_head font no_such_route saml_unavailable : RouteAnswer
  page : List Text → RouteAnswer
  basic_challenged : Text → RouteAnswer
  basic_answered : Response → RouteAnswer
  back_to : Text → RouteAnswer
  -- samlsp is given the reference that it remembers.
  saml_started : Text → RouteAnswer
  -- What Start of the login registry came to.
  jwt_started : Begun → RouteAnswer

-- What a login route calls: the query and its encoding, url.Parse, url.ParseRequestURI with the reference
-- written again, and for Start the endpoints of a source, the encoding of its state, the random state
-- and nonce, and the verifier.
pub record PickerCalls : Type 0 where
  pub query : Text → Text
  pub encode_query : List (Text × Text) → Text
  pub parse_url : Text → Option ReturnUrl
  pub parse_request_uri : Text → Option Text
  pub endpoints : JwtSource → Bool
  pub encode_state : LoginState → Text
  pub random : Option (Text × Text)
  pub verifier : Text

-- The answer, and the method that the preference cookie is set to.
abbrev pub Routed : Type 0
Routed = (RouteAnswer × Option LoginMethod) × BasicRegistry

module _ (encode_query : List (Text × Text) → Text) where
  abbrev kind_of : LoginMethod → Text
  kind_of (by_jwt source) = text "jwt"
  kind_of by_saml = text "saml"
  kind_of by_basic = text "basic"

  abbrev source_param : LoginMethod → List (Text × Text)
  source_param (by_jwt source) = (text "source", source) ∷ []
  source_param _ = []

  -- loginMethod.href
  unfoldable pub href : Text → LoginMethod → Text
  href return_to m =
      login_path_prefix
      ++ (text "/"
          ++ (kind_of m
              ++ (text "?" ++ encode_query ((text "return_to", return_to) ∷ source_param m))))

abbrev has_method : LoginMethod → List LoginMethod → Bool
has_method m methods = any (λ c. same_method c m) methods

module _ {Keys : Type 0} (services : Services Keys) (calls : PickerCalls) where
  open services use {tokens, saml_available, saml_session}
  open calls use {
    query, encode_query, parse_url, parse_request_uri, endpoints, encode_state, random, verifier,
  }

  -- The method whose route a path is, other than that of the page.
  abbrev method_at : Text → Option LoginMethod
  method_at path =
      if path == login_path_prefix ++ text "/saml"
      then some by_saml
      else if path == login_path_prefix ++ text "/basic"
      then some by_basic
      else if path == login_path_prefix ++ text "/jwt"
      then some (by_jwt (query (text "source")))
      else none

  abbrev basic_route : BasicSource → LoginMethod → Text → BasicOutcome × BasicRegistry → Routed
  basic_route src m return_to (basic_allowed user, reg) = ((back_to return_to, some m), reg)
  basic_route src m return_to (basic_no_credential, reg) = ((basic_challenged src.realm, none), reg)
  basic_route src m return_to (basic_rejected r, reg) = ((basic_answered r, none), reg)

  abbrev pub or_root : Option Text → Text
  or_root none = root
  or_root (some u) = u

  -- runSAMLLogin. A browser that has a session is sent back at once.
  abbrev saml_target : Bool → Option (Text × List (Text × List Text)) → Text → RouteAnswer
  saml_target false session return_to = saml_unavailable
  saml_target true (some s) return_to = back_to return_to
  saml_target true none return_to = saml_started (or_root (parse_request_uri return_to))

  -- A source without a login does not come up here: its method is one of those configured.
  abbrev jwt_start : Text → Text → BasicRegistry → Option JwtSource → Routed
  jwt_start source return_to reg none = ((no_such_route, none), reg)
  jwt_start source return_to reg (some src) = (
    (
      jwt_started (start tokens parse_url endpoints encode_state src random verifier return_to),
      some (by_jwt source),
    ),
    reg,
  )

  -- `none` for the Basic source does not come up here: its method is one of those configured.
  abbrev basic_start : LoginMethod → Text → Carried → BasicRegistry → Option BasicSource → Routed
  basic_start m return_to c reg none = ((no_such_route, none), reg)
  basic_start m return_to c reg (some src) =
      basic_route src m return_to (enforce_basic services src c reg)

  abbrev start_method : Config → LoginMethod → Text → Carried → BasicRegistry → Routed
  start_method cfg by_basic return_to c reg = basic_start by_basic return_to c reg cfg.auth.basic
  start_method cfg by_saml return_to c reg =
      ((saml_target saml_available (saml_session c) return_to, some by_saml), reg)
  start_method cfg (by_jwt source) return_to c reg =
      jwt_start source return_to reg (jwt_login_source cfg.auth source)

  abbrev start_if : Config → Option LoginMethod → Text → Carried → BasicRegistry → Routed
  start_if cfg none return_to c reg = ((no_such_route, none), reg)
  start_if cfg (some m) return_to c reg =
      if has_method m (login_methods cfg.auth)
      then start_method cfg m return_to c reg
      else ((no_such_route, none), reg)

  unfoldable pub serve_login_route : Config → Text → Text → Carried → BasicRegistry → Routed
  unfolding sanitize_return_to login_methods jwt_login_source enforce_basic href start
  serve_login_route cfg method path c reg =
      let return_to = sanitize_return_to parse_url (query (text "return_to")) in
      if not (method == text "GET") && not (method == text "HEAD")
      then ((only_get_and_head, none), reg)
      else if path == login_font_path
      then ((font, none), reg)
      else if path == login_path_prefix || path == login_path_prefix ++ text "/"
      then ((page (map (href encode_query return_to) (login_methods cfg.auth)), none), reg)
      else start_if cfg (method_at path) return_to c reg
