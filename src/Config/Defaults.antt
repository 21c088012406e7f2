-- ===== src/Config/Defaults.antt =====
-- internal/config/auth.go: the defaults of the sources of credentials.
use token_auth_proxy.Common.{
  ℕ, ◌*◌, Bool, not, ◌&&◌, Option, none, some, List, [], ◌∷◌, ◌++◌, map, any, is_empty, eqb,
  if◌then◌else◌,
}
use token_auth_proxy.Text.{Text, text, ◌==◌}
use token_auth_proxy.Config.{
  CredentialLocation, JwtLogin, JwtSource, SamlSource, BasicSource, InboundAuth,
}

abbrev pub text_or : Text → Text → Text
text_or given default = if is_empty given then default else given

abbrev pub list_or : List Text → List Text → List Text
list_or given default = if is_empty given then default else given

-- Durations, in nanoseconds.
abbrev pub time_or : ℕ → ℕ → ℕ
time_or given default = if eqb given 0 then default else given

abbrev pub seconds : ℕ → ℕ
seconds n = n * 1000000000

abbrev pub default_callback_path : Text
default_callback_path = text "/_tap/oidc/callback"

abbrev pub default_cookie_name : Text
default_cookie_name = text "tap_id_token"

abbrev pub default_acs_path : Text
default_acs_path = text "/_tap/saml/acs"

abbrev pub token_auth_basic : Text
token_auth_basic = text "client_secret_basic"

abbrev pub token_auth_post : Text
token_auth_post = text "client_secret_post"

abbrev pub bearer_header : CredentialLocation
bearer_header = record {
  location = text "header";
  name = text "Authorization";
  prefix = text "Bearer ";
}

-- A cookie whose value is a token, with no prefix.
abbrev pub cookie_location : Text → CredentialLocation
cookie_location name = record { location = text "cookie"; name = name; prefix = [] }

abbrev pub is_cookie : Text → CredentialLocation → Bool
is_cookie name c = c.location == text "cookie" && c.name == name

unfoldable pub login_defaults : JwtLogin → JwtLogin
login_defaults l = record l {
  callback_path = text_or l.callback_path default_callback_path;
  cookie_name = text_or l.cookie_name default_cookie_name;
  scopes = list_or l.scopes (text "openid" ∷ text "profile" ∷ text "email" ∷ []);
  token_auth_method =
      if not (is_empty l.client_secret) && is_empty l.token_auth_method
      then token_auth_basic
      else l.token_auth_method;
  refresh_max_age =
      if l.refresh then time_or l.refresh_max_age (seconds 2592000) else l.refresh_max_age;
}

abbrev pub locations_or : List CredentialLocation → List CredentialLocation
locations_or given = if is_empty given then bearer_header ∷ [] else given

-- The login cookie is one of the places where the source looks for a token.
unfoldable pub with_login_cookie : Text → List CredentialLocation → List CredentialLocation
with_login_cookie name cs = if any (is_cookie name) cs then cs else cs ++ cookie_location name ∷ []

abbrev pub basic_fields : JwtSource → JwtSource
basic_fields j = record j {
  name = text_or j.name j.issuer;
  jwks_cache_ttl = time_or j.jwks_cache_ttl (seconds 300);
  clock_skew = time_or j.clock_skew (seconds 60);
  algorithms = list_or j.algorithms (text "RS256" ∷ []);
  credentials = locations_or j.credentials;
}

abbrev pub login_fields : Option JwtLogin → JwtSource → JwtSource
login_fields none j = j
login_fields (some l) j = record j {
  login = some l;
  audiences = list_or j.audiences (l.client_id ∷ []);
  credentials = with_login_cookie l.cookie_name j.credentials;
}

abbrev pub some_login : Option JwtLogin → Option JwtLogin
some_login none = none
some_login (some l) = some (login_defaults l)

unfoldable pub jwt_defaults : JwtSource → JwtSource
unfolding login_defaults with_login_cookie
jwt_defaults j = login_fields (some_login j.login) (basic_fields j)

unfoldable pub saml_defaults : SamlSource → SamlSource
saml_defaults s = record s {
  name = text_or s.name s.issuer;
  session_duration = time_or s.session_duration (seconds 43200);
  idp_metadata_cache_ttl = time_or s.idp_metadata_cache_ttl (seconds 3600);
  acs_path = text_or s.acs_path default_acs_path;
}

unfoldable pub basic_defaults : BasicSource → BasicSource
basic_defaults b = record b { realm = text_or b.realm (text "restricted") }

abbrev saml_or_none : Option SamlSource → Option SamlSource
saml_or_none none = none
saml_or_none (some s) = some (saml_defaults s)

abbrev basic_or_none : Option BasicSource → Option BasicSource
basic_or_none none = none
basic_or_none (some b) = some (basic_defaults b)

-- InboundAuthConfig.applyDefaults
unfoldable pub auth_defaults : InboundAuth → InboundAuth
unfolding jwt_defaults saml_defaults basic_defaults
auth_defaults a = record a {
  jwt = map jwt_defaults a.jwt;
  saml = saml_or_none a.saml;
  basic = basic_or_none a.basic;
}
