-- ===== src/Settings/Tests.antt =====
-- Whole configurations on which Validate runs, and the theorems at them.
use token_auth_proxy.Common.{
  ◌≡◌, refl, inl, Bool, true, false, Option, none, some, [], ◌∷◌, ◌++◌, All, ◌before◌,
}
use token_auth_proxy.Text.{Text, text, ◌==◌, has_prefix, cut_prefix, to_lower, contains}
use token_auth_proxy.Config.{JwtLogin, JwtSource, SamlSource, InboundAuth, CredentialLocation}
use token_auth_proxy.Config.Urls.{parse_absolute_http_url, check_url}
use token_auth_proxy.Config.Pem.{Crypto}
use token_auth_proxy.Config.Validate.{
  validate_jwt, validate_login, validate_location, validate_saml, valid_cookie_name,
}
use token_auth_proxy.Config.Validate.Auth.{validate_auth, validate_sources}
use token_auth_proxy.Config.Validate.Unambiguous.{Unambiguous, validate_auth-Unambiguous}
use token_auth_proxy.Config.Validate.Distinct.{Distinct, names_in}
use token_auth_proxy.Config.Oauth.{validate_oauth}
use token_auth_proxy.Acl.Validate.{validate_acl}
use token_auth_proxy.Oauth.Clients.{Url}
use token_auth_proxy.Settings.{
  ConfigFields, Config, loaded, Libs, validate, without_derived, configured_sources, derived_source,
}
use token_auth_proxy.Settings.Loaded.{validate-Loaded}
use token_auth_proxy.Settings.Routes.{own_route-callback}
use token_auth_proxy.Middleware.Routes.{own_route, login_callback}
use token_auth_proxy.Middleware.Tests.{services}
use token_auth_proxy.Middleware

-- Every text is an https URL of one host, and keys are never read.
abbrev some_url : Text → Option Url
some_url raw = some (record {
  scheme = text "https";
  host = text "host";
  hostname = text "host";
  path = [];
  raw_query = [];
  fragment = [];
  has_user = false;
})

abbrev crypto : Crypto Bool Bool
crypto = record {
  pem_decode = λ raw. none;
  parse_certificate = λ raw. none;
  base64_decode = λ raw. none;
  parse_pkcs1 = λ raw. none;
  parse_pkcs8 = λ raw. none;
  is_key_of = λ k c. none;
  is_bcrypt = λ hash. true;
}

abbrev pub libs : Libs Bool Bool
libs = record {
  splits_host_port = λ addr. true;
  crypto = crypto;
  oauth = record {
    uris = record { parse = some_url; parse_request_uri = some_url };
    is_ec_key = λ pem. true;
    base64 = [];
  };
  lookup_env = λ name. some (text "0123456789abcdef0123456789abcdef");
  is_label_name = λ name. true;
  compile = λ pattern. none;
}

abbrev pub login : JwtLogin
login = record {
  client_id = text "c";
  callback_path = text "/cb";
  cookie_name = text "s";
  refresh = true;
  refresh_max_age = 1000000000;
  client_secret = [];
  token_auth_method = [];
  scopes = text "openid" ∷ [];
  sp_base_url = text "https://host";
  end_session = false;
  post_logout_redirect_uri = [];
}

abbrev pub source : JwtSource
source = record {
  name = text "a";
  disabled = false;
  issuer = text "a";
  audiences = text "c" ∷ [];
  credentials = record { location = text "cookie"; name = text "s"; prefix = [] } ∷ [];
  algorithms = text "RS256" ∷ [];
  clock_skew = 60;
  login = some login;
  is_local = false;
  jwks_url = [];
  oidc_discovery_url = text "d";
  ca_cert = [];
  jwks_cache_ttl = 300;
}

abbrev pub saml : Text → Text → SamlSource
saml path cookie = record {
  name = text "b";
  disabled = false;
  issuer = text "b";
  acs_path = path;
  session_cookie = cookie;
  audiences = [];
  idp_metadata_url = text "m";
  idp_metadata_cache_ttl = 3600;
  sp_base_url = text "https://host";
  sp_entity_id = text "e";
  session_signing_key_env = text "KEY";
  session_duration = 3600;
  ca_cert = [];
  sp_key_env = [];
  sp_cert = [];
}

abbrev pub auth : SamlSource → InboundAuth
auth s = record { jwt = source ∷ []; saml = some s; basic = none; login_page = none }

abbrev auth_error : SamlSource → Option token_auth_proxy.Config.Validate.AuthError
auth_error s = validate_auth crypto some_url libs.lookup_env (auth s)

accepted : auth_error (saml (text "/acs") (text "session")) ≡ none
unfolding validate_auth validate_sources validate_jwt validate_login validate_location validate_saml
    valid_cookie_name check_url parse_absolute_http_url ◌==◌ has_prefix cut_prefix to_lower contains
    ◌before◌
accepted = refl

same_cookie :
    auth_error (saml (text "/acs") (text "s"))
    ≡ some (
        token_auth_proxy.Config.Validate.in_jwt 0
          token_auth_proxy.Config.Validate.cookie_is_session)
unfolding validate_auth validate_sources validate_jwt validate_login validate_location validate_saml
    valid_cookie_name check_url parse_absolute_http_url ◌==◌ has_prefix cut_prefix to_lower contains
    ◌before◌
same_cookie = refl

-- The refresh cookie of the login may be the session cookie of SAML.
refresh_is_session : auth_error (saml (text "/acs") (text "s_refresh")) ≡ none
unfolding validate_auth validate_sources validate_jwt validate_login validate_location validate_saml
    valid_cookie_name check_url parse_absolute_http_url ◌==◌ has_prefix cut_prefix to_lower contains
    ◌before◌
refresh_is_session = refl

-- The path of the metrics, which the proxy serves before any other, is accepted for the SAML source.
acs_at_metrics : auth_error (saml (text "/metrics") (text "session")) ≡ none
unfolding validate_auth validate_sources validate_jwt validate_login validate_location validate_saml
    valid_cookie_name check_url parse_absolute_http_url ◌==◌ has_prefix cut_prefix to_lower contains
    ◌before◌
acs_at_metrics = refl

validate_auth-Unambiguous_example :
    All (λ j. validate_jwt crypto some_url libs.lookup_env j ≡ none) (source ∷ [])
    × Unambiguous (auth (saml (text "/acs") (text "session")))
validate_auth-Unambiguous_example =
    validate_auth-Unambiguous crypto some_url libs.lookup_env
      (auth (saml (text "/acs") (text "session"))) accepted

abbrev pub fields : ConfigFields
fields = record {
  listen_addr = text ":8080";
  target = text "https://host";
  target_ca_cert = [];
  timeouts = record {
    read_header = 1;
    read = 1;
    write = 1;
    idle = 1;
    dial = 1;
    response_header = 1;
  };
  auth = auth (saml (text "/acs") (text "session"));
  oauth_server = none;
  token = none;
  prom_label_proxy = none;
  acl = [];
}

abbrev pub config : Config
config = record {
  fields = fields;
  labels = none;
  target_url = record {
    scheme = text "https";
    host = text "host";
    hostname = text "host";
    path = [];
    raw_query = [];
    fragment = [];
    has_user = false;
  };
}

pub config_loaded : validate libs fields ≡ loaded config
unfolding validate derived_source validate_oauth validate_acl validate_auth validate_sources
    validate_jwt validate_login validate_location validate_saml valid_cookie_name check_url
    parse_absolute_http_url ◌==◌ has_prefix cut_prefix to_lower contains ◌before◌
config_loaded = refl

validate-Loaded_example :
    Unambiguous (without_derived libs fields).auth
    × All
        (λ j. validate_jwt crypto some_url libs.lookup_env j ≡ none)
        (configured_sources fields.auth.jwt)
    × (config.fields.auth.jwt ≡ configured_sources fields.auth.jwt ++ derived_source none none)
    × Distinct (names_in config.fields.auth.jwt)
    × (validate_acl config.fields.auth config.fields.acl ≡ none)
    × (config.fields.auth.saml ≡ fields.auth.saml)
validate-Loaded_example = validate-Loaded libs fields config config_loaded

abbrev served : token_auth_proxy.Middleware.Config
served = record { auth = fields.auth; acl = []; prom_label_proxy = none; resource_metadata = none }

own_route-callback_example : own_route services served (text "/cb") ≡ some (login_callback source)
own_route-callback_example =
    own_route-callback services libs fields config served source login config_loaded refl (inl refl)
      (record { not_off = refl; login = refl })
