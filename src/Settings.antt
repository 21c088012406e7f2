-- ===== src/Settings.antt =====
-- internal/config/config.go: the whole configuration, its defaults and its checks. Splitting an
-- address, parsing URIs, the keys and the patterns are parameters.

pub mod Loaded
pub mod Routes
pub mod Tests
use token_auth_proxy.Common.{
  ℕ, Bool, true, false, not, Option, none, some, List, [], ◌∷◌, ◌++◌, is_empty, keep, if◌then◌else◌,
  ◌before◌, fail_if,
}
use token_auth_proxy.Text.{Text, text, ◌==◌}
use token_auth_proxy.Config.{JwtSource, InboundAuth}
use token_auth_proxy.Config.Urls.{AbsoluteUrl, absolute, not_absolute, parse_absolute_http_url}
use token_auth_proxy.Config.Pem.{Crypto, PemError, check_ca}
use token_auth_proxy.Config.Defaults.{text_or, time_or, seconds, auth_defaults}
use token_auth_proxy.Config.Validate.{AuthError}
use token_auth_proxy.Config.Validate.Auth.{validate_auth}
use token_auth_proxy.Config.Oauth.{
  OauthServer, TokenConfig, OauthError, OauthLibs, server_defaults, token_defaults, oauth_source,
  validate_oauth,
}
use token_auth_proxy.Acl.{AclRule}
use token_auth_proxy.Acl.Validate.{AclError, validate_acl, apply_acl_defaults}
use token_auth_proxy.PromLabel.Resolve.{PromLabelProxy}
use token_auth_proxy.PromLabel.Validate.{
  ProxyFields, LabelError, LabelCheck, valid, invalid, Compiled, validate_prom_labels,
}
use token_auth_proxy.Oauth.Clients.{Url, UriError}

pub record Timeouts : Type 0 where
  pub read_header : ℕ
  pub read : ℕ
  pub write : ℕ
  pub idle : ℕ
  pub dial : ℕ
  pub response_header : ℕ

-- The configuration as it is read from its sources.
pub record ConfigFields : Type 0 where
  pub listen_addr : Text
  pub target : Text
  pub target_ca_cert : Text
  pub timeouts : Timeouts
  pub auth : InboundAuth
  pub oauth_server : Option OauthServer
  pub token : Option TokenConfig
  pub prom_label_proxy : Option ProxyFields
  pub acl : List AclRule

pub data ConfigError : Type 0 where
  bad_listen_addr target_required ca_needs_https : ConfigError
  bad_target : UriError → ConfigError
  in_auth : AuthError → ConfigError
  in_oauth : OauthError → ConfigError
  in_acl : AclError → ConfigError
  in_labels : LabelError → ConfigError
  bad_target_ca : PemError → ConfigError

unfoldable pub timeout_defaults : Timeouts → Timeouts
timeout_defaults t = record {
  read_header = time_or t.read_header (seconds 5);
  read = time_or t.read (seconds 30);
  write = time_or t.write (seconds 30);
  idle = time_or t.idle (seconds 120);
  dial = time_or t.dial (seconds 5);
  response_header = time_or t.response_header (seconds 15);
}

abbrev server_or_none : Option OauthServer → Option OauthServer
server_or_none none = none
server_or_none (some o) = some (server_defaults o)

abbrev mcp_url_of : Option OauthServer → Text
mcp_url_of none = []
mcp_url_of (some o) = o.mcp_url

abbrev token_or_none : Option OauthServer → Option TokenConfig → Option TokenConfig
token_or_none server none = none
token_or_none server (some t) = some (token_defaults (mcp_url_of server) t)

-- Config.applyDefaults
unfoldable pub apply_defaults : ConfigFields → ConfigFields
unfolding timeout_defaults server_defaults token_defaults auth_defaults apply_acl_defaults
apply_defaults c = record c {
  listen_addr = text_or c.listen_addr (text ":8080");
  timeouts = timeout_defaults c.timeouts;
  auth = auth_defaults c.auth;
  oauth_server = server_or_none c.oauth_server;
  token = token_or_none c.oauth_server c.token;
  acl = apply_acl_defaults c.acl;
}

-- What Validate leaves behind: the configuration with the derived source, the checked block of
-- labels and the parsed target.
pub record Config : Type 0 where
  pub fields : ConfigFields
  pub labels : Option PromLabelProxy
  pub target_url : Url

pub data Validated : Type 0 where
  loaded : Config → Validated
  config_error : ConfigError → Validated

-- The source for the tokens that the proxy issues is derived after the others were checked.
unfoldable pub derived_source : Option OauthServer → Option TokenConfig → List JwtSource
derived_source none t = []
derived_source (some o) none = []
derived_source (some o) (some t) = oauth_source o t ∷ []

abbrev pub configured_sources : List JwtSource → List JwtSource
configured_sources js = keep (λ j. not j.is_local) js

abbrev wrap : {E : Type 0} → Option E → (E → ConfigError) → Option ConfigError
wrap none f = none
wrap (some e) f = some (f e)

-- The libraries.
pub record Libs (Cert : Type 0) (Key : Type 0) : Type 0 where
  pub splits_host_port : Text → Bool
  pub crypto : Crypto Cert Key
  pub oauth : OauthLibs
  pub lookup_env : Text → Option Text
  pub is_label_name : Text → Bool
  pub compile : Text → Option Compiled

module _ {Cert : Type 0} {Key : Type 0} (libs : Libs Cert Key) where
  abbrev uri : Text → Option Url
  uri = libs.oauth.uris.parse_request_uri

  abbrev pub ca_error : ConfigFields → Url → Option ConfigError
  ca_error c u =
      if is_empty c.target_ca_cert
      then none
      else fail_if (not (u.scheme == text "https")) ca_needs_https
        before wrap (check_ca libs.crypto c.target_ca_cert) bad_target_ca

  abbrev pub with_ca : ConfigFields → Url → Option PromLabelProxy → Option ConfigError → Validated
  with_ca c u labels (some e) = config_error e
  with_ca c u labels none = loaded (record { fields = c; labels = labels; target_url = u })

  abbrev pub with_labels : ConfigFields → Url → LabelCheck PromLabelProxy → Validated
  with_labels c u (invalid e) = config_error (in_labels e)
  with_labels c u (valid p) = with_ca c u (some p) (ca_error c u)

  abbrev pub checked_labels : ConfigFields → Url → Option ProxyFields → Validated
  checked_labels c u none = with_ca c u none (ca_error c u)
  checked_labels c u (some p) =
      with_labels c u (validate_prom_labels libs.is_label_name libs.compile c.auth p)

  abbrev pub checked_acl : ConfigFields → Url → Option AclError → Validated
  checked_acl c u (some e) = config_error (in_acl e)
  checked_acl c u none = checked_labels c u c.prom_label_proxy

  abbrev pub with_source : ConfigFields → ConfigFields
  with_source c = record c {
    auth = record c.auth { jwt = c.auth.jwt ++ derived_source c.oauth_server c.token };
  }

  abbrev pub checked_oauth : ConfigFields → Url → Option OauthError → Validated
  checked_oauth c u (some e) = config_error (in_oauth e)
  checked_oauth c u none =
      checked_acl (with_source c) u (validate_acl (with_source c).auth (with_source c).acl)

  abbrev pub checked_auth : ConfigFields → Url → Option AuthError → Validated
  checked_auth c u (some e) = config_error (in_auth e)
  checked_auth c u none =
      checked_oauth c u (validate_oauth libs.oauth c.auth c.oauth_server c.token)

  abbrev pub without_derived : ConfigFields → ConfigFields
  without_derived c = record c { auth = record c.auth { jwt = configured_sources c.auth.jwt } }

  abbrev pub with_target : ConfigFields → AbsoluteUrl → Validated
  with_target c (not_absolute e) = config_error (bad_target e)
  with_target c (absolute u) =
      checked_auth (without_derived c) u
        (validate_auth libs.crypto uri libs.lookup_env (without_derived c).auth)

  -- Config.Validate
  unfoldable pub validate : ConfigFields → Validated
  unfolding derived_source parse_absolute_http_url
  validate c =
      if not (libs.splits_host_port c.listen_addr)
      then config_error bad_listen_addr
      else if is_empty c.target
      then config_error target_required
      else with_target c (parse_absolute_http_url uri c.target)
