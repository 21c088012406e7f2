-- ===== src/Config.antt =====
-- internal/config/auth.go: the trusted sources of credentials, and which of them are enabled.
-- Durations are numbers of nanoseconds, none of them negative.
pub mod Urls
pub mod Pem
pub mod Defaults
pub mod Oauth
pub mod Validate
use token_auth_proxy.Common.{
  ℕ, ◌+◌, Bool, true, false, not, ◌&&◌, ◌||◌, Option, none, some, List, any, keep, length, ◌++◌,
  if◌then◌else◌,
}
use token_auth_proxy.Text.{Text, text, ◌==◌}

pub record CredentialLocation : Type 0 where
  pub location : Text
  pub name : Text
  pub prefix : Text

pub record JwtLogin : Type 0 where
  pub client_id : Text
  pub callback_path : Text
  pub cookie_name : Text
  pub refresh : Bool
  pub refresh_max_age : ℕ
  pub client_secret : Text
  pub token_auth_method : Text
  pub scopes : List Text
  pub sp_base_url : Text
  pub end_session : Bool
  pub post_logout_redirect_uri : Text

pub record JwtSource : Type 0 where
  pub name : Text
  pub disabled : Bool
  pub issuer : Text
  pub audiences : List Text
  pub credentials : List CredentialLocation
  pub algorithms : List Text
  pub clock_skew : ℕ
  pub login : Option JwtLogin
  -- The source of the tokens that the proxy's own OAuth server issues.
  pub is_local : Bool
  pub jwks_url : Text
  pub oidc_discovery_url : Text
  pub ca_cert : Text
  pub jwks_cache_ttl : ℕ

pub record SamlSource : Type 0 where
  pub name : Text
  pub disabled : Bool
  pub issuer : Text
  pub acs_path : Text
  pub session_cookie : Text
  pub audiences : List Text
  pub idp_metadata_url : Text
  pub idp_metadata_cache_ttl : ℕ
  pub sp_base_url : Text
  pub sp_entity_id : Text
  pub session_signing_key_env : Text
  pub session_duration : ℕ
  pub ca_cert : Text
  pub sp_key_env : Text
  pub sp_cert : Text

pub record BasicUser : Type 0 where
  pub username : Text
  pub password_hash : Text

pub record BasicSource : Type 0 where
  pub disabled : Bool
  pub realm : Text
  pub users : List BasicUser

pub record InboundAuth : Type 0 where
  pub jwt : List JwtSource
  pub saml : Option SamlSource
  pub basic : Option BasicSource
  -- The CSS of the login page.
  pub login_page : Option Text

abbrev pub jwt_enabled : InboundAuth → Bool
jwt_enabled a = any (λ j. not j.disabled) a.jwt

abbrev pub saml_enabled : InboundAuth → Bool
saml_enabled a = elim a.saml [ none ↦ false | some s ↦ not s.disabled ]

abbrev pub basic_enabled : InboundAuth → Bool
basic_enabled a = elim a.basic [ none ↦ false | some b ↦ not b.disabled ]

abbrev pub auth_enabled : InboundAuth → Bool
auth_enabled a = jwt_enabled a || saml_enabled a || basic_enabled a

abbrev pub has_login : Option JwtLogin → Bool
has_login none = false
has_login (some l) = true

abbrev pub login_enabled : JwtSource → Bool
login_enabled j = not j.disabled && has_login j.login

abbrev pub login_sources : InboundAuth → List JwtSource
login_sources a = keep login_enabled a.jwt

abbrev count_if : Bool → ℕ
count_if b = if b then 1 else 0

abbrev pub login_method_count : InboundAuth → ℕ
login_method_count a =
    length (keep login_enabled a.jwt) + count_if (saml_enabled a) + count_if (basic_enabled a)

abbrev pub refresh_cookie_name : JwtLogin → Text
refresh_cookie_name l = l.cookie_name ++ text "_refresh"

-- The enabled sources that trust `iss`, in configuration order.
unfoldable pub jwt_sources_by_issuer : InboundAuth → Text → List JwtSource
jwt_sources_by_issuer a iss = keep (λ j. not j.disabled && j.issuer == iss) a.jwt
