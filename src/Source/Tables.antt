-- ===== src/Source/Tables.antt =====
-- internal/config/source.go: the tables of the fields that a flag or a variable sets.
use token_auth_proxy.Common.{Bool, true, false, Option, none, some, List, [], ◌∷◌, if◌then◌else◌}
use token_auth_proxy.Text.{Text, text, ◌==◌, cut_prefix}

pub record FieldSpec : Type 0 where
  pub koanf_key : Text
  pub flag_name : Text
  pub env_name : Text
  pub duration : Bool

abbrev spec : Text → Text → Text → Bool → FieldSpec
spec key flag env duration = record {
  koanf_key = key;
  flag_name = flag;
  env_name = env;
  duration = duration;
}

unfoldable pub field_specs : List FieldSpec
field_specs =
    spec (text "config") (text "config") (text "CONFIG") false
    ∷ spec (text "listen_addr") (text "listen-addr") (text "LISTEN_ADDR") false
    ∷ spec (text "target") (text "target") (text "TARGET") false
    ∷ spec (text "target_ca_cert") (text "target-ca-cert") (text "TARGET_CA_CERT") false
    ∷ spec (text "timeouts.read_header") (text "timeout-read-header") (text "TIMEOUT_READ_HEADER")
        true
    ∷ spec (text "timeouts.read") (text "timeout-read") (text "TIMEOUT_READ") true
    ∷ spec (text "timeouts.write") (text "timeout-write") (text "TIMEOUT_WRITE") true
    ∷ spec (text "timeouts.idle") (text "timeout-idle") (text "TIMEOUT_IDLE") true
    ∷ spec (text "timeouts.dial") (text "timeout-dial") (text "TIMEOUT_DIAL") true
    ∷ spec (text "timeouts.response_header") (text "timeout-response-header")
        (text "TIMEOUT_RESPONSE_HEADER") true
    ∷ []

pub record JsonSpec : Type 0 where
  pub json_key : Text
  pub json_flag : Text
  pub json_env : Text

abbrev json_spec : Text → Text → Text → JsonSpec
json_spec key flag env = record { json_key = key; json_flag = flag; json_env = env }

unfoldable pub json_field_specs : List JsonSpec
json_field_specs =
    json_spec (text "inbound.auth.jwt") (text "inbound-auth-jwt-json")
      (text "INBOUND_AUTH_JWT_JSON")
    ∷ json_spec (text "inbound.auth.saml") (text "inbound-auth-saml-json")
        (text "INBOUND_AUTH_SAML_JSON")
    ∷ json_spec (text "inbound.auth.basic") (text "inbound-auth-basic-json")
        (text "INBOUND_AUTH_BASIC_JSON")
    ∷ json_spec (text "inbound.auth.login_page") (text "inbound-auth-login-page-json")
        (text "INBOUND_AUTH_LOGIN_PAGE_JSON")
    ∷ json_spec (text "inbound.oauth_server") (text "inbound-oauth-server-json")
        (text "INBOUND_OAUTH_SERVER_JSON")
    ∷ json_spec (text "outbound.token") (text "outbound-token-json") (text "OUTBOUND_TOKEN_JSON")
    ∷ json_spec (text "outbound.prom_label_proxy") (text "outbound-prom-label-proxy-json")
        (text "OUTBOUND_PROM_LABEL_PROXY_JSON")
    ∷ json_spec (text "acl") (text "acl-json") (text "ACL_JSON")
    ∷ []

abbrev pub env_prefix : Text
env_prefix = text "TAP_"

-- The last entry of a name counts.
abbrev pub koanf_key_of : (FieldSpec → Text) → List FieldSpec → Text → Option Text
koanf_key_of f [] name = none
koanf_key_of f (s ∷ ss) name = elim (koanf_key_of f ss name) [
  | some k ↦ some k
  | none ↦ if f s == name then some s.koanf_key else none
]

abbrev pub trim_prefix : Text → Text → Text
trim_prefix s p = elim (cut_prefix s p) [ none ↦ s | some rest ↦ rest ]

-- envKey and flagKey, `none` for a name that is ignored.
unfoldable pub env_key : Text → Option Text
unfolding field_specs cut_prefix
env_key k = koanf_key_of (λ s. s.env_name) field_specs (trim_prefix k env_prefix)

unfoldable pub flag_key : Text → Option Text
unfolding field_specs
flag_key name = koanf_key_of (λ s. s.flag_name) field_specs name
