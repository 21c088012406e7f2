-- ===== src/Config/Oauth.antt =====
-- internal/config/oauth.go: the checks on inbound.oauth_server and outbound.token, and the source of
-- the tokens that the server issues. Parsing URIs and keys, and base64, are parameters.
use token_auth_proxy.Common.{
  ℕ, suc, Bool, true, not, ◌&&◌, ◌||◌, Option, none, some, List, [], ◌∷◌, ◌++◌, any, is_empty, eqb,
  ltb, length, if◌then◌else◌, ◌before◌, fail_if, check_from,
}
use token_auth_proxy.Text.{Text, text, ◌==◌, has_prefix, contains, trim_space}
use token_auth_proxy.Config.{JwtLogin, JwtSource, SamlSource, InboundAuth, login_method_count}
use token_auth_proxy.Config.Urls.{
  AbsoluteUrl, absolute, not_absolute, parse_absolute_http_url, check_url,
}
use token_auth_proxy.Config.Defaults.{text_or, time_or, seconds, bearer_header}
use token_auth_proxy.Config.Validate.{has, is_login_family}
use token_auth_proxy.Oauth.Clients.{
  Url, Uris, UriError, Client, DynamicRegistration, validate_redirect_uri,
}
use token_auth_proxy.Login.Callback.{root}

pub record SigningKey : Type 0 where
  pub kid : Text
  pub private_key : Text

pub record TokenConfig : Type 0 where
  pub signing_keys : List SigningKey
  pub access_token_ttl : ℕ
  pub audience : Text
  pub claim_subject : Text
  pub claim_email : Text
  pub claim_groups : Text

pub record OauthServer : Type 0 where
  pub disabled : Bool
  pub sp_base_url : Text
  pub mcp_url : Text
  pub code_ttl : ℕ
  pub refresh_absolute_lifetime : ℕ
  pub sealing_keys : List Text
  pub clients : List Client
  pub dynamic_registration : DynamicRegistration
  pub denylist : List Text

abbrev pub oauth_path_prefix : Text
oauth_path_prefix = text "/_tap/oauth"

abbrev pub oauth_source_name : Text
oauth_source_name = text "tap-oauth"

unfoldable pub token_defaults : Text → TokenConfig → TokenConfig
token_defaults mcp_url t = record t {
  access_token_ttl = time_or t.access_token_ttl (seconds 900);
  audience = text_or t.audience mcp_url;
  claim_subject = text_or t.claim_subject (text "sub");
  claim_email = text_or t.claim_email (text "email");
  claim_groups = text_or t.claim_groups (text "groups");
}

unfoldable pub server_defaults : OauthServer → OauthServer
server_defaults o = record o {
  code_ttl = time_or o.code_ttl (seconds 60);
  refresh_absolute_lifetime = time_or o.refresh_absolute_lifetime (seconds 86400);
}

pub data OauthError : Type 0 where
  bad_url : UriError → OauthError
  in_key in_sealing_key in_client in_redirect in_subject in_jwt : ℕ → OauthError → OauthError
  keys_required kid_required kid_used bad_private_key ttl_out_of_range claim_required : OauthError
  base_required base_has_extras base_has_path mcp_required mcp_has_extras other_origin : OauthError
  mcp_needs_path mcp_served_by_proxy code_ttl_out_of_range lifetime_out_of_range : OauthError
  sealing_required key_required key_length key_not_base64 : OauthError
  clients_required too_many_uris not_https has_extras : OauthError
  bad_client_id uris_required client_used subject_required subject_spaces : OauthError
  needs_server needs_token name_reserved path_reserved acs_reserved no_login_method : OauthError

abbrev wrap_uri : Option UriError → Option OauthError
wrap_uri none = none
wrap_uri (some e) = some (bad_url e)

-- What the checks call of the libraries: parsing URIs, P-256 keys in PEM, and the four base64
-- alphabets in the order that they are tried.
pub record OauthLibs : Type 0 where
  pub uris : Uris
  pub is_ec_key : Text → Bool
  pub base64 : List (Text → Option Text)

abbrev pub in_range : ℕ → ℕ → ℕ → Bool
in_range low high n = not (ltb n low) && not (ltb high n)

abbrev at : (ℕ → OauthError → OauthError) → ℕ → Option OauthError → Option OauthError
at wrap i none = none
at wrap i (some e) = some (wrap i e)

abbrev subject_ok : Text → Option OauthError
subject_ok sub =
    fail_if (is_empty (trim_space sub)) subject_required
    before fail_if (not (sub == trim_space sub)) subject_spaces

abbrev has_extras_in : Text → Url → Bool
has_extras_in raw u = not (is_empty u.raw_query) || contains raw (text "#") || u.has_user

abbrev pub is_oauth_path : Text → Bool
is_oauth_path path = path == oauth_path_prefix || has_prefix path (oauth_path_prefix ++ root)

abbrev pub login_reserved : Option JwtLogin → Option OauthError
login_reserved none = none
login_reserved (some l) = fail_if (is_oauth_path l.callback_path) path_reserved

abbrev pub source_reserved : JwtSource → Option OauthError
source_reserved j =
    fail_if (j.name == oauth_source_name) name_reserved before login_reserved j.login

abbrev saml_reserved : Option SamlSource → Option OauthError
saml_reserved none = none
saml_reserved (some s) = fail_if (is_oauth_path s.acs_path) acs_reserved

-- strings.TrimRight(s, "/")
unfoldable pub trim_slashes : Text → Text
trim_slashes [] = []
trim_slashes (c ∷ s) = elim (trim_slashes s) [
  | [] ↦ if eqb c b'/' then [] else c ∷ []
  | d ∷ r ↦ c ∷ d ∷ r
]

-- OAuthServerConfig.Issuer
unfoldable pub issuer : OauthServer → Text
unfolding trim_slashes
issuer o = trim_slashes o.sp_base_url ++ oauth_path_prefix

-- The source of the tokens that the server issues; it is off where the server is.
unfoldable pub oauth_source : OauthServer → TokenConfig → JwtSource
unfolding issuer
oauth_source o t = record {
  name = oauth_source_name;
  disabled = o.disabled;
  issuer = issuer o;
  audiences = t.audience ∷ [];
  credentials = bearer_header ∷ [];
  algorithms = text "ES256" ∷ [];
  clock_skew = seconds 60;
  login = none;
  is_local = true;
  jwks_url = [];
  oidc_discovery_url = [];
  ca_cert = [];
  jwks_cache_ttl = 0;
}

module _ (libs : OauthLibs) where
  abbrev parse_uri : Text → Option Url
  parse_uri = libs.uris.parse_request_uri

  abbrev key_ok : List Text → SigningKey → Option OauthError
  key_ok seen k =
      fail_if (is_empty k.kid) kid_required
      before fail_if (has seen k.kid) kid_used
      before fail_if (not (libs.is_ec_key k.private_key)) bad_private_key

  unfoldable pub validate_keys : ℕ → List Text → List SigningKey → Option OauthError
  validate_keys i seen [] = none
  validate_keys i seen (k ∷ ks) =
      at in_key i (key_ok seen k) before validate_keys (suc i) (k.kid ∷ seen) ks

  unfoldable pub validate_token : TokenConfig → Option OauthError
  unfolding validate_keys check_url
  validate_token t =
      fail_if (is_empty t.signing_keys) keys_required
      before validate_keys 0 [] t.signing_keys
      before fail_if (not (in_range (seconds 60) (seconds 3600) t.access_token_ttl))
          ttl_out_of_range
      before wrap_uri (check_url parse_uri t.audience)
      before fail_if
          (is_empty (trim_space t.claim_subject)
            || is_empty (trim_space t.claim_email)
            || is_empty (trim_space t.claim_groups))
          claim_required

  abbrev key_of_length : Text → Option OauthError
  key_of_length b = fail_if (not (eqb (length b) 32)) key_length

  -- The first alphabet that reads the text decides.
  unfoldable pub decode_key : List (Text → Option Text) → Text → Option OauthError
  decode_key [] s = some key_not_base64
  decode_key (enc ∷ encs) s = elim (enc s) [ some b ↦ key_of_length b | none ↦ decode_key encs s ]

  unfoldable pub check_sealing_key : Text → Option OauthError
  unfolding decode_key
  check_sealing_key s =
      if is_empty (trim_space s) then some key_required else decode_key libs.base64 (trim_space s)

  abbrev dynamic_https : Text → AbsoluteUrl → Option OauthError
  dynamic_https raw (not_absolute e) = some (bad_url e)
  dynamic_https raw (absolute u) =
      fail_if (not (u.scheme == text "https")) not_https
      before fail_if (contains raw (text "#") || u.has_user) has_extras

  unfoldable pub validate_dynamic : DynamicRegistration → Option OauthError
  unfolding parse_absolute_http_url
  validate_dynamic d =
      fail_if (ltb 20 (length d.redirect_uris)) too_many_uris
      before check_from in_redirect
          (λ raw. dynamic_https raw (parse_absolute_http_url parse_uri raw)) 0 d.redirect_uris

  unfoldable pub validate_client : Client → Option OauthError
  validate_client c =
      fail_if (is_empty c.id || any (λ b. eqb b 32 || eqb b 9 || eqb b 13 || eqb b 10) c.id)
        bad_client_id
      before fail_if (is_empty c.redirect_uris) uris_required
      before check_from in_redirect (λ raw. wrap_uri (validate_redirect_uri libs.uris raw)) 0
          c.redirect_uris

  unfoldable pub validate_clients : ℕ → List Text → List Client → Option OauthError
  unfolding validate_client
  validate_clients i seen [] = none
  validate_clients i seen (c ∷ cs) =
      at in_client i (validate_client c before fail_if (has seen c.id) client_used)
      before validate_clients (suc i) (c.id ∷ seen) cs

  abbrev mcp_ok : OauthServer → Url → AbsoluteUrl → Option OauthError
  mcp_ok o base (not_absolute e) = some (bad_url e)
  mcp_ok o base (absolute mcp) =
      fail_if (has_extras_in o.mcp_url mcp) mcp_has_extras
      before fail_if (not (mcp.scheme == base.scheme) || not (mcp.host == base.host)) other_origin
      before fail_if (is_empty mcp.path || mcp.path == root) mcp_needs_path
      before fail_if (is_oauth_path mcp.path || is_login_family mcp.path) mcp_served_by_proxy

  abbrev urls_ok : OauthServer → AbsoluteUrl → Option OauthError
  urls_ok o (not_absolute e) = some (bad_url e)
  urls_ok o (absolute base) =
      fail_if (has_extras_in o.sp_base_url base) base_has_extras
      before fail_if (not (is_empty base.path) && not (base.path == root)) base_has_path
      before fail_if (is_empty o.mcp_url) mcp_required
      before mcp_ok o base (parse_absolute_http_url parse_uri o.mcp_url)

  unfoldable pub validate_server : OauthServer → Option OauthError
  unfolding parse_absolute_http_url check_sealing_key validate_dynamic validate_clients
  validate_server o =
      fail_if (is_empty o.sp_base_url) base_required
      before urls_ok o (parse_absolute_http_url parse_uri o.sp_base_url)
      before fail_if (not (in_range (seconds 5) (seconds 300) o.code_ttl)) code_ttl_out_of_range
      before fail_if
          (eqb o.refresh_absolute_lifetime 0 || ltb (seconds 31536000) o.refresh_absolute_lifetime)
          lifetime_out_of_range
      before fail_if (is_empty o.sealing_keys) sealing_required
      before check_from in_sealing_key check_sealing_key 0 o.sealing_keys
      before fail_if (is_empty o.clients && not o.dynamic_registration.enabled) clients_required
      before validate_dynamic o.dynamic_registration
      before validate_clients 0 [] o.clients
      before check_from in_subject subject_ok 0 o.denylist

  unfoldable pub validate_oauth :
      InboundAuth → Option OauthServer → Option TokenConfig → Option OauthError
  unfolding validate_server validate_token
  validate_oauth auth none none = none
  validate_oauth auth none (some t) = some needs_server
  validate_oauth auth (some o) none = some needs_token
  validate_oauth auth (some o) (some t) =
      validate_server o
      before validate_token t
      before check_from in_jwt source_reserved 0 auth.jwt
      before saml_reserved auth.saml
      before fail_if (not o.disabled && eqb (login_method_count auth) 0) no_login_method
