-- ===== src/Config/Validate.antt =====
-- internal/config/auth.go: the checks on one source of credentials. Each error is a constructor
-- named for its message; `none` is a nil error.

pub mod Auth
pub mod Distinct
pub mod Unambiguous
use token_auth_proxy.Common.{
  ℕ, suc, Bool, not, ◌&&◌, ◌||◌, Option, none, some, List, [], ◌∷◌, ◌++◌, any, all, is_empty, eqb,
  leb, ltb, length, if◌then◌else◌, ◌before◌, fail_if, check_from,
}
use token_auth_proxy.Text.{Text, text, ◌==◌, has_prefix, to_lower, contains}
use token_auth_proxy.Config.{
  CredentialLocation, JwtLogin, JwtSource, SamlSource, BasicUser, BasicSource,
}
use token_auth_proxy.Config.Urls.{check_url}
use token_auth_proxy.Config.Pem.{
  Crypto, PemError, ParsedPem, parsed, unparsed, check_ca, parse_sp_private_key,
  parse_sp_certificate,
}
use token_auth_proxy.Config.Defaults.{token_auth_basic, token_auth_post}
use token_auth_proxy.Oauth.Clients.{Url, UriError}
use token_auth_proxy.Login.Callback.{login_path_prefix, logout_path, root}

pub data AuthError : Type 0 where
  bad_url : UriError → AuthError
  bad_ca : PemError → AuthError
  in_credential in_user in_jwt : ℕ → AuthError → AuthError
  login_needs_discovery client_id_required client_id_not_audience sp_base_url_required : AuthError
  no_leading_slash served_by_proxy openid_required method_needs_secret unknown_method : AuthError
  uri_needs_end_session age_needs_refresh bad_cookie_name reserved_cookie_name : AuthError
  issuer_required url_required urls_exclusive ca_over_http unknown_algorithm : AuthError
  unknown_location name_required : AuthError
  metadata_url_required entity_id_required acs_path_required acs_path_healthz : AuthError
  session_cookie_required key_env_required key_env_unset key_too_short : AuthError
  sp_pair_required sp_key_unset bad_sp_key bad_sp_cert sp_cert_not_rsa sp_cert_other_key : AuthError
  realm_required realm_quotes realm_controls no_users : AuthError
  username_required username_used password_required not_bcrypt : AuthError
  css_closes_style name_used path_used cookie_used : AuthError
  path_is_acs cookie_is_session credential_is_session header_is_basic : AuthError

-- The test for a RFC 6265 token byte.
abbrev pub is_cookie_byte : ℕ → Bool
is_cookie_byte c =
    (leb b'0' c && leb c b'9')
    || (leb b'a' c && leb c b'z')
    || (leb b'A' c && leb c b'Z')
    || any (λ d. eqb d c) (text "!#$%&'*+-.^_`|~")

unfoldable pub valid_cookie_name : Text → Bool
valid_cookie_name s = not (is_empty s) && all is_cookie_byte s

abbrev pub has : List Text → Text → Bool
has xs s = any (λ x. x == s) xs

-- The paths of the picker and of the logout.
abbrev pub is_login_family : Text → Bool
is_login_family path =
    path == login_path_prefix || has_prefix path (login_path_prefix ++ root) || path == logout_path

abbrev pub is_proxy_path : Text → Bool
is_proxy_path path = path == text "/healthz" || path == text "/metrics" || is_login_family path

abbrev allowed_algorithms : List Text
allowed_algorithms =
    text "RS256"
    ∷ text "RS384"
    ∷ text "RS512"
    ∷ text "ES256"
    ∷ text "ES384"
    ∷ text "ES512"
    ∷ text "PS256"
    ∷ text "PS384"
    ∷ text "PS512"
    ∷ []

abbrev allowed_locations : List Text
allowed_locations = text "header" ∷ text "cookie" ∷ text "query" ∷ []

unfoldable pub validate_location : CredentialLocation → Option AuthError
validate_location c =
    fail_if (not (has allowed_locations c.location)) unknown_location
    before fail_if (is_empty c.name) name_required

abbrev wrap_url : Option UriError → Option AuthError
wrap_url none = none
wrap_url (some e) = some (bad_url e)

abbrev wrap_ca : Option PemError → Option AuthError
wrap_ca none = none
wrap_ca (some e) = some (bad_ca e)

abbrev is_http : Text → Bool
is_http endpoint = has_prefix (to_lower endpoint) (text "http://")

module _ {Cert : Type 0} {Key : Type 0} (crypto : Crypto Cert Key)
    (parse_request_uri : Text → Option Url) (lookup_env : Text → Option Text) where
  abbrev url_ok : Text → Option AuthError
  url_ok raw = wrap_url (check_url parse_request_uri raw)

  abbrev url_ok_if_set : Text → Option AuthError
  url_ok_if_set raw = if is_empty raw then none else url_ok raw

  -- The error where the bundle is set but the endpoint is not reached over TLS.
  abbrev ca_ok : Text → Text → Option AuthError
  ca_ok ca endpoint =
      if is_empty ca
      then none
      else wrap_ca (check_ca crypto ca) before fail_if (is_http endpoint) ca_over_http

  unfoldable pub validate_login : JwtSource → JwtLogin → Option AuthError
  unfolding check_url
  validate_login j l =
      fail_if (is_empty j.oidc_discovery_url) login_needs_discovery
      before fail_if (is_empty l.client_id) client_id_required
      before fail_if (not (has j.audiences l.client_id)) client_id_not_audience
      before fail_if (is_empty l.sp_base_url) sp_base_url_required
      before url_ok l.sp_base_url
      before fail_if (not (has_prefix l.callback_path root)) no_leading_slash
      before fail_if (is_proxy_path l.callback_path) served_by_proxy
      before fail_if (not (has l.scopes (text "openid"))) openid_required
      before fail_if (is_empty l.client_secret && not (is_empty l.token_auth_method))
          method_needs_secret
      before fail_if
          (not (is_empty l.client_secret)
            && (not (l.token_auth_method == token_auth_basic)
                && not (l.token_auth_method == token_auth_post)))
          unknown_method
      before fail_if (not l.end_session && not (is_empty l.post_logout_redirect_uri))
          uri_needs_end_session
      before url_ok_if_set l.post_logout_redirect_uri
      before fail_if (not l.refresh && not (eqb l.refresh_max_age 0)) age_needs_refresh
      before fail_if (not (valid_cookie_name l.cookie_name)) bad_cookie_name
      before fail_if (has_prefix l.cookie_name (text "tap_login_")) reserved_cookie_name

  abbrev login_ok : JwtSource → Option JwtLogin → Option AuthError
  login_ok j none = none
  login_ok j (some l) = validate_login j l

  abbrev endpoint_of : JwtSource → Text
  endpoint_of j = if is_empty j.jwks_url then j.oidc_discovery_url else j.jwks_url

  abbrev algorithm_ok : Text → Option AuthError
  algorithm_ok alg = fail_if (not (has allowed_algorithms alg)) unknown_algorithm

  -- The error does not name the place of an algorithm.
  abbrev unplaced : ℕ → AuthError → AuthError
  unplaced i e = e

  unfoldable pub validate_jwt : JwtSource → Option AuthError
  unfolding validate_login validate_location
  validate_jwt j =
      fail_if (is_empty j.issuer) issuer_required
      before fail_if (is_empty j.jwks_url && is_empty j.oidc_discovery_url) url_required
      before fail_if (not (is_empty j.jwks_url) && not (is_empty j.oidc_discovery_url))
          urls_exclusive
      before url_ok_if_set j.jwks_url
      before url_ok_if_set j.oidc_discovery_url
      before ca_ok j.ca_cert (endpoint_of j)
      before check_from unplaced algorithm_ok 0 j.algorithms
      before check_from in_credential validate_location 0 j.credentials
      before login_ok j j.login

  abbrev signing_key_ok : Option Text → Option AuthError
  signing_key_ok none = some key_env_unset
  signing_key_ok (some v) = fail_if (ltb (length v) 32) key_too_short

  abbrev same_key : Option Bool → Option AuthError
  same_key none = some sp_cert_not_rsa
  same_key (some same) = fail_if (not same) sp_cert_other_key

  abbrev cert_matches : Key → ParsedPem Cert → Option AuthError
  cert_matches key (unparsed e) = some bad_sp_cert
  cert_matches key (parsed cert) = same_key (crypto.is_key_of key cert)

  abbrev key_matches : Text → ParsedPem Key → Option AuthError
  key_matches cert (unparsed e) = some bad_sp_key
  key_matches cert (parsed key) = cert_matches key (parse_sp_certificate crypto cert)

  abbrev sp_key_ok : Text → Option Text → Option AuthError
  sp_key_ok cert none = some sp_key_unset
  sp_key_ok cert (some pem) = key_matches cert (parse_sp_private_key crypto pem)

  abbrev sp_pair_ok : SamlSource → Option AuthError
  sp_pair_ok s =
      if is_empty s.sp_key_env then none else sp_key_ok s.sp_cert (lookup_env s.sp_key_env)

  -- The key and the certificate are both set, or neither is.
  abbrev sp_pair_split : SamlSource → Bool
  sp_pair_split s = if is_empty s.sp_key_env then not (is_empty s.sp_cert) else is_empty s.sp_cert

  unfoldable pub validate_saml : SamlSource → Option AuthError
  validate_saml s =
      fail_if (is_empty s.issuer) issuer_required
      before fail_if (is_empty s.idp_metadata_url) metadata_url_required
      before url_ok s.idp_metadata_url
      before ca_ok s.ca_cert s.idp_metadata_url
      before fail_if (is_empty s.sp_base_url) sp_base_url_required
      before url_ok s.sp_base_url
      before fail_if (is_empty s.sp_entity_id) entity_id_required
      before fail_if (is_empty s.acs_path) acs_path_required
      before fail_if (not (has_prefix s.acs_path root)) no_leading_slash
      before fail_if (is_login_family s.acs_path) served_by_proxy
      before fail_if (s.acs_path == text "/healthz") acs_path_healthz
      before fail_if (is_empty s.session_cookie) session_cookie_required
      before fail_if (is_empty s.session_signing_key_env) key_env_required
      before signing_key_ok (lookup_env s.session_signing_key_env)
      before fail_if (sp_pair_split s) sp_pair_required
      before sp_pair_ok s

  unfoldable pub validate_realm : Text → Option AuthError
  validate_realm realm =
      fail_if (is_empty realm) realm_required
      before fail_if (any (λ c. eqb c b'"' || eqb c 92) realm) realm_quotes
      before fail_if (any (λ c. ltb c 32 || eqb c 127) realm) realm_controls

  abbrev user_ok : List Text → BasicUser → Option AuthError
  user_ok seen u =
      fail_if (is_empty u.username) username_required
      before fail_if (has seen u.username) username_used
      before fail_if (is_empty u.password_hash) password_required
      before fail_if (not (crypto.is_bcrypt u.password_hash)) not_bcrypt

  abbrev in_user_at : ℕ → Option AuthError → Option AuthError
  in_user_at i none = none
  in_user_at i (some e) = some (in_user i e)

  -- The users from place `i` on, `seen` being the names before them.
  unfoldable pub validate_users : ℕ → List Text → List BasicUser → Option AuthError
  validate_users i seen [] = none
  validate_users i seen (u ∷ us) =
      in_user_at i (user_ok seen u) before validate_users (suc i) (u.username ∷ seen) us

  unfoldable pub validate_basic : BasicSource → Option AuthError
  unfolding validate_realm validate_users
  validate_basic b =
      validate_realm b.realm
      before fail_if (is_empty b.users) no_users
      before validate_users 0 [] b.users
