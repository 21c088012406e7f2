-- ===== src/Config/Validate/Auth.antt =====
-- internal/config/auth.go: InboundAuthConfig.Validate, which checks each source and that no two of
-- them collide.
use token_auth_proxy.Common.{
  ℕ, suc, Bool, not, ◌&&◌, Option, none, some, List, [], ◌∷◌, ◌++◌, any, is_empty, if◌then◌else◌,
  ◌before◌, fail_if,
}
use token_auth_proxy.Text.{Text, text, ◌==◌, to_lower, contains, equal_fold}
use token_auth_proxy.Config.{
  CredentialLocation, JwtLogin, JwtSource, SamlSource, BasicSource, InboundAuth,
  refresh_cookie_name,
}
use token_auth_proxy.Config.Pem.{Crypto}
use token_auth_proxy.Config.Validate.{
  AuthError, in_jwt, css_closes_style, name_used, path_used, cookie_used, path_is_acs,
  cookie_is_session, credential_is_session, header_is_basic, has, validate_jwt, validate_saml,
  validate_basic,
}
use token_auth_proxy.Oauth.Clients.{Url}

-- What the sources before have used.
pub record Seen : Type 0 where
  pub names : List Text
  pub paths : List Text
  pub cookies : List Text

abbrev pub nothing_seen : Seen
nothing_seen = record { names = []; paths = []; cookies = [] }

abbrev pub mark_unique : AuthError → List Text → Text → Option AuthError
mark_unique e seen s = fail_if (has seen s) e

-- The cookies that a login sets, the last one first.
abbrev pub cookies_of : JwtLogin → List Text
cookies_of l = if l.refresh then refresh_cookie_name l ∷ l.cookie_name ∷ [] else l.cookie_name ∷ []

abbrev pub login_unused : Seen → Option JwtLogin → Option AuthError
login_unused seen none = none
login_unused seen (some l) =
    mark_unique path_used seen.paths l.callback_path
    before mark_unique cookie_used seen.cookies l.cookie_name
    before (if l.refresh
        then mark_unique cookie_used (l.cookie_name ∷ seen.cookies) (refresh_cookie_name l)
        else none)

abbrev pub paths_after : List Text → Option JwtLogin → List Text
paths_after paths none = paths
paths_after paths (some l) = l.callback_path ∷ paths

abbrev pub cookies_after : List Text → Option JwtLogin → List Text
cookies_after cookies none = cookies
cookies_after cookies (some l) = cookies_of l ++ cookies

-- The login of an enabled source.
abbrev pub active_login : JwtSource → Option JwtLogin
active_login j = if j.disabled then none else j.login

abbrev pub seen_after : Seen → JwtSource → Seen
seen_after seen j = record {
  names = j.name ∷ seen.names;
  paths = paths_after seen.paths (active_login j);
  cookies = cookies_after seen.cookies (active_login j);
}

abbrev pub at_jwt : ℕ → Option AuthError → Option AuthError
at_jwt i none = none
at_jwt i (some e) = some (in_jwt i e)

-- The loops over the sources that are held against the SAML source and the Basic source.
abbrev pub each_jwt : (JwtSource → Option AuthError) → ℕ → List JwtSource → Option AuthError
each_jwt check i [] = none
each_jwt check i (j ∷ js) = at_jwt i (check j) before each_jwt check (suc i) js

abbrev pub login_apart : SamlSource → Option JwtLogin → Option AuthError
login_apart s none = none
login_apart s (some l) =
    fail_if (l.callback_path == s.acs_path) path_is_acs
    before fail_if (l.cookie_name == s.session_cookie) cookie_is_session

abbrev pub is_session_cookie : SamlSource → CredentialLocation → Bool
is_session_cookie s c = c.location == text "cookie" && c.name == s.session_cookie

abbrev pub takes_basic : CredentialLocation → Bool
takes_basic c =
    c.location == text "header" && (equal_fold c.name (text "Authorization") && is_empty c.prefix)

abbrev pub page_ok : Option Text → Option AuthError
page_ok none = none
page_ok (some css) = fail_if (contains (to_lower css) (text "</style")) css_closes_style

abbrev pub all_seen : Seen → List JwtSource → Seen
all_seen seen [] = seen
all_seen seen (j ∷ js) = all_seen (seen_after seen j) js

abbrev pub logins_apart : Option SamlSource → List JwtSource → Option AuthError
logins_apart none js = none
logins_apart (some s) js = each_jwt (λ j. login_apart s j.login) 0 js

module _ {Cert : Type 0} {Key : Type 0} (crypto : Crypto Cert Key)
    (parse_request_uri : Text → Option Url) (lookup_env : Text → Option Text) where
  abbrev pub source_ok : Seen → JwtSource → Option AuthError
  source_ok seen j =
      validate_jwt crypto parse_request_uri lookup_env j
      before mark_unique name_used seen.names j.name
      before login_unused seen (active_login j)

  unfoldable pub validate_sources : ℕ → Seen → List JwtSource → Option AuthError
  validate_sources i seen [] = none
  validate_sources i seen (j ∷ js) =
      at_jwt i (source_ok seen j) before validate_sources (suc i) (seen_after seen j) js

  abbrev pub saml_ok : Option SamlSource → List JwtSource → Option AuthError
  saml_ok none js = none
  saml_ok (some s) js =
      validate_saml crypto parse_request_uri lookup_env s
      before mark_unique name_used (all_seen nothing_seen js).names s.name
      before each_jwt (λ j. fail_if (any (is_session_cookie s) j.credentials) credential_is_session)
          0 js

  abbrev pub basic_ok : Option BasicSource → List JwtSource → Option AuthError
  basic_ok none js = none
  basic_ok (some b) js =
      validate_basic crypto parse_request_uri lookup_env b
      before (if b.disabled
          then none
          else each_jwt
              (λ j. fail_if (not j.disabled && any takes_basic j.credentials) header_is_basic) 0 js)

  unfoldable pub validate_auth : InboundAuth → Option AuthError
  unfolding validate_sources
  validate_auth a =
      page_ok a.login_page
      before validate_sources 0 nothing_seen a.jwt
      before logins_apart a.saml a.jwt
      before saml_ok a.saml a.jwt
      before basic_ok a.basic a.jwt
