-- ===== src/Config/Validate/Unambiguous.antt =====
-- internal/config/auth.go: which names, callback paths, cookies and headers the sources of a
-- configuration do not share if it passes InboundAuthConfig.Validate.
use token_auth_proxy.Common.{
  ℕ, suc, ◌≡◌, refl, ◌⊎◌, inl, inr, Bool, true, false, not, ◌&&◌, Option, none, some, List, [], ◌∷◌,
  any, if◌then◌else◌, before-none, fail_if, fail_if-none, All, All-map, any-false,
}
use token_auth_proxy.Text.{Text}
use token_auth_proxy.Config.{JwtSource, SamlSource, BasicSource, InboundAuth}
use token_auth_proxy.Config.Pem.{Crypto}
use token_auth_proxy.Config.Validate.{
  AuthError, name_used, credential_is_session, header_is_basic, validate_jwt,
}
use token_auth_proxy.Config.Validate.Auth.{
  Seen, nothing_seen, mark_unique, active_login, seen_after, at_jwt, each_jwt, is_session_cookie,
  takes_basic, page_ok, source_ok, validate_sources, logins_apart, saml_ok, basic_ok, validate_auth,
}
use token_auth_proxy.Oauth.Clients.{Url}
use token_auth_proxy.Config.Validate.Distinct.{
  Distinct, names_in, paths_in, cookies_in, Free, mark_unique-In, cons-Free, login-paths,
  login-cookies, at_jwt-none, each_jwt-none, names-apart, LoginApart, SamlApart, BasicApart,
  login-Apart,
}

-- What the sources do not share. Two JWT sources may read the same header, and a SAML session cookie
-- may be the refresh cookie of a login.
pub record Unambiguous (a : InboundAuth) : Type 0 where
  pub names : Distinct (names_in a.jwt)
  pub paths : Distinct (paths_in a.jwt)
  pub cookies : Distinct (cookies_in a.jwt)
  pub saml_apart : All (SamlApart a.saml) a.jwt
  pub basic_apart : All (BasicApart a.basic) a.jwt

All-both :
    (P Q : JwtSource → Type 0) (js : List JwtSource) → All P js → All Q js → All (λ j. P j × Q j) js
All-both P Q [] p q = tt
All-both P Q (j ∷ js) p q = ((p.0, q.0), All-both P Q js p.1 q.1)

not_both : (b c : Bool) (e : AuthError) → fail_if (not b && c) e ≡ none → (b ≡ true) ⊎ (c ≡ false)
not_both true c e h = inl refl
not_both false c e h = inr (fail_if-none c e h)

headers-apart :
    (b : BasicSource) (on : Bool) (js : List JwtSource)
    → b.disabled ≡ on
    → (if on
        then none
        else each_jwt
            (λ j. fail_if (not j.disabled && any takes_basic j.credentials) header_is_basic)
            0
            js)
      ≡ none
    → All (BasicApart (some b)) js
headers-apart b true js e h = always js
  where
    always : (ks : List JwtSource) → All (BasicApart (some b)) ks
    always [] = tt
    always (k ∷ ks) = (inl e, always ks)
headers-apart b false js e h =
    All-map _ _
      (λ j k. inr (elim (not_both j.disabled (any takes_basic j.credentials) header_is_basic k) [
        | inl t ↦ inl t
        | inr f ↦ inr (any-false takes_basic j.credentials f)
      ]))
      js (each_jwt-none _ 0 js h)

module _ {Cert : Type 0} {Key : Type 0} (crypto : Crypto Cert Key)
    (parse_request_uri : Text → Option Url) (lookup_env : Text → Option Text) where
  -- Each source is valid, and what it claims is free.
  sources-Free :
      (i : ℕ) (seen : Seen) (js : List JwtSource)
      → validate_sources crypto parse_request_uri lookup_env i seen js ≡ none
      → All (λ j. validate_jwt crypto parse_request_uri lookup_env j ≡ none) js
        × Free seen.names (names_in js)
        × Free seen.paths (paths_in js)
        × Free seen.cookies (cookies_in js)
  unfolding validate_sources
  sources-Free i seen [] h = (tt, (tt, tt), (tt, tt), (tt, tt))
  sources-Free i seen (j ∷ js) h =
      let (now, later) =
        before-none (at_jwt i (source_ok crypto parse_request_uri lookup_env seen j)) _ h in
      let (valid, rest) =
        before-none _ _
          (at_jwt-none i (source_ok crypto parse_request_uri lookup_env seen j) now) in
      let (name, login) = before-none (mark_unique name_used seen.names j.name) _ rest in
      let (valids, names, paths, cookies) = sources-Free (suc i) (seen_after seen j) js later in
      (
        (valid, valids),
        cons-Free j.name seen.names (names_in js) (mark_unique-In name_used seen.names j.name name)
            names,
        login-paths seen (active_login j) (paths_in js) login paths,
        login-cookies seen (active_login j) (cookies_in js) login cookies,
      )

  saml-Apart :
      (o : Option SamlSource) (js : List JwtSource)
      → logins_apart o js ≡ none
      → saml_ok crypto parse_request_uri lookup_env o js ≡ none
      → All (SamlApart o) js
  saml-Apart none js h k = always js
    where
      always : (ks : List JwtSource) → All (SamlApart none) ks
      always [] = tt
      always (x ∷ ks) = (tt, always ks)
  saml-Apart (some s) js h k =
      let (_, rest) = before-none _ _ k in
      let (name, cookies) = before-none _ _ rest in
      let (_, apart) =
        names-apart s.name js nothing_seen (mark_unique-In name_used _ s.name name) in
      let logins =
        All-map _ (λ j. LoginApart s j.login) (λ j. login-Apart s j.login) js
          (each_jwt-none _ 0 js h) in
      let locations =
        All-map _ (λ j. All (λ c. is_session_cookie s c ≡ false) j.credentials)
          (λ j e.
            any-false (is_session_cookie s) j.credentials (fail_if-none _ credential_is_session e))
          js (each_jwt-none _ 0 js cookies) in
      All-map _ _ (λ j p. (p.0, p.1.0, p.1.1)) js
        (All-both _ _ js apart (All-both _ _ js logins locations))

  basic-Apart :
      (o : Option BasicSource) (js : List JwtSource)
      → basic_ok crypto parse_request_uri lookup_env o js ≡ none
      → All (BasicApart o) js
  basic-Apart none js h = always js
    where
      always : (ks : List JwtSource) → All (BasicApart none) ks
      always [] = tt
      always (x ∷ ks) = (tt, always ks)
  basic-Apart (some b) js h =
      let (_, rest) = before-none _ _ h in headers-apart b b.disabled js refl rest

  -- When InboundAuthConfig.Validate has no error, every JWT source is valid by itself; the names of
  -- the JWT sources differ, and so do the callback paths of the logins that are on, and the cookies
  -- that these set, refresh cookies included; no JWT source shares its name, its callback path, its
  -- login cookie or the cookie of a credential with the SAML source; and where Basic is on, no JWT
  -- source that is on takes the Authorization header without a prefix.
  pub validate_auth-Unambiguous :
      (a : InboundAuth)
      → validate_auth crypto parse_request_uri lookup_env a ≡ none
      → All (λ j. validate_jwt crypto parse_request_uri lookup_env j ≡ none) a.jwt × Unambiguous a
  unfolding validate_auth
  validate_auth-Unambiguous a h =
      let (_, h1) = before-none (page_ok a.login_page) _ h in
      let (sources, h2) = before-none _ _ h1 in
      let (logins, h3) = before-none _ _ h2 in
      let (saml, basic) = before-none _ _ h3 in
      let (valid, names, paths, cookies) = sources-Free 0 nothing_seen a.jwt sources in
      (
        valid,
        record {
          names = names.1;
          paths = paths.1;
          cookies = cookies.1;
          saml_apart = saml-Apart a.saml a.jwt logins saml;
          basic_apart = basic-Apart a.basic a.jwt basic;
        },
      )
