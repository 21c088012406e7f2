-- ===== src/Oauth/Clients.antt =====
-- internal/oauth: the clients of types.go and register.go, with the redirect URIs of
-- internal/config/oauth.go. Parsing a URI, by url.Parse and url.ParseRequestURI, is a parameter.
pub mod Redirects
use token_auth_proxy.Common.{
  ℕ, Bool, true, false, not, ◌&&◌, ◌||◌, Option, none, some, List, [], ◌∷◌, any, keep, is_empty,
  if◌then◌else◌, ◌before◌, fail_if,
}
use token_auth_proxy.Text.{Text, text, ◌==◌, contains, equal_fold}

pub record Url : Type 0 where
  pub scheme : Text
  pub host : Text
  pub hostname : Text
  pub path : Text
  pub raw_query : Text
  pub fragment : Text
  pub has_user : Bool

pub record Uris : Type 0 where
  pub parse : Text → Option Url
  pub parse_request_uri : Text → Option Url

pub record DynamicRegistration : Type 0 where
  pub enabled : Bool
  pub redirect_uris : List Text

-- The settings of the server, of internal/config/oauth.go. Durations are in nanoseconds.
pub record Settings : Type 0 where
  pub denylist : List Text
  pub dynamic_registration : DynamicRegistration
  pub refresh_absolute_lifetime : ℕ
  pub code_ttl : ℕ
  pub access_token_ttl : ℕ
  pub audience : Text

pub record Client : Type 0 where
  pub id : Text
  pub redirect_uris : List Text

unfoldable pub denylisted : List Text → Text → Bool
denylisted subjects sub = any (λ s. equal_fold s sub) subjects

unfoldable pub is_loopback_host : Text → Bool
is_loopback_host host = host == text "localhost" || (host == text "127.0.0.1" || host == text "::1")

pub data UriError : Type 0 where
  unparsable bad_scheme no_host has_extras http_elsewhere : UriError

abbrev pub contains_uri : List Text → Text → Bool
contains_uri uris raw = any (λ u. u == raw) uris

module _ (uris : Uris) where
  open uris use {parse, parse_request_uri}

  abbrev check_redirect : Text → Url → Option UriError
  check_redirect raw u =
      fail_if (not (u.scheme == text "http") && not (u.scheme == text "https")) bad_scheme
      before fail_if (is_empty u.host) no_host
      before fail_if (contains raw (text "#") || u.has_user) has_extras
      before fail_if (u.scheme == text "http" && not (is_loopback_host u.hostname)) http_elsewhere

  unfoldable pub validate_redirect_uri : Text → Option UriError
  validate_redirect_uri raw = elim (parse_request_uri raw) [
    | none ↦ some unparsable
    | some u ↦ check_redirect raw u
  ]

  abbrev dynamic_url : List Text → Text → Option Url → Bool
  dynamic_url listed raw none = false
  dynamic_url listed raw (some u) =
      if u.scheme == text "http" then is_loopback_host u.hostname else contains_uri listed raw

  unfoldable pub allows_dynamic_redirect : DynamicRegistration → Text → Bool
  allows_dynamic_redirect d raw = elim (validate_redirect_uri raw) [
    | some e ↦ false
    | none ↦ dynamic_url d.redirect_uris raw (parse raw)
  ]

  -- One registered URI against the one that is asked for: the same, or a loopback one on any port.
  abbrev same_loopback : Url → Option Url → Bool
  same_loopback got none = false
  same_loopback got (some want) =
      (want.scheme == text "http" && is_loopback_host want.hostname)
      && (got.scheme == want.scheme
          && (got.hostname == want.hostname
              && (got.path == want.path && got.raw_query == want.raw_query)))

  abbrev pub registered_as : Text → Url → Text → Bool
  registered_as raw got reg = reg == raw || same_loopback got (parse reg)

  unfoldable pub allows_redirect : Client → Text → Bool
  allows_redirect c raw = elim (parse raw) [
    | none ↦ false
    | some got ↦
        if not (is_empty got.fragment) || got.has_user
        then false
        else any (registered_as raw got) c.redirect_uris
  ]

  unfoldable pub static_client : List Client → Text → Option Client
  static_client [] id = none
  static_client (c ∷ cs) id =
      let later = static_client cs id in if c.id == id then some c else later

  abbrev some_client : Text → List Text → Option Client
  some_client id [] = none
  some_client id (u ∷ us) = some (record { id = id; redirect_uris = u ∷ us })

  -- The URIs of a sealed registration that are still allowed; `opened` is what its ID opens to. An
  -- empty list of URIs gives no client either way.
  abbrev pub dynamic_client : DynamicRegistration → Text → Option (List Text) → Option Client
  dynamic_client d id none = none
  dynamic_client d id (some us) = some_client id (keep (allows_dynamic_redirect d) us)

  abbrev dynamic_if : Text → Option (List Text) → Option Settings → Option Client
  dynamic_if id opened none = none
  dynamic_if id opened (some s) =
      if s.dynamic_registration.enabled
      then dynamic_client s.dynamic_registration id opened
      else none

  -- `none` for the settings is a server that is off.
  unfoldable pub lookup_client :
      List Client → Option Settings → (Text → Option (List Text)) → Text → Option Client
  unfolding static_client allows_dynamic_redirect
  lookup_client clients settings open_client id = elim (static_client clients id) [
    | some c ↦ some c
    | none ↦ dynamic_if id (open_client id) settings
  ]
