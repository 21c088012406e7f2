-- ===== src/Middleware/Tests.antt =====
-- Whole requests on a concrete configuration, and the theorems at concrete inputs.
use token_auth_proxy.Common.{◌≡◌, Bool, true, false, none, some, [], ◌∷◌, if◌then◌else◌, refl}
use token_auth_proxy.Text.{
  text, ◌==◌, cut, cut_prefix, has_prefix, trim_space, trim_left, trim_right, equal_fold, to_lower,
  join,
}
use token_auth_proxy.Text.Trim.{split_on}
use token_auth_proxy.Config.{auth_enabled, jwt_sources_by_issuer}
use token_auth_proxy.Acl.{Request, basic_principal, authorize}
use token_auth_proxy.Cookies.{
  value_of, key_of_part, take_parts, take_lines, take_cookies, take_refresh_cookies, refresh_names,
  unquote_left, unquote_right,
}
use token_auth_proxy.Cookies.Taken.{cookies}
use token_auth_proxy.Basic.{
  new_basic_registry, matched, mismatched, verify, lookup, lookup_negative, store, key,
  basic_fingerprint, user_parts, hash_for, hash_from, reconcile,
}
use token_auth_proxy.Basic.Entries.{find, put, delete}
use token_auth_proxy.Jwt.{
  Carried, extract_from, located, strip_prefix, take, drop, extract_at, extract_token_from,
  enforce_token, enforce_jwt, try_candidates, classify, denied_local_subject, extract_basic,
  invalid_claims,
}
use token_auth_proxy.Jwt.Tests.{tokens, auth, with_cookies, part_named}
use token_auth_proxy.Login.{
  refresh_rejected, refresh, refresh_sources, drop_stale_login, is_login_route, is_logout_route,
}
use token_auth_proxy.PromLabel.Resolve.{resolve_prom_labels, unscoped}
use token_auth_proxy.Middleware.{
  Config, Services, allowed, answered, unauthorized, bearer_invalid, step_jwt, authenticate,
  enforce_basic,
}
use token_auth_proxy.Middleware.Routes.{serve, own_route, callback_source, forwarded}
use token_auth_proxy.Middleware.Entered.{Entered, authenticate-Entered}
use token_auth_proxy.Middleware.Sound.{Passed, serve-forwarded}

abbrev pub services : Services Bool
services = record {
  tokens = tokens;
  basic_auth = λ v. some (text "al", text "pw");
  hmac = λ s. s;
  compare_hash = λ hash password. if hash == password then matched else mismatched;
  attempt = record { looked_up_at = 1; stored_at = 2; slot = true };
  redeem = λ src token. refresh_rejected;
  saml_available = false;
  saml_session = λ c. none;
  base64 = λ s. s;
  oauth_serves = λ path. false;
  format_float = λ f. [];
}

abbrev two_sources : Config
two_sources = record { auth = auth; acl = []; prom_label_proxy = none; resource_metadata = none }

-- Stale login cookies of two sources: the first is dropped, and the second is then a rejected token.
second_stale :
    (authenticate services two_sources
      (text "GET")
      (with_cookies (text "ca=old; cb=old" ∷ []))
      new_basic_registry).0.0
    ≡ answered (unauthorized invalid_claims (bearer_invalid none ∷ []))
unfolding authenticate step_jwt take_refresh_cookies take_cookies refresh_names take_lines
    take_parts key_of_part value_of unquote_left unquote_right split_on trim_space trim_left
    trim_right cut join ◌==◌ refresh refresh_sources drop_stale_login enforce_jwt enforce_token
    try_candidates classify jwt_sources_by_issuer extract_token_from extract_at extract_from located
    strip_prefix take drop denied_local_subject part_named cookies
second_stale = refl

abbrev pub basic_only : Config
basic_only = record {
  auth = record {
    jwt = [];
    saml = none;
    login_page = none;
    basic = some (record {
      disabled = false;
      realm = text "r";
      users = record { username = text "al"; password_hash = text "pw" } ∷ [];
    });
  };
  acl = [];
  prom_label_proxy = none;
  resource_metadata = none;
}

abbrev pub carried : Carried
carried = record {
  header = λ name. if name == text "Authorization" then text "Basic x" else [];
  cookie_lines = [];
  query = λ name. [];
}

abbrev get_root : Request
get_root = record { method = text "GET"; path = text "/"; raw_path = [] }

al_allowed :
    (authenticate services basic_only (text "GET") carried new_basic_registry).0.0
    ≡ allowed (some (basic_principal (text "al"))) carried
unfolding authenticate take_refresh_cookies refresh_names enforce_basic extract_basic take
    equal_fold to_lower verify lookup lookup_negative store key basic_fingerprint user_parts join
    find put delete hash_for hash_from ◌==◌
al_allowed = refl

authenticate-Entered_example :
    Entered services basic_only new_basic_registry (some (basic_principal (text "al"))) carried
    × (some (basic_principal (text "al")) ≡ none → auth_enabled basic_only.auth ≡ false)
authenticate-Entered_example =
    authenticate-Entered services basic_only (text "GET") carried new_basic_registry
      (some (basic_principal (text "al"))) carried (λ e. cc) al_allowed

al_forwarded :
    (serve services 1 basic_only get_root carried new_basic_registry).0.0
    ≡ forwarded (some (basic_principal (text "al"))) carried unscoped
unfolding serve own_route callback_source is_login_route is_logout_route has_prefix cut_prefix
    reconcile authorize resolve_prom_labels authenticate take_refresh_cookies refresh_names
    enforce_basic extract_basic take equal_fold to_lower verify lookup lookup_negative store key
    basic_fingerprint user_parts join find put delete hash_for hash_from ◌==◌
al_forwarded = refl

serve-forwarded_example :
    Passed services 1 basic_only get_root carried new_basic_registry
      (some (basic_principal (text "al")))
      carried
      unscoped
    × (some (basic_principal (text "al")) ≡ none → auth_enabled basic_only.auth ≡ false)
serve-forwarded_example =
    serve-forwarded services 1 basic_only get_root carried new_basic_registry
      (some (basic_principal (text "al"))) carried unscoped (λ e. cc) al_forwarded
