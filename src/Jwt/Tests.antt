-- ===== src/Jwt/Tests.antt =====
-- Bearer tokens on concrete requests, and the theorems at concrete inputs.
use token_auth_proxy.Common.{
  ◌≡◌, Bool, true, false, Option, none, some, List, [], ◌∷◌, if◌then◌else◌, refl,
}
use token_auth_proxy.Text.{
  Text, text, ◌==◌, trim_space, trim_left, trim_right, equal_fold, to_lower,
}
use token_auth_proxy.Config.{JwtSource, InboundAuth, jwt_sources_by_issuer}
use token_auth_proxy.Cookies.{name_and_value}
use token_auth_proxy.Cookies.Taken.{cookies}
use token_auth_proxy.Acl.{str, jwt_principal}
use token_auth_proxy.Jwt.{
  Carried, Tokens, claims, failed, extract_from, located, strip_prefix, take, drop, extract_at,
  extract_token_from, enforce_token, enforce_jwt, try_candidates, denied_local_subject, jwt_allowed,
}
use token_auth_proxy.Jwt.Extract.{Taken, places, extract_token_from-Taken}
use token_auth_proxy.Jwt.Ends.{Ends, enforce_token-Ends}

unfoldable pub part_named : Text → List Text → Option Text
part_named name [] = none
part_named name (p ∷ ps) =
    let later = part_named name ps in
    if (name_and_value p).0 == name then some (name_and_value p).1 else later

-- One token verifies, under one key; every token names one issuer.
abbrev pub tokens : Tokens Bool
tokens = record {
  read_cookie = λ lines name. part_named name (cookies lines);
  unverified_issuer = λ raw. some (text "iss");
  keyfunc = λ src. some true;
  parse = λ policy keys raw.
      if raw == text "good"
      then claims ((text "sub", str (text "u")) ∷ [])
      else failed (record {
        token_expired = false;
        token_not_valid_yet = false;
        token_invalid_audience = false;
        token_invalid_issuer = false;
        token_signature_invalid = true;
        token_malformed = false;
        token_unverifiable = false;
      });
  denied = none;
}

abbrev pub source : Text → Text → JwtSource
source name cookie = record {
  name = name;
  disabled = false;
  issuer = text "iss";
  audiences = [];
  credentials =
      record { location = text "header"; name = text "Authorization"; prefix = text "Bearer " }
      ∷ record { location = text "cookie"; name = cookie; prefix = [] }
      ∷ [];
  algorithms = text "RS256" ∷ [];
  clock_skew = 0;
  login = some (record {
    client_id = text "c";
    callback_path = text "/cb";
    cookie_name = cookie;
    refresh = true;
    refresh_max_age = 60;
    client_secret = [];
    token_auth_method = [];
    scopes = text "openid" ∷ [];
    sp_base_url = text "https://proxy";
    end_session = false;
    post_logout_redirect_uri = [];
  });
  is_local = false;
  jwks_url = [];
  oidc_discovery_url = text "https://idp";
  ca_cert = [];
  jwks_cache_ttl = 0;
}

abbrev pub auth : InboundAuth
auth = record {
  jwt = source (text "a") (text "ca") ∷ source (text "b") (text "cb") ∷ [];
  saml = none;
  basic = none;
  login_page = none;
}

abbrev pub with_cookies : List Text → Carried
with_cookies lines = record { header = λ name. []; cookie_lines = lines; query = λ name. [] }

abbrev from_header : Carried
from_header = record {
  header = λ name. if name == text "Authorization" then text "bearer good" else [];
  cookie_lines = [];
  query = λ name. [];
}

token_found : extract_token_from tokens.read_cookie from_header auth.jwt ≡ some (text "good", none)
unfolding extract_token_from extract_at extract_from located strip_prefix take drop trim_space
    trim_left trim_right equal_fold to_lower ◌==◌
token_found = refl

extract_token_from-Taken_example :
    Taken tokens.read_cookie from_header (places auth.jwt) (text "good") none
extract_token_from-Taken_example =
    extract_token_from-Taken tokens.read_cookie from_header auth.jwt (text "good") none token_found

header_accepted :
    enforce_jwt tokens auth from_header
    ≡ jwt_allowed (jwt_principal (text "a") ((text "sub", str (text "u")) ∷ []))
unfolding enforce_jwt enforce_token try_candidates jwt_sources_by_issuer extract_token_from
    extract_at extract_from located strip_prefix take drop trim_space trim_left trim_right
    equal_fold to_lower denied_local_subject ◌==◌
header_accepted = refl

enforce_token-Ends_example :
    Ends tokens
      (text "good")
      none
      (jwt_sources_by_issuer auth (text "iss"))
      (enforce_token tokens auth (text "good") none)
enforce_token-Ends_example = enforce_token-Ends tokens auth (text "good") (text "iss") none refl
