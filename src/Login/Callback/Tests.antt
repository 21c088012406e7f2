-- ===== src/Login/Callback/Tests.antt =====
-- Logins at a provider on concrete callbacks, and the theorems at concrete inputs.
use token_auth_proxy.Common.{
  ℕ, ◌≡◌, refl, ◌⊎◌, Bool, true, false, Option, none, some, List, [], ◌∷◌, if◌then◌else◌, ltb,
  length,
}
use token_auth_proxy.Text.{Text, text, ◌==◌, has_prefix, cut_prefix}
use token_auth_proxy.Config.{JwtSource, JwtLogin}
use token_auth_proxy.Acl.{Claim, str, claim_of}
use token_auth_proxy.Jwt.{Carried, Tokens, claims, take}
use token_auth_proxy.Login.{set, clear, set_session}
use token_auth_proxy.Login.Callback.{
  root, ReturnUrl, sanitize_return_to, LoginState, login_state_cookie_name, login_state_key_len,
  begun, start, signed_in, login_failed, state_mismatch, verify_id_token, callback,
}
use token_auth_proxy.Login.Callback.ReturnTo.{Within, sanitize_return_to-Within}
use token_auth_proxy.Login.Callback.Sound.{Completed, callback-Completed}

-- URLs that are a path and nothing else.
abbrev parse_url : Text → Option ReturnUrl
parse_url raw = some (record { scheme = []; host = []; path = raw; request_uri = raw })

page : sanitize_return_to parse_url (text "/page") ≡ text "/page"
unfolding sanitize_return_to has_prefix cut_prefix ◌==◌
page = refl

two_slashes : sanitize_return_to parse_url (text "//evil") ≡ root
unfolding sanitize_return_to has_prefix cut_prefix ◌==◌
two_slashes = refl

backslash : sanitize_return_to parse_url (text "/\\evil") ≡ root
unfolding sanitize_return_to has_prefix cut_prefix ◌==◌
backslash = refl

own_picker : sanitize_return_to parse_url (text "/_tap/login/jwt") ≡ root
unfolding sanitize_return_to has_prefix cut_prefix ◌==◌
own_picker = refl

sanitize_return_to-Within_example :
    (sanitize_return_to parse_url (text "/page") ≡ root)
    ⊎ Within parse_url (text "/page") (sanitize_return_to parse_url (text "/page"))
sanitize_return_to-Within_example = sanitize_return_to-Within parse_url (text "/page")

abbrev tokens : Tokens Bool
tokens = record {
  read_cookie = λ lines name.
      if name == text "tap_login_state_abcdefghijkl" then some (text "sealed") else none;
  unverified_issuer = λ raw. none;
  keyfunc = λ src. some true;
  parse = λ policy keys raw. claims ((text "nonce", str (text "n")) ∷ []);
  denied = none;
}

abbrev login : JwtLogin
login = record {
  client_id = text "proxy";
  callback_path = text "/callback";
  cookie_name = text "session";
  refresh = false;
  refresh_max_age = 0;
  client_secret = [];
  token_auth_method = [];
  scopes = text "openid" ∷ [];
  sp_base_url = text "https://proxy";
  end_session = false;
  post_logout_redirect_uri = [];
}

abbrev source : JwtSource
source = record {
  name = text "idp";
  disabled = false;
  issuer = text "iss";
  audiences = [];
  credentials = [];
  algorithms = [];
  clock_skew = 0;
  login = some login;
  is_local = false;
  jwks_url = [];
  oidc_discovery_url = text "https://idp";
  ca_cert = [];
  jwks_cache_ttl = 0;
}

abbrev state : Text
state = text "abcdefghijklm"

abbrev payload : LoginState
payload = record {
  source = text "idp";
  state = state;
  nonce = text "n";
  verifier = text "v";
  return_to = text "/page";
}

abbrev decode_state : Text → Option LoginState
decode_state s = if s == text "sealed" then some payload else none

abbrev exchange : JwtSource → Text → Text → Option (Text × Text)
exchange src code verifier = some (text "token", [])

abbrev endpoints : JwtSource → Bool
endpoints src = true

abbrev expiration : List (Text × Claim) → Option ℕ
expiration cs = some 9000000000

-- The parameters of a callback with a given state.
abbrev carried : Text → Carried
carried s = record {
  header = λ name. [];
  cookie_lines = [];
  query =
      λ name. if name == text "state" then s else if name == text "code" then text "code" else [];
}

begins :
    start tokens parse_url endpoints
      (λ st. text "sealed")
      source
      (some (state, text "n"))
      (text "v")
      (text "//evil")
    ≡ begun (record {
      cookie = set (text "tap_login_state_abcdefghijkl") (text "sealed") 600;
      asked_state = state;
      asked_nonce = text "n";
      challenge_of = text "v";
    })
unfolding start take
begins = refl

completed :
    callback tokens parse_url endpoints expiration 2500000000 decode_state exchange source login
      (carried state)
    ≡ (
      signed_in (text "/page") (set (text "session") (text "token") 6 ∷ []),
      clear (text "tap_login_state_abcdefghijkl") ∷ [],
    )
unfolding callback take ◌==◌ verify_id_token sanitize_return_to set_session has_prefix cut_prefix
    claim_of
completed = refl

-- The cookie is found by the first characters of the state; all of it is compared.
other_state :
    callback tokens parse_url endpoints expiration 2500000000 decode_state exchange source login
      (carried (text "abcdefghijklx"))
    ≡ (login_failed state_mismatch, clear (text "tap_login_state_abcdefghijkl") ∷ [])
unfolding callback take ◌==◌
other_state = refl

callback-Completed_example :
    (ltb (length state) login_state_key_len ≡ false)
    × Completed tokens parse_url endpoints expiration 2500000000 decode_state exchange source login
        (carried state)
        (text "/page")
        (set (text "session") (text "token") 6 ∷ [])
    × (clear (text "tap_login_state_abcdefghijkl") ∷ []
        ≡ clear (login_state_cookie_name state) ∷ [])
unfolding ◌==◌ take
callback-Completed_example =
    callback-Completed tokens parse_url endpoints expiration 2500000000 decode_state exchange source
      login (carried state) (text "/page") (set (text "session") (text "token") 6 ∷ [])
      (clear (text "tap_login_state_abcdefghijkl") ∷ []) completed
