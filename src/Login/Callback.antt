-- ===== src/Login/Callback.antt =====
-- internal/authn/login.go: a login at an identity provider, from the redirect to it to the callback,
-- and the reference that the browser returns to. The endpoints, the exchange of a code, the parsing
-- of URLs, and base64 with JSON are parameters.
pub mod ReturnTo
pub mod Token
pub mod Sound
pub mod Tests
use token_auth_proxy.Common.{
  ℕ, ◌-◌, Bool, true, false, not, ◌||◌, Option, none, some, List, [], ◌∷◌, ◌++◌, is_empty,
  if◌then◌else◌, ltb, eqb, length, any,
}
use Prim.Native.Nat.{◌/◌}
use token_auth_proxy.Text.{Text, text, ◌==◌, has_prefix}
use token_auth_proxy.Config.{JwtSource, JwtLogin}
use token_auth_proxy.Acl.{Claim, str, claim_of}
use token_auth_proxy.Jwt.{
  Carried, take, Tokens, Reason, keys_unavailable, login_unavailable, Parsed, claims, failed,
  verify,
}
use token_auth_proxy.Login.{SetCookie, set, clear, max_cookie_value_len, set_session}

abbrev pub root : Text
root = text "/"

abbrev pub login_path_prefix : Text
login_path_prefix = text "/_tap/login"

abbrev pub logout_path : Text
logout_path = text "/_tap/logout"

-- What url.Parse reads, and the reference that RequestURI writes of it.
pub record ReturnUrl : Type 0 where
  pub scheme : Text
  pub host : Text
  pub path : Text
  pub request_uri : Text

-- Backslash, carriage return and line feed.
abbrev pub splits_header : ℕ → Bool
splits_header c = eqb c 92 || (eqb c 13 || eqb c 10)

-- The proxy's own routes.
abbrev pub is_own : Text → Bool
is_own path =
    path == logout_path
    || (path == login_path_prefix || has_prefix path (login_path_prefix ++ root))

abbrev pub string_of : Claim → Text
string_of (str s) = s
string_of _ = []

module _ (parse_url : Text → Option ReturnUrl) where
  abbrev reference_of : Option ReturnUrl → Text
  reference_of none = root
  reference_of (some u) =
      if not (is_empty u.scheme) || not (is_empty u.host)
      then root
      else if is_own u.path
      then root
      else u.request_uri

  unfoldable pub sanitize_return_to : Text → Text
  sanitize_return_to raw =
      if is_empty raw
        || (not (has_prefix raw root) || (has_prefix raw (text "//") || any splits_header raw))
      then root
      else reference_of (parse_url raw)

-- The payload of the state cookie.
pub record LoginState : Type 0 where
  pub source : Text
  pub state : Text
  pub nonce : Text
  pub verifier : Text
  pub return_to : Text

-- In seconds.
abbrev pub login_state_ttl : ℕ
login_state_ttl = 600

abbrev pub login_state_key_len : ℕ
login_state_key_len = 12

abbrev pub login_state_cookie_name : Text → Text
login_state_cookie_name state = text "tap_login_state_" ++ take login_state_key_len state

pub data Failure : Type 0 where
  no_random short_state missing_cookie malformed_cookie state_mismatch idp_error missing_code :
      Failure
  exchange_failed no_id_token unusable_id_token nonce_mismatch : Failure

-- The status of the response to a failed login.
unfoldable pub failure_status : Failure → ℕ
failure_status no_random = 500
failure_status idp_error = 403
failure_status unusable_id_token = 403
failure_status nonce_mismatch = 403
failure_status exchange_failed = 502
failure_status no_id_token = 502
failure_status _ = 400

pub data IdToken : Type 0 where
  id_token : List (Text × Claim) → ℕ → IdToken
  keys_missing unusable : IdToken

-- A redirect to where the browser was, with the cookies of the session.
pub data LoginOutcome : Type 0 where
  signed_in : Text → List SetCookie → LoginOutcome
  login_failed : Failure → LoginOutcome
  not_available : Reason → LoginOutcome

-- The cookie that Start sets, and what the identity provider is asked with.
pub record Started : Type 0 where
  pub cookie : SetCookie
  pub asked_state : Text
  pub asked_nonce : Text
  pub challenge_of : Text

pub data Begun : Type 0 where
  begun : Started → Begun
  not_begun : LoginOutcome → Begun

module _ {Keys : Type 0} (tokens : Tokens Keys) (parse_url : Text → Option ReturnUrl)
    (endpoints : JwtSource → Bool) where
  open tokens use {read_cookie, keyfunc}

  module _ (encode_state : LoginState → Text) where
    abbrev pub started : JwtSource → Option (Text × Text) → Text → Text → Begun
    started src none verifier return_to = not_begun (login_failed no_random)
    started src (some (state, nonce)) verifier return_to = begun (record {
      cookie =
          set (login_state_cookie_name state)
            (encode_state (record {
              source = src.name;
              state = state;
              nonce = nonce;
              verifier = verifier;
              return_to = sanitize_return_to parse_url return_to;
            }))
            login_state_ttl;
      asked_state = state;
      asked_nonce = nonce;
      challenge_of = verifier;
    })

    -- The random state and nonce, `none` where none could be read.
    unfoldable pub start : JwtSource → Option (Text × Text) → Text → Text → Begun
    unfolding sanitize_return_to
    start src random verifier return_to =
        if not (endpoints src)
        then not_begun (not_available login_unavailable)
        else started src random verifier return_to

  -- The time of the claim `exp` in nanoseconds; the lifetime in whole seconds is 0 where it is past.
  module _ (expiration : List (Text × Claim) → Option ℕ) (now : ℕ) where
    abbrev lifetime : Text → List (Text × Claim) → Option ℕ → IdToken
    lifetime raw cs none = unusable
    lifetime raw cs (some exp) =
        let age = (exp - now) / 1000000000 in
        if eqb age 0 || ltb max_cookie_value_len (length raw) then unusable else id_token cs age

    abbrev read_claims : Text → Parsed → IdToken
    read_claims raw (failed e) = unusable
    read_claims raw (claims cs) = lifetime raw cs (expiration cs)

    abbrev under_keys : JwtSource → Text → Option Keys → IdToken
    under_keys src raw none = keys_missing
    under_keys src raw (some kf) = read_claims raw (verify tokens raw src kf)

    unfoldable pub verify_id_token : JwtSource → Text → IdToken
    verify_id_token src raw = under_keys src raw (keyfunc src)

    abbrev pub nonce_of : List (Text × Claim) → Text
    nonce_of cs = string_of (claim_of cs (text "nonce"))

    module _ (decode_state : Text → Option LoginState)
        (exchange : JwtSource → Text → Text → Option (Text × Text)) (src : JwtSource) (l : JwtLogin)
        (c : Carried) where
      abbrev accepted : LoginState → Text → Text → IdToken → LoginOutcome
      accepted st raw refresh keys_missing = not_available keys_unavailable
      accepted st raw refresh unusable = login_failed unusable_id_token
      accepted st raw refresh (id_token cs age) =
          if not (nonce_of cs == st.nonce)
          then login_failed nonce_mismatch
          else signed_in (sanitize_return_to parse_url st.return_to) (set_session l raw age refresh)

      -- The ID token, empty where the response has none, and the refresh token.
      abbrev exchanged : LoginState → Option (Text × Text) → LoginOutcome
      exchanged st none = login_failed exchange_failed
      exchanged st (some (raw, refresh)) =
          if is_empty raw
          then login_failed no_id_token
          else accepted st raw refresh (verify_id_token src raw)

      abbrev with_state : Option LoginState → LoginOutcome
      with_state none = login_failed malformed_cookie
      with_state (some st) =
          if not (st.source == src.name)
          then login_failed malformed_cookie
          else if not (c.query (text "state") == st.state) || is_empty st.state
          then login_failed state_mismatch
          else if not (is_empty (c.query (text "error")))
          then login_failed idp_error
          else if is_empty (c.query (text "code"))
          then login_failed missing_code
          else if not (endpoints src)
          then not_available login_unavailable
          else exchanged st (exchange src (c.query (text "code")) st.verifier)

      -- The state cookie is cleared once it was found.
      abbrev with_cookie : Option Text → LoginOutcome × List SetCookie
      with_cookie none = (login_failed missing_cookie, [])
      with_cookie (some v) = (
        with_state (decode_state v),
        clear (login_state_cookie_name (c.query (text "state"))) ∷ [],
      )

      unfoldable pub callback : LoginOutcome × List SetCookie
      unfolding verify_id_token sanitize_return_to set_session
      callback =
          if ltb (length (c.query (text "state"))) login_state_key_len
          then (login_failed short_state, [])
          else with_cookie
              (read_cookie c.cookie_lines (login_state_cookie_name (c.query (text "state"))))
