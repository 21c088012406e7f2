-- ===== src/Oauth/Tokens.antt =====
-- internal/oauth/storage.go, with the end of a login in server.go: login requests, codes and refresh
-- tokens. A time is in nanoseconds; an expiry in seconds of Unix time. Fields of a login request that
-- are only passed through are left to the codec's value type where no check reads them.
pub mod Lifetime
pub mod Codes
use token_auth_proxy.Common.{
  ℕ, ◌+◌, ◌*◌, Bool, true, false, not, ◌&&◌, ◌||◌, Option, none, some, List, [], ◌∷◌, is_empty,
  if◌then◌else◌, ltb,
}
use Prim.Native.Nat.{◌/◌}
use token_auth_proxy.Text.{Text, text, ◌==◌}
use token_auth_proxy.Oauth.Seal.{
  Sealer, Codec, Base64, seal, open_token, kind_pending, kind_done, kind_refresh, kind_client,
}
use token_auth_proxy.Oauth.Clients.{
  Uris, Settings, Client, denylisted, allows_redirect, lookup_client,
}

-- time.Time.Unix
abbrev pub unix : ℕ → ℕ
unix now = now / 1000000000

abbrev pub pending_ttl : ℕ
pending_ttl = 600 * 1000000000

pub record ReqData : Type 0 where
  pub client_id : Text
  pub redirect_uri : Text
  pub state : Text
  pub nonce : Text
  pub scopes : List Text
  pub challenge : Text
  pub method : Text
  pub sub : Text
  pub email : Text
  pub groups : List Text
  pub mode : Text
  pub auth_time : ℕ
  pub exp : ℕ

pub record RefreshData : Type 0 where
  pub sub : Text
  pub email : Text
  pub groups : List Text
  pub mode : Text
  pub client_id : Text
  pub scopes : List Text
  pub auth_time : ℕ
  pub exp : ℕ

-- What the OIDC library parsed of an authorization request.
pub record AuthorizeRequest : Type 0 where
  pub client_id : Text
  pub redirect_uri : Text
  pub state : Text
  pub nonce : Text
  pub scopes : List Text
  pub code_challenge : Text
  pub code_challenge_method : Text

pub record AuthReq : Type 0 where
  pub d : ReqData
  pub id : Text
  pub done : Bool
  pub audience : Text

pub record RefreshReq : Type 0 where
  pub d : RefreshData
  pub audience : Text

pub data TokenError : Type 0 where
  disabled not_registered pkce_required not_found expired invalid_refresh_token : TokenError

pub data Outcome (A : Type 0) : Type 0 where
  ok : A → Outcome A
  err : TokenError → Outcome A

-- The storage, with the encodings that it seals by and the library's decryption of codes.
pub record Storage : Type 0 where
  pub base64 : Base64
  pub requests : Codec ReqData
  pub refreshes : Codec RefreshData
  pub registrations : Codec (List Text)
  pub decrypt : Text → Option Text
  pub uris : Uris
  pub sealer : Sealer
  pub clients : List Client
  -- The settings of the running server; `none` while it is off.
  pub settings : Option Settings

module _ (s : Storage) where
  open s use {base64, requests, refreshes, registrations, decrypt, uris, sealer, clients, settings}

  unfoldable pub denied : Text → Bool
  denied sub = elim settings [ none ↦ true | some srv ↦ denylisted srv.denylist sub ]

  abbrev open_client : Text → Option (List Text)
  open_client id = open_token base64 registrations sealer kind_client id

  abbrev redirect_allowed : Option Client → Text → Bool
  redirect_allowed none raw = false
  redirect_allowed (some c) raw = allows_redirect uris c raw

  abbrev pending_data : ℕ → AuthorizeRequest → ReqData
  pending_data now r = record {
    client_id = r.client_id;
    redirect_uri = r.redirect_uri;
    state = r.state;
    nonce = r.nonce;
    scopes = r.scopes;
    challenge = r.code_challenge;
    method = r.code_challenge_method;
    sub = [];
    email = [];
    groups = [];
    mode = [];
    auth_time = 0;
    exp = unix (now + pending_ttl);
  }

  abbrev with_pkce : ℕ → Text → AuthorizeRequest → Settings → Outcome AuthReq
  with_pkce now nonce r srv =
      if is_empty r.code_challenge || not (r.code_challenge_method == text "S256")
      then err pkce_required
      else ok (record {
        d = pending_data now r;
        id = seal base64 requests sealer nonce kind_pending (pending_data now r);
        done = false;
        audience = srv.audience;
      })

  -- CreateAuthRequest; `nonce` is the one drawn for sealing.
  unfoldable pub create_auth_request : ℕ → Text → AuthorizeRequest → Outcome AuthReq
  create_auth_request now nonce r = elim settings [
    | none ↦ err disabled
    | some srv ↦
        if not (
          redirect_allowed (lookup_client uris clients settings open_client r.client_id)
            r.redirect_uri)
        then err not_registered
        else with_pkce now nonce r srv
  ]

  abbrev unexpired : ℕ → Text → Bool → Settings → ReqData → Outcome AuthReq
  unexpired now id done srv d =
      if ltb d.exp (unix now)
      then err expired
      else ok (record { d = d; id = id; done = done; audience = srv.audience })

  abbrev opened_request : ℕ → Text → Settings → Option ReqData → Option ReqData → Outcome AuthReq
  opened_request now id srv (some d) pending = unexpired now id true srv d
  opened_request now id srv none (some d) = unexpired now id false srv d
  opened_request now id srv none none = err not_found

  abbrev request_under : ℕ → Text → Option Settings → Outcome AuthReq
  request_under now id none = err disabled
  request_under now id (some srv) =
      opened_request now id srv (open_token base64 requests sealer kind_done id)
        (open_token base64 requests sealer kind_pending id)

  -- AuthRequestByID
  unfoldable pub auth_request_by_id : ℕ → Text → Outcome AuthReq
  auth_request_by_id now id = request_under now id settings

  -- By whether the login was finished and whether the subject is denied.
  abbrev judge_finished : AuthReq → Bool → Bool → Outcome AuthReq
  judge_finished req false refused = err not_found
  judge_finished req true true = err not_found
  judge_finished req true false = ok req

  abbrev finished : Outcome AuthReq → Outcome AuthReq
  finished (err e) = err e
  finished (ok req) = judge_finished req req.done (denied req.d.sub)

  -- AuthRequestByCode
  unfoldable pub auth_request_by_code : ℕ → Text → Outcome AuthReq
  unfolding auth_request_by_id denied
  auth_request_by_code now code = elim (decrypt code) [
    | none ↦ err not_found
    | some id ↦ finished (auth_request_by_id now id)
  ]

  -- CreateAccessAndRefreshTokens: the data of the refresh token, for a code and for a renewal. The
  -- expiry is fixed by the login.
  abbrev pub refresh_of_login : Settings → AuthReq → RefreshData
  refresh_of_login srv r = record {
    sub = r.d.sub;
    email = r.d.email;
    groups = r.d.groups;
    mode = r.d.mode;
    client_id = r.d.client_id;
    scopes = r.d.scopes;
    auth_time = r.d.auth_time;
    exp = unix (r.d.auth_time * 1000000000 + srv.refresh_absolute_lifetime);
  }

  unfoldable pub refresh_token_for_login : Text → AuthReq → Outcome Text
  refresh_token_for_login nonce r = elim settings [
    | none ↦ err disabled
    | some srv ↦ ok (seal base64 refreshes sealer nonce kind_refresh (refresh_of_login srv r))
  ]

  unfoldable pub refresh_token_for_renewal : Text → RefreshReq → Outcome Text
  refresh_token_for_renewal nonce r = elim settings [
    | none ↦ err disabled
    | some srv ↦ ok (seal base64 refreshes sealer nonce kind_refresh r.d)
  ]

  abbrev usable : ℕ → Settings → Option RefreshData → Outcome RefreshReq
  usable now srv none = err invalid_refresh_token
  usable now srv (some d) =
      if ltb d.exp (unix now) || denied d.sub
      then err invalid_refresh_token
      else ok (record { d = d; audience = srv.audience })

  -- TokenRequestByRefreshToken
  unfoldable pub token_request_by_refresh_token : ℕ → Text → Outcome RefreshReq
  unfolding denied
  token_request_by_refresh_token now token = elim settings [
    | none ↦ err disabled
    | some srv ↦ usable now srv (open_token base64 refreshes sealer kind_refresh token)
  ]

  -- SetCurrentScopes, by which the library narrows a renewal.
  abbrev pub with_scopes : List Text → RefreshReq → RefreshReq
  with_scopes scopes r = record { d = record r.d { scopes = scopes }; audience = r.audience }

  -- The end of ServeLogin: the request as it is sealed once a person has logged in.
  unfoldable pub finish_login : ℕ → Settings → Text → Text → List Text → Text → ReqData → ReqData
  finish_login now srv sub email groups mode d = record d {
    sub = sub;
    email = email;
    groups = groups;
    mode = mode;
    auth_time = unix now;
    exp = unix (now + srv.code_ttl);
  }
