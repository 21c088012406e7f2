-- ===== src/Oauth/Tests/Served.antt =====
-- A login that is handed off, a client that registers and a server that is built, with encodings that
-- give back what they are given, and the theorems at concrete inputs.
use token_auth_proxy.Common.{
  ℕ, arith, ◌+◌, ◌≡◌, refl, sym, ap, ◌∙◌, true, false, Option, none, some, List, [], ◌∷◌, ◌++◌,
  length, All, append-nil, if◌then◌else◌, ltb, eqb, ◌before◌,
}
use token_auth_proxy.Text.{Text, text, ◌==◌, equal_fold, to_lower, contains, has_prefix, cut_prefix}
use token_auth_proxy.Acl.{Principal, saml_principal, claim_of, jwt_principal}
use token_auth_proxy.Jwt.{take, drop}
use token_auth_proxy.Oauth.Seal.{seal, open_token, open_raw, kind_pending, kind_done, kind_client}
use token_auth_proxy.Oauth.Clients.{
  denylisted, static_client, lookup_client, allows_dynamic_redirect, validate_redirect_uri,
  is_loopback_host,
}
use token_auth_proxy.Oauth.Tokens.{
  unix, ReqData, ok, err, expired, Storage, denied, finish_login, auth_request_by_id,
}
use token_auth_proxy.Oauth.Identity.{
  TokenClaims, extract, first_string, string_list, passed, login_result,
}
use token_auth_proxy.Oauth.Handoff.{Login, token_no_login, handed_off, serve_login}
use token_auth_proxy.Oauth.Handoff.Handed.{Handed, serve_login-Handed}
use token_auth_proxy.Oauth.Server.{
  RegistrationRequest, registered, check_registration, serve_register,
}
use token_auth_proxy.Oauth.Server.Registered.{Accepted, serve_register-found}
use token_auth_proxy.Oauth.Registry.{ServerConfig, reconciled}
use token_auth_proxy.Oauth.Registry.Fingerprint.{CollisionFree}
use token_auth_proxy.Oauth.Registry.Current.{Current, reconciled-Current}
use token_auth_proxy.Oauth.Tests.{toy-Authentic, old_sealer, plain_base64, storage, settings}
use token_auth_proxy.Oauth.Tests.Renewal.{enc_many, dec_many, dec_many-enc}

abbrev nine : ReqData → List Text
nine d =
    d.client_id ∷ d.redirect_uri ∷ d.state ∷ d.nonce ∷ d.challenge ∷ d.method ∷ d.sub ∷ d.email
    ∷ d.mode ∷ []

abbrev marshal : ReqData → Text
marshal d =
    d.auth_time
    ∷ d.exp
    ∷ length d.groups
    ∷ length d.scopes
    ∷ (enc_many d.groups ++ (enc_many d.scopes ++ enc_many (nine d)))

abbrev fields : ℕ → ℕ → List Text → List Text → List Text → Option ReqData
fields a e groups scopes
      (client_id ∷ redirect_uri ∷ state ∷ nonce ∷ challenge ∷ method ∷ sub ∷ email ∷ mode ∷ rest) =
    some (record {
      client_id = client_id;
      redirect_uri = redirect_uri;
      state = state;
      nonce = nonce;
      scopes = scopes;
      challenge = challenge;
      method = method;
      sub = sub;
      email = email;
      groups = groups;
      mode = mode;
      auth_time = a;
      exp = e;
    })
fields a e groups scopes _ = none

abbrev after_scopes : ℕ → ℕ → List Text → List Text × Text → Option ReqData
after_scopes a e groups (scopes, s) = fields a e groups scopes (dec_many 9 s).0

abbrev after_groups : ℕ → ℕ → ℕ → List Text × Text → Option ReqData
after_groups a e n (groups, s) = after_scopes a e groups (dec_many n s)

abbrev unmarshal : Text → Option ReqData
unmarshal (a ∷ e ∷ g ∷ n ∷ s) = after_groups a e n (dec_many g s)
unmarshal _ = none

unmarshal-marshal : (d : ReqData) → unmarshal (marshal d) ≡ some d
unmarshal-marshal d =
    let last : Text = enc_many (nine d) in
    ap (λ (q : List Text × Text). after_groups d.auth_time d.exp (length d.scopes) q)
      (dec_many-enc d.groups (enc_many d.scopes ++ last))
    ∙ ap (λ (q : List Text × Text). after_scopes d.auth_time d.exp d.groups q)
        (dec_many-enc d.scopes last)
    ∙ ap (λ (x : Text). fields d.auth_time d.exp d.groups d.scopes (dec_many 9 x).0)
        (sym (append-nil last))
    ∙ ap (λ (q : List Text × Text). fields d.auth_time d.exp d.groups d.scopes q.0)
        (dec_many-enc (nine d) [])

abbrev marshal_uris : List Text → Text
marshal_uris us = length us ∷ enc_many us

abbrev unmarshal_uris : Text → Option (List Text)
unmarshal_uris [] = none
unmarshal_uris (n ∷ s) = some (dec_many n s).0

unmarshal_uris-marshal : (us : List Text) → unmarshal_uris (marshal_uris us) ≡ some us
unmarshal_uris-marshal us =
    ap (λ (x : Text). some (dec_many (length us) x).0) (sym (append-nil (enc_many us)))
    ∙ ap (λ (q : List Text × Text). some q.0) (dec_many-enc us [])

abbrev served : Storage
served = record storage {
  requests = record { marshal = marshal; unmarshal = unmarshal };
  registrations = record { marshal = marshal_uris; unmarshal = unmarshal_uris };
}

abbrev names : TokenClaims
names = record { subject = text "sub"; email = text "email"; groups = text "groups" }

abbrev waiting : ReqData
waiting = record {
  client_id = text "c";
  redirect_uri = text "http://localhost/";
  state = [];
  nonce = [];
  scopes = [];
  challenge = text "x";
  method = text "S256";
  sub = [];
  email = [];
  groups = [];
  mode = [];
  auth_time = 0;
  exp = 60;
}

abbrev waiting_id : Text
waiting_id = seal plain_base64 served.requests old_sealer (7 ∷ []) kind_pending waiting

abbrev by : Principal → Login
by p = record {
  checked_at = 5000000000;
  finished_at = 9000000000;
  nonce = 7 ∷ [];
  authenticated = passed (some p);
  permit = λ e. true;
}

abbrev al : Principal
al = saml_principal (text "al") []

abbrev token : Text
token =
    seal plain_base64 served.requests old_sealer (7 ∷ []) kind_done
      (record waiting { sub = text "al"; mode = text "saml"; auth_time = 9; exp = 69 })

handed : serve_login served names true (text "GET") waiting_id (by al) ≡ handed_off token
unfolding serve_login login_result extract finish_login denied denylisted first_string string_list
    claim_of open_token open_raw seal take drop ◌==◌ equal_fold to_lower
handed = refl

-- A token of the server itself is no login.
by_token :
    serve_login served names true (text "GET") waiting_id (by (jwt_principal (text "tap-oauth") []))
    ≡ token_no_login
unfolding serve_login login_result open_token open_raw seal take drop ◌==◌
by_token = refl

serve_login-Handed_example :
    (true ≡ true)
    × ((h : Handed served names (text "GET") waiting_id (by al) token) × (auth_request_by_id served
            20000000000 token
          ≡ (if ltb (unix (9000000000 + h.srv.code_ttl)) (unix 20000000000)
              then err expired
              else ok (record {
                d = record h.pending {
                  sub = h.extracted.sub;
                  email = h.extracted.email;
                  groups = h.extracted.groups;
                  mode = h.person.principal.mode;
                  auth_time = unix 9000000000;
                  exp = unix (9000000000 + h.srv.code_ttl);
                };
                id = token;
                done = true;
                audience = h.srv.audience;
              }))))
serve_login-Handed_example =
    serve_login-Handed served names (text "GET") waiting_id (by al) token true 20000000000 handed
      toy-Authentic refl (λ raw. refl) unmarshal-marshal

abbrev asked : RegistrationRequest
asked = record {
  redirect_uris = text "http://localhost/" ∷ [];
  client_name = [];
  auth_method = text "none";
  grant_types = [];
  response_types = [];
}

abbrev parse : Text → Option RegistrationRequest
parse body = some asked

abbrev client_id : Text
client_id =
    seal plain_base64 served.registrations old_sealer (7 ∷ []) kind_client asked.redirect_uris

accepted :
    serve_register served (text "POST") [] (7 ∷ []) parse ≡ registered client_id asked.redirect_uris
unfolding serve_register check_registration allows_dynamic_redirect validate_redirect_uri
    is_loopback_host contains has_prefix cut_prefix seal ◌before◌ ◌==◌
accepted = refl

fresh : static_client served.uris [] client_id ≡ none
unfolding static_client
fresh = refl

localhost_permitted :
    All
      (λ u. allows_dynamic_redirect served.uris settings.dynamic_registration u ≡ true)
      asked.redirect_uris
unfolding allows_dynamic_redirect validate_redirect_uri is_loopback_host contains has_prefix
    cut_prefix ◌before◌ ◌==◌
localhost_permitted = (refl, tt)

serve_register-found_example :
    Accepted served [] (7 ∷ []) parse client_id asked.redirect_uris
    × (lookup_client served.uris []
          (some settings)
          (open_token plain_base64 served.registrations old_sealer kind_client)
          client_id
        ≡ some (record { id = client_id; redirect_uris = asked.redirect_uris }))
serve_register-found_example =
    serve_register-found served [] (7 ∷ []) parse client_id asked.redirect_uris (text "POST")
      settings accepted toy-Authentic refl (λ raw. refl) unmarshal_uris-marshal fresh refl
      localhost_permitted

-- The first configuration has the server on, the others off.
abbrev config : ℕ → ServerConfig
config ptr = record {
  enabled = eqb ptr 0;
  sp_base_url = text "https://p";
  mcp_url = text "https://p/mcp";
  audience = text "mcp";
  signing_keys = [];
  sealing_keys = [];
  clients = [];
  registration_enabled = false;
  live_settings = settings;
}

abbrev build_any : ServerConfig → Option Text
build_any cfg = some cfg.mcp_url

abbrev first_or_zero : Text → ℕ
first_or_zero [] = 0
first_or_zero (c ∷ t) = c

abbrev show_length : ℕ → Text
show_length n = (n + 100) ∷ []

no_collisions : CollisionFree show_length (λ t. t)
no_collisions = record {
  printed_apart = λ m n e. let k : m + 100 ≡ n + 100 = ap first_or_zero e in omega arith;
  no_colon = λ n. (let e : eqb (n + 100) b':' ≡ false = ground arith in e, tt);
  no_collision = λ s t e. e;
}

reconciled-Current_example :
    Current show_length
      (λ t. t)
      build_any
      config
      0
      (reconciled show_length (λ t. t) build_any config (0 ∷ 1 ∷ 0 ∷ []))
reconciled-Current_example =
    reconciled-Current show_length (λ t. t) build_any no_collisions config (λ at. tt) 0 (1 ∷ 0 ∷ [])
