-- ===== src/Oauth/Tests.antt =====
-- The OAuth server's tokens with a toy cipher, and the theorems at concrete inputs.
mod Renewal
mod Served
use token_auth_proxy.Common.{
  ℕ, zero, suc, ◌+◌, ◌*◌, ◌≡◌, ◌≢◌, ◌≤◌, ◌⊎◌, inl, inr, refl, sym, ap, ◌∙◌, Bool, true, false,
  Option, none, some, List, [], ◌∷◌, ◌++◌, if◌then◌else◌, eqb, ltb, length, Bool-cases, All,
}
use token_auth_proxy.Text.{
  Text, text, ◌==◌, ==_iff, contains, has_prefix, cut_prefix, equal_fold, to_lower,
}
use token_auth_proxy.Jwt.{take, drop}
use token_auth_proxy.Oauth.Seal.{
  Aead, Sealer, Codec, Base64, seal, open_token, open_raw, try_key, kind_pending, kind_done,
  kind_refresh, kind_client,
}
use token_auth_proxy.Oauth.Seal.Opened.{
  Authentic, Rejects, take-append, drop-append, open_token-seal,
}
use token_auth_proxy.Oauth.Clients.{
  Url, Uris, DynamicRegistration, Settings, Client, allows_redirect, lookup_client, static_client,
  allows_dynamic_redirect, validate_redirect_uri, is_loopback_host, denylisted,
}
use token_auth_proxy.Oauth.Tokens.{
  ReqData, RefreshData, AuthReq, Outcome, ok, Storage, auth_request_by_code, auth_request_by_id,
  denied,
}
use token_auth_proxy.Oauth.Tokens.Codes.{auth_request_by_code-pending}
use token_auth_proxy.Common.{◌before◌}

-- A sealed text says for which kind it was sealed.
abbrev toy_seal : Text → Text → Text → Text
toy_seal nonce plain kind = length kind ∷ (kind ++ plain)

abbrev toy_open : Text → Text → Text → Option Text
toy_open nonce [] kind = none
toy_open nonce (n ∷ s) kind = if take n s == kind then some (drop n s) else none

abbrev pub toy : Aead
toy = record { nonce_size = 1; seal_with = toy_seal; open_with = toy_open }

pub toy-Authentic : Authentic toy
toy-Authentic = record {
  opens = λ nonce plain kind.
      let t : (take (length kind) (kind ++ plain) == kind) ≡ true =
        (==_iff _ kind).1 (take-append kind plain) in
      rw (t) (ap (λ (x : Text). some x) (drop-append kind plain));
  binds = λ nonce plain kind kind' ne.
      elim (Bool-cases (take (length kind) (kind ++ plain) == kind')) [
        | inl t ↦ absurd (ne (sym (take-append kind plain) ∙ (==_iff _ kind').0 t))
        | inr f ↦ rw (f) refl
      ];
}

-- A newer key, which opens none of the old tokens.
abbrev newer : Aead
newer = record {
  nonce_size = 1;
  seal_with = λ nonce plain kind. plain;
  open_with = λ nonce sealed kind. none;
}

newer-Rejects : Rejects toy newer
newer-Rejects nonce plain kind kind' = go (ltb (length (nonce ++ toy_seal nonce plain kind)) 1)
  where
    go : (b : Bool) → ◌≡◌ {A = Option Text} (if b then none else none) none
    go true = refl
    go false = refl

abbrev pub plain_base64 : Base64
plain_base64 = record { encode = λ s. s; decode = λ s. some s }

abbrev text_codec : Codec Text
text_codec = record { marshal = λ s. s; unmarshal = λ s. some s }

abbrev pub old_sealer : Sealer
old_sealer = record { first = toy; others = [] }

abbrev new_sealer_of : Sealer
new_sealer_of = record { first = newer; others = toy ∷ [] }

abbrev localhost : Url
localhost = record {
  scheme = text "http";
  host = text "localhost:80";
  hostname = text "localhost";
  path = text "/";
  raw_query = [];
  fragment = [];
  has_user = false;
}

abbrev uris : Uris
uris = record { parse = λ raw. some localhost; parse_request_uri = λ raw. some localhost }

abbrev pub settings : Settings
settings = record {
  denylist = text "eve" ∷ [];
  dynamic_registration = record { enabled = true; redirect_uris = [] };
  refresh_absolute_lifetime = 3600 * 1000000000;
  code_ttl = 60 * 1000000000;
  access_token_ttl = 300 * 1000000000;
  audience = text "mcp";
}

abbrev registered : Client
registered = record { id = text "c"; redirect_uris = text "http://localhost/" ∷ [] }

abbrev opens_client : Text → Option (List Text)
opens_client id = some (text "http://localhost/" ∷ [])

client_found : lookup_client uris [] (some settings) opens_client (text "c") ≡ some registered
unfolding lookup_client static_client allows_dynamic_redirect validate_redirect_uri is_loopback_host
    contains has_prefix cut_prefix ◌before◌ ◌==◌
client_found = refl

redirect_ok : allows_redirect uris registered (text "http://localhost:99/") ≡ true
unfolding allows_redirect is_loopback_host ◌==◌
redirect_ok = refl

no_static : static_client uris [] (text "c") ≡ none
unfolding static_client
no_static = refl

abbrev login : ReqData
login = record {
  client_id = text "c";
  redirect_uri = text "http://localhost/";
  state = [];
  nonce = [];
  scopes = [];
  challenge = text "x";
  method = text "S256";
  sub = text "al";
  email = [];
  groups = [];
  mode = text "saml";
  auth_time = 0;
  exp = 60;
}

abbrev pub storage : Storage
storage = record {
  base64 = plain_base64;
  requests = record { marshal = λ d. []; unmarshal = λ s. some login };
  refreshes = record { marshal = λ d. []; unmarshal = λ s. none };
  registrations = record { marshal = λ us. []; unmarshal = λ s. none };
  decrypt = λ code. some code;
  uris = uris;
  sealer = old_sealer;
  clients = [];
  settings = some settings;
}

abbrev code : Text → Text
code kind = seal plain_base64 storage.requests old_sealer (7 ∷ []) kind login

abbrev pub request : AuthReq
request = record { d = login; id = code kind_done; done = true; audience = text "mcp" }

code_exchanged : auth_request_by_code storage 5000000000 (code kind_done) ≡ ok request
unfolding auth_request_by_code auth_request_by_id denied denylisted open_token open_raw seal take
    drop ◌==◌ equal_fold to_lower
code_exchanged = refl

auth_request_by_code-pending_example :
    auth_request_by_code storage 5000000000 (code kind_pending) ≢ ok request
auth_request_by_code-pending_example =
    auth_request_by_code-pending storage 5000000000 (code kind_pending) (7 ∷ []) login request
      toy-Authentic refl (inl refl, tt) (λ raw. refl) refl
