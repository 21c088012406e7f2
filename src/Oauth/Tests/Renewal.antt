-- ===== src/Oauth/Tests/Renewal.antt =====
-- A refresh token that is renewed once, with an encoding that gives back what it is given.
use token_auth_proxy.Common.{
  ℕ, zero, suc, ◌+◌, ◌*◌, ◌≡◌, ◌≤◌, refl, sym, ap, ◌∙◌, false, Option, none, some, List, [], ◌∷◌,
  ◌++◌, length, append_assoc, append-nil,
}
use token_auth_proxy.Text.{Text, text, ◌==◌, equal_fold, to_lower}
use token_auth_proxy.Jwt.{take, drop}
use token_auth_proxy.Oauth.Seal.{seal, open_token, open_raw, kind_refresh}
use token_auth_proxy.Oauth.Seal.Opened.{take-append, drop-append, open_token-seal}
use token_auth_proxy.Oauth.Clients.{denylisted}
use token_auth_proxy.Oauth.Tokens.{
  unix, RefreshData, ok, Storage, denied, refresh_token_for_login, refresh_token_for_renewal,
  token_request_by_refresh_token,
}
use token_auth_proxy.Oauth.Tokens.Lifetime.{Renewal, Reopens, renew_all, renew_all-Lifetime}
use token_auth_proxy.Oauth.Tests.{
  toy-Authentic, old_sealer, plain_base64, storage, request, settings,
}

-- A text behind its length, and a list of texts behind its length.
abbrev pub enc : Text → Text
enc t = length t ∷ t

abbrev pub dec : Text → Text × Text
dec [] = ([], [])
dec (n ∷ s) = (take n s, drop n s)

dec-enc : (t rest : Text) → dec (enc t ++ rest) ≡ (t, rest)
dec-enc t rest = λ i. (take-append t rest i, drop-append t rest i)

abbrev pub enc_many : List Text → Text
enc_many [] = []
enc_many (t ∷ ts) = enc t ++ enc_many ts

abbrev pub dec_many : ℕ → Text → List Text × Text
dec_many zero s = ([], s)
dec_many (suc n) s = let rest = dec_many n (dec s).1 in ((dec s).0 ∷ rest.0, rest.1)

pub dec_many-enc :
    (ts : List Text) (rest : Text) → dec_many (length ts) (enc_many ts ++ rest) ≡ (ts, rest)
dec_many-enc [] rest = refl
dec_many-enc (t ∷ ts) rest =
    let shape : enc_many (t ∷ ts) ++ rest ≡ enc t ++ (enc_many ts ++ rest) =
      append_assoc (enc t) (enc_many ts) rest in
    ap (λ (x : Text). dec_many (length (t ∷ ts)) x) shape
    ∙ ap (λ (q : Text × Text). ((q.0 ∷ (dec_many (length ts) q.1).0), (dec_many (length ts) q.1).1))
        (dec-enc t (enc_many ts ++ rest))
    ∙ ap (λ (q : List Text × Text). ((t ∷ q.0), q.1)) (dec_many-enc ts rest)

abbrev marshal : RefreshData → Text
marshal d =
    d.auth_time
    ∷ d.exp
    ∷ length d.groups
    ∷ length d.scopes
    ∷ (enc_many d.groups
        ++ (enc_many d.scopes ++ enc_many (d.sub ∷ d.email ∷ d.mode ∷ d.client_id ∷ [])))

-- The four texts behind the two lists.
abbrev fields : ℕ → ℕ → List Text → List Text → List Text → Option RefreshData
fields auth_time exp groups scopes (sub ∷ email ∷ mode ∷ client_id ∷ rest) = some (record {
  sub = sub;
  email = email;
  groups = groups;
  mode = mode;
  client_id = client_id;
  scopes = scopes;
  auth_time = auth_time;
  exp = exp;
})
fields auth_time exp groups scopes _ = none

abbrev after_scopes : ℕ → ℕ → List Text → List Text × Text → Option RefreshData
after_scopes a e groups (scopes, s) = fields a e groups scopes (dec_many 4 s).0

abbrev after_groups : ℕ → ℕ → ℕ → List Text × Text → Option RefreshData
after_groups a e n (groups, s) = after_scopes a e groups (dec_many n s)

abbrev unmarshal : Text → Option RefreshData
unmarshal (a ∷ e ∷ g ∷ n ∷ s) = after_groups a e n (dec_many g s)
unmarshal _ = none

unmarshal-marshal : (d : RefreshData) → unmarshal (marshal d) ≡ some d
unmarshal-marshal d =
    let four = d.sub ∷ d.email ∷ d.mode ∷ d.client_id ∷ [] in
    let last : Text = enc_many four in
    ap (λ (q : List Text × Text). after_groups d.auth_time d.exp (length d.scopes) q)
      (dec_many-enc d.groups (enc_many d.scopes ++ last))
    ∙ ap (λ (q : List Text × Text). after_scopes d.auth_time d.exp d.groups q)
        (dec_many-enc d.scopes last)
    ∙ ap (λ (x : Text). fields d.auth_time d.exp d.groups d.scopes (dec_many 4 x).0)
        (sym (append-nil last))
    ∙ ap (λ (q : List Text × Text). fields d.auth_time d.exp d.groups d.scopes q.0)
        (dec_many-enc four [])

abbrev sealing : Storage
sealing = record storage { refreshes = record { marshal = marshal; unmarshal = unmarshal } }

reopens : Reopens sealing (7 ∷ [])
reopens d =
    open_token-seal plain_base64 sealing.refreshes old_sealer old_sealer [] [] (7 ∷ []) kind_refresh
      d toy-Authentic refl refl tt (λ raw. refl) (unmarshal-marshal d)

abbrev login_data : RefreshData
login_data = record {
  sub = text "al";
  email = [];
  groups = [];
  mode = text "saml";
  client_id = text "c";
  scopes = [];
  auth_time = 0;
  exp = 3600;
}

abbrev token : Text
token = seal plain_base64 sealing.refreshes old_sealer (7 ∷ []) kind_refresh login_data

abbrev once : List Renewal
once = record { at = 9000000000; nonce = 7 ∷ []; scopes = [] } ∷ []

issued : refresh_token_for_login sealing (7 ∷ []) request ≡ ok token
unfolding refresh_token_for_login seal
issued = refl

renewed_once : renew_all sealing once token ≡ ok token
unfolding renew_all token_request_by_refresh_token refresh_token_for_renewal seal open_token
    open_raw take drop denied denylisted ◌==◌ equal_fold to_lower
renewed_once = refl

used :
    token_request_by_refresh_token sealing 99000000000 token
    ≡ ok (record { d = login_data; audience = text "mcp" })
unfolding token_request_by_refresh_token seal open_token open_raw take drop denied denylisted ◌==◌
    equal_fold to_lower
used = refl

renew_all-Lifetime_example :
    (unix 99000000000 ≤ unix (0 * 1000000000 + settings.refresh_absolute_lifetime))
    × (text "al" ≡ text "al")
    × (denied sealing (text "al") ≡ false)
renew_all-Lifetime_example =
    renew_all-Lifetime sealing settings request (7 ∷ []) token token once 99000000000
      (record { d = login_data; audience = text "mcp" }) refl reopens (reopens, tt) issued
      renewed_once used
