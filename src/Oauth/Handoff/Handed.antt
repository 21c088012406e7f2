-- ===== src/Oauth/Handoff/Handed.antt =====
-- internal/oauth/server.go: a login is handed off only for a person who is authenticated, and the library
-- gets that person.
use token_auth_proxy.Common.{
  ℕ, ◌+◌, ◌≡◌, ◌≤◌, refl, ap, ◌∙◌, inl, inr, Bool, true, false, not, ◌&&◌, Option, none, some, [],
  ltb, length, Bool-cases, if◌then◌else◌, sym, is_empty, ◌∷◌,
}
use token_auth_proxy.Text.{Text, text, ◌==◌}
use token_auth_proxy.Acl.{Principal, claim_of}
use token_auth_proxy.Config.Oauth.{oauth_source_name}
use token_auth_proxy.Oauth.Seal.{seal, open_token, kind_pending, kind_done}
use token_auth_proxy.Oauth.Seal.Opened.{Authentic, open_token-seal}
use token_auth_proxy.Oauth.Clients.{Settings}
use token_auth_proxy.Oauth.Tokens.{
  unix, ReqData, ok, err, expired, Storage, denied, auth_request_by_id, finish_login,
}
use token_auth_proxy.Oauth.Tokens.Codes.{not_ltb, auth_request_by_id-done}
use token_auth_proxy.Oauth.Identity.{
  Identity, TokenClaims, Extracted, extract, Authenticated, responded, passed, LoginResult,
  already_responded, nobody, issued_token, allowed, login_result, identity_of, first_string,
  string_list, with_subject,
}
use token_auth_proxy.Oauth.Handoff.{
  Login, LoginAnswer, handed_off, finished_data, hand_off, after_login, login_for, login_under,
  serve_login,
}

-- The person whom authenticate found, who did not sign in by a token of the server itself.
pub record Person (a : Authenticated) (who : Identity) : Type 0 where
  pub principal : Principal
  pub found : a ≡ passed (some principal)
  pub not_issued : (principal.mode == text "jwt" && principal.source == oauth_source_name) ≡ false
  pub same : who ≡ identity_of principal

login_result-Person :
    (a : Authenticated) (who : Identity) → login_result a ≡ allowed who → Person a who
unfolding login_result
login_result-Person responded who h = absurd cc
login_result-Person (passed none) who h = absurd cc
login_result-Person (passed (some p)) who h =
    elim (Bool-cases (p.mode == text "jwt" && p.source == oauth_source_name)) [
      | inl t ↦ absurd (let k : issued_token ≡ allowed who = rw t at h in cc)
      | inr f ↦
          let k : allowed (identity_of p) ≡ allowed who = rw f at h in
          record { principal = p; found = refl; not_issued = f; same = cc }
    ]

-- What a token will say of a person: the user name, or without one the claim of the subject, and the
-- claims of the email and the groups.
pub record Described (names : TokenClaims) (p : Principal) (e : Extracted) : Type 0 where
  pub sub_is :
      e.sub
      ≡ (if is_empty p.username then first_string (claim_of p.claims names.subject) else p.username)
  pub sub_given : is_empty e.sub ≡ false
  pub email_is : e.email ≡ first_string (claim_of p.claims names.email)
  pub groups_are : e.groups ≡ string_list (claim_of p.claims names.groups)

extract-Described :
    (names : TokenClaims) (p : Principal) (who : Identity) (e : Extracted)
    → who ≡ identity_of p
    → extract names who ≡ some e
    → Described names p e
extract-Described names p who e same h =
    given
      (if is_empty p.username then first_string (claim_of p.claims names.subject) else p.username)
      refl
      (let k : extract names (identity_of p) ≡ some e = ap (extract names) (sym same) ∙ h in
        unfold extract in k)
  where
    given :
        (sub : Text)
        → (if is_empty p.username
            then first_string (claim_of p.claims names.subject)
            else p.username)
          ≡ sub
        → with_subject names (identity_of p) sub ≡ some e
        → Described names p e
    given [] s k = absurd cc
    given (c ∷ t) s k =
        let own : record {
          sub = c ∷ t;
          email = first_string (claim_of p.claims names.email);
          groups = string_list (claim_of p.claims names.groups);
        }
            ≡ e =
          cc in
        record {
          sub_is = sym (ap (λ (x : Extracted). x.sub) own) ∙ sym s;
          sub_given = ap (λ (x : Extracted). is_empty x.sub) (sym own);
          email_is = ap (λ (x : Extracted). x.email) (sym own);
          groups_are = ap (λ (x : Extracted). x.groups) (sym own);
        }

module _ (s : Storage) (names : TokenClaims) where
  open s use {base64, requests, sealer, settings}

  -- What a login that is handed off went through.
  pub record Handed (method id : Text) (l : Login) (token : Text) : Type 0 where
    pub srv : Settings
    pub on : settings ≡ some srv
    pub pending : ReqData
    pub opened : open_token base64 requests sealer kind_pending id ≡ some pending
    pub in_time : unix l.checked_at ≤ pending.exp
    pub who : Identity
    pub person : Person l.authenticated who
    pub extracted : Extracted
    pub described : Described names person.principal extracted
    pub not_denied : denied s extracted.sub ≡ false
    pub permitted : l.permit extracted ≡ true
    pub sealed :
        token
        ≡ seal base64 requests sealer l.nonce kind_done (record pending {
          sub = extracted.sub;
          email = extracted.email;
          groups = extracted.groups;
          mode = person.principal.mode;
          auth_time = unix l.finished_at;
          exp = unix (l.finished_at + srv.code_ttl);
        })

  finished_data-fields :
      (l : Login) (srv : Settings) (d : ReqData) (who : Identity) (e : Extracted)
      (p : Person l.authenticated who)
      → finished_data s names l srv d e who ≡ record d {
        sub = e.sub;
        email = e.email;
        groups = e.groups;
        mode = p.principal.mode;
        auth_time = unix l.finished_at;
        exp = unix (l.finished_at + srv.code_ttl);
      }
  unfolding finish_login
  finished_data-fields l srv d who e p =
      ap
        (λ (x : Identity). record d {
          sub = e.sub;
          email = e.email;
          groups = e.groups;
          mode = x.mode;
          auth_time = unix l.finished_at;
          exp = unix (l.finished_at + srv.code_ttl);
        })
        p.same

  module _ (method id : Text) (l : Login) (token : Text) where
    hand_off-Handed :
        (srv : Settings) (d : ReqData) (who : Identity) (o : Option Extracted)
        → settings ≡ some srv
        → open_token base64 requests sealer kind_pending id ≡ some d
        → unix l.checked_at ≤ d.exp
        → Person l.authenticated who
        → extract names who ≡ o
        → hand_off s names l srv d who o ≡ handed_off token
        → Handed method id l token
    hand_off-Handed srv d who none a b c e x h = absurd cc
    hand_off-Handed srv d who (some e) a b c p x h =
        judged (denied s e.sub) (l.permit e) refl refl h
      where
        judged :
            (refused ok_by_rules : Bool)
            → denied s e.sub ≡ refused
            → l.permit e ≡ ok_by_rules
            → (if refused
                then LoginAnswer.denied_subject
                else if not ok_by_rules
                then LoginAnswer.not_permitted
                else handed_off (
                    seal base64 requests sealer l.nonce kind_done
                      (finished_data s names l srv d e who)))
              ≡ handed_off token
            → Handed method id l token
        judged true b' m n k = absurd cc
        judged false false m n k = absurd cc
        judged false true m n k = record {
          srv = srv;
          on = a;
          pending = d;
          opened = b;
          in_time = c;
          who = who;
          person = p;
          extracted = e;
          described = extract-Described names p.principal who e p.same x;
          not_denied = m;
          permitted = n;
          sealed =
              let own : seal base64 requests sealer l.nonce kind_done
                    (finished_data s names l srv d e who)
                  ≡ token =
                cc in
              sym own
              ∙ ap (seal base64 requests sealer l.nonce kind_done)
                  (finished_data-fields l srv d who e p);
        }

    after_login-Handed :
        (srv : Settings) (d : ReqData) (r : LoginResult)
        → settings ≡ some srv
        → open_token base64 requests sealer kind_pending id ≡ some d
        → unix l.checked_at ≤ d.exp
        → login_result l.authenticated ≡ r
        → after_login s names l srv d r ≡ handed_off token
        → Handed method id l token
    after_login-Handed srv d already_responded a b c e h = absurd cc
    after_login-Handed srv d nobody a b c e h = absurd cc
    after_login-Handed srv d issued_token a b c e h = absurd cc
    after_login-Handed srv d (allowed who) a b c e h =
        hand_off-Handed srv d who (extract names who) a b c
          (login_result-Person l.authenticated who e) refl h

    login_for-Handed :
        (srv : Settings) (o : Option ReqData)
        → settings ≡ some srv
        → open_token base64 requests sealer kind_pending id ≡ o
        → login_for s names l srv o ≡ handed_off token
        → Handed method id l token
    login_for-Handed srv none a b h = absurd cc
    login_for-Handed srv (some d) a b h = elim (Bool-cases (ltb d.exp (unix l.checked_at))) [
      | inl t ↦ absurd (let k : LoginAnswer.invalid_request ≡ handed_off token = rw t at h in cc)
      | inr f ↦
          after_login-Handed srv d (login_result l.authenticated) a b
            (not_ltb d.exp (unix l.checked_at) f) refl (rw f at h)
    ]

    login_under-Handed :
        (o : Option Settings) (built : Bool)
        → settings ≡ o
        → login_under s names built method id l o ≡ handed_off token
        → (built ≡ true) × Handed method id l token
    login_under-Handed none built a h = absurd cc
    login_under-Handed (some srv) false a h = absurd cc
    login_under-Handed (some srv) true a h = elim (Bool-cases (method == text "GET")) [
      | inl t ↦ (
        refl,
        login_for-Handed srv (open_token base64 requests sealer kind_pending id) a refl (rw t at h),
      )
      | inr f ↦ absurd (let k : LoginAnswer.only_get ≡ handed_off token = rw f at h in cc)
    ]

    -- A login is handed off only while the server is built and on, for a pending login request that has
    -- not expired, to a person whom a login of the proxy found and who did not come by a token of the
    -- server itself, whose subject is not denied and whom the access rules would let in. Of that person
    -- the subject is the user name, or without one the claim of the subject, and is not empty, and the
    -- email and the groups are the claims of them. What the library reads back of what was sealed is
    -- that pending request with this subject, email and groups, the mode of the person, the time of the
    -- hand-off, and an expiry that is the code's lifetime later, up to which it is read back, and not
    -- afterwards; if the first key is authentic and the encodings give back what they are given.
    pub serve_login-Handed :
        (built : Bool) (now : ℕ)
        → serve_login s names built method id l ≡ handed_off token
        → Authentic sealer.first
        → length l.nonce ≡ sealer.first.nonce_size
        → ((raw : Text) → base64.decode (base64.encode raw) ≡ some raw)
        → ((d : ReqData) → requests.unmarshal (requests.marshal d) ≡ some d)
        → (built ≡ true)
          × ((h : Handed method id l token) × (auth_request_by_id s now token ≡ (
                if ltb (unix (l.finished_at + h.srv.code_ttl)) (unix now)
                then err expired
                else ok (record {
                  d = record h.pending {
                    sub = h.extracted.sub;
                    email = h.extracted.email;
                    groups = h.extracted.groups;
                    mode = h.person.principal.mode;
                    auth_time = unix l.finished_at;
                    exp = unix (l.finished_at + h.srv.code_ttl);
                  };
                  id = token;
                  done = true;
                  audience = h.srv.audience;
                }))))
    unfolding serve_login
    serve_login-Handed built now e auth size round same =
        let (is_built, h) = login_under-Handed settings built refl e in
        let d : ReqData = record h.pending {
          sub = h.extracted.sub;
          email = h.extracted.email;
          groups = h.extracted.groups;
          mode = h.person.principal.mode;
          auth_time = unix l.finished_at;
          exp = unix (l.finished_at + h.srv.code_ttl);
        } in
        let opens : open_token base64 requests sealer kind_done token ≡ some d =
          ap (open_token base64 requests sealer kind_done) h.sealed
          ∙ open_token-seal base64 requests sealer sealer [] sealer.others l.nonce kind_done d auth
              size refl tt round (same d) in
        (is_built, (h, auth_request_by_id-done s now token h.srv d h.on opens))
