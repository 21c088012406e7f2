-- ===== src/Oauth/Tokens/Lifetime.antt =====
-- How long a login lasts, however often its refresh token is renewed.
use token_auth_proxy.Common.{
  ℕ, ◌+◌, ◌*◌, ◌≡◌, ◌≤◌, refl, sym, ap, ◌∙◌, inl, inr, false, Option, none, some, List, [], ◌∷◌,
  ltb, All, Bool-cases, Option-cases, subst,
}
use token_auth_proxy.Text.{Text}
use token_auth_proxy.Oauth.Seal.{seal, open_token, kind_refresh}
use token_auth_proxy.Oauth.Clients.{Settings}
use token_auth_proxy.Oauth.Tokens.{
  unix, RefreshData, AuthReq, RefreshReq, disabled, invalid_refresh_token, Outcome, ok, err,
  Storage, denied, refresh_of_login, refresh_token_for_login, refresh_token_for_renewal, usable,
  token_request_by_refresh_token, with_scopes,
}
use token_auth_proxy.Oauth.Tokens.Codes.{not_ltb}

-- One renewal: when, the nonce that its new token is sealed with, and the scopes asked for.
pub record Renewal : Type 0 where
  pub at : ℕ
  pub nonce : Text
  pub scopes : List Text

module _ (s : Storage) where
  open s use {base64, refreshes, sealer, settings}

  abbrev opens : Text → Option RefreshData
  opens token = open_token base64 refreshes sealer kind_refresh token

  -- What is sealed with the nonce opens again.
  abbrev pub Reopens : Text → Type 0
  Reopens nonce =
      (d : RefreshData) → opens (seal base64 refreshes sealer nonce kind_refresh d) ≡ some d

  abbrev renewal_of : Renewal → Outcome RefreshReq → Outcome Text
  renewal_of step (err e) = err e
  renewal_of step (ok r) = refresh_token_for_renewal s step.nonce (with_scopes s step.scopes r)

  abbrev then_all : (Text → Outcome Text) → Outcome Text → Outcome Text
  then_all next (err e) = err e
  then_all next (ok token) = next token

  -- A refresh token is renewed by each step in turn.
  unfoldable pub renew_all : List Renewal → Text → Outcome Text
  renew_all [] token = ok token
  renew_all (step ∷ steps) token =
      then_all (renew_all steps) (renewal_of step (token_request_by_refresh_token s step.at token))

  -- A token request is served only in time and for a person who is not denied.
  pub record Usable (now : ℕ) (d : RefreshData) (r : RefreshReq) : Type 0 where
    pub same : r.d ≡ d
    pub in_time : unix now ≤ d.exp
    pub not_denied : denied s d.sub ≡ false

  token_request-Usable :
      (now : ℕ) (token : Text) (r : RefreshReq)
      → token_request_by_refresh_token s now token ≡ ok r
      → (d : RefreshData) × (opens token ≡ some d) × Usable now d r
  unfolding token_request_by_refresh_token
  token_request-Usable now token r h = elim (Option-cases settings) [
    | inl n ↦
        absurd (let k : err disabled ≡ ok r = rw (n, token_request_by_refresh_token) at h in cc)
    | inr (srv, on) ↦ use_of srv (opens token) refl (rw (on, token_request_by_refresh_token) at h)
  ]
    where
      use_of :
          (srv : Settings) (o : Option RefreshData)
          → opens token ≡ o
          → usable s now srv o ≡ ok r
          → (d : RefreshData) × (opens token ≡ some d) × Usable now d r
      use_of srv none e k = absurd cc
      use_of srv (some d) e k = elim (Bool-cases (ltb d.exp (unix now))) [
        | inl t ↦ absurd (let c : err invalid_refresh_token ≡ ok r = rw (t, usable) at k in cc)
        | inr f ↦ elim (Bool-cases (denied s d.sub)) [
          | inl t ↦ absurd (let c : err invalid_refresh_token ≡ ok r = rw (f, t, usable) at k in cc)
          | inr g ↦
              let c : ok (record { d = d; audience = srv.audience }) ≡ ok r =
                rw (f, g, usable) at k in
              let q : record { d = d; audience = srv.audience } ≡ r = cc in
              (
                d,
                e,
                record {
                  same = sym (ap (λ (x : RefreshReq). x.d) q);
                  in_time = not_ltb d.exp (unix now) f;
                  not_denied = g;
                },
              )
        ]
      ]

  -- A token that stems from the data: the subject and the expiry are kept.
  record Stems (d : RefreshData) (token : Text) : Type 0 where
    data_now : RefreshData
    opened : opens token ≡ some data_now
    exp : data_now.exp ≡ d.exp
    sub : data_now.sub ≡ d.sub

  renewal-seal :
      (nonce token : Text) (r : RefreshReq)
      → refresh_token_for_renewal s nonce r ≡ ok token
      → token ≡ seal base64 refreshes sealer nonce kind_refresh r.d
  unfolding refresh_token_for_renewal
  renewal-seal nonce token r h = elim (Option-cases settings) [
    | inl n ↦
        absurd (let k : err disabled ≡ ok token = rw (n, refresh_token_for_renewal) at h in cc)
    | inr (srv, on) ↦
        let k : ok (seal base64 refreshes sealer nonce kind_refresh r.d) ≡ ok token =
          rw (on, refresh_token_for_renewal) at h in
        cc
  ]

  renewal_of-Stems :
      (d : RefreshData) (step : Renewal) (token token' : Text)
      → Reopens step.nonce
      → Stems d token
      → renewal_of step (token_request_by_refresh_token s step.at token) ≡ ok token'
      → Stems d token'
  renewal_of-Stems d step token token' again st h =
      go (token_request_by_refresh_token s step.at token) refl h
    where
      go :
          (q : Outcome RefreshReq)
          → token_request_by_refresh_token s step.at token ≡ q
          → renewal_of step q ≡ ok token'
          → Stems d token'
      go (err e) k m = absurd cc
      go (ok r) k m =
          let (d', o, served) = token_request-Usable step.at token r k in
          let now_is : d' ≡ st.data_now = some_injective (sym o ∙ st.opened) in
          let keeps : r.d ≡ st.data_now = served.same ∙ now_is in
          let narrowed = (with_scopes s step.scopes r).d in
          record {
            data_now = narrowed;
            opened =
                ap opens (renewal-seal step.nonce token' (with_scopes s step.scopes r) m)
                ∙ again narrowed;
            exp = ap (λ (x : RefreshData). x.exp) keeps ∙ st.exp;
            sub = ap (λ (x : RefreshData). x.sub) keeps ∙ st.sub;
          }
        where
          some_injective : {x y : RefreshData} → some x ≡ some y → x ≡ y
          some_injective e = cc

  renew_all-Stems :
      (d : RefreshData) (steps : List Renewal) (token token' : Text)
      → All (λ step. Reopens step.nonce) steps
      → Stems d token
      → renew_all steps token ≡ ok token'
      → Stems d token'
  unfolding renew_all
  renew_all-Stems d [] token token' again st h =
      subst (Stems d) (let e : token ≡ token' = cc in e) st
  renew_all-Stems d (step ∷ steps) token token' (a, again) st h =
      go (renew_all-Stems d steps)
        (renewal_of step (token_request_by_refresh_token s step.at token)) refl h
    where
      go :
          ((t t' : Text)
            → All (λ step. Reopens step.nonce) steps
            → Stems d t
            → renew_all steps t ≡ ok t'
            → Stems d t')
          → (q : Outcome Text)
          → renewal_of step (token_request_by_refresh_token s step.at token) ≡ q
          → then_all (renew_all steps) q ≡ ok token'
          → Stems d token'
      go ih (err e) k m = absurd cc
      go ih (ok t) k m = ih t token' again (renewal_of-Stems d step token t a st k) m

  -- However often a refresh token is renewed, it is of use only up to the absolute lifetime after
  -- the login that it stems from, for the subject of that login, and while that subject is not on
  -- the denylist; provided that each sealed refresh token opens again.
  pub renew_all-Lifetime :
      (srv : Settings) (r : AuthReq) (nonce token token' : Text) (steps : List Renewal) (now : ℕ)
      (req : RefreshReq)
      → settings ≡ some srv
      → Reopens nonce
      → All (λ step. Reopens step.nonce) steps
      → refresh_token_for_login s nonce r ≡ ok token
      → renew_all steps token ≡ ok token'
      → token_request_by_refresh_token s now token' ≡ ok req
      → (unix now ≤ unix (r.d.auth_time * 1000000000 + srv.refresh_absolute_lifetime))
        × (req.d.sub ≡ r.d.sub)
        × (denied s r.d.sub ≡ false)
  unfolding refresh_token_for_login
  renew_all-Lifetime srv r nonce token token' steps now req on again all login renewals request =
      let d = refresh_of_login s srv r in
      let sealed : token ≡ seal base64 refreshes sealer nonce kind_refresh d =
        let k : ok (seal base64 refreshes sealer nonce kind_refresh d) ≡ ok token =
          rw (on, refresh_token_for_login) at login in
        cc in
      let st : Stems d token = record {
        data_now = d;
        opened = ap opens sealed ∙ again d;
        exp = refl;
        sub = refl;
      } in
      let last = renew_all-Stems d steps token token' all st renewals in
      let (d', o, served) = token_request-Usable now token' req request in
      let same : d' ≡ last.data_now =
        let e : some d' ≡ some last.data_now = sym o ∙ last.opened in cc in
      (
        subst (λ x. unix now ≤ x) (ap (λ (x : RefreshData). x.exp) same ∙ last.exp) served.in_time,
        ap (λ (x : RefreshData). x.sub) served.same
            ∙ ap (λ (x : RefreshData). x.sub) same
            ∙ last.sub,
        subst (λ x. denied s x ≡ false) (ap (λ (x : RefreshData). x.sub) same ∙ last.sub)
            served.not_denied,
      )
