-- ===== src/Oauth/Tokens/Codes.antt =====
-- Which authorization codes give tokens, and which requests get as far as a login.
use token_auth_proxy.Common.{
  ℕ, ◌≡◌, ◌≢◌, ◌≤◌, refl, sym, ap, ◌∙◌, ◌⊎◌, inl, inr, Bool, true, false, Option, none, some, ◌∷◌,
  ltb, length, All, Bool-cases, Option-cases, subst, arith, if◌then◌else◌,
}
use token_auth_proxy.Text.{Text}
use token_auth_proxy.Oauth.Seal.{seal, open_token, kind_pending, kind_done}
use token_auth_proxy.Oauth.Seal.Opened.{Authentic, Rejects, open_token-kind}
use token_auth_proxy.Oauth.Clients.{Settings}
use token_auth_proxy.Oauth.Tokens.{
  unix, ReqData, AuthReq, not_found, expired, Outcome, ok, err, Storage, denied, unexpired,
  opened_request, auth_request_by_id, request_under, judge_finished, finished, auth_request_by_code,
}

pub not_ltb : (a b : ℕ) → ltb a b ≡ false → b ≤ a
not_ltb a b h = ground arith

module _ (s : Storage) where
  open s use {base64, requests, decrypt, sealer, settings, clients, uris}

  -- A login that was finished, whose code has not expired, by a person who is not denied.
  pub record Finished (now : ℕ) (id : Text) (req : AuthReq) : Type 0 where
    pub opened : open_token base64 requests sealer kind_done id ≡ some req.d
    pub in_time : unix now ≤ req.d.exp
    pub not_denied : denied s req.d.sub ≡ false

  unexpired-ok :
      (now : ℕ) (id : Text) (done : Bool) (srv : Settings) (d : ReqData) (req : AuthReq)
      → unexpired s now id done srv d ≡ ok req
      → (req.d ≡ d) × (req.done ≡ done) × (unix now ≤ d.exp)
  unexpired-ok now id done srv d req h = elim (Bool-cases (ltb d.exp (unix now))) [
    | inl t ↦ absurd (let k : err expired ≡ ok req = rw (t, unexpired) at h in cc)
    | inr f ↦
        let k : ok (record { d = d; id = id; done = done; audience = srv.audience }) ≡ ok req =
          rw (f, unexpired) at h in
        let e : record { d = d; id = id; done = done; audience = srv.audience } ≡ req = cc in
        (
          sym (ap (λ (x : AuthReq). x.d) e),
          sym (ap (λ (x : AuthReq). x.done) e),
          not_ltb d.exp (unix now) f,
        )
  ]

  finished-Finished :
      (now : ℕ) (id : Text) (srv : Settings) (o p : Option ReqData) (req : AuthReq)
      → open_token base64 requests sealer kind_done id ≡ o
      → finished s (opened_request s now id srv o p) ≡ ok req
      → Finished now id req
  finished-Finished now id srv none none req e h = absurd cc
  finished-Finished now id srv none (some d) req e h =
      absurd (pending (unexpired s now id false srv d) refl h)
    where
      unfinished : (r : AuthReq) (b c : Bool) → b ≡ false → judge_finished s r b c ≡ ok req → ⊥
      unfinished r true c k m = cc
      unfinished r false c k m = cc

      pending :
          (q : Outcome AuthReq) → unexpired s now id false srv d ≡ q → finished s q ≡ ok req → ⊥
      pending (err x) k m = cc
      pending (ok r) k m =
          let (_, done, _) = unexpired-ok now id false srv d r k in
          unfinished r r.done (denied s r.d.sub) done m
  finished-Finished now id srv (some d) p req e h = done (unexpired s now id true srv d) refl h
    where
      allowed :
          (r : AuthReq) (b c : Bool) → judge_finished s r b c ≡ ok req → (r ≡ req) × (c ≡ false)
      allowed r false c m = absurd cc
      allowed r true true m = absurd cc
      allowed r true false m = (cc, refl)

      done :
          (q : Outcome AuthReq)
          → unexpired s now id true srv d ≡ q
          → finished s q ≡ ok req
          → Finished now id req
      done (err x) k m = absurd cc
      done (ok r) k m =
          let (same, is_done, in_time) = unexpired-ok now id true srv d r k in
          let (q, f) = allowed r r.done (denied s r.d.sub) m in
          subst (Finished now id) q (record {
            opened = e ∙ ap some (sym same);
            in_time = subst (λ x. unix now ≤ x.exp) (sym same) in_time;
            not_denied = f;
          })

  -- A code gives a request to issue tokens for only if it decrypts to the token of a login that was
  -- finished, before the code expires, and the subject is not on the denylist at that moment.
  auth_request_by_code-Finished :
      (now : ℕ) (code : Text) (req : AuthReq)
      → auth_request_by_code s now code ≡ ok req
      → (id : Text) × (decrypt code ≡ some id) × Finished now id req
  unfolding auth_request_by_code auth_request_by_id
  auth_request_by_code-Finished now code req h = elim (Option-cases (decrypt code)) [
    | inl n ↦ absurd (let k : err not_found ≡ ok req = rw (n, auth_request_by_code) at h in cc)
    | inr (id, e) ↦ (id, e, under id settings (rw (e, auth_request_by_code) at h))
  ]
    where
      under :
          (id : Text) (o : Option Settings)
          → finished s (request_under s now id o) ≡ ok req
          → Finished now id req
      under id none k = absurd cc
      under id (some srv) k =
          finished-Finished now id srv (open_token base64 requests sealer kind_done id) _ req refl k

  -- A code made of a login request that nobody has finished gives no tokens, at no time, provided
  -- that the cipher is authentic, each key opens only what it sealed, and base64 round-trips.
  pub auth_request_by_code-pending :
      (now : ℕ) (code nonce : Text) (d : ReqData) (req : AuthReq)
      → Authentic sealer.first
      → length nonce ≡ sealer.first.nonce_size
      → All (λ b. (b ≡ sealer.first) ⊎ Rejects sealer.first b) (sealer.first ∷ sealer.others)
      → ((raw : Text) → base64.decode (base64.encode raw) ≡ some raw)
      → decrypt code ≡ some (seal base64 requests sealer nonce kind_pending d)
      → auth_request_by_code s now code ≢ ok req
  auth_request_by_code-pending now code nonce d req auth n keys round made h =
      let (id, e, fin) = auth_request_by_code-Finished now code req h in
      let same : id ≡ seal base64 requests sealer nonce kind_pending d = cc in
      let shut =
        open_token-kind base64 requests sealer sealer nonce kind_pending kind_done d auth n
          (λ z. cc) keys round in
      let clash : none ≡ some req.d =
        sym shut ∙ ap (open_token base64 requests sealer kind_done) (sym same) ∙ fin.opened in
      cc

  -- A text that opens as a finished login is that login, until it expires.
  pub auth_request_by_id-done :
      (now : ℕ) (id : Text) (srv : Settings) (d : ReqData)
      → settings ≡ some srv
      → open_token base64 requests sealer kind_done id ≡ some d
      → auth_request_by_id s now id ≡ (
          if ltb d.exp (unix now)
          then err expired
          else ok (record { d = d; id = id; done = true; audience = srv.audience }))
  unfolding auth_request_by_id
  auth_request_by_id-done now id srv d on opened =
      ap (request_under s now id) on
      ∙ ap (λ o. opened_request s now id srv o (open_token base64 requests sealer kind_pending id))
          opened
