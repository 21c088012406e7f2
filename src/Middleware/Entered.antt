-- ===== src/Middleware/Entered.antt =====
-- Who is let on, and with which principal.
use token_auth_proxy.Common.{
  ◌≡◌, refl, ap, inl, inr, ◌⊎◌, Bool, true, false, not, ◌&&◌, ◌||◌, Option, none, some, List, [],
  ◌∷◌, if◌then◌else◌, eqb, ltb, Option-cases, subst, Bool-contra,
}
use token_auth_proxy.Text.{Text}
use token_auth_proxy.Config.{
  BasicSource, JwtSource, jwt_enabled, saml_enabled, basic_enabled, auth_enabled, login_sources,
  login_method_count,
}
use token_auth_proxy.Acl.{Principal, basic_principal, saml_principal}
use token_auth_proxy.Cookies.{take_refresh_cookies}
use token_auth_proxy.Basic.{BasicRegistry, Answer, verified, saturated, verify}
use token_auth_proxy.Jwt.{
  Carried, BasicExtraction, basic_absent, basic_malformed, basic_present, extract_basic, JwtOutcome,
  jwt_no_credential, jwt_stale, jwt_allowed, jwt_rejected, jwt_unavailable, enforce_jwt,
}
use token_auth_proxy.Login.{
  SetCookie, Refreshed, responded, going_on, LoginMethod, by_jwt, by_saml, by_basic, browser_nav,
}
use token_auth_proxy.Middleware.{
  Decision, allowed, answered, Config, Services, is_on, basic_outcome, judge_basic, enforce_basic,
  step_challenges, start_single, step_single, with_session, step_saml, run_method, step_login,
  after_jwt, renewed_again, judge_jwt, renewed, step_jwt, judged, step_basic, authenticate,
}

module _ {Keys : Type 0} (services : Services Keys) where
  open services use {
    tokens, basic_auth, hmac, compare_hash, attempt, redeem, saml_available, saml_session, base64,
    format_float,
  }

  -- How a request may have got its principal, as it is then handed on.
  pub data Entered (cfg : Config) (reg : BasicRegistry) : Option Principal → Carried → Type 0 where
    by_password :
        {c : Carried} (b : BasicSource) (user password : Text)
        → cfg.auth.basic ≡ some b
        → b.disabled ≡ false
        → extract_basic basic_auth c ≡ basic_present user password
        → (verify hmac compare_hash attempt b user password reg).0 ≡ verified true
        → Entered cfg reg (some (basic_principal user)) c
    by_token :
        {c : Carried} (p : Principal)
        → jwt_enabled cfg.auth ≡ true
        → enforce_jwt tokens cfg.auth c ≡ jwt_allowed p
        → Entered cfg reg (some p) c
    by_session :
        {c : Carried} (subject : Text) (attrs : List (Text × List Text))
        → saml_enabled cfg.auth ≡ true
        → saml_session c ≡ some (subject, attrs)
        → Entered cfg reg (some (saml_principal subject attrs)) c
    unauthenticated :
        {c : Carried}
        → jwt_enabled cfg.auth ≡ false
        → basic_enabled cfg.auth ≡ false
        → (saml_enabled cfg.auth ≡ false) ⊎ (is_on cfg.resource_metadata ≡ true)
        → Entered cfg reg none c

  abbrev pub Admits : Config → BasicRegistry → Decision → Type 0
  Admits cfg reg (answered r) = Unit
  Admits cfg reg (allowed p c) = Entered cfg reg p c

  module _ (cfg : Config) (reg : BasicRegistry) where
    -- A decision and the cookies that are set.
    abbrev Fine : Decision × List SetCookie → Type 0
    Fine q = Admits cfg reg q.0

    abbrev Off : Type 0
    Off = (saml_enabled cfg.auth ≡ false) ⊎ (is_on cfg.resource_metadata ≡ true)

    Fine-if :
        (b : Bool) (x y : Decision × List SetCookie)
        → (b ≡ true → Fine x)
        → (b ≡ false → Fine y)
        → Fine (if b then x else y)
    Fine-if true x y h k = h refl
    Fine-if false x y h k = k refl

    challenges-Fine :
        (c : Carried) (out : List SetCookie) → Off → Fine (step_challenges services cfg c out)
    unfolding step_challenges
    challenges-Fine c out off =
        Fine-if (jwt_enabled cfg.auth || basic_enabled cfg.auth) _ _ (λ t. tt)
          (λ f.
            let (a, b) = neither (jwt_enabled cfg.auth) (basic_enabled cfg.auth) f in
            unauthenticated a b off)
      where
        neither : (a b : Bool) → (a || b) ≡ false → (a ≡ false) × (b ≡ false)
        neither true b f = absurd cc
        neither false b f = (refl, f)

    start_single-Fine :
        (js : List JwtSource) (q : Decision × List SetCookie) (out : List SetCookie)
        → Fine q
        → Fine (start_single services js q out)
    start_single-Fine [] q out h = h
    start_single-Fine (j ∷ []) q out h = tt
    start_single-Fine (j ∷ k ∷ js) q out h = h

    single-Fine :
        (method : Text) (c : Carried) (out : List SetCookie)
        → Off
        → Fine (step_single services cfg method c out)
    unfolding step_single
    single-Fine method c out off =
        Fine-if (eqb (login_method_count cfg.auth) 1 && browser_nav method c) _ _
          (λ t. start_single-Fine (login_sources cfg.auth) _ out (challenges-Fine c out off))
          (λ f. challenges-Fine c out off)

    with_session-Fine :
        (c : Carried) (out : List SetCookie) (q : Decision × List SetCookie)
        → saml_enabled cfg.auth ≡ true
        → Fine q
        → Fine (with_session services (saml_session c) c out q)
    with_session-Fine c out q on h = elim (Option-cases (saml_session c)) [
      | inl n ↦ rw (n, with_session) h
      | inr ((subject, attrs), e) ↦ rw (e, with_session) (by_session subject attrs on e)
    ]

    saml-Fine :
        (method : Text) (c : Carried) (out : List SetCookie)
        → Fine (step_saml services cfg method c out)
    unfolding step_saml
    saml-Fine method c out =
        Fine-if (not (saml_enabled cfg.auth)) _ _
          (λ t. single-Fine method c out (inl (not-true (saml_enabled cfg.auth) t)))
          (λ on.
            Fine-if (not saml_available) _ _ (λ t. tt)
              (λ f.
                Fine-if (is_on cfg.resource_metadata && not (browser_nav method c)) _ _
                  (λ t.
                    with_session-Fine c out _ (not-false (saml_enabled cfg.auth) on)
                      (single-Fine method c out (inr (first (is_on cfg.resource_metadata) _ t))))
                  (λ g. with_session-Fine c out _ (not-false (saml_enabled cfg.auth) on) tt)))
      where
        not-true : (b : Bool) → not b ≡ true → b ≡ false
        not-true true h = cc
        not-true false h = refl

        not-false : (b : Bool) → not b ≡ false → b ≡ true
        not-false true h = refl
        not-false false h = cc

        first : (a b : Bool) → (a && b) ≡ true → a ≡ true
        first true b h = refl
        first false b h = h

    method-Fine :
        (method : Text) (c : Carried) (out : List SetCookie) (m : Option LoginMethod)
        → Fine (run_method services cfg method c out m)
    method-Fine method c out none = tt
    method-Fine method c out (some by_basic) = tt
    method-Fine method c out (some (by_jwt source)) = tt
    method-Fine method c out (some by_saml) = saml-Fine method c out

    login-Fine :
        (method : Text) (c : Carried) (out : List SetCookie)
        → Fine (step_login services cfg method c out)
    unfolding step_login
    login-Fine method c out =
        Fine-if (ltb 1 (login_method_count cfg.auth) && browser_nav method c) _ _
          (λ t. method-Fine method c out _) (λ f. saml-Fine method c out)

    after_jwt-Fine :
        (method : Text) (c : Carried) (out : List SetCookie) (o : JwtOutcome)
        → jwt_enabled cfg.auth ≡ true
        → enforce_jwt tokens cfg.auth c ≡ o
        → Fine (after_jwt services cfg method c out o)
    after_jwt-Fine method c out (jwt_allowed p) on e = by_token p on e
    after_jwt-Fine method c out (jwt_rejected why) on e = tt
    after_jwt-Fine method c out (jwt_unavailable why) on e = tt
    after_jwt-Fine method c out jwt_stale on e = tt
    after_jwt-Fine method c out jwt_no_credential on e = login-Fine method c out

    renewed_again-Fine :
        (method : Text) (r : Refreshed)
        → jwt_enabled cfg.auth ≡ true
        → Fine (renewed_again services cfg method r)
    renewed_again-Fine method (responded out) on = tt
    renewed_again-Fine method (going_on c out) on =
        after_jwt-Fine method c out (enforce_jwt tokens cfg.auth c) on refl

    judge_jwt-Fine :
        (method : Text) (taken : List (Text × Text)) (c : Carried) (out : List SetCookie)
        (o : JwtOutcome)
        → jwt_enabled cfg.auth ≡ true
        → enforce_jwt tokens cfg.auth c ≡ o
        → Fine (judge_jwt services cfg method taken c out o)
    judge_jwt-Fine method taken c out (jwt_allowed p) on e = by_token p on e
    judge_jwt-Fine method taken c out (jwt_rejected why) on e = tt
    judge_jwt-Fine method taken c out (jwt_unavailable why) on e = tt
    judge_jwt-Fine method taken c out jwt_stale on e = renewed_again-Fine method _ on
    judge_jwt-Fine method taken c out jwt_no_credential on e = login-Fine method c out

    renewed-Fine :
        (method : Text) (taken : List (Text × Text)) (r : Refreshed)
        → jwt_enabled cfg.auth ≡ true
        → Fine (renewed services cfg method taken r)
    renewed-Fine method taken (responded out) on = tt
    renewed-Fine method taken (going_on c out) on =
        judge_jwt-Fine method taken c out (enforce_jwt tokens cfg.auth c) on refl

    jwt-Fine :
        (method : Text) (taken : List (Text × Text)) (c : Carried)
        → Fine (step_jwt services cfg method taken c)
    unfolding step_jwt
    jwt-Fine method taken c =
        Fine-if (jwt_enabled cfg.auth) _ _ (λ on. renewed-Fine method taken _ on)
          (λ off. login-Fine method c [])

    judged-Fine :
        (method : Text) (taken : List (Text × Text)) (c : Carried) (b : BasicSource)
        (x : BasicExtraction)
        → cfg.auth.basic ≡ some b
        → b.disabled ≡ false
        → extract_basic basic_auth c ≡ x
        → Fine (judged services cfg method taken c (judge_basic services b reg x)).0
    judged-Fine method taken c b basic_absent e on h = jwt-Fine method taken c
    judged-Fine method taken c b basic_malformed e on h = tt
    judged-Fine method taken c b (basic_present user password) e on h =
        go (verify hmac compare_hash attempt b user password reg) refl
      where
        go :
            (q : Answer × BasicRegistry)
            → verify hmac compare_hash attempt b user password reg ≡ q
            → Fine (judged services cfg method taken c (basic_outcome services b user q)).0
        go (saturated, r) k = tt
        go (verified false, r) k = tt
        go (verified true, r) k = by_password b user password e on h (ap (λ x. x.0) k)

    basic-Fine :
        (method : Text) (taken : List (Text × Text)) (c : Carried) (o : Option BasicSource)
        → cfg.auth.basic ≡ o
        → Fine (step_basic services cfg method taken c reg o).0
    basic-Fine method taken c none e = jwt-Fine method taken c
    basic-Fine method taken c (some b) e =
        either b.disabled _ _ (λ t. jwt-Fine method taken c)
          (λ f.
            unfold enforce_basic in
            judged-Fine method taken c b (extract_basic basic_auth c) e f refl)
      where
        either :
            (d : Bool) (x y : (Decision × List SetCookie) × BasicRegistry)
            → (d ≡ true → Fine x.0)
            → (d ≡ false → Fine y.0)
            → Fine (if d then x else y).0
        either true x y h k = h refl
        either false x y h k = k refl

  pub authenticate-Admits :
      (cfg : Config) (method : Text) (c : Carried) (reg : BasicRegistry)
      → Admits cfg reg (authenticate services cfg method c reg).0.0
  unfolding authenticate
  authenticate-Admits cfg method c reg =
      let (lines, taken) = take_refresh_cookies cfg.auth.jwt c.cookie_lines in
      basic-Fine cfg reg method taken (record c { cookie_lines = lines }) cfg.auth.basic refl

  -- Nobody goes without a principal where some authentication is enabled.
  pub Entered-none :
      (cfg : Config) (reg : BasicRegistry) (p : Option Principal) (c : Carried)
      → (is_on cfg.resource_metadata ≡ true → jwt_enabled cfg.auth ≡ true)
      → Entered cfg reg p c
      → p ≡ none
      → auth_enabled cfg.auth ≡ false
  Entered-none cfg reg p c oauth (by_password b user password e on x v) n = absurd cc
  Entered-none cfg reg p c oauth (by_token q on e) n = absurd cc
  Entered-none cfg reg p c oauth (by_session subject attrs on e) n = absurd cc
  Entered-none cfg reg p c oauth (unauthenticated j b s) n = elim s [
    | inl s' ↦ rw (j, auth_enabled) (rw s' b)
    | inr m ↦ Bool-contra (jwt_enabled cfg.auth) (oauth m) j
  ]

  -- A request is let on with a principal only if its Basic credential was verified against the
  -- enabled source, or a bearer token that the request still carries was accepted, or a SAML session
  -- was found while SAML is enabled; and it is let on with none only if no authentication is
  -- enabled, provided that a JWT source is enabled wherever the OAuth server is on.
  pub authenticate-Entered :
      (cfg : Config) (method : Text) (c : Carried) (reg : BasicRegistry) (p : Option Principal)
      (c' : Carried)
      → (is_on cfg.resource_metadata ≡ true → jwt_enabled cfg.auth ≡ true)
      → (authenticate services cfg method c reg).0.0 ≡ allowed p c'
      → Entered cfg reg p c' × (p ≡ none → auth_enabled cfg.auth ≡ false)
  authenticate-Entered cfg method c reg p c' oauth h =
      let entered : Entered cfg reg p c' =
        subst (Admits cfg reg) h (authenticate-Admits cfg method c reg) in
      (entered, Entered-none cfg reg p c' oauth entered)
