-- ===== src/Middleware.antt =====
-- internal/authn/middleware.go: the order in which a request's credentials are tried, and what
-- becomes of the request. The SAML library and the fetching of its metadata are parameters.
pub mod Routes
pub mod Entered
pub mod Picker
pub mod Sound
pub mod Tests
use token_auth_proxy.Common.{
  ℕ, Bool, true, false, not, ◌&&◌, ◌||◌, Option, none, some, List, [], ◌∷◌, ◌++◌, is_empty,
  if◌then◌else◌, eqb, ltb,
}
use token_auth_proxy.Text.{Text, text, ◌==◌}
use token_auth_proxy.Config.{
  InboundAuth, BasicSource, SamlSource, JwtSource, JwtLogin, jwt_enabled, saml_enabled,
  basic_enabled, login_enabled, login_sources, login_method_count,
}
use token_auth_proxy.Acl.{Principal, AclRule, Request, basic_principal, saml_principal, authorize}
use token_auth_proxy.Cookies.{take_refresh_cookies}
use token_auth_proxy.Basic.{
  BasicRegistry, Attempt, Answer, verified, saturated, Compared, verify, reconcile,
}
use token_auth_proxy.Jwt.{
  Carried, Tokens, Reason, BasicExtraction, basic_absent, basic_malformed, basic_present,
  extract_basic, JwtOutcome, jwt_no_credential, jwt_stale, jwt_allowed, jwt_rejected,
  jwt_unavailable, enforce_jwt, no_credential, malformed_credential, bad_credential,
  basic_saturated, saml_metadata_unavailable, login_unavailable, invalid_claims,
}
use token_auth_proxy.Login.{
  SetCookie, Redeemed, Refreshed, responded, going_on, refresh, drop_stale_login, LoginMethod,
  by_jwt, by_saml, by_basic, login_methods, chosen_method, browser_nav, is_login_route,
  is_logout_route, jwt_login_source,
}
use token_auth_proxy.PromLabel.Resolve.{
  PromLabelProxy, Verdict, unscoped, allow, deny, resolve_prom_labels,
}

-- A WWW-Authenticate value. The bearer challenges name the resource metadata where there is one.
pub data Challenge : Type 0 where
  basic_challenge : Text → Challenge
  bearer bearer_invalid : Option Text → Challenge

pub data Response : Type 0 where
  unauthorized : Reason → List Challenge → Response
  unavailable : Reason → Response
  picker basic_page saml_login : Response
  login_start : Option JwtSource → Response

-- A request is handed on with the principal that was found, or answered.
pub data Decision : Type 0 where
  allowed : Option Principal → Carried → Decision
  answered : Response → Decision

pub record Config : Type 0 where
  pub auth : InboundAuth
  pub acl : List AclRule
  pub prom_label_proxy : Option PromLabelProxy
  -- The URL of the OAuth server's metadata, where that server is on.
  pub resource_metadata : Option Text

-- What the libraries and the other registries answer during one request.
pub record Services (Keys : Type 0) : Type 0 where
  pub tokens : Tokens Keys
  pub basic_auth : Text → Option (Text × Text)
  pub hmac : Text → Text
  pub compare_hash : Text → Text → Compared
  pub attempt : Attempt
  pub redeem : JwtSource → Text → Redeemed
  pub saml_available : Bool
  pub saml_session : Carried → Option (Text × List (Text × List Text))
  pub base64 : Text → Text
  pub oauth_serves : Text → Bool
  pub format_float : ℕ → Text

pub data BasicOutcome : Type 0 where
  basic_no_credential : BasicOutcome
  basic_allowed : Text → BasicOutcome
  basic_rejected : Response → BasicOutcome

abbrev pub is_on : Option Text → Bool
is_on none = false
is_on (some url) = true

module _ {Keys : Type 0} (services : Services Keys) where
  open services use {
    tokens, basic_auth, hmac, compare_hash, attempt, redeem, saml_available, saml_session, base64,
    oauth_serves, format_float,
  }

  abbrev basic_outcome : BasicSource → Text → Answer × BasicRegistry → BasicOutcome × BasicRegistry
  basic_outcome src user (saturated, reg) = (basic_rejected (unavailable basic_saturated), reg)
  basic_outcome src user (verified false, reg) =
      (basic_rejected (unauthorized bad_credential (basic_challenge src.realm ∷ [])), reg)
  basic_outcome src user (verified true, reg) = (basic_allowed user, reg)

  abbrev judge_basic : BasicSource → BasicRegistry → BasicExtraction → BasicOutcome × BasicRegistry
  judge_basic src reg basic_absent = (basic_no_credential, reg)
  judge_basic src reg basic_malformed =
      (basic_rejected (unauthorized malformed_credential (basic_challenge src.realm ∷ [])), reg)
  judge_basic src reg (basic_present user password) =
      basic_outcome src user (verify hmac compare_hash attempt src user password reg)

  unfoldable pub enforce_basic :
      BasicSource → Carried → BasicRegistry → BasicOutcome × BasicRegistry
  enforce_basic src c reg = judge_basic src reg (extract_basic basic_auth c)

  abbrev basic_challenges : InboundAuth → List Challenge
  basic_challenges auth = elim auth.basic [
    | none ↦ []
    | some b ↦ if b.disabled then [] else basic_challenge b.realm ∷ []
  ]

  -- Steps 5 and 6: the challenges of a request with no credential, or no authentication at all.
  unfoldable pub step_challenges : Config → Carried → List SetCookie → Decision × List SetCookie
  step_challenges cfg c out =
      if jwt_enabled cfg.auth || basic_enabled cfg.auth
      then (
        answered (
            unauthorized no_credential (
              basic_challenges cfg.auth
              ++ (if jwt_enabled cfg.auth then bearer cfg.resource_metadata ∷ [] else []))),
        out,
      )
      else (allowed none c, out)

  abbrev start_single :
      List JwtSource → Decision × List SetCookie → List SetCookie → Decision × List SetCookie
  start_single (j ∷ []) otherwise out = (answered (login_start (some j)), out)
  start_single js otherwise out = otherwise

  unfoldable pub step_single : Config → Text → Carried → List SetCookie → Decision × List SetCookie
  unfolding step_challenges
  step_single cfg method c out =
      if eqb (login_method_count cfg.auth) 1 && browser_nav method c
      then start_single (login_sources cfg.auth) (step_challenges cfg c out) out
      else step_challenges cfg c out

  abbrev with_session :
      Option (Text × List (Text × List Text))
      → Carried
      → List SetCookie
      → Decision × List SetCookie
      → Decision × List SetCookie
  with_session none c out otherwise = otherwise
  with_session (some (subject, attrs)) c out otherwise =
      (allowed (some (saml_principal subject attrs)) c, out)

  -- The SAML leg of step 4, and what follows it.
  unfoldable pub step_saml : Config → Text → Carried → List SetCookie → Decision × List SetCookie
  unfolding step_single
  step_saml cfg method c out =
      let single = step_single cfg method c out in
      if not (saml_enabled cfg.auth)
      then single
      else if not saml_available
      then (answered (unavailable saml_metadata_unavailable), out)
      else if is_on cfg.resource_metadata && not (browser_nav method c)
      then with_session (saml_session c) c out single
      else with_session (saml_session c) c out (answered saml_login, out)

  abbrev run_method :
      Config → Text → Carried → List SetCookie → Option LoginMethod → Decision × List SetCookie
  run_method cfg method c out none = (answered picker, out)
  run_method cfg method c out (some by_basic) = (answered basic_page, out)
  run_method cfg method c out (some (by_jwt source)) =
      (answered (login_start (jwt_login_source cfg.auth source)), out)
  run_method cfg method c out (some by_saml) = step_saml cfg method c out

  unfoldable pub step_login : Config → Text → Carried → List SetCookie → Decision × List SetCookie
  unfolding step_saml
  step_login cfg method c out =
      if ltb 1 (login_method_count cfg.auth) && browser_nav method c
      then run_method cfg method c out
          (chosen_method base64 tokens.read_cookie c (login_methods cfg.auth))
      else step_saml cfg method c out

  -- The end of step 3, once a stale login cookie was dealt with.
  abbrev after_jwt :
      Config → Text → Carried → List SetCookie → JwtOutcome → Decision × List SetCookie
  after_jwt cfg method c out (jwt_allowed p) = (allowed (some p) c, out)
  after_jwt cfg method c out (jwt_rejected why) =
      (answered (unauthorized why (bearer_invalid cfg.resource_metadata ∷ [])), out)
  after_jwt cfg method c out (jwt_unavailable why) = (answered (unavailable why), out)
  after_jwt cfg method c out jwt_stale =
      (answered (unauthorized invalid_claims (bearer_invalid cfg.resource_metadata ∷ [])), out)
  after_jwt cfg method c out jwt_no_credential = step_login cfg method c out

  -- The second refresh, after the stale cookie was dropped.
  abbrev renewed_again : Config → Text → Refreshed → Decision × List SetCookie
  renewed_again cfg method (responded out) = (answered (unavailable login_unavailable), out)
  renewed_again cfg method (going_on c out) =
      after_jwt cfg method c out (enforce_jwt tokens cfg.auth c)

  abbrev dropped :
      Config → Text → List (Text × Text) → Carried × List SetCookie → Decision × List SetCookie
  dropped cfg method taken (c, out) =
      renewed_again cfg method (refresh tokens redeem cfg.auth taken c out)

  abbrev judge_jwt :
      Config
      → Text
      → List (Text × Text)
      → Carried
      → List SetCookie
      → JwtOutcome
      → Decision × List SetCookie
  judge_jwt cfg method taken c out jwt_stale =
      dropped cfg method taken (drop_stale_login tokens redeem cfg.auth c out)
  judge_jwt cfg method taken c out outcome = after_jwt cfg method c out outcome

  abbrev renewed : Config → Text → List (Text × Text) → Refreshed → Decision × List SetCookie
  renewed cfg method taken (responded out) = (answered (unavailable login_unavailable), out)
  renewed cfg method taken (going_on c out) =
      judge_jwt cfg method taken c out (enforce_jwt tokens cfg.auth c)

  unfoldable pub step_jwt : Config → Text → List (Text × Text) → Carried → Decision × List SetCookie
  unfolding step_login
  step_jwt cfg method taken c =
      if jwt_enabled cfg.auth
      then renewed cfg method taken (refresh tokens redeem cfg.auth taken c [])
      else step_login cfg method c []

  abbrev judged :
      Config
      → Text
      → List (Text × Text)
      → Carried
      → BasicOutcome × BasicRegistry
      → (Decision × List SetCookie) × BasicRegistry
  judged cfg method taken c (basic_allowed user, reg) =
      ((allowed (some (basic_principal user)) c, []), reg)
  judged cfg method taken c (basic_rejected r, reg) = ((answered r, []), reg)
  judged cfg method taken c (basic_no_credential, reg) = (step_jwt cfg method taken c, reg)

  abbrev step_basic :
      Config
      → Text
      → List (Text × Text)
      → Carried
      → BasicRegistry
      → Option BasicSource
      → (Decision × List SetCookie) × BasicRegistry
  step_basic cfg method taken c reg none = (step_jwt cfg method taken c, reg)
  step_basic cfg method taken c reg (some b) =
      if b.disabled
      then (step_jwt cfg method taken c, reg)
      else judged cfg method taken c (enforce_basic b c reg)

  -- The refresh cookies are off the request before any step looks at it.
  unfoldable pub authenticate :
      Config → Text → Carried → BasicRegistry → (Decision × List SetCookie) × BasicRegistry
  unfolding step_jwt enforce_basic
  authenticate cfg method c reg =
      let (lines, taken) = take_refresh_cookies cfg.auth.jwt c.cookie_lines in
      step_basic cfg method taken (record c { cookie_lines = lines }) reg cfg.auth.basic
