-- ===== src/Middleware/Routes.antt =====
-- internal/authn/middleware.go: the handler of NewMiddleware, which serves the routes of the proxy
-- itself and forwards the requests that may pass.
use token_auth_proxy.Common.{
  ℕ, Bool, false, not, ◌&&◌, Option, none, some, List, [], ◌∷◌, if◌then◌else◌, ltb,
}
use token_auth_proxy.Text.{Text, ◌==◌}
use token_auth_proxy.Config.{
  InboundAuth, SamlSource, JwtSource, JwtLogin, login_enabled, login_method_count,
}
use token_auth_proxy.Acl.{Principal, Request, authorize}
use token_auth_proxy.Basic.{BasicRegistry, reconcile}
use token_auth_proxy.Jwt.{Carried, saml_metadata_unavailable}
use token_auth_proxy.Login.{SetCookie, is_login_route, is_logout_route}
use token_auth_proxy.PromLabel.Resolve.{Verdict, deny, resolve_prom_labels}
use token_auth_proxy.Middleware.{
  Response, unavailable, Decision, allowed, answered, Config, Services, authenticate,
}

-- What becomes of a request.
pub data Served : Type 0 where
  acs login_route logout_route oauth_route : Served
  login_callback : JwtSource → Served
  replied : Response → Served
  acl_denied prom_label_denied : Served
  forwarded : Option Principal → Carried → Verdict → Served

module _ {Keys : Type 0} (services : Services Keys) where
  open services use {saml_available, oauth_serves, format_float}

  abbrev pub is_callback : Text → JwtSource → Option JwtLogin → Bool
  is_callback path j none = false
  is_callback path j (some l) = login_enabled j && path == l.callback_path

  unfoldable pub callback_source : Text → List JwtSource → Option JwtSource
  callback_source path [] = none
  callback_source path (j ∷ js) =
      let later = callback_source path js in if is_callback path j j.login then some j else later

  abbrev pub is_acs_of : Text → Option SamlSource → Bool
  is_acs_of path none = false
  is_acs_of path (some s) = not s.disabled && path == s.acs_path

  abbrev pub is_acs : Text → InboundAuth → Bool
  is_acs path auth = is_acs_of path auth.saml

  abbrev pub labelled : Option Principal → Carried → Verdict → Served
  labelled p c (deny d) = prom_label_denied
  labelled p c v = forwarded p c v

  abbrev pub decided : Config → Request → Decision → Served
  decided cfg r (answered response) = replied response
  decided cfg r (allowed p c) =
      if not (authorize format_float r cfg.acl p)
      then acl_denied
      else labelled p c (resolve_prom_labels format_float cfg.prom_label_proxy r p)

  abbrev decided_with :
      Config
      → Request
      → (Decision × List SetCookie) × BasicRegistry
      → (Served × List SetCookie) × BasicRegistry
  decided_with cfg r ((d, out), reg) = ((decided cfg r d, out), reg)

  -- The routes of the proxy itself come before any credential is looked at.
  unfoldable pub own_route : Config → Text → Option Served
  unfolding callback_source
  own_route cfg path =
      if is_acs path cfg.auth
      then some (if saml_available then acs else replied (unavailable saml_metadata_unavailable))
      else elim (callback_source path cfg.auth.jwt) [
        | some src ↦ some (login_callback src)
        | none ↦
            if ltb 0 (login_method_count cfg.auth) && is_login_route path
            then some login_route
            else if ltb 0 (login_method_count cfg.auth) && is_logout_route path
            then some logout_route
            else if oauth_serves path
            then some oauth_route
            else none
      ]

  -- The handler of NewMiddleware, for the configuration at the address `ptr`.
  unfoldable pub serve :
      ℕ → Config → Request → Carried → BasicRegistry → (Served × List SetCookie) × BasicRegistry
  unfolding own_route authenticate
  serve ptr cfg r c reg = elim (own_route cfg r.path) [
    | some served ↦ ((served, []), reconcile ptr cfg.auth reg)
    | none ↦ decided_with cfg r (authenticate services cfg r.method c (reconcile ptr cfg.auth reg))
  ]
