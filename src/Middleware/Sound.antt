-- ===== src/Middleware/Sound.antt =====
-- Which requests reach the backend.
use token_auth_proxy.Common.{
  ℕ, ◌≡◌, ◌≢◌, ap, ◌∙◌, inl, inr, Bool, true, false, ◌&&◌, Option, none, some, if◌then◌else◌, ltb,
  Bool-cases, Option-cases, subst,
}
use token_auth_proxy.Text.{Text}
use token_auth_proxy.Config.{login_method_count, jwt_enabled, auth_enabled}
use token_auth_proxy.Acl.{Principal, Request, authorize}
use token_auth_proxy.Basic.{BasicRegistry, reconcile}
use token_auth_proxy.Jwt.{Carried, saml_metadata_unavailable}
use token_auth_proxy.Login.{is_login_route, is_logout_route}
use token_auth_proxy.PromLabel.Resolve.{Denial, Verdict, unscoped, allow, deny, resolve_prom_labels}
use token_auth_proxy.Middleware.{
  Decision, allowed, answered, Config, Services, authenticate, unavailable, is_on,
}
use token_auth_proxy.Middleware.Routes.{
  forwarded, replied, own_route, labelled, decided, serve, acl_denied, acs, login_route,
  logout_route, oauth_route, login_callback, callback_source, is_acs,
}
use token_auth_proxy.Middleware.Entered.{Entered, Admits, authenticate-Admits, Entered-none}

module _ {Keys : Type 0} (services : Services Keys) where
  open services use {saml_available, format_float}

  -- What lets a request through to the backend.
  pub record Passed (ptr : ℕ) (cfg : Config) (r : Request) (c : Carried) (reg : BasicRegistry)
      (p : Option Principal) (c' : Carried) (v : Verdict) : Type 0 where
    pub not_own : own_route services cfg r.path ≡ none
    pub entered : Entered services cfg (reconcile ptr cfg.auth reg) p c'
    pub authorized : authorize format_float r cfg.acl p ≡ true
    pub verdict : resolve_prom_labels format_float cfg.prom_label_proxy r p ≡ v
    pub not_denied : (d : Denial) → v ≢ deny d

  own_route-not_forwarded :
      (cfg : Config) (path : Text) (p : Option Principal) (c : Carried) (v : Verdict)
      → own_route services cfg path ≢ some (forwarded p c v)
  unfolding own_route
  own_route-not_forwarded cfg path p c v h = elim (Bool-cases (is_acs services path cfg.auth)) [
    | inl t ↦ acs_case saml_available (rw (t, own_route) at h)
    | inr f ↦ elim (Option-cases (callback_source services path cfg.auth.jwt)) [
      | inr (src, e) ↦
          let k : some (login_callback src) ≡ some (forwarded p c v) = rw (f, e, own_route) at h in
          cc
      | inl n ↦
          routes (ltb 0 (login_method_count cfg.auth) && is_login_route path)
            (ltb 0 (login_method_count cfg.auth) && is_logout_route path)
            (services.oauth_serves path) (rw (f, n, own_route) at h)
    ]
  ]
    where
      acs_case :
          (b : Bool)
          → some (if b then acs else replied (unavailable saml_metadata_unavailable))
            ≢ some (forwarded p c v)
      acs_case true k = cc
      acs_case false k = cc

      routes :
          (a b d : Bool)
          → (if a
              then some login_route
              else if b
              then some logout_route
              else if d
              then some oauth_route
              else none)
            ≢ some (forwarded p c v)
      routes true b d k = cc
      routes false true d k = cc
      routes false false true k = cc
      routes false false false k = cc

  decided-forwarded :
      (cfg : Config) (r : Request) (reg : BasicRegistry) (d : Decision) (p : Option Principal)
      (c' : Carried) (v : Verdict)
      → Admits services cfg reg d
      → decided services cfg r d ≡ forwarded p c' v
      → Entered services cfg reg p c'
        × (authorize format_float r cfg.acl p ≡ true)
        × (resolve_prom_labels format_float cfg.prom_label_proxy r p ≡ v)
        × ((d : Denial) → v ≢ deny d)
  decided-forwarded cfg r reg (answered response) p c' v a h = absurd cc
  decided-forwarded cfg r reg (allowed q c) p c' v a h =
      elim (Bool-cases (authorize format_float r cfg.acl q)) [
        | inr f ↦ absurd (let k : acl_denied ≡ forwarded p c' v = rw (f, decided) at h in cc)
        | inl t ↦
            let (e, k, l, m) =
              labelled-forwarded (resolve_prom_labels format_float cfg.prom_label_proxy r q)
                (rw (t, decided) at h) in
            (
              subst (λ x. Entered services cfg reg p x) k
                  (subst (λ x. Entered services cfg reg x c) e a),
              subst (λ x. authorize format_float r cfg.acl x ≡ true) e t,
              subst (λ x. resolve_prom_labels format_float cfg.prom_label_proxy r x ≡ v) e l,
              m,
            )
      ]
    where
      labelled-forwarded :
          (w : Verdict)
          → labelled services q c w ≡ forwarded p c' v
          → (q ≡ p) × (c ≡ c') × (w ≡ v) × ((d : Denial) → v ≢ deny d)
      labelled-forwarded unscoped k = let e : unscoped ≡ v = cc in (cc, cc, e, λ d z. cc)
      labelled-forwarded (allow s) k = let e : allow s ≡ v = cc in (cc, cc, e, λ d z. cc)
      labelled-forwarded (deny d) k = absurd cc

  -- Where a JWT source is enabled if the OAuth server is on, a request reaches the backend only if
  -- its path is none of the proxy's own; it has a principal, who was authenticated by a Basic
  -- credential, a bearer token or a SAML session, unless no authentication is enabled at all; the
  -- access rules grant the request for that principal, or for none where there is none; and label
  -- enforcement gave a verdict that is not a denial, which goes with the request.
  pub serve-forwarded :
      (ptr : ℕ) (cfg : Config) (r : Request) (c : Carried) (reg : BasicRegistry)
      (p : Option Principal) (c' : Carried) (v : Verdict)
      → (is_on cfg.resource_metadata ≡ true → jwt_enabled cfg.auth ≡ true)
      → (serve services ptr cfg r c reg).0.0 ≡ forwarded p c' v
      → Passed ptr cfg r c reg p c' v × (p ≡ none → auth_enabled cfg.auth ≡ false)
  unfolding serve
  serve-forwarded ptr cfg r c reg p c' v oauth h =
      elim (Option-cases (own_route services cfg r.path)) [
        | inr (s, e) ↦
            let k : s ≡ forwarded p c' v = rw (e, serve) at h in
            absurd (own_route-not_forwarded cfg r.path p c' v (e ∙ ap some k))
        | inl n ↦
            let reg' = reconcile ptr cfg.auth reg in
            let (e, a, l, d) =
              decided-forwarded cfg r reg' (authenticate services cfg r.method c reg').0.0 p c' v
                (authenticate-Admits services cfg r.method c reg') (rw (n, serve) at h) in
            (
              record { not_own = n; entered = e; authorized = a; verdict = l; not_denied = d },
              Entered-none services cfg reg' p c' oauth e,
            )
      ]
