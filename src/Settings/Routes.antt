-- ===== src/Settings/Routes.antt =====
-- internal/authn/middleware.go on a configuration that internal/config/config.go accepted: every
-- login that is on is served at its callback path.
use token_auth_proxy.Common.{
  ◌≡◌, refl, sym, ap, subst, ◌∙◌, inl, inr, Bool, true, false, not, ◌&&◌, Option, none, some, List,
  [], ◌∷◌, ◌++◌, if◌then◌else◌, In, In-append, All, Bool-cases, &&_iff,
}
use token_auth_proxy.Text.{Text, ◌==◌, ==_iff}
use token_auth_proxy.Config.{JwtSource, JwtLogin, SamlSource, InboundAuth, login_enabled, has_login}
use token_auth_proxy.Config.Validate.Auth.{active_login}
use token_auth_proxy.Config.Validate.Distinct.{Distinct, paths_of, paths_in, SamlApart, LoginApart}
use token_auth_proxy.Middleware.{Services}
use token_auth_proxy.Middleware.Routes.{
  login_callback, callback_source, is_callback, is_acs_of, own_route,
}
use token_auth_proxy.Middleware
use token_auth_proxy.Settings
use token_auth_proxy.Config.Oauth.{OauthServer, TokenConfig, oauth_source}
use token_auth_proxy.Settings.{
  ConfigFields, loaded, Libs, validate, configured_sources, derived_source, without_derived,
}
use token_auth_proxy.Settings.Loaded.{validate-Loaded}

-- A source that is on, with a login.
pub record Active (src : JwtSource) (l : JwtLogin) : Type 0 where
  pub not_off : src.disabled ≡ false
  pub login : src.login ≡ some l

active : (src : JwtSource) (l : JwtLogin) → Active src l → active_login src ≡ some l
active src l a = go src.disabled src.login a.not_off a.login
  where
    go :
        (d : Bool) (o : Option JwtLogin) → d ≡ false → o ≡ some l → (if d then none else o) ≡ some l
    go true o e h = absurd cc
    go false o e h = h

not-true : (b : Bool) → not b ≡ true → b ≡ false
not-true true h = absurd cc
not-true false h = refl

-- The callback path of a login that is on is among the paths.
In-paths :
    (src : JwtSource) (l : JwtLogin) (js : List JwtSource)
    → Active src l
    → In src js
    → In l.callback_path (paths_in js)
In-paths src l [] a m = elim m [ ]
In-paths src l (j ∷ js) a (inr m) =
    In-append l.callback_path (paths_of (active_login j)) (paths_in js)
      (inr (In-paths src l js a m))
In-paths src l (j ∷ js) a (inl e) =
    let o : active_login j ≡ some l = ap active_login (sym e) ∙ active src l a in
    In-append l.callback_path (paths_of (active_login j)) (paths_in js)
      (inl (subst (λ x. In l.callback_path (paths_of x)) (sym o) (inl refl)))

Distinct-rest : (xs ys : List Text) → Distinct (xs ++ ys) → Distinct ys
Distinct-rest [] ys d = d
Distinct-rest (x ∷ xs) ys d = Distinct-rest xs ys d.1

Distinct-apart : (x : Text) (xs ys : List Text) → Distinct (xs ++ ys) → In x xs → In x ys → ⊥
Distinct-apart x [] ys d m k = m
Distinct-apart x (y ∷ xs) ys d (inl e) k = d.0 (In-append y xs ys (inr (subst (λ z. In z ys) e k)))
Distinct-apart x (y ∷ xs) ys d (inr m) k = Distinct-apart x xs ys d.1 m k

All-In : (P : JwtSource → Type 0) (x : JwtSource) (xs : List JwtSource) → All P xs → In x xs → P x
All-In P x [] h m = elim m [ ]
All-In P x (y ∷ xs) h (inl e) = subst P (sym e) h.0
All-In P x (y ∷ xs) h (inr m) = All-In P x xs h.1 m

-- The derived source has no login.
In-configured :
    (src : JwtSource) (l : JwtLogin) (js : List JwtSource) (server : Option OauthServer)
    (token : Option TokenConfig)
    → Active src l
    → In src (js ++ derived_source server token)
    → In src js
unfolding derived_source oauth_source
In-configured src l [] none token a m = m
In-configured src l [] (some o) none a m = m
In-configured src l [] (some o) (some t) a (inl e) =
    absurd (let k = ap (λ (x : JwtSource). x.login) (sym e) ∙ a.login in cc)
In-configured src l [] (some o) (some t) a (inr m) = m
In-configured src l (j ∷ js) server token a (inl e) = inl e
In-configured src l (j ∷ js) server token a (inr m) = inr (In-configured src l js server token a m)

module _ {Keys : Type 0} (services : Services Keys) where
  own-callback :
      (src : JwtSource) (l : JwtLogin)
      → Active src l
      → is_callback services l.callback_path src src.login ≡ true
  own-callback src l a = go src.login a.login
    where
      go : (o : Option JwtLogin) → o ≡ some l → is_callback services l.callback_path src o ≡ true
      go none e = absurd cc
      go (some k) e =
          let same : l.callback_path ≡ k.callback_path =
            let h : l ≡ k = cc in ap (λ (x : JwtLogin). x.callback_path) h in
          let on =
            (&&_iff (not src.disabled) (has_login src.login)).1
              (ap not a.not_off, ap has_login a.login) in
          (&&_iff (login_enabled src) (l.callback_path == k.callback_path)).1
            (on, (==_iff l.callback_path k.callback_path).1 same)

  -- A source whose login has another path is passed over.
  other-callback :
      (path : Text) (j : JwtSource)
      → (In path (paths_of (active_login j)) → ⊥)
      → is_callback services path j j.login ≡ false
  other-callback path j n = go j.login refl
    where
      go : (o : Option JwtLogin) → j.login ≡ o → is_callback services path j o ≡ false
      go none e = refl
      go (some k) e = elim (Bool-cases (login_enabled j && path == k.callback_path)) [
        | inr f ↦ f
        | inl t ↦
            let (on, same) = (&&_iff (login_enabled j) (path == k.callback_path)).0 t in
            let (off, _) = (&&_iff (not j.disabled) (has_login j.login)).0 on in
            let o = active j k (record { not_off = not-true j.disabled off; login = e }) in
            absurd (
              n (
                subst (λ x. In path (paths_of x)) (sym o)
                  (inl ((==_iff path k.callback_path).0 same))))
      ]

  callback_source-own :
      (src : JwtSource) (l : JwtLogin) (js : List JwtSource)
      → Active src l
      → Distinct (paths_in js)
      → In src js
      → callback_source services l.callback_path js ≡ some src
  unfolding callback_source
  callback_source-own src l [] a d m = elim m [ ]
  callback_source-own src l (j ∷ js) a d (inl e) =
      let own =
        subst (λ (x : JwtSource). is_callback services l.callback_path x x.login ≡ true) e
          (own-callback src l a) in
      rw own (ap some (sym e))
  callback_source-own src l (j ∷ js) a d (inr m) =
      let n = λ (k : In l.callback_path (paths_of (active_login j))).
        Distinct-apart l.callback_path (paths_of (active_login j)) (paths_in js) d k
          (In-paths src l js a m) in
      let rest =
        callback_source-own src l js a (Distinct-rest (paths_of (active_login j)) (paths_in js) d)
          m in
      rw (other-callback l.callback_path j n) rest

  -- Sources with no login are passed over.
  callback_source-append :
      (path : Text) (src : JwtSource) (js ds : List JwtSource)
      → callback_source services path js ≡ some src
      → callback_source services path (js ++ ds) ≡ some src
  unfolding callback_source
  callback_source-append path src [] ds h = absurd cc
  callback_source-append path src (j ∷ js) ds h =
      elim (Bool-cases (is_callback services path j j.login)) [
        | inl t ↦ rw t (rw t at h)
        | inr f ↦ rw f (callback_source-append path src js ds (rw f at h))
      ]

  not_acs :
      (src : JwtSource) (l : JwtLogin) (o : Option SamlSource)
      → SamlApart o src
      → Active src l
      → is_acs_of services l.callback_path o ≡ false
  not_acs src l none h a = refl
  not_acs src l (some s) h a = elim (Bool-cases (not s.disabled && l.callback_path == s.acs_path)) [
    | inr f ↦ f
    | inl t ↦
        let (_, same) = (&&_iff (not s.disabled) (l.callback_path == s.acs_path)).0 t in
        let (apart, _) = subst (LoginApart s) a.login h.1 in
        absurd (apart ((==_iff l.callback_path s.acs_path).0 same))
  ]

  -- In a configuration that Validate accepts, each login that is on is reached: whatever else is
  -- configured, a request to its callback path is answered by the callback of that very source.
  pub own_route-callback :
      {Cert : Type 0} {Key : Type 0} (libs : Libs Cert Key) (c : ConfigFields)
      (loaded_config : Settings.Config) (cfg : Middleware.Config) (src : JwtSource) (l : JwtLogin)
      → validate libs c ≡ loaded loaded_config
      → cfg.auth ≡ loaded_config.fields.auth
      → In src cfg.auth.jwt
      → Active src l
      → own_route services cfg l.callback_path ≡ some (login_callback src)
  unfolding own_route
  own_route-callback libs c loaded_config cfg src l h same m a =
      let (apart, _, sources, _, _, saml) = validate-Loaded libs c loaded_config h in
      let js = configured_sources c.auth.jwt in
      let all : cfg.auth.jwt ≡ js ++ derived_source c.oauth_server c.token =
        ap (λ (x : InboundAuth). x.jwt) same ∙ sources in
      let own = In-configured src l js c.oauth_server c.token a (subst (In src) all m) in
      let found =
        callback_source-append l.callback_path src js (derived_source c.oauth_server c.token)
          (callback_source-own src l js a apart.paths own) in
      let saml_apart =
        not_acs src l c.auth.saml (All-In (SamlApart c.auth.saml) src js apart.saml_apart own) a in
      let e = ap (λ (x : InboundAuth). x.saml) same ∙ saml in
      rw
        (subst (λ (x : Option SamlSource). is_acs_of services l.callback_path x ≡ false) (sym e)
          saml_apart)
        (rw
          (subst (λ (x : List JwtSource). callback_source services l.callback_path x ≡ some src)
            (sym all) found)
          refl)
