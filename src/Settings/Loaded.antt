-- ===== src/Settings/Loaded.antt =====
-- internal/config/config.go: what holds of a configuration that Validate accepts.
use token_auth_proxy.Common.{
  ◌≡◌, ◌≢◌, refl, sym, ap, subst, ◌⊎◌, inl, inr, Bool, true, false, not, Option, none, some, List,
  [], ◌∷◌, ◌++◌, is_empty, if◌then◌else◌, before-none, fail_if, fail_if-none, check_from-none, In,
  All, All-map,
}
use token_auth_proxy.Text.{Text, ◌==◌, ==_iff}
use token_auth_proxy.Config.{JwtSource, InboundAuth}
use token_auth_proxy.Config.Urls.{AbsoluteUrl, absolute, not_absolute, parse_absolute_http_url}
use token_auth_proxy.Config.Validate.{AuthError, validate_jwt}
use token_auth_proxy.Config.Validate.Auth.{validate_auth}
use token_auth_proxy.Config.Validate.Unambiguous.{Unambiguous, validate_auth-Unambiguous}
use token_auth_proxy.Config.Validate.Distinct.{Distinct, names_in}
use token_auth_proxy.Config.Oauth.{
  OauthServer, TokenConfig, OauthError, oauth_source, oauth_source_name, validate_oauth, in_jwt,
  source_reserved, name_reserved,
}
use token_auth_proxy.Acl.Validate.{AclError, validate_acl}
use token_auth_proxy.PromLabel.Validate.{
  ProxyFields, LabelCheck, valid, invalid, validate_prom_labels,
}
use token_auth_proxy.PromLabel.Resolve.{PromLabelProxy}
use token_auth_proxy.Oauth.Clients.{Url}
use token_auth_proxy.Settings.{
  ConfigFields, Config, ConfigError, Validated, loaded, config_error, Libs, validate, with_target,
  checked_auth, checked_oauth, checked_acl, checked_labels, with_labels, with_ca, with_source,
  without_derived, derived_source, configured_sources, bad_listen_addr, target_required, ca_error,
}

module _ {Cert : Type 0} {Key : Type 0} (libs : Libs Cert Key) where
  with_ca-fields :
      (c : ConfigFields) (u : Url) (labels : Option PromLabelProxy) (o : Option ConfigError)
      (cfg : Config)
      → with_ca libs c u labels o ≡ loaded cfg
      → cfg.fields ≡ c
  with_ca-fields c u labels (some e) cfg h = absurd cc
  with_ca-fields c u labels none cfg h =
      let e : record { fields = c; labels = labels; target_url = u } ≡ cfg = cc in
      sym (ap (λ (x : Config). x.fields) e)

  labels-fields :
      (c : ConfigFields) (u : Url) (o : LabelCheck PromLabelProxy) (cfg : Config)
      → with_labels libs c u o ≡ loaded cfg
      → cfg.fields ≡ c
  labels-fields c u (invalid e) cfg h = absurd cc
  labels-fields c u (valid p) cfg h = with_ca-fields c u (some p) (ca_error libs c u) cfg h

  checked-fields :
      (c : ConfigFields) (u : Url) (o : Option ProxyFields) (cfg : Config)
      → checked_labels libs c u o ≡ loaded cfg
      → cfg.fields ≡ c
  checked-fields c u none cfg h = with_ca-fields c u none (ca_error libs c u) cfg h
  checked-fields c u (some p) cfg h =
      labels-fields c u (validate_prom_labels libs.is_label_name libs.compile c.auth p) cfg h

  acl-fields :
      (c : ConfigFields) (u : Url) (o : Option AclError) (cfg : Config)
      → checked_acl libs c u o ≡ loaded cfg
      → (o ≡ none) × (cfg.fields ≡ c)
  acl-fields c u (some e) cfg h = absurd cc
  acl-fields c u none cfg h = (refl, checked-fields c u c.prom_label_proxy cfg h)

  oauth-fields :
      (c : ConfigFields) (u : Url) (o : Option OauthError) (cfg : Config)
      → checked_oauth libs c u o ≡ loaded cfg
      → (o ≡ none)
        × (validate_acl (with_source libs c).auth (with_source libs c).acl ≡ none)
        × (cfg.fields ≡ with_source libs c)
  oauth-fields c u (some e) cfg h = absurd cc
  oauth-fields c u none cfg h =
      let (a, f) = acl-fields (with_source libs c) u _ cfg h in (refl, a, f)

  -- What each of the checks found, for the sources that are in the file.
  abbrev Passed : ConfigFields → Config → Type 0
  Passed c cfg =
      (validate_auth libs.crypto libs.oauth.uris.parse_request_uri libs.lookup_env c.auth ≡ none)
      × (validate_oauth libs.oauth c.auth c.oauth_server c.token ≡ none)
      × (validate_acl (with_source libs c).auth (with_source libs c).acl ≡ none)
      × (cfg.fields ≡ with_source libs c)

  auth-fields :
      (c : ConfigFields) (u : Url) (o : Option AuthError) (cfg : Config)
      → validate_auth libs.crypto libs.oauth.uris.parse_request_uri libs.lookup_env c.auth ≡ o
      → checked_auth libs c u o ≡ loaded cfg
      → Passed c cfg
  auth-fields c u (some e) cfg v h = absurd cc
  auth-fields c u none cfg v h =
      let (o, a, f) =
        oauth-fields c u (validate_oauth libs.oauth c.auth c.oauth_server c.token) cfg h in
      (v, o, a, f)

  target-fields :
      (c : ConfigFields) (o : AbsoluteUrl) (cfg : Config)
      → with_target libs c o ≡ loaded cfg
      → Passed (without_derived libs c) cfg
  target-fields c (not_absolute e) cfg h = absurd cc
  target-fields c (absolute u) cfg h = auth-fields (without_derived libs c) u _ cfg refl h

  past :
      (b : Bool) (e : ConfigError) (v : Validated) (cfg : Config)
      → (if b then config_error e else v) ≡ loaded cfg
      → v ≡ loaded cfg
  past true e v cfg h = absurd cc
  past false e v cfg h = h

  pub validate-Passed :
      (c : ConfigFields) (cfg : Config)
      → validate libs c ≡ loaded cfg
      → Passed (without_derived libs c) cfg
  unfolding validate
  validate-Passed c cfg h =
      let h1 = past (not (libs.splits_host_port c.listen_addr)) bad_listen_addr _ cfg h in
      let h2 = past (is_empty c.target) target_required _ cfg h1 in
      target-fields c (parse_absolute_http_url libs.oauth.uris.parse_request_uri c.target) cfg h2

In-appended :
    (n : Text) (js : List JwtSource) (d : JwtSource)
    → In n (names_in (js ++ d ∷ []))
    → In n (names_in js) ⊎ (n ≡ d.name)
In-appended n [] d (inl e) = inr e
In-appended n [] d (inr m) = elim m [ ]
In-appended n (j ∷ js) d (inl e) = inl (inl e)
In-appended n (j ∷ js) d (inr m) = elim (In-appended n js d m) [
  | inl k ↦ inl (inr k)
  | inr e ↦ inr e
]

appended-Distinct :
    (js : List JwtSource) (d : JwtSource)
    → Distinct (names_in js)
    → All (λ j. j.name ≢ d.name) js
    → Distinct (names_in (js ++ d ∷ []))
appended-Distinct [] d f a = ((λ m. m), tt)
appended-Distinct (j ∷ js) d f a = (
  λ m. elim (In-appended j.name js d m) [ inl k ↦ f.0 k | inr e ↦ a.0 e ],
  appended-Distinct js d f.1 a.1,
)

append_none : (js : List JwtSource) → js ++ [] ≡ js
append_none [] = refl
append_none (j ∷ js) = ap (λ r. j ∷ r) (append_none js)

module _ {Cert : Type 0} {Key : Type 0} (libs : Libs Cert Key) where
  reserved : (j : JwtSource) → source_reserved j ≡ none → j.name ≢ oauth_source_name
  reserved j h e =
      let (k, _) = before-none (fail_if (j.name == oauth_source_name) name_reserved) _ h in
      let f = fail_if-none (j.name == oauth_source_name) name_reserved k in
      let t = (==_iff j.name oauth_source_name).1 e in absurd cc

  -- The derived source has a name of its own.
  derived-Distinct :
      (auth : InboundAuth) (server : Option OauthServer) (token : Option TokenConfig)
      → validate_oauth libs.oauth auth server token ≡ none
      → Distinct (names_in auth.jwt)
      → Distinct (names_in (auth.jwt ++ derived_source server token))
  unfolding validate_oauth derived_source oauth_source
  derived-Distinct auth none token h d =
      subst (λ js. Distinct (names_in js)) (sym (append_none auth.jwt)) d
  derived-Distinct auth (some o) none h d =
      subst (λ js. Distinct (names_in js)) (sym (append_none auth.jwt)) d
  derived-Distinct auth (some o) (some t) h d =
      let (_, h1) = before-none _ _ h in
      let (_, h2) = before-none _ _ h1 in
      let (sources, _) = before-none _ _ h2 in
      appended-Distinct auth.jwt (oauth_source o t) d (
        All-map _ (λ j. j.name ≢ oauth_source_name) reserved auth.jwt
          (check_from-none in_jwt source_reserved 0 auth.jwt sources))

  -- When Validate accepts a configuration, every JWT source of the file, disabled ones included, is
  -- valid by itself; the names of these sources differ, and so do the callback paths of the logins
  -- that are on, and the cookies that these set, refresh cookies included; none of them shares its
  -- name, its callback path, its login cookie or the cookie of a credential with the SAML source;
  -- and where Basic is on, none that is on takes the Authorization header without a prefix. Nothing is
  -- said of a SAML session cookie that is the refresh cookie of a login. The JWT sources that
  -- Validate leaves behind are those of the file and, where the OAuth server and its tokens are
  -- configured, the derived one, no two of them have the same name, and the access rules are valid
  -- for them. The SAML source that it leaves behind is the one of the file.
  pub validate-Loaded :
      (c : ConfigFields) (cfg : Config)
      → validate libs c ≡ loaded cfg
      → Unambiguous (without_derived libs c).auth
        × All
            (λ j.
              validate_jwt libs.crypto libs.oauth.uris.parse_request_uri libs.lookup_env j ≡ none)
            (configured_sources c.auth.jwt)
        × (cfg.fields.auth.jwt
            ≡ configured_sources c.auth.jwt ++ derived_source c.oauth_server c.token)
        × Distinct (names_in cfg.fields.auth.jwt)
        × (validate_acl cfg.fields.auth cfg.fields.acl ≡ none)
        × (cfg.fields.auth.saml ≡ c.auth.saml)
  validate-Loaded c cfg h =
      let (auth, oauth, acl, fields) = validate-Passed libs c cfg h in
      let (each, apart) =
        validate_auth-Unambiguous libs.crypto libs.oauth.uris.parse_request_uri libs.lookup_env
          (without_derived libs c).auth auth in
      let names =
        derived-Distinct (without_derived libs c).auth c.oauth_server c.token oauth apart.names in
      (
        apart,
        each,
        ap (λ (x : ConfigFields). x.auth.jwt) fields,
        subst (λ (x : ConfigFields). Distinct (names_in x.auth.jwt)) (sym fields) names,
        subst (λ (x : ConfigFields). validate_acl x.auth x.acl ≡ none) (sym fields) acl,
        ap (λ (x : ConfigFields). x.auth.saml) fields,
      )
