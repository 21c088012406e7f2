-- ===== src/Login/Logout/Cleared.antt =====
-- internal/authn/logout.go: which cookies the logout removes, and where it sends the browser.
use token_auth_proxy.Common.{
  ◌≡◌, refl, sym, ap, ◌∙◌, subst, ◌⊎◌, inl, inr, Bool, true, false, not, ◌&&◌, Option, none, some,
  List, [], ◌∷◌, ◌++◌, In, In-append, if◌then◌else◌,
}
use token_auth_proxy.Text.{Text, text, ◌==◌}
use token_auth_proxy.Config.{
  JwtSource, JwtLogin, SamlSource, InboundAuth, login_enabled, refresh_cookie_name, saml_enabled,
}
use token_auth_proxy.Login.{SetCookie, clear, login_method_cookie}
use token_auth_proxy.Login.Callback.{ReturnUrl, sanitize_return_to}
use token_auth_proxy.Login.Callback.ReturnTo.{Within, sanitize_return_to-Within}
use token_auth_proxy.Login.Logout.{
  method_not_allowed, sent_on, cleared_by, saml_cleared, ending, cleared, target_of, serve_logout,
}

abbrev Both : JwtLogin → List SetCookie → Type 0
Both l cs = In (clear l.cookie_name) cs × In (clear (refresh_cookie_name l)) cs

cleared-Both :
    (js : List JwtSource) (j : JwtSource) (l : JwtLogin)
    → In j js
    → login_enabled j ≡ true
    → j.login ≡ some l
    → Both l (cleared js)
unfolding cleared
cleared-Both [] j l m e h = absurd m
cleared-Both (k ∷ js) j l m e h = elim m [
  | inl same ↦
      here k (ap login_enabled (sym same) ∙ e) (ap (λ (s : JwtSource). s.login) (sym same) ∙ h)
  | inr n ↦ later (login_enabled k) (cleared-Both js j l n e h)
]
  where
    Result : JwtSource → Bool → Type 0
    Result k b = Both l (if not b then cleared js else cleared_by k.login ++ cleared js)

    here : (k : JwtSource) → login_enabled k ≡ true → k.login ≡ some l → Result k (login_enabled k)
    here k t q =
        subst (Result k) (sym t)
          (subst (λ o. Both l (cleared_by o ++ cleared js)) (sym q) (inl refl, inr (inl refl)))

    later : (b : Bool) → Both l (cleared js) → Result k b
    later false (a, b) = (a, b)
    later true (a, b) = (
      In-append _ (cleared_by k.login) (cleared js) (inr a),
      In-append _ (cleared_by k.login) (cleared js) (inr b),
    )

answered :
    (b : Bool) (there target : Text) (ours cookies : List SetCookie)
    → (if b then method_not_allowed else sent_on there ours) ≡ sent_on target cookies
    → (there ≡ target) × (ours ≡ cookies)
answered true there target ours cookies h = absurd cc
answered false there target ours cookies h =
    let t : there ≡ target = cc in let c : ours ≡ cookies = cc in (t, c)

saml_cleared-In :
    (auth : InboundAuth) (s : SamlSource)
    → auth.saml ≡ some s
    → saml_enabled auth ≡ true
    → In (clear s.session_cookie) (saml_cleared auth auth.saml)
saml_cleared-In auth s q t =
    subst (λ o. In (clear s.session_cookie) (saml_cleared auth o)) (sym q)
      (subst (λ b. In (clear s.session_cookie) (if b then clear s.session_cookie ∷ [] else []))
        (sym t) (inl refl))

module _ (parse_url : Text → Option ReturnUrl) (read_cookie : Text → Option Text)
    (end_session_url : JwtSource → Option Text)
    (with_query : Text → Text → Text → Option Text) where
  -- Where the logout is served, the browser's cookies of every login that is on, of the SAML session where
  -- SAML is on and of the remembered method are removed, whatever the request carried; and where no source
  -- ends its provider's session, the browser is sent to the root or to a reference on this host.
  pub serve_logout-cleared :
      (method return_to target : Text) (auth : InboundAuth) (cookies : List SetCookie)
      → serve_logout parse_url read_cookie end_session_url with_query method return_to auth
        ≡ sent_on target cookies
      → ((j : JwtSource) (l : JwtLogin)
          → In j auth.jwt
          → login_enabled j ≡ true
          → j.login ≡ some l
          → In (clear l.cookie_name) cookies × In (clear (refresh_cookie_name l)) cookies)
        × ((s : SamlSource)
            → auth.saml ≡ some s
            → saml_enabled auth ≡ true
            → In (clear s.session_cookie) cookies)
        × In (clear login_method_cookie) cookies
        × (ending read_cookie auth.jwt none ≡ none
            → (target ≡ text "/") ⊎ Within parse_url return_to target)
  unfolding serve_logout
  serve_logout-cleared method return_to target auth cookies h = (
    λ j l m e q.
        let (a, b) = cleared-Both auth.jwt j l m e q in
        (
          subst (In (clear l.cookie_name)) is_ours (In-append _ (cleared auth.jwt) others (inl a)),
          subst (In (clear (refresh_cookie_name l))) is_ours
              (In-append _ (cleared auth.jwt) others (inl b)),
        ),
    λ s q t. subst (In (clear s.session_cookie)) is_ours (
        In-append _ (cleared auth.jwt) others (
          inr (
            In-append _ (saml_cleared auth auth.saml) method_cleared
              (inl (saml_cleared-In auth s q t))))),
    subst (In (clear login_method_cookie)) is_ours (
        In-append _ (cleared auth.jwt) others
          (inr (In-append _ (saml_cleared auth auth.saml) method_cleared (inr (inl refl))))),
    λ none_ends.
        subst (λ t. (t ≡ text "/") ⊎ Within parse_url return_to t)
          (sym (ap (target_of parse_url read_cookie end_session_url with_query stay) none_ends)
            ∙ is_there)
          (sanitize_return_to-Within parse_url return_to),
  )
    where
      stay : Text
      stay = sanitize_return_to parse_url return_to

      method_cleared : List SetCookie
      method_cleared = clear login_method_cookie ∷ []

      others : List SetCookie
      others = saml_cleared auth auth.saml ++ method_cleared

      parts :
          (target_of parse_url read_cookie end_session_url with_query stay
              (ending read_cookie auth.jwt none)
            ≡ target)
          × (cleared auth.jwt ++ others ≡ cookies)
      parts =
          answered
            (not (method == text "GET")
              && (not (method == text "HEAD") && not (method == text "POST")))
            _ target _ cookies h

      is_there :
          target_of parse_url read_cookie end_session_url with_query stay
            (ending read_cookie auth.jwt none)
          ≡ target
      is_there = parts.0

      is_ours : cleared auth.jwt ++ others ≡ cookies
      is_ours = parts.1
