-- ===== src/Login/Logout.antt =====
-- internal/authn/logout.go: the logout route. What a source's endpoints come to, reading a cookie, and
-- adding parameters to a URL are parameters.
pub mod Cleared
mod Tests
use token_auth_proxy.Common.{
  ◌≡◌, refl, sym, ap, ◌∙◌, subst, ◌⊎◌, inl, inr, Bool, true, false, not, ◌&&◌, ◌||◌, Option, none,
  some, List, [], ◌∷◌, ◌++◌, is_empty, In, if◌then◌else◌, Bool-cases,
}
use token_auth_proxy.Text.{Text, text, ◌==◌}
use token_auth_proxy.Config.{
  JwtSource, JwtLogin, SamlSource, InboundAuth, login_enabled, refresh_cookie_name, saml_enabled,
}
use token_auth_proxy.Login.{SetCookie, clear, login_method_cookie}
use token_auth_proxy.Login.Callback.{ReturnUrl, sanitize_return_to}
use token_auth_proxy.Login.Callback.ReturnTo.{Within, sanitize_return_to-Within}

pub data LogoutAnswer : Type 0 where
  method_not_allowed : LogoutAnswer
  sent_on : Text → List SetCookie → LogoutAnswer

-- Where the provider's own session ends, and with which token.
abbrev pub Ending : Type 0
Ending = Option (JwtSource × Text)

abbrev pub ends_with : JwtSource → JwtLogin → Option Text → Ending → Ending
ends_with j l c (some e) = some e
ends_with j l none none = none
ends_with j l (some v) none = if not (is_empty v) && l.end_session then some (j, v) else none

abbrev pub cleared_by : Option JwtLogin → List SetCookie
cleared_by none = []
cleared_by (some l) = clear l.cookie_name ∷ clear (refresh_cookie_name l) ∷ []

abbrev pub saml_cleared : InboundAuth → Option SamlSource → List SetCookie
saml_cleared auth none = []
saml_cleared auth (some s) = if saml_enabled auth then clear s.session_cookie ∷ [] else []

module _ (read_cookie : Text → Option Text) where
  abbrev pub ending_at : JwtSource → Option JwtLogin → Ending → Ending
  ending_at j none e = e
  ending_at j (some l) e = ends_with j l (read_cookie l.cookie_name) e

  -- The first source that ends its provider's session and has a token.
  unfoldable pub ending : List JwtSource → Ending → Ending
  ending [] e = e
  ending (j ∷ js) e = ending js (if not (login_enabled j) then e else ending_at j j.login e)

unfoldable pub cleared : List JwtSource → List SetCookie
cleared [] = []
cleared (j ∷ js) =
    let rest = cleared js in if not (login_enabled j) then rest else cleared_by j.login ++ rest

module _ (parse_url : Text → Option ReturnUrl) (read_cookie : Text → Option Text)
    (end_session_url : JwtSource → Option Text)
    (with_query : Text → Text → Text → Option Text) where
  -- endSessionURL: the endpoint with the token and where the browser comes back to.
  abbrev pub ended_at : JwtSource → Text → Option JwtLogin → Option Text → Option Text
  ended_at j token none u = none
  ended_at j token (some l) none = none
  ended_at j token (some l) (some u) =
      if is_empty u then none else with_query u token l.post_logout_redirect_uri

  abbrev pub or_stay : Text → Option Text → Text
  or_stay stay none = stay
  or_stay stay (some u) = u

  abbrev pub target_of : Text → Ending → Text
  target_of stay none = stay
  target_of stay (some (j, token)) = or_stay stay (ended_at j token j.login (end_session_url j))

  -- serveLogout
  unfoldable pub serve_logout : Text → Text → InboundAuth → LogoutAnswer
  unfolding sanitize_return_to ending cleared
  serve_logout method return_to auth =
      if not (method == text "GET") && (not (method == text "HEAD") && not (method == text "POST"))
      then method_not_allowed
      else sent_on
          (target_of (sanitize_return_to parse_url return_to) (ending read_cookie auth.jwt none))
          (cleared auth.jwt ++ (saml_cleared auth auth.saml ++ (clear login_method_cookie ∷ [])))
