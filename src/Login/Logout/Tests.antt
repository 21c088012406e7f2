-- ===== src/Login/Logout/Tests.antt =====
-- Logouts, with the cookies that they remove.
use token_auth_proxy.Common.{◌≡◌, ◌⊎◌, refl, true, Option, none, some, List, [], ◌∷◌, In}
use token_auth_proxy.Text.{Text, text, ◌==◌}
use token_auth_proxy.Config.{
  JwtSource, JwtLogin, SamlSource, InboundAuth, login_enabled, refresh_cookie_name, saml_enabled,
}
use token_auth_proxy.Settings.Tests.{saml, auth}
use token_auth_proxy.Login.{SetCookie, clear, login_method_cookie}
use token_auth_proxy.Login.Callback.{ReturnUrl, sanitize_return_to}
use token_auth_proxy.Login.Callback.ReturnTo.{Within}
use token_auth_proxy.Login.Logout.{sent_on, ending, cleared, serve_logout}
use token_auth_proxy.Login.Logout.Cleared.{serve_logout-cleared}

abbrev no_url : Text → Option ReturnUrl
no_url t = none

abbrev no_cookie : Text → Option Text
no_cookie n = none

abbrev no_endpoint : JwtSource → Option Text
no_endpoint j = none

abbrev no_query : Text → Text → Text → Option Text
no_query u t p = none

abbrev both_on : InboundAuth
both_on = auth (saml (text "/acs") (text "session"))

abbrev removed : List SetCookie
removed =
    clear (text "s")
    ∷ clear (text "s_refresh")
    ∷ clear (text "session")
    ∷ clear login_method_cookie
    ∷ []

logged_out :
    serve_logout no_url no_cookie no_endpoint no_query (text "GET") [] both_on
    ≡ sent_on (text "/") removed
unfolding serve_logout ending cleared sanitize_return_to ◌==◌
logged_out = refl

serve_logout-cleared_example :
    ((j : JwtSource) (l : JwtLogin)
      → In j both_on.jwt
      → login_enabled j ≡ true
      → j.login ≡ some l
      → In (clear l.cookie_name) removed × In (clear (refresh_cookie_name l)) removed)
    × ((s : SamlSource)
        → both_on.saml ≡ some s
        → saml_enabled both_on ≡ true
        → In (clear s.session_cookie) removed)
    × In (clear login_method_cookie) removed
    × (ending no_cookie both_on.jwt none ≡ none
        → (text "/" ≡ text "/") ⊎ Within no_url [] (text "/"))
serve_logout-cleared_example =
    serve_logout-cleared no_url no_cookie no_endpoint no_query (text "GET") [] (text "/") both_on
      removed logged_out
