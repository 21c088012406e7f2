-- ===== src/Login.antt =====
-- internal/authn: the sessions of browser logins (login_refresh.go) and the choice among the
-- interactive methods (login_picker.go). The redemption of a refresh token at the provider, shared
-- among concurrent requests, is a parameter.
pub mod Callback
pub mod Endpoints
pub mod Logout
pub mod Redeem
use Prim.Native.Nat.{◌/◌}
use token_auth_proxy.Common.{
  ℕ, Bool, not, ◌&&◌, ◌||◌, Option, none, some, List, [], ◌∷◌, ◌++◌, is_empty, if◌then◌else◌, ltb,
  length,
}
use token_auth_proxy.Text.{Text, text, ◌==◌, contains, has_prefix}
use token_auth_proxy.Config.{
  JwtSource, JwtLogin, InboundAuth, login_enabled, login_sources, refresh_cookie_name, saml_enabled,
  basic_enabled,
}
use token_auth_proxy.Cookies.{value_of, first_line, take_cookies}
use token_auth_proxy.Jwt.{Carried, Tokens, extract_token_from}

-- A Set-Cookie of the response: a value with its age in seconds, or the removal of the cookie.
pub data SetCookie : Type 0 where
  set : Text → Text → ℕ → SetCookie
  clear : Text → SetCookie

pub data Redeemed : Type 0 where
  redeemed : Text → Text → ℕ → Redeemed
  refresh_rejected unreachable : Redeemed

abbrev pub max_cookie_value_len : ℕ
max_cookie_value_len = 3900

abbrev refresh_cookie : JwtLogin → Text → List SetCookie
refresh_cookie l token =
    if not l.refresh || (is_empty token || ltb max_cookie_value_len (length token))
    then []
    else set (refresh_cookie_name l) token (l.refresh_max_age / 1000000000) ∷ []

unfoldable pub set_session : JwtLogin → Text → ℕ → Text → List SetCookie
set_session l id_token max_age refresh_token =
    set l.cookie_name id_token max_age ∷ refresh_cookie l refresh_token

-- http.Request.AddCookie writes every cookie on the first line.
unfoldable pub add_cookie : List Text → Text → Text → List Text
add_cookie lines name value =
    let s = name ++ (text "=" ++ value) in
    (if is_empty (first_line lines) then s else first_line lines ++ (text "; " ++ s)) ∷ []

pub data Refreshed : Type 0 where
  responded : List SetCookie → Refreshed
  going_on : Carried → List SetCookie → Refreshed

abbrev text_or_empty : Option Text → Text
text_or_empty none = []
text_or_empty (some s) = s

module _ {Keys : Type 0} (tokens : Tokens Keys) (redeem : JwtSource → Text → Redeemed) where
  open tokens use {read_cookie}

  -- What one source's refresh token comes to, where it has one; `next` goes on with the others.
  abbrev renew :
      JwtSource
      → JwtLogin
      → Redeemed
      → Carried
      → List SetCookie
      → (List SetCookie → Refreshed)
      → Refreshed
  renew src l (redeemed id_token token max_age) c out next =
      going_on (record c { cookie_lines = add_cookie c.cookie_lines l.cookie_name id_token })
        (out ++ set_session l id_token max_age token)
  renew src l refresh_rejected c out next = next (out ++ clear (refresh_cookie_name l) ∷ [])
  renew src l unreachable c out next = responded out

  abbrev renew_with :
      JwtSource
      → Option JwtLogin
      → Text
      → Carried
      → List SetCookie
      → (List SetCookie → Refreshed)
      → Refreshed
  renew_with src none token c out next = next out
  renew_with src (some l) token c out next =
      if is_empty token || (not (login_enabled src) || not l.refresh)
      then next out
      else renew src l (redeem src token) c out next

  unfoldable pub refresh_sources :
      List JwtSource → List (Text × Text) → Carried → List SetCookie → Refreshed
  unfolding set_session add_cookie
  refresh_sources [] taken c out = going_on c out
  refresh_sources (src ∷ srcs) taken c out =
      renew_with src src.login (text_or_empty (value_of taken src.name)) c out
        (λ cookies. refresh_sources srcs taken c cookies)

  -- Only a request with no credential at all is renewed.
  unfoldable pub refresh : InboundAuth → List (Text × Text) → Carried → List SetCookie → Refreshed
  unfolding refresh_sources
  refresh auth taken c out =
      if is_empty taken then going_on c out else elim (extract_token_from read_cookie c auth.jwt) [
        | some found ↦ going_on c out
        | none ↦ refresh_sources auth.jwt taken c out
      ]

  abbrev drop_login :
      JwtSource → Option JwtLogin → Carried → List SetCookie → Carried × List SetCookie
  drop_login src none c out = (c, out)
  drop_login src (some l) c out = (
    record c { cookie_lines = (take_cookies ((l.cookie_name, src.name) ∷ []) c.cookie_lines).0 },
    out ++ clear l.cookie_name ∷ [],
  )

  unfoldable pub drop_stale_login :
      InboundAuth → Carried → List SetCookie → Carried × List SetCookie
  drop_stale_login auth c out = elim (extract_token_from read_cookie c auth.jwt) [
    | none ↦ (c, out)
    | some (raw, none) ↦ (c, out)
    | some (raw, some src) ↦ drop_login src src.login c out
  ]

pub data LoginMethod : Type 0 where
  by_jwt : Text → LoginMethod
  by_saml by_basic : LoginMethod

abbrev jwt_methods : List JwtSource → List LoginMethod
jwt_methods [] = []
jwt_methods (j ∷ js) = by_jwt j.name ∷ jwt_methods js

abbrev one_if : Bool → LoginMethod → List LoginMethod
one_if b m = if b then m ∷ [] else []

unfoldable pub login_methods : InboundAuth → List LoginMethod
login_methods auth =
    jwt_methods (login_sources auth)
    ++ (one_if (saml_enabled auth) by_saml ++ one_if (basic_enabled auth) by_basic)

abbrev pub login_method_cookie : Text
login_method_cookie = text "tap_login_method"

-- base64 is a parameter.
module _ (base64 : Text → Text) (read_cookie : List Text → Text → Option Text) where
  abbrev pub cookie_value : LoginMethod → Text
  cookie_value (by_jwt source) = text "jwt:" ++ base64 source
  cookie_value by_saml = text "saml"
  cookie_value by_basic = text "basic"

  unfoldable pub find_method : Text → List LoginMethod → Option LoginMethod
  find_method value [] = none
  find_method value (m ∷ ms) =
      let later = find_method value ms in if cookie_value m == value then some m else later

  unfoldable pub chosen_method : Carried → List LoginMethod → Option LoginMethod
  unfolding find_method
  chosen_method c methods = elim (read_cookie c.cookie_lines login_method_cookie) [
    | none ↦ none
    | some value ↦ find_method value methods
  ]

unfoldable pub browser_nav : Text → Carried → Bool
browser_nav method c =
    (method == text "GET" || method == text "HEAD")
    && contains (c.header (text "Accept")) (text "text/html")

unfoldable pub is_login_route : Text → Bool
is_login_route path = path == text "/_tap/login" || has_prefix path (text "/_tap/login/")

unfoldable pub is_logout_route : Text → Bool
is_logout_route path = path == text "/_tap/logout"

abbrev pub find_named : Text → List JwtSource → Option JwtSource
find_named name [] = none
find_named name (j ∷ js) =
    let later = find_named name js in if j.name == name then some j else later

-- `none` is the zero source.
unfoldable pub jwt_login_source : InboundAuth → Text → Option JwtSource
jwt_login_source auth name = find_named name (login_sources auth)
