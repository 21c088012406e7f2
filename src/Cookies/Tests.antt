-- ===== src/Cookies/Tests.antt =====
-- Cookies taken off concrete headers, and the theorem at a concrete input.
use token_auth_proxy.Common.{◌≡◌, List, [], ◌∷◌, keep, refl}
use token_auth_proxy.Text.{Text, text, ◌==◌, cut, join, trim_space, trim_left, trim_right}
use token_auth_proxy.Text.Trim.{split_on}
use token_auth_proxy.Cookies.{
  value_of, key_of_part, take_parts, take_lines, take_cookies, unquote_left, unquote_right,
}
use token_auth_proxy.Cookies.Taken.{cookies, unnamed, take_cookies-cookies}

abbrev names : List (Text × Text)
names = (text "tok_refresh", text "idp") ∷ []

taken_first :
    take_cookies names (text "a=1; tok_refresh=r; b=2" ∷ [])
    ≡ ((text "a=1; b=2" ∷ []), ((text "idp", text "r") ∷ []))
unfolding take_cookies take_lines take_parts key_of_part value_of unquote_left unquote_right
    split_on trim_space trim_left trim_right cut join ◌==◌
taken_first = refl

-- Behind an empty first line, a refresh cookie is neither taken nor removed.
left_behind :
    take_cookies names ([] ∷ text "tok_refresh=r" ∷ []) ≡ (([] ∷ text "tok_refresh=r" ∷ []), [])
unfolding take_cookies
left_behind = refl

take_cookies-cookies_example :
    cookies (take_cookies names (text "a=1; tok_refresh=r; b=2" ∷ [])).0
    ≡ keep (unnamed names) (cookies (text "a=1; tok_refresh=r; b=2" ∷ []))
take_cookies-cookies_example =
    take_cookies-cookies names (text "a=1; tok_refresh=r; b=2" ∷ []) (λ e. cc)
