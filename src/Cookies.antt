-- ===== src/Cookies.antt =====
-- internal/authn/login_refresh.go: takeCookies and TakeRefreshCookies, on the lines of a request's
-- Cookie header. A Go map is a list of pairs in which the latest assignment comes first.
pub mod Taken
mod Tests
use token_auth_proxy.Common.{
  ℕ, Bool, true, false, ◌&&◌, Option, none, some, List, [], ◌∷◌, is_empty, if◌then◌else◌, eqb,
}
use token_auth_proxy.Text.{Text, text, ◌==◌, cut, join, trim_space}
use token_auth_proxy.Text.Trim.{split_on}
use token_auth_proxy.Config.{JwtLogin, JwtSource, login_enabled, refresh_cookie_name}

unfoldable pub value_of : List (Text × Text) → Text → Option Text
value_of [] name = none
value_of ((k, v) ∷ m) name = let later = value_of m name in if k == name then some v else later

-- strings.Trim(value, `"`)
abbrev is_quote : ℕ → Bool
is_quote c = eqb c 34

unfoldable pub unquote_left : Text → Text
unquote_left [] = []
unquote_left (c ∷ s) = let rest = unquote_left s in if is_quote c then rest else c ∷ s

unfoldable pub unquote_right : Text → Text
unquote_right [] = []
unquote_right (c ∷ s) = elim (unquote_right s) [
  | [] ↦ if is_quote c then [] else c ∷ []
  | d ∷ r ↦ c ∷ d ∷ r
]

-- strings.Cut(part, "="), which gives the whole part and no value where there is no "=".
abbrev pub name_and_value : Text → Text × Text
name_and_value part = elim (cut b'=' part) [
  | none ↦ (part, [])
  | some (name, value) ↦ (name, value)
]

-- The key that the part's cookie is to be taken under.
unfoldable pub key_of_part : List (Text × Text) → Text → Option Text
key_of_part names part = value_of names (name_and_value part).0

abbrev value_of_part : Text → Text
value_of_part part = unquote_right (unquote_left (name_and_value part).1)

abbrev keep_part : Text → List Text × List (Text × Text) → List Text × List (Text × Text)
keep_part part (kept, taken) = (part ∷ kept, taken)

unfoldable pub take_parts :
    List (Text × Text) → List Text → List (Text × Text) → List Text × List (Text × Text)
unfolding key_of_part unquote_left unquote_right
take_parts names [] taken = ([], taken)
take_parts names (part ∷ parts) taken = elim (key_of_part names (trim_space part)) [
  | none ↦ keep_part (trim_space part) (take_parts names parts taken)
  | some key ↦ take_parts names parts ((key, value_of_part (trim_space part)) ∷ taken)
]

abbrev keep_line : List Text → List Text → List Text
keep_line [] lines = lines
keep_line (p ∷ ps) lines = join (text "; ") (p ∷ ps) ∷ lines

unfoldable pub take_lines :
    List (Text × Text) → List Text → List (Text × Text) → List Text × List (Text × Text)
unfolding take_parts
take_lines names [] taken = ([], taken)
take_lines names (line ∷ lines) taken =
    let (kept, taken') = take_parts names (split_on b';' line) taken in
    let (rest, out) = take_lines names lines taken' in (keep_line kept rest, out)

-- r.Header.Get: the first line, or nothing.
abbrev pub first_line : List Text → Text
first_line [] = []
first_line (l ∷ ls) = l

abbrev if_changed : List Text → List Text × List (Text × Text) → List Text × List (Text × Text)
if_changed lines (kept, []) = (lines, [])
if_changed lines (kept, t ∷ ts) = (kept, t ∷ ts)

-- The header's lines afterwards, and the values taken.
unfoldable pub take_cookies : List (Text × Text) → List Text → List Text × List (Text × Text)
unfolding take_lines
take_cookies names lines =
    if is_empty (first_line lines)
    then (lines, [])
    else if_changed lines (take_lines names lines [])

abbrev refreshes : Option JwtLogin → Bool
refreshes none = false
refreshes (some l) = l.refresh

abbrev add_name : JwtSource → Option JwtLogin → List (Text × Text) → List (Text × Text)
add_name j none names = names
add_name j (some l) names = (refresh_cookie_name l, j.name) ∷ names

unfoldable pub refresh_names : List JwtSource → List (Text × Text) → List (Text × Text)
refresh_names [] names = names
refresh_names (j ∷ js) names =
    refresh_names js
      (if login_enabled j && refreshes j.login then add_name j j.login names else names)

unfoldable pub take_refresh_cookies : List JwtSource → List Text → List Text × List (Text × Text)
unfolding take_cookies refresh_names
take_refresh_cookies js lines =
    let names = refresh_names js [] in
    if is_empty names then (lines, []) else take_cookies names lines
