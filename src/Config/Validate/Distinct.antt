-- ===== src/Config/Validate/Distinct.antt =====
-- internal/config/auth.go: names, paths and cookies that are marked as used are distinct.
use token_auth_proxy.Common.{
  ℕ, suc, ◌≡◌, ◌≢◌, refl, sym, ◌⊎◌, inl, inr, Bool, true, false, ◌||◌, Option, none, some, List, [],
  ◌∷◌, ◌++◌, map, if◌then◌else◌, before-none, fail_if, fail_if-none, In, All, Bool-cases,
}
use token_auth_proxy.Text.{Text, ◌==◌, ==_iff}
use token_auth_proxy.Config.{JwtLogin, JwtSource, SamlSource, BasicSource, refresh_cookie_name}
use token_auth_proxy.Config.Validate.{
  AuthError, path_used, cookie_used, path_is_acs, cookie_is_session, has,
}
use token_auth_proxy.Config.Validate.Auth.{
  Seen, mark_unique, login_unused, paths_after, cookies_after, active_login, seen_after, at_jwt,
  each_jwt, login_apart, is_session_cookie, takes_basic, all_seen,
}

-- No text stands in a list twice.
abbrev pub Distinct : List Text → Type 0
Distinct [] = Unit
Distinct (x ∷ xs) = (In x xs → ⊥) × Distinct xs

abbrev pub paths_of : Option JwtLogin → List Text
paths_of none = []
paths_of (some l) = l.callback_path ∷ []

abbrev pub set_cookies_of : Option JwtLogin → List Text
set_cookies_of none = []
set_cookies_of (some l) =
    if l.refresh then l.cookie_name ∷ refresh_cookie_name l ∷ [] else l.cookie_name ∷ []

abbrev pub names_in : List JwtSource → List Text
names_in js = map (λ j. j.name) js

-- The callback paths of the logins that are on, and the cookies that they set.
abbrev pub paths_in : List JwtSource → List Text
paths_in [] = []
paths_in (j ∷ js) = paths_of (active_login j) ++ paths_in js

abbrev pub cookies_in : List JwtSource → List Text
cookies_in [] = []
cookies_in (j ∷ js) = set_cookies_of (active_login j) ++ cookies_in js

-- Texts that differ from each other and from those of `seen`.
abbrev pub Free : List Text → List Text → Type 0
Free seen xs = All (λ x. In x seen → ⊥) xs × Distinct xs

has-In : (xs : List Text) (s : Text) → has xs s ≡ false → In s xs → ⊥
has-In [] s h m = m
has-In (x ∷ xs) s h (inl e) =
    absurd (let t = (==_iff x s).1 (sym e) in let k : (true || has xs s) ≡ false = rw t at h in cc)
has-In (x ∷ xs) s h (inr m) = elim (Bool-cases (x == s)) [
  | inl t ↦ absurd (let k : (true || has xs s) ≡ false = rw t at h in cc)
  | inr f ↦ has-In xs s (rw f at h) m
]

pub mark_unique-In :
    (e : AuthError) (seen : List Text) (s : Text) → mark_unique e seen s ≡ none → In s seen → ⊥
mark_unique-In e seen s h = has-In seen s (fail_if-none (has seen s) e h)

unseen :
    (x : Text) (seen xs : List Text)
    → All (λ y. In y (x ∷ seen) → ⊥) xs
    → All (λ y. In y seen → ⊥) xs × (In x xs → ⊥)
unseen x seen [] h = (tt, λ m. m)
unseen x seen (y ∷ ys) h =
    let (rest, apart) = unseen x seen ys h.1 in
    ((λ m. h.0 (inr m), rest), λ m. elim m [ inl e ↦ h.0 (inl (sym e)) | inr k ↦ apart k ])

pub cons-Free :
    (x : Text) (seen xs : List Text) → (In x seen → ⊥) → Free (x ∷ seen) xs → Free seen (x ∷ xs)
cons-Free x seen xs n f = let (rest, apart) = unseen x seen xs f.0 in ((n, rest), (apart, f.1))

pub login-paths :
    (seen : Seen) (o : Option JwtLogin) (xs : List Text)
    → login_unused seen o ≡ none
    → Free (paths_after seen.paths o) xs
    → Free seen.paths (paths_of o ++ xs)
login-paths seen none xs h f = f
login-paths seen (some l) xs h f =
    let (p, _) = before-none (mark_unique path_used seen.paths l.callback_path) _ h in
    cons-Free l.callback_path seen.paths xs (mark_unique-In path_used seen.paths l.callback_path p)
      f

cookie-Free :
    (b : Bool) (name refresh : Text) (seen xs : List Text)
    → mark_unique cookie_used seen name ≡ none
    → (if b then mark_unique cookie_used (name ∷ seen) refresh else none) ≡ none
    → Free ((if b then refresh ∷ name ∷ [] else name ∷ []) ++ seen) xs
    → Free seen ((if b then name ∷ refresh ∷ [] else name ∷ []) ++ xs)
cookie-Free true name refresh seen xs h k f =
    cons-Free name seen (refresh ∷ xs) (mark_unique-In cookie_used seen name h)
      (cons-Free refresh (name ∷ seen) xs (mark_unique-In cookie_used (name ∷ seen) refresh k) f)
cookie-Free false name refresh seen xs h k f =
    cons-Free name seen xs (mark_unique-In cookie_used seen name h) f

pub login-cookies :
    (seen : Seen) (o : Option JwtLogin) (xs : List Text)
    → login_unused seen o ≡ none
    → Free (cookies_after seen.cookies o) xs
    → Free seen.cookies (set_cookies_of o ++ xs)
login-cookies seen none xs h f = f
login-cookies seen (some l) xs h f =
    let (_, k) = before-none (mark_unique path_used seen.paths l.callback_path) _ h in
    let (c, r) = before-none (mark_unique cookie_used seen.cookies l.cookie_name) _ k in
    cookie-Free l.refresh l.cookie_name (refresh_cookie_name l) seen.cookies xs c r f

pub at_jwt-none : (i : ℕ) (o : Option AuthError) → at_jwt i o ≡ none → o ≡ none
at_jwt-none i none h = refl
at_jwt-none i (some e) h = absurd cc

pub each_jwt-none :
    (check : JwtSource → Option AuthError) (i : ℕ) (js : List JwtSource)
    → each_jwt check i js ≡ none
    → All (λ j. check j ≡ none) js
each_jwt-none check i [] h = tt
each_jwt-none check i (j ∷ js) h =
    let (now, later) = before-none (at_jwt i (check j)) (each_jwt check (suc i) js) h in
    (at_jwt-none i (check j) now, each_jwt-none check (suc i) js later)

-- A name that no source before has used differs from that of every source.
pub names-apart :
    (name : Text) (js : List JwtSource) (seen : Seen)
    → (In name (all_seen seen js).names → ⊥)
    → (In name seen.names → ⊥) × All (λ j. j.name ≢ name) js
names-apart name [] seen h = (h, tt)
names-apart name (j ∷ js) seen h =
    let (now, later) = names-apart name js (seen_after seen j) h in
    (λ m. now (inr m), (λ e. now (inl (sym e)), later))

-- What a login and the locations of a source have in common with the SAML source: nothing.
abbrev pub LoginApart : SamlSource → Option JwtLogin → Type 0
LoginApart s none = Unit
LoginApart s (some l) = (l.callback_path ≢ s.acs_path) × (l.cookie_name ≢ s.session_cookie)

abbrev pub SamlApart : Option SamlSource → JwtSource → Type 0
SamlApart none j = Unit
SamlApart (some s) j =
    (j.name ≢ s.name)
    × LoginApart s j.login
    × All (λ c. is_session_cookie s c ≡ false) j.credentials

abbrev pub BasicApart : Option BasicSource → JwtSource → Type 0
BasicApart none j = Unit
BasicApart (some b) j =
    (b.disabled ≡ true) ⊎ ((j.disabled ≡ true) ⊎ All (λ c. takes_basic c ≡ false) j.credentials)

not_same : (s t : Text) (e : AuthError) → fail_if (s == t) e ≡ none → s ≢ t
not_same s t e h = λ p. absurd (let k = fail_if-none (s == t) e h in let t = (==_iff s t).1 p in cc)

pub login-Apart : (s : SamlSource) (o : Option JwtLogin) → login_apart s o ≡ none → LoginApart s o
login-Apart s none h = tt
login-Apart s (some l) h =
    let (p, c) = before-none (fail_if (l.callback_path == s.acs_path) path_is_acs) _ h in
    (
      not_same l.callback_path s.acs_path path_is_acs p,
      not_same l.cookie_name s.session_cookie cookie_is_session c,
    )
