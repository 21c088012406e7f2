-- ===== src/Login/Callback/ReturnTo.antt =====
-- internal/authn/login.go: where a browser is sent after a login or a logout.
use token_auth_proxy.Common.{
  ◌≡◌, refl, ◌⊎◌, inl, inr, Bool, true, false, not, ◌||◌, Option, none, some, [], ◌∷◌, is_empty,
  if◌then◌else◌, any, All, any-false,
}
use token_auth_proxy.Text.{Text, text, has_prefix}
use token_auth_proxy.Login.Callback.{
  root, ReturnUrl, splits_header, is_own, reference_of, sanitize_return_to,
}

is_empty_iff : (s : Text) → is_empty s ≡ true → s ≡ []
is_empty_iff [] h = refl
is_empty_iff (c ∷ s) h = absurd cc

pub ||-false : (a b : Bool) → (a || b) ≡ false → (a ≡ false) × (b ≡ false)
||-false false b h = (refl, h)
||-false true b h = absurd cc

pub not-false : (a : Bool) → not a ≡ false → a ≡ true
not-false true h = refl
not-false false h = absurd cc

guarded :
    (b : Bool) (x : Text) (P : Text → Type 0)
    → (b ≡ false → (x ≡ root) ⊎ P x)
    → ((if b then root else x) ≡ root) ⊎ P (if b then root else x)
guarded true x P h = inl refl
guarded false x P h = h refl

-- A reference within the proxy's own origin that is none of the proxy's own routes.
abbrev pub Within : (Text → Option ReturnUrl) → Text → Text → Type 0
Within parse_url raw out =
    (has_prefix raw root ≡ true)
    × (has_prefix raw (text "//") ≡ false)
    × All (λ c. splits_header c ≡ false) raw
    × ((u : ReturnUrl) × (parse_url raw ≡ some u)
        × (u.scheme ≡ [])
        × (u.host ≡ [])
        × (is_own u.path ≡ false)
        × (out ≡ u.request_uri))

module _ (parse_url : Text → Option ReturnUrl) where
  reference_of-Within :
      (raw : Text) (o : Option ReturnUrl)
      → parse_url raw ≡ o
      → has_prefix raw root ≡ true
      → has_prefix raw (text "//") ≡ false
      → any splits_header raw ≡ false
      → (reference_of parse_url o ≡ root) ⊎ Within parse_url raw (reference_of parse_url o)
  reference_of-Within raw none e p q a = inl refl
  reference_of-Within raw (some u) e p q a =
      guarded (not (is_empty u.scheme) || not (is_empty u.host))
        (if is_own u.path then root else u.request_uri) (Within parse_url raw)
        (λ f.
          let (s, h) = ||-false (not (is_empty u.scheme)) (not (is_empty u.host)) f in
          guarded (is_own u.path) u.request_uri (Within parse_url raw) (λ g. inr (
            p,
            q,
            any-false splits_header raw a,
            (
              u,
              e,
              is_empty_iff u.scheme (not-false (is_empty u.scheme) s),
              is_empty_iff u.host (not-false (is_empty u.host) h),
              g,
              refl,
            ),
          )))

  -- The reference that a browser is sent to after a login or a logout is "/", unless the given one
  -- begins with one slash and not with two, has no backslash, carriage return or line feed, and
  -- parses as a URL with no scheme and no host, whose path is not a route of the proxy itself; then
  -- it is the reference that this URL is written as.
  pub sanitize_return_to-Within :
      (raw : Text)
      → (sanitize_return_to parse_url raw ≡ root)
        ⊎ Within parse_url raw (sanitize_return_to parse_url raw)
  unfolding sanitize_return_to
  sanitize_return_to-Within raw =
      guarded
        (is_empty raw
          || (not (has_prefix raw root) || (has_prefix raw (text "//") || any splits_header raw)))
        (reference_of parse_url (parse_url raw)) (Within parse_url raw)
        (λ e.
          let (_, e1) =
            ||-false (is_empty raw)
              (not (has_prefix raw root) || (has_prefix raw (text "//") || any splits_header raw))
              e in
          let (p, e2) =
            ||-false (not (has_prefix raw root))
              (has_prefix raw (text "//") || any splits_header raw) e1 in
          let (q, a) = ||-false (has_prefix raw (text "//")) (any splits_header raw) e2 in
          reference_of-Within raw (parse_url raw) refl (not-false (has_prefix raw root) p) q a)
