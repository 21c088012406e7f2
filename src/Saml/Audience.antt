-- ===== src/Saml/Audience.antt =====
-- internal/authn/saml.go: the check of an assertion's audience restrictions, where further audiences are
-- configured.
use token_auth_proxy.Common.{
  ◌≡◌, refl, ◌↔◌, ◌⊎◌, Bool, true, false, ◌||◌, Option, none, some, List, [], ◌∷◌, any, any_iff,
  Some, inl, inr,
}
use token_auth_proxy.Text.{Text, ◌==◌, ==_iff}

-- The conditions of the assertion may be missing.
abbrev pub names_audience : Text → List Text → Text → Bool
names_audience sp extra a = a == sp || any (λ e. a == e) extra

unfoldable pub validate_audience : Option (List Text) → Text → List Text → Bool
validate_audience none sp extra = true
validate_audience (some []) sp extra = true
validate_audience (some (a ∷ as')) sp extra = any (names_audience sp extra) (a ∷ as')

either_iff : (a b : Bool) → ((a || b) ≡ true) ↔ ((a ≡ true) ⊎ (b ≡ true))
either_iff true b = (λ h. inl refl, λ h. refl)
either_iff false b = (λ h. inr h, λ h. elim h [ inl e ↦ absurd cc | inr e ↦ e ])

-- Of the restrictions, if there are any, one must name the provider itself or one of the audiences.
pub validate_audience_iff :
    (a : Text) (rest : List Text) (sp : Text) (extra : List Text)
    → (validate_audience (some (a ∷ rest)) sp extra ≡ true)
      ↔ Some (λ x. (x ≡ sp) ⊎ Some (λ e. x ≡ e) extra) (a ∷ rest)
unfolding validate_audience
validate_audience_iff a rest sp extra =
    any_iff (names_audience sp extra) (λ x. (x ≡ sp) ⊎ Some (λ e. x ≡ e) extra)
      (λ x.
        let (one, other) = any_iff (λ e. x == e) (λ e. x ≡ e) (λ e. ==_iff x e) extra in
        let (split, join) = either_iff (x == sp) (any (λ e. x == e) extra) in
        let (to, from) = ==_iff x sp in
        (
          λ h. elim (split h) [ inl t ↦ inl (to t) | inr s ↦ inr (one s) ],
          λ h. join (elim h [ inl e ↦ inl (from e) | inr s ↦ inr (other s) ]),
        ))
      (a ∷ rest)
