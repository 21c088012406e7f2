-- ===== src/PromLabel/Scope/Routing.antt =====
-- Which prefix and endpoint a path is enforced by.
use token_auth_proxy.Common.{
  ◌≡◌, refl, Bool, true, false, ◌||◌, Option, none, some, List, [], ◌∷◌, ◌++◌, if◌then◌else◌,
  Bool-cases, inl, inr, subst, First, First-here, First-later,
}
use token_auth_proxy.Text.{Text, text, ◌==◌, has_prefix, cut_prefix}
use token_auth_proxy.PromLabel.Scope.{Endpoint, is_enforced, endpoint_for, or_same, route}

-- The path is the prefix or lies below it.
abbrev pub under : Text → Text → Bool
under path p = path == p || has_prefix path (p ++ text "/")

enforced_here :
    (b : Bool) (e e' : Endpoint) (p p' : Text)
    → is_enforced e ≡ b
    → ◌≡◌ {A = Option (Endpoint × Text)} (if b then some (e, p) else none) (some (e', p'))
    → (e ≡ e') × (p ≡ p') × (is_enforced e ≡ true)
enforced_here true e e' p p' h k = (cc, cc, h)
enforced_here false e e' p p' h k = absurd cc

-- A request is enforced by the first of the prefixes that its path lies under, and by no later one,
-- and the endpoint is that of the rest of the path.
pub route-First :
    (ps : List Text) (method path : Text) (e : Endpoint) (p : Text)
    → route ps method path ≡ some (e, p)
    → First (under path) ps p
      × (endpoint_for method (or_same (cut_prefix path p) path) ≡ e)
      × (is_enforced e ≡ true)
unfolding route
route-First [] method path e p h = absurd cc
route-First (q ∷ qs) method path e p h = elim (Bool-cases (under path q)) [
  | inl t ↦
      let here = endpoint_for method (or_same (cut_prefix path q) path) in
      let (same, at, ok) = enforced_here (is_enforced here) here e q p refl (rw t at h) in
      let first : First (under path) (q ∷ qs) p =
        subst (λ x. First (under path) (q ∷ qs) x) at (First-here (under path) q qs t) in
      let end : endpoint_for method (or_same (cut_prefix path p) path) ≡ e =
        subst (λ x. endpoint_for method (or_same (cut_prefix path x) path) ≡ e) at same in
      (first, end, subst (λ x. is_enforced x ≡ true) same ok)
  | inr f ↦
      let (first, end, ok) = route-First qs method path e p (rw f at h) in
      (First-later (under path) q p qs f first, end, ok)
]
