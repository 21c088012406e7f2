-- ===== src/Common/Checks.antt =====
-- Go's `error` results: `none` is nil. Checks run in order, and the first error is returned.
use Prim.Native.Nat.{ℕ, ◌+◌}
use mathlib.Core.Path.{◌≡◌, refl}
use mathlib.Core.Bool.{Bool, true, false}
use mathlib.Core.Option.{Option, none, some}
use mathlib.Core.List.{List, [], ◌∷◌}
use mathlib.Core.Logic.{inl, inr}
use token_auth_proxy.Common.Lists.{All}
use token_auth_proxy.Common.Tests.{Option-cases}

module _ {ℓ} {E : Type ℓ} where
  -- `if err := first; err != nil { return err }; return second`
  infixr 3 ◌before◌
  unfoldable pub ◌before◌ : Option E → Option E → Option E
  none before second = second
  some e before second = some e

  -- `if test { return err }`
  abbrev pub fail_if : Bool → E → Option E
  fail_if true e = some e
  fail_if false e = none

  -- `for i, a := range xs { if err := check(a); err != nil { return wrap(i, err) } }`
  abbrev pub check_from {κ} : {A : Type κ} → (ℕ → E → E) → (A → Option E) → ℕ → List A → Option E
  check_from wrap check i [] = none
  check_from wrap check i (a ∷ rest) = elim (check a) [
    | none ↦ check_from wrap check (i + 1) rest
    | some e ↦ some (wrap i e)
  ]

  pub before-none : (a b : Option E) → (a before b) ≡ none → (a ≡ none) × (b ≡ none)
  unfolding ◌before◌
  before-none none b h = (refl, h)
  before-none (some e) b h = absurd cc

  pub fail_if-none : (b : Bool) (e : E) → fail_if b e ≡ none → b ≡ false
  fail_if-none true e h = absurd cc
  fail_if-none false e h = refl

  pub check_from-none {κ} :
      {A : Type κ} (wrap : ℕ → E → E) (check : A → Option E) (i : ℕ) (xs : List A)
      → check_from wrap check i xs ≡ none
      → All (λ a. check a ≡ none) xs
  check_from-none wrap check i [] h = tt
  check_from-none wrap check i (a ∷ rest) h = elim (Option-cases (check a)) [
    | inl n ↦ (n, check_from-none wrap check (i + 1) rest (rw (n, check_from) at h))
    | inr (e, p) ↦ absurd (let k : some (wrap i e) ≡ none = rw (p, check_from) at h in cc)
  ]
