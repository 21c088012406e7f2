-- ===== src/Common/Lists.antt =====
-- Lists over the native numbers, membership by recursion, and the loops `any` and `all`.
use Prim.Native.Nat.{ℕ, suc, ◌+◌}
use mathlib.Core.Path.{◌≡◌, refl, ap}
use mathlib.Core.Logic.{◌⊎◌, inl, inr, ◌↔◌}
use mathlib.Core.Bool.{Bool, true, false, ◌&&◌, ◌||◌}
use mathlib.Core.List.{List, [], ◌∷◌, ◌++◌}
use native.Mathlib.Omega.{arith}
use token_auth_proxy.Common.Tests.{Bool-cases, if◌then◌else◌, &&_iff}

module _ {ℓ} {A : Type ℓ} where
  abbrev pub length : List A → ℕ
  length [] = 0
  length (x ∷ xs) = suc (length xs)

  -- A loop that returns true at the first element that passes the test.
  abbrev pub any : (A → Bool) → List A → Bool
  any p [] = false
  any p (x ∷ xs) = p x || any p xs

  -- A loop that returns false at the first element that fails the test.
  abbrev pub all : (A → Bool) → List A → Bool
  all p [] = true
  all p (x ∷ xs) = p x && all p xs

  abbrev pub is_empty : List A → Bool
  is_empty [] = true
  is_empty (x ∷ xs) = false

  -- The elements that pass the test, in order.
  abbrev pub keep : (A → Bool) → List A → List A
  keep p [] = []
  keep p (x ∷ xs) = let rest = keep p xs in if p x then x ∷ rest else rest

  pub length-append : (xs ys : List A) → length (xs ++ ys) ≡ length xs + length ys
  length-append [] ys = omega arith
  length-append (x ∷ xs) ys = omega (arith, length-append xs ys)

module _ {ℓ κ} {A : Type ℓ} (P : A → Type κ) where
  abbrev pub All : List A → Type κ
  All [] = Unit
  All (x ∷ xs) = P x × All xs

pub All-map {ℓ κ} :
    {A : Type ℓ} (P Q : A → Type κ) → ((a : A) → P a → Q a) → (xs : List A) → All P xs → All Q xs
All-map P Q f [] h = tt
All-map P Q f (x ∷ xs) h = (f x h.0, All-map P Q f xs h.1)

module _ {A : Type 0} where
  -- Membership by recursion: it computes to sums, which the tactics read.
  abbrev pub In : A → List A → Type 0
  In a [] = ⊥
  In a (x ∷ xs) = (a ≡ x) ⊎ In a xs

  -- Some element satisfies `P`, with the element kept.
  abbrev pub Some : (A → Type 0) → List A → Type 0
  Some P [] = ⊥
  Some P (x ∷ xs) = P x ⊎ Some P xs

  pub In-append : (x : A) (xs ys : List A) → In x xs ⊎ In x ys → In x (xs ++ ys)
  In-append x [] ys (inl m) = elim m [ ]
  In-append x [] ys (inr m) = m
  In-append x (y ∷ xs) ys (inl (inl e)) = inl e
  In-append x (y ∷ xs) ys (inl (inr m)) = inr (In-append x xs ys (inl m))
  In-append x (y ∷ xs) ys (inr m) = inr (In-append x xs ys (inr m))

  pub any-false : (p : A → Bool) (xs : List A) → any p xs ≡ false → All (λ x. p x ≡ false) xs
  any-false p [] h = tt
  any-false p (x ∷ xs) h = elim (Bool-cases (p x)) [
    | inl t ↦ absurd (let k : (true || any p xs) ≡ false = rw t at h in cc)
    | inr f ↦ (f, any-false p xs (rw f at h))
  ]

  -- A loop that answers true decides that some element satisfies what its test decides.
  pub any_iff :
      (p : A → Bool) (P : A → Type 0)
      → ((x : A) → (p x ≡ true) ↔ P x)
      → (xs : List A) → (any p xs ≡ true) ↔ Some P xs
  any_iff p P e [] = (λ h. absurd cc, λ h. elim h [ ])
  any_iff p P e (x ∷ xs) = elim (Bool-cases (p x)) [
    | inl t ↦ (λ h. inl ((e x).0 t), λ h. rw t)
    | inr f ↦
        let (to, from) = any_iff p P e xs in
        rw f (λ h. inr (to h), λ h. elim h [ inl px ↦ cc (f, (e x).1 px) | inr rest ↦ from rest ])
  ]

  pub all_iff :
      (p : A → Bool) (P : A → Type 0)
      → ((x : A) → (p x ≡ true) ↔ P x)
      → (xs : List A) → (all p xs ≡ true) ↔ All P xs
  all_iff p P e [] = (λ h. tt, λ h. refl)
  all_iff p P e (x ∷ xs) =
      let (to, from) = all_iff p P e xs in
      let (split, join) = &&_iff (p x) (all p xs) in
      (λ h. ((e x).0 (split h).0, to (split h).1), λ h. join ((e x).1 h.0, from h.1))

  pub keep-append : (p : A → Bool) (xs ys : List A) → keep p (xs ++ ys) ≡ keep p xs ++ keep p ys
  keep-append p [] ys = refl
  keep-append p (x ∷ xs) ys = elim (Bool-cases (p x)) [
    | inl t ↦ rw (t, keep) (ap (λ r. x ∷ r) (keep-append p xs ys))
    | inr f ↦ rw (f, keep) (keep-append p xs ys)
  ]
