-- ===== src/Text/Cut.antt =====
-- What `cut` finds, and what it leaves.
use token_auth_proxy.Common.{
  ℕ, ◌<◌, ◌≡◌, refl, ap, false, Option, none, some, [], ◌∷◌, ◌++◌, eqb, eqb_iff, arith, All, length,
  Bool-cases, inl, inr,
}
use token_auth_proxy.Text.{Text, cut, push}

abbrev pub Free : ℕ → Text → Type 0
Free c s = All (λ b. eqb b c ≡ false) s

-- `cut` splits at the first separator.
pub cut-append : (sep : ℕ) (a b : Text) → Free sep a → cut sep (a ++ sep ∷ b) ≡ some (a, b)
unfolding cut
cut-append sep [] b h = rw ((eqb_iff sep sep).1 refl)
cut-append sep (c ∷ a) b (f, h) = rw f (rw (cut-append sep a b h))

pub cut-Free : (sep : ℕ) (s : Text) → Free sep s → cut sep s ≡ none
unfolding cut
cut-Free sep [] h = refl
cut-Free sep (c ∷ s) (f, h) = rw f (rw (cut-Free sep s h))

push-some :
    (d : ℕ) (o : Option (Text × Text)) (a b : Text)
    → push d o ≡ some (a, b)
    → (a' : Text) × (o ≡ some (a', b))
push-some d none a b h = absurd cc
push-some d (some (a', b')) a b h = (a', ap (λ (x : Text). some (a', x)) (second h))
  where
    second : ◌≡◌ {A = Option (Text × Text)} (some (d ∷ a', b')) (some (a, b)) → b' ≡ b
    second e = cc

-- What lies behind the separator is shorter.
pub cut-length : (c : ℕ) (s a b : Text) → cut c s ≡ some (a, b) → length b < length s
unfolding cut
cut-length c [] a b h = absurd cc
cut-length c (d ∷ s) a b h = elim (Bool-cases (eqb d c)) [
  | inl t ↦
      let e : ◌≡◌ {A = Option (Text × Text)} (some ([], s)) (some (a, b)) = rw t at h in
      let same : s ≡ b = cc in rw (← same) (omega arith)
  | inr f ↦
      let (a', e) = push-some d (cut c s) a b (rw f at h) in
      let ih : length b < length s = cut-length c s a' b e in omega arith
]
