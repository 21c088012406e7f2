-- ===== src/Text/Trim.antt =====
-- Trimmed texts, and texts split at a byte.
use token_auth_proxy.Common.{
  ℕ, ◌≡◌, ◌≢◌, refl, sym, ap, ◌∙◌, inl, inr, false, List, [], ◌∷◌, ◌++◌, if◌then◌else◌, eqb, All,
  Bool-cases, eqb_iff,
}
use token_auth_proxy.Text.{Text, is_space, trim_left, trim_right, trim_space}
use token_auth_proxy.Text.Cut.{Free}

abbrev pub onto : ℕ → List Text → List Text
onto c [] = (c ∷ []) ∷ []
onto c (p ∷ ps) = (c ∷ p) ∷ ps

-- strings.Split(s, sep) for a separator of one byte.
unfoldable pub split_on : ℕ → Text → List Text
split_on sep [] = [] ∷ []
split_on sep (c ∷ s) = let rest = split_on sep s in if eqb c sep then [] ∷ rest else onto c rest

abbrev Starts : Text → Type 0
Starts [] = Unit
Starts (c ∷ s) = is_space c ≡ false

trim_left-Starts : (s : Text) → Starts (trim_left s)
unfolding trim_left
trim_left-Starts [] = tt
trim_left-Starts (c ∷ s) = elim (Bool-cases (is_space c)) [
  | inl t ↦ rw t (trim_left-Starts s)
  | inr f ↦ rw (f, Starts) f
]

Starts-trim_left : (s : Text) → Starts s → trim_left s ≡ s
unfolding trim_left
Starts-trim_left [] h = refl
Starts-trim_left (c ∷ s) h = rw h refl

-- What the last step of trimming on the right makes of a byte and the trimmed rest.
abbrev last_step : ℕ → Text → Text
last_step c [] = if is_space c then [] else c ∷ []
last_step c (d ∷ r) = c ∷ d ∷ r

trim_right-step : (c : ℕ) (s : Text) → trim_right (c ∷ s) ≡ last_step c (trim_right s)
unfolding trim_right
trim_right-step c s = go (trim_right s)
  where
    go :
        (t : Text)
        → (elim t [ [] ↦ if is_space c then [] else c ∷ [] | d ∷ r ↦ c ∷ d ∷ r ]) ≡ last_step c t
    go [] = refl
    go (d ∷ r) = refl

last_step_idem : (c : ℕ) (t : Text) → trim_right t ≡ t → trim_right (last_step c t) ≡ last_step c t
last_step_idem c [] h = elim (Bool-cases (is_space c)) [
  | inl t ↦ rw (t, last_step) (unfold trim_right in refl)
  | inr f ↦ rw (f, last_step) (trim_right-step c [] ∙ (unfold trim_right in rw (f, last_step) refl))
]
last_step_idem c (d ∷ r) h = trim_right-step c (d ∷ r) ∙ ap (last_step c) h

trim_right_idem : (s : Text) → trim_right (trim_right s) ≡ trim_right s
trim_right_idem [] = unfold trim_right in refl
trim_right_idem (c ∷ s) =
    ap trim_right (trim_right-step c s)
    ∙ last_step_idem c (trim_right s) (trim_right_idem s)
    ∙ sym (trim_right-step c s)

last_step-Starts : (c : ℕ) (t : Text) → is_space c ≡ false → Starts (last_step c t)
last_step-Starts c [] h = rw (h, last_step, Starts) h
last_step-Starts c (d ∷ r) h = h

trim_right-Starts : (s : Text) → Starts s → Starts (trim_right s)
trim_right-Starts [] h = unfold trim_right in tt
trim_right-Starts (c ∷ s) h = rw (trim_right-step c s) (last_step-Starts c (trim_right s) h)

-- Trimming twice is trimming once.
pub trim_space_idem : (s : Text) → trim_space (trim_space s) ≡ trim_space s
unfolding trim_space
trim_space_idem s =
    ap trim_right (
      Starts-trim_left (trim_right (trim_left s))
        (trim_right-Starts (trim_left s) (trim_left-Starts s)))
    ∙ trim_right_idem (trim_left s)

pub trim_space-leading : (s : Text) → trim_space (32 ∷ s) ≡ trim_space s
unfolding trim_space trim_left
trim_space-leading s = refl

last_step-Free : (sep c : ℕ) (t : Text) → eqb c sep ≡ false → Free sep t → Free sep (last_step c t)
last_step-Free sep c [] h k = elim (Bool-cases (is_space c)) [
  | inl t ↦ rw (t, last_step) tt
  | inr f ↦ rw (f, last_step) (h, tt)
]
last_step-Free sep c (d ∷ r) h k = (h, k)

trim_right-Free : (sep : ℕ) (s : Text) → Free sep s → Free sep (trim_right s)
trim_right-Free sep [] h = unfold trim_right in tt
trim_right-Free sep (c ∷ s) (h, hs) =
    rw (trim_right-step c s) (last_step-Free sep c (trim_right s) h (trim_right-Free sep s hs))

trim_left-Free : (sep : ℕ) (s : Text) → Free sep s → Free sep (trim_left s)
unfolding trim_left
trim_left-Free sep [] h = tt
trim_left-Free sep (c ∷ s) (h, hs) = elim (Bool-cases (is_space c)) [
  | inl t ↦ rw t (trim_left-Free sep s hs)
  | inr f ↦ rw f (h, hs)
]

pub trim_space-Free : (sep : ℕ) (s : Text) → Free sep s → Free sep (trim_space s)
unfolding trim_space
trim_space-Free sep s h = trim_right-Free sep (trim_left s) (trim_left-Free sep s h)

onto-Free :
    (sep c : ℕ) (ps : List Text)
    → eqb c sep ≡ false
    → All (Free sep) ps
    → All (Free sep) (onto c ps)
onto-Free sep c [] h k = ((h, tt), tt)
onto-Free sep c (p ∷ ps) h (k, ks) = ((h, k), ks)

pub split_on-Free : (sep : ℕ) (s : Text) → All (Free sep) (split_on sep s)
unfolding split_on
split_on-Free sep [] = (tt, tt)
split_on-Free sep (c ∷ s) = elim (Bool-cases (eqb c sep)) [
  | inl t ↦ rw t (tt, split_on-Free sep s)
  | inr f ↦ rw f (onto-Free sep c (split_on sep s) f (split_on-Free sep s))
]

pub split_on-append :
    (sep : ℕ) (p s : Text) → Free sep p → split_on sep (p ++ sep ∷ s) ≡ p ∷ split_on sep s
unfolding split_on
split_on-append sep [] s h = rw ((eqb_iff sep sep).1 refl) refl
split_on-append sep (c ∷ p) s (f, h) = rw f (rw (split_on-append sep p s h) refl)

pub split_on-whole : (sep : ℕ) (p : Text) → Free sep p → split_on sep p ≡ p ∷ []
unfolding split_on
split_on-whole sep [] h = refl
split_on-whole sep (c ∷ p) (f, h) = rw f (rw (split_on-whole sep p h) refl)

onto-ne : (c : ℕ) (ps : List Text) → onto c ps ≢ []
onto-ne c [] e = cc
onto-ne c (p ∷ ps) e = cc

pub split_on-ne : (sep : ℕ) (s : Text) → split_on sep s ≢ []
unfolding split_on
split_on-ne sep [] = λ e. cc
split_on-ne sep (c ∷ s) = elim (Bool-cases (eqb c sep)) [
  | inl t ↦ rw t (λ e. cc)
  | inr f ↦ rw f (onto-ne c (split_on sep s))
]
