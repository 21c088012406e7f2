-- ===== src/Text/Fold.antt =====
-- Case folding and trimming.
use token_auth_proxy.Common.{
  ◌≡◌, refl, ◌↔◌, true, false, [], ◌∷◌, if◌then◌else◌, Bool-cases, inl, inr,
}
use token_auth_proxy.Text.{
  Text, ==_iff, to_lower, equal_fold, is_space, trim_left, trim_right, trim_space,
}

pub equal_fold_refl : (s : Text) → equal_fold s s ≡ true
unfolding equal_fold
equal_fold_refl s = (==_iff _ _).1 refl

-- Two texts are equal under folding just where their lower case forms are.
pub equal_fold_iff : (s t : Text) → (equal_fold s t ≡ true) ↔ (to_lower s ≡ to_lower t)
unfolding equal_fold
equal_fold_iff s t = ==_iff (to_lower s) (to_lower t)

-- The last byte is no white space.
abbrev pub EndsPlain : Text → Type 0
EndsPlain [] = Unit
EndsPlain (c ∷ []) = is_space c ≡ false
EndsPlain (c ∷ d ∷ s) = EndsPlain (d ∷ s)

abbrev pub StartsPlain : Text → Type 0
StartsPlain [] = Unit
StartsPlain (c ∷ s) = is_space c ≡ false

trim_right-EndsPlain : (s : Text) → EndsPlain (trim_right s)
unfolding trim_right
trim_right-EndsPlain [] = tt
trim_right-EndsPlain (c ∷ s) = go (trim_right s) (trim_right-EndsPlain s)
  where
    go :
        (r : Text)
        → EndsPlain r
        → EndsPlain (elim r [ [] ↦ if is_space c then [] else c ∷ [] | d ∷ t ↦ c ∷ d ∷ t ])
    go [] h = elim (Bool-cases (is_space c)) [ inl t ↦ rw t tt | inr f ↦ rw f f ]
    go (d ∷ t) h = h

trim_left-StartsPlain : (s : Text) → StartsPlain (trim_left s)
unfolding trim_left
trim_left-StartsPlain [] = tt
trim_left-StartsPlain (c ∷ s) = elim (Bool-cases (is_space c)) [
  | inl t ↦ rw t (trim_left-StartsPlain s)
  | inr f ↦ rw f f
]

trim_right-StartsPlain : (s : Text) → StartsPlain s → StartsPlain (trim_right s)
unfolding trim_right
trim_right-StartsPlain [] h = tt
trim_right-StartsPlain (c ∷ s) h = go (trim_right s)
  where
    go :
        (r : Text)
        → StartsPlain (elim r [ [] ↦ if is_space c then [] else c ∷ [] | d ∷ t ↦ c ∷ d ∷ t ])
    go [] = rw h h
    go (d ∷ t) = h

-- What is left after trimming has no white space at either end.
pub trim_space-plain : (s : Text) → StartsPlain (trim_space s) × EndsPlain (trim_space s)
unfolding trim_space
trim_space-plain s = (
  trim_right-StartsPlain (trim_left s) (trim_left-StartsPlain s),
  trim_right-EndsPlain (trim_left s),
)
