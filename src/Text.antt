-- ===== src/Text.antt =====
-- Go strings as lists of bytes, with the functions of the packages `strings` and `path` that the
-- program calls. Case mapping and white space are those of ASCII.
pub mod Affix
pub mod Fold
pub mod Cut
pub mod Path
pub mod Join
pub mod Trim
use Prim.Native.Char.{code}
use token_auth_proxy.Common.{
  ℕ, ◌+◌, ◌-◌, String, ◌≡◌, refl, ◌↔◌, Bool, true, false, ◌&&◌, ◌||◌, Option, none, some, List, [],
  ◌∷◌, ◌++◌, map, arith, leb, eqb, eqb_iff, &&_iff, if◌then◌else◌,
}

abbrev pub Text : Type 0
Text = List ℕ

-- The bytes of a literal, all of which are ASCII in this program.
abbrev pub text : String → Text
text String.[] = []
text (String.◌∷◌ c s) = code c ∷ text s

infix 50 ◌==◌
unfoldable pub ◌==◌ : Text → Text → Bool
[] == [] = true
[] == (b ∷ t) = false
(a ∷ s) == [] = false
(a ∷ s) == (b ∷ t) = eqb a b && s == t

pub ==_iff : (s t : Text) → ((s == t) ≡ true) ↔ (s ≡ t)
unfolding ◌==◌
==_iff [] [] = (λ h. refl, λ h. refl)
==_iff [] (b ∷ t) = (λ h. cc, λ h. absurd cc)
==_iff (a ∷ s) [] = (λ h. cc, λ h. absurd cc)
==_iff (a ∷ s) (b ∷ t) =
    let (to, from) = ==_iff s t in
    let (split, join) = &&_iff (eqb a b) (s == t) in
    (
      λ h. cc ((eqb_iff a b).0 (split h).0, to (split h).1),
      λ h. join ((eqb_iff a b).1 (ground arith), from (ground arith)),
    )

-- strings.CutPrefix(s, prefix), and strings.HasPrefix through it.
unfoldable pub cut_prefix : Text → Text → Option Text
cut_prefix s [] = some s
cut_prefix [] (p ∷ ps) = none
cut_prefix (c ∷ s) (p ∷ ps) = if eqb c p then cut_prefix s ps else none

abbrev pub is_some {ℓ} : {A : Type ℓ} → Option A → Bool
is_some none = false
is_some (some a) = true

unfoldable pub has_prefix : Text → Text → Bool
has_prefix s p = is_some (cut_prefix s p)

abbrev cons_some : ℕ → Option Text → Option Text
cons_some c none = none
cons_some c (some r) = some (c ∷ r)

-- strings.CutSuffix(s, suffix), strings.HasSuffix and strings.TrimSuffix through it.
unfoldable pub cut_suffix : Text → Text → Option Text
cut_suffix [] suffix = if [] == suffix then some [] else none
cut_suffix (c ∷ s) suffix = if (c ∷ s) == suffix then some [] else cons_some c (cut_suffix s suffix)

unfoldable pub has_suffix : Text → Text → Bool
has_suffix s p = is_some (cut_suffix s p)

abbrev or_else : Option Text → Text → Text
or_else none s = s
or_else (some r) s = r

unfoldable pub trim_suffix : Text → Text → Text
trim_suffix s p = or_else (cut_suffix s p) s

unfoldable pub contains : Text → Text → Bool
unfolding has_prefix cut_prefix
contains [] sub = has_prefix [] sub
contains (c ∷ s) sub = has_prefix (c ∷ s) sub || contains s sub

abbrev pub lower : ℕ → ℕ
lower c = if leb b'A' c && leb c b'Z' then c + 32 else c

abbrev pub upper : ℕ → ℕ
upper c = if leb b'a' c && leb c b'z' then c - 32 else c

unfoldable pub to_lower : Text → Text
to_lower = map lower

unfoldable pub to_upper : Text → Text
to_upper = map upper

unfoldable pub equal_fold : Text → Text → Bool
equal_fold s t = to_lower s == to_lower t

abbrev pub is_space : ℕ → Bool
is_space c = eqb c 32 || (leb 9 c && leb c 13)

unfoldable pub trim_left : Text → Text
trim_left [] = []
trim_left (c ∷ s) = if is_space c then trim_left s else c ∷ s

unfoldable pub trim_right : Text → Text
trim_right [] = []
trim_right (c ∷ s) = elim (trim_right s) [
  | [] ↦ if is_space c then [] else c ∷ []
  | d ∷ r ↦ c ∷ d ∷ r
]

unfoldable pub trim_space : Text → Text
unfolding trim_left trim_right
trim_space s = trim_right (trim_left s)

-- strings.Cut(s, sep) for a separator of one byte; `none` where it is not found.
abbrev push : ℕ → Option (Text × Text) → Option (Text × Text)
push c none = none
push c (some (a, b)) = some (c ∷ a, b)

unfoldable pub cut : ℕ → Text → Option (Text × Text)
cut sep [] = none
cut sep (c ∷ s) = let later = push c (cut sep s) in if eqb c sep then some ([], s) else later

-- strings.Join(parts, sep)
unfoldable pub join : Text → List Text → Text
join sep [] = []
join sep (p ∷ []) = p
join sep (p ∷ q ∷ ps) = p ++ (sep ++ join sep (q ∷ ps))
