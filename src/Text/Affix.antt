-- ===== src/Text/Affix.antt =====
-- What `cut_prefix` and `cut_suffix` find: the two parts of the text that they are given.
use token_auth_proxy.Common.{
  ℕ, ◌≡◌, refl, ap, Bool, ◌||◌, Bool-contra, ◌↔◌, true, false, Option, none, some, [], ◌∷◌, ◌++◌,
  arith, eqb_iff, Bool-cases, Option-cases, length, length-append, inl, inr,
}
use token_auth_proxy.Text.{
  Text, ◌==◌, ==_iff, cut_prefix, has_prefix, cut_suffix, contains, has_suffix, trim_suffix,
  cons_some,
}

pub cut_prefix-append : (p r : Text) → cut_prefix (p ++ r) p ≡ some r
unfolding cut_prefix
cut_prefix-append [] r = refl
cut_prefix-append (c ∷ p) r = rw ((eqb_iff c c).1 refl) (cut_prefix-append p r)

pub cut_prefix-some : (s p r : Text) → cut_prefix s p ≡ some r → s ≡ p ++ r
unfolding cut_prefix
cut_prefix-some s [] r h = ground arith
cut_prefix-some [] (p ∷ ps) r h = absurd cc
cut_prefix-some (c ∷ s) (p ∷ ps) r h = ground (arith, eqb_iff c p, cut_prefix-some s ps r)

-- `has_prefix` decides that the text is the prefix and a rest.
pub has_prefix_iff : (s p : Text) → (has_prefix s p ≡ true) ↔ ((r : Text) × (s ≡ p ++ r))
unfolding has_prefix
has_prefix_iff s p = (
  λ h. elim (Option-cases (cut_prefix s p)) [
    | inl n ↦ absurd (let k : false ≡ true = rw n at h in cc)
    | inr (r, e) ↦ (r, cut_prefix-some s p r e)
  ],
  λ (r, e). rw e (rw cut_prefix-append refl),
)

cons_some-inv :
    (c : ℕ) (o : Option Text) {r : Text}
    → cons_some c o ≡ some r
    → (t : Text) × (o ≡ some t) × (r ≡ c ∷ t)
cons_some-inv c none h = absurd cc
cons_some-inv c (some t) h = (t, refl, ground arith)

pub cut_suffix-some : (s q : Text) {r : Text} → cut_suffix s q ≡ some r → s ≡ r ++ q
unfolding cut_suffix
cut_suffix-some [] q h = elim (Bool-cases ([] == q)) [
  | inl t ↦ let e : [] ≡ q = (==_iff [] q).0 t in ground arith
  | inr f ↦ absurd (let k : none ≡ some _ = rw f at h in cc)
]
cut_suffix-some (c ∷ s) q {r} h = elim (Bool-cases ((c ∷ s) == q)) [
  | inl t ↦ let e : c ∷ s ≡ q = (==_iff (c ∷ s) q).0 t in let k : some [] ≡ some r = rw t at h in cc
  | inr f ↦
      let k : cons_some c (cut_suffix s q) ≡ some r = rw f at h in
      let (t, found, e) = cons_some-inv c (cut_suffix s q) k in
      rw e (ap (λ (x : Text). c ∷ x) (cut_suffix-some s q found))
]

cut_suffix_self : (q : Text) → cut_suffix q q ≡ some []
unfolding cut_suffix
cut_suffix_self [] = rw ((==_iff [] []).1 refl)
cut_suffix_self (c ∷ s) = rw ((==_iff (c ∷ s) (c ∷ s)).1 refl)

longer-ne : (c : ℕ) (r q : Text) → ((c ∷ r ++ q) == q) ≡ false
longer-ne c r q = elim (Bool-cases ((c ∷ r ++ q) == q)) [
  | inl t ↦
      let e : c ∷ r ++ q ≡ q = (==_iff _ q).0 t in
      absurd (omega (arith, ap (λ (x : Text). length x) e, length-append {0} r q))
  | inr f ↦ f
]

pub cut_suffix-append : (r q : Text) → cut_suffix (r ++ q) q ≡ some r
unfolding cut_suffix
cut_suffix-append [] q = cut_suffix_self q
cut_suffix-append (c ∷ r) q = rw longer-ne (rw (cut_suffix-append r q))

-- `has_suffix` decides that the text is a rest and the suffix.
pub has_suffix_iff : (s q : Text) → (has_suffix s q ≡ true) ↔ ((r : Text) × (s ≡ r ++ q))
unfolding has_suffix
has_suffix_iff s q = (
  λ h. elim (Option-cases (cut_suffix s q)) [
    | inl n ↦ absurd (let k : false ≡ true = rw n at h in cc)
    | inr (r, e) ↦ (r, cut_suffix-some s q e)
  ],
  λ (r, e). rw e (rw cut_suffix-append refl),
)

pub trim_suffix-append : (r q : Text) → trim_suffix (r ++ q) q ≡ r
unfolding trim_suffix
trim_suffix-append r q = rw cut_suffix-append refl

pub contains-cons :
    (c : ℕ) (s sub : Text)
    → contains (c ∷ s) sub ≡ false
    → (has_prefix (c ∷ s) sub ≡ false) × (contains s sub ≡ false)
unfolding contains
contains-cons c s sub h = both (has_prefix (c ∷ s) sub) (contains s sub) h
  where
    both : (a b : Bool) → (a || b) ≡ false → (a ≡ false) × (b ≡ false)
    both true b e = absurd cc
    both false b e = (refl, e)

-- Where a text is not contained it does not begin.
pub contains-cut_prefix : (s sub : Text) → contains s sub ≡ false → cut_prefix s sub ≡ none
unfolding has_prefix
contains-cut_prefix s sub h = elim (Option-cases (cut_prefix s sub)) [
  | inl n ↦ n
  | inr (r, e) ↦ Bool-contra (has_prefix s sub) (rw (e, has_prefix) refl) (first s h)
]
  where
    first : (t : Text) → contains t sub ≡ false → has_prefix t sub ≡ false
    first [] k = unfold contains in k
    first (c ∷ t) k = (contains-cons c t sub k).0
