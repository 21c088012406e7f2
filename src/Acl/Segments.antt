-- ===== src/Acl/Segments.antt =====
-- What `is_clean_path` accepts, and what a validated wildcard can match.
use token_auth_proxy.Common.{
  ℕ, ◌+◌, ◌≡◌, ◌≢◌, refl, sym, ap, ◌∙◌, ◌↔◌, ◌⊎◌, inl, inr, Bool, true, false, ◌&&◌, List, [], ◌∷◌,
  ◌++◌, arith, All, In, &&_iff, Bool-cases, eqb, ltb, length, length-append, subst,
}
use token_auth_proxy.Text.{Text, text, ◌==◌, ==_iff, has_suffix, join}
use token_auth_proxy.Text.Affix.{has_suffix_iff, trim_suffix-append}
use token_auth_proxy.Text.Cut.{Free}
use token_auth_proxy.Text.Path.{Plain, clean, clean-rooted_iff, onto, split_slash, split_slash-join}
use token_auth_proxy.Acl.{is_clean_path}

-- A rooted path of plain segments, with or without one more slash.
abbrev pub CleanForm : Text → Type 0
CleanForm p =
    (ps : List Text) × All Plain ps
    × ((p ≡ b'/' ∷ join (text "/") ps) ⊎ (p ≡ (b'/' ∷ join (text "/") ps) ++ text "/"))

abbrev rest_of : List Text → List Text
rest_of [] = []
rest_of (q ∷ qs) = qs

In-rest_of : (x : Text) (ps : List Text) → In x (rest_of ps) → In x ps
In-rest_of x [] h = h
In-rest_of x (q ∷ qs) h = inr h

rest_of-onto : (c : ℕ) (ps : List Text) → In [] (rest_of ps) → In [] (rest_of (onto c ps))
rest_of-onto c [] h = absurd h
rest_of-onto c (q ∷ qs) h = h

-- A text that ends with a slash has an empty segment behind its first.
trailing-In : (r : Text) → In [] (rest_of (split_slash (r ++ text "/")))
unfolding split_slash
trailing-In [] = inl refl
trailing-In (c ∷ r) = elim (Bool-cases (eqb c b'/')) [
  | inl t ↦ rw t (In-rest_of [] (split_slash (r ++ text "/")) (trailing-In r))
  | inr f ↦ rw f (rest_of-onto c (split_slash (r ++ text "/")) (trailing-In r))
]

All-In : (ps : List Text) → All Plain ps → In [] ps → ⊥
All-In [] h m = m
All-In (p ∷ ps) (h, k) m = elim m [ inl e ↦ h.nonempty (sym e) | inr n ↦ All-In ps k n ]

Free-All : (qs : List Text) → All Plain qs → All (Free b'/') qs
Free-All [] h = tt
Free-All (q ∷ qs) (h, k) = (h.no_slash, Free-All qs k)

-- Plain segments leave no slash at the end.
join-ne-trailing : (ps : List Text) (r : Text) → All Plain ps → join (text "/") ps ≢ r ++ text "/"
join-ne-trailing [] r h e = unfold join in nothing r e
  where
    nothing : (r : Text) → [] ≡ r ++ text "/" → ⊥
    nothing [] e = cc
    nothing (c ∷ r) e = cc
join-ne-trailing (p ∷ ps) r h e =
    let same : split_slash (r ++ text "/") ≡ p ∷ ps =
      rw (← e) (split_slash-join p ps (Free-All (p ∷ ps) h)) in
    All-In ps h.1 (subst (λ x. In [] (rest_of x)) same (trailing-In r))

slash_parts :
    (t r : Text) → b'/' ∷ t ≡ r ++ text "/" → (t ≡ []) ⊎ ((r' : Text) × (t ≡ r' ++ text "/"))
slash_parts t [] e = inl cc
slash_parts t (c ∷ r) e = inr (r, cc)

&&-false : (b : Bool) → (b && false) ≡ false
&&-false true = refl
&&-false false = refl

no_trim :
    (t : Text) (ps : List Text)
    → All Plain ps
    → t ≡ join (text "/") ps
    → (ltb 1 (length (b'/' ∷ t)) && has_suffix (b'/' ∷ t) (text "/")) ≡ false
no_trim t ps h e = elim (Bool-cases (has_suffix (b'/' ∷ t) (text "/"))) [
  | inl y ↦
      let (r, k) = (has_suffix_iff (b'/' ∷ t) (text "/")).0 y in
      elim (slash_parts t r k) [
        | inl z ↦ rw z refl
        | inr (r', k') ↦ absurd (join-ne-trailing ps r' h (sym e ∙ k'))
      ]
  | inr n ↦ rw n (&&-false (ltb 1 (length (b'/' ∷ t))))
]

trimmed_clean :
    (r : Text)
    → ltb 1 (length (r ++ text "/")) ≡ true
    → is_clean_path (r ++ text "/") ≡ (clean r == r)
unfolding is_clean_path
trimmed_clean r long = rw long (
    rw ((has_suffix_iff (r ++ text "/") (text "/")).1 (r, refl))
      (rw (trim_suffix-append r (text "/")) refl))

untrimmed_clean :
    (p : Text)
    → (ltb 1 (length p) && has_suffix p (text "/")) ≡ false
    → is_clean_path p ≡ (clean p == p)
unfolding is_clean_path
untrimmed_clean p f = rw f refl

rooted_part :
    (t r : Text)
    → b'/' ∷ t ≡ r ++ text "/"
    → ltb 1 (length (b'/' ∷ t)) ≡ true
    → (r' : Text) × (r ≡ b'/' ∷ r')
rooted_part t [] e long =
    absurd (let k : t ≡ [] = cc in let l : ltb 1 1 ≡ true = rw k at long in cc)
rooted_part t (c ∷ r) e long = (r, cc)

accepted_form :
    (t : Text)
    → is_clean_path (b'/' ∷ t) ≡ true
    → (test : Bool) → (ltb 1 (length (b'/' ∷ t)) && has_suffix (b'/' ∷ t) (text "/")) ≡ test
    → CleanForm (b'/' ∷ t)
accepted_form t h false f =
    let eq : (clean (b'/' ∷ t) == (b'/' ∷ t)) ≡ true = sym (untrimmed_clean (b'/' ∷ t) f) ∙ h in
    let (ps, plain, e) = (clean-rooted_iff t).0 ((==_iff _ _).0 eq) in
    (ps, plain, inl (ap (λ (x : Text). b'/' ∷ x) e))
accepted_form t h true f =
    let (long, ends) =
      (&&_iff (ltb 1 (length (b'/' ∷ t))) (has_suffix (b'/' ∷ t) (text "/"))).0 f in
    let (r, k) = (has_suffix_iff (b'/' ∷ t) (text "/")).0 ends in
    let (r', shape) = rooted_part t r k long in
    let whole : b'/' ∷ t ≡ (b'/' ∷ r') ++ text "/" =
      subst (λ x. b'/' ∷ t ≡ x ++ text "/") shape k in
    let long' : ltb 1 (length ((b'/' ∷ r') ++ text "/")) ≡ true =
      subst (λ (x : Text). ltb 1 (length x) ≡ true) whole long in
    let h' : is_clean_path ((b'/' ∷ r') ++ text "/") ≡ true =
      subst (λ x. is_clean_path x ≡ true) whole h in
    let eq : (clean (b'/' ∷ r') == (b'/' ∷ r')) ≡ true =
      sym (trimmed_clean (b'/' ∷ r') long') ∙ h' in
    let (ps, plain, e) = (clean-rooted_iff r').0 ((==_iff _ _).0 eq) in
    (ps, plain, inr (whole ∙ ap (λ (x : Text). (b'/' ∷ x) ++ text "/") e))

-- A rooted path is accepted exactly when it is made of plain segments, up to one trailing slash.
pub is_clean_path_iff : (t : Text) → (is_clean_path (b'/' ∷ t) ≡ true) ↔ CleanForm (b'/' ∷ t)
is_clean_path_iff t = (
  λ h. accepted_form t h (ltb 1 (length (b'/' ∷ t)) && has_suffix (b'/' ∷ t) (text "/")) refl,
  λ (ps, plain, shape). elim shape [
    | inl e ↦
        let t-join : t ≡ join (text "/") ps = cc in
        untrimmed_clean (b'/' ∷ t) (no_trim t ps plain t-join)
        ∙ (==_iff _ _).1 ((clean-rooted_iff t).1 (ps, plain, t-join))
    | inr e ↦ rw e (
        trimmed_clean (b'/' ∷ join (text "/") ps) (long (join (text "/") ps))
        ∙ (==_iff _ _).1 ((clean-rooted_iff (join (text "/") ps)).1 (ps, plain, refl)))
  ],
)
  where
    long : (s : Text) → ltb 1 (length ((b'/' ∷ s) ++ text "/")) ≡ true
    long s =
        let k : length (s ++ text "/") ≡ length s + 1 = length-append {0} s (text "/") in
        ground (arith, k)
