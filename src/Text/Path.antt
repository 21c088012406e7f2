-- ===== src/Text/Path.antt =====
-- path.Clean of the standard library, as its documentation states it: the path's segments with
-- "." and empty ones dropped and ".." taking back the segment before it.
use token_auth_proxy.Common.{
  ℕ, ◌≡◌, ◌≢◌, refl, ap, sym, ◌∙◌, ◌↔◌, Bool, true, false, ◌||◌, List, [], ◌∷◌, ◌++◌, arith, eqb,
  if◌then◌else◌, Bool-cases, inl, inr, All, append_assoc, append-nil, Bool-contra,
}
use mathlib.Core.List.{reverse, reverse_aux, reverse-cons}
use token_auth_proxy.Text.{Text, text, ◌==◌, ==_iff, join}
use token_auth_proxy.Text.Cut.{Free}

-- The segments between slashes: one more than there are slashes.
abbrev pub onto : ℕ → List Text → List Text
onto c [] = (c ∷ []) ∷ []
onto c (p ∷ ps) = (c ∷ p) ∷ ps

unfoldable pub split_slash : Text → List Text
split_slash [] = [] ∷ []
split_slash (c ∷ s) = let rest = split_slash s in if eqb c b'/' then [] ∷ rest else onto c rest

-- One segment, on the stack of those kept (its top first).
unfoldable pub resolve : Bool → List Text → Text → List Text
resolve rooted stack part =
    if part == text "" || part == text "."
    then stack
    else if part == text ".."
    then elim stack [
      | [] ↦ if rooted then [] else part ∷ []
      | top ∷ below ↦ if top == text ".." then part ∷ top ∷ below else below
    ]
    else part ∷ stack

unfoldable pub resolve_all : Bool → List Text → List Text → List Text
resolve_all rooted stack [] = reverse stack
resolve_all rooted stack (part ∷ parts) = resolve_all rooted (resolve rooted stack part) parts

abbrev or_dot : Text → Text
or_dot [] = text "."
or_dot (c ∷ s) = c ∷ s

unfoldable pub clean : Text → Text
unfolding split_slash resolve_all resolve
clean [] = text "."
clean (c ∷ s) =
    if eqb c b'/'
    then b'/' ∷ join (text "/") (resolve_all true [] (split_slash s))
    else or_dot (join (text "/") (resolve_all false [] (split_slash (c ∷ s))))

-- A segment that stands for itself.
pub record Plain (s : Text) : Type 0 where
  pub nonempty : s ≢ text ""
  pub not_dot : s ≢ text "."
  pub not_dots : s ≢ text ".."
  pub no_slash : Free b'/' s

split_slash-append : (p s : Text) → Free b'/' p → split_slash (p ++ b'/' ∷ s) ≡ p ∷ split_slash s
unfolding split_slash
split_slash-append [] s h = refl
split_slash-append (c ∷ p) s (f, h) = rw f (rw (split_slash-append p s h))

split_slash-Free : (p : Text) → Free b'/' p → split_slash p ≡ p ∷ []
unfolding split_slash
split_slash-Free [] h = refl
split_slash-Free (c ∷ p) (f, h) = rw f (rw (split_slash-Free p h))

-- Splitting takes back what joining made, but for the empty list.
pub split_slash-join :
    (p : Text) (ps : List Text)
    → All (Free b'/') (p ∷ ps)
    → split_slash (join (text "/") (p ∷ ps)) ≡ p ∷ ps
unfolding join
split_slash-join p [] (h, _) = split_slash-Free p h
split_slash-join p (q ∷ qs) (h, k) =
    split_slash-append p (join (text "/") (q ∷ qs)) h
    ∙ ap (λ (x : List Text). p ∷ x) (split_slash-join q qs k)

All-split_slash-Free : (s : Text) → All (Free b'/') (split_slash s)
unfolding split_slash
All-split_slash-Free [] = (tt, tt)
All-split_slash-Free (c ∷ s) = elim (Bool-cases (eqb c b'/')) [
  | inl t ↦ rw t (tt, All-split_slash-Free s)
  | inr f ↦ rw f (go (split_slash s) f (All-split_slash-Free s))
]
  where
    go : (ps : List Text) → eqb c b'/' ≡ false → All (Free b'/') ps → All (Free b'/') (onto c ps)
    go [] f h = ((f, tt), tt)
    go (p ∷ ps) f (h, k) = ((f, h), k)

ne-false : (s t : Text) → s ≢ t → (s == t) ≡ false
ne-false s t n = elim (Bool-cases (s == t)) [ inl e ↦ absurd (n ((==_iff s t).0 e)) | inr f ↦ f ]

Plain-tests :
    (s : Text)
    → Plain s
    → ((s == text "") ≡ false) × ((s == text ".") ≡ false) × ((s == text "..") ≡ false)
Plain-tests s h = (
  ne-false s (text "") h.nonempty,
  ne-false s (text ".") h.not_dot,
  ne-false s (text "..") h.not_dots,
)

resolve-Plain : (stack : List Text) (p : Text) → Plain p → resolve true stack p ≡ p ∷ stack
unfolding resolve
resolve-Plain stack p h = let (a, b, c) = Plain-tests p h in rw a (rw b (rw c refl))

resolve_all-Plain :
    (stack ps : List Text) → All Plain ps → resolve_all true stack ps ≡ reverse stack ++ ps
unfolding resolve_all
resolve_all-Plain stack [] h = sym (append-nil (reverse stack))
resolve_all-Plain stack (p ∷ ps) (h, k) =
    let shift : reverse (p ∷ stack) ++ ps ≡ reverse stack ++ p ∷ ps =
      rw (reverse-cons p stack) (append_assoc (reverse stack) (p ∷ []) ps) in
    rw (resolve-Plain stack p h) (resolve_all-Plain (p ∷ stack) ps k ∙ shift)

eq-false : (s t : Text) → (s == t) ≡ false → s ≢ t
eq-false s t f e = Bool-contra (s == t) ((==_iff s t).1 e) f

resolve-keeps :
    (stack : List Text) (p : Text)
    → Free b'/' p
    → All Plain stack
    → All Plain (resolve true stack p)
unfolding resolve
resolve-keeps stack p free h = elim (Bool-cases (p == text "")) [
  | inl e ↦ rw e h
  | inr e ↦ elim (Bool-cases (p == text ".")) [
    | inl d ↦ rw e (rw d h)
    | inr d ↦ elim (Bool-cases (p == text "..")) [
      | inl dd ↦ rw e (rw d (rw dd (popped stack h)))
      | inr dd ↦ rw e (
          rw d (
            rw dd (
              record {
                nonempty = eq-false p (text "") e;
                not_dot = eq-false p (text ".") d;
                not_dots = eq-false p (text "..") dd;
                no_slash = free;
              },
              h,
            )))
    ]
  ]
]
  where
    popped :
        (st : List Text)
        → All Plain st
        → All Plain (elim st [
          | [] ↦ if true then [] else p ∷ []
          | top ∷ below ↦ if top == text ".." then p ∷ top ∷ below else below
        ])
    popped [] h = tt
    popped (top ∷ below) (h, k) = rw (ne-false top (text "..") h.not_dots) k

All-reverse_aux : (xs ys : List Text) → All Plain xs → All Plain ys → All Plain (reverse_aux xs ys)
All-reverse_aux [] ys _ k = k
All-reverse_aux (x ∷ xs) ys (p, h) k = All-reverse_aux xs (x ∷ ys) h (p, k)

resolve_all-keeps :
    (stack ps : List Text)
    → All (Free b'/') ps
    → All Plain stack
    → All Plain (resolve_all true stack ps)
unfolding resolve_all
resolve_all-keeps stack [] f h = All-reverse_aux stack [] h tt
resolve_all-keeps stack (p ∷ ps) (f, g) h =
    resolve_all-keeps (resolve true stack p) ps g (resolve-keeps stack p f h)

-- A rooted path is clean just where it is made of segments that stand for themselves.
pub clean-rooted_iff :
    (t : Text)
    → (clean (b'/' ∷ t) ≡ b'/' ∷ t) ↔ ((ps : List Text) × All Plain ps × (t ≡ join (text "/") ps))
unfolding clean
clean-rooted_iff t = (
  λ h. (
    resolve_all true [] (split_slash t),
    resolve_all-keeps [] (split_slash t) (All-split_slash-Free t) tt,
    ground (arith, h),
  ),
  λ (ps, plain, e). rw e (ap (λ (x : Text). b'/' ∷ x) (again ps plain)),
)
  where
    again :
        (ps : List Text)
        → All Plain ps
        → join (text "/") (resolve_all true [] (split_slash (join (text "/") ps)))
          ≡ join (text "/") ps
    again [] h = unfold join resolve_all resolve split_slash ◌==◌ in refl
    again (p ∷ ps) h =
        rw (split_slash-join p ps (free (p ∷ ps) h))
          (ap (join (text "/")) (resolve_all-Plain [] (p ∷ ps) h))
      where
        free : (qs : List Text) → All Plain qs → All (Free b'/') qs
        free [] h = tt
        free (q ∷ qs) (h, k) = (h.no_slash, free qs k)
