-- ===== src/PromLabel/Silences/Owned.antt =====
-- A silence that the proxy lets through belongs to the caller.
use token_auth_proxy.Common.{
  ◌≡◌, ◌≢◌, refl, sym, ◌∙◌, ◌⊎◌, inl, inr, Bool, true, false, not, ◌||◌, List, [], ◌∷◌, ◌++◌, any,
  all, keep, if◌then◌else◌, All, Bool-cases, append_assoc, append-nil, subst, is_empty,
}
use token_auth_proxy.Text.{Text, ◌==◌, ==_iff}
use token_auth_proxy.PromLabel.Scope.{Label, allows}
use token_auth_proxy.PromLabel.Silences.{
  Matcher, equality, pins, owns, scoped, refused, only_enforced, named, Pinned, pinned, not_pinned,
  pin, pin_all, free, scope_matchers, forbidden, pin_named, pin_absent, equal_to,
}

-- One matcher for each label, in order, and each pins its label to a value that the caller holds.
abbrev pub Pins : List Label → List Matcher → Type 0
Pins [] [] = Unit
Pins [] (m ∷ ms) = ⊥
Pins (l ∷ ls) [] = ⊥
Pins (l ∷ ls) (m ∷ ms) = (pins l m ≡ true) × Pins ls ms

==_self : (s : Text) → (s == s) ≡ true
==_self s = (==_iff s s).1 refl

keep-All {ℓ} : {A : Type ℓ} (p : A → Bool) (xs : List A) → All (λ x. p x ≡ true) (keep p xs)
keep-All p [] = tt
keep-All p (x ∷ xs) = elim (Bool-cases (p x)) [
  | inl t ↦ rw (t, keep) (t, keep-All p xs)
  | inr f ↦ rw (f, keep) (keep-All p xs)
]

absent-pins :
    (l : Label) (vs : List Text) (m : Matcher)
    → l.values ≡ vs
    → pin_absent l vs ≡ pinned m
    → pins l m ≡ true
absent-pins l [] m e h = absurd cc
absent-pins l (v ∷ w ∷ vs) m e h = absurd cc
absent-pins l (v ∷ []) m e h =
    let same : equal_to l.name v ≡ m = cc in
    subst (λ x. pins l x ≡ true) same (rw (==_self l.name) (rw e (rw (==_self v) refl)))

passed :
    (x y : Bool) (n m : Matcher) (name : Text)
    → (if not x || not y then not_pinned (forbidden name) else pinned n) ≡ pinned m
    → (x ≡ true) × (y ≡ true) × (n ≡ m)
passed true true n m name h = (refl, refl, cc)
passed true false n m name h = absurd cc
passed false y n m name h = absurd cc

named-pins :
    (l : Label) (ns : List Matcher) (m : Matcher)
    → All (λ n. (n.name == l.name) ≡ true) ns
    → pin_named l ns ≡ pinned m
    → pins l m ≡ true
named-pins l [] m a h = absent-pins l l.values m refl h
named-pins l (n ∷ o ∷ ns) m a h = absurd cc
named-pins l (n ∷ []) m (a, _) h =
    let (eq, held, same) = passed (equality n) (allows l n.value) n m l.name h in
    subst (λ x. pins l x ≡ true) same (rw a (rw eq (rw held refl)))

pin-pins : (l : Label) (ms : List Matcher) (m : Matcher) → pin l ms ≡ pinned m → pins l m ≡ true
unfolding pin
pin-pins l ms m h = named-pins l (named l ms) m (keep-All (λ n. n.name == l.name) ms) h

Pinned-cases : (p : Pinned) → ((m : Matcher) × (p ≡ pinned m)) ⊎ ((e : _) × (p ≡ not_pinned e))
Pinned-cases (pinned m) = inl (m, refl)
Pinned-cases (not_pinned e) = inr (e, refl)

pin_all-shape :
    (ls : List Label) (ms out res : List Matcher)
    → pin_all ls ms out ≡ scoped res
    → (added : List Matcher) × (res ≡ out ++ added) × Pins ls added
unfolding pin_all
pin_all-shape [] ms out res h = ([], (let e : out ≡ res = cc in sym e ∙ sym (append-nil out)), tt)
pin_all-shape (l ∷ ls) ms out res h = elim (Pinned-cases (pin l ms)) [
  | inl (m, e) ↦
      let (added, shape, ps) = pin_all-shape ls ms (out ++ m ∷ []) res (rw (e, pin_all) at h) in
      (m ∷ added, shape ∙ append_assoc out (m ∷ []) added, (pin-pins l ms m e, ps))
  | inr (x, e) ↦ absurd (let k : refused x ≡ scoped res = rw (e, pin_all) at h in cc)
]

any-append : (p : Matcher → Bool) (xs ys : List Matcher) → any p ys ≡ true → any p (xs ++ ys) ≡ true
any-append p [] ys h = h
any-append p (x ∷ xs) ys h = rw (any-append p xs ys h) (||-true (p x))
  where
    ||-true : (b : Bool) → (b || true) ≡ true
    ||-true true = refl
    ||-true false = refl

Pins-owns :
    (ls : List Label) (front added : List Matcher) → Pins ls added → owns ls (front ++ added) ≡ true
unfolding owns
Pins-owns [] front added h = refl
Pins-owns (l ∷ ls) front [] h = absurd h
Pins-owns (l ∷ ls) front (m ∷ ms) (h, k) = rw (any-append (pins l) front (m ∷ ms) (rw h refl)) (
    subst (λ x. all (λ l'. any (pins l') x) ls ≡ true) (sym (append-snoc front m ms))
      (Pins-owns ls (front ++ m ∷ []) ms k))
  where
    append-snoc :
        (f : List Matcher) (m : Matcher) (ms : List Matcher) → f ++ m ∷ ms ≡ (f ++ m ∷ []) ++ ms
    append-snoc f m ms = sym (append_assoc f (m ∷ []) ms)

-- A silence whose matchers are accepted keeps the caller's own matchers on labels that are not
-- enforced, of which there is at least one, gains for each enforced label one equality matcher on a
-- value that the caller holds, has no other matcher, and is owned by the caller.
pub scope_matchers-owned :
    (ls : List Label) (ms res : List Matcher)
    → scope_matchers ls ms ≡ scoped res
    → (added : List Matcher) × (res ≡ free ls ms ++ added)
      × Pins ls added
      × (free ls ms ≢ [])
      × (owns ls res ≡ true)
unfolding scope_matchers
scope_matchers-owned ls ms res h = go (free ls ms) refl h
  where
    go :
        (out : List Matcher)
        → free ls ms ≡ out
        → (if is_empty out then refused only_enforced else pin_all ls ms out) ≡ scoped res
        → (added : List Matcher) × (res ≡ free ls ms ++ added)
          × Pins ls added
          × (free ls ms ≢ [])
          × (owns ls res ≡ true)
    go [] e k = absurd cc
    go (o ∷ os) e k =
        let (added, shape, ps) = pin_all-shape ls ms (o ∷ os) res k in
        (
          added,
          rw e shape,
          ps,
          λ z. (let w : o ∷ os ≡ [] = sym e ∙ z in cc),
          rw shape (Pins-owns ls (o ∷ os) added ps),
        )
