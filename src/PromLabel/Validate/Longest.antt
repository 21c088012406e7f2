-- ===== src/PromLabel/Validate/Longest.antt =====
-- A request is routed by the longest of the configured prefixes that it lies under.
use token_auth_proxy.Common.{
  ◌≤◌, ◌≡◌, subst, ◌⊎◌, inl, inr, Bool, true, false, Option, none, some, List, [], ◌∷◌, ◌++◌, leb,
  length, In, All, All-map, arith, Bool-cases, Bool-contra, leb→le, check_from,
}
use token_auth_proxy.Text.{Text, ◌==◌, ==_iff}
use token_auth_proxy.PromLabel.Scope.{Endpoint, route}
use token_auth_proxy.PromLabel.Scope.Routing.{under, route-First}
use token_auth_proxy.PromLabel.Resolve.{without_head, compact}
use token_auth_proxy.PromLabel.Validate.{
  LabelError, valid, in_prefix, prefix_ok, insert_prefix, by_length, trimmed, prefixes_of,
  normalize_prefixes,
}

-- The prefixes with no trailing slash; with none given, the root.
abbrev pub configured : List Text → List Text
configured [] = [] ∷ []
configured (p ∷ ps) = trimmed (p ∷ ps)

-- No later text is longer.
abbrev Falling : List Text → Type 0
Falling [] = Unit
Falling (x ∷ xs) = All (λ y. length y ≤ length x) xs × Falling xs

All-insert :
    (P : Text → Type 0) (p : Text) (qs : List Text) → P p → All P qs → All P (insert_prefix p qs)
unfolding insert_prefix
All-insert P p [] h k = (h, tt)
All-insert P p (q ∷ qs) h k = elim (Bool-cases (leb (length q) (length p))) [
  | inl t ↦ rw t (h, k)
  | inr f ↦ rw f (k.0, All-insert P p qs h k.1)
]

shorter : (p q : Text) → leb (length q) (length p) ≡ false → length p ≤ length q
shorter p q h = ground arith

insert-Falling : (p : Text) (qs : List Text) → Falling qs → Falling (insert_prefix p qs)
unfolding insert_prefix
insert-Falling p [] f = (tt, tt)
insert-Falling p (q ∷ qs) f = elim (Bool-cases (leb (length q) (length p))) [
  | inl t ↦
      let le = leb→le (length q) (length p) t in
      rw t (
        (
          le,
          All-map (λ y. length y ≤ length q) (λ y. length y ≤ length p) (λ y h. omega arith) qs f.0,
        ),
        f,
      )
  | inr n ↦
      rw n (All-insert (λ y. length y ≤ length q) p qs (shorter p q n) f.0, insert-Falling p qs f.1)
]

by_length-Falling : (ps : List Text) → Falling (by_length ps)
unfolding by_length
by_length-Falling [] = tt
by_length-Falling (p ∷ ps) = insert-Falling p (by_length ps) (by_length-Falling ps)

In-insert : (x p : Text) (qs : List Text) → (x ≡ p) ⊎ In x qs → In x (insert_prefix p qs)
unfolding insert_prefix
In-insert x p [] (inl e) = inl e
In-insert x p [] (inr m) = absurd m
In-insert x p (q ∷ qs) h = elim (Bool-cases (leb (length q) (length p))) [
  | inl t ↦ rw t h
  | inr f ↦ rw f (elim h [
    | inl e ↦ inr (In-insert x p qs (inl e))
    | inr (inl e) ↦ inl e
    | inr (inr m) ↦ inr (In-insert x p qs (inr m))
  ])
]

In-by_length : (x : Text) (ps : List Text) → In x ps → In x (by_length ps)
unfolding by_length
In-by_length x [] m = elim m [ ]
In-by_length x (p ∷ ps) (inl e) = In-insert x p (by_length ps) (inl e)
In-by_length x (p ∷ ps) (inr m) = In-insert x p (by_length ps) (inr (In-by_length x ps m))

All-without :
    (P : Text → Type 0) (v : Text) (ws : List Text) → P v → All P ws → All P (without_head v ws)
All-without P v [] h k = (h, tt)
All-without P v (w ∷ ws) h k = elim (Bool-cases (v == w)) [ inl t ↦ rw t k | inr f ↦ rw f (h, k) ]

All-compact : (P : Text → Type 0) (vs : List Text) → All P vs → All P (compact vs)
unfolding compact
All-compact P [] h = tt
All-compact P (v ∷ vs) h = All-without P v (compact vs) h.0 (All-compact P vs h.1)

without-Falling :
    (v : Text) (ws : List Text)
    → All (λ y. length y ≤ length v) ws
    → Falling ws
    → Falling (without_head v ws)
without-Falling v [] h f = (tt, tt)
without-Falling v (w ∷ ws) h f = elim (Bool-cases (v == w)) [ inl t ↦ rw t f | inr n ↦ rw n (h, f) ]

compact-Falling : (vs : List Text) → Falling vs → Falling (compact vs)
unfolding compact
compact-Falling [] f = tt
compact-Falling (v ∷ vs) f =
    without-Falling v (compact vs) (All-compact (λ y. length y ≤ length v) vs f.0)
      (compact-Falling vs f.1)

In-without : (x v : Text) (ws : List Text) → (x ≡ v) ⊎ In x ws → In x (without_head v ws)
In-without x v [] (inl e) = inl e
In-without x v [] (inr m) = absurd m
In-without x v (w ∷ ws) h = elim (Bool-cases (v == w)) [
  | inl t ↦ rw t (elim h [ inl e ↦ inl (cc (e, (==_iff v w).0 t)) | inr m ↦ m ])
  | inr f ↦ rw f h
]

In-compact : (x : Text) (vs : List Text) → In x vs → In x (compact vs)
unfolding compact
In-compact x [] m = elim m [ ]
In-compact x (v ∷ vs) (inl e) = In-without x v (compact vs) (inl e)
In-compact x (v ∷ vs) (inr m) = In-without x v (compact vs) (inr (In-compact x vs m))

-- In a falling list, the first that passes a test is the longest that does.
First-longest :
    (test : Text → Bool) (before after : List Text) (p q : Text)
    → Falling (before ++ p ∷ after)
    → All (λ y. test y ≡ false) before
    → In q (before ++ p ∷ after)
    → test q ≡ true
    → length q ≤ length p
First-longest test [] after p q f n (inl e) t = rw e (omega arith)
First-longest test [] after p q f n (inr m) t = picked after f.0 m
  where
    picked : (ys : List Text) → All (λ y. length y ≤ length p) ys → In q ys → length q ≤ length p
    picked [] h m = elim m [ ]
    picked (y ∷ ys) h (inl e) = rw e h.0
    picked (y ∷ ys) h (inr k) = picked ys h.1 k
First-longest test (b ∷ before) after p q f n (inl e) t = Bool-contra (test q) t (rw e n.0)
First-longest test (b ∷ before) after p q f n (inr m) t =
    First-longest test before after p q f.1 n.1 m t

-- The prefixes that come out of the check are the configured ones, the longest first.
normalized :
    (raw ps : List Text)
    → normalize_prefixes raw ≡ valid ps
    → Falling ps × ((q : Text) → In q (configured raw) → In q ps)
unfolding normalize_prefixes
normalized [] ps h =
    let e : [] ∷ [] ≡ ps = cc in
    subst (λ x. Falling x × ((q : Text) → In q ([] ∷ []) → In q x)) e ((tt, tt), λ q m. m)
normalized (r ∷ rs) ps h = sorted (check_from in_prefix prefix_ok 0 (r ∷ rs)) h
  where
    sorted :
        (o : Option LabelError)
        → prefixes_of (r ∷ rs) o ≡ valid ps
        → Falling ps × ((q : Text) → In q (trimmed (r ∷ rs)) → In q ps)
    sorted (some e) h = absurd cc
    sorted none h =
        let s = by_length (trimmed (r ∷ rs)) in
        let e : compact s ≡ ps = cc in
        subst (λ x. Falling x × ((q : Text) → In q (trimmed (r ∷ rs)) → In q x)) e
          (
            compact-Falling s (by_length-Falling (trimmed (r ∷ rs))),
            λ q m. In-compact q s (In-by_length q (trimmed (r ∷ rs)) m),
          )

-- With the prefixes of a block that passes the check, a request that is enforced is enforced by a
-- prefix that its path lies under, and no configured prefix that the path lies under is longer.
pub validated_route_longest :
    (raw ps : List Text) (method path : Text) (e : Endpoint) (p : Text)
    → normalize_prefixes raw ≡ valid ps
    → route ps method path ≡ some (e, p)
    → (under path p ≡ true)
      × ((q : Text) → In q (configured raw) → under path q ≡ true → length q ≤ length p)
validated_route_longest raw ps method path e p h k =
    let (falling, all_in) = normalized raw ps h in
    let (first, _, _) = route-First ps method path e p k in
    (
      first.passes,
      λ q m t.
          First-longest (under path) first.before first.after p q
            (subst Falling first.split falling) first.earlier
            (subst (In q) first.split (all_in q m)) t,
    )
