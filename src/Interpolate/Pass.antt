-- ===== src/Interpolate/Pass.antt =====
-- The single pass over a text: it ends, what it copies, and that nothing is read twice.
use token_auth_proxy.Common.{
  ℕ, zero, suc, ◌<◌, ◌≤◌, ◌≡◌, ◌≢◌, refl, sym, ap, ap₂, inl, inr, false, Option, none, some, [],
  ◌∷◌, ◌++◌, arith, eqb, eqb_iff, length, Bool-cases, Option-cases, Bool-contra,
}
use token_auth_proxy.Text.{Text, text, ◌==◌, cut_prefix, has_prefix, contains, cut}
use token_auth_proxy.Text.Affix.{
  cut_prefix-some, has_prefix_iff, contains-cons, contains-cut_prefix,
}
use token_auth_proxy.Text.Cut.{cut-length}
use token_auth_proxy.Interpolate.{
  Result, ok, err, out_of_fuel, World, Piece, copied, escaped, unclosed, reference, classify, scan,
  resume, resolve_ref, resolve_env_ref, resolve_file_ref, resolve_kind, a_ref, looks_like_ref_type,
  prepend, replaced, interpolate_string,
}

-- What is left to read is shorter than what was there.
abbrev Shorter : ℕ → Piece → Type 0
Shorter n copied = Unit
Shorter n (escaped rest) = length rest ≤ n
Shorter n unclosed = Unit
Shorter n (reference inner rest) = length rest ≤ n

classify-Shorter : (c : ℕ) (s : Text) → Shorter (length s) (classify c s)
unfolding classify
classify-Shorter c s = elim (Bool-cases (eqb c b'$')) [
  | inr f ↦ rw f tt
  | inl t ↦ elim (Option-cases (cut_prefix s (text "${"))) [
    | inr (rest, e) ↦
        let k : s ≡ text "${" ++ rest = cut_prefix-some s (text "${") rest e in
        rw t (rw e (omega (arith, ap (λ (x : Text). length x) k)))
    | inl n ↦ elim (Option-cases (cut_prefix s (text "{"))) [
      | inl m ↦ rw t (rw n (rw m tt))
      | inr (after, e) ↦ elim (Option-cases (cut b'}' after)) [
        | inl u ↦ rw t (rw n (rw e (rw u tt)))
        | inr ((inner, rest), u) ↦
            let k : s ≡ text "{" ++ after = cut_prefix-some s (text "{") after e in
            rw t (
              rw n (
                rw e (
                  rw u (
                    omega
                      (arith, ap (λ (x : Text). length x) k, cut-length b'}' after inner rest u)))))
      ]
    ]
  ]
]

-- A byte at which no "${" begins is copied, if none begins at the next.
classify-copied :
    (c : ℕ) (s : Text)
    → has_prefix (c ∷ s) (text "${") ≡ false
    → contains s (text "${") ≡ false
    → classify c s ≡ copied
unfolding classify
classify-copied c s here later = elim (Bool-cases (eqb c b'$')) [
  | inr f ↦ rw f refl
  | inl t ↦ elim (Option-cases (cut_prefix s (text "{"))) [
    | inl m ↦ rw t (rw (contains-cut_prefix s (text "${") later) (rw m refl))
    | inr (after, e) ↦
        let shape : c ∷ s ≡ text "${" ++ after =
          ap₂ (λ (a : ℕ) (r : Text). a ∷ r) ((eqb_iff c b'$').0 t)
            (cut_prefix-some s (text "{") after e) in
        Bool-contra (has_prefix (c ∷ s) (text "${"))
          ((has_prefix_iff (c ∷ s) (text "${")).1 (after, shape)) here
  ]
]

module _ (world : World) where
  prepend-ne :
      (p : Text) (r : Result Text) → r ≢ err out_of_fuel → prepend world p r ≢ err out_of_fuel
  prepend-ne p (ok s) h = λ e. cc
  prepend-ne p (err x) h = h

  env-ne : (name : Text) → resolve_env_ref world name ≢ err out_of_fuel
  unfolding resolve_env_ref
  env-ne [] = λ e. cc
  env-ne (c ∷ name) = elim (Option-cases (world.lookup_env (c ∷ name))) [
    | inl n ↦ rw (n, resolve_env_ref) (λ e. cc)
    | inr (v, k) ↦ rw (k, resolve_env_ref) (λ e. cc)
  ]

  file-ne : (path : Text) → resolve_file_ref world path ≢ err out_of_fuel
  unfolding resolve_file_ref
  file-ne [] = λ e. cc
  file-ne (c ∷ path) = elim (Option-cases (world.read_file (c ∷ path))) [
    | inl n ↦ rw (n, resolve_file_ref) (λ e. cc)
    | inr (v, k) ↦ rw (k, resolve_file_ref) (λ e. cc)
  ]

  a_ref-ne : (r : Result Text) → r ≢ err out_of_fuel → a_ref world r ≢ err out_of_fuel
  a_ref-ne (ok v) h = λ e. cc
  a_ref-ne (err x) h = λ e. h cc

  kind-ne : (inner kind arg : Text) → resolve_kind world inner kind arg ≢ err out_of_fuel
  kind-ne inner kind arg = elim (Bool-cases (kind == text "env")) [
    | inl t ↦ rw (t, resolve_kind) (a_ref-ne (resolve_env_ref world arg) (env-ne arg))
    | inr f ↦ elim (Bool-cases (kind == text "file")) [
      | inl t ↦ rw (f, t, resolve_kind) (a_ref-ne (resolve_file_ref world arg) (file-ne arg))
      | inr g ↦ rw (f, g, resolve_kind) (λ e. cc)
    ]
  ]

  resolve_ref-ne : (inner : Text) → resolve_ref world inner ≢ err out_of_fuel
  unfolding resolve_ref
  resolve_ref-ne inner = elim (Option-cases (cut b':' inner)) [
    | inl n ↦ rw (n, resolve_ref) (λ e. cc)
    | inr ((kind, arg), k) ↦ elim (Bool-cases (looks_like_ref_type kind)) [
      | inl t ↦ rw (k, resolve_ref) (rw t (kind-ne inner kind arg))
      | inr f ↦ rw (k, resolve_ref) (rw f (λ e. cc))
    ]
  ]

  replaced-ne :
      (inner : Text) (q : Result (Option Text)) (r : Result Text)
      → q ≢ err out_of_fuel
      → r ≢ err out_of_fuel
      → replaced world inner q r ≢ err out_of_fuel
  replaced-ne inner (ok none) r h k = prepend-ne (text "${" ++ (inner ++ text "}")) r k
  replaced-ne inner (ok (some v)) r h k = prepend-ne v r k
  replaced-ne inner (err x) r h k = λ e. h cc

  resume-ne :
      (again : Text → Result Text) (c : ℕ) (s : Text) (p : Piece)
      → ((t : Text) → length t ≤ length s → again t ≢ err out_of_fuel)
      → Shorter (length s) p
      → resume world again c s p ≢ err out_of_fuel
  unfolding resume
  resume-ne again c s copied ih h = prepend-ne (c ∷ []) (again s) (ih s (omega arith))
  resume-ne again c s (escaped rest) ih h = prepend-ne (text "${") (again rest) (ih rest h)
  resume-ne again c s unclosed ih h = λ e. cc
  resume-ne again c s (reference inner rest) ih h =
      replaced-ne inner (resolve_ref world inner) (again rest) (resolve_ref-ne inner) (ih rest h)

  -- More fuel than bytes is enough.
  scan-ne : (fuel : ℕ) (s : Text) → length s < fuel → scan world fuel s ≢ err out_of_fuel
  unfolding scan
  scan-ne zero s h = absurd (omega arith)
  scan-ne (suc fuel) [] h = λ e. cc
  scan-ne (suc fuel) (c ∷ s) h =
      resume-ne (scan world fuel) c s (classify c s)
        (λ (t : Text) (k : length t ≤ length s). scan-ne fuel t (omega arith))
        (classify-Shorter c s)

  resume-eq :
      (f g : Text → Result Text) (c : ℕ) (s : Text) (p : Piece)
      → ((t : Text) → length t ≤ length s → f t ≡ g t)
      → Shorter (length s) p
      → resume world f c s p ≡ resume world g c s p
  unfolding resume
  resume-eq f g c s copied ih h = ap (prepend world (c ∷ [])) (ih s (omega arith))
  resume-eq f g c s (escaped rest) ih h = ap (prepend world (text "${")) (ih rest h)
  resume-eq f g c s unclosed ih h = refl
  resume-eq f g c s (reference inner rest) ih h =
      ap (replaced world inner (resolve_ref world inner)) (ih rest h)

  -- Any two amounts of fuel that are enough give one result.
  pub scan_enough :
      (fuel more : ℕ) (s : Text)
      → length s < fuel
      → length s < more
      → scan world fuel s ≡ scan world more s
  unfolding scan
  scan_enough zero more s h k = absurd (omega arith)
  scan_enough (suc fuel) zero s h k = absurd (omega arith)
  scan_enough (suc fuel) (suc more) [] h k = refl
  scan_enough (suc fuel) (suc more) (c ∷ s) h k =
      resume-eq (scan world fuel) (scan world more) c s (classify c s)
        (λ (t : Text) (l : length t ≤ length s).
          scan_enough fuel more t (omega arith) (omega arith))
        (classify-Shorter c s)

  -- A text with no "${" is its own interpolation, by the loop as by the test before it.
  scan-plain :
      (fuel : ℕ) (s : Text)
      → length s < fuel
      → contains s (text "${") ≡ false
      → scan world fuel s ≡ ok s
  unfolding scan
  scan-plain zero s h f = absurd (omega arith)
  scan-plain (suc fuel) [] h f = refl
  scan-plain (suc fuel) (c ∷ s) h f =
      let (here, later) = contains-cons c s (text "${") f in
      rw (classify-copied c s here later)
        (unfold resume in rw (scan-plain fuel s (omega arith) later) refl)

  -- Interpolation ends, and is the loop over the whole text with any fuel beyond the text's length:
  -- the test for "${" before the loop only saves work.
  pub interpolate_string-scan :
      (s : Text) (fuel : ℕ)
      → length s < fuel
      → (interpolate_string world s ≡ scan world fuel s)
        × (interpolate_string world s ≢ err out_of_fuel)
  unfolding interpolate_string
  interpolate_string-scan s fuel h = elim (Bool-cases (contains s (text "${"))) [
    | inl t ↦ rw t (
      scan_enough (suc (length s)) fuel s (omega arith) h,
      scan-ne (suc (length s)) s (omega arith),
    )
    | inr f ↦ rw f (sym (scan-plain fuel s h f), λ e. cc)
  ]
