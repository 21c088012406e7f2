-- ===== src/Interpolate/Escape.antt =====
-- What is written in a configuration file comes back: escaped text, and resolved references.
use token_auth_proxy.Common.{
  ℕ, zero, suc, ◌+◌, ◌<◌, ◌≤◌, ◌≡◌, refl, sym, ap, ap₂, &&_iff, ◌∙◌, inl, inr, Bool, true, false,
  ◌&&◌, none, some, [], ◌∷◌, ◌++◌, arith, eqb, eqb_iff, if◌then◌else◌, length, Bool-cases,
}
use token_auth_proxy.Text.{Text, text, cut_prefix}
use token_auth_proxy.Text.Cut.{Free, cut-append}
use token_auth_proxy.Interpolate.{
  ok, World, copied, reference, classify, scan, resume, resolve_ref, interpolate_string,
}
use token_auth_proxy.Interpolate.Pass.{interpolate_string-scan}

-- A literal text as it is written in the file: each "${" as "$${".
abbrev starts_brace : Text → Bool
starts_brace [] = false
starts_brace (d ∷ s) = eqb d b'{'

pub escape : Text → Text
escape [] = []
escape (c ∷ s) =
    let rest = escape s in if eqb c b'$' && starts_brace s then b'$' ∷ c ∷ rest else c ∷ rest

-- The head of an escaped text.
escape-starts : (s : Text) → starts_brace s ≡ false → cut_prefix (escape s) (text "{") ≡ none
unfolding escape cut_prefix
escape-starts [] h = refl
escape-starts (c ∷ s) h = elim (Bool-cases (eqb c b'$' && starts_brace s)) [
  | inl t ↦ rw t refl
  | inr f ↦ rw f (rw h refl)
]

escape-opens : (s : Text) → cut_prefix (escape s) (text "${") ≡ none
unfolding escape cut_prefix
escape-opens [] = refl
escape-opens (c ∷ s) = elim (Bool-cases (eqb c b'$')) [
  | inr f ↦ rw f (rw f refl)
  | inl t ↦ elim (Bool-cases (starts_brace s)) [
    | inl b ↦ rw t (rw b (rw ((eqb_iff c b'$').0 t) refl))
    | inr b ↦ rw t (rw b (rw t (escape-starts s b)))
  ]
]

escape-brace : (s : Text) → starts_brace s ≡ true → (r : Text) × (s ≡ b'{' ∷ r)
escape-brace [] h = absurd cc
escape-brace (d ∷ s) h = (s, ap (λ (x : ℕ). x ∷ s) ((eqb_iff d b'{').0 h))

&&-false : (b : Bool) → (b && false) ≡ false
&&-false true = refl
&&-false false = refl

-- A byte that is not escaped is copied.
escape-copied :
    (c : ℕ) (s : Text) → (eqb c b'$' && starts_brace s) ≡ false → classify c (escape s) ≡ copied
unfolding classify
escape-copied c s h = elim (Bool-cases (eqb c b'$')) [
  | inr f ↦ rw f refl
  | inl t ↦
      let b : starts_brace s ≡ false = rw t at h in
      rw t (rw (escape-opens s) (rw (escape-starts s b) refl))
]

escape-here :
    (c : ℕ) (s : Text) → (eqb c b'$' && starts_brace s) ≡ false → escape (c ∷ s) ≡ c ∷ escape s
unfolding escape
escape-here c s h = rw h refl

escape-pair : (r : Text) → escape (b'$' ∷ b'{' ∷ r) ≡ b'$' ∷ text "${" ++ escape r
unfolding escape
escape-pair r = refl

pair_shape :
    (c d : ℕ) (r : Text) → (eqb c b'$' && starts_brace (d ∷ r)) ≡ true → (c ≡ b'$') × (d ≡ b'{')
pair_shape c d r h =
    let (a, b) = (&&_iff (eqb c b'$') (eqb d b'{')).0 h in
    ((eqb_iff c b'$').0 a, (eqb_iff d b'{').0 b)

-- One unit of fuel more for each byte of a text, and for the reference behind it.
abbrev grow : Text → ℕ → ℕ
grow [] fuel = suc fuel
grow (c ∷ pre) fuel = suc (grow pre fuel)

le-grow : (pre : Text) (fuel : ℕ) → fuel ≤ grow pre fuel
le-grow [] fuel = omega arith
le-grow (c ∷ pre) fuel = omega (arith, le-grow pre fuel)

module _ (world : World) where
  scan_copied :
      (fuel c : ℕ) (s t : Text)
      → classify c s ≡ copied
      → scan world fuel s ≡ ok t
      → scan world (suc fuel) (c ∷ s) ≡ ok (c ∷ t)
  unfolding scan resume
  scan_copied fuel c s t h k = rw h (rw k refl)

  scan_pair :
      (fuel : ℕ) (r t : Text)
      → scan world fuel r ≡ ok t
      → scan world (suc fuel) (b'$' ∷ text "${" ++ r) ≡ ok (b'$' ∷ b'{' ∷ t)
  unfolding scan resume classify cut_prefix
  scan_pair fuel r t k = rw k refl

  scan-escape : (fuel : ℕ) (s : Text) → length (escape s) < fuel → scan world fuel (escape s) ≡ ok s
  scan-escape zero s h = absurd (omega arith)
  scan-escape (suc fuel) [] h = unfold escape scan in refl
  scan-escape (suc fuel) (c ∷ []) h =
      let plain = &&-false (eqb c b'$') in
      rw (escape-here c [] plain) (
        scan_copied fuel c (escape []) [] (escape-copied c [] plain) (
          scan-escape fuel []
            (let k = ap (λ (x : Text). length x) (escape-here c [] plain) in omega (arith, k))))
  scan-escape (suc fuel) (c ∷ d ∷ r) h = elim (Bool-cases (eqb c b'$' && starts_brace (d ∷ r))) [
    | inr f ↦ rw (escape-here c (d ∷ r) f) (
        scan_copied fuel c (escape (d ∷ r)) (d ∷ r) (escape-copied c (d ∷ r) f) (
          scan-escape fuel (d ∷ r)
            (let k = ap (λ (x : Text). length x) (escape-here c (d ∷ r) f) in omega (arith, k))))
    | inl t ↦
        let (e, k) = pair_shape c d r t in
        let both : escape (c ∷ d ∷ r) ≡ b'$' ∷ text "${" ++ escape r =
          ap₂ (λ (x y : ℕ). escape (x ∷ y ∷ r)) e k ∙ escape-pair r in
        rw both (
          rw e (
            rw k (
              scan_pair fuel (escape r) r (
                scan-escape fuel r
                  (let l = ap (λ (x : Text). length x) both in omega (arith, l))))))
  ]

  -- A text that is escaped in the file is itself after interpolation.
  pub interpolate_string-escape : (s : Text) → interpolate_string world (escape s) ≡ ok s
  interpolate_string-escape s =
      let fuel = suc (length (escape s)) in
      (interpolate_string-scan world (escape s) fuel (omega arith)).0
      ∙ scan-escape fuel s (omega arith)

  classify-reference :
      (inner post : Text)
      → Free b'}' inner
      → classify b'$' (text "{" ++ (inner ++ (text "}" ++ post))) ≡ reference inner post
  unfolding classify cut_prefix
  classify-reference inner post h = rw (cut-append b'}' inner post h) refl

  scan-reference :
      (fuel : ℕ) (pre inner post v out : Text)
      → Free b'$' pre
      → Free b'}' inner
      → resolve_ref world inner ≡ ok (some v)
      → scan world fuel post ≡ ok out
      → scan world (grow pre fuel) (pre ++ (text "${" ++ (inner ++ (text "}" ++ post))))
        ≡ ok (pre ++ (v ++ out))
  unfolding scan resume
  scan-reference fuel [] inner post v out p i r o =
      rw (classify-reference inner post i) (rw r (rw o refl))
  scan-reference fuel (c ∷ pre) inner post v out (f, p) i r o =
      scan_copied (grow pre fuel) c (pre ++ (text "${" ++ (inner ++ (text "}" ++ post))))
        (pre ++ (v ++ out)) (unfold classify in rw f refl)
        (scan-reference fuel pre inner post v out p i r o)

  -- What a reference resolves to is put in its place and not read again, whatever it holds, if the
  -- text before it has no dollar sign and the reference no closing brace: the text before it is
  -- copied, and the rest is interpolated by itself.
  pub interpolate_string-reference :
      (pre inner post v out : Text)
      → Free b'$' pre
      → Free b'}' inner
      → resolve_ref world inner ≡ ok (some v)
      → interpolate_string world post ≡ ok out
      → interpolate_string world (pre ++ (text "${" ++ (inner ++ (text "}" ++ post))))
        ≡ ok (pre ++ (v ++ out))
  interpolate_string-reference pre inner post v out p i r o =
      let whole = pre ++ (text "${" ++ (inner ++ (text "}" ++ post))) in
      let fuel = suc (length whole + length post) in
      let rest : scan world fuel post ≡ ok out =
        sym (interpolate_string-scan world post fuel (omega arith)).0 ∙ o in
      (interpolate_string-scan world whole (grow pre fuel)
        (let k = le-grow pre fuel in omega (arith, k))).0
      ∙ scan-reference fuel pre inner post v out p i r rest
