-- ===== src/Cookies/Taken.antt =====
-- What taking cookies off a request leaves: every other cookie, in order, and none of the names.
use token_auth_proxy.Common.{
  ◌≡◌, ◌≢◌, refl, sym, ap, ap₂, ◌∙◌, inl, inr, Bool, not, List, [], ◌∷◌, ◌++◌, map, keep, is_empty,
  if◌then◌else◌, All, Option-cases, keep-append,
}
use token_auth_proxy.Text.{Text, text, join, trim_space, is_some}
use token_auth_proxy.Text.Cut.{Free}
use token_auth_proxy.Text.Trim.{
  split_on, split_on-Free, split_on-append, split_on-whole, trim_space_idem, trim_space-Free,
  trim_space-leading, onto, split_on-ne,
}
use token_auth_proxy.Cookies.{
  key_of_part, take_parts, keep_line, take_lines, first_line, if_changed, take_cookies,
  value_of_part,
}

-- The cookies of a header: its lines' parts between semicolons, trimmed.
abbrev pub parts_of : Text → List Text
parts_of line = map trim_space (split_on b';' line)

unfoldable pub cookies : List Text → List Text
cookies [] = []
cookies (l ∷ ls) = parts_of l ++ cookies ls

-- A cookie of none of the names.
abbrev pub unnamed : List (Text × Text) → Text → Bool
unnamed names part = not (is_some (key_of_part names part))

-- A part as it is after trimming.
record Trimmed (part : Text) : Type 0 where
  whole : Free b';' part
  stable : trim_space part ≡ part

trim-Trimmed : (s : Text) → Free b';' s → Trimmed (trim_space s)
trim-Trimmed s h = record { whole = trim_space-Free b';' s h; stable = trim_space_idem s }

split_on-leading :
    (s : Text) → map trim_space (split_on b';' (32 ∷ s)) ≡ map trim_space (split_on b';' s)
unfolding split_on
split_on-leading s = go (split_on b';' s) (split_on-ne b';' s)
  where
    go : (ps : List Text) → ps ≢ [] → map trim_space (onto 32 ps) ≡ map trim_space ps
    go [] h = absurd (h refl)
    go (p ∷ ps) h = ap (λ (x : Text). x ∷ map trim_space ps) (trim_space-leading p)

-- A line that is joined from trimmed parts has those parts.
parts_of-join :
    (p : Text) (ps : List Text)
    → All Trimmed (p ∷ ps)
    → parts_of (join (text "; ") (p ∷ ps)) ≡ p ∷ ps
unfolding join
parts_of-join p [] (h, _) =
    ap (map trim_space) (split_on-whole b';' p h.whole) ∙ ap (λ (x : Text). x ∷ []) h.stable
parts_of-join p (q ∷ qs) (h, hs) =
    ap (map trim_space) (split_on-append b';' p (32 ∷ join (text "; ") (q ∷ qs)) h.whole)
    ∙ ap₂ (λ (x : Text) (xs : List Text). x ∷ xs) h.stable
        (split_on-leading (join (text "; ") (q ∷ qs)) ∙ parts_of-join q qs hs)

module _ (names : List (Text × Text)) where
  take_parts-keep :
      (parts : List Text) (taken : List (Text × Text))
      → (take_parts names parts taken).0 ≡ keep (unnamed names) (map trim_space parts)
  unfolding take_parts
  take_parts-keep [] taken = refl
  take_parts-keep (part ∷ parts) taken = elim (Option-cases (key_of_part names (trim_space part))) [
    | inl n ↦
        rw (n, take_parts, keep, unnamed)
          (ap (λ (l : List Text). trim_space part ∷ l) (take_parts-keep parts taken))
    | inr (k, e) ↦ rw (e, take_parts, keep, unnamed) (take_parts-keep parts _)
  ]

  Trimmed-parts :
      (parts : List Text) (taken : List (Text × Text))
      → All (Free b';') parts
      → All Trimmed (take_parts names parts taken).0
  unfolding take_parts
  Trimmed-parts [] taken h = tt
  Trimmed-parts (part ∷ parts) taken (h, hs) =
      elim (Option-cases (key_of_part names (trim_space part))) [
        | inl n ↦ rw (n, take_parts) (trim-Trimmed part h, Trimmed-parts parts taken hs)
        | inr (k, e) ↦ rw (e, take_parts) (Trimmed-parts parts _ hs)
      ]

  cookies-keep_line :
      (kept lines : List Text)
      → All Trimmed kept
      → cookies (keep_line kept lines) ≡ kept ++ cookies lines
  cookies-keep_line [] lines h = refl
  cookies-keep_line (p ∷ ps) lines h =
      unfold cookies in ap (λ (l : List Text). l ++ cookies lines) (parts_of-join p ps h)

  take_lines-cookies :
      (lines : List Text) (taken : List (Text × Text))
      → cookies (take_lines names lines taken).0 ≡ keep (unnamed names) (cookies lines)
  unfolding take_lines
  take_lines-cookies [] taken = unfold cookies in refl
  take_lines-cookies (line ∷ lines) taken =
      let now = take_parts names (split_on b';' line) taken in
      let rest = take_lines names lines now.1 in
      cookies-keep_line now.0 rest.0
        (Trimmed-parts (split_on b';' line) taken (split_on-Free b';' line))
      ∙ ap₂ ◌++◌ (take_parts-keep (split_on b';' line) taken) (take_lines-cookies lines now.1)
      ∙ (unfold cookies in sym (keep-append (unnamed names) (parts_of line) (cookies lines)))

  take_parts-grows :
      (parts : List Text) (taken : List (Text × Text))
      → taken ≢ []
      → (take_parts names parts taken).1 ≢ []
  unfolding take_parts
  take_parts-grows [] taken h = h
  take_parts-grows (part ∷ parts) taken h =
      elim (Option-cases (key_of_part names (trim_space part))) [
        | inl n ↦ rw (n, take_parts) (take_parts-grows parts taken h)
        | inr (k, e) ↦ rw (e, take_parts) (take_parts-grows parts _ (λ x. cc))
      ]

  take_parts-none :
      (parts : List Text)
      → (take_parts names parts []).1 ≡ []
      → keep (unnamed names) (map trim_space parts) ≡ map trim_space parts
  unfolding take_parts
  take_parts-none [] h = refl
  take_parts-none (part ∷ parts) h = elim (Option-cases (key_of_part names (trim_space part))) [
    | inl n ↦
        rw (n, keep, unnamed)
          (ap (λ (l : List Text). trim_space part ∷ l)
            (take_parts-none parts (rw (n, take_parts) at h)))
    | inr (k, e) ↦ absurd (
        take_parts-grows parts ((k, value_of_part (trim_space part)) ∷ []) (λ x. cc)
          (rw (e, take_parts) at h))
  ]

  take_lines-grows :
      (lines : List Text) (taken : List (Text × Text))
      → taken ≢ []
      → (take_lines names lines taken).1 ≢ []
  unfolding take_lines
  take_lines-grows [] taken h = h
  take_lines-grows (line ∷ lines) taken h =
      take_lines-grows lines (take_parts names (split_on b';' line) taken).1
        (take_parts-grows (split_on b';' line) taken h)

  take_lines-none :
      (lines : List Text)
      → (take_lines names lines []).1 ≡ []
      → keep (unnamed names) (cookies lines) ≡ cookies lines
  unfolding take_lines cookies
  take_lines-none [] h = refl
  take_lines-none (line ∷ lines) h =
      go (take_lines-none lines) (take_parts names (split_on b';' line) []).1 refl h
    where
      go :
          ((take_lines names lines []).1 ≡ []
            → keep (unnamed names) (cookies lines) ≡ cookies lines)
          → (t : List (Text × Text)) → (take_parts names (split_on b';' line) []).1 ≡ t
          → (take_lines names lines t).1 ≡ []
          → keep (unnamed names) (parts_of line ++ cookies lines) ≡ parts_of line ++ cookies lines
      go later [] e k =
          keep-append (unnamed names) (parts_of line) (cookies lines)
          ∙ ap₂ ◌++◌ (take_parts-none (split_on b';' line) e) (later k)
      go later (t ∷ ts) e k = absurd (take_lines-grows lines (t ∷ ts) (λ x. cc) k)

  -- Where the first line of the header is not empty, the cookies of the header afterwards are
  -- exactly those of no taken name, each as it was, in their order.
  pub take_cookies-cookies :
      (lines : List Text)
      → first_line lines ≢ []
      → cookies (take_cookies names lines).0 ≡ keep (unnamed names) (cookies lines)
  unfolding take_cookies
  take_cookies-cookies lines h = go (first_line lines) refl
    where
      changed :
          (q : List Text × List (Text × Text))
          → (q.1 ≡ [] → keep (unnamed names) (cookies lines) ≡ cookies lines)
          → cookies q.0 ≡ keep (unnamed names) (cookies lines)
          → cookies (if_changed lines q).0 ≡ keep (unnamed names) (cookies lines)
      changed (kept, []) same all = sym (same refl)
      changed (kept, t ∷ ts) same all = all

      go :
          (first : Text)
          → first_line lines ≡ first
          → cookies
              (if is_empty first
                then (lines, [])
                else if_changed lines (take_lines names lines [])).0
            ≡ keep (unnamed names) (cookies lines)
      go [] e = absurd (h e)
      go (c ∷ s) e =
          changed (take_lines names lines []) (take_lines-none lines) (take_lines-cookies lines [])
