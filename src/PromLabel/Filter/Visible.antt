-- ===== src/PromLabel/Filter/Visible.antt =====
-- A filtered response holds what the caller may see, all of it, in order, and nothing else.
use token_auth_proxy.Common.{
  keep-append, ◌≡◌, refl, sym, ap, ap₂, ◌∙◌, ◌↔◌, inl, inr, Bool, true, false, Option, none, some,
  List, [], ◌∷◌, ◌++◌, keep, if◌then◌else◌, map, subst, Some, All, any_iff, all_iff, Option-cases,
}
use token_auth_proxy.Text.{Text, ◌==◌, ==_iff}
use token_auth_proxy.PromLabel.Scope.{Label, allows}
use token_auth_proxy.PromLabel.Filter.{
  label_of, visible, keep_decoded, keep_labelled, with_entry, with_group, cons_group, filter_groups,
}

-- An entry is visible exactly if each enforced label of it has a value that the caller holds.
pub visible_iff :
    (entry : List (Text × Text)) (ls : List Label)
    → (visible entry ls ≡ true) ↔ All (λ l. Some (λ v. v ≡ label_of entry l.name) l.values) ls
unfolding visible
visible_iff entry ls =
    all_iff (λ l. allows l (label_of entry l.name))
      (λ l. Some (λ v. v ≡ label_of entry l.name) l.values)
      (λ l.
        any_iff (λ v. v == label_of entry l.name) (λ v. v ≡ label_of entry l.name)
          (λ v. ==_iff v (label_of entry l.name)) l.values)
      ls

module _ {Raw Entry : Type 0} (decode : Raw → Option Entry) (see : Entry → Bool) where
  -- An entry that decodes to something that is seen.
  abbrev pub seen : Raw → Bool
  seen raw = elim (decode raw) [ none ↦ false | some entry ↦ see entry ]

  with_entry-some :
      (b : Bool) (raw : Raw) (o : Option (List Raw)) (kept : List Raw)
      → with_entry decode see b raw o ≡ some kept
      → (rest : List Raw) × (o ≡ some rest) × (kept ≡ (if b then raw ∷ rest else rest))
  with_entry-some true raw none kept h = absurd cc
  with_entry-some true raw (some rest) kept h = (rest, refl, cc)
  with_entry-some false raw o kept h = (kept, h, refl)

  pub keep_decoded-keep :
      (entries kept : List Raw)
      → keep_decoded decode see entries ≡ some kept
      → kept ≡ keep seen entries
  unfolding keep_decoded
  keep_decoded-keep [] kept h = cc
  keep_decoded-keep (raw ∷ entries) kept h = elim (Option-cases (decode raw)) [
    | inl n ↦ absurd (let k : none ≡ some kept = rw (n, keep_decoded) at h in cc)
    | inr (entry, e) ↦
        let (rest, found, shape) =
          with_entry-some (see entry) raw (keep_decoded decode see entries) kept
            (rw (e, keep_decoded) at h) in
        let same : rest ≡ keep seen entries = keep_decoded-keep entries rest found in
        let sees : seen raw ≡ see entry = rw (e, seen) refl in
        shape ∙ rw (sees, keep) (ap (λ r. if see entry then raw ∷ r else r) same)
  ]

module _ {Raw Group : Type 0} (rules : Group → Option (List Raw)) where
  abbrev pub rules_or : Option (List Raw) → List Raw
  rules_or none = []
  rules_or (some rs) = rs

  -- All rules of all groups, in order.
  abbrev pub all_rules : List Group → List Raw
  all_rules [] = []
  all_rules (g ∷ gs) = rules_or (rules g) ++ all_rules gs

pub map_append :
    {A B : Type 0} (f : A → B) (xs ys : List A) → map f (xs ++ ys) ≡ map f xs ++ map f ys
map_append f [] ys = refl
map_append f (x ∷ xs) ys = ap (λ r. f x ∷ r) (map_append f xs ys)

module _ {Raw : Type 0} (labels : Raw → Option (List (Text × Text))) (ls : List Label) where
  -- An entry that decodes and is visible.
  abbrev pub shown : Raw → Bool
  shown raw = seen labels (λ entry. visible entry ls) raw

  pub keep_labelled-keep :
      (entries kept : List Raw)
      → keep_labelled labels ls entries ≡ some kept
      → kept ≡ keep shown entries
  unfolding keep_labelled
  keep_labelled-keep entries kept h =
      keep_decoded-keep labels (λ entry. visible entry ls) entries kept h

  module _ {Group : Type 0} (rules : Group → Option (List Raw))
      (with_rules : Group → List Raw → Option Group) (written : Raw → Raw) where
    -- Every group has a rule.
    abbrev Full : List Group → Type 0
    Full gs = All (λ g. (r : Raw) × (rs : List Raw) × (rules g ≡ some (r ∷ rs))) gs

    cons_group-some :
        (o : Option Group) (p : Option (List Group)) (out : List Group)
        → cons_group labels ls rules with_rules o p ≡ some out
        → (g : Group) × (rest : List Group) × (o ≡ some g) × (p ≡ some rest) × (out ≡ g ∷ rest)
    cons_group-some none p out h = absurd cc
    cons_group-some (some g) none out h = absurd cc
    cons_group-some (some g) (some rest) out h = (g, rest, refl, refl, cc)

    module _
        (law : (g g' : Group) (rs : List Raw)
          → with_rules g rs ≡ some g'
          → rules g' ≡ some (map written rs)) where
      with_group-some :
          (kept : List Raw) (g : Group) (o : Option (List Group)) (out : List Group)
          → with_group labels ls rules with_rules kept g o ≡ some out
          → (rest : List Group) × (o ≡ some rest)
            × (all_rules rules out ≡ map written kept ++ all_rules rules rest)
            × (Full rest → Full out)
      with_group-some [] g o out h = (out, h, refl, λ f. f)
      with_group-some (r ∷ rs) g o out h =
          let (g', rest, made, later, shape) = cons_group-some (with_rules g (r ∷ rs)) o out h in
          let new : rules g' ≡ some (written r ∷ map written rs) = law g g' (r ∷ rs) made in
          (
            rest,
            later,
            ap (all_rules rules) shape ∙ ap (λ x. rules_or rules x ++ all_rules rules rest) new,
            λ f. subst Full (sym shape) ((written r, map written rs, new), f),
          )

      -- The rules of a filtered list of groups are exactly the visible rules of the groups, in their
      -- order and as they are written, and no group is left empty, if a group gives back as written
      -- the rules that are put into it.
      pub filter_groups-rules :
          (gs out : List Group)
          → filter_groups labels ls rules with_rules gs ≡ some out
          → (all_rules rules out ≡ map written (keep shown (all_rules rules gs))) × Full out
      unfolding filter_groups
      filter_groups-rules [] out h = let none_left : out ≡ [] = cc in rw none_left (refl, tt)
      filter_groups-rules (g ∷ gs) out h = elim (Option-cases (rules g)) [
        | inl n ↦ absurd (let k : none ≡ some out = rw (n, filter_groups) at h in cc)
        | inr (rs, e) ↦ elim (Option-cases (keep_labelled labels ls rs)) [
          | inl n ↦ absurd (let k : none ≡ some out = rw (e, n, filter_groups) at h in cc)
          | inr (kept, found) ↦
              let (rest, later, shape, full) =
                with_group-some kept g (filter_groups labels ls rules with_rules gs) out
                  (rw (e, found, filter_groups) at h) in
              let (same, rest_full) = filter_groups-rules gs rest later in
              let first : kept ≡ keep shown rs = keep_labelled-keep rs kept found in
              let all : all_rules rules out ≡ map written (keep shown (all_rules rules (g ∷ gs))) =
                rw (e, all_rules)
                  (shape
                    ∙ ap₂ (λ x y. map written x ++ y) first same
                    ∙ sym (map_append written (keep shown rs) (keep shown (all_rules rules gs)))
                    ∙ ap (map written) (sym (keep-append shown rs (all_rules rules gs)))) in
              (all, full rest_full)
        ]
      ]
