-- ===== src/PromLabel/Filter.antt =====
-- internal/promlabel/filter.go: the response filters. Decoding and encoding JSON is a parameter of
-- each function: what encoding/json makes of a raw value.
pub mod Visible
use token_auth_proxy.Common.{
  Bool, true, false, Option, none, some, List, [], ◌∷◌, all, is_empty, if◌then◌else◌, ◌++◌,
}
use token_auth_proxy.Text.{Text, ◌==◌}
use token_auth_proxy.PromLabel.Scope.{Label, allows}

-- A Go map read of a missing name gives the empty text.
unfoldable pub label_of : List (Text × Text) → Text → Text
label_of [] name = []
label_of ((k, v) ∷ ls) name = if k == name then v else label_of ls name

unfoldable pub visible : List (Text × Text) → List Label → Bool
visible entry ls = all (λ l. allows l (label_of entry l.name)) ls

-- The entries that decode to something that is seen. `none` is an error: an entry that does not decode.
module _ {Raw Entry : Type 0} (decode : Raw → Option Entry) (see : Entry → Bool) where
  abbrev with_entry : Bool → Raw → Option (List Raw) → Option (List Raw)
  with_entry true raw none = none
  with_entry true raw (some kept) = some (raw ∷ kept)
  with_entry false raw kept = kept

  unfoldable pub keep_decoded : List Raw → Option (List Raw)
  keep_decoded [] = some []
  keep_decoded (raw ∷ entries) = elim (decode raw) [
    | none ↦ none
    | some entry ↦ with_entry (see entry) raw (keep_decoded entries)
  ]

module _ {Raw : Type 0} (labels : Raw → Option (List (Text × Text))) (ls : List Label) where
  unfoldable pub keep_labelled : List Raw → Option (List Raw)
  unfolding keep_decoded visible
  keep_labelled entries = keep_decoded labels (λ entry. visible entry ls) entries

  -- A group is its rules and the fields that are kept as they are. The rules that are left are encoded
  -- into it, which may fail.
  module _ {Group : Type 0} (rules : Group → Option (List Raw))
      (with_rules : Group → List Raw → Option Group) where
    abbrev cons_group : Option Group → Option (List Group) → Option (List Group)
    cons_group none kept = none
    cons_group (some g) none = none
    cons_group (some g) (some kept) = some (g ∷ kept)

    abbrev with_group : List Raw → Group → Option (List Group) → Option (List Group)
    with_group [] g kept = kept
    with_group (r ∷ rs) g kept = cons_group (with_rules g (r ∷ rs)) kept

    unfoldable pub filter_groups : List Group → Option (List Group)
    unfolding keep_labelled
    filter_groups [] = some []
    filter_groups (g ∷ groups) = elim (rules g) [
      | none ↦ none
      | some rs ↦ elim (keep_labelled rs) [
        | none ↦ none
        | some kept ↦ with_group kept g (filter_groups groups)
      ]
    ]
