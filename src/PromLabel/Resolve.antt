-- ===== src/PromLabel/Resolve.antt =====
-- internal/authn/promlabel.go and the label values of internal/config/promlabel.go: what is
-- enforced on a request that the access rules allowed. A compiled pattern is a parameter of its
-- label: what regexp.FindStringSubmatch returns for a text.
pub mod Values
pub mod Sound
use token_auth_proxy.Common.{
  ℕ, Bool, true, false, not, ◌&&◌, ◌||◌, Option, none, some, List, [], ◌∷◌, any, is_empty, ltb, eqb,
  leb, if◌then◌else◌,
}
use token_auth_proxy.Text.{Text, text, ◌==◌}
use token_auth_proxy.Acl.{
  AclPrincipal, Claim, null, str, float64, bool, strings, array, object, Elems, elems, Principal,
  Request, claim_of, unclean_path, path_matches, any_principal_matches, scalar_string,
}
use token_auth_proxy.PromLabel.Scope.{Label, Endpoint, none_enforced, Scope, route}

pub record PromLabel : Type 0 where
  pub name : Text
  pub claim : Text
  pub pattern : Option (Text → Option (List Text))

pub record PromLabelRule : Type 0 where
  pub principals : List AclPrincipal
  pub labels : List PromLabel

pub record PromLabelProxy : Type 0 where
  pub exempt : List AclPrincipal
  pub rules : List PromLabelRule
  pub passthrough_paths : List Text
  -- The normalized path prefixes, longest first.
  pub prefixes : List Text

-- The order of Go strings, by bytes.
unfoldable pub text_le : Text → Text → Bool
text_le [] t = true
text_le (a ∷ s) [] = false
text_le (a ∷ s) (b ∷ t) = ltb a b || (eqb a b && text_le s t)

-- slices.Sort
unfoldable pub insert : Text → List Text → List Text
unfolding text_le
insert v [] = v ∷ []
insert v (w ∷ ws) = let later = w ∷ insert v ws in if text_le v w then v ∷ w ∷ ws else later

unfoldable pub sort : List Text → List Text
unfolding insert
sort [] = []
sort (v ∷ vs) = insert v (sort vs)

-- slices.Compact
abbrev pub without_head : Text → List Text → List Text
without_head v [] = v ∷ []
without_head v (w ∷ ws) = if v == w then w ∷ ws else v ∷ w ∷ ws

unfoldable pub compact : List Text → List Text
compact [] = []
compact (v ∷ vs) = without_head v (compact vs)

-- m[len(m)-1]
abbrev last_or : Text → List Text → Text
last_or d [] = d
last_or d (m ∷ ms) = last_or m ms

-- One value of the claim: what the label is set to by it, if anything.
abbrev nonempty : Text → Option Text
nonempty [] = none
nonempty (c ∷ s) = some (c ∷ s)

unfoldable pub label_value : Option (Text → Option (List Text)) → Text → Option Text
label_value none v = nonempty v
label_value (some find) v = elim (find v) [ none ↦ none | some m ↦ nonempty (last_or [] m) ]

abbrev add : Option Text → List Text → List Text
add none out = out
add (some v) out = v ∷ out

unfoldable pub mapped_values : PromLabel → List Text → List Text
mapped_values l [] = []
mapped_values l (v ∷ vs) = add (label_value l.pattern v) (mapped_values l vs)

unfoldable pub label_values : PromLabel → List Text → List Text
unfolding sort compact mapped_values label_value
label_values l claim = compact (sort (mapped_values l claim))

pub data Denial : Type 0 where
  no_identity no_rule no_label_value unclean unenforced_path : Denial

pub data Verdict : Type 0 where
  -- No enforcement is configured: the request goes on with no verdict.
  unscoped : Verdict
  allow : Scope → Verdict
  deny : Denial → Verdict

abbrev pub bypass_scope : Scope
bypass_scope = record { bypass = true; labels = []; endpoint = none_enforced; prefix = [] }

module _ (format_float : ℕ → Text) where
  abbrev printed : Option Text → List Text
  printed none = []
  printed (some s) = s ∷ []

  abbrev printed_all : Elems → List Text
  printed_all Elems.nil = []
  printed_all (Elems.cons c cs) = add (scalar_string format_float c) (printed_all cs)

  unfoldable pub claim_strings : Claim → List Text
  unfolding scalar_string
  claim_strings null = []
  claim_strings (strings l) = l
  claim_strings (array es) = printed_all es
  claim_strings c = printed (scalar_string format_float c)

  -- The first rule whose principals match.
  unfoldable pub find_rule : List PromLabelRule → Principal → Option PromLabelRule
  find_rule [] p = none
  find_rule (rule ∷ rules) p =
      let later = find_rule rules p in
      if any_principal_matches format_float rule.principals p then some rule else later

  -- The loop over the rule's labels; `none` where one of them has no value.
  abbrev labelled : PromLabel → List Text → Option (List Label) → Option (List Label)
  labelled l [] rest = none
  labelled l (v ∷ vs) none = none
  labelled l (v ∷ vs) (some ls) = some (record { name = l.name; values = v ∷ vs } ∷ ls)

  unfoldable pub resolve_labels : Principal → List PromLabel → Option (List Label)
  resolve_labels p [] = some []
  resolve_labels p (l ∷ ls) =
      labelled l (label_values l (claim_strings (claim_of p.claims l.claim))) (resolve_labels p ls)

  abbrev routed : List Label → Option (Endpoint × Text) → Verdict
  routed ls none = deny unenforced_path
  routed ls (some (e, prefix)) =
      allow (record { bypass = false; labels = ls; endpoint = e; prefix = prefix })

  -- What is done once the labels have their values.
  unfoldable pub decide : PromLabelProxy → Request → List Label → Verdict
  decide block r ls =
      if unclean_path r
      then deny unclean
      else if not (is_empty block.passthrough_paths) && path_matches block.passthrough_paths r.path
      then allow bypass_scope
      else routed ls (route block.prefixes r.method r.path)

  abbrev enforce : PromLabelProxy → Request → Option (List Label) → Verdict
  enforce block r none = deny no_label_value
  enforce block r (some ls) = decide block r ls

  unfoldable pub resolve_prom_labels : Option PromLabelProxy → Request → Option Principal → Verdict
  unfolding decide resolve_labels find_rule
  resolve_prom_labels none r p = unscoped
  resolve_prom_labels (some block) r none = deny no_identity
  resolve_prom_labels (some block) r (some p) =
      if any_principal_matches format_float block.exempt p
      then allow bypass_scope
      else elim (find_rule block.rules p) [
        | none ↦ deny no_rule
        | some rule ↦ enforce block r (resolve_labels p rule.labels)
      ]
