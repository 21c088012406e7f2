-- ===== src/PromLabel/Validate.antt =====
-- internal/config/promlabel.go: the checks on outbound.prom_label_proxy, and the path prefixes that
-- requests are routed by. The compilation of a pattern is a parameter.

pub mod Longest
mod Tests
use token_auth_proxy.Common.{
  ℕ, suc, Bool, true, false, not, ◌&&◌, ◌||◌, Option, none, some, List, [], ◌∷◌, is_empty, leb, ltb,
  length, if◌then◌else◌, ◌before◌, fail_if, check_from,
}
use token_auth_proxy.Text.{Text, text, ◌==◌, contains, trim_suffix}
use token_auth_proxy.Config.{InboundAuth, auth_enabled}
use token_auth_proxy.Config.Validate.{has}
use token_auth_proxy.Acl.{AclPrincipal}
use token_auth_proxy.Acl.Validate.{AclError, validate_acl_path, validate_acl_principal}
use token_auth_proxy.PromLabel.Resolve.{
  PromLabel, PromLabelRule, PromLabelProxy, without_head, compact,
}

-- The block as it is read from the file.
pub record LabelFields : Type 0 where
  pub name : Text
  pub claim : Text
  pub pattern : Text

pub record RuleFields : Type 0 where
  pub principals : List AclPrincipal
  pub labels : List LabelFields

pub record ProxyFields : Type 0 where
  pub path_prefixes : List Text
  pub exempt : List AclPrincipal
  pub rules : List RuleFields
  pub passthrough_paths : List Text

pub data LabelError : Type 0 where
  in_acl : AclError → LabelError
  in_exempt in_rule in_passthrough in_prefix in_principal in_label : ℕ → LabelError → LabelError
  needs_auth no_rules prefix_wildcard no_principals no_labels basic_principal : LabelError
  bad_name claim_required bad_pattern several_groups label_twice : LabelError

-- A compiled pattern: its capture groups, and what FindStringSubmatch returns once it is anchored.
pub record Compiled : Type 0 where
  pub groups : ℕ
  pub find_submatch : Text → Option (List Text)

pub data LabelCheck (A : Type 0) : Type 0 where
  valid : A → LabelCheck A
  invalid : LabelError → LabelCheck A

abbrev wrap_acl : Option AclError → Option LabelError
wrap_acl none = none
wrap_acl (some e) = some (in_acl e)

abbrev pub prefix_ok : Text → Option LabelError
prefix_ok prefix =
    fail_if (contains prefix (text "*")) prefix_wildcard before wrap_acl (validate_acl_path prefix)

-- slices.SortFunc by falling length; among up to twelve prefixes it keeps the order of equal ones.
unfoldable pub insert_prefix : Text → List Text → List Text
insert_prefix p [] = p ∷ []
insert_prefix p (q ∷ qs) =
    let later = q ∷ insert_prefix p qs in if leb (length q) (length p) then p ∷ q ∷ qs else later

unfoldable pub by_length : List Text → List Text
unfolding insert_prefix
by_length [] = []
by_length (p ∷ ps) = insert_prefix p (by_length ps)

abbrev pub trimmed : List Text → List Text
trimmed [] = []
trimmed (p ∷ ps) = trim_suffix p (text "/") ∷ trimmed ps

abbrev prefixes_of : List Text → Option LabelError → LabelCheck (List Text)
prefixes_of raw (some e) = invalid e
prefixes_of raw none = valid (compact (by_length (trimmed raw)))

unfoldable pub normalize_prefixes : List Text → LabelCheck (List Text)
unfolding by_length
normalize_prefixes [] = valid ([] ∷ [])
normalize_prefixes (p ∷ ps) = prefixes_of (p ∷ ps) (check_from in_prefix prefix_ok 0 (p ∷ ps))

abbrev is_bare : AclPrincipal → Bool
is_bare p =
    (p.mode == text "jwt" || p.mode == text "saml")
    && (is_empty p.source && (is_empty p.username && is_empty p.claims))

unfoldable pub validate_label_principal : InboundAuth → AclPrincipal → Option LabelError
validate_label_principal auth p =
    fail_if (p.mode == text "basic") basic_principal
    before (if is_bare p then none else wrap_acl (validate_acl_principal auth p))

-- Whether a label name is valid, and the compilation of a pattern, are parameters.
module _ (is_label_name : Text → Bool) (compile : Text → Option Compiled) where
  abbrev with_pattern : LabelFields → Option Compiled → LabelCheck PromLabel
  with_pattern l none = invalid bad_pattern
  with_pattern l (some re) =
      if ltb 1 re.groups
      then invalid several_groups
      else valid (record { name = l.name; claim = l.claim; pattern = some re.find_submatch })

  unfoldable pub validate_label : LabelFields → LabelCheck PromLabel
  validate_label l =
      if not (is_label_name l.name)
      then invalid bad_name
      else if is_empty l.claim
      then invalid claim_required
      else if is_empty l.pattern
      then valid (record { name = l.name; claim = l.claim; pattern = none })
      else with_pattern l (compile l.pattern)

  abbrev cons_label :
      Bool → ℕ → LabelCheck PromLabel → LabelCheck (List PromLabel) → LabelCheck (List PromLabel)
  cons_label twice i (invalid e) rest = invalid (in_label i e)
  cons_label true i (valid l) rest = invalid (in_label i label_twice)
  cons_label false i (valid l) (valid ls) = valid (l ∷ ls)
  cons_label false i (valid l) (invalid e) = invalid e

  unfoldable pub validate_labels : ℕ → List Text → List LabelFields → LabelCheck (List PromLabel)
  unfolding validate_label
  validate_labels i seen [] = valid []
  validate_labels i seen (l ∷ ls) =
      cons_label (has seen l.name) i (validate_label l) (validate_labels (suc i) (l.name ∷ seen) ls)

  abbrev rule_of :
      RuleFields → Option LabelError → LabelCheck (List PromLabel) → LabelCheck PromLabelRule
  rule_of r (some e) labels = invalid e
  rule_of r none (invalid e) = invalid e
  rule_of r none (valid ls) = valid (record { principals = r.principals; labels = ls })

  unfoldable pub validate_rule : InboundAuth → RuleFields → LabelCheck PromLabelRule
  unfolding validate_labels validate_label_principal
  validate_rule auth r =
      rule_of r
        (fail_if (is_empty r.principals) no_principals
          before check_from in_principal (validate_label_principal auth) 0 r.principals
          before fail_if (is_empty r.labels) no_labels)
        (validate_labels 0 [] r.labels)

  abbrev cons_rule :
      ℕ
      → LabelCheck PromLabelRule
      → LabelCheck (List PromLabelRule)
      → LabelCheck (List PromLabelRule)
  cons_rule i (invalid e) rest = invalid (in_rule i e)
  cons_rule i (valid r) (valid rs) = valid (r ∷ rs)
  cons_rule i (valid r) (invalid e) = invalid e

  unfoldable pub validate_rules :
      InboundAuth → ℕ → List RuleFields → LabelCheck (List PromLabelRule)
  unfolding validate_rule
  validate_rules auth i [] = valid []
  validate_rules auth i (r ∷ rs) =
      cons_rule i (validate_rule auth r) (validate_rules auth (suc i) rs)

  abbrev with_prefixes :
      ProxyFields
      → List PromLabelRule
      → Option LabelError
      → LabelCheck (List Text)
      → LabelCheck PromLabelProxy
  with_prefixes p rules (some e) prefixes = invalid e
  with_prefixes p rules none (invalid e) = invalid e
  with_prefixes p rules none (valid prefixes) = valid (record {
    exempt = p.exempt;
    rules = rules;
    passthrough_paths = p.passthrough_paths;
    prefixes = prefixes;
  })

  abbrev path_in_acl : Text → Option LabelError
  path_in_acl path = wrap_acl (validate_acl_path path)

  abbrev with_checked_rules :
      ProxyFields → Option LabelError → LabelCheck (List PromLabelRule) → LabelCheck PromLabelProxy
  with_checked_rules p (some e) rules = invalid e
  with_checked_rules p none (invalid e) = invalid e
  with_checked_rules p none (valid rules) =
      with_prefixes p rules (check_from in_passthrough path_in_acl 0 p.passthrough_paths)
        (normalize_prefixes p.path_prefixes)

  unfoldable pub validate_prom_labels : InboundAuth → ProxyFields → LabelCheck PromLabelProxy
  unfolding validate_rules normalize_prefixes
  validate_prom_labels auth p =
      with_checked_rules p
        (fail_if (not (auth_enabled auth)) needs_auth
          before fail_if (is_empty p.rules) no_rules
          before check_from in_exempt (λ q. wrap_acl (validate_acl_principal auth q)) 0 p.exempt)
        (validate_rules auth 0 p.rules)
