-- ===== src/PromLabel/Tests.antt =====
-- Label enforcement on concrete requests, and the theorems at concrete inputs.
use token_auth_proxy.Common.{
  ℕ, ◌≡◌, ◌≢◌, refl, ◌⊎◌, true, false, Option, none, some, List, [], ◌∷◌, ◌++◌,
}
use token_auth_proxy.Text.{
  Text, text, ◌==◌, cut_prefix, has_prefix, cut_suffix, has_suffix, trim_suffix, contains, to_lower,
  join,
}
use token_auth_proxy.Text.Path.{clean, split_slash, resolve, resolve_all}
use token_auth_proxy.Acl.{
  Principal, Request, AclPrincipal, jwt_principal, array, str, Elems, claim_of,
  any_principal_matches, principal_matches, unclean_path, is_clean_path, scalar_string,
}
use token_auth_proxy.PromLabel.Scope.{
  Label, query, Scope, route, endpoint_for, other_endpoint, is_label_values_path,
}
use token_auth_proxy.PromLabel.Silences.{Matcher, owns, scope_matchers, scoped, pin, pin_all, free}
use token_auth_proxy.PromLabel.Silences.Owned.{Pins, scope_matchers-owned}
use token_auth_proxy.PromLabel.Filter.{label_of, visible, filter_groups, keep_labelled}
use token_auth_proxy.PromLabel.Resolve.{
  PromLabelProxy, resolve_prom_labels, allow, bypass_scope, decide, resolve_labels, find_rule,
  claim_strings, label_values, mapped_values, label_value, sort, insert, compact, text_le,
}
use token_auth_proxy.PromLabel.Resolve.Sound.{Enforced, resolve_prom_labels-allow}

abbrev team : Label
team = record { name = text "team"; values = text "a" ∷ text "b" ∷ [] }

abbrev prefixes : List Text
prefixes = text "/prom/eu" ∷ text "/prom" ∷ []

route_query : route prefixes (text "GET") (text "/prom/api/v1/query") ≡ some (query, text "/prom")
unfolding route ◌==◌ cut_prefix has_prefix endpoint_for other_endpoint is_label_values_path
route_query = refl

abbrev equal_matcher : Text → Text → Matcher
equal_matcher name value = record { name = name; value = value; is_regex = false; is_equal = none }

abbrev given : List Matcher
given = equal_matcher (text "job") (text "x") ∷ equal_matcher (text "team") (text "b") ∷ []

-- A matcher on an enforced label is moved behind the others.
scoped_given : scope_matchers (team ∷ []) given ≡ scoped given
unfolding scope_matchers pin_all pin ◌==◌
scoped_given = refl

scope_matchers-owned_example :
    (added : List Matcher) × (given ≡ free (team ∷ []) given ++ added)
    × Pins (team ∷ []) added
    × (free (team ∷ []) given ≢ [])
    × (owns (team ∷ []) given ≡ true)
scope_matchers-owned_example = scope_matchers-owned (team ∷ []) given given scoped_given

abbrev entry : List (Text × Text)
entry = (text "job", text "x") ∷ (text "team", text "b") ∷ []

-- A group as the list of its rules, and a rule as its labels.
abbrev Rule : Type 0
Rule = List (Text × Text)

abbrev rule_labels : Rule → Option (List (Text × Text))
rule_labels r = some r

abbrev group_rules : List Rule → Option (List Rule)
group_rules g = some g

abbrev with_rules : List Rule → List Rule → Option (List Rule)
with_rules g rs = some rs

abbrev other : Rule
other = (text "team", text "c") ∷ []

abbrev groups : List (List Rule)
groups = (other ∷ entry ∷ []) ∷ (other ∷ []) ∷ []

filtered :
    filter_groups rule_labels (team ∷ []) group_rules with_rules groups ≡ some ((entry ∷ []) ∷ [])
unfolding filter_groups keep_labelled visible label_of ◌==◌
filtered = refl

abbrev no_floats : ℕ → Text
no_floats f = []

abbrev any_jwt : AclPrincipal
any_jwt = record { mode = text "jwt"; source = []; username = []; claims = [] }

abbrev block : PromLabelProxy
block = record {
  exempt = [];
  rules =
      record {
        principals = any_jwt ∷ [];
        labels = record { name = text "team"; claim = text "groups"; pattern = none } ∷ [];
      }
      ∷ [];
  passthrough_paths = [];
  prefixes = prefixes;
}

-- The values come out sorted and once each.
abbrev caller : Principal
caller = jwt_principal (text "idp") (
    (
      text "groups",
      array (
          Elems.cons (str (text "b"))
            (Elems.cons (str (text "a")) (Elems.cons (str (text "b")) Elems.nil))),
    )
    ∷ [])

abbrev query_request : Request
query_request = record { method = text "GET"; path = text "/prom/api/v1/query"; raw_path = [] }

abbrev scope : Scope
scope = record { bypass = false; labels = team ∷ []; endpoint = query; prefix = text "/prom" }

enforced_query :
    resolve_prom_labels no_floats (some block) query_request (some caller) ≡ allow scope
unfolding resolve_prom_labels decide resolve_labels find_rule claim_strings label_values
    mapped_values label_value sort insert compact text_le any_principal_matches principal_matches
    unclean_path is_clean_path clean split_slash resolve resolve_all has_suffix cut_suffix
    trim_suffix contains has_prefix cut_prefix to_lower ◌==◌ claim_of scalar_string route
    endpoint_for other_endpoint is_label_values_path join
enforced_query = refl

resolve_prom_labels-allow_example :
    (q : Principal) × (some caller ≡ some q)
    × (((any_principal_matches no_floats block.exempt q ≡ true) × (scope ≡ bypass_scope))
        ⊎ Enforced no_floats block query_request q scope)
resolve_prom_labels-allow_example =
    resolve_prom_labels-allow no_floats block query_request (some caller) scope enforced_query
