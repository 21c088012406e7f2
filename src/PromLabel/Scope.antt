-- ===== src/PromLabel/Scope.antt =====
-- internal/promlabel/scope.go: the verdict on a request and the endpoint that it reaches.
pub mod Routing
use token_auth_proxy.Common.{
  Bool, true, false, not, ◌&&◌, ◌||◌, Option, none, some, List, [], ◌∷◌, ◌++◌, any, all, is_empty,
  if◌then◌else◌,
}
use token_auth_proxy.Text.{Text, text, ◌==◌, cut_prefix, has_prefix, cut_suffix, contains}

pub record Label : Type 0 where
  pub name : Text
  pub values : List Text

abbrev pub allows : Label → Text → Bool
allows l value = any (λ v. v == value) l.values

pub data Endpoint : Type 0 where
  none_enforced query match rules alerts am_filter silences silence_id : Endpoint

-- authn's verdict: forward untouched, or enforce the labels on the endpoint.
pub record Scope : Type 0 where
  pub bypass : Bool
  pub labels : List Label
  pub endpoint : Endpoint
  pub prefix : Text

abbrev is_any : Text → List Text → Bool
is_any path paths = any (λ p. path == p) paths

-- /api/v1/label/<name>/values
unfoldable pub is_label_values_path : Text → Bool
is_label_values_path path = elim (cut_prefix path (text "/api/v1/label/")) [
  | none ↦ false
  | some name ↦ elim (cut_suffix name (text "/values")) [
    | none ↦ false
    | some label ↦ not (is_empty label) && not (contains label (text "/"))
  ]
]

-- The cases after the switch, which a path falls to whose method does not fit its case.
unfoldable pub other_endpoint : Text → Text → Endpoint
unfolding is_label_values_path
other_endpoint method path =
    if method == text "GET" && is_label_values_path path
    then match
    else if method == text "DELETE" && has_prefix path (text "/api/v2/silence/")
    then silence_id
    else none_enforced

unfoldable pub endpoint_for : Text → Text → Endpoint
unfolding other_endpoint
endpoint_for method path =
    let get = method == text "GET" in
    let get_or_post = get || method == text "POST" in
    if get_or_post
      && is_any path
          (text "/api/v1/query" ∷ text "/api/v1/query_range" ∷ text "/api/v1/query_exemplars" ∷ [])
    then query
    else if get_or_post && is_any path (text "/api/v1/series" ∷ text "/api/v1/labels" ∷ [])
    then match
    else if get && path == text "/federate"
    then match
    else if get && path == text "/api/v1/rules"
    then rules
    else if get && path == text "/api/v1/alerts"
    then alerts
    else if get && is_any path (text "/api/v2/alerts" ∷ text "/api/v2/alerts/groups" ∷ [])
    then am_filter
    else if get_or_post && path == text "/api/v2/silences"
    then silences
    else other_endpoint method path

abbrev pub is_enforced : Endpoint → Bool
is_enforced none_enforced = false
is_enforced _ = true

abbrev pub or_same : Option Text → Text → Text
or_same none path = path
or_same (some rest) path = rest

-- The first prefix of the list that the path lies under decides.
unfoldable pub route : List Text → Text → Text → Option (Endpoint × Text)
route [] method path = none
route (p ∷ ps) method path =
    let here = endpoint_for method (or_same (cut_prefix path p) path) in
    let later = route ps method path in
    if path == p || has_prefix path (p ++ text "/")
    then (if is_enforced here then some (here, p) else none)
    else later
