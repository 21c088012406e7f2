-- ===== src/PromLabel/Handler/Tests.antt =====
-- The handler of label enforcement on concrete requests, and the theorems at concrete inputs.
use token_auth_proxy.Common.{◌≡◌, refl, Bool, true, false, none, List, [], ◌∷◌, ◌++◌, if◌then◌else◌}
use token_auth_proxy.Text.{Text, text, ◌==◌}
use token_auth_proxy.PromLabel.Scope.{Label}
use token_auth_proxy.PromLabel.Silences.{Matcher, owns, scope_matchers, pin, pin_all}
use token_auth_proxy.PromLabel.Handler.{
  Values, values_of, set_values, query_param, match_param, Rewritten, rewritten, not_rewritten,
  query_parse, enforce_query, enforce_match, enforce_selectors, of_query, of_match, Rewrite,
  forwarded, answered, bad_request, enforce_status, rewrite, Looked, found, missing, unreadable,
  let_through, deleted, stopped, check_owner, post_silence, delete_silence,
}

-- An enforcer that writes the label behind a query, and refuses an empty one.
abbrev write_team : Text → Rewritten
write_team [] = not_rewritten query_parse
write_team (c ∷ q) = rewritten (c ∷ q ++ text "{team=a}")

abbrev selector : Text
selector = text "{team=a}"

abbrev with_query : Values
with_query = (query_param, text "up" ∷ []) ∷ []

abbrev enforced_query : Values
enforced_query = (query_param, text "up{team=a}" ∷ []) ∷ with_query

in_body : rewrite write_team selector of_query [] with_query ≡ forwarded [] enforced_query
unfolding rewrite enforce_query enforce_match values_of ◌==◌
in_body = refl

no_query : rewrite write_team selector of_query [] [] ≡ answered bad_request
unfolding rewrite enforce_query enforce_match values_of
no_query = refl

no_selector :
    rewrite write_team selector of_match [] [] ≡ forwarded ((match_param, selector ∷ []) ∷ []) []
unfolding rewrite enforce_query enforce_match values_of
no_selector = refl

two_queries :
    rewrite write_team selector of_query ((query_param, text "up" ∷ text "up" ∷ []) ∷ []) []
    ≡ answered bad_request
unfolding rewrite enforce_query enforce_match values_of ◌==◌ enforce_status
two_queries = refl

abbrev equal : Text → Text → Matcher
equal name value = record { name = name; value = value; is_regex = false; is_equal = none }

abbrev team : Label
team = record { name = text "team"; values = text "a" ∷ [] }

abbrev of_team : List Matcher
of_team = equal (text "alertname") (text "down") ∷ equal (text "team") (text "a") ∷ []

abbrev any_id : Text → Bool
any_id id = true

-- The target has one silence, x.
abbrev look_up : Text → Looked
look_up id = if id == text "x" then found of_team else missing

updated :
    post_silence any_id look_up (team ∷ []) (text "x") (equal (text "alertname") (text "late") ∷ [])
    ≡ let_through (equal (text "alertname") (text "late") ∷ equal (text "team") (text "a") ∷ [])
unfolding post_silence check_owner owns scope_matchers pin pin_all ◌==◌
updated = refl

removed : delete_silence any_id look_up (team ∷ []) (text "x") ≡ deleted
unfolding delete_silence check_owner owns ◌==◌
removed = refl

unknown :
    delete_silence any_id look_up (team ∷ []) (text "y")
    ≡ stopped token_auth_proxy.PromLabel.Handler.forbidden
unfolding delete_silence check_owner ◌==◌
unknown = refl
