-- ===== src/PromLabel/Serve/Dispatch/Tests.antt =====
-- ServeHTTP and ModifyResponse with a concrete encoding, and the theorems at concrete inputs.
use token_auth_proxy.Common.{◌≡◌, refl, ◌⊎◌, true, false, Option, none, some, List, [], ◌∷◌}
use token_auth_proxy.Text.{Text, text, ◌==◌, join}
use token_auth_proxy.PromLabel.Scope.{Endpoint, query, rules, Scope}
use token_auth_proxy.PromLabel.Handler.{
  query_param, rewrite, enforce_query, enforce_match, values_of, forbidden,
}
use token_auth_proxy.PromLabel.Serve.{
  HttpRequest, filter_rules, passed_on, replied, drop_body, delete_header,
}
use token_auth_proxy.PromLabel.Serve.Response.{
  TargetResponse, modify_response, read_response, filter_body, api_filter, filter_data,
}
use token_auth_proxy.PromLabel.Filter.{
  filter_groups, keep_labelled, keep_decoded, visible, label_of,
}
use token_auth_proxy.PromLabel.Serve.Response.Through.{entries_of}
use token_auth_proxy.PromLabel.Serve.Dispatch.{
  serve_http, rewrite_request, matchers_of, selector_of, read_form, set_body,
}
use token_auth_proxy.PromLabel.Serve.Dispatch.Confined.{Confined, Same}
use token_auth_proxy.PromLabel.Serve.Dispatch.Passed.{serve_http-Confined}
use token_auth_proxy.PromLabel.Serve.Dispatch.Encoding.{
  write_list, write_objects, write_values, write_object, codec, libs, libs-ReadsBack,
}

abbrev scope_at : Endpoint → Scope
scope_at e = record {
  bypass = false;
  labels = record { name = text "team"; values = text "a" ∷ [] } ∷ [];
  endpoint = e;
  prefix = [];
}

abbrev asks : Text → Text → HttpRequest
asks path raw_query = record {
  method = text "GET";
  path = path;
  raw_query = raw_query;
  headers = [];
  content = [];
}

abbrev asks_up : HttpRequest
asks_up = asks (text "/api/v1/query") (write_values ((query_param, text "up" ∷ []) ∷ []))

abbrev sends_up : HttpRequest
sends_up =
    asks (text "/api/v1/query")
      (write_values ((query_param, text "up{team=a}" ∷ []) ∷ (query_param, text "up" ∷ []) ∷ []))

query_enforced : serve_http libs true (some (scope_at query)) asks_up ≡ passed_on sends_up
unfolding serve_http rewrite_request matchers_of selector_of rewrite enforce_query enforce_match
    values_of read_form set_body drop_body delete_header join ◌==◌
query_enforced = refl

no_verdict : serve_http libs true none asks_up ≡ replied forbidden
unfolding serve_http
no_verdict = refl

serve_http-Confined_example :
    ((some (scope_at query) ≡ none) × (true ≡ false) × (sends_up ≡ asks_up))
    ⊎ ((scope : Scope) × (some (scope_at query) ≡ some scope)
        × (((scope.bypass ≡ true) × (sends_up ≡ asks_up))
            ⊎ ((scope.bypass ≡ false)
                × Confined libs scope scope.endpoint asks_up sends_up
                × Same libs asks_up sends_up)))
serve_http-Confined_example =
    serve_http-Confined libs libs-ReadsBack true (some (scope_at query)) asks_up sends_up
      query_enforced

-- A group with a rule of the caller and another one.
abbrev team_rule : Text → Text
team_rule team = write_object ((text "team", team) ∷ [])

abbrev body_with : List Text → Text
body_with rs = write_object (
    (
      text "data",
      write_object
          ((text "groups", write_objects (((text "rules", write_list rs) ∷ []) ∷ [])) ∷ []),
    )
    ∷ (text "status", text "success")
    ∷ [])

abbrev two_rules : TargetResponse
two_rules = record {
  status = 200;
  headers = [];
  content = body_with (team_rule (text "a") ∷ team_rule (text "b") ∷ []);
}

-- The rule of the other team is left out of the response.
abbrev content_of : Option TargetResponse → Option (List Text)
content_of none = none
content_of (some resp) = entries_of codec filter_rules resp.content

one_rule_left :
    content_of (modify_response codec (some (filter_rules, (scope_at rules).labels)) two_rules)
    ≡ some (team_rule (text "a") ∷ [])
unfolding modify_response read_response filter_body api_filter filter_data filter_groups
    keep_labelled keep_decoded visible label_of delete_header ◌==◌
one_rule_left = refl

partial_content :
    modify_response codec
      (some (filter_rules, (scope_at rules).labels))
      (record two_rules { status = 206 })
    ≡ none
unfolding modify_response
partial_content = refl
