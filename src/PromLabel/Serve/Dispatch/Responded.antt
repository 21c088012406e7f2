-- ===== src/PromLabel/Serve/Dispatch/Responded.antt =====
-- internal/promlabel/handler.go and filter.go: the requests whose response is filtered, and what the
-- caller has of the response.
use token_auth_proxy.Common.{◌≡◌, Bool, true, false, Option, none, some, List, [], All}
use token_auth_proxy.Text.{Text}
use token_auth_proxy.PromLabel.Scope.{Label, Endpoint, rules, alerts, silences, Scope}
use token_auth_proxy.PromLabel.Serve.{
  header, HttpRequest, ResponseFilter, filter_rules, filter_alerts, filter_silences, Handled,
  passed_filtered, partial_response_headers,
}

-- The endpoints that are filtered.
abbrev pub filter_of : Endpoint → Option ResponseFilter
filter_of rules = some filter_rules
filter_of alerts = some filter_alerts
filter_of silences = some filter_silences
filter_of _ = none

-- The request is passed on without a body and without the headers that ask for another response
-- than a full and plain one, and with the filter and the labels of its verdict.
pub record Asked (scope : Scope) (e : Endpoint) (f : ResponseFilter) (ls : List Label)
    (r' : HttpRequest) : Type 0 where
  pub endpoint : filter_of e ≡ some f
  pub labels : ls ≡ scope.labels
  pub no_body : r'.content ≡ []
  pub full : All (λ name. header r'.headers name ≡ []) partial_response_headers

abbrev is_filtered : Handled → Bool
is_filtered (passed_filtered f ls r) = true
is_filtered _ = false
