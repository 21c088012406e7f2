-- ===== src/PromLabel/Serve.antt =====
-- internal/promlabel/handler.go, filter.go and silences.go: requests as ServeHTTP passes them on, and what
-- it takes from them.
pub mod Response
pub mod Dispatch
use token_auth_proxy.Common.{ℕ, Option, none, some, List, [], ◌∷◌, ◌++◌, if◌then◌else◌}
use token_auth_proxy.Text.{Text, text, ◌==◌}
use token_auth_proxy.PromLabel.Scope.{Label}
use token_auth_proxy.PromLabel.Silences.{Matcher}
use token_auth_proxy.PromLabel.Handler.{Values, values_of, Status}

-- http.Header with canonical names, of which the first counts.
abbrev pub Headers : Type 0
Headers = List (Text × Text)

abbrev pub header : Headers → Text → Text
header [] name = []
header ((k, v) ∷ hs) name = let later = header hs name in if k == name then v else later

unfoldable pub delete_header : Text → Headers → Headers
delete_header name [] = []
delete_header name ((k, v) ∷ hs) =
    let rest = delete_header name hs in if k == name then rest else (k, v) ∷ rest

abbrev pub set_header : Text → Text → Headers → Headers
set_header name value hs = (name, value) ∷ delete_header name hs

abbrev pub delete_headers : List Text → Headers → Headers
delete_headers [] hs = hs
delete_headers (name ∷ names) hs = delete_headers names (delete_header name hs)

-- The body is what can be read of it.
pub record HttpRequest : Type 0 where
  pub method : Text
  pub path : Text
  pub raw_query : Text
  pub headers : Headers
  pub content : Text

-- The whole silence, the fields that are passed on unread among it.
pub record Silence : Type 0 where
  pub id : Text
  pub matchers : List Matcher
  pub starts_at : Text
  pub ends_at : Text
  pub created_by : Text
  pub comment : Text

pub data ResponseFilter : Type 0 where
  filter_rules filter_alerts filter_silences : ResponseFilter

-- What becomes of a request: it is passed on as it is, or with a filter for the response, or answered.
pub data Handled : Type 0 where
  passed_on : HttpRequest → Handled
  passed_filtered : ResponseFilter → List Label → HttpRequest → Handled
  replied : Status → Handled

-- maxBodyBytes
abbrev pub max_body_bytes : ℕ
max_body_bytes = 10485760

abbrev pub form_content_type : Text
form_content_type = text "application/x-www-form-urlencoded"

abbrev pub filter_param : Text
filter_param = text "filter"

-- Values.Add
abbrev pub values_or_none : Option (List Text) → List Text
values_or_none none = []
values_or_none (some vs) = vs

abbrev pub add_value : Text → Text → Values → Values
add_value name value v = (name, values_or_none (values_of v name) ++ (value ∷ [])) ∷ v

unfoldable pub drop_body : HttpRequest → HttpRequest
unfolding delete_header
drop_body r = record r {
  content = [];
  headers =
      delete_headers (text "Content-Length" ∷ text "Content-Type" ∷ text "Transfer-Encoding" ∷ [])
        r.headers;
}

abbrev pub partial_response_headers : List Text
partial_response_headers =
    text "Accept-Encoding"
    ∷ text "Range"
    ∷ text "If-Range"
    ∷ text "If-Match"
    ∷ text "If-None-Match"
    ∷ text "If-Modified-Since"
    ∷ text "If-Unmodified-Since"
    ∷ []

-- filteredRaw
unfoldable pub filtered : ResponseFilter → List Label → HttpRequest → Handled
unfolding drop_body delete_header
filtered f ls r =
    let r' = drop_body r in
    passed_filtered f ls
      (record r' { headers = delete_headers partial_response_headers r'.headers })
