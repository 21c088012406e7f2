-- ===== src/Middleware/Picker/Tests.antt =====
-- A login route that records its method, and the theorem at a concrete input.
use token_auth_proxy.Common.{
  ◌≡◌, refl, Bool, true, Option, none, some, List, [], ◌∷◌, if◌then◌else◌,
}
use token_auth_proxy.Text.{Text, text, ◌==◌, has_prefix, cut_prefix}
use token_auth_proxy.Basic.{new_basic_registry}
use token_auth_proxy.Jwt.{Carried}
use token_auth_proxy.Login.{login_methods}
use token_auth_proxy.Login.Callback.{ReturnUrl, sanitize_return_to}
use token_auth_proxy.Middleware.{Services}
use token_auth_proxy.Middleware.Picker.{PickerCalls, no_such_route, serve_login_route}
use token_auth_proxy.Middleware.Tests.{services, basic_only, carried}

-- The value of every cookie is the first line.
abbrev line_of : List Text → Text → Option Text
line_of [] name = none
line_of (line ∷ lines) name = some line

abbrev with_lines : Services Bool
with_lines = record services { tokens = record services.tokens { read_cookie = line_of } }

abbrev encode_query : List (Text × Text) → Text
encode_query q = []

abbrev parse_url : Text → Option ReturnUrl
parse_url raw = some (record { scheme = []; host = []; path = raw; request_uri = raw })

abbrev query : Text → Text
query name = if name == text "return_to" then text "/x" else []

abbrev calls : PickerCalls
calls = record {
  query = query;
  encode_query = encode_query;
  parse_url = parse_url;
  parse_request_uri = λ t. some t;
  endpoints = λ src. true;
  encode_state = λ st. st.return_to;
  random = some (text "state", text "nonce");
  verifier = text "verifier";
}

abbrev picked : Carried
picked = record carried { cookie_lines = text "basic" ∷ [] }

not_configured :
    (serve_login_route with_lines calls basic_only
      (text "GET")
      (text "/_tap/login/saml")
      carried
      new_basic_registry).0
    ≡ (no_such_route, none)
unfolding serve_login_route login_methods sanitize_return_to has_prefix cut_prefix ◌==◌
not_configured = refl
