-- ===== src/PromLabel/Serve/Dispatch.antt =====
-- internal/promlabel/handler.go and silences.go: what ServeHTTP makes of a request, up to the forwarder
-- that it is passed on to. Forms, media types, JSON, the library of matchers with its PromQL enforcer and
-- the transport are parameters.
pub mod Confined
pub mod Queries
pub mod Silenced
pub mod Passed
pub mod Responded
mod Encoding
mod Tests
use token_auth_proxy.Common.{
  ℕ, Bool, true, false, not, ◌&&◌, ◌||◌, Option, none, some, List, [], ◌∷◌, ◌++◌, map, is_empty,
  any, all, keep, eqb, ltb, length, if◌then◌else◌,
}
use token_auth_proxy.Text.{Text, text, ◌==◌, join, cut_prefix}
use token_auth_proxy.PromLabel.Scope.{
  Label, Endpoint, none_enforced, query, match, rules, alerts, am_filter, silences, silence_id,
  Scope, or_same,
}
use token_auth_proxy.PromLabel.Silences.{Matcher, owns, scope_matchers}
use token_auth_proxy.PromLabel.Handler.{
  Values, values_of, Rewritten, Kind, of_query, of_match, Rewrite, forwarded, answered, rewrite,
  Status, bad_request, forbidden, internal_error, too_large, unsupported_media, Looked, found,
  missing, unreadable, SilenceAnswer, let_through, deleted, stopped, check_owner, post_silence,
  delete_silence, enforce_query, enforce_match,
}
use token_auth_proxy.PromLabel.Serve.{
  Headers, header, delete_header, set_header, delete_headers, HttpRequest, Silence, filter_rules,
  filter_alerts, filter_silences, Handled, passed_on, passed_filtered, replied, max_body_bytes,
  form_content_type, filter_param, add_value, drop_body, filtered,
}
use token_auth_proxy.PromLabel.Serve.Response.{TargetResponse, PlainBody, JsonCodec, read_response}

pub record Libraries (M : Type 0) : Type 0 where
  pub codec : JsonCodec
  pub parse_query : Text → Option Values
  pub encode : Values → Text
  -- The media type of mime.ParseMediaType.
  pub parse_media_type : Text → Option Text
  pub quote_meta : Text → Text
  -- labels.NewMatcher for `=` and for `=~`, and Matcher.String.
  pub equal_matcher : Text → Text → Option M
  pub regexp_matcher : Text → Text → Option M
  pub string_of : M → Text
  -- The enforcer with some matchers, on a query.
  pub enforce_all : List M → Text → Rewritten
  pub is_silence_id : Text → Bool
  -- The transport, for a GET at the prefix and ID with some headers; `none` is an error.
  pub fetch : Text → Text → Headers → Option TargetResponse

pub data Form : Type 0 where
  form : Values → Form
  no_form : Status → Form

module _ {M : Type 0} (libs : Libraries M) where
  -- Label.matcher: several values are escaped, and stand as alternatives.
  abbrev pub matcher_of : Text → List Text → Option M
  matcher_of name (v ∷ []) = libs.equal_matcher name v
  matcher_of name vs = libs.regexp_matcher name (join (text "|") (map libs.quote_meta vs))

  abbrev cons_matcher : Option M → Option (List M) → Option (List M)
  cons_matcher none rest = none
  cons_matcher (some m) none = none
  cons_matcher (some m) (some ms) = some (m ∷ ms)

  -- Scope.matchers
  unfoldable pub matchers_of : List Label → Option (List M)
  unfolding join
  matchers_of [] = some []
  matchers_of (l ∷ ls) = cons_matcher (matcher_of l.name l.values) (matchers_of ls)

  -- matchersSelector
  unfoldable pub selector_of : List M → Text
  unfolding join
  selector_of ms = text "{" ++ (join (text ",") (map libs.string_of ms) ++ text "}")

  unfoldable pub set_body : HttpRequest → Text → Text → HttpRequest
  unfolding drop_body
  set_body r body content_type = if is_empty body then drop_body r else record r {
    content = body;
    headers =
        set_header (text "Content-Type") content_type
          (set_header (text "Content-Length") (libs.codec.show_length (length body)) r.headers);
  }

  abbrev is_form : Option Text → Bool
  is_form none = false
  is_form (some media) = media == form_content_type

  abbrev wrong_type : Text → Bool
  wrong_type content_type =
      not (is_empty content_type) && not (is_form (libs.parse_media_type content_type))

  abbrev form_or : Option Values → Form
  form_or none = no_form bad_request
  form_or (some v) = form v

  unfoldable pub read_form : HttpRequest → Form
  read_form r =
      if not (r.method == text "POST")
      then form []
      else if wrong_type (header r.headers (text "Content-Type"))
      then no_form unsupported_media
      else if ltb max_body_bytes (length r.content)
      then no_form too_large
      else form_or (libs.parse_query r.content)

  -- rewrite, after the matchers.
  abbrev forward : HttpRequest → Rewrite → Handled
  forward r (answered status) = replied status
  forward r (forwarded v body) =
      passed_on
        (set_body (record r { raw_query = libs.encode v }) (libs.encode body) form_content_type)

  abbrev with_form : List M → Kind → HttpRequest → Values → Form → Handled
  with_form ms kind r v (no_form status) = replied status
  with_form ms kind r v (form body) =
      forward r (rewrite (libs.enforce_all ms) (selector_of ms) kind v body)

  abbrev with_query : List M → Kind → HttpRequest → Option Values → Handled
  with_query ms kind r none = replied bad_request
  with_query ms kind r (some v) = with_form ms kind r v (read_form r)

  abbrev with_matchers : Kind → HttpRequest → Option (List M) → Handled
  with_matchers kind r none = replied internal_error
  with_matchers kind r (some ms) = with_query ms kind r (libs.parse_query r.raw_query)

  unfoldable pub rewrite_request : Scope → Kind → HttpRequest → Handled
  unfolding matchers_of read_form rewrite set_body selector_of
  rewrite_request scope kind r = with_matchers kind r (matchers_of scope.labels)

  unfoldable pub add_filters : List M → Values → Values
  unfolding values_of
  add_filters [] v = v
  add_filters (m ∷ ms) v = add_filters ms (add_value filter_param (libs.string_of m) v)

  abbrev filter_query : List M → HttpRequest → Option Values → Handled
  filter_query ms r none = replied bad_request
  filter_query ms r (some v) =
      passed_on (drop_body (record r { raw_query = libs.encode (add_filters ms v) }))

  abbrev filter_with : HttpRequest → Option (List M) → Handled
  filter_with r none = replied internal_error
  filter_with r (some ms) = filter_query ms r (libs.parse_query r.raw_query)

  unfoldable pub serve_am_filter : Scope → HttpRequest → Handled
  unfolding matchers_of add_filters drop_body
  serve_am_filter scope r = filter_with r (matchers_of scope.labels)

  -- checkOwner: what the response to the lookup comes to.
  abbrev silence_in : Option Silence → Looked
  silence_in none = unreadable
  silence_in (some s) = found s.matchers

  abbrev decoded_in : Option PlainBody → Looked
  decoded_in none = unreadable
  decoded_in (some plain) = silence_in (libs.codec.decode_silence plain.body)

  unfoldable pub looked : Option TargetResponse → Looked
  unfolding read_response
  looked none = unreadable
  looked (some resp) =
      if eqb resp.status 200
      then decoded_in (read_response libs.codec resp)
      else if eqb resp.status 404
      then missing
      else unreadable

  unfoldable pub look_up : Scope → HttpRequest → Text → Looked
  unfolding looked delete_header
  look_up scope r id = looked (
      libs.fetch scope.prefix id (
        delete_headers (text "Content-Length" ∷ text "Content-Type" ∷ text "Accept-Encoding" ∷ [])
          r.headers))

  abbrev send_encoded : HttpRequest → Option Text → Handled
  send_encoded r none = replied internal_error
  send_encoded r (some body) =
      passed_on (set_body (record r { raw_query = [] }) body (text "application/json"))

  -- post_silence answers `deleted` for no silence, and delete_silence lets none through.
  abbrev send_silence : HttpRequest → Silence → SilenceAnswer → Handled
  send_silence r s (stopped status) = replied status
  send_silence r s deleted = replied forbidden
  send_silence r s (let_through ms) =
      send_encoded r (libs.codec.encode_silence (record s { matchers = ms }))

  abbrev post_decoded : Scope → HttpRequest → Option Silence → Handled
  post_decoded scope r none = replied bad_request
  post_decoded scope r (some s) =
      send_silence r s
        (post_silence libs.is_silence_id (look_up scope r) scope.labels s.id s.matchers)

  unfoldable pub serve_post : Scope → HttpRequest → Handled
  unfolding post_silence look_up set_body
  serve_post scope r =
      if ltb max_body_bytes (length r.content)
      then replied too_large
      else post_decoded scope r (libs.codec.decode_silence r.content)

  -- strings.TrimPrefix
  abbrev pub silence_id_of : Scope → HttpRequest → Text
  silence_id_of scope r =
      let below = or_same (cut_prefix r.path scope.prefix) r.path in
      or_same (cut_prefix below (text "/api/v2/silence/")) below

  abbrev send_delete : HttpRequest → SilenceAnswer → Handled
  send_delete r (stopped status) = replied status
  send_delete r (let_through ms) = replied forbidden
  send_delete r deleted = passed_on (drop_body (record r { raw_query = [] }))

  unfoldable pub serve_delete : Scope → HttpRequest → Handled
  unfolding delete_silence look_up drop_body cut_prefix
  serve_delete scope r =
      send_delete r
        (delete_silence libs.is_silence_id (look_up scope r) scope.labels (silence_id_of scope r))

  abbrev at_endpoint : Endpoint → Scope → HttpRequest → Handled
  at_endpoint query scope r = rewrite_request scope of_query r
  at_endpoint match scope r = rewrite_request scope of_match r
  at_endpoint rules scope r = filtered filter_rules scope.labels r
  at_endpoint alerts scope r = filtered filter_alerts scope.labels r
  at_endpoint am_filter scope r = serve_am_filter scope r
  at_endpoint silences scope r =
      if r.method == text "POST"
      then serve_post scope r
      else filtered filter_silences scope.labels r
  at_endpoint silence_id scope r = serve_delete scope r
  at_endpoint none_enforced scope r = replied forbidden

  -- Whether enforcement is configured, and the verdict that the request carries.
  unfoldable pub serve_http : Bool → Option Scope → HttpRequest → Handled
  unfolding rewrite_request filtered serve_am_filter serve_post serve_delete
  serve_http configured none r = if configured then replied forbidden else passed_on r
  serve_http configured (some scope) r =
      if scope.bypass then passed_on r else at_endpoint scope.endpoint scope r
