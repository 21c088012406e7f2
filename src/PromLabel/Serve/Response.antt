-- ===== src/PromLabel/Serve/Response.antt =====
-- internal/promlabel/filter.go and filterSilences of silences.go: the reading of a response and its
-- filtering. encoding/json and compress/gzip are parameters.
pub mod Through
pub mod Kept
use token_auth_proxy.Common.{
  ℕ, Bool, true, false, not, ◌||◌, Option, none, some, List, [], ◌∷◌, ◌++◌, ltb, leb, eqb, length,
  if◌then◌else◌,
}
use token_auth_proxy.Text.{Text, text, ◌==◌}
use token_auth_proxy.PromLabel.Scope.{Label}
use token_auth_proxy.PromLabel.Silences.{Matcher, owns}
use token_auth_proxy.PromLabel.Filter.{label_of, keep_decoded, keep_labelled, filter_groups}
use token_auth_proxy.PromLabel.Serve.{
  Headers, header, delete_header, set_header, Silence, ResponseFilter, filter_rules, filter_alerts,
  filter_silences,
}

-- The content is what can be read of the body.
pub record TargetResponse : Type 0 where
  pub status : ℕ
  pub headers : Headers
  pub content : Text

-- map[string]json.RawMessage, of which the first entry of a name counts: `label_of` reads it.
abbrev pub Object : Type 0
Object = List (Text × Text)

pub record JsonCodec : Type 0 where
  pub gunzip : Text → Option Text
  pub show_length : ℕ → Text
  pub decode_text : Text → Option Text
  pub decode_object : Text → Option Object
  pub decode_list : Text → Option (List Text)
  pub decode_objects : Text → Option (List Object)
  -- The field labels of an entry.
  pub decode_labels : Text → Option (List (Text × Text))
  pub decode_silence : Text → Option Silence
  -- What json.Marshal writes; `none` is its error.
  pub encode_object : Object → Option Text
  pub encode_list : List Text → Option Text
  pub encode_objects : List Object → Option Text
  pub encode_silence : Silence → Option Text

-- maxResponseBytes
abbrev pub max_response_bytes : ℕ
max_response_bytes = 67108864

-- A read response: its headers and the body. `none` is an error, here and below.
pub record PlainBody : Type 0 where
  pub headers : Headers
  pub body : Text

abbrev bounded : Headers → Option Text → Option PlainBody
bounded hs none = none
bounded hs (some body) =
    if ltb max_response_bytes (length body)
    then none
    else some (record { headers = hs; body = body })

module _ (codec : JsonCodec) where
  unfoldable pub read_response : TargetResponse → Option PlainBody
  unfolding delete_header
  read_response resp =
      let encoding = header resp.headers (text "Content-Encoding") in
      if encoding == [] || encoding == text "identity"
      then bounded resp.headers (some resp.content)
      else if encoding == text "gzip"
      then bounded (delete_header (text "Content-Encoding") resp.headers)
          (codec.gunzip resp.content)
      else none

  -- A field that is set to what was encoded.
  abbrev pub put_in : Object → Text → Option Text → Option Object
  put_in o name none = none
  put_in o name (some raw) = some ((name, raw) ∷ o)

  -- g["rules"], and the group with other rules.
  abbrev pub rules_of : Object → Option (List Text)
  rules_of g = codec.decode_list (label_of g (text "rules"))

  abbrev pub with_kept_rules : Object → List Text → Option Object
  with_kept_rules g rs = put_in g (text "rules") (codec.encode_list rs)

  abbrev with_groups : Object → Option (List Object) → Option Object
  with_groups d none = none
  with_groups d (some kept) = put_in d (text "groups") (codec.encode_objects kept)

  abbrev with_alerts : Object → Option (List Text) → Option Object
  with_alerts d none = none
  with_alerts d (some kept) = put_in d (text "alerts") (codec.encode_list kept)

  abbrev groups_kept : List Label → Option (List Object) → Option (List Object)
  groups_kept ls none = none
  groups_kept ls (some groups) =
      filter_groups codec.decode_labels ls rules_of with_kept_rules groups

  abbrev alerts_kept : List Label → Option (List Text) → Option (List Text)
  alerts_kept ls none = none
  alerts_kept ls (some entries) = keep_labelled codec.decode_labels ls entries

  -- filterRules and filterAlerts, and what they make of the decoded data.
  abbrev rules_in : List Label → Object → Option Object
  rules_in ls d = with_groups d (groups_kept ls (codec.decode_objects (label_of d (text "groups"))))

  abbrev alerts_in : List Label → Object → Option Object
  alerts_in ls d = with_alerts d (alerts_kept ls (codec.decode_list (label_of d (text "alerts"))))

  abbrev in_data : (Object → Option Object) → Option Object → Option Object
  in_data f none = none
  in_data f (some d) = f d

  unfoldable pub filter_data : (Object → Option Object) → Text → Option Object
  filter_data f data_text = in_data f (codec.decode_object data_text)

  abbrev is_success : Option Text → Bool
  is_success none = false
  is_success (some status) = status == text "success"

  abbrev encode_if : Option Object → Option Text
  encode_if none = none
  encode_if (some o) = codec.encode_object o

  abbrev with_data : Object → Option Object → Option Text
  with_data envelope none = none
  with_data envelope (some d) = encode_if (put_in envelope (text "data") (codec.encode_object d))

  abbrev in_envelope : (Object → Option Object) → Option Object → Option Text
  in_envelope f none = none
  in_envelope f (some envelope) =
      if is_success (codec.decode_text (label_of envelope (text "status")))
      then with_data envelope (filter_data f (label_of envelope (text "data")))
      else none

  unfoldable pub api_filter : (Object → Option Object) → Text → Option Text
  unfolding filter_data
  api_filter f body = in_envelope f (codec.decode_object body)

  abbrev pub owned_in : List Label → Silence → Bool
  owned_in ls s = owns ls s.matchers

  abbrev as_list : Option (List Text) → Option Text
  as_list none = none
  as_list (some kept) = codec.encode_list kept

  abbrev silences_in : List Label → Option (List Text) → Option Text
  silences_in ls none = none
  silences_in ls (some entries) = as_list (keep_decoded codec.decode_silence (owned_in ls) entries)

  unfoldable pub filter_body : ResponseFilter → List Label → Text → Option Text
  unfolding api_filter keep_labelled filter_groups keep_decoded owns
  filter_body filter_rules ls body = api_filter (rules_in ls) body
  filter_body filter_alerts ls body = api_filter (alerts_in ls) body
  filter_body filter_silences ls body = silences_in ls (codec.decode_list body)

  abbrev with_body : TargetResponse → Headers → Option Text → Option TargetResponse
  with_body resp hs none = none
  with_body resp hs (some body) = some (record resp {
    headers = set_header (text "Content-Length") (codec.show_length (length body)) hs;
    content = body;
  })

  abbrev filter_plain :
      ResponseFilter → List Label → TargetResponse → Option PlainBody → Option TargetResponse
  filter_plain f ls resp none = none
  filter_plain f ls resp (some plain) = with_body resp plain.headers (filter_body f ls plain.body)

  -- ModifyResponse, for the filter that the request carries; an error makes the proxy answer 502.
  unfoldable pub modify_response :
      Option (ResponseFilter × List Label) → TargetResponse → Option TargetResponse
  unfolding read_response filter_body delete_header
  modify_response none resp = some resp
  modify_response (some (f, ls)) resp =
      if leb 400 resp.status
      then some resp
      else if not (eqb resp.status 200)
      then none
      else filter_plain f ls resp (read_response resp)
