-- ===== src/PromLabel/Handler.antt =====
-- internal/promlabel/handler.go, with postSilence, deleteSilence and checkOwner of silences.go: what
-- is forwarded of a request that label enforcement gave a verdict on. The PromQL enforcer, the
-- parsing of forms and the lookup of a silence at the target are parameters.
pub mod Enforced
pub mod Owned
pub mod Tests
use token_auth_proxy.Common.{
  ℕ, Bool, true, false, not, ◌&&◌, ◌||◌, Option, none, some, List, [], ◌∷◌, is_empty, if◌then◌else◌,
}
use token_auth_proxy.Text.{Text, text, ◌==◌}
use token_auth_proxy.PromLabel.Scope.{Label}
use token_auth_proxy.PromLabel.Silences.{Matcher, owns, Scoped, scoped, refused, scope_matchers}

-- url.Values, a Go map: the first entry of a name counts.
abbrev pub Values : Type 0
Values = List (Text × List Text)

unfoldable pub values_of : Values → Text → Option (List Text)
values_of [] name = none
values_of ((k, vs) ∷ v) name = let later = values_of v name in if k == name then some vs else later

abbrev pub set_values : Text → List Text → Values → Values
set_values name vs v = (name, vs) ∷ v

abbrev pub query_param : Text
query_param = text "query"

abbrev pub match_param : Text
match_param = text "match[]"

pub data EnforceError : Type 0 where
  query_parse illegal_matcher internal several_queries : EnforceError

-- What the enforcer makes of one query.
pub data Rewritten : Type 0 where
  rewritten : Text → Rewritten
  not_rewritten : EnforceError → Rewritten

-- Whether there was anything to enforce, and the parameters afterwards.
pub data Checked : Type 0 where
  checked : Bool → Values → Checked
  failed : EnforceError → Checked

pub data Status : Type 0 where
  bad_request forbidden internal_error bad_gateway too_large unsupported_media : Status

unfoldable pub enforce_status : EnforceError → Status
enforce_status query_parse = bad_request
enforce_status illegal_matcher = bad_request
enforce_status several_queries = bad_request
enforce_status internal = internal_error

module _ (enforce : Text → Rewritten) where
  abbrev set_query : Values → Rewritten → Checked
  set_query v (rewritten q) = checked true (set_values query_param (q ∷ []) v)
  set_query v (not_rewritten e) = failed e

  abbrev query_in : Values → Option (List Text) → Checked
  query_in v none = checked false v
  query_in v (some (q ∷ [])) = set_query v (enforce q)
  query_in v (some _) = failed several_queries

  unfoldable pub enforce_query : Values → Checked
  enforce_query v = query_in v (values_of v query_param)

  -- The selectors one after the other; the first error ends it.
  abbrev cons_selector : Rewritten → Option (List Text) → Option (List Text)
  cons_selector (not_rewritten e) rest = none
  cons_selector (rewritten s) none = none
  cons_selector (rewritten s) (some rest) = some (s ∷ rest)

  unfoldable pub enforce_selectors : List Text → Option (List Text)
  enforce_selectors [] = some []
  enforce_selectors (s ∷ ss) = cons_selector (enforce s) (enforce_selectors ss)

  -- The error of the first selector that has one.
  abbrev error_or : Rewritten → EnforceError → EnforceError
  error_or (not_rewritten e) later = e
  error_or (rewritten s) later = later

  unfoldable pub selector_error : List Text → EnforceError
  selector_error [] = internal
  selector_error (s ∷ ss) = error_or (enforce s) (selector_error ss)

  abbrev set_selectors : Values → List Text → Option (List Text) → Checked
  set_selectors v given none = failed (selector_error given)
  set_selectors v given (some out) = checked (not (is_empty out)) (set_values match_param out v)

  abbrev match_in : Values → Option (List Text) → Checked
  match_in v none = checked false v
  match_in v (some given) = set_selectors v given (enforce_selectors given)

  unfoldable pub enforce_match : Values → Checked
  unfolding enforce_selectors selector_error
  enforce_match v = match_in v (values_of v match_param)

-- The two endpoints that are rewritten.
pub data Kind : Type 0 where
  of_query of_match : Kind

pub data Rewrite : Type 0 where
  -- The parameters of the URL and of the body, as they are forwarded.
  forwarded : Values → Values → Rewrite
  answered : Status → Rewrite

-- The part of rewrite that follows the parsing: `selector` selects the enforced labels.
module _ (enforce : Text → Rewritten) (selector : Text) where
  abbrev enforce_kind : Kind → Values → Checked
  enforce_kind of_query v = enforce_query enforce v
  enforce_kind of_match v = enforce_match enforce v

  abbrev nothing_found : Kind → Values → Values → Rewrite
  nothing_found of_query v body = answered bad_request
  nothing_found of_match v body = forwarded (set_values match_param (selector ∷ []) v) body

  abbrev finish : Kind → Checked → Checked → Rewrite
  finish kind (failed e) c = answered (enforce_status e)
  finish kind (checked found v) (failed e) = answered (enforce_status e)
  finish kind (checked found v) (checked found' body) =
      if not found && not found' then nothing_found kind v body else forwarded v body

  unfoldable pub rewrite : Kind → Values → Values → Rewrite
  unfolding enforce_query enforce_match enforce_status
  rewrite kind v body = finish kind (enforce_kind kind v) (enforce_kind kind body)

-- What the lookup of a silence at the target comes to.
pub data Looked : Type 0 where
  found : List Matcher → Looked
  missing unreadable : Looked

pub data SilenceAnswer : Type 0 where
  let_through : List Matcher → SilenceAnswer
  deleted : SilenceAnswer
  stopped : Status → SilenceAnswer

-- silenceIDPattern and the lookup are parameters.
module _ (is_silence_id : Text → Bool) (look_up : Text → Looked) where
  abbrev judge_owner : List Label → Looked → Option Status
  judge_owner ls missing = some forbidden
  judge_owner ls unreadable = some bad_gateway
  judge_owner ls (found ms) = if owns ls ms then none else some forbidden

  -- `none` where the caller owns the silence.
  unfoldable pub check_owner : List Label → Text → Option Status
  check_owner ls id =
      if not (is_silence_id id) then some bad_request else judge_owner ls (look_up id)

  abbrev status_of : Scoped → SilenceAnswer
  status_of (scoped ms) = let_through ms
  status_of (refused (token_auth_proxy.PromLabel.Silences.forbidden name)) = stopped forbidden
  status_of (refused _) = stopped bad_request

  abbrev unless : Option Status → SilenceAnswer → SilenceAnswer
  unless none answer = answer
  unless (some status) answer = stopped status

  -- postSilence, for the decoded silence: its ID and its matchers.
  unfoldable pub post_silence : List Label → Text → List Matcher → SilenceAnswer
  unfolding check_owner
  post_silence ls id ms =
      unless (if is_empty id then none else check_owner ls id) (status_of (scope_matchers ls ms))

  unfoldable pub delete_silence : List Label → Text → SilenceAnswer
  delete_silence ls id = unless (check_owner ls id) deleted
