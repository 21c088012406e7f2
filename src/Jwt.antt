-- ===== src/Jwt.antt =====
-- internal/authn: credentials.go, verify.go, and enforceJWT of middleware.go. What net/http reads
-- from a request's Cookie header, and the jwt library's parsing, are parameters; so are the keys of
-- a source at the time of the request, as the key registry gives them.
pub mod Extract
pub mod Sound
pub mod Ends
pub mod Tests
use token_auth_proxy.Common.{
  ℕ, zero, suc, ◌<◌, Bool, true, false, not, ◌&&◌, ◌||◌, Option, none, some, List, [], ◌∷◌,
  is_empty, if◌then◌else◌, ltb, length,
}
use token_auth_proxy.Text.{Text, text, ◌==◌, equal_fold, trim_space}
use token_auth_proxy.Config.{
  CredentialLocation, JwtSource, JwtLogin, login_enabled, InboundAuth, jwt_sources_by_issuer,
}
use token_auth_proxy.Acl.{Principal, Claim, str, claim_of, jwt_principal}

-- The parts of a request that credentials are read from. A header or query parameter that is
-- absent reads as the empty text.
pub record Carried : Type 0 where
  pub header : Text → Text
  pub cookie_lines : List Text
  pub query : Text → Text

unfoldable pub take : ℕ → Text → Text
take zero s = []
take (suc n) [] = []
take (suc n) (c ∷ s) = c ∷ take n s

unfoldable pub drop : ℕ → Text → Text
drop zero s = s
drop (suc n) [] = []
drop (suc n) (c ∷ s) = drop n s

-- The prefix is taken off, whatever its case.
unfoldable pub strip_prefix : Text → Text → Option Text
unfolding take drop
strip_prefix prefix v =
    if is_empty prefix
    then some v
    else if ltb (length v) (length prefix) || not (equal_fold (take (length prefix) v) prefix)
    then none
    else some (drop (length prefix) v)

abbrev pub some_text : Text → Option Text
some_text [] = none
some_text (c ∷ s) = some (c ∷ s)

pub data BasicExtraction : Type 0 where
  basic_absent basic_malformed : BasicExtraction
  basic_present : Text → Text → BasicExtraction

abbrev basic_prefix : Text
basic_prefix = text "Basic "

-- net/http's BasicAuth is a parameter: what it decodes a header to.
unfoldable pub extract_basic : (Text → Option (Text × Text)) → Carried → BasicExtraction
unfolding take
extract_basic basic_auth c =
    let v = c.header (text "Authorization") in
    if ltb (length v) (length basic_prefix)
      || not (equal_fold (take (length basic_prefix) v) basic_prefix)
    then basic_absent
    else elim (basic_auth v) [ none ↦ basic_malformed | some (u, p) ↦ basic_present u p ]

module _ (read_cookie : List Text → Text → Option Text) where
  unfoldable pub located : Carried → CredentialLocation → Option Text
  located c loc =
      if loc.location == text "header"
      then some_text (c.header loc.name)
      else if loc.location == text "cookie"
      then elim (read_cookie c.cookie_lines loc.name) [ none ↦ none | some v ↦ some_text v ]
      else if loc.location == text "query"
      then some_text (c.query loc.name)
      else none

  unfoldable pub extract_from : Carried → CredentialLocation → Option Text
  unfolding located strip_prefix
  extract_from c loc = elim (located c loc) [
    | none ↦ none
    | some v ↦ elim (strip_prefix loc.prefix v) [ none ↦ none | some w ↦ some_text (trim_space w) ]
  ]

  abbrev names_cookie : Option JwtLogin → Text → Bool
  names_cookie none name = false
  names_cookie (some l) name = name == l.cookie_name

  -- The source whose login cookie the location is.
  abbrev pub login_source : JwtSource → CredentialLocation → Option JwtSource
  login_source src loc =
      if loc.location == text "cookie" && (login_enabled src && names_cookie src.login loc.name)
      then some src
      else none

  unfoldable pub extract_at :
      Carried → JwtSource → List CredentialLocation → Option (Text × Option JwtSource)
  unfolding extract_from
  extract_at c src [] = none
  extract_at c src (loc ∷ locs) = elim (extract_from c loc) [
    | none ↦ extract_at c src locs
    | some v ↦ some (v, login_source src loc)
  ]

  unfoldable pub extract_token_from : Carried → List JwtSource → Option (Text × Option JwtSource)
  unfolding extract_at
  extract_token_from c [] = none
  extract_token_from c (src ∷ srcs) =
      let later = extract_token_from c srcs in
      if src.disabled
      then later
      else elim (extract_at c src src.credentials) [ none ↦ later | some found ↦ some found ]

pub data Reason : Type 0 where
  no_credential malformed_token unknown_issuer bad_signature expired not_yet_valid bad_audience
        bad_issuer :
      Reason
  invalid_claims keys_unavailable subject_denied malformed_credential bad_credential : Reason
  basic_saturated saml_metadata_unavailable login_unavailable : Reason

-- The errors that the jwt library joined into one.
pub record JwtError : Type 0 where
  pub token_expired : Bool
  pub token_not_valid_yet : Bool
  pub token_invalid_audience : Bool
  pub token_invalid_issuer : Bool
  pub token_signature_invalid : Bool
  pub token_malformed : Bool
  pub token_unverifiable : Bool

unfoldable pub classify : JwtError → Reason
classify e =
    if e.token_expired
    then expired
    else if e.token_not_valid_yet
    then not_yet_valid
    else if e.token_invalid_audience
    then bad_audience
    else if e.token_invalid_issuer
    then bad_issuer
    else if e.token_signature_invalid
    then bad_signature
    else if e.token_malformed || e.token_unverifiable
    then malformed_token
    else invalid_claims

-- The options of the parser; a missing expiry is always refused.
pub record Policy : Type 0 where
  pub valid_methods : List Text
  pub leeway : ℕ
  pub issuer : Text
  pub expiration_required : Bool
  pub audience : Option (List Text)

abbrev pub parser_for : JwtSource → Policy
parser_for src = record {
  valid_methods = src.algorithms;
  leeway = src.clock_skew;
  issuer = src.issuer;
  expiration_required = true;
  audience = if is_empty src.audiences then none else some src.audiences;
}

pub data Parsed : Type 0 where
  claims : List (Text × Claim) → Parsed
  failed : JwtError → Parsed

-- The jwt library and the registries, as they answer during one request.
pub record Tokens (Keys : Type 0) : Type 0 where
  pub read_cookie : List Text → Text → Option Text
  pub unverified_issuer : Text → Option Text
  pub keyfunc : JwtSource → Option Keys
  pub parse : Policy → Keys → Text → Parsed
  -- Whether the denylist holds a subject, once the registry was given one.
  pub denied : Option (Text → Bool)

pub data Tried : Type 0 where
  verified : Principal → Tried
  all_failed : Reason → Tried

-- The answers to a bearer token that was refused: a 401 or a 503.
pub data JwtOutcome : Type 0 where
  jwt_no_credential jwt_stale : JwtOutcome
  jwt_allowed : Principal → JwtOutcome
  jwt_rejected jwt_unavailable : Reason → JwtOutcome

module _ {Keys : Type 0} (tokens : Tokens Keys) where
  open tokens use {read_cookie, unverified_issuer, keyfunc, parse, denied}

  abbrev subject_of : Claim → Text
  subject_of (str s) = s
  subject_of _ = []

  unfoldable pub denied_local_subject : List (Text × Claim) → Bool
  denied_local_subject cs = elim denied [
    | none ↦ false
    | some test ↦ test (subject_of (claim_of cs (text "sub")))
  ]

  abbrev pub verify : Text → JwtSource → Keys → Parsed
  verify raw src kf = parse (parser_for src) kf raw

  -- A reason is reported unless keys were unavailable before.
  abbrev report : Bool → Reason → Reason → Reason
  report true reported why = reported
  report false reported why = why

  -- The loop over the candidates: what is reported so far, and whether that is unavailable keys.
  unfoldable pub try_candidates : Text → Bool → Reason → List JwtSource → Tried
  unfolding classify
  try_candidates raw have why [] = all_failed why
  try_candidates raw have why (src ∷ srcs) = elim (keyfunc src) [
    | none ↦ try_candidates raw true (report have why keys_unavailable) srcs
    | some kf ↦ elim (verify raw src kf) [
      | failed e ↦ try_candidates raw have (report have why (classify e)) srcs
      | claims cs ↦
          let later = try_candidates raw have (report have why subject_denied) srcs in
          if src.is_local && denied_local_subject cs
          then later
          else verified (jwt_principal src.name cs)
    ]
  ]

  abbrev pub is_keys_unavailable : Reason → Bool
  is_keys_unavailable keys_unavailable = true
  is_keys_unavailable _ = false

  abbrev refused : Option JwtSource → Reason → JwtOutcome
  refused none why = jwt_rejected why
  refused (some src) why = jwt_stale

  -- Unavailable keys are a 503 whatever cookie the token came from.
  abbrev pub answer : Option JwtSource → Tried → JwtOutcome
  answer login (verified p) = jwt_allowed p
  answer login (all_failed why) =
      if is_keys_unavailable why then jwt_unavailable why else refused login why

  abbrev pub with_candidates : Option JwtSource → Text → List JwtSource → JwtOutcome
  with_candidates login raw [] = refused login unknown_issuer
  with_candidates login raw (s ∷ ss) =
      answer login (try_candidates raw false invalid_claims (s ∷ ss))

  unfoldable pub enforce_token : InboundAuth → Text → Option JwtSource → JwtOutcome
  unfolding try_candidates
  enforce_token auth raw login = elim (unverified_issuer raw) [
    | none ↦ refused login malformed_token
    | some iss ↦ with_candidates login raw (jwt_sources_by_issuer auth iss)
  ]

  unfoldable pub enforce_jwt : InboundAuth → Carried → JwtOutcome
  unfolding enforce_token extract_token_from
  enforce_jwt auth c = elim (extract_token_from read_cookie c auth.jwt) [
    | none ↦ jwt_no_credential
    | some (raw, login) ↦ enforce_token auth raw login
  ]
