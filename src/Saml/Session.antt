-- ===== src/Saml/Session.antt =====
-- internal/authn/saml_session.go: the codecs of the SAML session cookie and of the cookie that tracks a
-- login on its way. The library that signs and parses tokens is a parameter.
pub mod Codecs
pub mod Attributes
pub mod Tests
use token_auth_proxy.Common.{
  ℕ, suc, ◌+◌, ◌≡◌, Bool, true, false, not, ◌&&◌, Option, none, some, List, [], ◌∷◌, ◌++◌, is_empty,
  any, ltb, leb, if◌then◌else◌,
}
use token_auth_proxy.Text.{Text, text, ◌==◌}

abbrev pub Attributes : Type 0
Attributes = List (Text × List Text)

pub record TrackedRequest : Type 0 where
  pub index : Text
  pub saml_request_id : Text
  pub uri : Text

abbrev pub no_request : TrackedRequest
no_request = record { index = []; saml_request_id = []; uri = [] }

-- The claims of both kinds of token, those that one has none of left empty. Times are in nanoseconds,
-- and those in a token are whole seconds.
pub record SamlClaims : Type 0 where
  pub subject : Text
  pub issuer : Text
  pub audience : List Text
  pub issued_at : ℕ
  pub not_before : ℕ
  pub expires_at : ℕ
  pub attributes : Attributes
  pub saml_session : Bool
  pub request : TrackedRequest
  pub saml_authn_request : Bool

pub record Attribute : Type 0 where
  pub friendly_name : Text
  pub name : Text
  pub values : List Text

pub record Assertion : Type 0 where
  pub name_id : Option Text
  pub attribute_statements : List (List Attribute)
  pub session_indices : List Text

pub record SessionCodec : Type 0 where
  pub audience : Text
  pub issuer : Text
  pub max_age : ℕ

-- What the parser is told to check.
pub record Options : Type 0 where
  pub methods : List Text
  pub want_issuer : Text
  pub want_audience : Text
  pub need_expiry : Bool
  pub at : ℕ

-- The library, with the codec's secret and its signed tokens T; the time that it puts in a token is cut to the second.
pub record Hs256 (T : Type 0) : Type 0 where
  pub whole : ℕ → ℕ
  pub sign : SamlClaims → T
  pub parse : Options → T → Option SamlClaims

abbrev pub session_alg : Text
session_alg = text "HS256"

abbrev pub options_of : SessionCodec → ℕ → Options
options_of c now = record {
  methods = session_alg ∷ [];
  want_issuer = c.issuer;
  want_audience = c.audience;
  need_expiry = true;
  at = now;
}

unfoldable pub values_at : Text → Attributes → List Text
values_at key [] = []
values_at key ((k, vs) ∷ attrs) = let rest = values_at key attrs in if k == key then vs else rest

-- append to the values under a key
unfoldable pub append_at : Text → Text → Attributes → Attributes
append_at key v [] = (key, v ∷ []) ∷ []
append_at key v ((k, vs) ∷ attrs) =
    let rest = append_at key v attrs in
    if k == key then (k, vs ++ (v ∷ [])) ∷ attrs else (k, vs) ∷ rest

abbrev pub name_of : Attribute → Text
name_of a = if is_empty a.friendly_name then a.name else a.friendly_name

unfoldable pub add_values : Text → List Text → Attributes → Attributes
unfolding append_at
add_values key [] attrs = attrs
add_values key (v ∷ vs) attrs = add_values key vs (append_at key v attrs)

unfoldable pub add_attributes : List Attribute → Attributes → Attributes
unfolding add_values
add_attributes [] attrs = attrs
add_attributes (a ∷ rest) attrs = add_attributes rest (add_values (name_of a) a.values attrs)

unfoldable pub add_statements : List (List Attribute) → Attributes → Attributes
unfolding add_attributes
add_statements [] attrs = attrs
add_statements (s ∷ ss) attrs = add_statements ss (add_attributes s attrs)

abbrev pub session_index : Text
session_index = text "SessionIndex"

abbrev pub or_no_text : Option Text → Text
or_no_text none = []
or_no_text (some t) = t

module _ {T : Type 0} (lib : Hs256 T) where
  -- samlSessionCodec.New
  unfoldable pub new_session : SessionCodec → ℕ → Assertion → SamlClaims
  unfolding add_statements add_values
  new_session c now a = record {
    subject = or_no_text a.name_id;
    issuer = c.issuer;
    audience = c.audience ∷ [];
    issued_at = lib.whole now;
    not_before = lib.whole now;
    expires_at = lib.whole (now + c.max_age);
    attributes =
        add_values session_index a.session_indices (add_statements a.attribute_statements []);
    saml_session = true;
    request = no_request;
    saml_authn_request = false;
  }

  unfoldable pub encode_session : SamlClaims → T
  encode_session claims = lib.sign claims

  abbrev marked_session : Option SamlClaims → Option SamlClaims
  marked_session none = none
  marked_session (some claims) = if not claims.saml_session then none else some claims

  unfoldable pub decode_session : SessionCodec → ℕ → T → Option SamlClaims
  decode_session c now signed = marked_session (lib.parse (options_of c now) signed)

  -- The claims of a login that is on its way; its index goes into the subject alone.
  abbrev pub tracked_claims : SessionCodec → ℕ → TrackedRequest → SamlClaims
  tracked_claims c now r = record {
    subject = r.index;
    issuer = c.issuer;
    audience = c.audience ∷ [];
    issued_at = lib.whole now;
    not_before = lib.whole now;
    expires_at = lib.whole (now + c.max_age);
    attributes = [];
    saml_session = false;
    request = record r { index = [] };
    saml_authn_request = true;
  }

  unfoldable pub encode_tracked : SessionCodec → ℕ → TrackedRequest → T
  encode_tracked c now r = lib.sign (tracked_claims c now r)

  abbrev marked_request : Option SamlClaims → Option TrackedRequest
  marked_request none = none
  marked_request (some claims) =
      if not claims.saml_authn_request
      then none
      else some (record claims.request { index = claims.subject })

  unfoldable pub decode_tracked : SessionCodec → ℕ → T → Option TrackedRequest
  decode_tracked c now signed = marked_request (lib.parse (options_of c now) signed)
