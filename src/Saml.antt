-- ===== src/Saml.antt =====
-- internal/authn/saml_metadata.go: a SAML identity provider's metadata and when it is next fetched.
-- HTTP, XML, base64 and X.509 are parameters. Times are in nanoseconds.

pub mod Audience
pub mod Registry
pub mod Session
pub mod Tests
use token_auth_proxy.Common.{
  ℕ, suc, ◌+◌, Bool, true, false, not, ◌&&◌, ◌||◌, Option, none, some, List, [], ◌∷◌, ◌++◌,
  is_empty, eqb, ltb, keep, any, if◌then◌else◌, ◌before◌, fail_if,
}
use token_auth_proxy.Text.{Text, text, ◌==◌, is_space}

pub record KeyDescriptor : Type 0 where
  pub use_for : Text
  pub certificates : List Text

pub record IdpDescriptor : Type 0 where
  pub keys : List KeyDescriptor
  pub sso_services : List Text

pub record Entity : Type 0 where
  pub entity_id : Text
  pub idps : List IdpDescriptor

pub data MetadataError : Type 0 where
  unreachable unreadable unparsable other_entity no_idp no_signing_key no_sso : MetadataError
  unexpected_status : ℕ → MetadataError

pub data Metadata : Type 0 where
  metadata : Entity → Metadata
  no_metadata : MetadataError → Metadata

-- The answer to a request for the metadata: its status, and its body where that is read.
pub data MetadataReply : Type 0 where
  no_reply : MetadataReply
  reply : ℕ → Option Text → MetadataReply

abbrev pub signs : KeyDescriptor → Bool
signs k = is_empty k.use_for || k.use_for == text "signing"

abbrev pub has_signing_key : IdpDescriptor → Bool
has_signing_key idp = any signs idp.keys

abbrev pub has_sso_service : IdpDescriptor → Bool
has_sso_service idp = not (is_empty idp.sso_services)

-- validateIDPMetadataShape
unfoldable pub validate_shape : Entity → Option MetadataError
validate_shape e =
    fail_if (is_empty e.idps) no_idp
    before fail_if (not (any has_signing_key e.idps)) no_signing_key
    before fail_if (not (any has_sso_service e.idps)) no_sso

module _ (parse_metadata : Text → Option Entity) where
  abbrev shaped : Entity → Option MetadataError → Metadata
  shaped e none = metadata e
  shaped e (some x) = no_metadata x

  abbrev of_issuer : Text → Option Entity → Metadata
  of_issuer want none = no_metadata unparsable
  of_issuer want (some e) =
      if not (e.entity_id == want) then no_metadata other_entity else shaped e (validate_shape e)

  abbrev of_body : Text → Option Text → Metadata
  of_body want none = no_metadata unreadable
  of_body want (some data_) = of_issuer want (parse_metadata data_)

  -- fetchIDPMetadata
  unfoldable pub fetch_metadata : Text → MetadataReply → Metadata
  unfolding validate_shape
  fetch_metadata want no_reply = no_metadata unreachable
  fetch_metadata want (reply status body) =
      if not (eqb status 200) then no_metadata (unexpected_status status) else of_body want body

-- The earliest of two expiries, where the second is one at all.
abbrev pub sooner_of : Option ℕ → ℕ → Option ℕ
sooner_of none t = some t
sooner_of (some s) t = if ltb t s then some t else some s

-- The earliest expiry after a time, and the earliest of all.
abbrev pub Expiries : Type 0
Expiries = Option ℕ × Option ℕ

module _ (base64 : Text → Option Text) (not_after : Text → Option ℕ) where
  abbrev expiry_in : Option Text → Option ℕ
  expiry_in none = none
  expiry_in (some der) = not_after der

  -- When a certificate expires, if it is one; white space in it counts for nothing.
  abbrev pub expiry_of : Text → Option ℕ
  expiry_of c = expiry_in (base64 (keep (λ b. not (is_space b)) c))

  abbrev pub with_expiry : ℕ → Expiries → Option ℕ → Expiries
  with_expiry now (valid, all_of) none = (valid, all_of)
  with_expiry now (valid, all_of) (some t) =
      (if ltb now t then sooner_of valid t else valid, sooner_of all_of t)

  unfoldable pub over_certificates : ℕ → List Text → Expiries → Expiries
  over_certificates now [] e = e
  over_certificates now (c ∷ cs) e = over_certificates now cs (with_expiry now e (expiry_of c))

  unfoldable pub over_keys : ℕ → List KeyDescriptor → Expiries → Expiries
  unfolding over_certificates
  over_keys now [] e = e
  over_keys now (k ∷ ks) e =
      over_keys now ks (if signs k then over_certificates now k.certificates e else e)

  unfoldable pub over_idps : ℕ → List IdpDescriptor → Expiries → Expiries
  unfolding over_keys
  over_idps now [] e = e
  over_idps now (i ∷ is) e = over_idps now is (over_keys now i.keys e)

  abbrev pub chosen : Expiries → Option ℕ
  chosen (some t, all_of) = some t
  chosen (none, all_of) = all_of

  -- idpSigningCertExpiryAt
  unfoldable pub expiry_at : Entity → ℕ → Option ℕ
  unfolding over_idps
  expiry_at e now = chosen (over_idps now e.idps (none, none))
