-- ===== src/Saml/Registry.antt =====
-- internal/authn/saml.go: the registry of the one SAML provider, its metadata's refreshes and the second
-- chance of serveACSRetrying. Building a provider from metadata is the library's. What a fetch and a build
-- come to is given to each call, with the time at which the call is made and the one at which the fetch
-- has ended.
pub mod Serves
use token_auth_proxy.Common.{
  ℕ, suc, ◌+◌, Bool, true, false, not, ◌&&◌, ◌||◌, Option, none, some, List, [], ◌∷◌, ◌++◌,
  is_empty, eqb, ltb, leb, if◌then◌else◌,
}
use token_auth_proxy.Text.{Text, text, ◌==◌, join}
use token_auth_proxy.Config.{SamlSource, InboundAuth, saml_enabled}
use token_auth_proxy.Config.Pem.{PemError}
use token_auth_proxy.Basic.{is_seen}
use token_auth_proxy.Saml.{
  Entity, MetadataError, Metadata, metadata, no_metadata, MetadataReply, fetch_metadata, expiry_at,
}

-- defaultSAMLRetry, samlMinMetadataRefresh and samlFailedRefreshBackoff
abbrev pub saml_retry : ℕ
saml_retry = 30000000000

abbrev pub min_refresh : ℕ
min_refresh = 60000000000

abbrev pub failed_backoff : ℕ
failed_backoff = 300000000000

abbrev sooner : ℕ → ℕ → ℕ
sooner a b = if ltb b a then b else a

-- When metadata that was fetched at `now` is next due.
unfoldable pub refresh_at : ℕ → ℕ → Option ℕ → ℕ
refresh_at now ttl none = now + ttl
refresh_at now ttl (some expiry) =
    if not (ltb expiry (now + ttl))
    then now + ttl
    else if ltb expiry (now + min_refresh)
    then (if ltb (now + ttl) (now + min_refresh) then now + ttl else now + min_refresh)
    else expiry

pub data SamlError : Type 0 where
  bad_roots : PemError → SamlError
  metadata_failed : MetadataError → SamlError
  not_built : SamlError

-- What fetchAndBuild comes to: a provider and when its metadata's certificates expire.
pub data Fetched (P : Type 0) : Type 0 where
  fetched : P → Option ℕ → Fetched P
  not_fetched : SamlError → Fetched P

pub record SamlRegistry (P : Type 0) : Type 0 where
  -- The address of the configuration that was reconciled last.
  pub seen : Option ℕ
  pub fingerprint : Text
  pub provider : Option P
  pub refresh_due : ℕ
  pub fetched_at : Option ℕ
  pub cert_expiry : Option ℕ
  pub last_err : Option SamlError
  pub next_try : ℕ

abbrev pub new_saml_registry : {P : Type 0} → SamlRegistry P
new_saml_registry = record {
  seen = none;
  fingerprint = [];
  provider = none;
  refresh_due = 0;
  fetched_at = none;
  cert_expiry = none;
  last_err = none;
  next_try = 0;
}

-- What the calls of one fetch and build come to.
pub record Fetching (P : Type 0) : Type 0 where
  pub trust_roots : Text → Option PemError
  pub answer : MetadataReply
  pub new_provider : Entity → Option P

module _ {P : Type 0} (parse_metadata : Text → Option Entity) (base64 : Text → Option Text)
    (not_after : Text → Option ℕ) where
  abbrev of_entity : ℕ → Entity → Option P → Fetched P
  of_entity ended e none = not_fetched not_built
  of_entity ended e (some p) = fetched p (expiry_at base64 not_after e ended)

  abbrev of_metadata : ℕ → Fetching P → Metadata → Fetched P
  of_metadata ended f (no_metadata x) = not_fetched (metadata_failed x)
  of_metadata ended f (metadata e) = of_entity ended e (f.new_provider e)

  abbrev of_saml_roots : ℕ → Fetching P → SamlSource → Option PemError → Fetched P
  of_saml_roots ended f src (some x) = not_fetched (bad_roots x)
  of_saml_roots ended f src none =
      of_metadata ended f (fetch_metadata parse_metadata src.issuer f.answer)

  unfoldable pub fetch_and_build : ℕ → Fetching P → SamlSource → Fetched P
  unfolding fetch_metadata expiry_at
  fetch_and_build ended f src =
      of_saml_roots ended f src (if is_empty src.ca_cert then none else f.trust_roots src.ca_cert)

abbrev pub nul : Text
nul = 0 ∷ []

module _ (show_duration : ℕ → Text) where
  unfoldable pub saml_fingerprint : SamlSource → Text
  unfolding join
  saml_fingerprint s = join nul (
      s.issuer
      ∷ join (text ",") s.audiences
      ∷ s.idp_metadata_url
      ∷ show_duration s.idp_metadata_cache_ttl
      ∷ s.sp_base_url
      ∷ s.sp_entity_id
      ∷ s.acs_path
      ∷ s.session_cookie
      ∷ s.session_signing_key_env
      ∷ show_duration s.session_duration
      ∷ s.sp_key_env
      ∷ s.sp_cert
      ∷ s.ca_cert
      ∷ [])

  abbrev wanted_fingerprint : InboundAuth → Option SamlSource → Text
  wanted_fingerprint auth none = []
  wanted_fingerprint auth (some s) = if saml_enabled auth then saml_fingerprint s else []

pub data Provided (P : Type 0) : Type 0 where
  provided : P → Provided P
  not_provided : Option SamlError → Provided P

abbrev pub fetched_lately : ℕ → Option ℕ → Bool
fetched_lately now none = false
fetched_lately now (some at) = ltb now (at + min_refresh)

module _ {P : Type 0} (show_duration : ℕ → Text) where
  -- The provider of other settings is given up, with what is known of its fetches.
  abbrev pub for_fingerprint : Text → SamlRegistry P → SamlRegistry P
  for_fingerprint fp reg =
      if fp == reg.fingerprint
      then reg
      else record reg { fingerprint = fp; provider = none; last_err = none; next_try = 0 }

  -- SAMLRegistry.Reconcile, for the configuration at the address `cfg`.
  unfoldable pub reconcile_saml : ℕ → InboundAuth → SamlRegistry P → SamlRegistry P
  unfolding saml_fingerprint
  reconcile_saml cfg auth reg =
      if is_seen reg.seen cfg
      then reg
      else record (for_fingerprint (wanted_fingerprint show_duration auth auth.saml) reg) {
        seen = some cfg;
      }

  abbrev pub store_provider : ℕ → SamlSource → P → Option ℕ → SamlRegistry P → SamlRegistry P
  store_provider at src p expiry reg = record reg {
    provider = some p;
    cert_expiry = expiry;
    refresh_due = refresh_at at src.idp_metadata_cache_ttl expiry;
  }

  -- A refresh that fails leaves the provider, and is not tried again for a while.
  abbrev pub refreshed :
      ℕ → SamlSource → P → Fetched P → SamlRegistry P → Provided P × SamlRegistry P
  refreshed ended src p (not_fetched x) reg = (
    provided p,
    record reg { refresh_due = ended + sooner src.idp_metadata_cache_ttl failed_backoff },
  )
  refreshed ended src p (fetched q expiry) reg = (provided q, store_provider ended src q expiry reg)

  abbrev pub first_built : ℕ → SamlSource → Fetched P → SamlRegistry P → Provided P × SamlRegistry P
  first_built ended src (not_fetched x) reg =
      (not_provided (some x), record reg { last_err = some x; next_try = ended + saml_retry })
  first_built ended src (fetched q expiry) reg =
      (provided q, record (store_provider ended src q expiry reg) { last_err = none })

  abbrev pub provided_by :
      ℕ → ℕ → Fetched P → SamlSource → SamlRegistry P → Option P → Provided P × SamlRegistry P
  provided_by asked ended f src reg (some p) =
      if ltb asked reg.refresh_due
      then (provided p, reg)
      else refreshed ended src p f (record reg { fetched_at = some asked })
  provided_by asked ended f src reg none =
      if ltb asked reg.next_try
      then (not_provided reg.last_err, reg)
      else first_built ended src f (record reg { fetched_at = some asked })

  -- SAMLRegistry.Provider
  unfoldable pub provider :
      ℕ → ℕ → Fetched P → SamlSource → SamlRegistry P → Provided P × SamlRegistry P
  unfolding refresh_at saml_fingerprint
  provider asked ended f src reg =
      let reg' = for_fingerprint (saml_fingerprint show_duration src) reg in
      provided_by asked ended f src reg' reg'.provider

  abbrev pub refetched : ℕ → SamlSource → Fetched P → SamlRegistry P → Option P × SamlRegistry P
  refetched now src (not_fetched x) reg = (none, reg)
  refetched now src (fetched q expiry) reg = (some q, store_provider now src q expiry reg)

  abbrev pub refresh_of :
      ℕ → Fetched P → SamlSource → SamlRegistry P → Option P → Option P × SamlRegistry P
  refresh_of now f src reg none = (none, reg)
  refresh_of now f src reg (some p) =
      if fetched_lately now reg.fetched_at
      then (none, reg)
      else refetched now src f (record reg { fetched_at = some now })

  -- SAMLRegistry.RefreshNow
  unfoldable pub refresh_now :
      ℕ → Fetched P → SamlSource → SamlRegistry P → Option P × SamlRegistry P
  unfolding refresh_at saml_fingerprint
  refresh_now now f src reg =
      if not (saml_fingerprint show_duration src == reg.fingerprint)
      then (none, reg)
      else refresh_of now f src reg reg.provider

  abbrev pub second_attempt :
      {R : Type 0} → (P → R) → R → Option P × SamlRegistry P → R × SamlRegistry P
  second_attempt attempt first (none, reg) = (first, reg)
  second_attempt attempt first (some fresh, reg) = (attempt fresh, reg)

  -- serveACSRetrying: `attempt` is what a provider makes of the callback.
  unfoldable pub serve_acs_retrying :
      {R : Type 0}
      → (P → R)
      → (R → ℕ)
      → P
      → ℕ
      → Fetched P
      → SamlSource
      → SamlRegistry P
      → R × SamlRegistry P
  unfolding refresh_now
  serve_acs_retrying attempt status mw now f src reg =
      if eqb (status (attempt mw)) 403
      then second_attempt attempt (attempt mw) (refresh_now now f src reg)
      else (attempt mw, reg)
