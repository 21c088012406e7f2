-- ===== src/Keys.antt =====
-- internal/authn/discovery.go and jwks.go: discovery documents, and the resolver of one source's
-- signing keys.
-- HTTP, JSON, and the library that fetches and refreshes a key set are parameters. Times are in nanoseconds.
pub mod Registry
pub mod Retried
pub mod Tests
use token_auth_proxy.Common.{
  ℕ, suc, ◌+◌, Bool, true, false, not, ◌&&◌, ◌||◌, Option, none, some, List, [], ◌∷◌, ◌++◌,
  is_empty, eqb, ltb, keep, any, if◌then◌else◌,
}
use token_auth_proxy.Text.{Text, text, ◌==◌}
use token_auth_proxy.Config.{JwtSource}
use token_auth_proxy.Config.Urls.{check_url}
use token_auth_proxy.Config.Pem.{PemError}
use token_auth_proxy.Oauth.Clients.{Url, UriError}
use token_auth_proxy.Basic.Entries.{Cache, find, delete}
use token_auth_proxy.Basic.{is_seen}

pub record Document : Type 0 where
  pub issuer : Text
  pub jwks_uri : Text
  pub authorization_endpoint : Text
  pub token_endpoint : Text
  pub end_session_endpoint : Text

-- The answer to a request for a discovery document: its status and its body, where that decodes.
pub data Reply : Type 0 where
  no_reply : Reply
  reply : ℕ → Option Document → Reply

pub data DiscoveryError : Type 0 where
  unreachable undecodable other_issuer : DiscoveryError
  unexpected_status : ℕ → DiscoveryError
  bad_uri : UriError → DiscoveryError

pub data Discovered : Type 0 where
  discovered : Document → Discovered
  undiscovered : DiscoveryError → Discovered

module _ (parse_request_uri : Text → Option Url) where
  abbrev with_uri : Document → Option UriError → Discovered
  with_uri doc none = discovered doc
  with_uri doc (some e) = undiscovered (bad_uri e)

  abbrev with_document : Text → Option Document → Discovered
  with_document want none = undiscovered undecodable
  with_document want (some doc) =
      if not (doc.issuer == want)
      then undiscovered other_issuer
      else with_uri doc (check_url parse_request_uri doc.jwks_uri)

  unfoldable pub fetch_discovery : Text → Reply → Discovered
  unfolding check_url
  fetch_discovery want no_reply = undiscovered unreachable
  fetch_discovery want (reply status body) =
      if not (eqb status 200)
      then undiscovered (unexpected_status status)
      else with_document want body

pub data KeyError : Type 0 where
  bad_trust_roots : PemError → KeyError
  discovery_failed : DiscoveryError → KeyError
  no_key_set no_local_keys : KeyError

pub record Resolver (Keys : Type 0) : Type 0 where
  pub fingerprint : Text
  pub kf : Option Keys
  pub last_err : Option KeyError
  pub next_try : ℕ
  pub jwks_url : Text
  pub own_client : Bool
  -- The goroutine that refreshes the keys runs.
  pub refreshing : Bool

abbrev pub new_resolver : {Keys : Type 0} → Text → Resolver Keys
new_resolver fp = record {
  fingerprint = fp;
  kf = none;
  last_err = none;
  next_try = 0;
  jwks_url = [];
  own_client = false;
  refreshing = false;
}

-- What the calls of one build come to.
pub record Build (Keys : Type 0) : Type 0 where
  pub trust_roots : Text → Option PemError
  pub discovery : Text → Reply
  pub new_keyfunc : Text → Option Keys

pub data Built (Keys : Type 0) : Type 0 where
  built : Keys → Text → Built Keys
  not_built : KeyError → Built Keys

pub data KeyAnswer (Keys : Type 0) : Type 0 where
  keys : Keys → KeyAnswer Keys
  no_keys : Option KeyError → KeyAnswer Keys

-- defaultResolverRetry
abbrev pub retry : ℕ
retry = 30000000000

module _ {Keys : Type 0} (parse_request_uri : Text → Option Url) where
  abbrev of_url : Text → Option Keys → Built Keys
  of_url url none = not_built no_key_set
  of_url url (some k) = built k url

  abbrev of_discovery : Build Keys → Discovered → Built Keys
  of_discovery b (undiscovered e) = not_built (discovery_failed e)
  of_discovery b (discovered doc) = of_url doc.jwks_uri (b.new_keyfunc doc.jwks_uri)

  abbrev of_endpoint : Build Keys → JwtSource → Built Keys
  of_endpoint b src =
      if is_empty src.jwks_url
      then of_discovery b
          (fetch_discovery parse_request_uri src.issuer (b.discovery src.oidc_discovery_url))
      else of_url src.jwks_url (b.new_keyfunc src.jwks_url)

  abbrev of_roots : Build Keys → JwtSource → Option PemError → Built Keys
  of_roots b src (some e) = not_built (bad_trust_roots e)
  of_roots b src none = of_endpoint b src

  unfoldable pub build : Build Keys → JwtSource → Built Keys
  unfolding fetch_discovery
  build b src = of_roots b src (if is_empty src.ca_cert then none else b.trust_roots src.ca_cert)

  abbrev store_built : ℕ → JwtSource → Resolver Keys → Built Keys → KeyAnswer Keys × Resolver Keys
  store_built ended src res (not_built e) =
      (no_keys (some e), record res { last_err = some e; next_try = ended + retry })
  store_built ended src res (built k url) = (
    keys k,
    record res {
      kf = some k;
      last_err = none;
      jwks_url = url;
      own_client = not (is_empty src.ca_cert);
      refreshing = true;
    },
  )

  abbrev unless_waiting :
      ℕ → ℕ → Build Keys → JwtSource → Resolver Keys → KeyAnswer Keys × Resolver Keys
  unless_waiting asked ended b src res =
      if ltb asked res.next_try
      then (no_keys res.last_err, res)
      else store_built ended src res (build b src)

  abbrev cached_or_built :
      ℕ → ℕ → Build Keys → JwtSource → Resolver Keys → Option Keys → KeyAnswer Keys × Resolver Keys
  cached_or_built asked ended b src res (some k) = (keys k, res)
  cached_or_built asked ended b src res none = unless_waiting asked ended b src res

  -- The part of Keyfunc under the resolver's own lock, begun at `asked`; a build that fails has ended
  -- at `ended`.
  unfoldable pub resolve :
      ℕ → ℕ → Build Keys → JwtSource → Resolver Keys → KeyAnswer Keys × Resolver Keys
  unfolding build
  resolve asked ended b src res = cached_or_built asked ended b src res res.kf
