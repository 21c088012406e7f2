-- ===== src/Login/Endpoints.antt =====
-- internal/authn/login.go: the endpoints of an identity provider, kept for each source from its discovery
-- document. HTTP and JSON are parameters, as is parsing a URI. Times are in nanoseconds.
use token_auth_proxy.Common.{
  ℕ, ◌+◌, ◌≡◌, refl, sym, ap, ◌∙◌, subst, Bool, true, false, not, Option, none, some, List, [], ◌∷◌,
  ◌++◌, is_empty, ltb, All, map, if◌then◌else◌, ◌before◌, arith,
}
use token_auth_proxy.Text.{Text, ◌==◌, ==_iff}
use token_auth_proxy.Config.{JwtSource}
use token_auth_proxy.Config.Urls.{check_url}
use token_auth_proxy.Config.Pem.{PemError}
use token_auth_proxy.Oauth.Clients.{Url, UriError}
use token_auth_proxy.Keys.{
  Document, Reply, DiscoveryError, Discovered, discovered, undiscovered, fetch_discovery,
}

-- loginRetry and loginEndpointsTTL
abbrev pub login_retry : ℕ
login_retry = 30000000000

abbrev pub endpoints_ttl : ℕ
endpoints_ttl = 3600000000000

pub record Endpoints : Type 0 where
  pub auth_url : Text
  pub token_url : Text
  pub end_session_url : Text
  pub expires : ℕ

pub data EndpointError : Type 0 where
  bad_client_roots : PemError → EndpointError
  no_discovery : DiscoveryError → EndpointError
  bad_endpoint : UriError → EndpointError

pub data FetchedEndpoints : Type 0 where
  has_endpoints : Endpoints → FetchedEndpoints
  no_endpoints : EndpointError → FetchedEndpoints

pub record LoginSlot : Type 0 where
  pub slot_fingerprint : Text
  pub good : Option Endpoints
  pub fail_err : Option EndpointError
  pub next_try : ℕ

abbrev pub new_slot : LoginSlot
new_slot = record { slot_fingerprint = []; good = none; fail_err = none; next_try = 0 }

-- loginFingerprint
unfoldable pub login_fingerprint : JwtSource → Text
login_fingerprint j = j.issuer ++ ((0 ∷ []) ++ (j.oidc_discovery_url ++ ((0 ∷ []) ++ j.ca_cert)))

module _ (parse_request_uri : Text → Option Url) where
  abbrev checked_endpoints : Text → Option UriError → Text
  checked_endpoints url none = url
  checked_endpoints url (some e) = []

  abbrev of_checks : ℕ → Document → Option UriError → FetchedEndpoints
  of_checks ended doc (some e) = no_endpoints (bad_endpoint e)
  of_checks ended doc none = has_endpoints (record {
    auth_url = doc.authorization_endpoint;
    token_url = doc.token_endpoint;
    end_session_url =
        checked_endpoints doc.end_session_endpoint
          (check_url parse_request_uri doc.end_session_endpoint);
    expires = ended + endpoints_ttl;
  })

  abbrev of_document : ℕ → Discovered → FetchedEndpoints
  of_document ended (undiscovered e) = no_endpoints (no_discovery e)
  of_document ended (discovered doc) = of_checks ended doc (
      check_url parse_request_uri doc.authorization_endpoint
      before check_url parse_request_uri doc.token_endpoint)

  abbrev of_client : ℕ → Reply → JwtSource → Option PemError → FetchedEndpoints
  of_client ended r src (some e) = no_endpoints (bad_client_roots e)
  of_client ended r src none = of_document ended (fetch_discovery parse_request_uri src.issuer r)

  -- fetchEndpoints
  unfoldable pub fetch_endpoints :
      (Text → Option PemError) → ℕ → Reply → JwtSource → FetchedEndpoints
  unfolding fetch_discovery check_url
  fetch_endpoints trust_roots ended r src =
      of_client ended r src (if is_empty src.ca_cert then none else trust_roots src.ca_cert)

abbrev pub for_login : Text → LoginSlot → LoginSlot
for_login fp slot =
    if not (slot.slot_fingerprint == fp)
    then record { slot_fingerprint = fp; good = none; fail_err = none; next_try = 0 }
    else slot

-- What was fetched last, or the error where there is nothing.
abbrev pub last_good : Option Endpoints → EndpointError → FetchedEndpoints
last_good none e = no_endpoints e
last_good (some g) e = has_endpoints g

abbrev pub store_endpoints : ℕ → FetchedEndpoints → LoginSlot → FetchedEndpoints × LoginSlot
store_endpoints ended (has_endpoints e) slot =
    (has_endpoints e, record slot { good = some e; fail_err = none })
store_endpoints ended (no_endpoints x) slot =
    (last_good slot.good x, record slot { fail_err = some x; next_try = ended + login_retry })

abbrev pub unless_failed :
    ℕ → ℕ → FetchedEndpoints → LoginSlot → Option EndpointError → FetchedEndpoints × LoginSlot
unless_failed asked ended f slot none = store_endpoints ended f slot
unless_failed asked ended f slot (some x) =
    if ltb asked slot.next_try then (last_good slot.good x, slot) else store_endpoints ended f slot

abbrev pub unless_current :
    ℕ → ℕ → FetchedEndpoints → LoginSlot → Option Endpoints → FetchedEndpoints × LoginSlot
unless_current asked ended f slot none = unless_failed asked ended f slot slot.fail_err
unless_current asked ended f slot (some g) =
    if ltb asked g.expires
    then (has_endpoints g, slot)
    else unless_failed asked ended f slot slot.fail_err

-- LoginRegistry.endpoints on the slot of the source's name, asked at a time; a fetch has ended at another.
unfoldable pub endpoints :
    ℕ → ℕ → FetchedEndpoints → JwtSource → LoginSlot → FetchedEndpoints × LoginSlot
unfolding login_fingerprint
endpoints asked ended f src slot =
    let slot' = for_login (login_fingerprint src) slot in
    unless_current asked ended f slot' slot'.good

-- A request that is made at a time, and whose fetch, if it makes one, fails.
pub record FailedCall : Type 0 where
  pub by : JwtSource
  pub asked : ℕ
  pub ended : ℕ
  pub why : EndpointError

abbrev pub failing : FailedCall → LoginSlot → FetchedEndpoints × LoginSlot
failing c slot = endpoints c.asked c.ended (no_endpoints c.why) c.by slot

unfoldable pub failing_answers : List FailedCall → LoginSlot → List FetchedEndpoints
failing_answers [] slot = []
failing_answers (c ∷ cs) slot =
    let (answer, slot') = failing c slot in answer ∷ failing_answers cs slot'

pub record Holding (g : Endpoints) (fp : Text) (slot : LoginSlot) : Type 0 where
  pub same_settings : slot.slot_fingerprint ≡ fp
  pub held : slot.good ≡ some g

same_slot : (fp : Text) (slot : LoginSlot) → slot.slot_fingerprint ≡ fp → for_login fp slot ≡ slot
same_slot fp slot e = go (slot.slot_fingerprint == fp) ((==_iff slot.slot_fingerprint fp).1 e)
  where
    go :
        (b : Bool)
        → b ≡ true
        → (if not b
            then record { slot_fingerprint = fp; good = none; fail_err = none; next_try = 0 }
            else slot)
          ≡ slot
    go true t = refl
    go false t = absurd cc

unless_current-Holding :
    (asked ended : ℕ) (x : EndpointError) (slot : LoginSlot) (fp : Text) (g : Endpoints)
    (o : Option Endpoints)
    → slot.slot_fingerprint ≡ fp
    → slot.good ≡ o
    → o ≡ some g
    → let r = unless_current asked ended (no_endpoints x) slot o in
      (r.0 ≡ has_endpoints g) × Holding g fp r.1
unless_current-Holding asked ended x slot fp g o e q h = ground (arith, e, q, h)

failing-Holding :
    (c : FailedCall) (slot : LoginSlot) (g : Endpoints)
    → Holding g (login_fingerprint c.by) slot
    → ((failing c slot).0 ≡ has_endpoints g) × Holding g (login_fingerprint c.by) (failing c slot).1
unfolding endpoints
failing-Holding c slot g h =
    let fp = login_fingerprint c.by in
    subst
      (λ s.
        let r = unless_current c.asked c.ended (no_endpoints c.why) s s.good in
        (r.0 ≡ has_endpoints g) × Holding g fp r.1)
      (sym (same_slot fp slot h.same_settings))
      (unless_current-Holding c.asked c.ended c.why slot fp g slot.good h.same_settings refl h.held)

-- Once the endpoints were fetched, requests for a source of the same settings are answered with them for
-- as long as every fetch fails, however long ago they expired.
pub failing_answers_last_good :
    (cs : List FailedCall) (slot : LoginSlot) (fp : Text) (g : Endpoints)
    → Holding g fp slot
    → All (λ c. login_fingerprint c.by ≡ fp) cs
    → failing_answers cs slot ≡ map (λ c. has_endpoints g) cs
unfolding failing_answers
failing_answers_last_good [] slot fp g h a = refl
failing_answers_last_good (c ∷ cs) slot fp g h (e, a) =
    let (answer, next) =
      failing-Holding c slot g
        (record { same_settings = h.same_settings ∙ sym e; held = h.held }) in
    let rest =
      failing_answers_last_good cs (failing c slot).1 fp g
        (record { same_settings = next.same_settings ∙ e; held = next.held }) a in
    ap (λ x. x ∷ failing_answers cs (failing c slot).1) answer ∙ ap (λ r. has_endpoints g ∷ r) rest
