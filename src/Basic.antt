-- ===== src/Basic.antt =====
-- internal/authn/basic.go: the verification of HTTP Basic credentials and its cache. A time is a
-- number of nanoseconds. The HMAC under the registry's key and the bcrypt comparison are
-- parameters; so is whether a comparison got its slot before the timeout.
pub mod Entries
pub mod Sound
pub mod Trace
mod Tests
use token_auth_proxy.Common.{
  ℕ, ◌+◌, ◌*◌, Bool, true, false, not, ◌&&◌, Option, none, some, List, [], ◌∷◌, ◌++◌, is_empty,
  if◌then◌else◌, ltb, leb, eqb, length,
}
use token_auth_proxy.Text.{Text, ◌==◌, join}
use token_auth_proxy.Config.{BasicUser, BasicSource, InboundAuth, basic_enabled}
use token_auth_proxy.Basic.Entries.{Cache, find, delete, put}

abbrev second : ℕ
second = 1000000000

abbrev pub basic_cache_ttl : ℕ
basic_cache_ttl = 300 * second

abbrev pub basic_negative_cache_ttl : ℕ
basic_negative_cache_ttl = 30 * second

abbrev pub max_basic_cache_entries : ℕ
max_basic_cache_entries = 4096

abbrev pub max_basic_negative_cache_entries : ℕ
max_basic_negative_cache_entries = 1024

abbrev pub max_basic_credential_len : ℕ
max_basic_credential_len = 1024

-- The configuration that was last seen is a pointer, here the address that it compares by.
pub record BasicRegistry : Type 0 where
  pub seen : Option ℕ
  pub fingerprint : Text
  pub cache : Cache
  pub negative : Cache

abbrev pub new_basic_registry : BasicRegistry
new_basic_registry = record { seen = none; fingerprint = []; cache = []; negative = [] }

unfoldable pub user_parts : List BasicUser → List Text
user_parts [] = []
user_parts (u ∷ us) = u.username ∷ u.password_hash ∷ user_parts us

unfoldable pub basic_fingerprint : BasicSource → Text
unfolding user_parts
basic_fingerprint b = join (0 ∷ []) (b.realm ∷ user_parts b.users)

abbrev enabled_fingerprint : InboundAuth → Text
enabled_fingerprint auth = elim auth.basic [
  | none ↦ []
  | some b ↦ if basic_enabled auth then basic_fingerprint b else []
]

abbrev pub is_seen : Option ℕ → ℕ → Bool
is_seen none cfg = false
is_seen (some s) cfg = eqb s cfg

-- The configuration at the address `cfg` holds `auth`.
unfoldable pub reconcile : ℕ → InboundAuth → BasicRegistry → BasicRegistry
unfolding basic_fingerprint
reconcile cfg auth r =
    let fp = enabled_fingerprint auth in
    if is_seen r.seen cfg
    then r
    else if fp == r.fingerprint
    then record r { seen = some cfg }
    else record { seen = some cfg; fingerprint = fp; cache = []; negative = [] }

-- The cached result, if one is live, and the registry without the expired entries that were met.
unfoldable pub lookup_negative : ℕ → Text → BasicRegistry → Option Bool × BasicRegistry
lookup_negative now key r = elim (find r.negative key) [
  | none ↦ (none, r)
  | some exp ↦
      if ltb now exp then (some false, r) else (none, record r { negative = delete key r.negative })
]

unfoldable pub lookup : ℕ → Text → BasicRegistry → Option Bool × BasicRegistry
unfolding lookup_negative
lookup now key r = elim (find r.cache key) [
  | none ↦ lookup_negative now key r
  | some exp ↦
      if ltb now exp
      then (some true, r)
      else lookup_negative now key (record r { cache = delete key r.cache })
]

abbrev pub room : ℕ → Cache → Cache
room most m = if leb most (length m) then [] else m

unfoldable pub store : ℕ → Text → Bool → BasicRegistry → BasicRegistry
store now key true r = record r {
  cache = put key (now + basic_cache_ttl) (room max_basic_cache_entries r.cache);
}
store now key false r = record r {
  negative =
      put key (now + basic_negative_cache_ttl) (room max_basic_negative_cache_entries r.negative);
}

-- The last user of the name decides.
unfoldable pub hash_from : Option Text → List BasicUser → Text → Option Text
hash_from hash [] username = hash
hash_from hash (u ∷ us) username =
    hash_from (if u.username == username then some u.password_hash else hash) us username

unfoldable pub hash_for : BasicSource → Text → Option Text
unfolding hash_from
hash_for src username = hash_from none src.users username

abbrev pub any_hash : List BasicUser → Text
any_hash [] = []
any_hash (u ∷ us) = u.password_hash

-- What bcrypt.CompareHashAndPassword returns.
pub data Compared : Type 0 where
  matched mismatched malformed : Compared

pub data Answer : Type 0 where
  verified : Bool → Answer
  saturated : Answer

-- What a call meets: the times at which it looks up and stores, and whether it gets a slot.
pub record Attempt : Type 0 where
  pub looked_up_at : ℕ
  pub stored_at : ℕ
  pub slot : Bool

abbrev pub is_match : Compared → Bool
is_match matched = true
is_match mismatched = false
is_match malformed = false

abbrev pub known_hash : BasicSource → Option Text → Text × Bool
known_hash src none = (any_hash src.users, false)
known_hash src (some hash) = (hash, true)

module _ (hmac : Text → Text) (compare_hash : Text → Text → Compared) where
  unfoldable pub key : Text → Text → Text → Text
  key fingerprint username password = hmac (fingerprint ++ (0 ∷ (username ++ (0 ∷ password))))

  abbrev compare_in : Bool → Text → Text → Option Bool
  compare_in false hash password = none
  compare_in true hash password = some (is_match (compare_hash hash password))

  abbrev answered : ℕ → Text → Bool → Option Bool → BasicRegistry → Answer × BasicRegistry
  answered now k known none r = (saturated, r)
  answered now k known (some ok) r = (verified (ok && known), store now k (ok && known) r)

  -- What is done when nothing is cached.
  abbrev verify_uncached :
      Attempt → Text → Text → Text × Bool → BasicRegistry → Answer × BasicRegistry
  verify_uncached a k password (hash, known) r =
      if is_empty hash
      then (verified false, r)
      else answered a.stored_at k known (compare_in a.slot hash password) r

  abbrev cached_or :
      Attempt
      → BasicSource
      → Text
      → Text
      → Text
      → Option Bool × BasicRegistry
      → Answer × BasicRegistry
  cached_or a src username password k (some ok, r) = (verified ok, r)
  cached_or a src username password k (none, r) =
      verify_uncached a k password (known_hash src (hash_for src username)) r

  unfoldable pub verify :
      Attempt → BasicSource → Text → Text → BasicRegistry → Answer × BasicRegistry
  unfolding basic_fingerprint key lookup store hash_for
  verify a src username password r =
      let k = key (basic_fingerprint src) username password in
      if ltb max_basic_credential_len (length username + length password)
      then (verified false, r)
      else cached_or a src username password k (lookup a.looked_up_at k r)
