-- ===== src/Keys/Registry.antt =====
-- internal/authn/jwks.go: the registry of the sources' signing keys. Resolvers are objects that
-- requests hold on to, so they stand in a heap, and the map gives the address of one. The way a
-- duration is written is a parameter.
pub mod Sources
pub mod Same
pub mod Desired
pub mod Trace
use token_auth_proxy.Common.{
  ℕ, suc, ◌+◌, Bool, true, false, not, ◌&&◌, ◌||◌, Option, none, some, List, [], ◌∷◌, ◌++◌, eqb,
  if◌then◌else◌,
}
use token_auth_proxy.Text.{Text, ◌==◌}
use token_auth_proxy.Config.{JwtSource}
use token_auth_proxy.Basic.Entries.{Cache, find, delete}
use token_auth_proxy.Basic.{is_seen}
use token_auth_proxy.Oauth.Clients.{Url}
use token_auth_proxy.Keys.{
  Resolver, new_resolver, Build, KeyAnswer, keys, no_keys, no_local_keys, resolve,
}

pub record KeyRegistry (Keys : Type 0) : Type 0 where
  -- The address of the configuration that was reconciled last.
  pub seen : Option ℕ
  pub resolvers : Cache
  pub heap : ℕ → Resolver Keys
  -- The address of the next resolver.
  pub next : ℕ

abbrev pub update : {A : Type 0} → (ℕ → A) → ℕ → A → ℕ → A
update f i v j = if eqb i j then v else f j

abbrev pub nul : Text
nul = 0 ∷ []

abbrev pub wanted : JwtSource → Bool
wanted j = not (j.disabled || j.is_local)

abbrev pub is_desired : Option Text → Text → Bool
is_desired none fp = false
is_desired (some want) fp = want == fp

abbrev missing : Option ℕ → Bool
missing none = true
missing (some id) = false

module _ (show_duration : ℕ → Text) where
  unfoldable pub fingerprint : JwtSource → Text
  fingerprint j =
      j.jwks_url
      ++ (nul
          ++ (j.oidc_discovery_url
              ++ (nul ++ (show_duration j.jwks_cache_ttl ++ (nul ++ j.ca_cert)))))

  abbrev pub or_this : JwtSource → Text → Option Text → Option Text
  or_this j name (some fp) = some fp
  or_this j name none = if wanted j && j.name == name then some (fingerprint j) else none

  -- The fingerprint that the configuration asks for under a name; the last source of a name counts.
  unfoldable pub desired : List JwtSource → Text → Option Text
  desired [] name = none
  desired (j ∷ js) name = or_this j name (desired js name)

module _ {Keys : Type 0} (show_duration : ℕ → Text) where
  -- resolver.close
  unfoldable pub close : ℕ → KeyRegistry Keys → KeyRegistry Keys
  close id reg = record reg {
    heap = update reg.heap id (record (reg.heap id) { refreshing = false });
  }

  unfoldable pub allocate : Text → Text → KeyRegistry Keys → KeyRegistry Keys
  allocate name fp reg = record reg {
    resolvers = (name, reg.next) ∷ delete name reg.resolvers;
    heap = update reg.heap reg.next (new_resolver fp);
    next = suc reg.next;
  }

  -- An entry that is missing or stands for other settings is replaced, and the next Reconcile is
  -- made to look again.
  abbrev renewed_entry : JwtSource → Option ℕ → KeyRegistry Keys → (ℕ × Option ℕ) × KeyRegistry Keys
  renewed_entry src stale reg = (
    (reg.next, stale),
    record (allocate src.name (fingerprint show_duration src) reg) { seen = none },
  )

  abbrev entry_or_new : JwtSource → KeyRegistry Keys → Option ℕ → (ℕ × Option ℕ) × KeyRegistry Keys
  entry_or_new src reg none = renewed_entry src none reg
  entry_or_new src reg (some id) =
      if not ((reg.heap id).fingerprint == fingerprint show_duration src)
      then renewed_entry src (some id) reg
      else ((id, none), reg)

  -- The part of Keyfunc under the registry's lock: the resolver of the source, and the stale one.
  unfoldable pub look_up : JwtSource → KeyRegistry Keys → (ℕ × Option ℕ) × KeyRegistry Keys
  unfolding fingerprint allocate
  look_up src reg = entry_or_new src reg (find reg.resolvers src.name)

  abbrev still : (ℕ → Resolver Keys) → List JwtSource → Text × ℕ → Bool
  still heap js (name, id) = is_desired (desired show_duration js name) (heap id).fingerprint

  -- The entries that are kept, and the addresses of those that are not.
  unfoldable pub kept : (ℕ → Resolver Keys) → List JwtSource → Cache → Cache
  kept heap js [] = []
  kept heap js (e ∷ es) = let rest = kept heap js es in if still heap js e then e ∷ rest else rest

  unfoldable pub evicted : (ℕ → Resolver Keys) → List JwtSource → Cache → List ℕ
  evicted heap js [] = []
  evicted heap js ((name, id) ∷ es) =
      let rest = evicted heap js es in if still heap js (name, id) then rest else id ∷ rest

  abbrev add_if_missing : JwtSource → KeyRegistry Keys → KeyRegistry Keys
  add_if_missing j reg =
      if wanted j && missing (find reg.resolvers j.name)
      then allocate j.name (fingerprint show_duration j) reg
      else reg

  unfoldable pub add_missing : List JwtSource → KeyRegistry Keys → KeyRegistry Keys
  unfolding allocate fingerprint
  add_missing [] reg = reg
  add_missing (j ∷ js) reg = add_if_missing j (add_missing js reg)

  -- The part of Reconcile under the registry's lock, for the configuration at the address `cfg`: the
  -- resolvers to be closed after it.
  unfoldable pub reconcile : ℕ → List JwtSource → KeyRegistry Keys → List ℕ × KeyRegistry Keys
  unfolding kept evicted add_missing desired
  reconcile cfg js reg = if is_seen reg.seen cfg then ([], reg) else (
    evicted reg.heap js reg.resolvers,
    record (add_missing js (record reg { resolvers = kept reg.heap js reg.resolvers })) {
      seen = some cfg;
    },
  )

  -- Keyfunc for the source of the tokens that the proxy issues itself.
  unfoldable local_keys : Option Keys → KeyAnswer Keys
  local_keys none = no_keys (some no_local_keys)
  local_keys (some k) = keys k

  abbrev close_stale : Option ℕ → KeyRegistry Keys → KeyRegistry Keys
  close_stale none reg = reg
  close_stale (some id) reg = close id reg

  unfoldable pub close_all : List ℕ → KeyRegistry Keys → KeyRegistry Keys
  unfolding close
  close_all [] reg = reg
  close_all (id ∷ ids) reg = close_all ids (close id reg)

  -- Reconcile, undisturbed.
  unfoldable pub reconcile_all : ℕ → List JwtSource → KeyRegistry Keys → KeyRegistry Keys
  unfolding reconcile close_all
  reconcile_all cfg js reg = let (stale, reg') = reconcile cfg js reg in close_all stale reg'

  -- Keyfunc for another source, undisturbed: `ended` is when a build that fails has ended.
  unfoldable pub shared :
      (Text → Option Url)
      → ℕ
      → ℕ
      → Build Keys
      → JwtSource
      → KeyRegistry Keys
      → KeyAnswer Keys × KeyRegistry Keys
  unfolding look_up close resolve
  shared parse_request_uri asked ended b src reg =
      let ((id, stale), found) = look_up src reg in
      let reg' = close_stale stale found in
      let (answer, res) = resolve parse_request_uri asked ended b src (reg'.heap id) in
      (answer, record reg' { heap = update reg'.heap id res })

  unfoldable pub keyfunc :
      (Text → Option Url)
      → Option Keys
      → ℕ
      → ℕ
      → Build Keys
      → JwtSource
      → KeyRegistry Keys
      → KeyAnswer Keys × KeyRegistry Keys
  unfolding local_keys shared
  keyfunc parse_request_uri own asked ended b src reg =
      if src.is_local then (local_keys own, reg) else shared parse_request_uri asked ended b src reg
