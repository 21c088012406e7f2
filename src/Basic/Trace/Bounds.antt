-- ===== src/Basic/Trace/Bounds.antt =====
-- How large the caches get, and how long an entry lives.
use token_auth_proxy.Common.{
  ℕ, ◌+◌, ◌≤◌, ◌<◌, inl, inr, Bool, true, false, [], ◌∷◌, ltb, leb, length, All, Bool-cases,
  Option-cases, arith,
}
use token_auth_proxy.Text.{Text, ◌==◌}
use token_auth_proxy.Config.{InboundAuth}
use token_auth_proxy.Basic.{
  BasicRegistry, reconcile, lookup, lookup_negative, store, room, Compared, is_seen,
  enabled_fingerprint, basic_cache_ttl, basic_negative_cache_ttl, max_basic_cache_entries,
  max_basic_negative_cache_entries,
}
use token_auth_proxy.Basic.Entries.{Cache, find, delete, put, All-delete, length-delete}
use token_auth_proxy.Basic.Sound.{key_of}
use token_auth_proxy.Basic.Trace.{Reachable, start, tick, reconciled, looked_up, stored}

-- A cache at the time `t`: it has room for `most` entries, and none lives longer than `ttl`.
pub record Within (most ttl t : ℕ) (m : Cache) : Type 0 where
  pub size : length m ≤ most
  pub expiry : All (λ (k, exp). exp ≤ t + ttl) m

abbrev pub Bounded : ℕ → BasicRegistry → Type 0
Bounded t r =
    Within max_basic_cache_entries basic_cache_ttl t r.cache
    × Within max_basic_negative_cache_entries basic_negative_cache_ttl t r.negative

Within-empty : (most ttl t : ℕ) → Within most ttl t []
Within-empty most ttl t = record { size = omega arith; expiry = tt }

Within-delete :
    (most ttl t : ℕ) (key : Text) (m : Cache)
    → Within most ttl t m
    → Within most ttl t (delete key m)
Within-delete most ttl t key m w = record {
  size = let s = w.size in let d = length-delete key m in omega (arith, s, d);
  expiry = All-delete (λ (k, exp). exp ≤ t + ttl) key m w.expiry;
}

Within-later : (most ttl t t' : ℕ) (m : Cache) → t ≤ t' → Within most ttl t m → Within most ttl t' m
Within-later most ttl t t' m le w = record { size = w.size; expiry = later m w.expiry }
  where
    later : (m : Cache) → All (λ (k, exp). exp ≤ t + ttl) m → All (λ (k, exp). exp ≤ t' + ttl) m
    later [] h = tt
    later ((k, exp) ∷ m) (h, hs) = (omega (arith, h, le), later m hs)

-- A cache that is full is emptied before an entry is put into it.
Within-put :
    (most ttl t : ℕ) (key : Text) (m : Cache)
    → 0 < most
    → Within most ttl t m
    → Within most ttl t (put key (t + ttl) (room most m))
unfolding put
Within-put most ttl t key m pos w = elim (Bool-cases (leb most (length m))) [
  | inl full ↦
      rw (full, room)
        (unfold delete in record { size = omega (arith, pos); expiry = (omega arith, tt) })
  | inr f ↦
      rw (f, room)
        (record {
          size =
              let d = length-delete key m in
              let s : length m < most = ground arith in omega (arith, d, s);
          expiry = (omega arith, All-delete (λ (k, exp). exp ≤ t + ttl) key m w.expiry);
        })
]

reconcile-Bounded :
    (t cfg : ℕ) (auth : InboundAuth) (r : BasicRegistry)
    → Bounded t r
    → Bounded t (reconcile cfg auth r)
unfolding reconcile
reconcile-Bounded t cfg auth r b = elim (Bool-cases (is_seen r.seen cfg)) [
  | inl s ↦ rw (s, reconcile) b
  | inr f ↦ elim (Bool-cases (enabled_fingerprint auth == r.fingerprint)) [
    | inl e ↦ rw (f, reconcile) (rw e b)
    | inr g ↦ rw (f, reconcile) (rw g (Within-empty _ _ t, Within-empty _ _ t))
  ]
]

negative-Bounded :
    (t : ℕ) (k : Text) (r : BasicRegistry) → Bounded t r → Bounded t (lookup_negative t k r).1
unfolding lookup_negative
negative-Bounded t k r (c, n) = elim (Option-cases (find r.negative k)) [
  | inl m ↦ rw (m, lookup_negative) (c, n)
  | inr (exp, e) ↦ elim (Bool-cases (ltb t exp)) [
    | inl l ↦ rw (e, lookup_negative) (rw l (c, n))
    | inr f ↦ rw (e, lookup_negative) (rw f (c, Within-delete _ _ t k r.negative n))
  ]
]

lookup-Bounded : (t : ℕ) (k : Text) (r : BasicRegistry) → Bounded t r → Bounded t (lookup t k r).1
unfolding lookup
lookup-Bounded t k r (c, n) = elim (Option-cases (find r.cache k)) [
  | inl m ↦ rw (m, lookup) (negative-Bounded t k r (c, n))
  | inr (exp, e) ↦ elim (Bool-cases (ltb t exp)) [
    | inl l ↦ rw (e, lookup) (rw l (c, n))
    | inr f ↦
        rw (e, lookup)
          (rw f (
            negative-Bounded t k (record r { cache = delete k r.cache })
              (Within-delete _ _ t k r.cache c, n)))
  ]
]

store-Bounded :
    (t : ℕ) (k : Text) (b : Bool) (r : BasicRegistry) → Bounded t r → Bounded t (store t k b r)
unfolding store
store-Bounded t k true r (c, n) =
    (Within-put max_basic_cache_entries basic_cache_ttl t k r.cache (omega arith) c, n)
store-Bounded t k false r (c, n) = (
  c,
  Within-put max_basic_negative_cache_entries basic_negative_cache_ttl t k r.negative (omega arith)
      n,
)

module _ (hmac : Text → Text) (compare_hash : Text → Text → Compared) where
  -- After any sequence of steps, the two caches hold at most 4096 and 1024 entries, and no entry
  -- outlives the present by more than five minutes, or thirty seconds for a failure.
  pub Reachable-Bounded :
      (t : ℕ) (r : BasicRegistry) → Reachable hmac compare_hash t r → Bounded t r
  Reachable-Bounded t r start = (Within-empty _ _ _, Within-empty _ _ _)
  Reachable-Bounded t r (tick {t = s} {t' = t'} {r = q} le h) =
      let (c, n) = Reachable-Bounded s q h in
      (Within-later _ _ s t' q.cache le c, Within-later _ _ s t' q.negative le n)
  Reachable-Bounded t r (reconciled {t = s} {r = q} cfg auth h) =
      reconcile-Bounded s cfg auth q (Reachable-Bounded s q h)
  Reachable-Bounded t r (looked_up {t = s} {r = q} k h) =
      lookup-Bounded s k q (Reachable-Bounded s q h)
  Reachable-Bounded t r (stored {t = s} {r = q} src u p b d c h) =
      store-Bounded s (key_of hmac compare_hash src u p) b q (Reachable-Bounded s q h)
