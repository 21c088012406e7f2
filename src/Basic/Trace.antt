-- ===== src/Basic/Trace.antt =====
-- The registry under concurrent requests: each of the steps below holds the registry's lock, and
-- steps of different requests come in any order. A store comes at any time after its comparison,
-- even when the configuration has changed meanwhile.
pub mod Bounds
use token_auth_proxy.Common.{
  ℕ, ◌+◌, ◌≤◌, ◌≡◌, refl, ap, ◌∙◌, sym, ◌↔◌, ◌⊎◌, inl, inr, Bool, true, false, Option, none, some,
  List, [], ◌∷◌, if◌then◌else◌, eqb, length, All, Bool-cases, subst,
}
use token_auth_proxy.Text.{Text, ◌==◌}
use token_auth_proxy.Config.{BasicSource, InboundAuth}
use token_auth_proxy.Basic.{
  BasicRegistry, new_basic_registry, reconcile, lookup, store, Compared, Answer, verified,
  saturated, Attempt, verify, is_seen, enabled_fingerprint,
}
use token_auth_proxy.Basic.Sound.{
  Delimited, checked, key_of, From, Sound, lookup-Sound, store-Sound, Answers, verify-checked,
}
use token_auth_proxy.Basic.Sound.Credential.{Valid, checked_iff}

module _ (hmac : Text → Text) (compare_hash : Text → Text → Compared) where
  -- The registry may be so at a time.
  pub data Reachable : ℕ → BasicRegistry → Type 0 where
    start : Reachable 0 new_basic_registry
    tick : {t t' : ℕ} {r : BasicRegistry} → t ≤ t' → Reachable t r → Reachable t' r
    reconciled :
        {t : ℕ} {r : BasicRegistry} (cfg : ℕ) (auth : InboundAuth)
        → Reachable t r
        → Reachable t (reconcile cfg auth r)
    looked_up :
        {t : ℕ} {r : BasicRegistry} (k : Text) → Reachable t r → Reachable t (lookup t k r).1
    stored :
        {t : ℕ} {r : BasicRegistry} (src : BasicSource) (u p : Text) (b : Bool)
        → Delimited src u p
        → checked hmac compare_hash src u p ≡ b
        → Reachable t r
        → Reachable t (store t (key_of hmac compare_hash src u p) b r)

  reconcile-Sound :
      (cfg : ℕ) (auth : InboundAuth) (r : BasicRegistry)
      → Sound hmac compare_hash r
      → Sound hmac compare_hash (reconcile cfg auth r)
  unfolding reconcile
  reconcile-Sound cfg auth r s = elim (Bool-cases (is_seen r.seen cfg)) [
    | inl t ↦ rw (t, reconcile) s
    | inr f ↦ elim (Bool-cases (enabled_fingerprint auth == r.fingerprint)) [
      | inl t ↦ rw (f, reconcile) (rw t (record { cache = s.cache; negative = s.negative }))
      | inr g ↦ rw (f, reconcile) (rw g (record { cache = tt; negative = tt }))
    ]
  ]

  pub Reachable-Sound : {t : ℕ} {r : BasicRegistry} → Reachable t r → Sound hmac compare_hash r
  Reachable-Sound start = record { cache = tt; negative = tt }
  Reachable-Sound (tick le h) = Reachable-Sound h
  Reachable-Sound {r = _} (reconciled {r = r} cfg auth h) =
      reconcile-Sound cfg auth r (Reachable-Sound h)
  Reachable-Sound (looked_up {t = t} {r = r} k h) =
      (lookup-Sound hmac compare_hash t k r (Reachable-Sound h)).sound
  Reachable-Sound (stored {t = t} {r = r} src u p b d c h) =
      store-Sound hmac compare_hash t src u p b r d c (Reachable-Sound h)

  -- After any sequence of steps of any requests, a call either got no slot for its comparison, or
  -- it answers true exactly if the credential is valid under the source it is given; provided that HMAC values do not collide and no text holds the byte that separates them in a key.
  pub verify-Valid :
      (hmac_injective : (s t : Text) → hmac s ≡ hmac t → s ≡ t)
      → (t : ℕ) (r : BasicRegistry) (a : Attempt) (src : BasicSource) (u p : Text) → Reachable t r
      → Delimited src u p
      → (((verify hmac compare_hash a src u p r).0 ≡ saturated) × (a.slot ≡ false))
        ⊎ ((b : Bool) × ((verify hmac compare_hash a src u p r).0 ≡ verified b)
            × ((b ≡ true) ↔ Valid hmac compare_hash src u p))
  verify-Valid hmac_injective t r a src u p h d =
      let (answers, _) =
        verify-checked hmac compare_hash hmac_injective a src u p r d (Reachable-Sound h) in
      answered (verify hmac compare_hash a src u p r).0 answers
    where
      answered :
          (q : Answer)
          → Answers hmac compare_hash a src u p q
          → ((q ≡ saturated) × (a.slot ≡ false))
            ⊎ ((b : Bool) × (q ≡ verified b) × ((b ≡ true) ↔ Valid hmac compare_hash src u p))
      answered saturated e = inl (refl, e)
      answered (verified b) e = inr (
        b,
        refl,
        subst (λ x. (x ≡ true) ↔ Valid hmac compare_hash src u p) e
            (checked_iff hmac compare_hash src u p),
      )
