-- ===== src/Saml/Registry/Serves.antt =====
-- internal/authn/saml.go: that a provider, once built, goes on being served, and when its metadata is
-- next due.
use token_auth_proxy.Common.{
  ℕ, ◌+◌, ◌≤◌, ◌≡◌, refl, sym, ◌∙◌, subst, ◌⊎◌, Bool, true, false, not, Option, none, some, List,
  [], ◌∷◌, All, if◌then◌else◌, arith,
}
use token_auth_proxy.Text.{Text, ◌==◌, ==_iff}
use token_auth_proxy.Config.{SamlSource}
use token_auth_proxy.Saml.Registry.{
  SamlRegistry, Fetched, Provided, provided, not_provided, refresh_at, min_refresh,
  saml_fingerprint, for_fingerprint, provided_by, provider, refresh_of, refresh_now,
}

-- What may come to the registry: a request, and the second chance of a called_back that failed.
pub data Call (P : Type 0) : Type 0 where
  request : ℕ → ℕ → Fetched P → SamlSource → Call P
  called_back : ℕ → Fetched P → SamlSource → Call P

abbrev pub source_of : {P : Type 0} → Call P → SamlSource
source_of (request asked ended f src) = src
source_of (called_back now f src) = src

abbrev pub IsProvided : {P : Type 0} → Provided P → Type 0
IsProvided (provided p) = Unit
IsProvided (not_provided e) = ⊥

abbrev pub IsBuilt : {P : Type 0} → Option P → Type 0
IsBuilt none = ⊥
IsBuilt (some p) = Unit

module _ {P : Type 0} (show_duration : ℕ → Text) where
  -- What the requests among the calls are answered with.
  unfoldable pub answers : List (Call P) → SamlRegistry P → List (Provided P)
  answers [] reg = []
  answers (request asked ended f src ∷ cs) reg =
      let (answer, reg') = provider show_duration asked ended f src reg in answer ∷ answers cs reg'
  answers (called_back now f src ∷ cs) reg = answers cs (refresh_now show_duration now f src reg).1

  pub record Serving (fp : Text) (reg : SamlRegistry P) : Type 0 where
    pub for_this : reg.fingerprint ≡ fp
    pub built : IsBuilt reg.provider

  provided_by-Serving :
      (asked ended : ℕ) (f : Fetched P) (src : SamlSource) (reg : SamlRegistry P) (fp : Text)
      (o : Option P)
      → reg.fingerprint ≡ fp
      → reg.provider ≡ o
      → IsBuilt o
      → let r = provided_by show_duration asked ended f src reg o in IsProvided r.0 × Serving fp r.1
  provided_by-Serving asked ended f src reg fp none e q b = absurd b
  provided_by-Serving asked ended f src reg fp (some p) e q b = ground (arith, e, q)

  same_registry :
      (fp : Text) (reg : SamlRegistry P)
      → reg.fingerprint ≡ fp
      → for_fingerprint show_duration fp reg ≡ reg
  same_registry fp reg e = go (fp == reg.fingerprint) ((==_iff fp reg.fingerprint).1 (sym e))
    where
      go :
          (b : Bool)
          → b ≡ true
          → (if b
              then reg
              else record reg { fingerprint = fp; provider = none; last_err = none; next_try = 0 })
            ≡ reg
      go true t = refl
      go false t = absurd cc

  provider-Serving :
      (asked ended : ℕ) (f : Fetched P) (src : SamlSource) (reg : SamlRegistry P)
      → Serving (saml_fingerprint show_duration src) reg
      → let r = provider show_duration asked ended f src reg in
        IsProvided r.0 × Serving (saml_fingerprint show_duration src) r.1
  unfolding provider
  provider-Serving asked ended f src reg s =
      let fp = saml_fingerprint show_duration src in
      subst
        (λ g.
          let r = provided_by show_duration asked ended f src g g.provider in
          IsProvided r.0 × Serving fp r.1)
        (sym (same_registry fp reg s.for_this))
        (provided_by-Serving asked ended f src reg fp reg.provider s.for_this refl s.built)

  refresh_of-Serving :
      (now : ℕ) (f : Fetched P) (src : SamlSource) (reg : SamlRegistry P) (fp : Text) (o : Option P)
      → Serving fp reg
      → Serving fp (refresh_of show_duration now f src reg o).1
  refresh_of-Serving now f src reg fp o s = ground (arith, s.for_this, s.built)

  refresh_now-Serving :
      (now : ℕ) (f : Fetched P) (src : SamlSource) (reg : SamlRegistry P) (fp : Text)
      → Serving fp reg
      → Serving fp (refresh_now show_duration now f src reg).1
  unfolding refresh_now
  refresh_now-Serving now f src reg fp s =
      go (saml_fingerprint show_duration src == reg.fingerprint)
    where
      go :
          (b : Bool)
          → Serving fp
              (if◌then◌else◌ {A = Option P × SamlRegistry P}
                (not b)
                (none, reg)
                (refresh_of show_duration now f src reg reg.provider)).1
      go true = refresh_of-Serving now f src reg fp reg.provider s
      go false = s

  -- Once there is a provider, every request for a source of the same settings is answered with one,
  -- whatever time it is and whatever comes of the fetches, those for callbacks among them: a refresh that
  -- fails never turns the requests away.
  pub answers-IsProvided :
      (fp : Text) (cs : List (Call P)) (reg : SamlRegistry P)
      → reg.fingerprint ≡ fp
      → IsBuilt reg.provider
      → All (λ c. saml_fingerprint show_duration (source_of c) ≡ fp) cs
      → All IsProvided (answers cs reg)
  unfolding answers
  answers-IsProvided fp [] reg e b a = tt
  answers-IsProvided fp (request asked ended f src ∷ cs) reg e b (q, a) =
      let serving : Serving (saml_fingerprint show_duration src) reg = record {
        for_this = e ∙ sym q;
        built = b;
      } in
      let (now, later) = provider-Serving asked ended f src reg serving in
      (now, answers-IsProvided fp cs _ (later.for_this ∙ q) later.built a)
  answers-IsProvided fp (called_back now f src ∷ cs) reg e b (q, a) =
      let later = refresh_now-Serving now f src reg fp (record { for_this = e; built = b }) in
      answers-IsProvided fp cs _ later.for_this later.built a

-- Metadata is due again no later than its cache time after the fetch and, where that is longer than a
-- minute, no sooner than a minute after it; a certificate that expires earlier makes it due when it
-- expires, or after that minute.
pub refresh_at-bounds :
    (now ttl : ℕ) (expiry : Option ℕ)
    → let at = refresh_at now ttl expiry in
      (at ≤ now + ttl)
      × (min_refresh ≤ ttl → now + min_refresh ≤ at)
      × ((t : ℕ) → expiry ≡ some t → (at ≤ t) ⊎ (at ≤ now + min_refresh))
unfolding refresh_at
refresh_at-bounds now ttl none = (omega arith, λ h. omega arith, λ t h. absurd cc)
refresh_at-bounds now ttl (some e) = (ground arith, λ h. ground arith, λ t h. ground arith)
