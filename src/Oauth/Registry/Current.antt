-- ===== src/Oauth/Registry/Current.antt =====
-- internal/oauth/server.go: the server that runs is that of the configuration.
use token_auth_proxy.Common.{
  ℕ, ◌≡◌, refl, sym, ap, ◌∙◌, Bool, true, false, not, Option, none, some, List, [], ◌∷◌,
  if◌then◌else◌, subst, eqb_iff, ◌⊎◌, inl, inr,
}
use token_auth_proxy.Text.{Text, ==_iff}
use token_auth_proxy.Oauth.Registry.Fingerprint.{CollisionFree, server_fingerprint-parts}
use token_auth_proxy.Oauth.Registry.Same.{SameServer, PlainUris, refl-Same, fingerprint_parts-Same}
use token_auth_proxy.Oauth.Registry.{
  ServerConfig, BuiltServer, ServerRegistry, new_server_registry, same_pointer, server_fingerprint,
  is_current, built_as, reconcile_locked, reconcile_server, reconciled,
}

module _ (show_length : ℕ → Text) (digest : Text → Text) {P : Type 0}
    (build : ServerConfig → Option P) where
  abbrev fp : ServerConfig → Text
  fp cfg = server_fingerprint show_length digest cfg

  -- Nothing runs while the server is off or does not build; otherwise what runs was built of a
  -- configuration with the same settings of the server.
  abbrev pub Runs : (ℕ → ServerConfig) → ℕ → Option (BuiltServer P) → Type 0
  Runs config ptr none = ((config ptr).enabled ≡ false) ⊎ (build (config ptr) ≡ none)
  Runs config ptr (some b) =
      ((config ptr).enabled ≡ true)
      × (b.fingerprint ≡ fp (config ptr))
      × ((at : ℕ) × SameServer (config at) (config ptr)
          × (fp (config at) ≡ b.fingerprint)
          × (build (config at) ≡ some b.provider))

  pub record Current (config : ℕ → ServerConfig) (ptr : ℕ) (r : ServerRegistry P) : Type 0 where
    pub is_seen : r.seen ≡ some ptr
    pub is_live : r.live ≡ some (config ptr)
    pub runs : Runs config ptr r.srv

  -- The server was built of some configuration that has its fingerprint.
  abbrev WasBuilt : (ℕ → ServerConfig) → Option (BuiltServer P) → Type 0
  WasBuilt config none = Unit
  WasBuilt config (some b) =
      (at : ℕ) × (fp (config at) ≡ b.fingerprint) × (build (config at) ≡ some b.provider)

  record Held (config : ℕ → ServerConfig) (r : ServerRegistry P) : Type 0 where
    was_built : WasBuilt config r.srv
    current : (ptr : ℕ) → r.seen ≡ some ptr → Current config ptr r

  Runs-WasBuilt :
      (config : ℕ → ServerConfig) (ptr : ℕ) (o : Option (BuiltServer P))
      → Runs config ptr o
      → WasBuilt config o
  Runs-WasBuilt config ptr none h = tt
  Runs-WasBuilt config ptr (some b) (on, print, (at, same, from, built)) = (at, from, built)

  Current-Held :
      (config : ℕ → ServerConfig) (ptr : ℕ) (r : ServerRegistry P)
      → Current config ptr r
      → Held config r
  Current-Held config ptr r c = record {
    was_built = Runs-WasBuilt config ptr r.srv c.runs;
    current = λ p e.
        let k : some ptr ≡ some p = sym c.is_seen ∙ e in
        let same : ptr ≡ p = cc in subst (λ x. Current config x r) same c;
  }

  module _ (law : CollisionFree show_length digest) (config : ℕ → ServerConfig)
      (plain : (at : ℕ) → PlainUris (config at).clients) (ptr : ℕ) where
    goes_on :
        (o : Option (BuiltServer P))
        → (config ptr).enabled ≡ true
        → WasBuilt config o
        → is_current show_length digest build o (fp (config ptr)) ≡ true
        → Runs config ptr o
    goes_on none on w h = absurd cc
    goes_on (some b) on (at, print, built) h =
        let same : b.fingerprint ≡ fp (config ptr) = (==_iff b.fingerprint (fp (config ptr))).0 h in
        (
          on,
          same,
          (
            at,
            fingerprint_parts-Same (config at) (config ptr) (plain at) (plain ptr) (
                server_fingerprint-parts show_length digest law (config at) (config ptr)
                  (print ∙ same)),
            print,
            built,
          ),
        )

    built_anew :
        (o : Option P)
        → (config ptr).enabled ≡ true
        → build (config ptr) ≡ o
        → Runs config ptr (built_as show_length digest build (fp (config ptr)) o)
    built_anew none on e = inr e
    built_anew (some provider) on e = (on, refl, (ptr, refl-Same (config ptr), refl, e))

    locked-Current :
        (r : ServerRegistry P)
        → Held config r
        → Current config ptr (reconcile_locked show_length digest build ptr (config ptr) r)
    locked-Current r h =
        switched (config ptr).enabled (is_current show_length digest build r.srv (fp (config ptr)))
          refl refl
      where
        switched :
            (on same : Bool)
            → (config ptr).enabled ≡ on
            → is_current show_length digest build r.srv (fp (config ptr)) ≡ same
            → Current config ptr (
                if not on
                then record { live = some (config ptr); seen = some ptr; srv = none }
                else if same
                then record { live = some (config ptr); seen = some ptr; srv = r.srv }
                else record {
                  live = some (config ptr);
                  seen = some ptr;
                  srv = built_as show_length digest build (fp (config ptr)) (build (config ptr));
                })
        switched false same e k = record { is_seen = refl; is_live = refl; runs = inl e }
        switched true true e k = record {
          is_seen = refl;
          is_live = refl;
          runs = goes_on r.srv e h.was_built k;
        }
        switched true false e k = record {
          is_seen = refl;
          is_live = refl;
          runs = built_anew (build (config ptr)) e refl;
        }

    reconcile-Current :
        (r : ServerRegistry P)
        → Held config r
        → Current config ptr (reconcile_server show_length digest build ptr (config ptr) r)
    unfolding reconcile_server
    reconcile-Current r h = seen_before r.seen (same_pointer r.seen ptr) refl refl
      where
        seen_before :
            (o : Option ℕ) (b : Bool)
            → r.seen ≡ o
            → same_pointer o ptr ≡ b
            → Current config ptr
                (if b then r else reconcile_locked show_length digest build ptr (config ptr) r)
        seen_before o false e k = locked-Current r h
        seen_before none true e k = absurd cc
        seen_before (some p) true e k =
            let same : p ≡ ptr = (eqb_iff p ptr).0 k in h.current ptr (e ∙ ap (λ n. some n) same)

  new-Held : (config : ℕ → ServerConfig) → Held config new_server_registry
  new-Held config = record {
    was_built = tt;
    current = λ p e. absurd (let k : none ≡ some p = e in cc);
  }

  module _ (law : CollisionFree show_length digest) (config : ℕ → ServerConfig)
      (plain : (at : ℕ) → PlainUris (config at).clients) where
    reconciled-Held :
        (ptrs : List ℕ) → Held config (reconciled show_length digest build config ptrs)
    unfolding reconciled
    reconciled-Held [] = new-Held config
    reconciled-Held (ptr ∷ ptrs) =
        let r = reconciled show_length digest build config ptrs in
        Current-Held config ptr (reconcile_server show_length digest build ptr (config ptr) r)
          (reconcile-Current law config plain ptr r (reconciled-Held ptrs))

    -- Whatever configurations Reconcile was called for and in whatever order, after the last one that
    -- configuration is the live one; and either nothing runs, because the configuration has the server
    -- off or the server does not build, or it is on, and what runs was built of a configuration with
    -- the same base URL, MCP URL, audience, signing keys, sealing keys, clients and switch for
    -- registration as the last one; if the digest has no collisions, lengths are printed apart and
    -- without a colon, and no redirect URI of a client is the word `client` or `register`.
    pub reconciled-Current :
        (ptr : ℕ) (ptrs : List ℕ)
        → Current config ptr (reconciled show_length digest build config (ptr ∷ ptrs))
    unfolding reconciled
    reconciled-Current ptr ptrs =
        reconcile-Current law config plain ptr (reconciled show_length digest build config ptrs)
          (reconciled-Held ptrs)
