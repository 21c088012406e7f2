-- ===== src/Keys/Registry/Sources.antt =====
-- internal/authn/jwks.go: what the steps of the registry leave as it is, and for whom keys are built.
use token_auth_proxy.Common.{
  ℕ, ◌≤◌, ◌<◌, ◌≡◌, refl, sym, ap, ◌∙◌, subst, ◌⊎◌, inl, inr, Bool, true, false, ◌&&◌, Option, none,
  some, List, [], ◌∷◌, eqb, eqb_iff, ltb, if◌then◌else◌, All, All-map, Bool-cases, arith,
}
use token_auth_proxy.Text.{Text}
use token_auth_proxy.Config.{JwtSource}
use token_auth_proxy.Oauth.Clients.{Url}
use token_auth_proxy.Basic.Entries.{Cache, find, delete, All-delete}
use token_auth_proxy.Basic.{is_seen}
use token_auth_proxy.Keys.{
  Resolver, new_resolver, Build, Built, built, not_built, KeyAnswer, keys, no_keys, build,
  store_built, unless_waiting, cached_or_built, resolve,
}
use token_auth_proxy.Keys.Registry.{
  KeyRegistry, update, fingerprint, close, allocate, still, kept, evicted, wanted, missing,
  add_if_missing, add_missing, reconcile,
}

module _ {Keys : Type 0} (parse_request_uri : Text → Option Url) (show_duration : ℕ → Text)
    (Configured : JwtSource → Type 0) where
  -- Keys that were built for a configured source of the given settings.
  abbrev pub BuiltFor : Text → Keys → Type 0
  BuiltFor fp k =
      (src : JwtSource) × (b : Build Keys) × (url : Text) × (fingerprint show_duration src ≡ fp)
      × (build parse_request_uri b src ≡ built k url)
      × Configured src

  abbrev pub Sourced : Resolver Keys → Type 0
  Sourced res = (k : Keys) → res.kf ≡ some k → BuiltFor res.fingerprint k

  -- The resolver of an address that was given out is the source's.
  abbrev pub Held : KeyRegistry Keys → ℕ × JwtSource → Type 0
  Held reg (id, src) =
      (id < reg.next) × ((reg.heap id).fingerprint ≡ fingerprint show_duration src) × Configured src

  pub record Sound (reg : KeyRegistry Keys) : Type 0 where
    pub given_out : All (λ (name, id). id < reg.next) reg.resolvers
    pub sourced : (i : ℕ) → Sourced (reg.heap i)

  -- What was given out is left as it is.
  pub record Extends (reg reg' : KeyRegistry Keys) : Type 0 where
    pub grows : reg.next ≤ reg'.next
    pub same : (i : ℕ) → i < reg.next → reg'.heap i ≡ reg.heap i

  pub Extends-trans : {a b c : KeyRegistry Keys} → Extends a b → Extends b c → Extends a c
  Extends-trans {a} {b} {c} f g = record {
    grows = let p = f.grows in let q = g.grows in omega arith;
    same = λ i h. g.same i (let p = f.grows in omega arith) ∙ f.same i h;
  }

  pub Held-Extends :
      (reg reg' : KeyRegistry Keys) (p : ℕ × JwtSource)
      → Extends reg reg'
      → Held reg p
      → Held reg' p
  Held-Extends reg reg' (id, src) e (lt, fp, conf) = (
    let p = e.grows in omega arith,
    ap (λ (r : Resolver Keys). r.fingerprint) (e.same id lt) ∙ fp,
    conf,
  )

  pub update-other :
      (f : ℕ → Resolver Keys) (i j : ℕ) (v : Resolver Keys) → eqb i j ≡ false → update f i v j ≡ f j
  update-other f i j v h = rw h refl

  -- What holds of all that stands in a heap and of what is put there holds afterwards.
  pub update-All :
      (P : Resolver Keys → Type 0) (f : ℕ → Resolver Keys) (i : ℕ) (v : Resolver Keys)
      → ((j : ℕ) → P (f j))
      → P v
      → (j : ℕ) → P (update f i v j)
  update-All P f i v h k j = elim (Bool-cases (eqb i j)) [ inl t ↦ rw t k | inr n ↦ rw n (h j) ]

  new-Sourced : (fp : Text) → Sourced (new_resolver fp)
  new-Sourced fp k h = absurd cc

  pub allocate-Extends :
      (name fp : Text) (reg : KeyRegistry Keys) → Extends reg (allocate show_duration name fp reg)
  unfolding allocate
  allocate-Extends name fp reg = record {
    grows = omega arith;
    same = λ i h. update-other reg.heap reg.next i (new_resolver fp) (ground arith);
  }

  pub allocate-Sound :
      (name fp : Text) (reg : KeyRegistry Keys)
      → Sound reg
      → Sound (allocate show_duration name fp reg)
  unfolding allocate
  allocate-Sound name fp reg s = record {
    given_out = (
      omega arith,
      All-map _ _ (λ (n, i) h. omega arith) (delete name reg.resolvers)
          (All-delete (λ (n, i). i < reg.next) name reg.resolvers s.given_out),
    );
    sourced = update-All Sourced reg.heap reg.next (new_resolver fp) s.sourced (new-Sourced fp);
  }

  abbrev pub Both : KeyRegistry Keys → KeyRegistry Keys → Type 0
  Both reg reg' = Sound reg' × Extends reg reg'

  pub refl-Extends : (reg : KeyRegistry Keys) → Extends reg reg
  refl-Extends reg = record { grows = omega arith; same = λ i h. refl }

  add_if_missing-Both :
      (j : JwtSource) (reg : KeyRegistry Keys)
      → Sound reg
      → Both reg (add_if_missing show_duration j reg)
  add_if_missing-Both j reg s = go (wanted j && missing (find reg.resolvers j.name))
    where
      go :
          (b : Bool)
          → Both reg
              (if b then allocate show_duration j.name (fingerprint show_duration j) reg else reg)
      go true = (
        allocate-Sound j.name (fingerprint show_duration j) reg s,
        allocate-Extends j.name (fingerprint show_duration j) reg,
      )
      go false = (s, refl-Extends reg)

  pub add_missing-Both :
      (js : List JwtSource) (reg : KeyRegistry Keys)
      → Sound reg
      → Both reg (add_missing show_duration js reg)
  unfolding add_missing
  add_missing-Both [] reg s = (s, refl-Extends reg)
  add_missing-Both (j ∷ js) reg s =
      let (sound, extends) = add_missing-Both js reg s in
      let (sound', extends') = add_if_missing-Both j (add_missing show_duration js reg) sound in
      (sound', Extends-trans extends extends')

  All-kept :
      (P : Text × ℕ → Type 0) (heap : ℕ → Resolver Keys) (js : List JwtSource) (es : Cache)
      → All P es
      → All P (kept show_duration heap js es)
  unfolding kept
  All-kept P heap js [] h = tt
  All-kept P heap js (e ∷ es) h = elim (Bool-cases (still show_duration heap js e)) [
    | inl t ↦ rw t (h.0, All-kept P heap js es h.1)
    | inr f ↦ rw f (All-kept P heap js es h.1)
  ]

  pub kept-Sound :
      (js : List JwtSource) (reg : KeyRegistry Keys)
      → Sound reg
      → Sound (record reg { resolvers = kept show_duration reg.heap js reg.resolvers })
  kept-Sound js reg s = record {
    given_out = All-kept (λ (n, i). i < reg.next) reg.heap js reg.resolvers s.given_out;
    sourced = s.sourced;
  }

  pub reconcile-Both :
      (cfg : ℕ) (js : List JwtSource) (reg : KeyRegistry Keys)
      → Sound reg
      → Both reg (reconcile show_duration cfg js reg).1
  unfolding reconcile
  reconcile-Both cfg js reg s = go (is_seen reg.seen cfg)
    where
      rest : KeyRegistry Keys
      rest = record reg { resolvers = kept show_duration reg.heap js reg.resolvers }

      added : Both rest (add_missing show_duration js rest)
      added = add_missing-Both js rest (kept-Sound js reg s)

      go :
          (b : Bool)
          → Both reg
              (if◌then◌else◌ {A = List ℕ × KeyRegistry Keys} b
                ([], reg)
                (
                  evicted show_duration reg.heap js reg.resolvers,
                  record (add_missing show_duration js rest) { seen = some cfg },
                )).1
      go true = (s, refl-Extends reg)
      go false = (
        record { given_out = added.0.given_out; sourced = added.0.sourced },
        record { grows = added.1.grows; same = added.1.same },
      )

  -- Closing a resolver leaves its settings and its keys.
  pub closed-fields :
      (id : ℕ) (reg : KeyRegistry Keys) (i : ℕ)
      → (((close show_duration id reg).heap i).fingerprint ≡ (reg.heap i).fingerprint)
        × (((close show_duration id reg).heap i).kf ≡ (reg.heap i).kf)
  unfolding close
  closed-fields id reg i = elim (Bool-cases (eqb id i)) [
    | inr n ↦ rw n (refl, refl)
    | inl t ↦
        let e : id ≡ i = (eqb_iff id i).0 t in
        rw t (ap (λ j. (reg.heap j).fingerprint) e, ap (λ j. (reg.heap j).kf) e)
  ]

  -- A call of Keyfunc answers with the keys or the error that are there, or with a build.
  resolve-cases :
      (asked ended : ℕ) (b : Build Keys) (src : JwtSource) (res : Resolver Keys)
      → ((k : Keys) × (res.kf ≡ some k)
          × (resolve parse_request_uri asked ended b src res ≡ (keys k, res)))
        ⊎ ((resolve parse_request_uri asked ended b src res ≡ (no_keys res.last_err, res))
            ⊎ (resolve parse_request_uri asked ended b src res
                ≡ store_built parse_request_uri ended src res (build parse_request_uri b src)))
  unfolding resolve
  resolve-cases asked ended b src res = go res.kf refl
    where
      Cases : Option Keys → KeyAnswer Keys × Resolver Keys → Type 0
      Cases o r =
          ((k : Keys) × (o ≡ some k) × (r ≡ (keys k, res)))
          ⊎ ((r ≡ (no_keys res.last_err, res))
              ⊎ (r ≡ store_built parse_request_uri ended src res (build parse_request_uri b src)))

      wait :
          (t : Bool)
          → Cases none (
              if t
              then (no_keys res.last_err, res)
              else store_built parse_request_uri ended src res (build parse_request_uri b src))
      wait true = inr (inl refl)
      wait false = inr (inr refl)

      go :
          (o : Option Keys)
          → res.kf ≡ o
          → Cases res.kf (cached_or_built parse_request_uri asked ended b src res o)
      go (some k) e = inl (k, e, refl)
      go none e =
          subst (λ o. Cases o (unless_waiting parse_request_uri asked ended b src res)) (sym e)
            (wait (ltb asked res.next_try))

  store_built-fingerprint :
      (ended : ℕ) (src : JwtSource) (res : Resolver Keys) (o : Built Keys)
      → (store_built parse_request_uri ended src res o).1.fingerprint ≡ res.fingerprint
  store_built-fingerprint ended src res (built k url) = refl
  store_built-fingerprint ended src res (not_built e) = refl

  pub resolve-fingerprint :
      (asked ended : ℕ) (b : Build Keys) (src : JwtSource) (res : Resolver Keys)
      → (resolve parse_request_uri asked ended b src res).1.fingerprint ≡ res.fingerprint
  resolve-fingerprint asked ended b src res = elim (resolve-cases asked ended b src res) [
    | inl (k, h, e) ↦ ap (λ (r : KeyAnswer Keys × Resolver Keys). r.1.fingerprint) e
    | inr (inl e) ↦ ap (λ (r : KeyAnswer Keys × Resolver Keys). r.1.fingerprint) e
    | inr (inr e) ↦
        ap (λ (r : KeyAnswer Keys × Resolver Keys). r.1.fingerprint) e
        ∙ store_built-fingerprint ended src res (build parse_request_uri b src)
  ]

  -- Whatever is answered, and left behind, is for the settings of the resolver.
  abbrev pub Good : Text → KeyAnswer Keys × Resolver Keys → Type 0
  Good fp r = Sourced r.1 × ((k : Keys) → r.0 ≡ keys k → BuiltFor fp k)

  store_built-Good :
      (ended : ℕ) (b : Build Keys) (src : JwtSource) (res : Resolver Keys) (o : Built Keys)
      → res.fingerprint ≡ fingerprint show_duration src
      → Configured src
      → Sourced res
      → build parse_request_uri b src ≡ o
      → Good res.fingerprint (store_built parse_request_uri ended src res o)
  store_built-Good ended b src res (not_built x) f conf s e = (s, λ k h. absurd cc)
  store_built-Good ended b src res (built j url) f conf s e =
      let for_this = λ (k : Keys) (h : j ≡ k).
        subst (λ x. BuiltFor res.fingerprint x) h (src, b, url, sym f, e, conf) in
      (λ k h. for_this k (let q : j ≡ k = cc in q), λ k h. for_this k (let q : j ≡ k = cc in q))

  pub resolve-Good :
      (asked ended : ℕ) (b : Build Keys) (src : JwtSource) (res : Resolver Keys)
      → res.fingerprint ≡ fingerprint show_duration src
      → Configured src
      → Sourced res
      → Good res.fingerprint (resolve parse_request_uri asked ended b src res)
  resolve-Good asked ended b src res f conf s = elim (resolve-cases asked ended b src res) [
    | inl (j, h, e) ↦
        subst (Good res.fingerprint) (sym e)
          (s, λ k q. let same : j ≡ k = cc in subst (λ x. BuiltFor res.fingerprint x) same (s j h))
    | inr (inl e) ↦ subst (Good res.fingerprint) (sym e) (s, λ k q. absurd cc)
    | inr (inr e) ↦
        subst (Good res.fingerprint) (sym e)
          (store_built-Good ended b src res (build parse_request_uri b src) f conf s refl)
  ]
