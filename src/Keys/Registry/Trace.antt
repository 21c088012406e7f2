-- ===== src/Keys/Registry/Trace.antt =====
-- internal/authn/jwks.go: the registry under concurrent requests and reloads. Each of the steps below
-- holds one lock, and steps of different requests come in any order; between the two of Keyfunc a
-- request holds on to the resolver that it looked up.
use token_auth_proxy.Common.{
  ℕ, ◌<◌, ◌≡◌, refl, sym, ap, ◌∙◌, subst, inl, inr, Bool, true, false, not, Option, none, some,
  List, [], ◌∷◌, eqb, eqb_iff, if◌then◌else◌, In, All, All-map, Bool-cases, arith,
}
use token_auth_proxy.Text.{Text, ◌==◌, ==_iff}
use token_auth_proxy.Config.{JwtSource}
use token_auth_proxy.Oauth.Clients.{Url}
use token_auth_proxy.Basic.Entries.{find, All-In, find-In}
use token_auth_proxy.Keys.{Resolver, new_resolver, Build, resolve}
use token_auth_proxy.Keys.Registry.{
  KeyRegistry, update, fingerprint, close, allocate, renewed_entry, entry_or_new, look_up,
  reconcile, shared, close_stale,
}
use token_auth_proxy.Keys.Registry.Sources.{
  BuiltFor, Sourced, Held, Sound, Extends, Held-Extends, allocate-Extends, allocate-Sound,
  update-All, reconcile-Both, closed-fields, resolve-fingerprint, resolve-Good,
}

-- The registry, and the resolvers that requests hold on to, each for its source.
pub record System (Keys : Type 0) : Type 0 where
  pub reg : KeyRegistry Keys
  pub pending : List (ℕ × JwtSource)

abbrev pub new_registry : {Keys : Type 0} → KeyRegistry Keys
new_registry = record { seen = none; resolvers = []; heap = λ i. new_resolver []; next = 0 }

module _ {Keys : Type 0} (parse_request_uri : Text → Option Url) (show_duration : ℕ → Text)
    (Configured : JwtSource → Type 0) where
  -- The registry may be so.
  pub data Reachable : System Keys → Type 0 where
    start : Reachable (record { reg = new_registry; pending = [] })
    reconciled :
        {s : System Keys} (cfg : ℕ) (js : List JwtSource)
        → Reachable s
        → Reachable (record s { reg = (reconcile show_duration cfg js s.reg).1 })
    closed :
        {s : System Keys} (id : ℕ)
        → Reachable s
        → Reachable (record s { reg = close show_duration id s.reg })
    looked_up :
        {s : System Keys} (src : JwtSource)
        → Configured src
        → Reachable s
        → Reachable (record {
          reg = (look_up show_duration src s.reg).1;
          pending = ((look_up show_duration src s.reg).0.0, src) ∷ s.pending;
        })
    resolved :
        {s : System Keys} (id : ℕ) (src : JwtSource) (asked ended : ℕ) (b : Build Keys)
        → In (id, src) s.pending
        → Reachable s
        → Reachable (record s {
          reg = record s.reg {
            heap =
                update s.reg.heap id
                  (resolve parse_request_uri asked ended b src (s.reg.heap id)).1;
          };
        })

  abbrev pub AllHeld : System Keys → Type 0
  AllHeld s = All (Held parse_request_uri show_duration Configured s.reg) s.pending

  pub record Invariant (s : System Keys) : Type 0 where
    pub sound : Sound parse_request_uri show_duration Configured s.reg
    pub held : AllHeld s

  -- A step that leaves what was given out as it is keeps what requests hold on to.
  AllHeld-Extends :
      (reg reg' : KeyRegistry Keys) (ps : List (ℕ × JwtSource))
      → Extends parse_request_uri show_duration Configured reg reg'
      → All (Held parse_request_uri show_duration Configured reg) ps
      → All (Held parse_request_uri show_duration Configured reg') ps
  AllHeld-Extends reg reg' ps e h =
      All-map _ _ (λ p k. Held-Extends parse_request_uri show_duration Configured reg reg' p e k) ps
        h

  update-same : (f : ℕ → Resolver Keys) (i : ℕ) (v : Resolver Keys) → update f i v i ≡ v
  update-same f i v = rw ((eqb_iff i i).1 refl) refl

  renewed-Held :
      (src : JwtSource) (stale : Option ℕ) (s : System Keys)
      → Configured src
      → Invariant s
      → Invariant (record {
        reg = (renewed_entry show_duration src stale s.reg).1;
        pending = (s.reg.next, src) ∷ s.pending;
      })
  unfolding allocate
  renewed-Held src stale s conf inv =
      let fp = fingerprint show_duration src in
      let sound =
        allocate-Sound parse_request_uri show_duration Configured src.name fp s.reg inv.sound in
      let extends = allocate-Extends parse_request_uri show_duration Configured src.name fp s.reg in
      record {
        sound = record { given_out = sound.given_out; sourced = sound.sourced };
        held = (
          (
            omega arith,
            ap (λ (r : Resolver Keys). r.fingerprint)
                (update-same s.reg.heap s.reg.next (new_resolver fp)),
            conf,
          ),
          AllHeld-Extends s.reg (allocate show_duration src.name fp s.reg) s.pending extends
              inv.held,
        );
      }

  look_up-Invariant :
      (src : JwtSource) (s : System Keys)
      → Configured src
      → Invariant s
      → Invariant (record {
        reg = (look_up show_duration src s.reg).1;
        pending = ((look_up show_duration src s.reg).0.0, src) ∷ s.pending;
      })
  unfolding look_up
  look_up-Invariant src s conf inv = go (find s.reg.resolvers src.name) refl
    where
      Kept : (ℕ × Option ℕ) × KeyRegistry Keys → Type 0
      Kept r = Invariant (record { reg = r.1; pending = (r.0.0, src) ∷ s.pending })

      fresh : (stale : Option ℕ) → Kept (renewed_entry show_duration src stale s.reg)
      fresh stale = renewed-Held src stale s conf inv

      there :
          (id : ℕ) (b : Bool)
          → (s.reg.heap id).fingerprint == fingerprint show_duration src ≡ b
          → id < s.reg.next
          → Kept (
              if not b
              then renewed_entry show_duration src (some id) s.reg
              else ((id, none), s.reg))
      there id false e lt = fresh (some id)
      there id true e lt = record {
        sound = inv.sound;
        held = (
          (lt, (==_iff (s.reg.heap id).fingerprint (fingerprint show_duration src)).0 e, conf),
          inv.held,
        );
      }

      go :
          (o : Option ℕ)
          → find s.reg.resolvers src.name ≡ o
          → Kept (entry_or_new show_duration src s.reg o)
      go none e = fresh none
      go (some id) e = there id _ refl (
          All-In (λ (n, i). i < s.reg.next) (src.name, id) s.reg.resolvers inv.sound.given_out
            (find-In s.reg.resolvers src.name id e))

  close-Invariant :
      (id : ℕ) (s : System Keys)
      → Invariant s
      → Invariant (record s { reg = close show_duration id s.reg })
  unfolding close
  close-Invariant id s inv =
      let fields = closed-fields parse_request_uri show_duration Configured id s.reg in
      record {
        sound = record {
          given_out = inv.sound.given_out;
          sourced = λ i k h.
              subst (λ fp. BuiltFor parse_request_uri show_duration Configured fp k)
                (sym (fields i).0) (inv.sound.sourced i k (sym (fields i).1 ∙ h));
        };
        held = All-map _ _ (λ (i, src) h. (h.0, (fields i).0 ∙ h.1, h.2)) s.pending inv.held;
      }

  resolve-Invariant :
      (id : ℕ) (src : JwtSource) (asked ended : ℕ) (b : Build Keys) (s : System Keys)
      → In (id, src) s.pending
      → Invariant s
      → Invariant (record s {
        reg = record s.reg {
          heap =
              update s.reg.heap id (resolve parse_request_uri asked ended b src (s.reg.heap id)).1;
        };
      })
  resolve-Invariant id src asked ended b s m inv =
      let own =
        All-In (Held parse_request_uri show_duration Configured s.reg) (id, src) s.pending inv.held
          m in
      let good =
        resolve-Good parse_request_uri show_duration Configured asked ended b src (s.reg.heap id)
          own.1 own.2 (inv.sound.sourced id) in
      record {
        sound = record {
          given_out = inv.sound.given_out;
          sourced =
              update-All parse_request_uri show_duration Configured
                (Sourced parse_request_uri show_duration Configured) s.reg.heap id _
                inv.sound.sourced good.0;
        };
        held = All-map _ _ (λ (i, src') h. (h.0, fields i ∙ h.1, h.2)) s.pending inv.held;
      }
    where
      fields :
          (i : ℕ)
          → (update s.reg.heap id
              (resolve parse_request_uri asked ended b src (s.reg.heap id)).1
              i).fingerprint
            ≡ (s.reg.heap i).fingerprint
      fields i = elim (Bool-cases (eqb id i)) [
        | inr n ↦ rw n refl
        | inl t ↦ rw t (
            resolve-fingerprint parse_request_uri show_duration Configured asked ended b src
              (s.reg.heap id)
            ∙ ap (λ j. (s.reg.heap j).fingerprint) ((eqb_iff id i).0 t))
      ]

  pub Reachable-Invariant : {s : System Keys} → Reachable s → Invariant s
  Reachable-Invariant start = record {
    sound = record { given_out = tt; sourced = λ i k h. absurd cc };
    held = tt;
  }
  Reachable-Invariant {s = _} (reconciled {s = s} cfg js r) =
      let inv = Reachable-Invariant r in
      let (sound, extends) =
        reconcile-Both parse_request_uri show_duration Configured cfg js s.reg inv.sound in
      record { sound = sound; held = AllHeld-Extends s.reg _ s.pending extends inv.held }
  Reachable-Invariant {s = _} (closed {s = s} id r) = close-Invariant id s (Reachable-Invariant r)
  Reachable-Invariant {s = _} (looked_up {s = s} src conf r) =
      look_up-Invariant src s conf (Reachable-Invariant r)
  Reachable-Invariant {s = _} (resolved {s = s} id src asked ended b m r) =
      resolve-Invariant id src asked ended b s m (Reachable-Invariant r)

  close_stale-Reachable :
      {s : System Keys} (stale : Option ℕ)
      → Reachable s
      → Reachable (record s { reg = close_stale show_duration stale s.reg })
  close_stale-Reachable none r = r
  close_stale-Reachable (some id) r = closed id r

  -- A request that nothing disturbs is a run of steps.
  pub shared-Reachable :
      {s : System Keys} (asked ended : ℕ) (b : Build Keys) (src : JwtSource)
      → Configured src
      → Reachable s
      → Reachable (record {
        reg = (shared show_duration parse_request_uri asked ended b src s.reg).1;
        pending = ((look_up show_duration src s.reg).0.0, src) ∷ s.pending;
      })
  unfolding shared
  shared-Reachable {s} asked ended b src conf r =
      resolved (look_up show_duration src s.reg).0.0 src asked ended b (inl refl)
        (close_stale-Reachable (look_up show_duration src s.reg).0.1 (looked_up src conf r))
