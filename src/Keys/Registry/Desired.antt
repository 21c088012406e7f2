-- ===== src/Keys/Registry/Desired.antt =====
-- internal/authn/jwks.go: Reconcile against what the configuration asks for.
use token_auth_proxy.Common.{
  ℕ, ◌<◌, ◌≡◌, refl, sym, ap, ◌∙◌, subst, ◌↔◌, inl, inr, Bool, true, false, ◌&&◌, Option, none,
  some, List, [], ◌∷◌, eqb, eqb_iff, if◌then◌else◌, All, Bool-cases, arith,
}
use token_auth_proxy.Text.{Text, ◌==◌, ==_iff}
use token_auth_proxy.Config.{JwtSource}
use token_auth_proxy.Oauth.Clients.{Url}
use token_auth_proxy.Basic.Entries.{Cache, find, delete, All-find}
use token_auth_proxy.Basic.{is_seen}
use token_auth_proxy.Keys.{Resolver, new_resolver}
use token_auth_proxy.Keys.Registry.{
  KeyRegistry, update, fingerprint, desired, is_desired, or_this, allocate, still, kept, wanted,
  missing, add_if_missing, add_missing, reconcile,
}
use token_auth_proxy.Keys.Registry.Sources.{Sound, add_missing-Both, kept-Sound}

find-delete-other :
    (m : Cache) (k key : Text) → k == key ≡ false → find (delete k m) key ≡ find m key
unfolding find delete
find-delete-other [] k key h = refl
find-delete-other ((n, i) ∷ m) k key h = elim (Bool-cases (n == k)) [
  | inl t ↦
      let same : n == key ≡ false = ap (λ x. x == key) ((==_iff n k).0 t) ∙ h in
      rw t (rw same (find-delete-other m k key h))
  | inr f ↦ rw f (rw (find-delete-other m k key h) refl)
]

abbrev or_else : Option Text → Option Text → Option Text
or_else (some fp) other = some fp
or_else none other = other

is_desired_iff : (d : Option Text) (fp : Text) → (is_desired d fp ≡ true) ↔ (d ≡ some fp)
is_desired_iff none fp = (λ h. absurd cc, λ h. absurd cc)
is_desired_iff (some want) fp =
    let (to, from) = ==_iff want fp in
    (λ h. ap some (to h), λ h. from (let e : want ≡ fp = cc in e))

or_else-none : (o : Option Text) → o ≡ or_else o none
or_else-none none = refl
or_else-none (some fp) = refl

update_kept :
    {Keys : Type 0} (reg : KeyRegistry Keys) (i : ℕ) (v : Resolver Keys)
    → i < reg.next
    → update reg.heap reg.next v i ≡ reg.heap i
update_kept reg i v lt = let f : eqb reg.next i ≡ false = ground arith in rw f refl

module _ {Keys : Type 0} (show_duration : ℕ → Text) where
  abbrev settings_of : (ℕ → Resolver Keys) → Option ℕ → Option Text
  settings_of heap none = none
  settings_of heap (some id) = some (heap id).fingerprint

  -- The settings of the resolver that the registry has for a name.
  abbrev pub current : KeyRegistry Keys → Text → Option Text
  current reg name = settings_of reg.heap (find reg.resolvers name)

  kept-found :
      (heap : ℕ → Resolver Keys) (js : List JwtSource) (es : Cache) (name : Text) (id : ℕ)
      → find (kept show_duration heap js es) name ≡ some id
      → is_desired (desired show_duration js name) (heap id).fingerprint ≡ true
  unfolding kept find
  kept-found heap js [] name id h = absurd cc
  kept-found heap js ((n, i) ∷ es) name id h =
      elim (Bool-cases (still show_duration heap js (n, i))) [
        | inr f ↦ kept-found heap js es name id (rw f at h)
        | inl t ↦ elim (Bool-cases (n == name)) [
          | inr f ↦ kept-found heap js es name id (rw f at (rw t at h))
          | inl e ↦
              let p : n ≡ name = (==_iff n name).0 e in
              let same : some i ≡ some id = rw e at (rw t at h) in
              let q : i ≡ id = cc in
              subst (λ x. is_desired (desired show_duration js name) (heap x).fingerprint ≡ true) q
                (subst (λ x. is_desired (desired show_duration js x) (heap i).fingerprint ≡ true) p
                  t)
        ]
      ]

  kept-same :
      (heap : ℕ → Resolver Keys) (js : List JwtSource) (es : Cache) (name : Text) (id : ℕ)
      → find es name ≡ some id
      → is_desired (desired show_duration js name) (heap id).fingerprint ≡ true
      → find (kept show_duration heap js es) name ≡ some id
  unfolding kept find
  kept-same heap js [] name id h d = absurd cc
  kept-same heap js ((n, i) ∷ es) name id h d = elim (Bool-cases (n == name)) [
    | inl e ↦
        let p : n ≡ name = (==_iff n name).0 e in
        let same : some i ≡ some id = rw e at h in
        let q : id ≡ i = cc in
        let t : still show_duration heap js (n, i) ≡ true =
          subst (λ x. is_desired (desired show_duration js x) (heap i).fingerprint ≡ true) (sym p)
            (subst (λ x. is_desired (desired show_duration js name) (heap x).fingerprint ≡ true) q
              d) in
        rw t (rw e same)
    | inr f ↦
        let rest = kept-same heap js es name id (rw f at h) d in
        elim (Bool-cases (still show_duration heap js (n, i))) [
          | inl t ↦ rw t (rw f rest)
          | inr g ↦ rw g rest
        ]
  ]

  -- A new resolver leaves the others of the registry.
  allocate-current :
      (n fp name : Text) (reg : KeyRegistry Keys)
      → All (λ (k, i). i < reg.next) reg.resolvers
      → current (allocate show_duration n fp reg) name
        ≡ (if n == name then some fp else current reg name)
  unfolding allocate find
  allocate-current n fp name reg s = elim (Bool-cases (n == name)) [
    | inl t ↦ rw t (rw ((eqb_iff reg.next reg.next).1 refl) refl)
    | inr f ↦
        rw f (rw (find-delete-other reg.resolvers n name f) (other (find reg.resolvers name) refl))
  ]
    where
      other :
          (o : Option ℕ)
          → find reg.resolvers name ≡ o
          → settings_of (update reg.heap reg.next (new_resolver fp)) o ≡ settings_of reg.heap o
      other none e = refl
      other (some i) e =
          let lt = All-find (λ (k, i). i < reg.next) reg.resolvers name i s e in
          ap (λ (r : Resolver Keys). some r.fingerprint) (update_kept reg i (new_resolver fp) lt)

  add_if_missing-current :
      (j : JwtSource) (name : Text) (reg : KeyRegistry Keys)
      → All (λ (k, i). i < reg.next) reg.resolvers
      → current (add_if_missing show_duration j reg) name
        ≡ or_else
            (current reg name)
            (if wanted j && j.name == name then some (fingerprint show_duration j) else none)
  add_if_missing-current j name reg s = added (wanted j) (find reg.resolvers j.name) refl
    where
      fp : Text
      fp = fingerprint show_duration j

      absent :
          find reg.resolvers j.name ≡ none
          → (if j.name == name then some fp else current reg name)
            ≡ or_else (current reg name) (if j.name == name then some fp else none)
      absent e = elim (Bool-cases (j.name == name)) [
        | inl t ↦
            let q : find reg.resolvers name ≡ none =
              ap (find reg.resolvers) (sym ((==_iff j.name name).0 t)) ∙ e in
            rw t (rw q refl)
        | inr f ↦ rw f (or_else-none (current reg name))
      ]

      present :
          (i : ℕ)
          → find reg.resolvers j.name ≡ some i
          → current reg name ≡ or_else (current reg name) (if j.name == name then some fp else none)
      present i e = elim (Bool-cases (j.name == name)) [
        | inl t ↦
            let q : find reg.resolvers name ≡ some i =
              ap (find reg.resolvers) (sym ((==_iff j.name name).0 t)) ∙ e in
            rw q refl
        | inr f ↦ rw f (or_else-none (current reg name))
      ]

      added :
          (w : Bool) (o : Option ℕ)
          → find reg.resolvers j.name ≡ o
          → current (if w && missing o then allocate show_duration j.name fp reg else reg) name
            ≡ or_else (current reg name) (if w && j.name == name then some fp else none)
      added false o e = or_else-none (current reg name)
      added true none e = allocate-current j.name fp name reg s ∙ absent e
      added true (some i) e = present i e

  add_missing-current :
      (parse_request_uri : Text → Option Url) (Configured : JwtSource → Type 0)
      (js : List JwtSource) (name : Text) (reg : KeyRegistry Keys)
      → Sound parse_request_uri show_duration Configured reg
      → current (add_missing show_duration js reg) name
        ≡ or_else (current reg name) (desired show_duration js name)
  unfolding add_missing desired
  add_missing-current parse_request_uri Configured [] name reg s = or_else-none (current reg name)
  add_missing-current parse_request_uri Configured (j ∷ js) name reg s =
      let (sound, extends) = add_missing-Both parse_request_uri show_duration Configured js reg s in
      add_if_missing-current j name (add_missing show_duration js reg) sound.given_out
      ∙ (ap
            (λ o.
              or_else o
                (if wanted j && j.name == name then some (fingerprint show_duration j) else none))
            (add_missing-current parse_request_uri Configured js name reg s)
          ∙ later (current reg name) (desired show_duration js name))
    where
      later :
          (o d : Option Text)
          → or_else
              (or_else o d)
              (if wanted j && j.name == name then some (fingerprint show_duration j) else none)
            ≡ or_else o (or_this show_duration j name d)
      later (some x) d = refl
      later none (some x) = refl
      later none none = refl

  allocate-find :
      (n fp name : Text) (id : ℕ) (reg : KeyRegistry Keys)
      → n == name ≡ false
      → find reg.resolvers name ≡ some id
      → find (allocate show_duration n fp reg).resolvers name ≡ some id
  unfolding allocate find
  allocate-find n fp name id reg f h = rw f (find-delete-other reg.resolvers n name f ∙ h)

  -- An entry that there is stays.
  add_if_missing-find :
      (j : JwtSource) (name : Text) (id : ℕ) (reg : KeyRegistry Keys)
      → find reg.resolvers name ≡ some id
      → find (add_if_missing show_duration j reg).resolvers name ≡ some id
  add_if_missing-find j name id reg h = added (wanted j) (find reg.resolvers j.name) refl
    where
      added :
          (w : Bool) (o : Option ℕ)
          → find reg.resolvers j.name ≡ o
          → find
              (if w && missing o
                then allocate show_duration j.name (fingerprint show_duration j) reg
                else reg).resolvers
              name
            ≡ some id
      added false o e = h
      added true (some i) e = h
      added true none e = elim (Bool-cases (j.name == name)) [
        | inr f ↦ allocate-find j.name (fingerprint show_duration j) name id reg f h
        | inl t ↦
            let q : find reg.resolvers name ≡ none =
              ap (find reg.resolvers) (sym ((==_iff j.name name).0 t)) ∙ e in
            absurd cc
      ]

  add_missing-find :
      (js : List JwtSource) (name : Text) (id : ℕ) (reg : KeyRegistry Keys)
      → find reg.resolvers name ≡ some id
      → find (add_missing show_duration js reg).resolvers name ≡ some id
  unfolding add_missing
  add_missing-find [] name id reg h = h
  add_missing-find (j ∷ js) name id reg h =
      add_if_missing-find j name id (add_missing show_duration js reg)
        (add_missing-find js name id reg h)

  -- Where the configuration is not the one that was reconciled last, the registry has for each name
  -- afterwards a resolver of the settings that the configuration asks for, none where it asks for none,
  -- and the very resolver that it had where that had these settings.
  pub reconcile-Desired :
      (parse_request_uri : Text → Option Url) (Configured : JwtSource → Type 0) (cfg : ℕ)
      (js : List JwtSource) (reg : KeyRegistry Keys) (name : Text)
      → Sound parse_request_uri show_duration Configured reg
      → is_seen reg.seen cfg ≡ false
      → (current (reconcile show_duration cfg js reg).1 name ≡ desired show_duration js name)
        × ((id : ℕ)
            → find reg.resolvers name ≡ some id
            → desired show_duration js name ≡ some (reg.heap id).fingerprint
            → find (reconcile show_duration cfg js reg).1.resolvers name ≡ some id)
  unfolding reconcile
  reconcile-Desired parse_request_uri Configured cfg js reg name s h = rw h (settings, same)
    where
      rest : KeyRegistry Keys
      rest = record reg { resolvers = kept show_duration reg.heap js reg.resolvers }

      asked :
          (o : Option ℕ)
          → find rest.resolvers name ≡ o
          → or_else (settings_of reg.heap o) (desired show_duration js name)
            ≡ desired show_duration js name
      asked none e = refl
      asked (some i) e = sym (
          (is_desired_iff (desired show_duration js name) (reg.heap i).fingerprint).0
            (kept-found reg.heap js reg.resolvers name i e))

      settings : current (add_missing show_duration js rest) name ≡ desired show_duration js name
      settings =
          add_missing-current parse_request_uri Configured js name rest
            (kept-Sound parse_request_uri show_duration Configured js reg s)
          ∙ asked (find rest.resolvers name) refl

      same :
          (id : ℕ)
          → find reg.resolvers name ≡ some id
          → desired show_duration js name ≡ some (reg.heap id).fingerprint
          → find (add_missing show_duration js rest).resolvers name ≡ some id
      same id f d = add_missing-find js name id rest (
          kept-same reg.heap js reg.resolvers name id f
            ((is_desired_iff (desired show_duration js name) (reg.heap id).fingerprint).1 d))
