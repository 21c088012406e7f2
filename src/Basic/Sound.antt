-- ===== src/Basic/Sound.antt =====
-- The cache changes no answer: what is answered from it is what a comparison would have answered.
pub mod Credential
use token_auth_proxy.Common.{
  ℕ, ◌+◌, ◌≤◌, ◌≡◌, ◌≢◌, refl, sym, ap, ap₂, ◌∙◌, ◌⊎◌, ◌↔◌, inl, inr, Bool, true, false, not, ◌&&◌,
  Option, none, some, List, [], ◌∷◌, ◌++◌, is_empty, if◌then◌else◌, ltb, leb, length, All,
  Bool-cases, Option-cases, arith, subst,
}
use token_auth_proxy.Text.{Text, ◌==◌, join}
use token_auth_proxy.Text.Cut.{Free}
use token_auth_proxy.Text.Join.{join-append, join_injective}
use token_auth_proxy.Config.{BasicUser, BasicSource}
use token_auth_proxy.Basic.{
  BasicRegistry, user_parts, basic_fingerprint, lookup_negative, lookup, room, store, hash_for,
  any_hash, Compared, Answer, verified, saturated, Attempt, key, is_match, known_hash, verify,
  max_basic_credential_len, basic_cache_ttl, answered, cached_or, verify_uncached, compare_in,
  basic_negative_cache_ttl, max_basic_cache_entries, max_basic_negative_cache_entries,
}
use token_auth_proxy.Basic.Entries.{Cache, find, delete, put, All-delete, All-find}

-- No text of the credential or of the source holds the byte that the cache's keys are joined by.
pub record Delimited (src : BasicSource) (u p : Text) : Type 0 where
  pub realm : Free 0 src.realm
  pub users : All (λ x. Free 0 x.username × Free 0 x.password_hash) src.users
  pub username : Free 0 u
  pub password : Free 0 p

-- The parts that a key is joined from.
abbrev parts : BasicSource → Text → Text → List Text
parts src u p = user_parts src.users ++ (u ∷ p ∷ [])

parts-Free :
    (us : List BasicUser) (u p : Text)
    → All (λ u. Free 0 u.username × Free 0 u.password_hash) us
    → Free 0 u
    → Free 0 p
    → All (Free 0) (user_parts us ++ (u ∷ p ∷ []))
unfolding user_parts
parts-Free [] u p h k l = (k, (l, tt))
parts-Free (x ∷ us) u p ((a, b), h) k l = (a, (b, parts-Free us u p h k l))

join-parts :
    (src : BasicSource) (u p : Text)
    → basic_fingerprint src ++ (0 ∷ (u ++ (0 ∷ p))) ≡ join (0 ∷ []) (src.realm ∷ parts src u p)
unfolding basic_fingerprint join
join-parts src u p = join-append 0 src.realm (user_parts src.users) u (p ∷ [])

parts_injective :
    (us vs : List BasicUser) (u p v q : Text)
    → user_parts us ++ (u ∷ p ∷ []) ≡ user_parts vs ++ (v ∷ q ∷ [])
    → (us ≡ vs) × (u ≡ v) × (p ≡ q)
unfolding user_parts
parts_injective [] [] u p v q e = (refl, cc, cc)
parts_injective [] (y ∷ []) u p v q e = absurd cc
parts_injective [] (y ∷ z ∷ vs) u p v q e = absurd cc
parts_injective (x ∷ []) [] u p v q e = absurd cc
parts_injective (x ∷ z ∷ us) [] u p v q e = absurd cc
parts_injective (x ∷ us) (y ∷ vs) u p v q e =
    let a : x.username ≡ y.username = cc in
    let b : x.password_hash ≡ y.password_hash = cc in
    let (h, k, l) = parts_injective us vs u p v q cc in
    (ap₂ (λ (s : BasicUser) (ss : List BasicUser). s ∷ ss) (same a b) h, k, l)
  where
    same : {x y : BasicUser} → x.username ≡ y.username → x.password_hash ≡ y.password_hash → x ≡ y
    same a b = λ i. record { username = a i; password_hash = b i }

module _ (hmac : Text → Text) (compare_hash : Text → Text → Compared) where
  abbrev accepts : Text → Text × Bool → Bool
  accepts password (hash, known) =
      not (is_empty hash) && (is_match (compare_hash hash password) && known)

  -- The verification of a credential with no cache.
  abbrev pub checked : BasicSource → Text → Text → Bool
  checked src u p =
      not (ltb max_basic_credential_len (length u + length p))
      && accepts p (known_hash src (hash_for src u))

  abbrev pub key_of : BasicSource → Text → Text → Text
  key_of src u p = key hmac compare_hash (basic_fingerprint src) u p

  -- An entry was stored for a credential that checks so.
  abbrev pub From : Bool → Text × ℕ → Type 0
  From b (k, exp) =
      (src : BasicSource) × (u : Text) × (p : Text) × Delimited src u p
      × (k ≡ key_of src u p)
      × (checked src u p ≡ b)

  pub record Sound (r : BasicRegistry) : Type 0 where
    pub cache : All (From true) r.cache
    pub negative : All (From false) r.negative

  module _ (hmac_injective : (s t : Text) → hmac s ≡ hmac t → s ≡ t) where
    key-checked :
        (src src' : BasicSource) (u p u' p' : Text)
        → Delimited src u p
        → Delimited src' u' p'
        → key_of src u p ≡ key_of src' u' p'
        → checked src u p ≡ checked src' u' p'
    unfolding key hash_for
    key-checked src src' u p u' p' d d' e =
        let joined = sym (join-parts src u p) ∙ hmac_injective _ _ e ∙ join-parts src' u' p' in
        let (realms, rest) =
          join_injective 0 src.realm (parts src u p) src'.realm (parts src' u' p')
            (d.realm, parts-Free src.users u p d.users d.username d.password)
            (d'.realm, parts-Free src'.users u' p' d'.users d'.username d'.password) joined in
        let (us, k, l) = parts_injective src.users src'.users u p u' p' rest in
        rw us (rw k (rw l refl))

    From-checked :
        (b : Bool) (src : BasicSource) (u p : Text) (exp : ℕ)
        → Delimited src u p
        → From b (key_of src u p, exp)
        → checked src u p ≡ b
    From-checked b src u p exp d (src', u', p', d', e, c) =
        key-checked src src' u p u' p' d d' e ∙ c

  -- What a lookup finds was stored.
  abbrev pub Stored : Text → Option Bool → Type 0
  Stored k none = Unit
  Stored k (some b) = (exp : ℕ) × From b (k, exp)

  pub record Kept (k : Text) (q : Option Bool × BasicRegistry) : Type 0 where
    pub found : Stored k q.0
    pub sound : Sound q.1

  negative-Sound :
      (now : ℕ) (k : Text) (r : BasicRegistry) → Sound r → Kept k (lookup_negative now k r)
  unfolding lookup_negative
  negative-Sound now k r s = elim (Option-cases (find r.negative k)) [
    | inl n ↦ rw (n, lookup_negative) (record { found = tt; sound = s })
    | inr (exp, e) ↦ elim (Bool-cases (ltb now exp)) [
      | inl t ↦
          rw (e, lookup_negative)
            (rw t (record {
              found = (exp, All-find (From false) r.negative k exp s.negative e);
              sound = s;
            }))
      | inr f ↦
          rw (e, lookup_negative)
            (rw f (record {
              found = tt;
              sound = record {
                cache = s.cache;
                negative = All-delete (From false) k r.negative s.negative;
              };
            }))
    ]
  ]

  pub lookup-Sound : (now : ℕ) (k : Text) (r : BasicRegistry) → Sound r → Kept k (lookup now k r)
  unfolding lookup
  lookup-Sound now k r s = elim (Option-cases (find r.cache k)) [
    | inl n ↦ rw (n, lookup) (negative-Sound now k r s)
    | inr (exp, e) ↦ elim (Bool-cases (ltb now exp)) [
      | inl t ↦
          rw (e, lookup)
            (rw t
              (record { found = (exp, All-find (From true) r.cache k exp s.cache e); sound = s }))
      | inr f ↦
          rw (e, lookup)
            (rw f (
              negative-Sound now k (record r { cache = delete k r.cache })
                (record {
                  cache = All-delete (From true) k r.cache s.cache;
                  negative = s.negative;
                })))
    ]
  ]

  All-room : (b : Bool) (most : ℕ) (m : Cache) → All (From b) m → All (From b) (room most m)
  All-room b most m h = elim (Bool-cases (leb most (length m))) [
    | inl t ↦ rw (t, room) tt
    | inr f ↦ rw (f, room) h
  ]

  pub store-Sound :
      (now : ℕ) (src : BasicSource) (u p : Text) (b : Bool) (r : BasicRegistry)
      → Delimited src u p
      → checked src u p ≡ b
      → Sound r
      → Sound (store now (key_of src u p) b r)
  unfolding store put
  store-Sound now src u p true r d c s = record {
    cache = (
      (src, u, p, d, refl, c),
      All-delete (From true) (key_of src u p) (room max_basic_cache_entries r.cache)
          (All-room true max_basic_cache_entries r.cache s.cache),
    );
    negative = s.negative;
  }
  store-Sound now src u p false r d c s = record {
    cache = s.cache;
    negative = (
      (src, u, p, d, refl, c),
      All-delete (From false) (key_of src u p) (room max_basic_negative_cache_entries r.negative)
          (All-room false max_basic_negative_cache_entries r.negative s.negative),
    );
  }

  -- A call got the verdict of a comparison, unless it got no slot.
  abbrev pub Answers : Attempt → BasicSource → Text → Text → Answer → Type 0
  Answers a src u p (verified b) = checked src u p ≡ b
  Answers a src u p saturated = a.slot ≡ false

  record Done (a : Attempt) (src : BasicSource) (u p : Text) (q : Answer × BasicRegistry)
      : Type 0 where
    answer : Answers a src u p q.0
    sound : Sound q.1

  module _ (hmac_injective : (s t : Text) → hmac s ≡ hmac t → s ≡ t) where
    verify_uncached-Done :
        (a : Attempt) (src : BasicSource) (u p hash : Text) (known : Bool) (r : BasicRegistry)
        → Delimited src u p
        → checked src u p ≡ accepts p (hash, known)
        → Sound r
        → Done a src u p (verify_uncached hmac compare_hash a (key_of src u p) p (hash, known) r)
    verify_uncached-Done a src u p [] known r d c s = record { answer = c; sound = s }
    verify_uncached-Done a src u p (h ∷ hs) known r d c s = elim (Bool-cases a.slot) [
      | inl t ↦
          rw (t, verify_uncached)
            (record { answer = c; sound = store-Sound a.stored_at src u p _ r d c s })
      | inr f ↦ rw (f, verify_uncached) (record { answer = refl; sound = s })
    ]

    cached_or-Done :
        (a : Attempt) (src : BasicSource) (u p : Text) (q : Option Bool × BasicRegistry)
        → Delimited src u p
        → ltb max_basic_credential_len (length u + length p) ≡ false
        → Kept (key_of src u p) q
        → Done a src u p (cached_or hmac compare_hash a src u p (key_of src u p) q)
    cached_or-Done a src u p (some b, r) d short h = record {
      answer = let (exp, from) = h.found in From-checked hmac_injective b src u p exp d from;
      sound = h.sound;
    }
    cached_or-Done a src u p (none, r) d short h =
        let (hash, known) = known_hash src (hash_for src u) in
        verify_uncached-Done a src u p hash known r d (rw (short, checked) refl) h.sound

    -- If every entry of the cache is what a comparison came to, a call answers what a comparison with
    -- the last user of the name answers, or that no slot was free, and every entry is so afterwards.
    pub verify-checked :
        (a : Attempt) (src : BasicSource) (u p : Text) (r : BasicRegistry)
        → Delimited src u p
        → Sound r
        → Answers a src u p (verify hmac compare_hash a src u p r).0
          × Sound (verify hmac compare_hash a src u p r).1
    unfolding verify
    verify-checked a src u p r d s =
        elim (Bool-cases (ltb max_basic_credential_len (length u + length p))) [
          | inl t ↦ rw (t, verify) (rw (t, checked) refl, s)
          | inr f ↦
              let k = key_of src u p in
              let done =
                cached_or-Done a src u p (lookup a.looked_up_at k r) d f
                  (lookup-Sound a.looked_up_at k r s) in
              rw (f, verify) (done.answer, done.sound)
        ]
