-- ===== src/Basic/Sound/Credential.antt =====
-- Which credentials a comparison accepts, stated without the code's loop.
use token_auth_proxy.Common.{
  ℕ, ◌+◌, ◌≤◌, ◌≡◌, ◌≢◌, refl, ap, ◌∙◌, ◌⊎◌, ◌↔◌, inl, inr, Bool, true, false, not, ◌&&◌, Option,
  none, some, List, [], ◌∷◌, ◌++◌, is_empty, ltb, length, All, Bool-cases, arith, &&_iff,
}
use token_auth_proxy.Text.{Text, ◌==◌, ==_iff}
use token_auth_proxy.Config.{BasicUser, BasicSource}
use token_auth_proxy.Basic.{
  hash_from, hash_for, any_hash, Compared, matched, mismatched, malformed, is_match, known_hash,
  max_basic_credential_len,
}
use token_auth_proxy.Basic.Sound.{checked, accepts}

-- The last of the users that has the name.
pub record LastNamed (us : List BasicUser) (name : Text) (user : BasicUser) : Type 0 where
  pub before : List BasicUser
  pub after : List BasicUser
  pub split : us ≡ before ++ (user ∷ after)
  pub same : user.username ≡ name
  pub later : All (λ u. (u.username == name) ≡ false) after

hash_from-All :
    (us : List BasicUser) (name : Text) (o : Option Text)
    → All (λ u. (u.username == name) ≡ false) us
    → hash_from o us name ≡ o
unfolding hash_from
hash_from-All [] name o h = refl
hash_from-All (u ∷ us) name o (h, hs) = rw h (hash_from-All us name o hs)

hash_from-append :
    (xs ys : List BasicUser) (name : Text) (o : Option Text)
    → hash_from o (xs ++ ys) name ≡ hash_from (hash_from o xs name) ys name
unfolding hash_from
hash_from-append [] ys name o = refl
hash_from-append (x ∷ xs) ys name o = hash_from-append xs ys name _

-- Where no user has the name, what was there before is kept.
hash_from-cases :
    (us : List BasicUser) (name : Text) (o : Option Text) (hash : Text)
    → hash_from o us name ≡ some hash
    → (All (λ u. (u.username == name) ≡ false) us × (o ≡ some hash))
      ⊎ ((user : BasicUser) × LastNamed us name user × (user.password_hash ≡ hash))
unfolding hash_from
hash_from-cases [] name o hash h = inl (tt, h)
hash_from-cases (u ∷ us) name o hash h = elim (Bool-cases (u.username == name)) [
  | inl t ↦ elim (hash_from-cases us name (some u.password_hash) hash (rw t at h)) [
    | inl (free, e) ↦ inr (
      u,
      record {
        before = [];
        after = us;
        split = refl;
        same = (==_iff u.username name).0 t;
        later = free;
      },
      cc,
    )
    | inr (user, l, e) ↦ inr (
      user,
      record {
        before = u ∷ l.before;
        after = l.after;
        split = ap (λ (x : List BasicUser). u ∷ x) l.split;
        same = l.same;
        later = l.later;
      },
      e,
    )
  ]
  | inr f ↦ elim (hash_from-cases us name o hash (rw f at h)) [
    | inl (free, e) ↦ inl ((f, free), e)
    | inr (user, l, e) ↦ inr (
      user,
      record {
        before = u ∷ l.before;
        after = l.after;
        split = ap (λ (x : List BasicUser). u ∷ x) l.split;
        same = l.same;
        later = l.later;
      },
      e,
    )
  ]
]

hash_for-cases :
    (src : BasicSource) (name hash : Text)
    → hash_for src name ≡ some hash
    → (All (λ u. (u.username == name) ≡ false) src.users × (none ≡ some hash))
      ⊎ ((user : BasicUser) × LastNamed src.users name user × (user.password_hash ≡ hash))
unfolding hash_for
hash_for-cases src name hash h = hash_from-cases src.users name none hash h

hash_for-LastNamed :
    (src : BasicSource) (name : Text) (user : BasicUser)
    → LastNamed src.users name user
    → hash_for src name ≡ some user.password_hash
unfolding hash_for hash_from
hash_for-LastNamed src name user l =
    ap (λ (us : List BasicUser). hash_from none us name) l.split
    ∙ hash_from-append l.before (user ∷ l.after) name none
    ∙ rw ((==_iff user.username name).1 l.same)
        (hash_from-All l.after name (some user.password_hash) l.later)

module _ (hmac : Text → Text) (compare_hash : Text → Text → Compared) where
  -- The credential is not over the limit, and its password matches the hash of the last user of
  -- its name, which is not empty.
  pub record Valid (src : BasicSource) (u p : Text) : Type 0 where
    pub user : BasicUser
    pub last : LastNamed src.users u user
    pub some_hash : user.password_hash ≢ []
    pub compared : compare_hash user.password_hash p ≡ matched
    pub short : length u + length p ≤ max_basic_credential_len

  is_match_iff : (c : Compared) → (is_match c ≡ true) ↔ (c ≡ matched)
  is_match_iff matched = (λ h. refl, λ h. refl)
  is_match_iff mismatched = (λ h. absurd cc, λ h. absurd cc)
  is_match_iff malformed = (λ h. absurd cc, λ h. absurd cc)

  short_iff : (n m : ℕ) → (not (ltb m n) ≡ true) ↔ (n ≤ m)
  short_iff n m = (λ h. ground arith, λ h. ground arith)

  not_empty : (s : Text) → not (is_empty s) ≡ true → s ≢ []
  not_empty [] h = λ e. cc
  not_empty (c ∷ s) h = λ e. cc

  empty_not : (s : Text) → s ≢ [] → not (is_empty s) ≡ true
  empty_not [] h = absurd (h refl)
  empty_not (c ∷ s) h = refl

  -- A credential checks exactly if it is valid.
  pub checked_iff :
      (src : BasicSource) (u p : Text) → (checked hmac compare_hash src u p ≡ true) ↔ Valid src u p
  checked_iff src u p = (to (hash_for src u) refl, from)
    where
      unknown : (a b c : Bool) → (a && (b && (c && false))) ≡ true → ⊥
      unknown true true true h = cc
      unknown true true false h = cc
      unknown true false c h = cc
      unknown false b c h = cc

      named :
          (hash : Text)
          → not (is_empty hash) ≡ true
          → is_match (compare_hash hash p) ≡ true
          → length u + length p ≤ max_basic_credential_len
          → (All (λ x. (x.username == u) ≡ false) src.users × (none ≡ some hash))
            ⊎ ((user : BasicUser) × LastNamed src.users u user × (user.password_hash ≡ hash))
          → Valid src u p
      named hash filled m short (inl (a, e)) = absurd cc
      named hash filled m short (inr (user, l, e)) = record {
        user = user;
        last = l;
        some_hash = rw e (not_empty hash filled);
        compared = rw e ((is_match_iff (compare_hash hash p)).0 m);
        short = short;
      }

      to :
          (o : Option Text)
          → hash_for src u ≡ o
          → (not (ltb max_basic_credential_len (length u + length p))
              && accepts hmac compare_hash p (known_hash src o))
            ≡ true
          → Valid src u p
      to none e h = absurd (
          unknown (not (ltb max_basic_credential_len (length u + length p)))
            (not (is_empty (any_hash src.users))) (is_match (compare_hash (any_hash src.users) p))
            h)
      to (some hash) e h =
          let (short, b) = (&&_iff _ _).0 h in
          let (filled, c) = (&&_iff (not (is_empty hash)) _).0 b in
          let (m, _) = (&&_iff (is_match (compare_hash hash p)) true).0 c in
          named hash filled m ((short_iff (length u + length p) max_basic_credential_len).0 short)
            (hash_for-cases src u hash e)

      from : Valid src u p → checked hmac compare_hash src u p ≡ true
      from v = rw (hash_for-LastNamed src u v.user v.last) (
          (&&_iff _ _).1 (
            (short_iff (length u + length p) max_basic_credential_len).1 v.short,
            (&&_iff _ _).1 (empty_not v.user.password_hash v.some_hash, rw v.compared refl),
          ))
