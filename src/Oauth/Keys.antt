-- ===== src/Oauth/Keys.antt =====
-- internal/oauth/keys.go: the key that signs and the keys that are published. The private keys and
-- their public halves are parameters.
use token_auth_proxy.Common.{
  ◌≡◌, ◌≢◌, refl, Option, none, some, List, [], ◌∷◌, All, if◌then◌else◌, Bool-cases, inl, inr,
  subst,
}
use token_auth_proxy.Text.{Text, ◌==◌, ==_iff}

pub record KeyPair (Private : Type 0) : Type 0 where
  pub kid : Text
  pub key : Private

pub record KeyManager (Private Public : Type 0) : Type 0 where
  pub active : KeyPair Private
  -- The entries of the JWKS.
  pub published : List (Text × Public)
  pub by_kid : Text → Option Public

module _ {Private Public : Type 0} (public_of : Private → Public) where
  abbrev published_keys : List (KeyPair Private) → List (Text × Public)
  published_keys [] = []
  published_keys (k ∷ ks) = (k.kid, public_of k.key) ∷ published_keys ks

  -- The assignments to the map in order, of which the last one of a kid counts.
  abbrev or_earlier : Option Public → Option Public → Option Public
  or_earlier none earlier = earlier
  or_earlier (some later) earlier = some later

  unfoldable pub keys_by_kid : List (KeyPair Private) → Text → Option Public
  keys_by_kid [] kid = none
  keys_by_kid (k ∷ ks) kid =
      let later = keys_by_kid ks kid in
      or_earlier later (if k.kid == kid then some (public_of k.key) else none)

  -- `none` is the error that there are no signing keys.
  unfoldable pub new_key_manager : List (KeyPair Private) → Option (KeyManager Private Public)
  unfolding keys_by_kid
  new_key_manager [] = none
  new_key_manager (k ∷ ks) =
      some
        (record { active = k; published = published_keys (k ∷ ks); by_kid = keys_by_kid (k ∷ ks) })

  -- keyfunc, for the kid of a token's header, which is empty where there is none.
  abbrev kid_or_empty : Option Text → Text
  kid_or_empty none = []
  kid_or_empty (some kid) = kid

  unfoldable pub key_for : KeyManager Private Public → Option Text → Option Public
  key_for m kid = m.by_kid (kid_or_empty kid)

  other_kid :
      (ks : List (KeyPair Private)) (kid : Text)
      → All (λ k. k.kid ≢ kid) ks
      → keys_by_kid ks kid ≡ none
  unfolding keys_by_kid
  other_kid [] kid h = refl
  other_kid (k ∷ ks) kid (ne, rest) = elim (Bool-cases (k.kid == kid)) [
    | inl t ↦ absurd (ne ((==_iff k.kid kid).0 t))
    | inr f ↦ rw (other_kid ks kid rest, f) refl
  ]

  -- A token that the active key signs is verified by that key's public half, if no other key has its
  -- kid.
  key_for-active :
      (k : KeyPair Private) (ks : List (KeyPair Private)) (m : KeyManager Private Public)
      → new_key_manager (k ∷ ks) ≡ some m
      → All (λ other. other.kid ≢ k.kid) ks
      → key_for m (some m.active.kid) ≡ some (public_of m.active.key)
  unfolding new_key_manager key_for keys_by_kid
  key_for-active k ks m h apart =
      let made : record {
        active = k;
        published = published_keys (k ∷ ks);
        by_kid = keys_by_kid (k ∷ ks);
      }
          ≡ m =
        cc in
      subst (λ x. key_for x (some x.active.kid) ≡ some (public_of x.active.key)) made
        (rw (other_kid ks k.kid apart, (==_iff k.kid k.kid).1 refl) refl)
