-- ===== src/Oauth/Seal/Opened.antt =====
-- What is sealed opens again, under the same kind and no other, also after the keys were rotated.
use token_auth_proxy.Common.{
  ◌≡◌, ◌≢◌, refl, ap, ap₂, ◌∙◌, false, Option, none, some, List, [], ◌∷◌, ◌++◌, if◌then◌else◌, ltb,
  length, All, arith, length-append, inl, inr, ◌⊎◌, subst,
}
use token_auth_proxy.Text.{Text}
use token_auth_proxy.Jwt.{take, drop}
use token_auth_proxy.Oauth.Seal.{Aead, Sealer, Codec, Base64, seal, try_key, open_raw, open_token}

pub take-append : (n s : Text) → take (length n) (n ++ s) ≡ n
unfolding take
take-append [] s = refl
take-append (c ∷ n) s = ap (λ (x : Text). c ∷ x) (take-append n s)

pub drop-append : (n s : Text) → drop (length n) (n ++ s) ≡ s
unfolding drop
drop-append [] s = refl
drop-append (c ∷ n) s = drop-append n s

-- A key opens what it sealed, under the kind it was sealed for and no other.
pub record Authentic (a : Aead) : Type 0 where
  pub opens :
      (nonce plain kind : Text) → a.open_with nonce (a.seal_with nonce plain kind) kind ≡ some plain
  pub binds :
      (nonce plain kind kind' : Text)
      → kind ≢ kind'
      → a.open_with nonce (a.seal_with nonce plain kind) kind' ≡ none

-- A key does not open what another key sealed.
abbrev pub Rejects : Aead → Aead → Type 0
Rejects a b =
    (nonce plain kind kind' : Text) → try_key kind' (nonce ++ a.seal_with nonce plain kind) b ≡ none

long_enough : (n s : Text) → ltb (length (n ++ s)) (length n) ≡ false
long_enough n s = let e = length-append n s in ground arith

try_key-own :
    (a : Aead) (nonce plain kind kind' : Text)
    → length nonce ≡ a.nonce_size
    → try_key kind' (nonce ++ a.seal_with nonce plain kind) a
      ≡ a.open_with nonce (a.seal_with nonce plain kind) kind'
try_key-own a nonce plain kind kind' n =
    let sealed = a.seal_with nonce plain kind in
    let raw = nonce ++ sealed in
    subst
      (λ k.
        ◌≡◌ {A = Option Text}
          (if ltb (length raw) k then none else a.open_with (take k raw) (drop k raw) kind')
          (a.open_with nonce sealed kind'))
      n
      (rw (long_enough nonce sealed) (
        ap₂ (λ (x y : Text). a.open_with x y kind') (take-append nonce sealed)
          (drop-append nonce sealed)))

module _ (base64 : Base64) {A : Type 0} (codec : Codec A) where
  open_raw-skip :
      (a : Aead) (nonce plain kind kind' : Text) (before rest : List Aead)
      → All (Rejects a) before
      → open_raw base64 codec kind' (nonce ++ a.seal_with nonce plain kind) (before ++ rest)
        ≡ open_raw base64 codec kind' (nonce ++ a.seal_with nonce plain kind) rest
  unfolding open_raw
  open_raw-skip a nonce plain kind kind' [] rest h = refl
  open_raw-skip a nonce plain kind kind' (b ∷ before) rest (h, hs) =
      rw (h nonce plain kind kind', open_raw)
        (open_raw-skip a nonce plain kind kind' before rest hs)

  open_raw-none :
      (a : Aead) (nonce plain kind kind' : Text) (keys : List Aead)
      → Authentic a
      → length nonce ≡ a.nonce_size
      → kind ≢ kind'
      → All (λ b. (b ≡ a) ⊎ Rejects a b) keys
      → open_raw base64 codec kind' (nonce ++ a.seal_with nonce plain kind) keys ≡ none
  unfolding open_raw
  open_raw-none a nonce plain kind kind' [] auth n ne h = refl
  open_raw-none a nonce plain kind kind' (b ∷ keys) auth n ne (h, hs) =
      let rejected : try_key kind' (nonce ++ a.seal_with nonce plain kind) b ≡ none = elim h [
        | inl e ↦
            ap (try_key kind' (nonce ++ a.seal_with nonce plain kind)) e
            ∙ try_key-own a nonce plain kind kind' n
            ∙ auth.binds nonce plain kind kind' ne
        | inr r ↦ r nonce plain kind kind'
      ] in
      rw (rejected, open_raw) (open_raw-none a nonce plain kind kind' keys auth n ne hs)

  open_token-raw :
      (old new : Sealer) (nonce kind kind' : Text) (v : A)
      → ((raw : Text) → base64.decode (base64.encode raw) ≡ some raw)
      → open_token base64 codec new kind' (seal base64 codec old nonce kind v)
        ≡ open_raw base64 codec kind'
            (nonce ++ old.first.seal_with nonce (codec.marshal v) kind)
            (new.first ∷ new.others)
  unfolding open_token seal
  open_token-raw old new nonce kind kind' v round =
      let raw = nonce ++ old.first.seal_with nonce (codec.marshal v) kind in
      ap
        (λ (o : Option Text). elim o [
          | none ↦ none
          | some r ↦ open_raw base64 codec kind' r (new.first ∷ new.others)
        ])
        (round raw)

  -- What was sealed under a key opens to the same value for as long as that key is among the keys,
  -- whichever keys were put before it, provided that keys are authentic and do not open what others
  -- sealed, and that the two encodings give back what they are given.
  pub open_token-seal :
      (old new : Sealer) (before after : List Aead) (nonce kind : Text) (v : A)
      → Authentic old.first
      → length nonce ≡ old.first.nonce_size
      → new.first ∷ new.others ≡ before ++ (old.first ∷ after)
      → All (Rejects old.first) before
      → ((raw : Text) → base64.decode (base64.encode raw) ≡ some raw)
      → codec.unmarshal (codec.marshal v) ≡ some v
      → open_token base64 codec new kind (seal base64 codec old nonce kind v) ≡ some v
  unfolding open_token seal open_raw
  open_token-seal old new before after nonce kind v auth n split rej round same =
      let raw = nonce ++ old.first.seal_with nonce (codec.marshal v) kind in
      let opened : open_raw base64 codec kind raw (old.first ∷ after) ≡ some v =
        rw
          (
            try_key-own old.first nonce (codec.marshal v) kind kind n
                ∙ auth.opens nonce (codec.marshal v) kind,
            open_raw,
          )
          same in
      open_token-raw old new nonce kind kind v round
      ∙ (ap (open_raw base64 codec kind raw) split
          ∙ open_raw-skip old.first nonce (codec.marshal v) kind kind before (old.first ∷ after) rej
          ∙ opened)

  -- What was sealed for one kind opens under no other kind, if the key that sealed is authentic and
  -- each other key rejects the text.
  pub open_token-kind :
      (old new : Sealer) (nonce kind kind' : Text) (v : A)
      → Authentic old.first
      → length nonce ≡ old.first.nonce_size
      → kind ≢ kind'
      → All (λ b. (b ≡ old.first) ⊎ Rejects old.first b) (new.first ∷ new.others)
      → ((raw : Text) → base64.decode (base64.encode raw) ≡ some raw)
      → open_token base64 codec new kind' (seal base64 codec old nonce kind v) ≡ none
  unfolding open_token seal
  open_token-kind old new nonce kind kind' v auth n ne keys round =
      open_token-raw old new nonce kind kind' v round
      ∙ (open_raw-none old.first nonce (codec.marshal v) kind kind' (new.first ∷ new.others) auth n
          ne keys)
