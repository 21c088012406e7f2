-- ===== src/Oauth/Seal.antt =====
-- internal/oauth/seal.go: authenticated encryption of a value under a kind. AES-GCM is a parameter
-- per key, and so are the encodings; a nonce is drawn by the caller.
pub mod Opened
use token_auth_proxy.Common.{
  ℕ, ◌<◌, Bool, true, false, Option, none, some, List, [], ◌∷◌, ◌++◌, if◌then◌else◌, ltb, length,
}
use token_auth_proxy.Text.{Text, text}
use token_auth_proxy.Jwt.{take, drop}

abbrev pub kind_pending : Text
kind_pending = text "pending"

abbrev pub kind_done : Text
kind_done = text "done"

abbrev pub kind_refresh : Text
kind_refresh = text "refresh"

abbrev pub kind_client : Text
kind_client = text "client"

pub record Aead : Type 0 where
  pub nonce_size : ℕ
  pub seal_with : Text → Text → Text → Text
  pub open_with : Text → Text → Text → Option Text

-- The first key seals; every key opens.
pub record Sealer : Type 0 where
  pub first : Aead
  pub others : List Aead

pub record Codec (A : Type 0) : Type 0 where
  pub marshal : A → Text
  pub unmarshal : Text → Option A

pub record Base64 : Type 0 where
  pub encode : Text → Text
  pub decode : Text → Option Text

-- newSealer refuses to do without a key.
unfoldable pub new_sealer : List Aead → Option Sealer
new_sealer [] = none
new_sealer (a ∷ as') = some (record { first = a; others = as' })

abbrev pub try_key : Text → Text → Aead → Option Text
try_key kind raw a =
    if ltb (length raw) a.nonce_size
    then none
    else a.open_with (take a.nonce_size raw) (drop a.nonce_size raw) kind

module _ (base64 : Base64) {A : Type 0} (codec : Codec A) where
  open base64 use {encode, decode}
  open codec use {marshal, unmarshal}

  unfoldable pub seal : Sealer → Text → Text → A → Text
  seal s nonce kind v = encode (nonce ++ s.first.seal_with nonce (marshal v) kind)

  -- The first key that opens the text decides.
  unfoldable pub open_raw : Text → Text → List Aead → Option A
  open_raw kind raw [] = none
  open_raw kind raw (a ∷ rest) = elim (try_key kind raw a) [
    | none ↦ open_raw kind raw rest
    | some plain ↦ unmarshal plain
  ]

  unfoldable pub open_token : Sealer → Text → Text → Option A
  unfolding open_raw
  open_token s kind token = elim (decode token) [
    | none ↦ none
    | some raw ↦ open_raw kind raw (s.first ∷ s.others)
  ]
