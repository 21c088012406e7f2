-- ===== src/Config/Pem.antt =====
-- internal/config/ca.go and saml_keys.go: bundles of CA certificates, and the key pair of the SAML
-- service provider. The packages pem, x509 and base64 are parameters. The loop over the blocks runs
-- on fuel: one more than the text has bytes, since pem.Decode takes at least one byte with a block.
use token_auth_proxy.Common.{
  ℕ, zero, suc, ◌+◌, Bool, not, Option, none, some, List, [], ◌∷◌, keep, length, if◌then◌else◌,
}
use token_auth_proxy.Text.{Text, text, ◌==◌, contains, is_space}

pub record Block : Type 0 where
  pub kind : Text
  pub bytes : Text

pub record Crypto (Cert : Type 0) (Key : Type 0) : Type 0 where
  -- The first block of a text, with what follows it.
  pub pem_decode : Text → Option (Block × Text)
  pub parse_certificate : Text → Option Cert
  pub base64_decode : Text → Option Text
  pub parse_pkcs1 : Text → Option Key
  -- `some none` is a key of another algorithm.
  pub parse_pkcs8 : Text → Option (Option Key)
  -- Whether a certificate's public key is the one of a private key, `none` where it is not RSA.
  pub is_key_of : Key → Cert → Option Bool
  -- Whether bcrypt.Cost reads a hash.
  pub is_bcrypt : Text → Bool

pub data PemError : Type 0 where
  not_certificate bad_certificate : ℕ → PemError
  truncated not_base64 no_certificate : PemError
  in_base64 : PemError → PemError
  no_block bad_key not_rsa : PemError

-- The certificates of a text, in order.
pub data Bundle (Cert : Type 0) : Type 0 where
  bundle : List Cert → Bundle Cert
  bad_bundle : PemError → Bundle Cert

pub data ParsedPem (A : Type 0) : Type 0 where
  parsed : A → ParsedPem A
  unparsed : PemError → ParsedPem A

module _ {Cert : Type 0} {Key : Type 0} (crypto : Crypto Cert Key) where
  open crypto use {pem_decode, parse_certificate, base64_decode, parse_pkcs1, parse_pkcs8}

  abbrev with_cert : ℕ → Option Cert → Bundle Cert → Bundle Cert
  with_cert n none rest = bad_bundle (bad_certificate n)
  with_cert n (some cert) (bundle certs) = bundle (cert ∷ certs)
  with_cert n (some cert) (bad_bundle e) = bad_bundle e

  unfoldable pub decode_blocks : ℕ → ℕ → Text → Bundle Cert
  decode_blocks zero n raw = bundle []
  decode_blocks (suc fuel) n raw = elim (pem_decode raw) [
    | none ↦ bundle []
    | some (block, rest) ↦
        if not (block.kind == text "CERTIFICATE")
        then bad_bundle (not_certificate n)
        else with_cert n (parse_certificate block.bytes) (decode_blocks fuel (n + 1) rest)
  ]

  unfoldable pub decode_pem_cert_blocks : Text → Bundle Cert
  unfolding decode_blocks
  decode_pem_cert_blocks raw = decode_blocks (suc (length raw)) 1 raw

  abbrev from_decoded : Bundle Cert → Bundle Cert
  from_decoded (bad_bundle e) = bad_bundle (in_base64 e)
  from_decoded (bundle []) = bad_bundle no_certificate
  from_decoded (bundle certs) = bundle certs

  abbrev from_base64 : Option Text → Bundle Cert
  from_base64 none = bad_bundle not_base64
  from_base64 (some decoded) = from_decoded (decode_pem_cert_blocks decoded)

  abbrev without_space : Text → Text
  without_space raw = keep (λ c. not (is_space c)) raw

  abbrev as_pem : Text → Bundle Cert → Bundle Cert
  as_pem raw (bad_bundle e) = bad_bundle e
  as_pem raw (bundle []) =
      if contains raw (text "-----BEGIN")
      then bad_bundle truncated
      else from_base64 (base64_decode (without_space raw))
  as_pem raw (bundle certs) = bundle certs

  unfoldable pub parse_ca_cert_pool : Text → Bundle Cert
  unfolding decode_pem_cert_blocks
  parse_ca_cert_pool raw = as_pem raw (decode_pem_cert_blocks raw)

  abbrev ca_error : Bundle Cert → Option PemError
  ca_error (bundle certs) = none
  ca_error (bad_bundle e) = some e

  unfoldable pub check_ca : Text → Option PemError
  unfolding parse_ca_cert_pool
  check_ca raw = ca_error (parse_ca_cert_pool raw)

  abbrev from_pkcs8 : Option (Option Key) → ParsedPem Key
  from_pkcs8 none = unparsed bad_key
  from_pkcs8 (some none) = unparsed not_rsa
  from_pkcs8 (some (some k)) = parsed k

  abbrev from_pkcs1 : Text → Option Key → ParsedPem Key
  from_pkcs1 bytes (some k) = parsed k
  from_pkcs1 bytes none = from_pkcs8 (parse_pkcs8 bytes)

  unfoldable pub parse_sp_private_key : Text → ParsedPem Key
  parse_sp_private_key pem = elim (pem_decode pem) [
    | none ↦ unparsed no_block
    | some (block, rest) ↦ from_pkcs1 block.bytes (parse_pkcs1 block.bytes)
  ]

  abbrev from_der : Option Cert → ParsedPem Cert
  from_der none = unparsed (bad_certificate 0)
  from_der (some cert) = parsed cert

  unfoldable pub parse_sp_certificate : Text → ParsedPem Cert
  parse_sp_certificate pem = elim (pem_decode pem) [
    | none ↦ unparsed no_block
    | some (block, rest) ↦ from_der (parse_certificate block.bytes)
  ]
