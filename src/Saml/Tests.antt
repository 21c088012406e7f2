-- ===== src/Saml/Tests.antt =====
-- Runs of the SAML registry.
use token_auth_proxy.Common.{
  ℕ, ◌≡◌, refl, Option, none, some, [], ◌∷◌, All, eqb, if◌then◌else◌, ◌before◌,
}
use token_auth_proxy.Text.{Text, text, ◌==◌, join}
use token_auth_proxy.Config.{SamlSource}
use token_auth_proxy.Settings.Tests.{saml}
use token_auth_proxy.Saml.{
  Entity, fetch_metadata, metadata, no_metadata, other_entity, reply, expiry_at, over_idps,
  over_keys, over_certificates, validate_shape,
}
use token_auth_proxy.Saml.Registry.{
  SamlRegistry, new_saml_registry, fetched, not_fetched, not_built, provided, provider, refresh_now,
  saml_fingerprint, serve_acs_retrying,
}
use token_auth_proxy.Saml.Registry.Serves.{
  request, called_back, answers, IsProvided, answers-IsProvided,
}

abbrev show : ℕ → Text
show d = d ∷ []

abbrev src : SamlSource
src = saml (text "/acs") (text "session")

-- A provider is known by a number; the first fetch of all succeeds.
abbrev built : SamlRegistry ℕ
built = (provider show 0 0 (fetched 1 none) src new_saml_registry).1

first_call : (provider {P = ℕ} show 0 0 (fetched 1 none) src new_saml_registry).0 ≡ provided 1
unfolding provider saml_fingerprint join ◌==◌
first_call = refl

-- The fetches after it fail, long after the metadata was due.
answers-IsProvided_example : All IsProvided (
    answers show
      (request 9000000000000 9000000000000 (not_fetched not_built) src
        ∷ called_back 9900000000000 (not_fetched not_built) src
        ∷ request 9900000000000 9900000000001 (fetched 2 none) src
        ∷ [])
      built)
unfolding provider ◌==◌
answers-IsProvided_example =
    answers-IsProvided show (saml_fingerprint show src)
      (request 9000000000000 9000000000000 (not_fetched not_built) src
        ∷ called_back 9900000000000 (not_fetched not_built) src
        ∷ request 9900000000000 9900000000001 (fetched 2 none) src
        ∷ [])
      built refl tt (refl, (refl, (refl, tt)))

-- Audiences that are told apart by what stands between them share a fingerprint.
shared_fingerprint :
    saml_fingerprint show (record src { audiences = text "a,b" ∷ [] })
    ≡ saml_fingerprint show (record src { audiences = text "a" ∷ text "b" ∷ [] })
unfolding saml_fingerprint join
shared_fingerprint = refl

-- A key that only encrypts, and one of each; the expired certificate does not count.
abbrev entity : Entity
entity = record {
  entity_id = text "idp";
  idps =
      record {
        keys =
            record { use_for = text "encryption"; certificates = (1 ∷ []) ∷ [] }
            ∷ record { use_for = []; certificates = (3 ∷ []) ∷ (9 ∷ []) ∷ (7 ∷ []) ∷ [] }
            ∷ [];
        sso_services = text "https://idp/sso" ∷ [];
      }
      ∷ [];
}

abbrev first_byte : Text → Option ℕ
first_byte [] = none
first_byte (b ∷ bs) = some b

soonest :
    (expiry_at (λ t. some t) first_byte entity 5 ≡ some 7)
    × (expiry_at (λ t. some t) first_byte entity 50 ≡ some 3)
unfolding expiry_at over_idps over_keys over_certificates ◌==◌
soonest = (refl, refl)

fetches :
    (fetch_metadata (λ t. some entity) (text "idp") (reply 200 (some [])) ≡ metadata entity)
    × (fetch_metadata (λ t. some entity) (text "other") (reply 200 (some []))
        ≡ no_metadata other_entity)
unfolding fetch_metadata validate_shape ◌==◌ ◌before◌
fetches = (refl, refl)

-- A called_back that fails with the first provider, and not with the second.
second_chance :
    (serve_acs_retrying show
      (λ p. p)
      (λ r. if eqb r 1 then 403 else 302)
      1
      9000000000000
      (fetched 2 none)
      src
      built).0
    ≡ 2
unfolding serve_acs_retrying refresh_now provider saml_fingerprint join ◌==◌
second_chance = refl
