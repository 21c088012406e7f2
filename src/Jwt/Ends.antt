-- ===== src/Jwt/Ends.antt =====
-- Every way that the verification of a bearer token ends.
use token_auth_proxy.Common.{
  ◌≡◌, ◌≢◌, refl, sym, ◌∙◌, inl, inr, ◌⊎◌, ◌↔◌, true, false, Option, none, some, List, [], ◌∷◌, All,
  Some, Bool-cases, Option-cases, subst, any_iff, any-false,
}
use token_auth_proxy.Text.{Text}
use token_auth_proxy.Config.{JwtSource, InboundAuth, jwt_sources_by_issuer}
use token_auth_proxy.Acl.{Principal}
use token_auth_proxy.Jwt.{
  Tokens, Reason, keys_unavailable, Tried, verified, all_failed, try_candidates,
  is_keys_unavailable, answer, refused, with_candidates, enforce_token, JwtOutcome, jwt_allowed,
  jwt_unavailable, jwt_rejected, jwt_stale, invalid_claims, unknown_issuer,
}
use token_auth_proxy.Jwt.Sound.{
  accepts, Verified, try_candidates-Verified, lacks_keys, try_candidates-failed,
}

module _ {Keys : Type 0} (tokens : Tokens Keys) where
  open tokens use {keyfunc, unverified_issuer, read_cookie}

  abbrev pub Refused : Text → List JwtSource → Type 0
  Refused raw srcs = All (λ s. accepts tokens raw s ≡ false) srcs

  -- The four ends for a token that names a source's issuer: the first source that accepts decides;
  -- if none does, missing keys come before anything else, and a token from a login cookie is stale.
  pub data Ends (raw : Text) (login : Option JwtSource) (srcs : List JwtSource)
      : JwtOutcome → Type 0 where
    allowed : {p : Principal} → Verified tokens raw srcs p → Ends raw login srcs (jwt_allowed p)
    unavailable :
        Refused raw srcs
        → Some (λ s. keyfunc s ≡ none) srcs
        → Ends raw login srcs (jwt_unavailable keys_unavailable)
    stale :
        (src : JwtSource)
        → login ≡ some src
        → Refused raw srcs
        → All (λ s. keyfunc s ≢ none) srcs
        → Ends raw login srcs jwt_stale
    rejected :
        (why : Reason)
        → login ≡ none
        → Refused raw srcs
        → All (λ s. keyfunc s ≢ none) srcs
        → Ends raw login srcs (jwt_rejected why)

  lacks_iff : (s : JwtSource) → (lacks_keys tokens s ≡ true) ↔ (keyfunc s ≡ none)
  lacks_iff s = elim (Option-cases (keyfunc s)) [
    | inl n ↦ (λ h. n, λ h. rw (n, lacks_keys) refl)
    | inr (k, e) ↦
        (λ h. absurd (let c : false ≡ true = rw (e, lacks_keys) at h in cc), λ h. absurd cc)
  ]

  has_keys :
      (srcs : List JwtSource)
      → All (λ s. lacks_keys tokens s ≡ false) srcs
      → All (λ s. keyfunc s ≢ none) srcs
  has_keys [] h = tt
  has_keys (s ∷ ss) (h, hs) =
      (λ n. (let t : lacks_keys tokens s ≡ true = (lacks_iff s).1 n in cc), has_keys ss hs)

  Tried-cases :
      (q : Tried) → ((p : Principal) × (q ≡ verified p)) ⊎ ((w : Reason) × (q ≡ all_failed w))
  Tried-cases (verified p) = inl (p, refl)
  Tried-cases (all_failed w) = inr (w, refl)

  keys-reason : (w : Reason) → is_keys_unavailable tokens w ≡ true → w ≡ keys_unavailable
  keys-reason keys_unavailable h = refl
  keys-reason _ h = absurd cc

  refused-Ends :
      (raw : Text) (login : Option JwtSource) (srcs : List JwtSource) (why : Reason)
      → Refused raw srcs
      → All (λ s. keyfunc s ≢ none) srcs
      → Ends raw login srcs (refused tokens login why)
  refused-Ends raw none srcs why r k = rejected why refl r k
  refused-Ends raw (some src) srcs why r k = stale src refl r k

  answer-Ends :
      (raw : Text) (login : Option JwtSource) (srcs : List JwtSource)
      → Ends raw login srcs
          (answer tokens login (try_candidates tokens raw false invalid_claims srcs))
  answer-Ends raw login srcs =
      elim (Tried-cases (try_candidates tokens raw false invalid_claims srcs)) [
        | inl (p, e) ↦
            rw (e, answer)
              (allowed (try_candidates-Verified tokens raw false invalid_claims srcs p e))
        | inr (w, e) ↦
            let (r, k) = try_candidates-failed tokens raw false invalid_claims srcs w refl e in
            elim (Bool-cases (is_keys_unavailable tokens w)) [
              | inl t ↦
                  rw (e, answer)
                    (rw t (
                      subst (λ x. Ends raw login srcs (jwt_unavailable x)) (sym (keys-reason w t))
                        (unavailable r (
                          (any_iff (lacks_keys tokens) (λ s. keyfunc s ≡ none) lacks_iff srcs).0
                            (sym k ∙ t)))))
              | inr f ↦
                  rw (e, answer)
                    (rw f (
                      refused-Ends raw login srcs w r
                        (has_keys srcs (any-false (lacks_keys tokens) srcs (sym k ∙ f)))))
            ]
      ]

  -- A token whose issuer can be read ends in one of the four ways, over the enabled sources of that
  -- issuer in their order, whatever the sources' keys and the library's verdicts are.
  pub enforce_token-Ends :
      (auth : InboundAuth) (raw iss : Text) (login : Option JwtSource)
      → unverified_issuer raw ≡ some iss
      → Ends raw login (jwt_sources_by_issuer auth iss) (enforce_token tokens auth raw login)
  unfolding enforce_token
  enforce_token-Ends auth raw iss login h =
      rw (h, enforce_token) (go (jwt_sources_by_issuer auth iss))
    where
      go : (srcs : List JwtSource) → Ends raw login srcs (with_candidates tokens login raw srcs)
      go [] = refused-Ends raw login [] unknown_issuer tt tt
      go (s ∷ ss) = answer-Ends raw login (s ∷ ss)
