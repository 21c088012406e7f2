-- ===== src/Jwt/Sound.antt =====
-- Which bearer tokens are accepted, and what is reported of those that are not.
use token_auth_proxy.Common.{
  ◌≡◌, refl, sym, ap, ◌∙◌, inl, inr, ◌⊎◌, Bool, true, false, not, ◌&&◌, none, some, List, [], ◌∷◌,
  if◌then◌else◌, All, Bool-cases, Option-cases, First, First-here, First-later, any, ◌||◌,
}
use token_auth_proxy.Text.{Text}
use token_auth_proxy.Config.{JwtSource}
use token_auth_proxy.Acl.{Principal, Claim, jwt_principal}
use token_auth_proxy.Jwt.{
  Tokens, Parsed, claims, failed, JwtError, Reason, keys_unavailable, classify, subject_denied,
  parser_for, verify, denied_local_subject, verified, all_failed, report, try_candidates,
  is_keys_unavailable, malformed_token, bad_signature, expired, not_yet_valid, bad_audience,
  bad_issuer, invalid_claims,
}

module _ {Keys : Type 0} (tokens : Tokens Keys) where
  open tokens use {keyfunc, parse, unverified_issuer, read_cookie}

  abbrev not_denied : JwtSource → Parsed → Bool
  not_denied src (failed e) = false
  not_denied src (claims cs) = not (src.is_local && denied_local_subject tokens cs)

  -- A source accepts a token: it has keys, the token verifies under its policy, and, if the proxy
  -- itself issued the token, the subject is not denied.
  pub accepts : Text → JwtSource → Bool
  accepts raw src = elim (keyfunc src) [
    | none ↦ false
    | some kf ↦ not_denied src (verify tokens raw src kf)
  ]

  accepts-none : (raw : Text) (src : JwtSource) → keyfunc src ≡ none → accepts raw src ≡ false
  unfolding accepts
  accepts-none raw src n = rw (n, accepts) refl

  accepts-some :
      (raw : Text) (src : JwtSource) (kf : Keys) (q : Parsed)
      → keyfunc src ≡ some kf
      → verify tokens raw src kf ≡ q
      → accepts raw src ≡ not_denied src q
  unfolding accepts
  accepts-some raw src kf q k e = rw (k, accepts) (ap (not_denied src) e)

  pub record Accepted (raw : Text) (src : JwtSource) (p : Principal) : Type 0 where
    pub keys : Keys
    pub cs : List (Text × Claim)
    pub has_keys : keyfunc src ≡ some keys
    pub parsed : parse (parser_for src) keys raw ≡ claims cs
    pub allowed : (src.is_local && denied_local_subject tokens cs) ≡ false
    pub principal : p ≡ jwt_principal src.name cs

  Parsed-cases :
      (q : Parsed)
      → ((cs : List (Text × Claim)) × (q ≡ claims cs)) ⊎ ((e : JwtError) × (q ≡ failed e))
  Parsed-cases (claims cs) = inl (cs, refl)
  Parsed-cases (failed e) = inr (e, refl)

  -- The first source that accepts decides who the caller is.
  pub Verified : Text → List JwtSource → Principal → Type 0
  Verified raw srcs p = (src : JwtSource) × First (accepts raw) srcs src × Accepted raw src p

  later-Verified :
      (raw : Text) (src : JwtSource) (srcs : List JwtSource) (p : Principal)
      → accepts raw src ≡ false
      → Verified raw srcs p
      → Verified raw (src ∷ srcs) p
  unfolding Verified
  later-Verified raw src srcs p f (s, first, ok) =
      (s, First-later (accepts raw) src s srcs f first, ok)

  pub try_candidates-Verified :
      (raw : Text) (have : Bool) (why : Reason) (srcs : List JwtSource) (p : Principal)
      → try_candidates tokens raw have why srcs ≡ verified p
      → Verified raw srcs p
  unfolding try_candidates
  try_candidates-Verified raw have why [] p h = absurd cc
  try_candidates-Verified raw have why (src ∷ srcs) p h = elim (Option-cases (keyfunc src)) [
    | inl n ↦
        later-Verified raw src srcs p (accepts-none raw src n)
          (try_candidates-Verified raw true _ srcs p (rw (n, try_candidates) at h))
    | inr (kf, k) ↦ elim (Parsed-cases (verify tokens raw src kf)) [
      | inr (e, q) ↦
          later-Verified raw src srcs p (accepts-some raw src kf _ k q)
            (try_candidates-Verified raw have _ srcs p (rw (k, q, try_candidates) at h))
      | inl (cs, q) ↦ elim (Bool-cases (src.is_local && denied_local_subject tokens cs)) [
        | inl t ↦
            later-Verified raw src srcs p (accepts-some raw src kf _ k q ∙ ap not t)
              (try_candidates-Verified raw have _ srcs p (rw (k, q, t, try_candidates) at h))
        | inr f ↦
            let same : verified (jwt_principal src.name cs) ≡ verified p =
              rw (k, q, f, try_candidates) at h in
            unfold Verified in
            (
              src,
              First-here (accepts raw) src srcs (accepts-some raw src kf _ k q ∙ ap not f),
              record { keys = kf; cs = cs; has_keys = k; parsed = q; allowed = f; principal = cc },
            )
      ]
    ]
  ]

  abbrev pub lacks_keys : JwtSource → Bool
  lacks_keys src = elim (keyfunc src) [ none ↦ true | some kf ↦ false ]

  classify-keys : (e : JwtError) → is_keys_unavailable tokens (classify e) ≡ false
  unfolding classify
  classify-keys e =
      go e.token_expired e.token_not_valid_yet e.token_invalid_audience e.token_invalid_issuer
        e.token_signature_invalid (e.token_malformed || e.token_unverifiable)
    where
      go :
          (a b c d f g : Bool)
          → is_keys_unavailable tokens (
              if a
              then expired
              else if b
              then not_yet_valid
              else if c
              then bad_audience
              else if d
              then bad_issuer
              else if f
              then bad_signature
              else if g
              then malformed_token
              else invalid_claims)
            ≡ false
      go true b c d f g = refl
      go false true c d f g = refl
      go false false true d f g = refl
      go false false false true f g = refl
      go false false false false true g = refl
      go false false false false false true = refl
      go false false false false false false = refl

  -- What is reported is unavailable keys exactly if keys were unavailable for some source.
  report-keys :
      (have : Bool) (why now : Reason) (b : Bool)
      → have ≡ is_keys_unavailable tokens why
      → is_keys_unavailable tokens now ≡ b
      → (have || b) ≡ is_keys_unavailable tokens (report tokens have why now)
  report-keys true why now b h k = h
  report-keys false why now b h k = sym k

  ||-assoc : (a b c : Bool) → ((a || b) || c) ≡ (a || (b || c))
  ||-assoc true b c = refl
  ||-assoc false b c = refl

  ||-false : (a : Bool) → (a || false) ≡ a
  ||-false true = refl
  ||-false false = refl

  pub try_candidates-failed :
      (raw : Text) (have : Bool) (why : Reason) (srcs : List JwtSource) (w : Reason)
      → have ≡ is_keys_unavailable tokens why
      → try_candidates tokens raw have why srcs ≡ all_failed w
      → All (λ s. accepts raw s ≡ false) srcs
        × (is_keys_unavailable tokens w ≡ (have || any lacks_keys srcs))
  unfolding try_candidates
  try_candidates-failed raw have why [] w i h =
      let same : why ≡ w = cc in
      (tt, ap (is_keys_unavailable tokens) (sym same) ∙ sym i ∙ sym (||-false have))
  try_candidates-failed raw have why (src ∷ srcs) w i h = elim (Option-cases (keyfunc src)) [
    | inl n ↦
        let (rej, k) =
          try_candidates-failed raw true (report tokens have why keys_unavailable) srcs w
            (true-report have i) (rw (n, try_candidates) at h) in
        ((accepts-none raw src n, rej), k ∙ rw (n, lacks_keys) (sym (or_true have)))
    | inr (kf, k) ↦ elim (Parsed-cases (verify tokens raw src kf)) [
      | inr (e, q) ↦
          let (rej, m) =
            try_candidates-failed raw have (report tokens have why (classify e)) srcs w
              (sym (||-false have) ∙ report-keys have why (classify e) false i (classify-keys e))
              (rw (k, q, try_candidates) at h) in
          ((accepts-some raw src kf _ k q, rej), m ∙ rw (k, lacks_keys) refl)
      | inl (cs, q) ↦ elim (Bool-cases (src.is_local && denied_local_subject tokens cs)) [
        | inl t ↦
            let (rej, m) =
              try_candidates-failed raw have (report tokens have why subject_denied) srcs w
                (sym (||-false have) ∙ report-keys have why subject_denied false i refl)
                (rw (k, q, t, try_candidates) at h) in
            ((accepts-some raw src kf _ k q ∙ ap not t, rej), m ∙ rw (k, lacks_keys) refl)
        | inr f ↦ absurd (
            let c : verified (jwt_principal src.name cs) ≡ all_failed w =
              rw (k, q, f, try_candidates) at h in
            cc)
      ]
    ]
  ]
    where
      or_true : (b : Bool) → (b || true) ≡ true
      or_true true = refl
      or_true false = refl

      true-report :
          (have : Bool)
          → have ≡ is_keys_unavailable tokens why
          → true ≡ is_keys_unavailable tokens (report tokens have why keys_unavailable)
      true-report true i = i
      true-report false i = refl
