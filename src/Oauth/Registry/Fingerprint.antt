-- ===== src/Oauth/Registry/Fingerprint.antt =====
-- internal/oauth/server.go: what is written to the digest says all that the server is built from.
use token_auth_proxy.Common.{
  ℕ, ◌≡◌, refl, sym, ap, ap₂, ◌∙◌, Option, none, some, List, [], ◌∷◌, ◌++◌, length,
}
use token_auth_proxy.Text.{Text, text, cut}
use token_auth_proxy.Text.Cut.{Free, cut-append}
use token_auth_proxy.Jwt.{take, drop}
use token_auth_proxy.Oauth.Seal.Opened.{take-append, drop-append}
use token_auth_proxy.Oauth.Registry.{ServerConfig, fingerprint_parts, hashed, server_fingerprint}

abbrev behind : Text → Text
behind [] = []
behind (c ∷ t) = t

module _ (show_length : ℕ → Text) (digest : Text → Text) where
  -- Lengths are printed apart and without a colon, and the digest has no collisions.
  pub record CollisionFree : Type 0 where
    pub printed_apart : (m n : ℕ) → show_length m ≡ show_length n → m ≡ n
    pub no_colon : (n : ℕ) → Free b':' (show_length n)
    pub no_collision : (s t : Text) → digest s ≡ digest t → s ≡ t

  module _ (law : CollisionFree) where
    -- A part behind its length.
    rest_of : Text → List Text → Text
    rest_of p ps = p ++ (text "|" ++ hashed show_length digest ps)

    cut-hashed :
        (p : Text) (ps : List Text)
        → cut b':' (hashed show_length digest (p ∷ ps))
          ≡ some (show_length (length p), rest_of p ps)
    unfolding rest_of
    cut-hashed p ps =
        cut-append b':' (show_length (length p)) (p ++ (text "|" ++ hashed show_length digest ps))
          (law.no_colon (length p))

    first_part :
        (p q : Text) (a b : Text) → length p ≡ length q → p ++ a ≡ q ++ b → (p ≡ q) × (a ≡ b)
    first_part p q a b l e = (
      sym (take-append p a) ∙ ap₂ take l e ∙ take-append q b,
      sym (drop-append p a) ∙ ap₂ drop l e ∙ drop-append q b,
    )

    hashed-eq :
        (ps qs : List Text) → hashed show_length digest ps ≡ hashed show_length digest qs → ps ≡ qs
    unfolding rest_of cut
    hashed-eq [] [] h = refl
    hashed-eq [] (q ∷ qs) h = absurd (
        let k : ◌≡◌ {A = Option (Text × Text)} none (some (show_length (length q), rest_of q qs)) =
          ap (cut b':') h ∙ cut-hashed q qs in
        cc)
    hashed-eq (p ∷ ps) [] h = absurd (
        let k : ◌≡◌ {A = Option (Text × Text)} none (some (show_length (length p), rest_of p ps)) =
          ap (cut b':') (sym h) ∙ cut-hashed p ps in
        cc)
    hashed-eq (p ∷ ps) (q ∷ qs) h =
        let k : ◌≡◌ {A = Option (Text × Text)} (some (show_length (length p), rest_of p ps))
            (some (show_length (length q), rest_of q qs)) =
          sym (cut-hashed p ps) ∙ ap (cut b':') h ∙ cut-hashed q qs in
        let lengths : length p ≡ length q =
          law.printed_apart (length p) (length q)
            (let e : show_length (length p) ≡ show_length (length q) = cc in e) in
        let rests : rest_of p ps ≡ rest_of q qs = cc in
        let (same, more) =
          first_part p q (text "|" ++ hashed show_length digest ps)
            (text "|" ++ hashed show_length digest qs) lengths rests in
        ap₂ ◌∷◌ same (hashed-eq ps qs (ap behind more))

    -- Configurations of one fingerprint have the same parts.
    pub server_fingerprint-parts :
        (a b : ServerConfig)
        → server_fingerprint show_length digest a ≡ server_fingerprint show_length digest b
        → fingerprint_parts a ≡ fingerprint_parts b
    unfolding server_fingerprint
    server_fingerprint-parts a b h = hashed-eq (fingerprint_parts a) (fingerprint_parts b) (
        law.no_collision (hashed show_length digest (fingerprint_parts a))
          (hashed show_length digest (fingerprint_parts b)) h)
