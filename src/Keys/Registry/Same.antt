-- ===== src/Keys/Registry/Same.antt =====
-- internal/authn/jwks.go: what two sources of one fingerprint have in common.
use token_auth_proxy.Common.{ℕ, ◌≡◌, sym, ap, ◌∙◌, Option, some, ◌++◌}
use token_auth_proxy.Text.{Text, cut}
use token_auth_proxy.Text.Cut.{Free, cut-append}
use token_auth_proxy.Config.{JwtSource}
use token_auth_proxy.Keys.Registry.{fingerprint, nul}

-- The settings that the keys of a source are fetched by.
pub record SameKeySource (a b : JwtSource) : Type 0 where
  pub jwks_url : a.jwks_url ≡ b.jwks_url
  pub oidc_discovery_url : a.oidc_discovery_url ≡ b.oidc_discovery_url
  pub jwks_cache_ttl : a.jwks_cache_ttl ≡ b.jwks_cache_ttl
  pub ca_cert : a.ca_cert ≡ b.ca_cert

abbrev pub NulFree : JwtSource → Type 0
NulFree j = Free 0 j.jwks_url × Free 0 j.oidc_discovery_url

-- Durations are printed apart and without a NUL.
pub record Printed (show_duration : ℕ → Text) : Type 0 where
  pub apart : (m n : ℕ) → show_duration m ≡ show_duration n → m ≡ n
  pub no_nul : (n : ℕ) → Free 0 (show_duration n)

-- Texts without a NUL in front of the first one are the same.
before_nul :
    (s t a b : Text) → Free 0 s → Free 0 t → s ++ (nul ++ a) ≡ t ++ (nul ++ b) → (s ≡ t) × (a ≡ b)
before_nul s t a b f g e =
    let k : ◌≡◌ {A = Option (Text × Text)} (some (s, a)) (some (t, b)) =
      sym (cut-append 0 s a f) ∙ ap (cut 0) e ∙ cut-append 0 t b g in
    (cc, cc)

pub fingerprint-Same :
    (show_duration : ℕ → Text) (a b : JwtSource)
    → Printed show_duration
    → NulFree a
    → NulFree b
    → fingerprint show_duration a ≡ fingerprint show_duration b
    → SameKeySource a b
unfolding fingerprint
fingerprint-Same show_duration a b law f g e =
    let (url, e1) = before_nul a.jwks_url b.jwks_url _ _ f.0 g.0 e in
    let (discovery, e2) = before_nul a.oidc_discovery_url b.oidc_discovery_url _ _ f.1 g.1 e1 in
    let (ttl, roots) =
      before_nul (show_duration a.jwks_cache_ttl) (show_duration b.jwks_cache_ttl) a.ca_cert
        b.ca_cert (law.no_nul a.jwks_cache_ttl) (law.no_nul b.jwks_cache_ttl) e2 in
    record {
      jwks_url = url;
      oidc_discovery_url = discovery;
      jwks_cache_ttl = law.apart a.jwks_cache_ttl b.jwks_cache_ttl ttl;
      ca_cert = roots;
    }
