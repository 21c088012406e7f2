-- ===== src/Oauth/Registry.antt =====
-- internal/oauth/server.go: the registry of the OAuth server, which Reconcile brings in line with the
-- configuration. Hashing and the build of the OIDC provider are parameters. A configuration is
-- known by its pointer, which is a number.
pub mod Fingerprint
pub mod Same
pub mod Current
use token_auth_proxy.Common.{
  ℕ, Bool, true, false, not, ◌&&◌, Option, none, some, List, [], ◌∷◌, ◌++◌, if◌then◌else◌, eqb,
  length,
}
use token_auth_proxy.Text.{Text, text, ◌==◌}
use token_auth_proxy.Oauth.Clients.{Client, Settings, denylisted}

-- What the server is built from, and what is read live.
pub record ServerConfig : Type 0 where
  pub enabled : Bool
  pub sp_base_url : Text
  pub mcp_url : Text
  pub audience : Text
  pub signing_keys : List (Text × Text)
  pub sealing_keys : List Text
  pub clients : List Client
  pub registration_enabled : Bool
  pub live_settings : Settings

pub record BuiltServer (P : Type 0) : Type 0 where
  pub provider : P
  pub fingerprint : Text

pub record ServerRegistry (P : Type 0) : Type 0 where
  pub live : Option ServerConfig
  pub seen : Option ℕ
  pub srv : Option (BuiltServer P)

abbrev pub new_server_registry : {P : Type 0} → ServerRegistry P
new_server_registry = record { live = none; seen = none; srv = none }

abbrev same_pointer : Option ℕ → ℕ → Bool
same_pointer none ptr = false
same_pointer (some seen) ptr = eqb seen ptr

abbrev pub signing_parts : List (Text × Text) → List Text
signing_parts [] = []
signing_parts ((kid, key) ∷ ks) = text "sig" ∷ kid ∷ key ∷ signing_parts ks

abbrev pub sealing_parts : List Text → List Text
sealing_parts [] = []
sealing_parts (k ∷ ks) = text "seal" ∷ k ∷ sealing_parts ks

abbrev pub client_parts : List Client → List Text
client_parts [] = []
client_parts (c ∷ cs) = text "client" ∷ c.id ∷ (c.redirect_uris ++ client_parts cs)

abbrev pub fingerprint_parts : ServerConfig → List Text
fingerprint_parts cfg =
    cfg.sp_base_url
    ∷ cfg.mcp_url
    ∷ cfg.audience
    ∷ (signing_parts cfg.signing_keys
        ++ (sealing_parts cfg.sealing_keys
            ++ (client_parts cfg.clients
                ++ (text "register"
                    ∷ (if cfg.registration_enabled then text "true" else text "false")
                    ∷ []))))

-- The printing of a length and the digest are parameters.
module _ (show_length : ℕ → Text) (digest : Text → Text) where
  abbrev pub hashed : List Text → Text
  hashed [] = []
  hashed (p ∷ ps) = show_length (length p) ++ (text ":" ++ (p ++ (text "|" ++ hashed ps)))

  unfoldable pub server_fingerprint : ServerConfig → Text
  server_fingerprint cfg = digest (hashed (fingerprint_parts cfg))

  module _ {P : Type 0} (build : ServerConfig → Option P) where
    abbrev is_current : Option (BuiltServer P) → Text → Bool
    is_current none fp = false
    is_current (some cur) fp = cur.fingerprint == fp

    abbrev built_as : Text → Option P → Option (BuiltServer P)
    built_as fp none = none
    built_as fp (some provider) = some (record { provider = provider; fingerprint = fp })

    -- Reconcile, from taking the lock on. `live` is stored before the build, `seen` at the end.
    abbrev reconcile_locked : ℕ → ServerConfig → ServerRegistry P → ServerRegistry P
    reconcile_locked ptr cfg r =
        let fp = server_fingerprint cfg in
        if not cfg.enabled
        then record { live = some cfg; seen = some ptr; srv = none }
        else if is_current r.srv fp
        then record { live = some cfg; seen = some ptr; srv = r.srv }
        else record { live = some cfg; seen = some ptr; srv = built_as fp (build cfg) }

    unfoldable pub reconcile_server : ℕ → ServerConfig → ServerRegistry P → ServerRegistry P
    unfolding server_fingerprint
    reconcile_server ptr cfg r = if same_pointer r.seen ptr then r else reconcile_locked ptr cfg r

    -- Reconcile for one configuration after the other, the latest first.
    unfoldable pub reconciled : (ℕ → ServerConfig) → List ℕ → ServerRegistry P
    unfolding reconcile_server
    reconciled config [] = new_server_registry
    reconciled config (ptr ∷ ptrs) = reconcile_server ptr (config ptr) (reconciled config ptrs)

-- Denied
abbrev denied_by : ServerConfig → Text → Bool
denied_by cfg sub = if not cfg.enabled then true else denylisted cfg.live_settings.denylist sub

unfoldable pub subject_denied : {P : Type 0} → ServerRegistry P → Text → Bool
unfolding denylisted
subject_denied r sub = elim r.live [ none ↦ true | some cfg ↦ denied_by cfg sub ]
