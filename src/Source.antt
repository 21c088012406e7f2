-- ===== src/Source.antt =====
-- internal/config/source.go: the layers of the configuration and their merge: the file, the
-- environment, the flags and the JSON-valued overrides. The library that keeps the merged layers, the
-- parsers and the flags are parameters.

mod Tables
pub mod Overrides
pub mod Checked
pub mod Tests
unfoldable pub use Tables.*
use token_auth_proxy.Common.{
  ℕ, Bool, true, false, not, ◌&&◌, Option, none, some, List, [], ◌∷◌, ◌++◌, is_empty, all, any,
  if◌then◌else◌, ◌before◌, fail_if,
}
use token_auth_proxy.Text.{Text, text, ◌==◌, cut_prefix}
use token_auth_proxy.Interpolate.{World, Result, ok, err}
use token_auth_proxy.Interpolate.Value.{
  Value, Fields, mapping, str, sequence, other, end, interpolate_value,
}
use token_auth_proxy.Settings.{
  ConfigFields, Config, ConfigError, Validated, loaded, config_error, Libs, apply_defaults,
  validate,
}

pub record Flag : Type 0 where
  pub changed : Bool
  pub value : Text

abbrev pub FlagSet : Type 0
FlagSet = Text → Option Flag

-- The library of layers; K is what it has merged so far.
pub record Layers (K : Type 0) : Type 0 where
  pub new : K
  pub merge : Fields → K → Option K
  -- The providers of the environment and of the flags, with the keys that they load.
  pub load_env : (Text → Option Text) → K → Option K
  pub load_flags : FlagSet → (Text → Option Text) → K → Option K
  pub set : Text → Value → K → Option K
  pub get : Text → K → Option Value
  pub exists : Text → K → Bool
  pub string : Text → K → Text
  pub raw_keys : K → List Text
  pub unmarshal : K → Option ConfigFields
  -- The block under outbound decodes with no key left over.
  pub strict_outbound : K → Bool
  pub parse_json : Text → Option Value
  pub parse_yaml : Text → Option Value

pub data SourceError : Type 0 where
  read_config read_environment read_flags : SourceError
  invalid_json not_set : Text → SourceError
  nested_acl parse_config unknown_key unused_outbound empty_labels : SourceError
  invalid_config : ConfigError → SourceError

pub data Loading (A : Type 0) : Type 0 where
  goes : A → Loading A
  fails : SourceError → Loading A

abbrev pub or_fail : {A : Type 0} → SourceError → Option A → Loading A
or_fail e none = fails e
or_fail e (some a) = goes a

abbrev pub then_with : {A : Type 0} {B : Type 0} → Loading A → (A → Loading B) → Loading B
then_with (fails e) f = fails e
then_with (goes a) f = f a

unfoldable pub root_keys : List Text
root_keys =
    text "config"
    ∷ text "listen_addr"
    ∷ text "target"
    ∷ text "target_ca_cert"
    ∷ text "timeouts"
    ∷ text "inbound"
    ∷ text "outbound"
    ∷ text "acl"
    ∷ []

abbrev pub is_root_key : Text → Bool
is_root_key key = any (λ k. k == key) root_keys

abbrev pub lacks : {A : Type 0} → Option A → Bool
lacks none = true
lacks (some a) = false

abbrev non_empty : Option Text → Option Text
non_empty none = none
non_empty (some v) = if is_empty v then none else some v

abbrev flag_value : Option Flag → Option Text
flag_value none = none
flag_value (some f) = if f.changed && not (is_empty f.value) then some f.value else none

abbrev flag_of : Option FlagSet → Text → Option Text
flag_of none name = none
flag_of (some fs) name = flag_value (fs name)

-- jsonOverrideValue
unfoldable pub json_override_value : (Text → Option Text) → Option FlagSet → JsonSpec → Option Text
json_override_value lookup_env fs s = elim (flag_of fs s.json_flag) [
  | some v ↦ some v
  | none ↦ non_empty (lookup_env (env_prefix ++ s.json_env))
]

module _ {K : Type 0} (layers : Layers K) where
  abbrev pub set_json : JsonSpec → K → Option Value → Loading K
  set_json s k none = fails (invalid_json s.json_key)
  set_json s k (some v) = or_fail (not_set s.json_key) (layers.set s.json_key v k)

  abbrev pub override : JsonSpec → K → Option Text → Loading K
  override s k none = goes k
  override s k (some raw) = set_json s k (layers.parse_json raw)

  unfoldable pub overrides : (Text → Option Text) → Option FlagSet → List JsonSpec → K → Loading K
  unfolding json_override_value
  overrides lookup_env fs [] k = goes k
  overrides lookup_env fs (s ∷ ss) k =
      then_with (override s k (json_override_value lookup_env fs s)) (overrides lookup_env fs ss)

  -- loadJSONFieldOverrides
  abbrev pub load_json_field_overrides : (Text → Option Text) → Option FlagSet → K → Loading K
  load_json_field_overrides lookup_env fs k = overrides lookup_env fs json_field_specs k

  -- loadOverrides
  unfoldable pub load_overrides : (Text → Option Text) → FlagSet → K → Loading K
  unfolding overrides json_field_specs env_key flag_key
  load_overrides lookup_env fs k =
      then_with (or_fail read_environment (layers.load_env env_key k)) (λ k1.
        then_with (or_fail read_flags (layers.load_flags fs flag_key k1))
          (λ k2. load_json_field_overrides lookup_env (some fs) k2))

  -- checkOutboundKeys
  unfoldable pub check_outbound_keys : K → ConfigFields → Option SourceError
  unfolding root_keys
  check_outbound_keys k c =
      fail_if (not (all is_root_key (layers.raw_keys k))) unknown_key
      before (if layers.exists (text "outbound") k
          then fail_if (not (layers.strict_outbound k)) unused_outbound
            before fail_if
                (layers.exists (text "outbound.prom_label_proxy") k && lacks c.prom_label_proxy)
                empty_labels
          else none)

  module _ {Cert : Type 0} {Key : Type 0} (libs : Libs Cert Key) where
    abbrev pub judged_config : Validated → Loading Config
    judged_config (loaded c) = goes c
    judged_config (config_error e) = fails (invalid_config e)

    abbrev pub checked : ConfigFields → Option SourceError → Loading Config
    checked c (some e) = fails e
    checked c none = judged_config (validate libs (apply_defaults c))

    abbrev pub decoded : K → Option ConfigFields → Loading Config
    decoded k none = fails parse_config
    decoded k (some c) = checked c (check_outbound_keys k c)

    unfoldable pub decode : K → Loading Config
    unfolding check_outbound_keys validate apply_defaults
    decode k =
        if layers.exists (text "inbound.acl") k
        then fails nested_acl
        else decoded k (layers.unmarshal k)

    -- interpolatingProvider.Read: a mapping_of that is no mapping is an empty one.
    abbrev as_mapping : Value → Fields
    as_mapping (mapping fs) = fs
    as_mapping (str s) = end
    as_mapping (sequence is) = end
    as_mapping (other n) = end

    abbrev interpolated : Result Value → Option Fields
    interpolated (err e) = none
    interpolated (ok v) = some (as_mapping v)

    abbrev mapping_of : World → Option Value → Option Fields
    mapping_of world none = none
    mapping_of world (some v) = interpolated (interpolate_value world v)

    abbrev parsed : World → Option Text → Option Fields
    parsed world none = none
    parsed world (some b) = mapping_of world (layers.parse_yaml b)

    unfoldable pub read : World → (Text → Option Text) → Text → Option Fields
    unfolding interpolate_value
    read world read_file path = parsed world (read_file path)

    abbrev pub load_file : World → (Text → Option Text) → Text → K → Loading K
    load_file world read_file path k =
        then_with (or_fail read_config (read world read_file path))
          (λ fs. or_fail read_config (layers.merge fs k))

    abbrev pub file_layer : World → (Text → Option Text) → Text → K → Loading K
    file_layer world read_file path k =
        if is_empty path then goes k else load_file world read_file path k

    abbrev pub override_layer : World → Option FlagSet → K → Loading K
    override_layer world none k = goes k
    override_layer world (some fs) k = load_overrides world.lookup_env fs k

    -- loadLayered
    unfoldable pub load_layered :
        World → (Text → Option Text) → Text → Option FlagSet → Loading Config
    unfolding read load_overrides decode
    load_layered world read_file path fs =
        then_with (file_layer world read_file path layers.new)
          (λ k. then_with (override_layer world fs k) decode)

    -- Source: a file to be watched, or a configuration that does not change.
    pub data Origin : Type 0 where
      watched_file : Text → Origin
      fixed : Config → Origin

    abbrev resolved_at : K → Text → Loading Origin
    resolved_at k path =
        if is_empty path
        then then_with (decode k) (λ c. goes (fixed c))
        else goes (watched_file path)

    -- Resolve
    unfoldable pub resolve_source : World → FlagSet → Loading Origin
    unfolding load_overrides decode
    resolve_source world fs =
        then_with (load_overrides world.lookup_env fs layers.new)
          (λ k. resolved_at k (layers.string (text "config") k))
