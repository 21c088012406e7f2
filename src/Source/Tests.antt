-- ===== src/Source/Tests.antt =====
-- Loads of the layers, which are list_layers here in a list, a later value before an earlier one.
use token_auth_proxy.Common.{
  ◌≡◌, refl, sym, ap, ◌∙◌, Bool, true, false, not, Option, none, some, List, [], ◌∷◌, if◌then◌else◌,
  ◌&&◌, ◌before◌,
}
use token_auth_proxy.Text.{Text, text, ◌==◌, ==_iff, cut_prefix, contains}
use token_auth_proxy.Interpolate.{World, interpolate_string, scan, classify, resume}
use token_auth_proxy.Interpolate.Value.{Value, Fields, str, mapping, field, end, interpolate_value}
use token_auth_proxy.Settings.{
  Config, ConfigFields, apply_defaults, timeout_defaults, derived_source, validate,
}
use token_auth_proxy.Config.Defaults.{auth_defaults}
use token_auth_proxy.Config.Urls.{parse_absolute_http_url}
use token_auth_proxy.Config.Validate.Auth.{validate_auth, validate_sources}
use token_auth_proxy.Config.Oauth.{validate_oauth}
use token_auth_proxy.Acl.Validate.{validate_acl, apply_acl_defaults}
use token_auth_proxy.Settings.Tests.{config, fields, libs}
use token_auth_proxy.Source.{
  FlagSet, Layers, goes, fails, env_key, flag_key, field_specs, json_field_specs, root_keys,
  json_override_value, overrides, read, decode, load_layered, check_outbound_keys, nested_acl,
  unknown_key,
}
use token_auth_proxy.Source.Overrides.{
  field_value, put_field, lay_over, lay_fields, Lawful, AllGot, is_apart,
  load_json_field_overrides-AllGot,
}

abbrev pub Stored : Type 0
Stored = List (Text × Value)

unfoldable pub found : Text → Stored → Option Value
found key [] = none
found key ((k, v) ∷ m) = let rest = found key m in if k == key then some v else rest

unfoldable pub all_of : Fields → Stored → Stored
all_of end m = m
all_of (field k v fs) m = (k, v) ∷ all_of fs m

abbrev pub keys_of : Stored → List Text
keys_of [] = []
keys_of ((k, v) ∷ m) = k ∷ keys_of m

abbrev pub is_there : Option Value → Bool
is_there none = false
is_there (some v) = true

abbrev pub as_text : Option Value → Text
as_text (some (str s)) = s
as_text _ = []

-- A text stands for itself in JSON and in YAML, but for one that is refused and one that is an object.
abbrev pub parse : Text → Option Value
parse t =
    if t == text "{"
    then none
    else if t == text "{name}"
    then some (mapping (field (text "name") (str (text "new")) end))
    else some (str t)

-- A configuration for the target alone.
abbrev pub plain : Text → ConfigFields
plain target = record fields {
  target = target;
  auth = record { jwt = []; saml = none; basic = none; login_page = none };
}

abbrev pub list_layers : Layers Stored
list_layers = record {
  new = [];
  merge = λ fs m. some (all_of fs m);
  load_env = λ key m. some m;
  load_flags = λ fs key m. some m;
  set = λ key v m. some ((key, lay_over (found key m) v) ∷ m);
  get = found;
  exists = λ key m. is_there (found key m);
  string = λ key m. as_text (found key m);
  raw_keys = keys_of;
  unmarshal = λ m. some (plain (as_text (found (text "target") m)));
  strict_outbound = λ m. true;
  parse_json = parse;
  parse_yaml = λ t. some (mapping (field (text "target") (str t) end));
}

set_here :
    (key : Text) (v : Value) (k k' : Stored)
    → some ((key, lay_over (found key k) v) ∷ k) ≡ some k'
    → found key k' ≡ some (lay_over (found key k) v)
unfolding found
set_here key v k k' h =
    let same : (key, lay_over (found key k) v) ∷ k ≡ k' = cc in
    ap (found key) (sym same) ∙ (rw ((==_iff key key).1 refl) refl)

set_apart :
    (key another : Text) (v : Value) (k k' : Stored)
    → some ((key, lay_over (found key k) v) ∷ k) ≡ some k'
    → is_apart key another ≡ true
    → found another k' ≡ found another k
unfolding found
set_apart key another v k k' h a =
    let same : (key, lay_over (found key k) v) ∷ k ≡ k' = cc in
    ap (found another) (sym same) ∙ (rw (unequal (key == another) _ a) refl)
  where
    unequal : (b c : Bool) → (not b && c) ≡ true → b ≡ false
    unequal true c h = absurd cc
    unequal false c h = refl

kept-Lawful : Lawful list_layers
kept-Lawful = record { set_here = set_here; set_apart = set_apart }

-- The flag for acl wins over the environment; the variable for outbound.token is used; one that is empty
-- is not.
abbrev with_acl : FlagSet
with_acl name =
    if name == text "acl-json" then some (record { changed = true; value = text "flag" }) else none

abbrev variables : Text → Option Text
variables name =
    if name == text "TAP_ACL_JSON"
    then some (text "env")
    else if name == text "TAP_OUTBOUND_TOKEN_JSON"
    then some (text "token")
    else if name == text "TAP_INBOUND_AUTH_JWT_JSON"
    then some []
    else if name == text "TAP_INBOUND_AUTH_SAML_JSON"
    then some (text "{name}")
    else none

-- The file names the SAML source and gives its issuer, which the override leaves as it is.
abbrev saml_of : Text → Value
saml_of name =
    mapping (field (text "name") (str name) (field (text "issuer") (str (text "idp")) end))

abbrev of_file : Stored
of_file =
    (text "acl", str (text "file"))
    ∷ (text "inbound.auth.jwt", str (text "file"))
    ∷ (text "inbound.auth.saml", saml_of (text "old"))
    ∷ []

abbrev after : Stored
after =
    (text "acl", str (text "flag"))
    ∷ (text "outbound.token", str (text "token"))
    ∷ (text "inbound.auth.saml", saml_of (text "new"))
    ∷ of_file

load_json_field_overrides-AllGot_example :
    AllGot list_layers variables (some with_acl) json_field_specs of_file after
unfolding overrides json_field_specs json_override_value found lay_over lay_fields field_value
    put_field ◌==◌
load_json_field_overrides-AllGot_example =
    load_json_field_overrides-AllGot list_layers kept-Lawful variables (some with_acl) of_file after
      refl

-- A file whose text is the target's.
abbrev pub world : World
world = record { lookup_env = λ n. none; read_file = λ p. none }

abbrev pub file : Text → Option Text
file p = some (text "https://host")

abbrev pub plain_config : Config
plain_config = record config { fields = plain (text "https://host") }

pub loads : load_layered list_layers libs world file (text "c.yaml") none ≡ goes plain_config
unfolding load_layered read decode check_outbound_keys found all_of interpolate_value
    interpolate_string scan classify resume cut_prefix root_keys validate apply_defaults
    timeout_defaults auth_defaults apply_acl_defaults derived_source validate_oauth validate_acl
    validate_auth validate_sources parse_absolute_http_url contains ◌==◌ ◌before◌
loads = refl

-- A key that is not known, access rules in the wrong place, and an override that is no JSON.
unknown : decode list_layers libs ((text "outbund", str []) ∷ []) ≡ fails unknown_key
unfolding decode found check_outbound_keys root_keys ◌==◌ ◌before◌
unknown = refl

nested : decode list_layers libs ((text "inbound.acl", str []) ∷ []) ≡ fails nested_acl
unfolding decode found ◌==◌
nested = refl

names :
    (env_key (text "TAP_LISTEN_ADDR") ≡ some (text "listen_addr"))
    × (env_key (text "TAP_HOME") ≡ none)
    × (flag_key (text "timeout-read") ≡ some (text "timeouts.read"))
unfolding env_key flag_key field_specs cut_prefix ◌==◌
names = (refl, refl, refl)
