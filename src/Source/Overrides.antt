-- ===== src/Source/Overrides.antt =====
-- internal/config/source.go: what the JSON-valued overrides leave in the merged layers.
use token_auth_proxy.Common.{
  ◌≡◌, refl, sym, ap, ◌∙◌, Bool, true, not, ◌&&◌, Option, none, some, List, [], ◌∷◌, ◌++◌, All,
  All-map, arith, if◌then◌else◌,
}
use token_auth_proxy.Text.{Text, text, ◌==◌, has_prefix, cut_prefix}
use token_auth_proxy.Interpolate.Value.{Value, Fields, mapping, end, field}
use token_auth_proxy.Source.{
  JsonSpec, json_field_specs, FlagSet, Layers, Loading, goes, fails, not_set, or_fail, then_with,
  set_json, override, overrides, json_override_value, load_json_field_overrides,
}

-- Neither key leads to a part of the other's value.
abbrev pub is_apart : Text → Text → Bool
is_apart a b =
    not (a == b) && (not (has_prefix a (b ++ text ".")) && not (has_prefix b (a ++ text ".")))

unfoldable pub field_value : Text → Fields → Option Value
field_value key end = none
field_value key (field k v fs) = let rest = field_value key fs in if k == key then some v else rest

unfoldable pub put_field : Text → Value → Fields → Fields
put_field key new end = field key new end
put_field key new (field k v fs) =
    let rest = put_field key new fs in if k == key then field k new fs else field k v rest

-- How the library merges a value into what is there: an object into an object field by field, while
-- any other value takes the place of what was there. The order of the fields says nothing.
unfoldable mutual
  unfolding field_value put_field

  pub lay_over : Option Value → Value → Value
  lay_over (some (mapping olds)) (mapping fs) = mapping (lay_fields olds fs)
  lay_over old v = v

  pub lay_fields : Fields → Fields → Fields
  lay_fields olds end = olds
  lay_fields olds (field k v fs) =
      put_field k (lay_over (field_value k olds) v) (lay_fields olds fs)

-- What the library of layers documents of setting a key.
pub record Lawful {K : Type 0} (layers : Layers K) : Type 0 where
  pub set_here :
      (key : Text) (v : Value) (k k' : K)
      → layers.set key v k ≡ some k'
      → layers.get key k' ≡ some (lay_over (layers.get key k) v)
  pub set_apart :
      (key another : Text) (v : Value) (k k' : K)
      → layers.set key v k ≡ some k'
      → is_apart key another ≡ true
      → layers.get another k' ≡ layers.get another k

module _ {K : Type 0} (layers : Layers K) where
  -- The value of an override, laid over what was there, or what was there.
  abbrev pub Got : Option Text → Text → K → K → Type 0
  Got none key k k' = layers.get key k' ≡ layers.get key k
  Got (some raw) key k k' =
      (v : Value) × (layers.parse_json raw ≡ some v)
      × (layers.get key k' ≡ some (lay_over (layers.get key k) v))

  -- Each override has its value, and what has none is left as it was.
  abbrev pub AllGot : (Text → Option Text) → Option FlagSet → List JsonSpec → K → K → Type 0
  AllGot lookup_env fs ss k k' =
      All (λ s. Got (json_override_value lookup_env fs s) s.json_key k k') ss

  override-set :
      (s : JsonSpec) (k k' : K) (raw : Text)
      → override layers s k (some raw) ≡ goes k'
      → (v : Value) × (layers.parse_json raw ≡ some v) × (layers.set s.json_key v k ≡ some k')
  override-set s k k' raw h = go (layers.parse_json raw) refl h
    where
      set :
          (v : Value) (o : Option K)
          → layers.set s.json_key v k ≡ o
          → or_fail (not_set s.json_key) o ≡ goes k'
          → o ≡ some k'
      set v none e h = absurd cc
      set v (some j) e h = let same : j ≡ k' = cc in ap some same

      go :
          (o : Option Value)
          → layers.parse_json raw ≡ o
          → set_json layers s k o ≡ goes k'
          → (v : Value) × (layers.parse_json raw ≡ some v) × (layers.set s.json_key v k ≡ some k')
      go none e h = absurd cc
      go (some v) e h = (v, e, set v (layers.set s.json_key v k) refl h)

  -- The list of overrides stops at the first that fails.
  overrides-step :
      (lookup_env : Text → Option Text) (fs : Option FlagSet) (s : JsonSpec) (ss : List JsonSpec)
      (k k' : K)
      → overrides layers lookup_env fs (s ∷ ss) k ≡ goes k'
      → (j : K) × (override layers s k (json_override_value lookup_env fs s) ≡ goes j)
        × (overrides layers lookup_env fs ss j ≡ goes k')
  unfolding overrides
  overrides-step lookup_env fs s ss k k' h =
      go (override layers s k (json_override_value lookup_env fs s)) refl h
    where
      go :
          (o : Loading K)
          → override layers s k (json_override_value lookup_env fs s) ≡ o
          → then_with o (overrides layers lookup_env fs ss) ≡ goes k'
          → (j : K) × (override layers s k (json_override_value lookup_env fs s) ≡ goes j)
            × (overrides layers lookup_env fs ss j ≡ goes k')
      go (fails e) q h = absurd cc
      go (goes j) q h = (j, q, h)

-- No key of the list leads to a part of another's value.
abbrev pub AllApart : List JsonSpec → Type 0
AllApart [] = Unit
AllApart (s ∷ ss) =
    All (λ t. (is_apart s.json_key t.json_key ≡ true) × (is_apart t.json_key s.json_key ≡ true)) ss
    × AllApart ss

json_field_specs-AllApart : AllApart json_field_specs
unfolding json_field_specs has_prefix cut_prefix ◌==◌
json_field_specs-AllApart = ground arith

module _ {K : Type 0} (layers : Layers K) (lawful : Lawful layers) where
  override-Got :
      (s : JsonSpec) (k k' : K) (o : Option Text)
      → override layers s k o ≡ goes k'
      → Got layers o s.json_key k k'
  override-Got s k k' none h = let same : k ≡ k' = cc in ap (layers.get s.json_key) (sym same)
  override-Got s k k' (some raw) h =
      let (v, parse, set) = override-set layers s k k' raw h in
      (v, parse, lawful.set_here s.json_key v k k' set)

  override-apart :
      (s : JsonSpec) (k k' : K) (o : Option Text) (another : Text)
      → override layers s k o ≡ goes k'
      → is_apart s.json_key another ≡ true
      → layers.get another k' ≡ layers.get another k
  override-apart s k k' none another h a =
      let same : k ≡ k' = cc in ap (layers.get another) (sym same)
  override-apart s k k' (some raw) another h a =
      let (v, parse, set) = override-set layers s k k' raw h in
      lawful.set_apart s.json_key another v k k' set a

  overrides-apart :
      (lookup_env : Text → Option Text) (fs : Option FlagSet) (ss : List JsonSpec) (k k' : K)
      (another : Text)
      → overrides layers lookup_env fs ss k ≡ goes k'
      → All (λ s. is_apart s.json_key another ≡ true) ss
      → layers.get another k' ≡ layers.get another k
  unfolding overrides
  overrides-apart lookup_env fs [] k k' another h a =
      let same : k ≡ k' = cc in ap (layers.get another) (sym same)
  overrides-apart lookup_env fs (s ∷ ss) k k' another h a =
      let (j, one, rest) = overrides-step layers lookup_env fs s ss k k' h in
      overrides-apart lookup_env fs ss j k' another rest a.1
      ∙ override-apart s k j (json_override_value lookup_env fs s) another one a.0

  Got-later :
      (o : Option Text) (key : Text) (k j k' : K)
      → Got layers o key k j
      → layers.get key k' ≡ layers.get key j
      → Got layers o key k k'
  Got-later none key k j k' g e = e ∙ g
  Got-later (some raw) key k j k' (v, parse, set) e = (v, parse, e ∙ set)

  Got-earlier :
      (o : Option Text) (key : Text) (k j k' : K)
      → layers.get key j ≡ layers.get key k
      → Got layers o key j k'
      → Got layers o key k k'
  Got-earlier none key k j k' e g = g ∙ e
  Got-earlier (some raw) key k j k' e (v, parse, set) =
      (v, parse, set ∙ ap (λ o. some (lay_over o v)) e)

  overrides-AllGot :
      (lookup_env : Text → Option Text) (fs : Option FlagSet) (ss : List JsonSpec) (k k' : K)
      → AllApart ss
      → overrides layers lookup_env fs ss k ≡ goes k'
      → AllGot layers lookup_env fs ss k k'
  overrides-AllGot lookup_env fs [] k k' a h = tt
  overrides-AllGot lookup_env fs (s ∷ ss) k k' a h =
      let (j, one, rest) = overrides-step layers lookup_env fs s ss k k' h in
      let o = json_override_value lookup_env fs s in
      (
        Got-later o s.json_key k j k' (override-Got s k j o one) (
            overrides-apart lookup_env fs ss j k' s.json_key rest
              (All-map _ _ (λ t (there, back). back) ss a.0)),
        earlier j one ss a.0 (overrides-AllGot lookup_env fs ss j k' a.1 rest),
      )
    where
      earlier :
          (j : K)
          → override layers s k (json_override_value lookup_env fs s) ≡ goes j
          → (ts : List JsonSpec)
          → All
              (λ t.
                (is_apart s.json_key t.json_key ≡ true) × (is_apart t.json_key s.json_key ≡ true))
              ts
          → AllGot layers lookup_env fs ts j k'
          → AllGot layers lookup_env fs ts k k'
      earlier j one [] b g = tt
      earlier j one (t ∷ ts) b g = (
        Got-earlier (json_override_value lookup_env fs t) t.json_key k j k'
            (override-apart s k j (json_override_value lookup_env fs s) t.json_key one b.0.0) g.0,
        earlier j one ts b.1 g.1,
      )

  -- Where loadJSONFieldOverrides goes well, each field that a flag or, with no such flag, the environment
  -- overrides has the parsed value of the override, laid over what was there: an object is merged into
  -- an object field by field, and any other value, a list among them, takes the place of the old one;
  -- and each other of these fields is as it was before. This is for a library of layers that sets a
  -- key in this way and leaves keys apart from it as they are.
  pub load_json_field_overrides-AllGot :
      (lookup_env : Text → Option Text) (fs : Option FlagSet) (k k' : K)
      → load_json_field_overrides layers lookup_env fs k ≡ goes k'
      → AllGot layers lookup_env fs json_field_specs k k'
  load_json_field_overrides-AllGot lookup_env fs k k' h =
      overrides-AllGot lookup_env fs json_field_specs k k' json_field_specs-AllApart h
