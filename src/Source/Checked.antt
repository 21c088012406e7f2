-- ===== src/Source/Checked.antt =====
-- internal/config/source.go: what was checked of a configuration that is loaded.
use token_auth_proxy.Common.{
  ◌≡◌, refl, ap, Bool, true, false, not, ◌&&◌, Option, none, some, All, all, all_iff, if◌then◌else◌,
  before-none, fail_if-none,
}
use token_auth_proxy.Text.{Text, text}
use token_auth_proxy.Interpolate.{World}
use token_auth_proxy.Settings.{
  ConfigFields, Config, Validated, loaded, config_error, Libs, apply_defaults, validate,
}
use token_auth_proxy.Source.{
  lacks, FlagSet, Layers, Loading, goes, fails, SourceError, then_with, is_root_key, nested_acl,
  unknown_key, unused_outbound, empty_labels, check_outbound_keys, judged_config, checked, decoded,
  decode, file_layer, override_layer, load_layered,
}

-- Two steps that go well one after the other.
then_with-goes :
    {A : Type 0} {B : Type 0} (s : Loading A) (f : A → Loading B) (b : B)
    → then_with s f ≡ goes b
    → (a : A) × (s ≡ goes a) × (f a ≡ goes b)
then_with-goes (fails e) f b h = absurd cc
then_with-goes (goes a) f b h = (a, refl, h)

not_lacks : {A : Type 0} (o : Option A) → lacks o ≡ false → ¬ (o ≡ none)
not_lacks none h e = absurd cc
not_lacks (some a) h e = absurd cc

-- The checks under a key that is there.
when_there :
    (b : Bool) (o : Option SourceError) → b ≡ true → (if b then o else none) ≡ none → o ≡ none
when_there true o t h = h
when_there false o t h = absurd cc

conjunct : (a b : Bool) → (a && b) ≡ false → a ≡ true → b ≡ false
conjunct true b h t = h
conjunct false b h t = absurd cc

module _ {K : Type 0} (layers : Layers K) {Cert : Type 0} {Key : Type 0}
    (libs : Libs Cert Key) where
  -- The layers `k` decode as `c`, with no key that is not read at the top or under outbound and no access
  -- rules under inbound, and `cfg` is what Validate made of it.
  pub record Checked (k : K) (c : ConfigFields) (cfg : Config) : Type 0 where
    pub decodes : layers.unmarshal k ≡ some c
    pub no_nested_acl : layers.exists (text "inbound.acl") k ≡ false
    pub top_keys : All (λ key. is_root_key key ≡ true) (layers.raw_keys k)
    pub outbound_keys : layers.exists (text "outbound") k ≡ true → layers.strict_outbound k ≡ true
    pub labels_there :
        layers.exists (text "outbound") k ≡ true
        → layers.exists (text "outbound.prom_label_proxy") k ≡ true
        → ¬ (c.prom_label_proxy ≡ none)
    pub validated : validate libs (apply_defaults c) ≡ loaded cfg

  judged-loaded :
      (v : Validated) (cfg : Config) → judged_config layers libs v ≡ goes cfg → v ≡ loaded cfg
  judged-loaded (loaded c) cfg h = let same : c ≡ cfg = cc in ap loaded same
  judged-loaded (config_error e) cfg h = absurd cc

  root_keys_only :
      (k : K) (c : ConfigFields)
      → check_outbound_keys layers k c ≡ none
      → All (λ key. is_root_key key ≡ true) (layers.raw_keys k)
  unfolding check_outbound_keys
  root_keys_only k c h =
      let (top, rest) = before-none _ _ h in
      (all_iff is_root_key (λ key. is_root_key key ≡ true) (λ key. (λ e. e, λ e. e))
          (layers.raw_keys k)).0
        (not_false (all is_root_key (layers.raw_keys k)) (fail_if-none _ unknown_key top))
    where
      not_false : (b : Bool) → not b ≡ false → b ≡ true
      not_false true h = refl
      not_false false h = absurd cc

  outbound_checks :
      (k : K) (c : ConfigFields)
      → check_outbound_keys layers k c ≡ none
      → layers.exists (text "outbound") k ≡ true
      → (layers.strict_outbound k ≡ true)
        × (layers.exists (text "outbound.prom_label_proxy") k ≡ true
            → ¬ (c.prom_label_proxy ≡ none))
  unfolding check_outbound_keys
  outbound_checks k c h t =
      let (top, rest) = before-none _ _ h in
      let (strict, labels) =
        before-none _ _ (when_there (layers.exists (text "outbound") k) _ t rest) in
      (
        not_false (layers.strict_outbound k) (fail_if-none _ unused_outbound strict),
        λ e. not_lacks c.prom_label_proxy (conjunct _ _ (fail_if-none _ empty_labels labels) e),
      )
    where
      not_false : (b : Bool) → not b ≡ false → b ≡ true
      not_false true h = refl
      not_false false h = absurd cc

  decode-Checked :
      (k : K) (cfg : Config)
      → decode layers libs k ≡ goes cfg
      → (c : ConfigFields) × Checked k c cfg
  unfolding decode
  decode-Checked k cfg h = nested (layers.exists (text "inbound.acl") k) refl h
    where
      all_checked :
          (c : ConfigFields) (o : Option SourceError)
          → layers.exists (text "inbound.acl") k ≡ false
          → layers.unmarshal k ≡ some c
          → check_outbound_keys layers k c ≡ o
          → checked layers libs c o ≡ goes cfg
          → Checked k c cfg
      all_checked c (some x) n u e h = absurd cc
      all_checked c none n u e h = record {
        decodes = u;
        no_nested_acl = n;
        top_keys = root_keys_only k c e;
        outbound_keys = λ t. (outbound_checks k c e t).0;
        labels_there = λ t. (outbound_checks k c e t).1;
        validated = judged-loaded (validate libs (apply_defaults c)) cfg h;
      }

      read :
          (o : Option ConfigFields)
          → layers.exists (text "inbound.acl") k ≡ false
          → layers.unmarshal k ≡ o
          → decoded layers libs k o ≡ goes cfg
          → (c : ConfigFields) × Checked k c cfg
      read none n u h = absurd cc
      read (some c) n u h = (c, all_checked c (check_outbound_keys layers k c) n u refl h)

      nested :
          (b : Bool)
          → layers.exists (text "inbound.acl") k ≡ b
          → (if b then fails nested_acl else decoded layers libs k (layers.unmarshal k)) ≡ goes cfg
          → (c : ConfigFields) × Checked k c cfg
      nested true n h = absurd cc
      nested false n h = read (layers.unmarshal k) n refl h

  -- Whatever the file, the environment and the flags are: a configuration that loadLayered returns was
  -- decoded from merged layers with no unknown key at the top, none under outbound, no access rules under
  -- inbound and no empty block of label rules, and is what Validate accepted.
  pub load_layered-Checked :
      (world : World) (read_file : Text → Option Text) (path : Text) (fs : Option FlagSet)
      (cfg : Config)
      → load_layered layers libs world read_file path fs ≡ goes cfg
      → (k : K) × (c : ConfigFields) × Checked k c cfg
  unfolding load_layered
  load_layered-Checked world read_file path fs cfg h =
      let (k, file, rest) =
        then_with-goes (file_layer layers libs world read_file path layers.new)
          (λ k. then_with (override_layer layers libs world fs k) (decode layers libs)) cfg h in
      let (k', over, last) =
        then_with-goes (override_layer layers libs world fs k) (decode layers libs) cfg rest in
      let (c, checks) = decode-Checked k' cfg last in (k', c, checks)
