-- ===== src/PromLabel/Serve/Response/Through.antt =====
-- internal/promlabel/filter.go: the entries that a response body has, and the way of the data of an API
-- response through apiFilter.
use token_auth_proxy.Common.{
  ◌≡◌, ◌≢◌, refl, sym, ap, ◌∙◌, map, inl, inr, Bool, Option, none, some, List, [], ◌∷◌, Bool-cases,
}
use token_auth_proxy.Text.{Text, text, ==_iff}
use token_auth_proxy.PromLabel.Scope.{Label}
use token_auth_proxy.PromLabel.Filter.{label_of}
use token_auth_proxy.PromLabel.Filter.Visible.{seen, shown, all_rules}
use token_auth_proxy.PromLabel.Serve.{ResponseFilter, filter_rules, filter_alerts, filter_silences}
use token_auth_proxy.PromLabel.Serve.Response.{
  Object, JsonCodec, rules_of, in_data, filter_data, is_success, put_in, encode_if, with_data,
  in_envelope, api_filter, owned_in,
}

-- An object has the fields of another one, compacted.
abbrev pub Compacted : (Text → Text) → Object → Object → Type 0
Compacted compact o' o =
    (name : Text) → label_of o name ≢ [] → label_of o' name ≡ compact (label_of o name)

abbrev pub AllCompacted : (Text → Text) → List Object → List Object → Type 0
AllCompacted compact [] [] = Unit
AllCompacted compact (o' ∷ os') (o ∷ os) = Compacted compact o' o × AllCompacted compact os' os
AllCompacted compact _ _ = ⊥

abbrev and_then : {A B : Type 0} → Option A → (A → Option B) → Option B
and_then none f = none
and_then (some a) f = f a

pub label_of-put : (name value : Text) (o : Object) → label_of ((name, value) ∷ o) name ≡ value
unfolding label_of
label_of-put name value o = rw ((==_iff name name).1 refl) refl

module _ (codec : JsonCodec) where
  -- What encoding/json documents. It writes a raw value compacted, without white space and with the
  -- characters of HTML escaped, so that it reads back what it writes but for that; no value is an
  -- empty text; and a raw value that is compacted reads like before.
  pub record Faithful : Type 0 where
    pub compact : Text → Text
    pub compact_twice : (t : Text) → compact (compact t) ≡ compact t
    pub compact_some : (t : Text) → compact t ≡ [] → t ≡ []
    pub no_list : codec.decode_list [] ≡ none
    pub no_object : codec.decode_object [] ≡ none
    pub no_objects : codec.decode_objects [] ≡ none
    pub list_back :
        (l : List Text) (t : Text)
        → codec.encode_list l ≡ some t
        → codec.decode_list t ≡ some (map compact l)
    pub object_back :
        (o : Object) (t : Text)
        → codec.encode_object o ≡ some t
        → (o' : Object) × (codec.decode_object t ≡ some o') × Compacted compact o' o
    pub objects_back :
        (os : List Object) (t : Text)
        → codec.encode_objects os ≡ some t
        → (os' : List Object) × (codec.decode_objects t ≡ some os') × AllCompacted compact os' os
    pub list_compact :
        (t : Text) (l : List Text)
        → codec.decode_list t ≡ some l
        → codec.decode_list (compact t) ≡ some (map compact l)
    pub object_compact :
        (t : Text) (o : Object)
        → codec.decode_object t ≡ some o
        → (o' : Object) × (codec.decode_object (compact t) ≡ some o') × Compacted compact o' o
    pub objects_compact :
        (t : Text) (os : List Object)
        → codec.decode_objects t ≡ some os
        → (os' : List Object) × (codec.decode_objects (compact t) ≡ some os')
          × AllCompacted compact os' os
    pub labels_same : (t : Text) → codec.decode_labels (compact t) ≡ codec.decode_labels t
    pub silence_same : (t : Text) → codec.decode_silence (compact t) ≡ codec.decode_silence t

  -- The data of an API response.
  abbrev pub data_of : Text → Option Object
  data_of body =
      and_then (codec.decode_object body) (λ o. codec.decode_object (label_of o (text "data")))

  abbrev pub rules_listed : Option (List Object) → Option (List Text)
  rules_listed none = none
  rules_listed (some gs) = some (all_rules (rules_of codec) gs)

  -- The entries that a body has: the rules of all groups, the alerts or the silences.
  abbrev pub entries_of : ResponseFilter → Text → Option (List Text)
  entries_of filter_rules body =
      and_then (data_of body)
        (λ d. rules_listed (codec.decode_objects (label_of d (text "groups"))))
  entries_of filter_alerts body =
      and_then (data_of body) (λ d. codec.decode_list (label_of d (text "alerts")))
  entries_of filter_silences body = codec.decode_list body

  -- The entries that the caller may see.
  abbrev pub admitted : ResponseFilter → List Label → Text → Bool
  admitted filter_silences ls raw = seen codec.decode_silence (owned_in codec ls) raw
  admitted _ ls raw = shown codec.decode_labels ls raw

  -- What a filter of the data reads and writes.
  pub record Through (F : Object → Option Object) (body body' : Text) : Type 0 where
    pub envelope : Object
    pub data_read : Object
    pub data_written : Object
    pub in_body : codec.decode_object body ≡ some envelope
    pub in_data : codec.decode_object (label_of envelope (text "data")) ≡ some data_read
    pub filters : F data_read ≡ some data_written
    pub data_text : Text
    pub data_encoded : codec.encode_object data_written ≡ some data_text
    pub written : codec.encode_object ((text "data", data_text) ∷ envelope) ≡ some body'

  module _ (F : Object → Option Object) (body body' : Text) where
    with_data-Through :
        (env d : Object) (o : Option Object)
        → codec.decode_object body ≡ some env
        → codec.decode_object (label_of env (text "data")) ≡ some d
        → F d ≡ o
        → with_data codec env o ≡ some body'
        → Through F body body'
    with_data-Through env d none e f g h = absurd cc
    with_data-Through env d (some d') e f g h = go (codec.encode_object d') refl h
      where
        go :
            (r : Option Text)
            → codec.encode_object d' ≡ r
            → encode_if codec (put_in codec env (text "data") r) ≡ some body'
            → Through F body body'
        go none k l = absurd cc
        go (some raw) k l = record {
          envelope = env;
          data_read = d;
          data_written = d';
          in_body = e;
          in_data = f;
          filters = g;
          data_text = raw;
          data_encoded = k;
          written = l;
        }

    data-Through :
        (env : Object) (o : Option Object)
        → codec.decode_object body ≡ some env
        → codec.decode_object (label_of env (text "data")) ≡ o
        → with_data codec env (in_data codec F o) ≡ some body'
        → Through F body body'
    data-Through env none e f h = absurd cc
    data-Through env (some d) e f h = with_data-Through env d (F d) e f refl h

    envelope-Through :
        (o : Option Object)
        → codec.decode_object body ≡ o
        → in_envelope codec F o ≡ some body'
        → Through F body body'
    unfolding filter_data
    envelope-Through none e h = absurd cc
    envelope-Through (some env) e h =
        elim (Bool-cases (is_success codec (codec.decode_text (label_of env (text "status"))))) [
          | inl t ↦
              data-Through env (codec.decode_object (label_of env (text "data"))) e refl (rw t at h)
          | inr f ↦ absurd (let k : none ≡ some body' = rw f at h in cc)
        ]

    pub api_filter-Through : api_filter codec F body ≡ some body' → Through F body body'
    unfolding api_filter
    api_filter-Through h = envelope-Through (codec.decode_object body) refl h

    pub read-data : (t : Through F body body') → data_of body ≡ some t.data_read
    read-data t = rw (t.in_body) (t.in_data)

    module _ (law : Faithful) where
      open law use {compact, compact_twice, compact_some}

      Compacted-trans :
          (a b c : Object) → Compacted compact a b → Compacted compact b c → Compacted compact a c
      Compacted-trans a b c p q name n =
          let same : label_of b name ≡ compact (label_of c name) = q name n in
          p name (λ e. n (compact_some (label_of c name) (sym same ∙ e)))
          ∙ ap compact same
          ∙ compact_twice (label_of c name)

      data_text-some : (t : Through F body body') → t.data_text ≢ []
      data_text-some t e =
          let (o, read, _) = law.object_back t.data_written t.data_text t.data_encoded in
          let k : none ≡ some o = sym law.no_object ∙ ap codec.decode_object (sym e) ∙ read in
          absurd cc

      pub written-data :
          (t : Through F body body')
          → (d : Object) × (data_of body' ≡ some d) × Compacted compact d t.data_written
      written-data t =
          let (env, read_env, as_env) =
            law.object_back ((text "data", t.data_text) ∷ t.envelope) body' t.written in
          let (o, read_o, as_o) = law.object_back t.data_written t.data_text t.data_encoded in
          let (d, read_d, as_d) = law.object_compact t.data_text o read_o in
          let put = label_of-put (text "data") t.data_text t.envelope in
          let field : label_of env (text "data") ≡ compact t.data_text =
            as_env (text "data") (λ e. data_text-some t (sym put ∙ e)) ∙ ap compact put in
          (d, rw (read_env, field) read_d, Compacted-trans d o t.data_written as_d as_o)
