-- ===== src/PromLabel/Serve/Response/Kept.antt =====
-- internal/promlabel/filter.go and filterSilences of silences.go: a filtered response has the entries that
-- the caller may see, in their order, and no other.
use token_auth_proxy.Common.{
  ◌≡◌, ◌≢◌, sym, map, All, All-map, refl, ap, ap₂, ◌∙◌, ◌⊎◌, inl, inr, Bool, true, false, not,
  Option, none, some, List, [], ◌∷◌, ◌++◌, keep, subst, Bool-cases, leb, eqb, if◌then◌else◌,
}
use token_auth_proxy.Text.{Text, text}
use token_auth_proxy.PromLabel.Scope.{Label}
use token_auth_proxy.PromLabel.Filter.{label_of, visible, keep_decoded}
use token_auth_proxy.PromLabel.Filter.Visible.{
  rules_or, shown, keep_decoded-keep, keep_labelled-keep, all_rules, filter_groups-rules,
  map_append,
}
use token_auth_proxy.PromLabel.Serve.{ResponseFilter, filter_rules, filter_alerts, filter_silences}
use token_auth_proxy.PromLabel.Serve.Response.{
  TargetResponse, Object, JsonCodec, PlainBody, read_response, rules_of, put_in, with_kept_rules,
  with_groups, with_alerts, groups_kept, alerts_kept, rules_in, alerts_in, owned_in, as_list,
  silences_in, filter_body, with_body, filter_plain, modify_response,
}
use token_auth_proxy.PromLabel.Serve.Response.Through.{
  Compacted, AllCompacted, label_of-put, Faithful, entries_of, admitted, Through,
  api_filter-Through, read-data, written-data,
}
use token_auth_proxy.Common.{eqb_iff}

map_twice :
    (f : Text → Text)
    → ((t : Text) → f (f t) ≡ f t)
    → (ts : List Text) → map f (map f ts) ≡ map f ts
map_twice f h [] = refl
map_twice f h (t ∷ ts) = ap₂ ◌∷◌ (h t) (map_twice f h ts)

read_alike :
    {E : Type 0} (see : E → Bool) {o o' : Option E}
    → o ≡ o'
    → elim o as (λ x. Bool) [ none ↦ false | some e ↦ see e ]
      ≡ elim o' as (λ x. Bool) [ none ↦ false | some e ↦ see e ]
read_alike see e = ap (λ o. elim o as (λ x. Bool) [ none ↦ false | some e ↦ see e ]) e

-- What is kept is still kept once it is written.
keep-written :
    (p : Text → Bool) (f : Text → Text)
    → ((t : Text) → p (f t) ≡ p t)
    → (ts : List Text) → All (λ t. p t ≡ true) (map f (keep p ts))
keep-written p f h [] = tt
keep-written p f h (t ∷ ts) = elim (Bool-cases (p t)) [
  | inl e ↦ rw e (h t ∙ e, keep-written p f h ts)
  | inr e ↦ rw e (keep-written p f h ts)
]

module _ (codec : JsonCodec) where
  put_in-some :
      (o o' : Object) (name : Text) (r : Option Text)
      → put_in codec o name r ≡ some o'
      → (raw : Text) × (r ≡ some raw) × (o' ≡ (name, raw) ∷ o)
  put_in-some o o' name none h = absurd cc
  put_in-some o o' name (some raw) h = (raw, refl, cc)

  module _ (ls : List Label) (d d' : Object) where
    alerts-put :
        (o : Option (List Text))
        → with_alerts codec d o ≡ some d'
        → (kept : List Text) × (raw : Text) × (o ≡ some kept)
          × (codec.encode_list kept ≡ some raw)
          × (d' ≡ (text "alerts", raw) ∷ d)
    alerts-put none h = absurd cc
    alerts-put (some kept) h =
        let (raw, e, shape) = put_in-some d d' (text "alerts") (codec.encode_list kept) h in
        (kept, raw, refl, e, shape)

    groups-put :
        (o : Option (List Object))
        → with_groups codec d o ≡ some d'
        → (kept : List Object) × (raw : Text) × (o ≡ some kept)
          × (codec.encode_objects kept ≡ some raw)
          × (d' ≡ (text "groups", raw) ∷ d)
    groups-put none h = absurd cc
    groups-put (some kept) h =
        let (raw, e, shape) = put_in-some d d' (text "groups") (codec.encode_objects kept) h in
        (kept, raw, refl, e, shape)

    alerts-decoded :
        (o : Option (List Text)) (kept : List Text)
        → alerts_kept codec ls o ≡ some kept
        → (es : List Text) × (o ≡ some es) × (kept ≡ keep (shown codec.decode_labels ls) es)
    alerts-decoded none kept h = absurd cc
    alerts-decoded (some es) kept h =
        (es, refl, keep_labelled-keep codec.decode_labels ls es kept h)

  module _ (law : Faithful codec) where
    open law use {compact, compact_twice}

    rules_back :
        (g g' : Object) (rs : List Text)
        → with_kept_rules codec g rs ≡ some g'
        → rules_of codec g' ≡ some (map compact rs)
    rules_back g g' rs h =
        let (raw, e, shape) = put_in-some g g' (text "rules") (codec.encode_list rs) h in
        ap (rules_of codec) shape
        ∙ ap codec.decode_list (label_of-put (text "rules") raw g)
        ∙ law.list_back rs raw e

    abbrev Listed : Object → Type 0
    Listed g = (rs : List Text) × (rules_of codec g ≡ some rs)

    groups-decoded :
        (ls : List Label) (o : Option (List Object)) (kept : List Object)
        → groups_kept codec ls o ≡ some kept
        → (gs : List Object) × (o ≡ some gs)
          × (all_rules (rules_of codec) kept
              ≡ map compact (keep (shown codec.decode_labels ls) (all_rules (rules_of codec) gs)))
          × All Listed kept
    groups-decoded ls none kept h = absurd cc
    groups-decoded ls (some gs) kept h =
        let (same, full) =
          filter_groups-rules codec.decode_labels ls (rules_of codec) (with_kept_rules codec)
            compact rules_back gs kept h in
        (gs, refl, same, All-map _ Listed (λ g (r, rs, e). (r ∷ rs, e)) kept full)

    -- The text of a field that is read as a list is not empty.
    rules-Compacted :
        (o' o : Object) (rs : List Text)
        → Compacted compact o' o
        → rules_of codec o ≡ some rs
        → rules_of codec o' ≡ some (map compact rs)
    rules-Compacted o' o rs c h =
        ap codec.decode_list (c (text "rules") given)
        ∙ law.list_compact (label_of o (text "rules")) rs h
      where
        given : label_of o (text "rules") ≢ []
        given e =
            let k : none ≡ some rs = sym law.no_list ∙ ap codec.decode_list (sym e) ∙ h in absurd cc

    all_rules-Compacted :
        (os' os : List Object)
        → AllCompacted compact os' os
        → All Listed os
        → (all_rules (rules_of codec) os' ≡ map compact (all_rules (rules_of codec) os))
          × All Listed os'
    all_rules-Compacted [] [] c l = (refl, tt)
    all_rules-Compacted [] (o ∷ os) c l = absurd c
    all_rules-Compacted (o' ∷ os') [] c l = absurd c
    all_rules-Compacted (o' ∷ os') (o ∷ os) (c, cs) ((rs, h), l) =
        let (same, listed) = all_rules-Compacted os' os cs l in
        let here = rules-Compacted o' o rs c h in
        (
          ap₂ (λ x y. rules_or (rules_of codec) x ++ y) here same
              ∙ sym (map_append compact rs (all_rules (rules_of codec) os))
              ∙ ap (λ x. map compact (rules_or (rules_of codec) x ++ all_rules (rules_of codec) os))
                  (sym h),
          ((map compact rs, here), listed),
        )

    module _ (ls : List Label) (body body' : Text) where
      abbrev Kept : ResponseFilter → Type 0
      Kept f =
          (es : List Text) × (entries_of codec f body ≡ some es)
          × (entries_of codec f body' ≡ some (map compact (keep (admitted codec f ls) es)))

      -- A field that is put into the data, as the data of the filtered response has it.
      put-data :
          (F : Object → Option Object) (t : Through codec F body body') (d : Object)
          (name raw : Text)
          → Compacted compact d t.data_written
          → t.data_written ≡ (name, raw) ∷ t.data_read
          → raw ≢ []
          → label_of d name ≡ compact raw
      put-data F t d name raw c shape given =
          let put : label_of t.data_written name ≡ raw =
            ap (λ o. label_of o name) shape ∙ label_of-put name raw t.data_read in
          c name (λ e. given (sym put ∙ e)) ∙ ap compact put

      alerts-Kept : Through codec (alerts_in codec ls) body body' → Kept filter_alerts
      alerts-Kept t =
          let (kept, raw, k, encoded, put) =
            alerts-put ls t.data_read t.data_written
              (alerts_kept codec ls (codec.decode_list (label_of t.data_read (text "alerts"))))
              (t.filters) in
          let (es, read_es, shown_es) =
            alerts-decoded ls t.data_read t.data_written
              (codec.decode_list (label_of t.data_read (text "alerts"))) kept k in
          let (d, read_d, as_d) = written-data codec (alerts_in codec ls) body body' law t in
          let back = law.list_back kept raw encoded in
          let field : label_of d (text "alerts") ≡ compact raw =
            put-data (alerts_in codec ls) t d (text "alerts") raw as_d put (λ e.
              let z : none ≡ some (map compact kept) =
                sym law.no_list ∙ ap codec.decode_list (sym e) ∙ back in
              absurd cc) in
          (
            es,
            rw (read-data codec (alerts_in codec ls) body body' t) read_es,
            rw (read_d, field)
                (law.list_compact raw (map compact kept) back
                  ∙ ap some (map_twice compact compact_twice kept ∙ ap (map compact) shown_es)),
          )

      rules-Kept : Through codec (rules_in codec ls) body body' → Kept filter_rules
      rules-Kept t =
          let (kept, raw, k, encoded, put) =
            groups-put ls t.data_read t.data_written
              (groups_kept codec ls (codec.decode_objects (label_of t.data_read (text "groups"))))
              (t.filters) in
          let (gs, read_gs, shown_gs, listed) =
            groups-decoded ls (codec.decode_objects (label_of t.data_read (text "groups"))) kept
              k in
          let (d, read_d, as_d) = written-data codec (rules_in codec ls) body body' law t in
          let (mid, read_mid, as_mid) = law.objects_back kept raw encoded in
          let (os, read_os, as_os) = law.objects_compact raw mid read_mid in
          let (same_mid, listed_mid) = all_rules-Compacted mid kept as_mid listed in
          let (same_os, _) = all_rules-Compacted os mid as_os listed_mid in
          let field : label_of d (text "groups") ≡ compact raw =
            put-data (rules_in codec ls) t d (text "groups") raw as_d put (λ e.
              let z : none ≡ some mid =
                sym law.no_objects ∙ ap codec.decode_objects (sym e) ∙ read_mid in
              absurd cc) in
          (
            all_rules (rules_of codec) gs,
            rw (read-data codec (rules_in codec ls) body body' t, read_gs) refl,
            rw (read_d, field, read_os)
                (ap some (
                  same_os
                  ∙ ap (map compact) same_mid
                  ∙ map_twice compact compact_twice (all_rules (rules_of codec) kept)
                  ∙ ap (map compact) shown_gs
                  ∙ map_twice compact compact_twice
                      (keep (shown codec.decode_labels ls) (all_rules (rules_of codec) gs)))),
          )

      silences-Kept :
          silences_in codec ls (codec.decode_list body) ≡ some body' → Kept filter_silences
      silences-Kept h = go (codec.decode_list body) refl h
        where
          listed :
              (es : List Text) (o : Option (List Text))
              → keep_decoded codec.decode_silence (owned_in codec ls) es ≡ o
              → as_list codec o ≡ some body'
              → codec.decode_list body'
                ≡ some (map compact (keep (admitted codec filter_silences ls) es))
          listed es none e k = absurd cc
          listed es (some kept) e k =
              law.list_back kept body' k
              ∙ ap (λ x. some (map compact x))
                  (keep_decoded-keep codec.decode_silence (owned_in codec ls) es kept e)

          go :
              (o : Option (List Text))
              → codec.decode_list body ≡ o
              → silences_in codec ls o ≡ some body'
              → (es : List Text) × (codec.decode_list body ≡ some es)
                × (codec.decode_list body'
                    ≡ some (map compact (keep (admitted codec filter_silences ls) es)))
          go none e k = absurd cc
          go (some es) e k =
              (es, e, listed es (keep_decoded codec.decode_silence (owned_in codec ls) es) refl k)

      admitted-compact :
          (f : ResponseFilter) (t : Text) → admitted codec f ls (compact t) ≡ admitted codec f ls t
      admitted-compact filter_rules t = read_alike (λ entry. visible entry ls) (law.labels_same t)
      admitted-compact filter_alerts t = read_alike (λ entry. visible entry ls) (law.labels_same t)
      admitted-compact filter_silences t = read_alike (owned_in codec ls) (law.silence_same t)

      filter_body-Kept : (f : ResponseFilter) → filter_body codec f ls body ≡ some body' → Kept f
      unfolding filter_body
      filter_body-Kept filter_rules h =
          rules-Kept (api_filter-Through codec (rules_in codec ls) body body' h)
      filter_body-Kept filter_alerts h =
          alerts-Kept (api_filter-Through codec (alerts_in codec ls) body body' h)
      filter_body-Kept filter_silences h = silences-Kept h

  module _ (ls : List Label) (f : ResponseFilter) (resp resp' : TargetResponse) where
    -- The response is filtered: its status is 200, and of its entries the admitted ones are left.
    -- These stand as they are written, and may be seen as they stand.
    abbrev pub Filtered : (Text → Text) → PlainBody → Type 0
    Filtered compact plain =
        (read_response codec resp ≡ some plain)
        × ((es : List Text) × (entries_of codec f plain.body ≡ some es)
            × (entries_of codec f resp'.content
                ≡ some (map compact (keep (admitted codec f ls) es)))
            × All (λ e. admitted codec f ls e ≡ true) (map compact (keep (admitted codec f ls) es)))

    module _ (law : Faithful codec) where
      with_body-Filtered :
          (plain : PlainBody) (o : Option Text)
          → read_response codec resp ≡ some plain
          → filter_body codec f ls plain.body ≡ o
          → with_body codec resp plain.headers o ≡ some resp'
          → Filtered law.compact plain × (resp'.status ≡ resp.status)
      with_body-Filtered plain none e g h = absurd cc
      with_body-Filtered plain (some out) e g h =
          let (es, read_es, read_kept) = filter_body-Kept law ls plain.body out f g in
          let content : out ≡ resp'.content = cc in
          (
            (
              e,
              (
                es,
                read_es,
                subst
                    (λ x.
                      entries_of codec f x ≡ some (map law.compact (keep (admitted codec f ls) es)))
                    content read_kept,
                keep-written (admitted codec f ls) law.compact
                    (admitted-compact law ls plain.body out f) es,
              ),
            ),
            cc,
          )

      plain-Filtered :
          (o : Option PlainBody)
          → read_response codec resp ≡ o
          → filter_plain codec f ls resp o ≡ some resp'
          → (plain : PlainBody) × Filtered law.compact plain × (resp'.status ≡ resp.status)
      plain-Filtered none e h = absurd cc
      plain-Filtered (some plain) e h =
          let (kept, status) =
            with_body-Filtered plain (filter_body codec f ls plain.body) e refl h in
          (plain, kept, status)

      checked-Filtered :
          (b : Bool)
          → eqb resp.status 200 ≡ b
          → (if not b then none else filter_plain codec f ls resp (read_response codec resp))
            ≡ some resp'
          → (plain : PlainBody) × Filtered law.compact plain × (resp'.status ≡ 200)
      checked-Filtered false e h = absurd cc
      checked-Filtered true e h =
          let (plain, kept, status) = plain-Filtered (read_response codec resp) refl h in
          (plain, kept, status ∙ (eqb_iff resp.status 200).0 e)

      -- A response that comes through a filter is the target's own error response; or it has status 200,
      -- the target's response was read, and what is left of its rules, alerts or silences are exactly the
      -- ones that the caller may see, in their order, each as encoding/json writes it.
      pub modify_response-Filtered :
          modify_response codec (some (f, ls)) resp ≡ some resp'
          → ((leb 400 resp.status ≡ true) × (resp' ≡ resp))
            ⊎ ((plain : PlainBody) × Filtered law.compact plain × (resp'.status ≡ 200))
      unfolding modify_response
      modify_response-Filtered h = elim (Bool-cases (leb 400 resp.status)) [
        | inl t ↦ inl (t, let e : some resp ≡ some resp' = rw t at h in cc)
        | inr n ↦ inr (checked-Filtered (eqb resp.status 200) refl (rw n at h))
      ]
