-- ===== src/PromLabel/Serve/Dispatch/Queries.antt =====
-- internal/promlabel/handler.go: the queries and filters that are passed on are enforced ones.
use token_auth_proxy.Common.{
  ◌≡◌, ◌≢◌, refl, sym, ap, ◌∙◌, ◌⊎◌, Option, none, some, List, [], ◌∷◌, ◌++◌, map, append_assoc,
  append-nil, All, subst,
}
use token_auth_proxy.Text.{Text, ==_iff}
use token_auth_proxy.PromLabel.Scope.{Scope}
use token_auth_proxy.PromLabel.Handler.{
  Values, values_of, Rewritten, Kind, Rewrite, forwarded, answered, rewrite,
}
use token_auth_proxy.PromLabel.Handler.Enforced.{Safe, values, param, rewrite-Safe}
use token_auth_proxy.PromLabel.Serve.{
  HttpRequest, passed_on, form_content_type, filter_param, values_or_none, add_value, drop_body,
}
use token_auth_proxy.PromLabel.Serve.Dispatch.{
  Libraries, Form, form, no_form, matchers_of, selector_of, set_body, read_form, forward, with_form,
  with_query, with_matchers, rewrite_request, add_filters, filter_query, filter_with,
  serve_am_filter,
}
use token_auth_proxy.PromLabel.Serve.Dispatch.Confined.{
  read, Queried, Narrowed, ReadsBack, Same, set_body-content,
}

module _ {M : Type 0} (libs : Libraries M) where
  values-or_none :
      (enforce : Text → Rewritten) (selector : Text) (o : Option (List Text))
      → values enforce selector o ≡ values_or_none o
  values-or_none enforce selector none = refl
  values-or_none enforce selector (some vs) = refl

  module _ (back : ReadsBack libs) (scope : Scope) (kind : Kind) (r r' : HttpRequest) where
    forward-Queried :
        (ms : List M) (v body : Values) (w : Rewrite)
        → matchers_of libs scope.labels ≡ some ms
        → rewrite (libs.enforce_all ms) (selector_of libs ms) kind v body ≡ w
        → forward libs r w ≡ passed_on r'
        → Queried libs scope kind r' × Same libs r r'
    forward-Queried ms v body (answered status) m e h = absurd cc
    forward-Queried ms v body (forwarded u b) m e h =
        let (safe_u, safe_b, one) =
          rewrite-Safe (libs.enforce_all ms) (selector_of libs ms) kind v body u b e in
        let (u', read_u, as_u) = back u in
        let (b', read_b, as_b) = back b in
        let sent =
          set_body libs (record r { raw_query = libs.encode u }) (libs.encode b)
            form_content_type in
        let (content, raw, path, method) =
          set_body-content libs (record r { raw_query = libs.encode u }) (libs.encode b)
            form_content_type in
        let is_sent : sent ≡ r' = cc in
        let at_u : values (libs.enforce_all ms) (selector_of libs ms) (values_of u (param kind))
            ≡ read libs u' (param kind) =
          values-or_none (libs.enforce_all ms) (selector_of libs ms) (values_of u (param kind))
          ∙ sym (as_u (param kind)) in
        let at_b : values (libs.enforce_all ms) (selector_of libs ms) (values_of b (param kind))
            ≡ read libs b' (param kind) =
          values-or_none (libs.enforce_all ms) (selector_of libs ms) (values_of b (param kind))
          ∙ sym (as_b (param kind)) in
        (
          record {
            enforced = ms;
            of_scope = m;
            url = u';
            in_url = ap libs.parse_query (sym (ap (λ x. x.raw_query) is_sent) ∙ raw) ∙ read_u;
            body = b';
            in_body = ap libs.parse_query (sym (ap (λ x. x.content) is_sent) ∙ content) ∙ read_b;
            safe_url = subst (All (Safe (libs.enforce_all ms) (selector_of libs ms))) at_u safe_u;
            safe_body = subst (All (Safe (libs.enforce_all ms) (selector_of libs ms))) at_b safe_b;
            some_value =
                subst (λ x. (x ≢ []) ⊎ (read libs b' (param kind) ≢ [])) at_u
                  (subst
                    (λ x.
                      (values (libs.enforce_all ms) (selector_of libs ms) (values_of u (param kind))
                        ≢ [])
                      ⊎ (x ≢ []))
                    at_b one);
          },
          (sym (ap (λ x. x.path) is_sent) ∙ path, sym (ap (λ x. x.method) is_sent) ∙ method),
        )

    form-Queried :
        (ms : List M) (v : Values) (f : Form)
        → matchers_of libs scope.labels ≡ some ms
        → with_form libs ms kind r v f ≡ passed_on r'
        → Queried libs scope kind r' × Same libs r r'
    form-Queried ms v (no_form status) m h = absurd cc
    form-Queried ms v (form body) m h =
        forward-Queried ms v body (rewrite (libs.enforce_all ms) (selector_of libs ms) kind v body)
          m refl h

    query-Queried :
        (ms : List M) (o : Option Values)
        → matchers_of libs scope.labels ≡ some ms
        → with_query libs ms kind r o ≡ passed_on r'
        → Queried libs scope kind r' × Same libs r r'
    query-Queried ms none m h = absurd cc
    query-Queried ms (some v) m h = form-Queried ms v (read_form libs r) m h

    matchers-Queried :
        (o : Option (List M))
        → matchers_of libs scope.labels ≡ o
        → with_matchers libs kind r o ≡ passed_on r'
        → Queried libs scope kind r' × Same libs r r'
    matchers-Queried none m h = absurd cc
    matchers-Queried (some ms) m h = query-Queried ms (libs.parse_query r.raw_query) m h

    pub rewrite_request-Queried :
        rewrite_request libs scope kind r ≡ passed_on r'
        → Queried libs scope kind r' × Same libs r r'
    unfolding rewrite_request
    rewrite_request-Queried h = matchers-Queried (matchers_of libs scope.labels) refl h

  read-add_value :
      (name value : Text) (v : Values)
      → read libs (add_value name value v) name ≡ read libs v name ++ (value ∷ [])
  unfolding values_of
  read-add_value name value v = rw ((==_iff name name).1 refl) refl

  read-add_filters :
      (ms : List M) (v : Values)
      → read libs (add_filters libs ms v) filter_param
        ≡ read libs v filter_param ++ map libs.string_of ms
  unfolding add_filters
  read-add_filters [] v = sym (append-nil (read libs v filter_param))
  read-add_filters (m ∷ ms) v =
      read-add_filters ms (add_value filter_param (libs.string_of m) v)
      ∙ ap (λ x. x ++ map libs.string_of ms) (read-add_value filter_param (libs.string_of m) v)
      ∙ append_assoc (read libs v filter_param) (libs.string_of m ∷ []) (map libs.string_of ms)

  module _ (back : ReadsBack libs) (scope : Scope) (r r' : HttpRequest) where
    filter_query-Narrowed :
        (ms : List M) (o : Option Values)
        → matchers_of libs scope.labels ≡ some ms
        → libs.parse_query r.raw_query ≡ o
        → filter_query libs ms r o ≡ passed_on r'
        → Narrowed libs scope r r' × Same libs r r'
    unfolding drop_body
    filter_query-Narrowed ms none m e h = absurd cc
    filter_query-Narrowed ms (some v) m e h =
        let (u', read_u, as_u) = back (add_filters libs ms v) in
        let sent = drop_body (record r { raw_query = libs.encode (add_filters libs ms v) }) in
        let is_sent : sent ≡ r' = cc in
        (
          record {
            enforced = ms;
            of_scope = m;
            given = v;
            in_given = e;
            url = u';
            in_url = ap libs.parse_query (sym (ap (λ x. x.raw_query) is_sent)) ∙ read_u;
            filters = as_u filter_param ∙ read-add_filters ms v;
            no_body = sym (ap (λ x. x.content) is_sent);
          },
          (sym (ap (λ x. x.path) is_sent), sym (ap (λ x. x.method) is_sent)),
        )

    filter_with-Narrowed :
        (o : Option (List M))
        → matchers_of libs scope.labels ≡ o
        → filter_with libs r o ≡ passed_on r'
        → Narrowed libs scope r r' × Same libs r r'
    filter_with-Narrowed none m h = absurd cc
    filter_with-Narrowed (some ms) m h =
        filter_query-Narrowed ms (libs.parse_query r.raw_query) m refl h

    pub serve_am_filter-Narrowed :
        serve_am_filter libs scope r ≡ passed_on r' → Narrowed libs scope r r' × Same libs r r'
    unfolding serve_am_filter
    serve_am_filter-Narrowed h = filter_with-Narrowed (matchers_of libs scope.labels) refl h
