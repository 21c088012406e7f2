-- ===== src/PromLabel/Resolve/Sound.antt =====
-- What a request must have shown for the proxy to let it on to the backend.
use token_auth_proxy.Common.{
  ℕ, ◌≡◌, ◌≢◌, refl, ◌⊎◌, inl, inr, Bool, true, false, not, ◌&&◌, Option, none, some, List, [], ◌∷◌,
  is_empty, if◌then◌else◌, Some, In, Bool-cases, Option-cases, subst, First, First-here,
  First-later,
}
use token_auth_proxy.Text.{Text}
use token_auth_proxy.Acl.{
  Principal, Request, claim_of, unclean_path, path_matches, any_principal_matches,
}
use token_auth_proxy.PromLabel.Scope.{Label, Endpoint, Scope, route}
use token_auth_proxy.PromLabel.Resolve.{
  PromLabel, PromLabelRule, PromLabelProxy, label_value, label_values, allow, deny, bypass_scope,
  claim_strings, find_rule, labelled, resolve_labels, decide, routed, resolve_prom_labels, unclean,
  no_label_value, no_rule,
}
use token_auth_proxy.PromLabel.Resolve.Values.{label_values-from, Some-ne}

module _ (format_float : ℕ → Text) where
  -- A label that is enforced: it has a value, and each of its values is not empty and is what the
  -- configured pattern makes of a value of the principal's claim.
  pub record Holds (p : Principal) (l : PromLabel) (enforced : Label) : Type 0 where
    pub name : enforced.name ≡ l.name
    pub some_value : enforced.values ≢ []
    pub values :
        (x : Text)
        → In x enforced.values
        → (x ≢ [])
          × Some
              (λ c. label_value l.pattern c ≡ some x)
              (claim_strings format_float (claim_of p.claims l.claim))

  abbrev pub HoldsAll : Principal → List PromLabel → List Label → Type 0
  HoldsAll p [] [] = Unit
  HoldsAll p [] (e ∷ es) = ⊥
  HoldsAll p (l ∷ ls) [] = ⊥
  HoldsAll p (l ∷ ls) (e ∷ es) = Holds p l e × HoldsAll p ls es

  labelled-some :
      (l : PromLabel) (vs : List Text) (rest : Option (List Label)) (es : List Label)
      → labelled format_float l vs rest ≡ some es
      → (rest' : List Label) × (rest ≡ some rest')
        × (es ≡ record { name = l.name; values = vs } ∷ rest')
        × (vs ≢ [])
  labelled-some l [] rest es h = absurd cc
  labelled-some l (v ∷ vs) none es h = absurd cc
  labelled-some l (v ∷ vs) (some rest') es h = (rest', refl, cc, λ e. cc)

  resolve_labels-HoldsAll :
      (p : Principal) (ls : List PromLabel) (es : List Label)
      → resolve_labels format_float p ls ≡ some es
      → HoldsAll p ls es
  unfolding resolve_labels
  resolve_labels-HoldsAll p [] es h = subst (HoldsAll p []) (some_eq h) tt
    where
      some_eq : {a b : List Label} → some a ≡ some b → a ≡ b
      some_eq e = cc
  resolve_labels-HoldsAll p (l ∷ ls) es h =
      let claim = claim_strings format_float (claim_of p.claims l.claim) in
      let (rest, e, shape, ne) =
        labelled-some l (label_values l claim) (resolve_labels format_float p ls) es h in
      rw shape (
        record {
          name = refl;
          some_value = ne;
          values = λ x m.
              let from = label_values-from l x claim m in (Some-ne l.pattern x claim from, from);
        },
        resolve_labels-HoldsAll p ls rest e,
      )

  find_rule-First :
      (p : Principal) (rules : List PromLabelRule) (rule : PromLabelRule)
      → find_rule format_float rules p ≡ some rule
      → First (λ r. any_principal_matches format_float r.principals p) rules rule
  unfolding find_rule
  find_rule-First p [] rule h = absurd cc
  find_rule-First p (r ∷ rules) rule h =
      elim (Bool-cases (any_principal_matches format_float r.principals p)) [
        | inl t ↦
            let same : r ≡ rule = some_eq (rw t at h) in
            subst (First (λ q. any_principal_matches format_float q.principals p) (r ∷ rules)) same
              (First-here (λ q. any_principal_matches format_float q.principals p) r rules t)
        | inr f ↦
            First-later (λ q. any_principal_matches format_float q.principals p) r rule rules f
              (find_rule-First p rules rule (rw f at h))
      ]
    where
      some_eq : {a b : PromLabelRule} → some a ≡ some b → a ≡ b
      some_eq e = cc

  -- How a request that is not exempt is let on: by the first rule of its principal, on a clean path,
  -- with every label of the rule holding; and then untouched on a passthrough path, or with those
  -- labels enforced at the endpoint that its path is routed to.
  pub record Enforced (block : PromLabelProxy) (r : Request) (p : Principal) (s : Scope)
      : Type 0 where
    pub rule : PromLabelRule
    pub labels : List Label
    pub first : First (λ q. any_principal_matches format_float q.principals p) block.rules rule
    pub holds : HoldsAll p rule.labels labels
    pub clean : unclean_path r ≡ false
    pub way :
        ((s ≡ bypass_scope)
          × (block.passthrough_paths ≢ [])
          × (path_matches block.passthrough_paths r.path ≡ true))
        ⊎ ((e : Endpoint) × (prefix : Text) × (route block.prefixes r.method r.path
              ≡ some (e, prefix))
            × (s ≡ record { bypass = false; labels = labels; endpoint = e; prefix = prefix }))

  decide-way :
      (block : PromLabelProxy) (r : Request) (ls : List Label) (s : Scope)
      → decide format_float block r ls ≡ allow s
      → (unclean_path r ≡ false)
        × (((s ≡ bypass_scope)
              × (block.passthrough_paths ≢ [])
              × (path_matches block.passthrough_paths r.path ≡ true))
            ⊎ ((e : Endpoint) × (prefix : Text) × (route block.prefixes r.method r.path
                  ≡ some (e, prefix))
                × (s ≡ record { bypass = false; labels = ls; endpoint = e; prefix = prefix })))
  unfolding decide
  decide-way block r ls s h = elim (Bool-cases (unclean_path r)) [
    | inl t ↦ absurd (let k : deny unclean ≡ allow s = rw t at h in cc)
    | inr f ↦ (
      f,
      passed (not (is_empty block.passthrough_paths)) (path_matches block.passthrough_paths r.path)
          refl refl (rw f at h),
    )
  ]
    where
      nonempty_list : (ps : List Text) → not (is_empty ps) ≡ true → ps ≢ []
      nonempty_list [] h = λ e. cc
      nonempty_list (q ∷ ps) h = λ e. cc

      routed_way :
          (o : Option (Endpoint × Text))
          → route block.prefixes r.method r.path ≡ o
          → routed format_float ls o ≡ allow s
          → (e : Endpoint) × (prefix : Text) × (route block.prefixes r.method r.path
              ≡ some (e, prefix))
            × (s ≡ record { bypass = false; labels = ls; endpoint = e; prefix = prefix })
      routed_way none e k = absurd cc
      routed_way (some (e, prefix)) eq k = (e, prefix, eq, cc)

      passed :
          (some_paths matched : Bool)
          → not (is_empty block.passthrough_paths) ≡ some_paths
          → path_matches block.passthrough_paths r.path ≡ matched
          → (if some_paths && matched
              then allow bypass_scope
              else routed format_float ls (route block.prefixes r.method r.path))
            ≡ allow s
          → ((s ≡ bypass_scope)
              × (block.passthrough_paths ≢ [])
              × (path_matches block.passthrough_paths r.path ≡ true))
            ⊎ ((e : Endpoint) × (prefix : Text) × (route block.prefixes r.method r.path
                  ≡ some (e, prefix))
                × (s ≡ record { bypass = false; labels = ls; endpoint = e; prefix = prefix }))
      passed true true a b k = inl (cc, nonempty_list block.passthrough_paths a, b)
      passed true false a b k = inr (routed_way (route block.prefixes r.method r.path) refl k)
      passed false m a b k = inr (routed_way (route block.prefixes r.method r.path) refl k)

  -- Where enforcement is configured, a request goes on only if it has an identity; and either that
  -- identity is exempt, and the request is forwarded untouched, or its path is clean, every label of
  -- the first rule that matches the identity has a value, and then the request is forwarded untouched
  -- on one of the configured passthrough paths, and elsewhere with those labels enforced at the
  -- endpoint that the path is routed to.
  pub resolve_prom_labels-allow :
      (block : PromLabelProxy) (r : Request) (p : Option Principal) (s : Scope)
      → resolve_prom_labels format_float (some block) r p ≡ allow s
      → (q : Principal) × (p ≡ some q)
        × (((any_principal_matches format_float block.exempt q ≡ true) × (s ≡ bypass_scope))
            ⊎ Enforced block r q s)
  unfolding resolve_prom_labels
  resolve_prom_labels-allow block r none s h = absurd cc
  resolve_prom_labels-allow block r (some q) s h =
      elim (Bool-cases (any_principal_matches format_float block.exempt q)) [
        | inl t ↦ (q, refl, inl (t, allowed (rw t at h)))
        | inr f ↦ elim (Option-cases (find_rule format_float block.rules q)) [
          | inl n ↦ absurd (let k : deny no_rule ≡ allow s = rw (f, n) at h in cc)
          | inr (rule, e) ↦ elim (Option-cases (resolve_labels format_float q rule.labels)) [
            | inl n ↦ absurd (let k : deny no_label_value ≡ allow s = rw (f, e, n) at h in cc)
            | inr (ls, found) ↦
                let (clean, way) = decide-way block r ls s (rw (f, e, found) at h) in
                (
                  q,
                  refl,
                  inr (record {
                    rule = rule;
                    labels = ls;
                    first = find_rule-First q block.rules rule e;
                    holds = resolve_labels-HoldsAll q rule.labels ls found;
                    clean = clean;
                    way = way;
                  }),
                )
          ]
        ]
      ]
    where
      allowed : {a b : Scope} → allow a ≡ allow b → b ≡ a
      allowed e = cc
