-- ===== src/Acl/Grants.antt =====
-- What the access rules grant, stated without the loops of the code.
use token_auth_proxy.Common.{
  ℕ, ◌≡◌, refl, ap, ◌∙◌, ◌↔◌, ◌⊎◌, inl, inr, Bool, true, false, not, ◌&&◌, ◌||◌, Option, none, some,
  List, [], ◌∷◌, ◌++◌, all, is_empty, if◌then◌else◌, Some, All, any_iff, all_iff, Bool-cases,
  Option-cases, Bool-contra, subst,
}
use token_auth_proxy.Text.{Text, text, ◌==◌, ==_iff, cut_suffix, to_lower, equal_fold}
use token_auth_proxy.Text.Affix.{has_prefix_iff, cut_suffix-some, cut_suffix-append}
use token_auth_proxy.Text.Fold.{equal_fold_iff}
use token_auth_proxy.Acl.{
  AclPrincipal, AclRule, Claim, null, str, float64, bool, strings, array, object, elems, Principal,
  Request, claim_of, unclean_path, method_matches, path_matches, path_matches_one, scalar_string,
  scalar_equals, claim_contains, principal_matches, any_principal_matches, rule_allows, acl_allows,
  authorize,
}

-- An entry of `methods`: the wildcard, or the method up to case.
abbrev pub MethodIs : Text → Text → Type 0
MethodIs method m = (m ≡ text "*") ⊎ (to_lower m ≡ to_lower method)

-- An entry of `paths`: the path itself, or a prefix of it before the wildcard.
abbrev pub PathIs : Text → Text → Type 0
PathIs path p =
    (path ≡ p)
    ⊎ ((prefix : Text) × (rest : Text) × (p ≡ prefix ++ text "*") × (path ≡ prefix ++ rest))

abbrev pub NoneOr {ℓ} : {A : Type ℓ} → List A → Type 0 → Type 0
NoneOr [] P = Unit
NoneOr (x ∷ xs) P = P

module _ (format_float : ℕ → Text) where
  abbrev pub ClaimHolds : Claim → Text → Type 0
  ClaimHolds null want = ⊥
  ClaimHolds (array es) want = Some (λ v. scalar_string format_float v ≡ some want) (elems es)
  ClaimHolds (strings l) want = Some (λ v. v ≡ want) l
  ClaimHolds c want = scalar_string format_float c ≡ some want

  pub record PrincipalIs (p : Principal) (pr : AclPrincipal) : Type 0 where
    pub mode : pr.mode ≡ p.mode
    pub source : NoneOr pr.source (pr.source ≡ p.source)
    pub username : NoneOr pr.username (pr.username ≡ p.username)
    pub claims : All (λ (name, want). ClaimHolds (claim_of p.claims name) want) pr.claims

  pub record Grants (p : Principal) (method path : Text) (rule : AclRule) : Type 0 where
    pub methods : NoneOr rule.methods (Some (MethodIs method) rule.methods)
    pub paths : NoneOr rule.paths (Some (PathIs path) rule.paths)
    pub principals : Some (PrincipalIs p) rule.principals

||_iff : (a b : Bool) → ((a || b) ≡ true) ↔ ((a ≡ true) ⊎ (b ≡ true))
||_iff true b = (λ h. inl refl, λ h. refl)
||_iff false b = (λ h. inr h, λ h. elim h [ inl x ↦ absurd cc | inr y ↦ y ])

method_one_iff :
    (method m : Text) → ((m == text "*" || equal_fold m method) ≡ true) ↔ MethodIs method m
method_one_iff method m =
    let (to, from) = ||_iff (m == text "*") (equal_fold m method) in
    (
      λ h. elim (to h) [
        | inl a ↦ inl ((==_iff m (text "*")).0 a)
        | inr b ↦ inr ((equal_fold_iff m method).0 b)
      ],
      λ h. elim h [
        | inl a ↦ from (inl ((==_iff m (text "*")).1 a))
        | inr b ↦ from (inr ((equal_fold_iff m method).1 b))
      ],
    )

method_matches_iff :
    (methods : List Text) (method : Text)
    → (method_matches methods method ≡ true) ↔ NoneOr methods (Some (MethodIs method) methods)
unfolding method_matches
method_matches_iff [] method = (λ h. tt, λ h. refl)
method_matches_iff (m ∷ ms) method =
    any_iff (λ x. x == text "*" || equal_fold x method) (MethodIs method) (method_one_iff method)
      (m ∷ ms)

pub path_one_iff : (path p : Text) → (path_matches_one path p ≡ true) ↔ PathIs path p
path_one_iff path p = elim (Option-cases (cut_suffix p (text "*"))) [
  | inl n ↦
      rw (n, path_matches_one)
        (
          λ h. inl ((==_iff path p).0 h),
          λ h. elim h [
            | inl e ↦ (==_iff path p).1 e
            | inr (prefix, rest, e, k) ↦
                let found : cut_suffix p (text "*") ≡ some prefix =
                  rw e (cut_suffix-append prefix (text "*")) in
                absurd cc
          ],
        )
  | inr (prefix, found) ↦
      let shape : p ≡ prefix ++ text "*" = cut_suffix-some p (text "*") found in
      rw (found, path_matches_one)
        (
          λ h. let (rest, e) = (has_prefix_iff path prefix).0 h in inr (prefix, rest, shape, e),
          λ h. elim h [
            | inl e ↦ (has_prefix_iff path prefix).1 (text "*", e ∙ shape)
            | inr (prefix', rest, e, k) ↦
                let other : cut_suffix p (text "*") ≡ some prefix' =
                  rw e (cut_suffix-append prefix' (text "*")) in
                let same : prefix ≡ prefix' = cc in (has_prefix_iff path prefix).1 (rest, rw same k)
          ],
        )
]

path_matches_iff :
    (paths : List Text) (path : Text)
    → (path_matches paths path ≡ true) ↔ NoneOr paths (Some (PathIs path) paths)
unfolding path_matches
path_matches_iff [] path = (λ h. tt, λ h. refl)
path_matches_iff (p ∷ ps) path =
    any_iff (path_matches_one path) (PathIs path) (path_one_iff path) (p ∷ ps)

some_eq_iff : (s want : Text) → ((s == want) ≡ true) ↔ (some s ≡ some want)
some_eq_iff s want = (λ h. ap some ((==_iff s want).0 h), λ h. (==_iff s want).1 cc)

NoneOr_iff : (s t : Text) → ((not (is_empty s) && not (s == t)) ≡ false) ↔ NoneOr s (s ≡ t)
NoneOr_iff [] t = (λ h. tt, λ h. refl)
NoneOr_iff (c ∷ s) t = elim (Bool-cases ((c ∷ s) == t)) [
  | inl e ↦ rw e (λ h. (==_iff (c ∷ s) t).0 e, λ h. refl)
  | inr f ↦
      rw f (λ h. absurd cc, λ h. absurd (Bool-contra ((c ∷ s) == t) ((==_iff (c ∷ s) t).1 h) f))
]

&&₃_iff : (a b c : Bool) → ((a && b && c) ≡ true) ↔ ((a ≡ true) × (b ≡ true) × (c ≡ true))
&&₃_iff true true c = (λ h. (refl, refl, h), λ h. h.2)
&&₃_iff true false c = (λ h. absurd cc, λ h. absurd cc)
&&₃_iff false b c = (λ h. absurd cc, λ h. absurd cc)

ladder_iff :
    (a b c d : Bool)
    → ((if not a then false else if b then false else if c then false else d) ≡ true)
      ↔ ((a ≡ true) × (b ≡ false) × (c ≡ false) × (d ≡ true))
ladder_iff false b c d = (λ h. absurd cc, λ h. absurd cc)
ladder_iff true true c d = (λ h. absurd cc, λ h. absurd cc)
ladder_iff true false true d = (λ h. absurd cc, λ h. absurd cc)
ladder_iff true false false d = (λ h. (refl, refl, refl, h), λ h. h.3)

module _ (format_float : ℕ → Text) where
  scalar_equals_iff :
      (v : Claim) (want : Text)
      → (scalar_equals format_float v want ≡ true) ↔ (scalar_string format_float v ≡ some want)
  scalar_equals_iff v want = elim (Option-cases (scalar_string format_float v)) [
    | inl n ↦ rw (n, scalar_equals) (λ h. absurd cc, λ h. absurd cc)
    | inr (s, e) ↦ rw (e, scalar_equals) (some_eq_iff s want)
  ]

  claim_contains_iff :
      (c : Claim) (want : Text)
      → (claim_contains format_float c want ≡ true) ↔ ClaimHolds format_float c want
  unfolding claim_contains
  claim_contains_iff null want = (λ h. absurd cc, λ h. elim h [ ])
  claim_contains_iff (array es) want =
      any_iff (λ v. scalar_equals format_float v want)
        (λ v. scalar_string format_float v ≡ some want) (λ v. scalar_equals_iff v want) (elems es)
  claim_contains_iff (strings l) want =
      any_iff (λ v. v == want) (λ v. v ≡ want) (λ v. ==_iff v want) l
  claim_contains_iff (str s) want = scalar_equals_iff (str s) want
  claim_contains_iff (float64 f) want = scalar_equals_iff (float64 f) want
  claim_contains_iff (bool b) want = scalar_equals_iff (bool b) want
  claim_contains_iff object want = scalar_equals_iff object want

  principal_matches_iff :
      (p : Principal) (pr : AclPrincipal)
      → (principal_matches format_float pr p ≡ true) ↔ PrincipalIs format_float p pr
  unfolding principal_matches
  principal_matches_iff p pr =
      let (to, from) =
        ladder_iff (pr.mode == p.mode) (not (is_empty pr.source) && not (pr.source == p.source))
          (not (is_empty pr.username) && not (pr.username == p.username))
          (all (λ (name, want). claim_contains format_float (claim_of p.claims name) want)
            pr.claims) in
      let (all_to, all_from) =
        all_iff (λ (name, want). claim_contains format_float (claim_of p.claims name) want)
          (λ (name, want). ClaimHolds format_float (claim_of p.claims name) want)
          (λ (name, want). claim_contains_iff (claim_of p.claims name) want) pr.claims in
      (
        λ h.
            let (m, s, u, c) = to h in
            record {
              mode = (==_iff pr.mode p.mode).0 m;
              source = (NoneOr_iff pr.source p.source).0 s;
              username = (NoneOr_iff pr.username p.username).0 u;
              claims = all_to c;
            },
        λ g. from (
          (==_iff pr.mode p.mode).1 g.mode,
          (NoneOr_iff pr.source p.source).1 g.source,
          (NoneOr_iff pr.username p.username).1 g.username,
          all_from g.claims,
        ),
      )

  rule_allows_iff :
      (p : Principal) (method path : Text) (rule : AclRule)
      → (rule_allows format_float p method path rule ≡ true)
        ↔ Grants format_float p method path rule
  unfolding any_principal_matches
  rule_allows_iff p method path rule =
      let (to, from) =
        &&₃_iff (method_matches rule.methods method) (path_matches rule.paths path)
          (any_principal_matches format_float rule.principals p) in
      let (any_to, any_from) =
        any_iff (λ pr. principal_matches format_float pr p) (PrincipalIs format_float p)
          (principal_matches_iff p) rule.principals in
      let (m_to, m_from) = method_matches_iff rule.methods method in
      let (p_to, p_from) = path_matches_iff rule.paths path in
      (
        λ h.
            let (m, q, a) = to h in
            record { methods = m_to m; paths = p_to q; principals = any_to a },
        λ g. from (m_from g.methods, p_from g.paths, any_from g.principals),
      )

  pub acl_allows_iff :
      (rules : List AclRule) (q : Principal) (method path : Text)
      → (acl_allows format_float rules (some q) method path ≡ true)
        ↔ Some (Grants format_float q method path) rules
  unfolding acl_allows
  acl_allows_iff rules q method path =
      any_iff (rule_allows format_float q method path) (Grants format_float q method path)
        (rule_allows_iff q method path) rules

  -- With rules, a request goes on exactly when its path is clean, there is an identity, and some
  -- rule grants it the method and the path; with none, always.
  pub authorize_iff :
      (r : Request) (rules : List AclRule) (p : Option Principal)
      → (authorize format_float r rules p ≡ true)
        ↔ NoneOr rules (
            (unclean_path r ≡ false)
            × ((q : Principal) × (p ≡ some q) × Some (Grants format_float q r.method r.path) rules))
  unfolding authorize acl_allows
  authorize_iff r [] p = (λ h. tt, λ h. refl)
  authorize_iff r (rule ∷ rules) none = elim (Bool-cases (unclean_path r)) [
    | inl t ↦ rw t (λ h. absurd cc, λ h. absurd cc)
    | inr f ↦ rw f (λ h. absurd cc, λ (_, w). absurd (let (q, e, g) = w in cc))
  ]
  authorize_iff r (rule ∷ rules) (some q) =
      let (to, from) = acl_allows_iff (rule ∷ rules) q r.method r.path in
      elim (Bool-cases (unclean_path r)) [
        | inl t ↦ rw t (λ h. absurd cc, λ h. absurd cc)
        | inr f ↦ rw f (
          λ h. (refl, (q, refl, to h)),
          λ (_, w).
              let (q', e, g) = w in
              let same : q' ≡ q = cc in
              from
                (subst (λ x. Some (Grants format_float x r.method r.path) (rule ∷ rules)) same g),
        )
      ]
