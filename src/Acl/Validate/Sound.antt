-- ===== src/Acl/Validate/Sound.antt =====
-- What a rule is known to be once it has passed the checks.
use token_auth_proxy.Common.{
  ℕ, ◌≡◌, refl, sym, ap, ◌∙◌, ◌⊎◌, inl, inr, Bool, true, false, not, ◌&&◌, ◌||◌, none, some, List,
  [], ◌∷◌, ◌++◌, Some, All, any_iff, Bool-cases, Option-cases, Bool-contra, before-none, fail_if,
  fail_if-none, check_from-none, subst, append_assoc,
}
use token_auth_proxy.Text.{Text, text, ◌==◌, ==_iff, cut_suffix, has_suffix, has_prefix, contains}
use token_auth_proxy.Text.Affix.{has_suffix_iff, has_prefix_iff, cut_suffix-append}
use token_auth_proxy.Config.{InboundAuth, BasicUser}
use token_auth_proxy.Acl.{AclPrincipal, AclRule, Principal, path_matches_one, acl_allows}
use token_auth_proxy.Acl.Grants.{path_one_iff, NoneOr, PrincipalIs, Grants, acl_allows_iff}
use token_auth_proxy.Acl.Validate.{
  inner_wildcard, no_leading_slash, validate_acl_path, validate_acl_principal, validate_acl_rule,
  validate_acl, basic_user_exists, in_rule, no_such_user,
}

has_prefix-star : (s : Text) → has_prefix (b'*' ∷ s) (text "*") ≡ true
has_prefix-star s = (has_prefix_iff (b'*' ∷ s) (text "*")).1 (s, refl)

contains-star : (r : Text) → contains (r ++ text "*") (text "*") ≡ true
unfolding contains
contains-star [] = refl
contains-star (c ∷ r) = rw (contains-star r) (||-true (has_prefix (c ∷ r ++ text "*") (text "*")))
  where
    ||-true : (b : Bool) → (b || true) ≡ true
    ||-true true = refl
    ||-true false = refl

append-cancel : (a b q : Text) → a ++ q ≡ b ++ q → a ≡ b
append-cancel a b q e =
    let x : cut_suffix (a ++ q) q ≡ some a = cut_suffix-append a q in
    let y : cut_suffix (b ++ q) q ≡ some b = cut_suffix-append b q in
    cc (x, y, ap (λ s. cut_suffix s q) e)

-- What a validated path may begin: the path itself, or a whole number of segments of it.
abbrev pub Below : Text → Text → Type 0
Below path p =
    (path ≡ p)
    ⊎ ((base : Text) × (rest : Text) × (p ≡ base ++ text "/*")
        × (path ≡ base ++ (text "/" ++ rest)))

star_ends :
    (p prefix : Text)
    → p ≡ prefix ++ text "*"
    → validate_acl_path p ≡ none
    → has_suffix p (text "/*") ≡ true
unfolding validate_acl_path
star_ends p prefix e h = elim (Bool-cases (has_suffix p (text "/*"))) [
  | inl t ↦ t
  | inr f ↦
      let later = (before-none (fail_if (not (has_prefix p (text "/"))) no_leading_slash) _ h).1 in
      let checked : fail_if (contains p (text "*")) inner_wildcard ≡ none =
        (before-none _ _ (rw f at later)).0 in
      absurd (
        Bool-contra (contains p (text "*")) (rw e (contains-star prefix))
          (fail_if-none (contains p (text "*")) inner_wildcard checked))
]

-- A wildcard path that passed validation matches only whole segments: what it matches is the path
-- itself or lies below it, behind a slash.
pub validated_path_segments :
    (p path : Text) → validate_acl_path p ≡ none → path_matches_one path p ≡ true → Below path p
validated_path_segments p path valid matched = elim ((path_one_iff path p).0 matched) [
  | inl e ↦ inl e
  | inr (prefix, rest, e, k) ↦
      let (base, s) = (has_suffix_iff p (text "/*")).0 (star_ends p prefix e valid) in
      let front : prefix ≡ base ++ text "/" =
        append-cancel prefix (base ++ text "/") (text "*")
          (sym e ∙ s ∙ sym (append_assoc base (text "/") (text "*"))) in
      inr (base, rest, s, k ∙ ap (λ x. x ++ rest) front ∙ append_assoc base (text "/") rest)
]

-- The configured Basic users, with none where there is no Basic source.
abbrev pub users_of : InboundAuth → List BasicUser
users_of auth = elim auth.basic [ none ↦ [] | some b ↦ b.users ]

user_exists :
    (auth : InboundAuth) (name : Text)
    → basic_user_exists auth name ≡ true
    → Some (λ u. u.username ≡ name) (users_of auth)
user_exists auth name h = elim (Option-cases auth.basic) [
  | inl n ↦ absurd (let k : false ≡ true = rw (n, basic_user_exists) at h in cc)
  | inr (b, e) ↦
      rw (e, users_of)
        ((any_iff (λ u. u.username == name) (λ u. u.username ≡ name) (λ u. ==_iff u.username name)
            b.users).0
          (rw (e, basic_user_exists) at h))
]

-- A principal of mode "basic" that passed validation names a configured user.
principal_basic :
    (auth : InboundAuth) (pr : AclPrincipal)
    → validate_acl_principal auth pr ≡ none
    → pr.mode ≡ text "basic"
    → Some (λ u. u.username ≡ pr.username) (users_of auth)
unfolding validate_acl_principal
principal_basic auth pr h m =
    let h₁ = (before-none _ _ h).1 in
    let h₂ = (before-none _ _ h₁).1 in
    let h₃ = (before-none _ _ h₂).1 in
    let h₄ = (before-none _ _ h₃).1 in
    let h₅ = (before-none _ _ h₄).1 in
    let h₆ = (before-none _ _ h₅).1 in
    let h₇ = (before-none _ _ h₆).0 in
    let no : (pr.mode == text "basic" && not (basic_user_exists auth pr.username)) ≡ false =
      fail_if-none _ no_such_user h₇ in
    let is_basic : (pr.mode == text "basic") ≡ true = (==_iff pr.mode (text "basic")).1 m in
    user_exists auth pr.username (found (basic_user_exists auth pr.username) (rw is_basic at no))
  where
    found : (b : Bool) → (true && not b) ≡ false → b ≡ true
    found true k = refl
    found false k = cc

basic_principal_user :
    (auth : InboundAuth) (p : Principal) (format_float : ℕ → Text) (prs : List AclPrincipal)
    → All (λ pr. validate_acl_principal auth pr ≡ none) prs
    → Some (PrincipalIs format_float p) prs
    → p.mode ≡ text "basic"
    → ¬ Some (λ u. u.username ≡ []) (users_of auth)
    → Some (λ u. u.username ≡ p.username) (users_of auth)
basic_principal_user auth p ff [] v g m e = absurd g
basic_principal_user auth p ff (pr ∷ prs) (v, vs) g m e = elim g [
  | inl is ↦ named pr.username is.username (principal_basic auth pr v (is.mode ∙ m))
  | inr later ↦ basic_principal_user auth p ff prs vs later m e
]
  where
    named :
        (name : Text)
        → NoneOr name (name ≡ p.username)
        → Some (λ u. u.username ≡ name) (users_of auth)
        → Some (λ u. u.username ≡ p.username) (users_of auth)
    named [] n s = absurd (e s)
    named (c ∷ cs) n s = subst (λ x. Some (λ u. u.username ≡ x) (users_of auth)) n s

rule_principals :
    (auth : InboundAuth) (rule : AclRule)
    → validate_acl_rule auth rule ≡ none
    → All (λ pr. validate_acl_principal auth pr ≡ none) rule.principals
unfolding validate_acl_rule
rule_principals auth rule h =
    check_from-none _ _ 0 rule.principals (before-none _ _ (before-none _ _ h).1).0

granted_user :
    (auth : InboundAuth) (format_float : ℕ → Text) (p : Principal) (method path : Text)
    (rules : List AclRule)
    → All (λ rule. validate_acl_rule auth rule ≡ none) rules
    → Some (Grants format_float p method path) rules
    → p.mode ≡ text "basic"
    → ¬ Some (λ u. u.username ≡ []) (users_of auth)
    → Some (λ u. u.username ≡ p.username) (users_of auth)
granted_user auth ff p method path [] v g m e = absurd g
granted_user auth ff p method path (rule ∷ rules) (v, vs) g m e = elim g [
  | inl is ↦
      basic_principal_user auth p ff rule.principals (rule_principals auth rule v) is.principals m e
  | inr later ↦ granted_user auth ff p method path rules vs later m e
]

-- Under validated rules, a Basic identity that the rules allow is one of the configured users,
-- provided that no configured user has an empty name.
pub acl_allows-configured :
    (auth : InboundAuth) (format_float : ℕ → Text) (rules : List AclRule) (p : Principal)
    (method path : Text)
    → validate_acl auth rules ≡ none
    → acl_allows format_float rules (some p) method path ≡ true
    → p.mode ≡ text "basic"
    → ¬ Some (λ u. u.username ≡ []) (users_of auth)
    → Some (λ u. u.username ≡ p.username) (users_of auth)
unfolding validate_acl
acl_allows-configured auth ff rules p method path valid allowed m e =
    granted_user auth ff p method path rules
      (check_from-none in_rule (validate_acl_rule auth) 0 rules valid)
      ((acl_allows_iff ff rules p method path).0 allowed) m e
