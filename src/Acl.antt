-- ===== src/Acl.antt =====
-- internal/config/acl.go and internal/authn/acl.go: the access rules, their validation when the
-- configuration is loaded, and the decision on a request. A Go map of claims is a list of pairs;
-- the code only looks names up in one and ranges over the other, in any order.
pub mod Validate
pub mod Grants
pub mod Segments
mod Tests
use token_auth_proxy.Common.{
  ℕ, ◌+◌, String, Bool, true, false, not, ◌&&◌, ◌||◌, Option, none, some, List, [], ◌∷◌, ◌++◌, any,
  all, is_empty, if◌then◌else◌, ltb, length, ◌before◌, fail_if, check_from,
}
use token_auth_proxy.Text.{
  Text, text, ◌==◌, cut_prefix, has_prefix, cut_suffix, has_suffix, trim_suffix, contains, to_lower,
  to_upper, equal_fold, join,
}
use token_auth_proxy.Text.Path.{clean}

pub record AclPrincipal : Type 0 where
  pub mode : Text
  pub source : Text
  pub username : Text
  pub claims : List (Text × Text)

pub record AclRule : Type 0 where
  pub principals : List AclPrincipal
  pub methods : List Text
  pub paths : List Text

-- A decoded claim: what JSON decodes to, and the []string of a SAML attribute. A number is its
-- 64 bits; an object stands without its fields, which the code never reads.
mutual
  pub data Claim : Type 0 where
    null : Claim
    str : Text → Claim
    float64 : ℕ → Claim
    bool : Bool → Claim
    strings : List Text → Claim
    array : Elems → Claim
    object : Claim

  pub data Elems : Type 0 where
    nil : Elems
    cons : Claim → Elems → Elems

abbrev pub elems : Elems → List Claim
elems nil = []
elems (cons c cs) = c ∷ elems cs

-- The authenticated identity.
pub record Principal : Type 0 where
  pub mode : Text
  pub source : Text
  pub username : Text
  pub claims : List (Text × Claim)

-- A Go map read: a missing name gives nil.
unfoldable pub claim_of : List (Text × Claim) → Text → Claim
claim_of [] name = null
claim_of ((k, c) ∷ cs) name = if k == name then c else claim_of cs name

abbrev pub basic_principal : Text → Principal
basic_principal username = record {
  mode = text "basic";
  source = [];
  username = username;
  claims = [];
}

abbrev pub jwt_principal : Text → List (Text × Claim) → Principal
jwt_principal source claims = record {
  mode = text "jwt";
  source = source;
  username = [];
  claims = claims;
}

-- The attributes of a SAML session, with the subject put over any attribute named "sub".
abbrev attribute : Text × List Text → Text × Claim
attribute (k, v) = (k, strings v)

abbrev attributes : List (Text × List Text) → List (Text × Claim)
attributes [] = []
attributes (a ∷ rest) = attribute a ∷ attributes rest

abbrev pub saml_principal : Text → List (Text × List Text) → Principal
saml_principal subject attrs = record {
  mode = text "saml";
  source = [];
  username = [];
  claims = (text "sub", str subject) ∷ attributes attrs;
}

pub record Request : Type 0 where
  pub method : Text
  pub path : Text
  pub raw_path : Text

-- config.IsCleanPath
unfoldable pub is_clean_path : Text → Bool
is_clean_path p =
    let trimmed =
      if ltb 1 (length p) && has_suffix p (text "/") then trim_suffix p (text "/") else p in
    clean trimmed == trimmed

unfoldable pub unclean_path : Request → Bool
unclean_path r = not (is_clean_path r.path) || contains (to_lower r.raw_path) (text "%2f")

unfoldable pub method_matches : List Text → Text → Bool
method_matches methods method =
    is_empty methods || any (λ m. m == text "*" || equal_fold m method) methods

abbrev pub path_matches_one : Text → Text → Bool
path_matches_one path p = elim (cut_suffix p (text "*")) [
  | none ↦ path == p
  | some prefix ↦ has_prefix path prefix
]

unfoldable pub path_matches : List Text → Text → Bool
path_matches paths path = is_empty paths || any (path_matches_one path) paths

-- strconv.FormatFloat(f, 'f', -1, 64) is a parameter: the shortest decimal form of a float64.
module _ (format_float : ℕ → Text) where
  unfoldable pub scalar_string : Claim → Option Text
  scalar_string null = none
  scalar_string (str s) = some s
  scalar_string (float64 f) = some (format_float f)
  scalar_string (bool b) = some (if b then text "true" else text "false")
  scalar_string (strings l) = some (text "[" ++ (join (text " ") l ++ text "]"))
  scalar_string (array es) = none
  scalar_string object = none

  abbrev pub scalar_equals : Claim → Text → Bool
  scalar_equals v want = elim (scalar_string v) [ none ↦ false | some s ↦ s == want ]

  unfoldable pub claim_contains : Claim → Text → Bool
  unfolding scalar_string
  claim_contains null want = false
  claim_contains (array es) want = any (λ v. scalar_equals v want) (elems es)
  claim_contains (strings l) want = any (λ v. v == want) l
  claim_contains c want = scalar_equals c want

  unfoldable pub principal_matches : AclPrincipal → Principal → Bool
  principal_matches pr p =
      if not (pr.mode == p.mode)
      then false
      else if not (is_empty pr.source) && not (pr.source == p.source)
      then false
      else if not (is_empty pr.username) && not (pr.username == p.username)
      then false
      else all (λ (name, want). claim_contains (claim_of p.claims name) want) pr.claims

  unfoldable pub any_principal_matches : List AclPrincipal → Principal → Bool
  any_principal_matches principals p = any (λ pr. principal_matches pr p) principals

  abbrev pub rule_allows : Principal → Text → Text → AclRule → Bool
  rule_allows p method path rule =
      method_matches rule.methods method
      && path_matches rule.paths path
      && any_principal_matches rule.principals p

  unfoldable pub acl_allows : List AclRule → Option Principal → Text → Text → Bool
  acl_allows rules none method path = false
  acl_allows rules (some p) method path = any (rule_allows p method path) rules

  -- authorize: whether the request goes on; otherwise the 403 was written.
  unfoldable pub authorize : Request → List AclRule → Option Principal → Bool
  authorize r rules p =
      if is_empty rules
      then true
      else if unclean_path r
      then false
      else acl_allows rules p r.method r.path
