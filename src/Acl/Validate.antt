-- ===== src/Acl/Validate.antt =====
-- internal/config/acl.go: the checks on the access rules when the configuration is loaded. Each
-- error is a constructor named for its message; `none` is a nil error.
pub mod Sound
use token_auth_proxy.Common.{
  ℕ, Bool, true, false, not, ◌&&◌, ◌||◌, Option, none, some, List, [], ◌∷◌, any, all, is_empty, leb,
  eqb, ltb, length, if◌then◌else◌, ◌before◌, fail_if, check_from, map,
}
use token_auth_proxy.Text.{
  Text, text, ◌==◌, has_prefix, has_suffix, trim_suffix, contains, to_upper,
}
use token_auth_proxy.Config.{InboundAuth}
use token_auth_proxy.Acl.{AclPrincipal, AclRule, is_clean_path}

pub data AclError : Type 0 where
  in_rule in_principal in_method in_path : ℕ → AclError → AclError
  no_principals wildcard_not_alone bad_method : AclError
  unknown_mode nothing_named source_needs_jwt no_such_source username_needs_basic : AclError
  claims_need_token no_such_user empty_claim_name : AclError
  no_leading_slash inner_wildcard not_clean : AclError

-- The bytes of an RFC 9110 token.
abbrev pub is_token_byte : ℕ → Bool
is_token_byte c =
    (leb b'a' c && leb c b'z')
    || (leb b'A' c && leb c b'Z')
    || (leb b'0' c && leb c b'9')
    || any (λ d. eqb d c) (text "!#$%&'*+-.^_`|~")

unfoldable pub is_http_token : Text → Bool
is_http_token s = not (is_empty s) && all is_token_byte s

abbrev pub jwt_source_exists : InboundAuth → Text → Bool
jwt_source_exists auth name = any (λ j. j.name == name) auth.jwt

abbrev pub basic_user_exists : InboundAuth → Text → Bool
basic_user_exists auth username = elim auth.basic [
  | none ↦ false
  | some b ↦ any (λ u. u.username == username) b.users
]

unfoldable pub validate_acl_path : Text → Option AclError
validate_acl_path p =
    let base = if has_suffix p (text "/*") then trim_suffix p (text "*") else p in
    fail_if (not (has_prefix p (text "/"))) no_leading_slash
    before fail_if (contains base (text "*")) inner_wildcard
    before fail_if (not (is_clean_path base)) not_clean

unfoldable pub validate_acl_principal : InboundAuth → AclPrincipal → Option AclError
validate_acl_principal auth p =
    fail_if (not (p.mode == text "basic" || p.mode == text "jwt" || p.mode == text "saml"))
      unknown_mode
    before fail_if (is_empty p.source && is_empty p.username && is_empty p.claims) nothing_named
    before fail_if (not (is_empty p.source) && not (p.mode == text "jwt")) source_needs_jwt
    before fail_if (not (is_empty p.source) && not (jwt_source_exists auth p.source)) no_such_source
    before fail_if (not (is_empty p.username) && not (p.mode == text "basic")) username_needs_basic
    before fail_if (p.mode == text "basic" && not (is_empty p.claims)) claims_need_token
    before fail_if (p.mode == text "basic" && not (basic_user_exists auth p.username)) no_such_user
    before fail_if (any (λ (name, want). is_empty name) p.claims) empty_claim_name

abbrev pub validate_method : List Text → Text → Option AclError
validate_method methods m =
    if m == text "*"
    then fail_if (ltb 1 (length methods)) wildcard_not_alone
    else fail_if (not (is_http_token m) || contains m (text "*")) bad_method

unfoldable pub validate_acl_rule : InboundAuth → AclRule → Option AclError
validate_acl_rule auth rule =
    fail_if (is_empty rule.principals) no_principals
    before check_from in_principal (validate_acl_principal auth) 0 rule.principals
    before check_from in_method (validate_method rule.methods) 0 rule.methods
    before check_from in_path validate_acl_path 0 rule.paths

unfoldable pub validate_acl : InboundAuth → List AclRule → Option AclError
validate_acl auth rules = check_from in_rule (validate_acl_rule auth) 0 rules

-- applyACLDefaults: methods are put in upper case.
abbrev upper_methods : AclRule → AclRule
upper_methods rule = record rule { methods = map to_upper rule.methods }

unfoldable pub apply_acl_defaults : List AclRule → List AclRule
apply_acl_defaults rules = map upper_methods rules
