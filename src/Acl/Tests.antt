-- ===== src/Acl/Tests.antt =====
-- The access rules on concrete requests, and the theorems at concrete inputs.
use token_auth_proxy.Common.{ℕ, ◌≡◌, refl, ◌↔◌, inl, inr, true, false, none, some, [], ◌∷◌, Some}
use token_auth_proxy.Text.{
  Text, text, ◌==◌, cut_prefix, has_prefix, cut_suffix, has_suffix, trim_suffix, contains, to_lower,
  equal_fold, join,
}
use token_auth_proxy.Text.Path.{clean, split_slash, resolve, resolve_all}
use token_auth_proxy.Config.{InboundAuth}
use token_auth_proxy.Acl.{
  AclRule, Principal, Request, basic_principal, is_clean_path, unclean_path, method_matches,
  path_matches, principal_matches, any_principal_matches, acl_allows, authorize,
}
use token_auth_proxy.Acl.Grants.{NoneOr, Grants, authorize_iff}
use token_auth_proxy.Acl.Validate.{
  validate_acl_path, validate_acl, validate_acl_rule, validate_acl_principal, is_http_token,
}
use token_auth_proxy.Acl.Validate.Sound.{users_of, acl_allows-configured}
use token_auth_proxy.Common.{◌before◌}

abbrev no_floats : ℕ → Text
no_floats f = []

abbrev alice : Principal
alice = basic_principal (text "alice")

abbrev alice_rule : AclRule
alice_rule = record {
  principals =
      record { mode = text "basic"; source = []; username = text "alice"; claims = [] } ∷ [];
  methods = text "GET" ∷ [];
  paths = text "/app/*" ∷ [];
}

abbrev get_app : Request
get_app = record { method = text "GET"; path = text "/app/x"; raw_path = [] }

abbrev escape_app : Request
escape_app = record { method = text "GET"; path = text "/app/../admin"; raw_path = [] }

allowed : authorize no_floats get_app (alice_rule ∷ []) (some alice) ≡ true
unfolding authorize unclean_path is_clean_path clean split_slash resolve resolve_all join ◌==◌
    has_suffix cut_suffix trim_suffix contains has_prefix cut_prefix to_lower acl_allows
    method_matches path_matches any_principal_matches principal_matches equal_fold
allowed = refl

dot_dot_refused : authorize no_floats escape_app (alice_rule ∷ []) (some alice) ≡ false
unfolding authorize unclean_path is_clean_path clean split_slash resolve resolve_all join ◌==◌
    has_suffix cut_suffix trim_suffix contains has_prefix cut_prefix to_lower
dot_dot_refused = refl

-- One more slash than the root path has is let through.
double_slash_accepted : is_clean_path (text "//") ≡ true
unfolding is_clean_path clean split_slash resolve resolve_all join ◌==◌ has_suffix cut_suffix
    trim_suffix
double_slash_accepted = refl

authorize_iff_example :
    (authorize no_floats get_app (alice_rule ∷ []) (some alice) ≡ true)
    ↔ NoneOr (alice_rule ∷ []) (
        (unclean_path get_app ≡ false)
        × ((q : Principal) × (some alice ≡ some q)
            × Some (Grants no_floats q (text "GET") (text "/app/x")) (alice_rule ∷ [])))
authorize_iff_example = authorize_iff no_floats get_app (alice_rule ∷ []) (some alice)

abbrev with_alice : InboundAuth
with_alice = record {
  jwt = [];
  saml = none;
  login_page = none;
  basic = some (record {
    disabled = false;
    realm = text "restricted";
    users = record { username = text "alice"; password_hash = text "$2y$" } ∷ [];
  });
}

rules_valid : validate_acl with_alice (alice_rule ∷ []) ≡ none
unfolding validate_acl validate_acl_rule validate_acl_principal is_http_token validate_acl_path
    is_clean_path clean split_slash resolve resolve_all join ◌==◌ has_suffix cut_suffix trim_suffix
    contains has_prefix cut_prefix ◌before◌
rules_valid = refl

alice_allowed :
    acl_allows no_floats (alice_rule ∷ []) (some alice) (text "GET") (text "/app/x") ≡ true
unfolding ◌==◌ cut_suffix has_prefix cut_prefix to_lower acl_allows method_matches path_matches
    any_principal_matches principal_matches equal_fold
alice_allowed = refl

acl_allows-configured_example : Some (λ u. u.username ≡ text "alice") (users_of with_alice)
acl_allows-configured_example =
    acl_allows-configured with_alice no_floats (alice_rule ∷ []) alice (text "GET") (text "/app/x")
      rules_valid alice_allowed refl (λ e. elim e [ inl a ↦ cc | inr b ↦ b ])
