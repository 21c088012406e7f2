-- ===== src/PromLabel/Validate/Tests.antt =====
-- Path prefixes on concrete lists, and the theorem at a concrete request.
use token_auth_proxy.Common.{◌≡◌, refl, ◌≤◌, true, some, List, [], ◌∷◌, length, In, ◌before◌}
use token_auth_proxy.Text.{
  Text, text, ◌==◌, cut_prefix, has_prefix, cut_suffix, has_suffix, trim_suffix, contains, join,
}
use token_auth_proxy.Text.Path.{clean, split_slash, resolve, resolve_all}
use token_auth_proxy.Acl.{is_clean_path}
use token_auth_proxy.Acl.Validate.{validate_acl_path}
use token_auth_proxy.PromLabel.Scope.{
  query, route, endpoint_for, other_endpoint, is_label_values_path,
}
use token_auth_proxy.PromLabel.Scope.Routing.{under}
use token_auth_proxy.PromLabel.Resolve.{compact}
use token_auth_proxy.PromLabel.Validate.{valid, normalize_prefixes, by_length, insert_prefix}
use token_auth_proxy.PromLabel.Validate.Longest.{configured, validated_route_longest}

abbrev given : List Text
given = text "/prom/" ∷ text "/prom/eu" ∷ []

abbrev prefixes : List Text
prefixes = text "/prom/eu" ∷ text "/prom" ∷ []

longest_first : normalize_prefixes given ≡ valid prefixes
unfolding normalize_prefixes by_length insert_prefix compact validate_acl_path is_clean_path clean
    split_slash resolve resolve_all join ◌==◌ has_suffix cut_suffix trim_suffix contains has_prefix
    cut_prefix ◌before◌
longest_first = refl

routed_eu :
    route prefixes (text "GET") (text "/prom/eu/api/v1/query") ≡ some (query, text "/prom/eu")
unfolding route ◌==◌ cut_prefix has_prefix endpoint_for other_endpoint is_label_values_path
routed_eu = refl

validated_route_longest_example :
    (under (text "/prom/eu/api/v1/query") (text "/prom/eu") ≡ true)
    × ((q : Text)
        → In q (configured given)
        → under (text "/prom/eu/api/v1/query") q ≡ true
        → length q ≤ length (text "/prom/eu"))
validated_route_longest_example =
    validated_route_longest given prefixes (text "GET") (text "/prom/eu/api/v1/query") query
      (text "/prom/eu") longest_first routed_eu
