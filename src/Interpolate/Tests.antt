-- ===== src/Interpolate/Tests.antt =====
-- Interpolation of concrete texts, and the theorems at concrete inputs.
use token_auth_proxy.Common.{◌≡◌, ◌≢◌, refl, if◌then◌else◌, none, some, [], ◌∷◌, ◌++◌, arith}
use token_auth_proxy.Text.{text, ◌==◌, cut, cut_prefix, has_prefix, cut_suffix, contains}
use token_auth_proxy.Interpolate.{
  ok, err, out_of_fuel, World, classify, resolve_ref, resolve_env_ref, resolve_file_ref,
  looks_like_ref_type, strip_newline, resume, scan, interpolate_string,
}
use token_auth_proxy.Interpolate.Pass.{interpolate_string-scan}
use token_auth_proxy.Interpolate.Escape.{interpolate_string-reference}
use token_auth_proxy.Interpolate.Value.{
  Value, str, mapping, end, field, interpolate_value, interpolate_fields,
}

-- The value of the one variable looks like a reference itself.
abbrev world : World
world = record {
  lookup_env = λ name. if name == text "SECRET" then some (text "${file:x}") else none;
  read_file = λ path. some (text "key" ++ (13 ∷ 10 ∷ []));
}

file_value : interpolate_string world (text "a ${file:/k} b") ≡ ok (text "a key b")
unfolding interpolate_string scan resume classify resolve_ref resolve_file_ref resolve_env_ref
    looks_like_ref_type strip_newline cut cut_prefix cut_suffix has_prefix contains ◌==◌
file_value = refl

secret : resolve_ref world (text "env:SECRET") ≡ ok (some (text "${file:x}"))
unfolding resolve_ref resolve_env_ref looks_like_ref_type cut ◌==◌
secret = refl

after_secret : interpolate_string world (text " $${x}") ≡ ok (text " ${x}")
unfolding interpolate_string scan resume classify cut cut_prefix has_prefix contains
after_secret = refl

interpolate_string-reference_example :
    interpolate_string world
      (text "p=" ++ (text "${" ++ (text "env:SECRET" ++ (text "}" ++ text " $${x}"))))
    ≡ ok (text "p=" ++ (text "${file:x}" ++ text " ${x}"))
interpolate_string-reference_example =
    interpolate_string-reference world (text "p=") (text "env:SECRET") (text " $${x}")
      (text "${file:x}") (text " ${x}") (refl, (refl, tt))
      (refl, (refl, (refl, (refl, (refl, (refl, (refl, (refl, (refl, (refl, tt)))))))))) secret
      after_secret

interpolate_string-scan_example :
    (interpolate_string world (text "a ${file:/k} b") ≡ scan world 40 (text "a ${file:/k} b"))
    × (interpolate_string world (text "a ${file:/k} b") ≢ err out_of_fuel)
interpolate_string-scan_example =
    interpolate_string-scan world (text "a ${file:/k} b") 40 (omega arith)

abbrev document : Value
document = mapping (field (text "${key}") (str (text "${file:/k}")) end)

abbrev resolved : Value
resolved = mapping (field (text "${key}") (str (text "key")) end)

document-resolved : interpolate_value world document ≡ ok resolved
unfolding interpolate_value interpolate_fields interpolate_string scan resume classify resolve_ref
    resolve_file_ref resolve_env_ref looks_like_ref_type strip_newline cut cut_prefix cut_suffix
    has_prefix contains ◌==◌
document-resolved = refl
