-- ===== src/Saml/Session/Tests.antt =====
-- Runs of the codecs, with a library whose tokens are the claims themselves.
use token_auth_proxy.Common.{◌≡◌, refl, none, some, [], ◌∷◌, if◌then◌else◌, arith}
use token_auth_proxy.Text.{text}
use token_auth_proxy.Saml.Session.{
  SamlClaims, Assertion, SessionCodec, Hs256, new_session, encode_session, decode_session,
  encode_tracked, decode_tracked, no_request,
}
use token_auth_proxy.Saml.Session.Codecs.{
  Lawful, is_accepted, decode_session-encode_session, codecs_apart,
}

abbrev codec : SessionCodec
codec = record { audience = text "sp"; issuer = text "sp"; max_age = 3600 }

abbrev assertion : Assertion
assertion = record {
  name_id = some (text "ann");
  attribute_statements =
      (record {
        friendly_name = text "team";
        name = text "urn:1";
        values = text "a" ∷ text "b" ∷ [];
      }
        ∷ record { friendly_name = []; name = text "team"; values = text "c" ∷ [] }
        ∷ [])
      ∷ [];
  session_indices = text "i1" ∷ [];
}

abbrev tokens : Hs256 SamlClaims
tokens = record {
  whole = λ t. t;
  sign = λ c. c;
  parse = λ o c. if is_accepted o c then some c else none;
}

tokens-Lawful : Lawful tokens
tokens-Lawful = record { cut_down = λ t. omega arith; parse_sign = λ o c. refl }

decode_session-encode_session_example :
    decode_session tokens codec 3609 (encode_session tokens (new_session tokens codec 10 assertion))
    ≡ some (new_session tokens codec 10 assertion)
decode_session-encode_session_example =
    decode_session-encode_session tokens tokens-Lawful codec 10 3609 assertion (omega arith)

codecs_apart_example :
    (decode_session tokens codec 20 (encode_tracked tokens codec 10 no_request) ≡ none)
    × (decode_tracked tokens codec 20
          (encode_session tokens (new_session tokens codec 10 assertion))
        ≡ none)
codecs_apart_example = codecs_apart tokens tokens-Lawful codec codec 10 20 assertion no_request
