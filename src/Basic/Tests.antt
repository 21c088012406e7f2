-- ===== src/Basic/Tests.antt =====
-- Basic verification on concrete credentials, and the theorems at concrete inputs.
use token_auth_proxy.Common.{◌≡◌, refl, ◌↔◌, ◌⊎◌, Bool, true, false, [], ◌∷◌, if◌then◌else◌, arith}
use token_auth_proxy.Text.{Text, text, ◌==◌, join}
use token_auth_proxy.Config.{BasicSource}
use token_auth_proxy.Basic.{
  BasicRegistry, new_basic_registry, store, hash_for, hash_from, Compared, matched, mismatched,
  verified, saturated, Attempt, verify, lookup, lookup_negative, key, basic_fingerprint, user_parts,
}
use token_auth_proxy.Basic.Entries.{find, put, delete}
use token_auth_proxy.Basic.Sound.{Delimited, key_of, checked}
use token_auth_proxy.Basic.Sound.Credential.{Valid}
use token_auth_proxy.Basic.Trace.{Reachable, start, tick, stored, verify-Valid}
use token_auth_proxy.Basic.Trace.Bounds.{Bounded, Reachable-Bounded}

-- A hash that is the password itself, and an HMAC that is the text itself.
abbrev same_text : Text → Text
same_text s = s

abbrev plain_compare : Text → Text → Compared
plain_compare hash password = if hash == password then matched else mismatched

abbrev src : BasicSource
src = record {
  disabled = false;
  realm = text "r";
  users = record { username = text "al"; password_hash = text "pw" } ∷ [];
}

src-Delimited : Delimited src (text "al") (text "pw")
src-Delimited = record {
  realm = (refl, tt);
  users = ((((refl, (refl, tt)), (refl, (refl, tt)))), tt);
  username = (refl, (refl, tt));
  password = (refl, (refl, tt));
}

right_password : checked same_text plain_compare src (text "al") (text "pw") ≡ true
unfolding hash_for hash_from ◌==◌
right_password = refl

abbrev cached_al : BasicRegistry
cached_al =
    store 7 (key_of same_text plain_compare src (text "al") (text "pw")) true new_basic_registry

al_Reachable : Reachable same_text plain_compare 7 cached_al
al_Reachable =
    stored src (text "al") (text "pw") true src-Delimited right_password (tick (omega arith) start)

abbrev attempt : Attempt
attempt = record { looked_up_at = 8; stored_at = 9; slot = false }

-- With no slot for a comparison, the cache still answers.
from_cache :
    (verify same_text plain_compare attempt src (text "al") (text "pw") cached_al).0 ≡ verified true
unfolding verify lookup lookup_negative store key basic_fingerprint user_parts join find put delete
    ◌==◌
from_cache = refl

-- A wrong password gets no answer without a slot.
no_slot :
    (verify same_text plain_compare attempt src (text "al") (text "px") cached_al).0 ≡ saturated
unfolding verify lookup lookup_negative store key basic_fingerprint user_parts join find put delete
    hash_for hash_from ◌==◌
no_slot = refl

-- Two credentials of one key: the byte that separates the parts may stand in a part.
shared_key :
    key same_text plain_compare (text "fp") (97 ∷ 0 ∷ 98 ∷ []) (99 ∷ [])
    ≡ key same_text plain_compare (text "fp") (97 ∷ []) (98 ∷ 0 ∷ 99 ∷ [])
unfolding key
shared_key = refl

verify-Valid_example :
    (((verify same_text plain_compare attempt src (text "al") (text "pw") cached_al).0 ≡ saturated)
      × (attempt.slot ≡ false))
    ⊎ ((b : Bool) × ((verify same_text plain_compare attempt src
            (text "al")
            (text "pw")
            cached_al).0
          ≡ verified b)
        × ((b ≡ true) ↔ Valid same_text plain_compare src (text "al") (text "pw")))
verify-Valid_example =
    verify-Valid same_text plain_compare (λ s t e. e) 7 cached_al attempt src (text "al")
      (text "pw") al_Reachable src-Delimited

Reachable-Bounded_example : Bounded 7 cached_al
Reachable-Bounded_example = Reachable-Bounded same_text plain_compare 7 cached_al al_Reachable
