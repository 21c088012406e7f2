-- ===== src/Saml/Session/Codecs.antt =====
-- internal/authn/saml_session.go: what is decoded of what was encoded.
use token_auth_proxy.Common.{
  ℕ, ◌+◌, ◌≤◌, ◌≡◌, refl, ap, ◌∙◌, Bool, true, false, not, ◌&&◌, ◌||◌, none, some, any, ltb, leb,
  if◌then◌else◌, arith,
}
use token_auth_proxy.Text.{◌==◌, ==_iff}
use token_auth_proxy.Saml.Session.{
  SamlClaims, Assertion, TrackedRequest, SessionCodec, Options, Hs256, options_of, session_alg,
  new_session, encode_session, marked_session, decode_session, tracked_claims, encode_tracked,
  marked_request, decode_tracked,
}

-- What the options ask for: the issuer, the audience, that the token is valid already and not expired.
abbrev pub is_accepted : Options → SamlClaims → Bool
is_accepted o c =
    any (λ m. m == session_alg) o.methods
    && (c.issuer == o.want_issuer
        && (any (λ a. a == o.want_audience) c.audience
            && (leb c.not_before o.at && ltb o.at c.expires_at)))

-- What the library documents: times are cut down, and a token that it signed parses as what was signed
-- where the options are met, and not at all where they are not.
pub record Lawful {T : Type 0} (lib : Hs256 T) : Type 0 where
  pub cut_down : (t : ℕ) → lib.whole t ≤ t
  pub parse_sign :
      (o : Options) (c : SamlClaims)
      → lib.parse o (lib.sign c) ≡ (if is_accepted o c then some c else none)

all_met :
    (m i a n e : Bool)
    → m ≡ true
    → i ≡ true
    → a ≡ true
    → n ≡ true
    → ((m || false) && (i && ((a || false) && (n && e)))) ≡ e
all_met m i a n e p q r s = ground arith

module _ {T : Type 0} (lib : Hs256 T) where
  no_session :
      (b : Bool) (c : SamlClaims)
      → c.saml_session ≡ false
      → marked_session lib (if b then some c else none) ≡ none
  no_session false c e = refl
  no_session true c e = ap (λ m. if not m then none else some c) e

  a_session :
      (b : Bool) (c : SamlClaims)
      → c.saml_session ≡ true
      → marked_session lib (if b then some c else none) ≡ (if b then some c else none)
  a_session false c e = refl
  a_session true c e = ap (λ m. if not m then none else some c) e

  no_tracked :
      (b : Bool) (c : SamlClaims)
      → c.saml_authn_request ≡ false
      → marked_request lib (if b then some c else none) ≡ none
  no_tracked false c e = refl
  no_tracked true c e =
      ap (λ m. if not m then none else some (record c.request { index = c.subject })) e

module _ {T : Type 0} (lib : Hs256 T) (lawful : Lawful lib) where
  session_accepted :
      (c : SessionCodec) (now t : ℕ) (a : Assertion)
      → now ≤ t
      → is_accepted (options_of c t) (new_session lib c now a) ≡ ltb t (lib.whole (now + c.max_age))
  unfolding new_session
  session_accepted c now t a h =
      all_met (session_alg == session_alg) (c.issuer == c.issuer) (c.audience == c.audience)
        (leb (lib.whole now) t) _ ((==_iff session_alg session_alg).1 refl)
        ((==_iff c.issuer c.issuer).1 refl) ((==_iff c.audience c.audience).1 refl)
        (let cut = lawful.cut_down now in ground arith)

  marked :
      (c : SessionCodec) (now : ℕ) (a : Assertion) → (new_session lib c now a).saml_session ≡ true
  unfolding new_session
  marked c now a = refl

  unmarked :
      (c : SessionCodec) (now : ℕ) (a : Assertion)
      → (new_session lib c now a).saml_authn_request ≡ false
  unfolding new_session
  unmarked c now a = refl

  -- A session is decoded as it was encoded until it expires, and not from then on.
  pub decode_session-encode_session :
      (c : SessionCodec) (now t : ℕ) (a : Assertion)
      → now ≤ t
      → decode_session lib c t (encode_session lib (new_session lib c now a))
        ≡ (if ltb t (lib.whole (now + c.max_age)) then some (new_session lib c now a) else none)
  unfolding decode_session encode_session
  decode_session-encode_session c now t a h =
      let s = new_session lib c now a in
      ap (marked_session lib) (lawful.parse_sign (options_of c t) s)
      ∙ (a_session lib (is_accepted (options_of c t) s) s (marked c now a)
          ∙ ap (λ b. if b then some s else none) (session_accepted c now t a h))

  -- A token that tracks a login is never taken for a session, and a session never for such a token,
  -- whatever the settings of the codecs and the times.
  pub codecs_apart :
      (c d : SessionCodec) (now t : ℕ) (a : Assertion) (r : TrackedRequest)
      → (decode_session lib c t (encode_tracked lib d now r) ≡ none)
        × (decode_tracked lib c t (encode_session lib (new_session lib d now a)) ≡ none)
  unfolding decode_session encode_session decode_tracked encode_tracked
  codecs_apart c d now t a r =
      let tracked = tracked_claims lib d now r in
      let s = new_session lib d now a in
      (
        ap (marked_session lib) (lawful.parse_sign (options_of c t) tracked)
            ∙ no_session lib (is_accepted (options_of c t) tracked) tracked refl,
        ap (marked_request lib) (lawful.parse_sign (options_of c t) s)
            ∙ no_tracked lib (is_accepted (options_of c t) s) s (unmarked d now a),
      )
