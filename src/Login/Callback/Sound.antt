-- ===== src/Login/Callback/Sound.antt =====
-- internal/authn/login.go: what a completed login rests on.
use token_auth_proxy.Common.{
  ℕ, ◌≡◌, ◌≢◌, refl, sym, ap, Bool, true, false, not, ◌||◌, Option, none, some, List, [], ◌∷◌,
  is_empty, if◌then◌else◌, ltb, length, subst,
}
use Prim.Native.Nat.{◌/◌, ◌-◌}
use token_auth_proxy.Text.{Text, text, ◌==◌, ==_iff}
use token_auth_proxy.Config.{JwtSource, JwtLogin}
use token_auth_proxy.Acl.{Claim}
use token_auth_proxy.Jwt.{Carried, Tokens, Reason, login_unavailable, claims, verify}
use token_auth_proxy.Login.{SetCookie, clear, set_session}
use token_auth_proxy.Login.Callback.{
  ReturnUrl, sanitize_return_to, LoginState, login_state_cookie_name, login_state_key_len, Failure,
  IdToken, id_token, keys_missing, unusable, LoginOutcome, signed_in, login_failed, not_available,
  verify_id_token, nonce_of, accepted, exchanged, with_state, with_cookie, callback,
  malformed_cookie, state_mismatch, idp_error, missing_code, no_id_token, nonce_mismatch,
  missing_cookie, short_state,
}
use token_auth_proxy.Login.Callback.ReturnTo.{||-false, not-false}
use token_auth_proxy.Login.Callback.Token.{Verified, verify_id_token-Verified}

module _ {Keys : Type 0} (tokens : Tokens Keys) (parse_url : Text → Option ReturnUrl)
    (endpoints : JwtSource → Bool) (expiration : List (Text × Claim) → Option ℕ) (now : ℕ)
    (decode_state : Text → Option LoginState)
    (exchange : JwtSource → Text → Text → Option (Text × Text)) (src : JwtSource) (l : JwtLogin)
    (c : Carried) where
  -- What a session rests on: the state cookie that the state of the callback names, an exchange of the
  -- code with its verifier, and an ID token that is verified under the source's policy.
  pub record Completed (location : Text) (cookies : List SetCookie) : Type 0 where
    pub payload : Text
    pub st : LoginState
    pub raw : Text
    pub refresh : Text
    pub kf : Keys
    pub cs : List (Text × Claim)
    pub exp : ℕ
    pub held :
        tokens.read_cookie c.cookie_lines (login_state_cookie_name (c.query (text "state")))
        ≡ some payload
    pub decoded : decode_state payload ≡ some st
    pub of_source : st.source ≡ src.name
    pub of_state : c.query (text "state") ≡ st.state
    pub some_state : st.state ≢ []
    pub redeemed : exchange src (c.query (text "code")) st.verifier ≡ some (raw, refresh)
    pub keys : tokens.keyfunc src ≡ some kf
    pub verified : verify tokens raw src kf ≡ claims cs
    pub expires : expiration cs ≡ some exp
    pub lasts : (exp - now) / 1000000000 ≢ 0
    pub of_nonce : nonce_of tokens parse_url endpoints expiration now cs ≡ st.nonce
    pub goes_to : location ≡ sanitize_return_to parse_url st.return_to
    pub session : cookies ≡ set_session l raw ((exp - now) / 1000000000) refresh

  -- A guard that was passed.
  past :
      (b : Bool) (why : Failure) (o : LoginOutcome) (location : Text) (cookies : List SetCookie)
      → (if b then login_failed why else o) ≡ signed_in location cookies
      → (b ≡ false) × (o ≡ signed_in location cookies)
  past false why o location cookies h = (refl, h)
  past true why o location cookies h = absurd cc

  same_text : (s t : Text) → not (s == t) ≡ false → s ≡ t
  same_text s t h = (==_iff s t).0 (not-false (s == t) h)

  not_empty : (s : Text) → is_empty s ≡ false → s ≢ []
  not_empty [] h = absurd cc
  not_empty (x ∷ s) h = λ e. cc

  -- The session that is set from an ID token, once the code was exchanged.
  abbrev Session : LoginState → Text → Text → Text → List SetCookie → Type 0
  Session st raw refresh location cookies =
      (cs : List (Text × Claim)) × (age : ℕ) × Verified tokens parse_url endpoints expiration now
        src raw cs age
      × (nonce_of tokens parse_url endpoints expiration now cs ≡ st.nonce)
      × (location ≡ sanitize_return_to parse_url st.return_to)
      × (cookies ≡ set_session l raw age refresh)

  arrived : (a b : Text) (x y : List SetCookie) → signed_in a x ≡ signed_in b y → (b ≡ a) × (y ≡ x)
  arrived a b x y h = (cc, cc)

  accepted-Session :
      (st : LoginState) (raw refresh : Text) (location : Text) (cookies : List SetCookie)
      (t : IdToken)
      → verify_id_token tokens parse_url endpoints expiration now src raw ≡ t
      → accepted tokens parse_url endpoints expiration now decode_state exchange src l c st raw
          refresh t
        ≡ signed_in location cookies
      → Session st raw refresh location cookies
  accepted-Session st raw refresh location cookies keys_missing v h = absurd cc
  accepted-Session st raw refresh location cookies unusable v h = absurd cc
  accepted-Session st raw refresh location cookies (id_token cs age) v h =
      let n = nonce_of tokens parse_url endpoints expiration now cs in
      let (e, k) = past (not (n == st.nonce)) nonce_mismatch _ location cookies h in
      let (to, session) = arrived _ location _ cookies k in
      (
        cs,
        age,
        verify_id_token-Verified tokens parse_url endpoints expiration now src raw cs age v,
        same_text n st.nonce e,
        to,
        session,
      )

  exchanged-Session :
      (st : LoginState) (location : Text) (cookies : List SetCookie) (o : Option (Text × Text))
      → exchanged tokens parse_url endpoints expiration now decode_state exchange src l c st o
        ≡ signed_in location cookies
      → (raw : Text) × (refresh : Text) × (o ≡ some (raw, refresh))
        × Session st raw refresh location cookies
  exchanged-Session st location cookies none h = absurd cc
  exchanged-Session st location cookies (some (raw, refresh)) h =
      let (_, k) = past (is_empty raw) no_id_token _ location cookies h in
      (raw, refresh, refl, accepted-Session st raw refresh location cookies _ refl k)

  -- The last guard, whose answer is not that of a failed login.
  reached :
      (b : Bool) (why : Reason) (o : LoginOutcome) (location : Text) (cookies : List SetCookie)
      → (if not b then not_available why else o) ≡ signed_in location cookies
      → o ≡ signed_in location cookies
  reached true why o location cookies h = h
  reached false why o location cookies h = absurd cc

  with_state-Completed :
      (v location : Text) (cookies : List SetCookie) (o : Option LoginState)
      → tokens.read_cookie c.cookie_lines (login_state_cookie_name (c.query (text "state")))
        ≡ some v
      → decode_state v ≡ o
      → with_state tokens parse_url endpoints expiration now decode_state exchange src l c o
        ≡ signed_in location cookies
      → Completed location cookies
  with_state-Completed v location cookies none k d h = absurd cc
  with_state-Completed v location cookies (some st) k d h =
      let state = c.query (text "state") in
      let (e1, h1) = past (not (st.source == src.name)) malformed_cookie _ location cookies h in
      let (e2, h2) =
        past (not (state == st.state) || is_empty st.state) state_mismatch _ location cookies h1 in
      let (e3, h3) =
        past (not (is_empty (c.query (text "error")))) idp_error _ location cookies h2 in
      let (e4, h4) = past (is_empty (c.query (text "code"))) missing_code _ location cookies h3 in
      let h5 = reached (endpoints src) login_unavailable _ location cookies h4 in
      let (raw, refresh, x, (cs, age, (kf, exp, ks, vs, ex, lasts, long), n, to, session)) =
        exchanged-Session st location cookies _ h5 in
      let (same, some_state) = ||-false (not (state == st.state)) (is_empty st.state) e2 in
      record {
        payload = v;
        st = st;
        raw = raw;
        refresh = refresh;
        kf = kf;
        cs = cs;
        exp = exp;
        held = k;
        decoded = d;
        of_source = same_text st.source src.name e1;
        of_state = same_text state st.state same;
        some_state = not_empty st.state some_state;
        redeemed = x;
        keys = ks;
        verified = vs;
        expires = ex;
        lasts = lasts;
        of_nonce = n;
        goes_to = to;
        session = subst (λ a. cookies ≡ set_session l raw a refresh) long session;
      }

  with_cookie-Completed :
      (location : Text) (cookies out : List SetCookie) (o : Option Text)
      → tokens.read_cookie c.cookie_lines (login_state_cookie_name (c.query (text "state"))) ≡ o
      → with_cookie tokens parse_url endpoints expiration now decode_state exchange src l c o
        ≡ (signed_in location cookies, out)
      → Completed location cookies
        × (out ≡ clear (login_state_cookie_name (c.query (text "state"))) ∷ [])
  with_cookie-Completed location cookies out none k h =
      absurd
        (let e : login_failed missing_cookie ≡ signed_in location cookies = ap (λ p. p.0) h in cc)
  with_cookie-Completed location cookies out (some v) k h = (
    with_state-Completed v location cookies (decode_state v) k refl (ap (λ p. p.0) h),
    sym (ap (λ p. p.1) h),
  )

  -- When the callback of a login signs the browser in, the state parameter has the length of a key at
  -- least, the state cookie named by it was sent, is cleared, was made for this source and holds the
  -- same state, which is not empty; the code was exchanged with the verifier of that cookie for an ID
  -- token that the source's policy accepts under its keys, that has not expired and has the nonce of
  -- the cookie; the session cookies are set from that token for the seconds it has left, and the
  -- browser goes to the sanitized reference of the cookie.
  pub callback-Completed :
      (location : Text) (cookies out : List SetCookie)
      → callback tokens parse_url endpoints expiration now decode_state exchange src l c
        ≡ (signed_in location cookies, out)
      → (ltb (length (c.query (text "state"))) login_state_key_len ≡ false)
        × Completed location cookies
        × (out ≡ clear (login_state_cookie_name (c.query (text "state"))) ∷ [])
  unfolding callback
  callback-Completed location cookies out h =
      let (long, k) = long_state _ _ h in
      let (done, cleared) = with_cookie-Completed location cookies out _ refl k in
      (long, done, cleared)
    where
      long_state :
          (b : Bool) (o : LoginOutcome × List SetCookie)
          → (if b then (login_failed short_state, []) else o) ≡ (signed_in location cookies, out)
          → (b ≡ false) × (o ≡ (signed_in location cookies, out))
      long_state false o h = (refl, h)
      long_state true o h =
          absurd
            (let e : login_failed short_state ≡ signed_in location cookies = ap (λ p. p.0) h in cc)
