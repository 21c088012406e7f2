-- ===== src/Login/Callback/Token.antt =====
-- internal/authn/login.go: what an ID token that verifyIDToken accepts has.
use token_auth_proxy.Common.{
  ℕ, ◌≡◌, ◌≢◌, refl, sym, Bool, true, false, ◌||◌, Option, none, some, List, if◌then◌else◌, ltb,
  eqb, length, subst, eqb_iff,
}
use Prim.Native.Nat.{◌/◌, ◌-◌}
use token_auth_proxy.Text.{Text}
use token_auth_proxy.Config.{JwtSource}
use token_auth_proxy.Acl.{Claim}
use token_auth_proxy.Jwt.{Tokens, Parsed, claims, failed, verify}
use token_auth_proxy.Login.{max_cookie_value_len}
use token_auth_proxy.Login.Callback.{
  ReturnUrl, id_token, unusable, lifetime, read_claims, under_keys, verify_id_token,
}
use token_auth_proxy.Login.Callback.ReturnTo.{||-false}

module _ {Keys : Type 0} (tokens : Tokens Keys) (parse_url : Text → Option ReturnUrl)
    (endpoints : JwtSource → Bool) (expiration : List (Text × Claim) → Option ℕ) (now : ℕ)
    (src : JwtSource) where
  -- An ID token that is verified and lasts for `age` seconds.
  abbrev pub Verified : Text → List (Text × Claim) → ℕ → Type 0
  Verified raw cs age =
      (kf : Keys) × (exp : ℕ) × (tokens.keyfunc src ≡ some kf)
      × (verify tokens raw src kf ≡ claims cs)
      × (expiration cs ≡ some exp)
      × ((exp - now) / 1000000000 ≢ 0)
      × (age ≡ (exp - now) / 1000000000)

  usable_token :
      (b : Bool) (cs cs' : List (Text × Claim)) (age age' : ℕ)
      → (if b then unusable else id_token cs age) ≡ id_token cs' age'
      → (b ≡ false) × (cs ≡ cs') × (age ≡ age')
  usable_token false cs cs' age age' h = (refl, cc, cc)
  usable_token true cs cs' age age' h = absurd cc

  lifetime-Verified :
      (raw : Text) (kf : Keys) (given cs : List (Text × Claim)) (age : ℕ) (o : Option ℕ)
      → tokens.keyfunc src ≡ some kf
      → verify tokens raw src kf ≡ claims given
      → expiration given ≡ o
      → lifetime tokens parse_url endpoints expiration now raw given o ≡ id_token cs age
      → Verified raw cs age
  lifetime-Verified raw kf given cs age none k v x h = absurd cc
  lifetime-Verified raw kf given cs age (some exp) k v x h =
      let d = (exp - now) / 1000000000 in
      let (f, same, long) =
        usable_token (eqb d 0 || ltb max_cookie_value_len (length raw)) given cs d age h in
      let (z, _) = ||-false (eqb d 0) (ltb max_cookie_value_len (length raw)) f in
      (
        kf,
        exp,
        k,
        subst (λ x. verify tokens raw src kf ≡ claims x) same v,
        subst (λ g. expiration g ≡ some exp) same x,
        λ e. absurd (let t = (eqb_iff d 0).1 e in cc),
        sym long,
      )

  claims-Verified :
      (raw : Text) (kf : Keys) (cs : List (Text × Claim)) (age : ℕ) (o : Parsed)
      → tokens.keyfunc src ≡ some kf
      → verify tokens raw src kf ≡ o
      → read_claims tokens parse_url endpoints expiration now raw o ≡ id_token cs age
      → Verified raw cs age
  claims-Verified raw kf cs age (failed e) k v h = absurd cc
  claims-Verified raw kf cs age (claims given) k v h =
      lifetime-Verified raw kf given cs age (expiration given) k v refl h

  keys-Verified :
      (raw : Text) (cs : List (Text × Claim)) (age : ℕ) (o : Option Keys)
      → tokens.keyfunc src ≡ o
      → under_keys tokens parse_url endpoints expiration now src raw o ≡ id_token cs age
      → Verified raw cs age
  keys-Verified raw cs age none k h = absurd cc
  keys-Verified raw cs age (some kf) k h =
      claims-Verified raw kf cs age (verify tokens raw src kf) k refl h

  pub verify_id_token-Verified :
      (raw : Text) (cs : List (Text × Claim)) (age : ℕ)
      → verify_id_token tokens parse_url endpoints expiration now src raw ≡ id_token cs age
      → Verified raw cs age
  unfolding verify_id_token
  verify_id_token-Verified raw cs age h = keys-Verified raw cs age (tokens.keyfunc src) refl h
