-- ===== src/Login/Redeem/Exchange.antt =====
-- internal/authn/login_refresh.go: doRefresh, what the provider's answer to a refresh token comes to. The
-- exchange itself and the verification of the ID token are parameters.
use token_auth_proxy.Common.{
  ℕ, ◌≡◌, ◌≢◌, refl, sym, ap, ◌∙◌, Bool, true, false, ◌||◌, List, [], ◌∷◌, is_empty, eqb,
  if◌then◌else◌,
}
use token_auth_proxy.Text.{Text}
use token_auth_proxy.Acl.{Claim}
use token_auth_proxy.Login.{Redeemed, redeemed, refresh_rejected, unreachable}
use token_auth_proxy.Login.Callback.{IdToken, keys_missing, unusable, id_token}

-- The ID token, empty where the response has none, and the refresh token; or the status of an error
-- response; or no response.
pub data TokenResponse : Type 0 where
  tokens_issued : Text → Text → TokenResponse
  refused_with : ℕ → TokenResponse
  no_response : TokenResponse

abbrev next_token : Text → Text → Text
next_token given issued = if is_empty issued then given else issued

abbrev refreshed_by : Text → Text → IdToken → Redeemed
refreshed_by raw next keys_missing = unreachable
refreshed_by raw next unusable = refresh_rejected
refreshed_by raw next (id_token cs max_age) = redeemed raw next max_age

module _ (verify : Text → IdToken) where
  abbrev judge_response : Text → TokenResponse → Redeemed
  judge_response given no_response = unreachable
  judge_response given (refused_with status) =
      if eqb status 400 || eqb status 401 then refresh_rejected else unreachable
  judge_response given (tokens_issued raw issued) =
      if is_empty raw
      then refresh_rejected
      else refreshed_by raw (next_token given issued) (verify raw)

  -- For whether the endpoints of the provider are known.
  unfoldable pub do_refresh : Bool → Text → TokenResponse → Redeemed
  do_refresh endpoints given response =
      if endpoints then judge_response given response else unreachable

  refreshed-verified :
      (raw next raw' next' : Text) (max_age : ℕ) (t : IdToken)
      → refreshed_by raw next t ≡ redeemed raw' next' max_age
      → (raw ≡ raw') × ((cs : List (Text × Claim)) × (t ≡ id_token cs max_age))
  refreshed-verified raw next raw' next' max_age keys_missing h = absurd cc
  refreshed-verified raw next raw' next' max_age unusable h = absurd cc
  refreshed-verified raw next raw' next' max_age (id_token cs age) h =
      let same : age ≡ max_age = cc in (cc, (cs, ap (id_token cs) same))

  response-verified :
      (given raw next : Text) (max_age : ℕ) (r : TokenResponse)
      → judge_response given r ≡ redeemed raw next max_age
      → (raw ≢ []) × ((cs : List (Text × Claim)) × (verify raw ≡ id_token cs max_age))
  response-verified given raw next max_age no_response h = absurd cc
  response-verified given raw next max_age (refused_with status) h =
      absurd (refused (eqb status 400 || eqb status 401) h)
    where
      refused :
          (b : Bool) → (if b then refresh_rejected else unreachable) ≢ redeemed raw next max_age
      refused true k = cc
      refused false k = cc
  response-verified given raw next max_age (tokens_issued [] issued) h = absurd cc
  response-verified given raw next max_age (tokens_issued (c ∷ t) issued) h =
      let (same, (cs, e)) =
        refreshed-verified (c ∷ t) (next_token given issued) raw next max_age (verify (c ∷ t)) h in
      (λ z. let k : c ∷ t ≡ [] = same ∙ z in cc, (cs, ap verify (sym same) ∙ e))

  -- A session is renewed only with an ID token that the provider issued and that was verified, for the
  -- age that the verification gave.
  do_refresh-verified :
      (endpoints : Bool) (given raw next : Text) (max_age : ℕ) (r : TokenResponse)
      → do_refresh endpoints given r ≡ redeemed raw next max_age
      → (endpoints ≡ true)
        × (raw ≢ [])
        × ((cs : List (Text × Claim)) × (verify raw ≡ id_token cs max_age))
  unfolding do_refresh
  do_refresh-verified false given raw next max_age r h = absurd cc
  do_refresh-verified true given raw next max_age r h =
      let (issued, verified) = response-verified given raw next max_age r h in
      (refl, issued, verified)
