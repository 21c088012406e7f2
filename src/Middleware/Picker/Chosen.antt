-- ===== src/Middleware/Picker/Chosen.antt =====
-- internal/authn/login_picker.go: the method that a browser picked is the one that it is sent to later.
use token_auth_proxy.Common.{ℕ, ◌≡◌, true, false, none, some, List, [], ◌∷◌, In}
use token_auth_proxy.Text.{Text, text}
use token_auth_proxy.Config.{JwtSource}
use token_auth_proxy.Jwt.{login_unavailable}
use token_auth_proxy.Login.{LoginMethod, by_jwt, by_saml, by_basic, set}
use token_auth_proxy.Login.Callback.{
  Started, begun, not_begun, not_available, login_failed, no_random, login_state_cookie_name,
  login_state_ttl, sanitize_return_to,
}
use token_auth_proxy.Middleware.{Config, Services}
use token_auth_proxy.Middleware.Picker.{
  PickerCalls, RouteAnswer, saml_unavailable, back_to, saml_started, jwt_started, Routed,
}

abbrev first : Text → ℕ
first [] = 0
first (c ∷ t) = c

module _ {Keys : Type 0} (services : Services Keys) (calls : PickerCalls) where
  -- A login with the endpoints and the random values that it takes. The state cookie holds the
  -- reference, which Start sanitizes once more.
  pub record Asked (source return_to : Text) (s : Started) : Type 0 where
    pub src : JwtSource
    pub named : src.name ≡ source
    pub found : calls.endpoints src ≡ true
    pub state : Text
    pub nonce : Text
    pub drawn : calls.random ≡ some (state, nonce)
    pub asks : (s.asked_state ≡ state) × (s.asked_nonce ≡ nonce)
    pub cookie_is :
        s.cookie
        ≡ set
            (login_state_cookie_name state)
            (calls.encode_state (record {
              source = source;
              state = state;
              nonce = nonce;
              verifier = calls.verifier;
              return_to = sanitize_return_to calls.parse_url return_to;
            }))
            login_state_ttl

  -- What a route may answer whose method is recorded, for the reference that it was asked for.
  pub data Leads (return_to : Text) : LoginMethod → RouteAnswer → Type 0 where
    signed_in_basic : Leads return_to by_basic (back_to return_to)
    had_session : services.saml_available ≡ true → Leads return_to by_saml (back_to return_to)
    asked_saml :
        (u : Text)
        → services.saml_available ≡ true
        → calls.parse_request_uri return_to ≡ some u
        → Leads return_to by_saml (saml_started u)
    asked_saml_for_root :
        services.saml_available ≡ true
        → calls.parse_request_uri return_to ≡ none
        → Leads return_to by_saml (saml_started (text "/"))
    no_saml : services.saml_available ≡ false → Leads return_to by_saml saml_unavailable
    asked_provider :
        (source : Text) (s : Started)
        → Asked source return_to s
        → Leads return_to (by_jwt source) (jwt_started (begun s))
    no_endpoints :
        (source : Text) (src : JwtSource)
        → src.name ≡ source
        → calls.endpoints src ≡ false
        → Leads return_to
            (by_jwt source)
            (jwt_started (not_begun (not_available login_unavailable)))
    nothing_random :
        (source : Text)
        → calls.random ≡ none
        → Leads return_to (by_jwt source) (jwt_started (not_begun (login_failed no_random)))

  -- A method that is recorded is one of those configured.
  abbrev Fine : List LoginMethod → Text → Routed → Type 0
  Fine ms return_to q = (m : LoginMethod) → q.0.1 ≡ some m → In m ms × Leads return_to m q.0.0
