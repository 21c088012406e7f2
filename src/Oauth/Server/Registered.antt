-- ===== src/Oauth/Server/Registered.antt =====
-- internal/oauth/register.go: a client that registers is found under the ID that it was given.
use token_auth_proxy.Common.{
  ◌≡◌, ◌≢◌, ◌≤◌, All, refl, sym, ap, ◌∙◌, inl, inr, Bool, true, false, not, ◌||◌, Option, none,
  some, List, [], ◌∷◌, all, keep, is_empty, ltb, length, Bool-cases, if◌then◌else◌, subst,
  before-none, fail_if-none, arith,
}
use token_auth_proxy.Text.{Text, text, ◌==◌}
use token_auth_proxy.Oauth.Seal.{seal, open_token, kind_client}
use token_auth_proxy.Oauth.Seal.Opened.{Authentic, open_token-seal}
use token_auth_proxy.Oauth.Clients.{
  DynamicRegistration, Settings, Uris, allows_dynamic_redirect, static_client, lookup_client,
}
use token_auth_proxy.Oauth.Clients.Redirects.{lookup_client-registered}
use token_auth_proxy.Oauth.Tokens.{Storage}
use token_auth_proxy.Oauth.Server.{
  RegistrationRequest, RegistrationError, registered, bad_body, registration_off,
  register_preflight, method_not_allowed, uri_ok, check_registration, register_checked,
  register_parsed, register_under, serve_register,
}

keep-All : (q : Text → Bool) (us : List Text) → All (λ u. q u ≡ true) us → keep q us ≡ us
keep-All q [] h = refl
keep-All q (u ∷ us) (t, h) = rw t (ap (λ x. u ∷ x) (keep-All q us h))

-- A redirect URI that a registration lists.
abbrev Permitted : Uris → DynamicRegistration → Text → Type 0
Permitted uris d u = (length u ≤ 512) × (allows_dynamic_redirect uris d u ≡ true)

all-Permitted :
    (uris : Uris) (d : DynamicRegistration) (us : List Text)
    → all (uri_ok uris d) us ≡ true
    → All (Permitted uris d) us
all-Permitted uris d [] h = tt
all-Permitted uris d (u ∷ us) h = elim (Bool-cases (uri_ok uris d u)) [
  | inl t ↦ (both t, all-Permitted uris d us (rw t at h))
  | inr f ↦ absurd (let k : false ≡ true = rw f at h in cc)
]
  where
    both : uri_ok uris d u ≡ true → Permitted uris d u
    both t = (ground arith, ground arith)

module _ (s : Storage) where
  open s use {base64, registrations, uris, sealer, clients, settings}

  -- What a registration went through.
  pub record Accepted (body nonce : Text) (parse : Text → Option RegistrationRequest) (id : Text)
      (us : List Text) : Type 0 where
    pub srv : Settings
    pub on : settings ≡ some srv
    pub enabled : srv.dynamic_registration.enabled ≡ true
    pub request : RegistrationRequest
    pub parsed : parse body ≡ some request
    pub checked : check_registration uris srv.dynamic_registration request ≡ none
    pub listed : us ≡ request.redirect_uris
    pub at_least_one : us ≢ []
    pub at_most_ten : length us ≤ 10
    pub permitted : All (Permitted uris srv.dynamic_registration) us
    pub sealed : id ≡ seal base64 registrations sealer nonce kind_client us

  -- The first two checks of a registration.
  checked-uris :
      (d : DynamicRegistration) (r : RegistrationRequest)
      → check_registration uris d r ≡ none
      → ((is_empty r.redirect_uris || ltb 10 (length r.redirect_uris)) ≡ false)
        × (all (uri_ok uris d) r.redirect_uris ≡ true)
  unfolding check_registration
  checked-uris d r h =
      let (a, more) = before-none _ _ h in
      let (b, _) = before-none _ _ more in
      (fail_if-none _ _ a, let e = fail_if-none _ _ b in ground arith)

  one_to_ten :
      (vs : List Text) → (is_empty vs || ltb 10 (length vs)) ≡ false → (vs ≢ []) × (length vs ≤ 10)
  one_to_ten [] h = absurd cc
  one_to_ten (v ∷ vs) h = (λ e. cc, ground arith)

  module _ (body nonce : Text) (parse : Text → Option RegistrationRequest) (id : Text)
      (us : List Text) where
    register_checked-Accepted :
        (srv : Settings) (r : RegistrationRequest) (o : Option RegistrationError)
        → settings ≡ some srv
        → srv.dynamic_registration.enabled ≡ true
        → parse body ≡ some r
        → check_registration uris srv.dynamic_registration r ≡ o
        → register_checked s nonce r o ≡ registered id us
        → Accepted body nonce parse id us
    register_checked-Accepted srv r (some e) a b c k h = absurd cc
    register_checked-Accepted srv r none a b c k h =
        let list : r.redirect_uris ≡ us = cc in
        let (count, each) = checked-uris srv.dynamic_registration r k in
        let (some_uri, ten) = one_to_ten r.redirect_uris count in
        record {
          srv = srv;
          on = a;
          enabled = b;
          request = r;
          parsed = c;
          checked = k;
          listed = sym list;
          at_least_one = subst (λ l. l ≢ []) list some_uri;
          at_most_ten = subst (λ (l : List Text). length l ≤ 10) list ten;
          permitted =
              subst (All (Permitted uris srv.dynamic_registration)) list
                (all-Permitted uris srv.dynamic_registration r.redirect_uris each);
          sealed =
              let e : seal base64 registrations sealer nonce kind_client r.redirect_uris ≡ id =
                cc in
              sym e ∙ ap (seal base64 registrations sealer nonce kind_client) list;
        }

    register_parsed-Accepted :
        (srv : Settings) (o : Option RegistrationRequest)
        → settings ≡ some srv
        → srv.dynamic_registration.enabled ≡ true
        → parse body ≡ o
        → register_parsed s srv.dynamic_registration nonce o ≡ registered id us
        → Accepted body nonce parse id us
    register_parsed-Accepted srv none a b c h = absurd cc
    register_parsed-Accepted srv (some r) a b c h =
        register_checked-Accepted srv r (check_registration uris srv.dynamic_registration r) a b c
          refl h

    register_under-Accepted :
        (method : Text) (o : Option Settings)
        → settings ≡ o
        → register_under s method body nonce parse o ≡ registered id us
        → Accepted body nonce parse id us
    register_under-Accepted method none a h = absurd cc
    register_under-Accepted method (some srv) a h =
        switched srv.dynamic_registration.enabled (method == text "OPTIONS") (method == text "POST")
          (ltb 16384 (length body)) refl h
      where
        switched :
            (on preflight post large : Bool)
            → srv.dynamic_registration.enabled ≡ on
            → (if not on
                then registration_off
                else if preflight
                then register_preflight
                else if not post
                then method_not_allowed
                else if large
                then bad_body
                else register_parsed s srv.dynamic_registration nonce (parse body))
              ≡ registered id us
            → Accepted body nonce parse id us
        switched false p q l e k = absurd cc
        switched true true q l e k = absurd cc
        switched true false false l e k = absurd cc
        switched true false true true e k = absurd cc
        switched true false true false e k = register_parsed-Accepted srv (parse body) a e refl k

    lookup-kept :
        (later : Settings) (vs : List Text)
        → vs ≢ []
        → static_client uris clients id ≡ none
        → later.dynamic_registration.enabled ≡ true
        → open_token base64 registrations sealer kind_client id ≡ some vs
        → All (λ u. allows_dynamic_redirect uris later.dynamic_registration u ≡ true) vs
        → lookup_client uris clients
            (some later)
            (open_token base64 registrations sealer kind_client)
            id
          ≡ some (record { id = id; redirect_uris = vs })
    lookup-kept later [] nonempty fresh on opened allowed = absurd (nonempty refl)
    lookup-kept later (v ∷ vs) nonempty fresh on opened allowed =
        lookup_client-registered uris clients later
          (open_token base64 registrations sealer kind_client) id v vs fresh on opened
          (keep-All (allows_dynamic_redirect uris later.dynamic_registration) (v ∷ vs) allowed)

    -- A client that registers gets an ID only while registration is on and only for redirect URIs,
    -- of which there is at least one and at most ten, that have at most 512 bytes each and that the
    -- settings permit. Unless a configured client has that very ID, the same keys find under it a
    -- client with exactly those URIs for any settings, the same or later ones, in which registration
    -- is on and each of the URIs is permitted; if the first key is authentic and the encodings give
    -- back what they are given.
    pub serve_register-found :
        (method : Text) (later : Settings)
        → serve_register s method body nonce parse ≡ registered id us
        → Authentic sealer.first
        → length nonce ≡ sealer.first.nonce_size
        → ((raw : Text) → base64.decode (base64.encode raw) ≡ some raw)
        → ((l : List Text) → registrations.unmarshal (registrations.marshal l) ≡ some l)
        → static_client uris clients id ≡ none
        → later.dynamic_registration.enabled ≡ true
        → All (λ u. allows_dynamic_redirect uris later.dynamic_registration u ≡ true) us
        → Accepted body nonce parse id us
          × (lookup_client uris clients
                (some later)
                (open_token base64 registrations sealer kind_client)
                id
              ≡ some (record { id = id; redirect_uris = us }))
    unfolding serve_register
    serve_register-found method later h auth size round same fresh on allowed =
        let a = register_under-Accepted method settings refl h in
        let opened : open_token base64 registrations sealer kind_client id ≡ some us =
          ap (open_token base64 registrations sealer kind_client) a.sealed
          ∙ open_token-seal base64 registrations sealer sealer [] sealer.others nonce kind_client us
              auth size refl tt round (same us) in
        (a, lookup-kept later us a.at_least_one fresh on opened allowed)
