-- ===== src/Oauth/Clients/Redirects.antt =====
-- Where a login may be sent back to.
use token_auth_proxy.Common.{
  ◌≡◌, refl, sym, ap, ◌∙◌, ◌⊎◌, inl, inr, Bool, true, false, not, ◌&&◌, ◌||◌, Option, none, some,
  List, [], ◌∷◌, any, keep, is_empty, &&_iff, Bool-cases, Option-cases, subst,
}
use token_auth_proxy.Text.{Text, text, ◌==◌, ==_iff}
use token_auth_proxy.Oauth.Clients.{
  Url, Uris, DynamicRegistration, Settings, Client, is_loopback_host, contains_uri,
  validate_redirect_uri, dynamic_url, allows_dynamic_redirect, same_loopback, registered_as,
  allows_redirect, static_client, some_client, dynamic_client, dynamic_if, lookup_client,
}

module _ (uris : Uris) where
  open uris use {parse}

  -- A redirect URI that a client which registered itself may have: an http URI of the loopback
  -- interface, or one that the operator lists.
  Dynamic : DynamicRegistration → Text → Type 0
  Dynamic d raw =
      ((u : Url) × (parse raw ≡ some u)
        × (u.scheme ≡ text "http")
        × (is_loopback_host u.hostname ≡ true))
      ⊎ (contains_uri d.redirect_uris raw ≡ true)

  allows_dynamic_redirect-Dynamic :
      (d : DynamicRegistration) (raw : Text)
      → allows_dynamic_redirect uris d raw ≡ true
      → Dynamic d raw
  unfolding allows_dynamic_redirect Dynamic
  allows_dynamic_redirect-Dynamic d raw h = elim (Option-cases (validate_redirect_uri uris raw)) [
    | inr (e, k) ↦ absurd (let c : false ≡ true = rw (k, allows_dynamic_redirect) at h in cc)
    | inl n ↦ url (parse raw) refl (rw (n, allows_dynamic_redirect) at h)
  ]
    where
      url :
          (o : Option Url)
          → parse raw ≡ o
          → dynamic_url uris d.redirect_uris raw o ≡ true
          → Dynamic d raw
      url none e k = absurd cc
      url (some u) e k = elim (Bool-cases (u.scheme == text "http")) [
        | inl t ↦ inl (u, e, (==_iff u.scheme (text "http")).0 t, rw (t, dynamic_url) at k)
        | inr f ↦ inr (rw (f, dynamic_url) at k)
      ]

  -- Some element of a filtered list that passes a test.
  any-keep :
      (test p : Text → Bool) (us : List Text)
      → any p (keep test us) ≡ true
      → (u : Text) × (test u ≡ true) × (p u ≡ true)
  any-keep test p [] h = absurd cc
  any-keep test p (u ∷ us) h = elim (Bool-cases (test u)) [
    | inr f ↦ any-keep test p us (rw (f, keep) at h)
    | inl t ↦ elim (Bool-cases (p u)) [
      | inl q ↦ (u, t, q)
      | inr g ↦
          any-keep test p us
            (let k : any p (u ∷ keep test us) ≡ true = rw (t, keep) at h in rw (g, any) at k)
    ]
  ]

  registered-Dynamic :
      (d : DynamicRegistration) (raw reg : Text) (got : Url)
      → parse raw ≡ some got
      → allows_dynamic_redirect uris d reg ≡ true
      → registered_as uris raw got reg ≡ true
      → Dynamic d raw
  registered-Dynamic d raw reg got e ok h = elim (Bool-cases (reg == raw)) [
    | inl t ↦ subst (Dynamic d) ((==_iff reg raw).0 t) (allows_dynamic_redirect-Dynamic d reg ok)
    | inr f ↦ unfold Dynamic in inl (loopback (parse reg) (rw (f, registered_as) at h))
  ]
    where
      loopback :
          (o : Option Url)
          → same_loopback uris got o ≡ true
          → (u : Url) × (parse raw ≡ some u)
            × (u.scheme ≡ text "http")
            × (is_loopback_host u.hostname ≡ true)
      loopback none k = absurd cc
      loopback (some want) k =
          let (own, same) =
            (&&_iff (want.scheme == text "http" && is_loopback_host want.hostname) _).0 k in
          let (http, loop) =
            (&&_iff (want.scheme == text "http") (is_loopback_host want.hostname)).0 own in
          let (scheme, rest) = (&&_iff (got.scheme == want.scheme) _).0 same in
          let (host, _) = (&&_iff (got.hostname == want.hostname) _).0 rest in
          let named : got.hostname ≡ want.hostname = (==_iff got.hostname want.hostname).0 host in
          (
            got,
            e,
            (==_iff got.scheme want.scheme).0 scheme ∙ (==_iff want.scheme (text "http")).0 http,
            ap is_loopback_host named ∙ loop,
          )

  -- A client that is not configured by the operator, and so registered itself, is sent back only to
  -- an http URI of the loopback interface or to a URI that the operator lists now, whatever its
  -- sealed registration holds, and only while the server and dynamic registration are on.
  lookup_client-Dynamic :
      (clients : List Client) (settings : Option Settings) (open_client : Text → Option (List Text))
      → (id raw : Text) (c : Client) → static_client uris clients id ≡ none
      → lookup_client uris clients settings open_client id ≡ some c
      → allows_redirect uris c raw ≡ true
      → (s : Settings) × (settings ≡ some s)
        × (s.dynamic_registration.enabled ≡ true)
        × Dynamic s.dynamic_registration raw
  unfolding lookup_client allows_redirect
  lookup_client-Dynamic clients settings open_client id raw c own found ok =
      on settings refl (rw (own, lookup_client) at found)
    where
      kept :
          (d : DynamicRegistration) (us : List Text)
          → some_client uris id us ≡ some c
          → c.redirect_uris ≡ us
      kept d [] k = absurd cc
      kept d (u ∷ us) k =
          let e : record { id = id; redirect_uris = u ∷ us } ≡ c = cc in
          sym (ap (λ (x : Client). x.redirect_uris) e)

      sent :
          (d : DynamicRegistration) (us : List Text)
          → c.redirect_uris ≡ keep (allows_dynamic_redirect uris d) us
          → Dynamic d raw
      sent d us k = elim (Option-cases (parse raw)) [
        | inl n ↦ absurd (let z : false ≡ true = rw (n, allows_redirect) at ok in cc)
        | inr (got, e) ↦ elim (Bool-cases (not (is_empty got.fragment) || got.has_user)) [
          | inl t ↦ absurd (let z : false ≡ true = rw (e, t, allows_redirect) at ok in cc)
          | inr f ↦
              let listed : any (registered_as uris raw got) c.redirect_uris ≡ true =
                rw (e, f, allows_redirect) at ok in
              let (reg, allowed, same) =
                any-keep (allows_dynamic_redirect uris d) (registered_as uris raw got) us
                  (subst (λ x. any (registered_as uris raw got) x ≡ true) k listed) in
              registered-Dynamic d raw reg got e allowed same
        ]
      ]

      dynamic :
          (d : DynamicRegistration) (o : Option (List Text))
          → dynamic_client uris d id o ≡ some c
          → Dynamic d raw
      dynamic d none k = absurd cc
      dynamic d (some us) k = sent d us (kept d (keep (allows_dynamic_redirect uris d) us) k)

      on :
          (o : Option Settings)
          → settings ≡ o
          → dynamic_if uris id (open_client id) o ≡ some c
          → (s : Settings) × (settings ≡ some s)
            × (s.dynamic_registration.enabled ≡ true)
            × Dynamic s.dynamic_registration raw
      on none e k = absurd cc
      on (some s) e k = elim (Bool-cases s.dynamic_registration.enabled) [
        | inl t ↦
            (s, e, t, dynamic s.dynamic_registration (open_client id) (rw (t, dynamic_if) at k))
        | inr f ↦ absurd (let z : none ≡ some c = rw (f, dynamic_if) at k in cc)
      ]

-- A sealed registration that opens, and whose URIs are all still allowed, is a client with them.
pub lookup_client-registered :
    (uris : Uris) (clients : List Client) (srv : Settings) (open_client : Text → Option (List Text))
    (id u : Text) (us : List Text)
    → static_client uris clients id ≡ none
    → srv.dynamic_registration.enabled ≡ true
    → open_client id ≡ some (u ∷ us)
    → keep (allows_dynamic_redirect uris srv.dynamic_registration) (u ∷ us) ≡ u ∷ us
    → lookup_client uris clients (some srv) open_client id
      ≡ some (record { id = id; redirect_uris = u ∷ us })
unfolding lookup_client
lookup_client-registered uris clients srv open_client id u us fresh on opened kept =
    rw (fresh, lookup_client) (rw (opened, on) (ap (some_client uris id) kept))
