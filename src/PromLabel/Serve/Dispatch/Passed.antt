-- ===== src/PromLabel/Serve/Dispatch/Passed.antt =====
-- internal/promlabel/handler.go: the requests that ServeHTTP passes on are confined.
use token_auth_proxy.Common.{
  ◌≡◌, refl, ◌⊎◌, inl, inr, Bool, true, false, Option, none, some, if◌then◌else◌,
}
use token_auth_proxy.Text.{text, ◌==◌}
use token_auth_proxy.PromLabel.Scope.{
  Endpoint, none_enforced, query, match, rules, alerts, am_filter, silences, silence_id, Scope,
}
use token_auth_proxy.PromLabel.Handler.{of_query, of_match}
use token_auth_proxy.PromLabel.Serve.{HttpRequest, passed_on, filtered}
use token_auth_proxy.PromLabel.Serve.Dispatch.{Libraries, serve_post, at_endpoint, serve_http}
use token_auth_proxy.PromLabel.Serve.Dispatch.Confined.{Written, Confined, ReadsBack, Same}
use token_auth_proxy.PromLabel.Serve.Dispatch.Queries.{
  rewrite_request-Queried, serve_am_filter-Narrowed,
}
use token_auth_proxy.PromLabel.Serve.Dispatch.Silenced.{serve_post-Written, serve_delete-Removed}
use token_auth_proxy.PromLabel.Serve.{filter_silences}

module _ {M : Type 0} (libs : Libraries M) where
  module _ (back : ReadsBack libs) (scope : Scope) (r r' : HttpRequest) where
    at_silences-Written :
        (b : Bool)
        → (if b then serve_post libs scope r else filtered filter_silences scope.labels r)
          ≡ passed_on r'
        → Written libs scope r r' × Same libs r r'
    unfolding filtered
    at_silences-Written true h = serve_post-Written libs scope r r' h
    at_silences-Written false h = absurd cc

    at_endpoint-Confined :
        (e : Endpoint)
        → at_endpoint libs e scope r ≡ passed_on r'
        → Confined libs scope e r r' × Same libs r r'
    unfolding filtered
    at_endpoint-Confined query h = rewrite_request-Queried libs back scope of_query r r' h
    at_endpoint-Confined match h = rewrite_request-Queried libs back scope of_match r r' h
    at_endpoint-Confined rules h = absurd cc
    at_endpoint-Confined alerts h = absurd cc
    at_endpoint-Confined am_filter h = serve_am_filter-Narrowed libs back scope r r' h
    at_endpoint-Confined silences h = at_silences-Written (r.method == text "POST") h
    at_endpoint-Confined silence_id h = serve_delete-Removed libs scope r r' h
    at_endpoint-Confined none_enforced h = absurd cc

    under_verdict :
        (b : Bool)
        → scope.bypass ≡ b
        → (if b then passed_on r else at_endpoint libs scope.endpoint scope r) ≡ passed_on r'
        → ((scope.bypass ≡ true) × (r' ≡ r))
          ⊎ ((scope.bypass ≡ false) × Confined libs scope scope.endpoint r r' × Same libs r r')
    under_verdict true e h = inl (e, cc)
    under_verdict false e h =
        let (confined, same) = at_endpoint-Confined scope.endpoint h in inr (e, confined, same)

  -- A request is passed on as it is only where enforcement is not configured and there is no verdict,
  -- or where the verdict is to bypass it. Any other request that is passed on, without a filter for
  -- its response, keeps its path and method and is confined to the labels of its verdict as its
  -- endpoint asks, if url.ParseQuery reads back what Values.Encode writes.
  pub serve_http-Confined :
      (back : ReadsBack libs) (configured : Bool) (verdict : Option Scope) (r r' : HttpRequest)
      → serve_http libs configured verdict r ≡ passed_on r'
      → ((verdict ≡ none) × (configured ≡ false) × (r' ≡ r))
        ⊎ ((scope : Scope) × (verdict ≡ some scope)
            × (((scope.bypass ≡ true) × (r' ≡ r))
                ⊎ ((scope.bypass ≡ false)
                    × Confined libs scope scope.endpoint r r'
                    × Same libs r r')))
  unfolding serve_http
  serve_http-Confined back true none r r' h = absurd cc
  serve_http-Confined back false none r r' h = inl (refl, refl, cc)
  serve_http-Confined back configured (some scope) r r' h =
      inr (scope, refl, under_verdict back scope r r' scope.bypass refl h)
