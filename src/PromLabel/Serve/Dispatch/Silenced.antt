-- ===== src/PromLabel/Serve/Dispatch/Silenced.antt =====
-- internal/promlabel/silences.go: the silences that are written and deleted are the caller's.
use token_auth_proxy.Common.{
  ◌≡◌, refl, sym, ap, ◌∙◌, inl, inr, Option, none, some, [], Bool-cases, ltb, length,
}
use token_auth_proxy.Text.{Text, text}
use token_auth_proxy.PromLabel.Scope.{Scope}
use token_auth_proxy.PromLabel.Handler.{
  SilenceAnswer, let_through, deleted, stopped, post_silence, delete_silence,
}
use token_auth_proxy.PromLabel.Handler.Owned.{post_silence-owned, delete_silence-owned}
use token_auth_proxy.PromLabel.Serve.{HttpRequest, Silence, passed_on, max_body_bytes, drop_body}
use token_auth_proxy.PromLabel.Serve.Dispatch.{
  Libraries, set_body, look_up, send_silence, send_encoded, post_decoded, serve_post, silence_id_of,
  send_delete, serve_delete,
}
use token_auth_proxy.PromLabel.Serve.Dispatch.Confined.{Written, Removed, Same, set_body-content}

module _ {M : Type 0} (libs : Libraries M) where
  module _ (scope : Scope) (r r' : HttpRequest) where
    send_encoded-sent :
        (o : Option Text)
        → send_encoded libs r o ≡ passed_on r'
        → (body : Text) × (o ≡ some body)
          × (r'.content ≡ body)
          × (r'.raw_query ≡ [])
          × Same libs r r'
    send_encoded-sent none h = absurd cc
    send_encoded-sent (some body) h =
        let sent = set_body libs (record r { raw_query = [] }) body (text "application/json") in
        let (content, raw, path, method) =
          set_body-content libs (record r { raw_query = [] }) body (text "application/json") in
        let is_sent : sent ≡ r' = cc in
        (
          body,
          refl,
          sym (ap (λ x. x.content) is_sent) ∙ content,
          sym (ap (λ x. x.raw_query) is_sent) ∙ raw,
          (sym (ap (λ x. x.path) is_sent) ∙ path, sym (ap (λ x. x.method) is_sent) ∙ method),
        )

    send_silence-Written :
        (s : Silence) (a : SilenceAnswer)
        → post_silence libs.is_silence_id (look_up libs scope r) scope.labels s.id s.matchers ≡ a
        → send_silence libs r s a ≡ passed_on r'
        → Written libs scope r r' × Same libs r r'
    send_silence-Written s (stopped status) e h = absurd cc
    send_silence-Written s deleted e h = absurd cc
    send_silence-Written s (let_through ms) e h =
        let (owned, replaced) =
          post_silence-owned libs.is_silence_id (look_up libs scope r) scope.labels s.id s.matchers
            ms e in
        let (body, encoded, content, raw, same) =
          send_encoded-sent (libs.codec.encode_silence (record s { matchers = ms })) h in
        (
          record {
            silence = record s { matchers = ms };
            sent = encoded ∙ ap some (sym content);
            no_query = raw;
            owned = owned;
            replaced = replaced;
          },
          same,
        )

    post_decoded-Written :
        (o : Option Silence)
        → post_decoded libs scope r o ≡ passed_on r'
        → Written libs scope r r' × Same libs r r'
    post_decoded-Written none h = absurd cc
    post_decoded-Written (some s) h =
        send_silence-Written s
          (post_silence libs.is_silence_id (look_up libs scope r) scope.labels s.id s.matchers) refl
          h

    pub serve_post-Written :
        serve_post libs scope r ≡ passed_on r' → Written libs scope r r' × Same libs r r'
    unfolding serve_post
    serve_post-Written h = elim (Bool-cases (ltb max_body_bytes (length r.content))) [
      | inl t ↦ absurd cc
      | inr f ↦ post_decoded-Written (libs.codec.decode_silence r.content) (rw f at h)
    ]

    send_delete-Removed :
        (a : SilenceAnswer)
        → delete_silence libs.is_silence_id
            (look_up libs scope r)
            scope.labels
            (silence_id_of libs scope r)
          ≡ a
        → send_delete libs r a ≡ passed_on r'
        → Removed libs scope r r' × Same libs r r'
    unfolding drop_body
    send_delete-Removed (stopped status) e h = absurd cc
    send_delete-Removed (let_through ms) e h = absurd cc
    send_delete-Removed deleted e h =
        let is_sent : drop_body (record r { raw_query = [] }) ≡ r' = cc in
        (
          record {
            theirs =
                delete_silence-owned libs.is_silence_id (look_up libs scope r) scope.labels
                  (silence_id_of libs scope r) e;
            no_query = sym (ap (λ x. x.raw_query) is_sent);
            no_body = sym (ap (λ x. x.content) is_sent);
          },
          (sym (ap (λ x. x.path) is_sent), sym (ap (λ x. x.method) is_sent)),
        )

    pub serve_delete-Removed :
        serve_delete libs scope r ≡ passed_on r' → Removed libs scope r r' × Same libs r r'
    unfolding serve_delete
    serve_delete-Removed h =
        send_delete-Removed
          (delete_silence libs.is_silence_id (look_up libs scope r) scope.labels
            (silence_id_of libs scope r))
          refl h
