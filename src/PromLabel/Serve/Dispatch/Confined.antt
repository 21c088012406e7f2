-- ===== src/PromLabel/Serve/Dispatch/Confined.antt =====
-- internal/promlabel/handler.go: no request reaches the backend that is not confined to what the caller
-- may see.
use token_auth_proxy.Common.{◌≡◌, ◌≢◌, refl, ◌⊎◌, true, some, List, [], ◌∷◌, ◌++◌, map, All}
use token_auth_proxy.Text.{Text}
use token_auth_proxy.PromLabel.Scope.{
  Endpoint, query, match, am_filter, silences, silence_id, Scope,
}
use token_auth_proxy.PromLabel.Silences.{owns}
use token_auth_proxy.PromLabel.Handler.{Values, values_of, Kind, of_query, of_match}
use token_auth_proxy.PromLabel.Handler.Enforced.{Safe, param}
use token_auth_proxy.PromLabel.Handler.Owned.{Theirs}
use token_auth_proxy.PromLabel.Serve.{HttpRequest, Silence, filter_param, values_or_none, drop_body}
use token_auth_proxy.PromLabel.Serve.Dispatch.{
  Libraries, matchers_of, selector_of, set_body, look_up, silence_id_of,
}

module _ {M : Type 0} (libs : Libraries M) where
  -- The values that a backend finds for a name in a query or a form.
  abbrev pub read : Values → Text → List Text
  read v name = values_or_none (values_of v name)

  -- What the text of a query or a form comes to.
  abbrev pub Reads : Text → Values → Type 0
  Reads t v = libs.parse_query t ≡ some v

  -- Query and selector endpoints: each value of the parameter is enforced, and there is one.
  pub record Queried (scope : Scope) (kind : Kind) (r' : HttpRequest) : Type 0 where
    pub enforced : List M
    pub of_scope : matchers_of libs scope.labels ≡ some enforced
    pub url : Values
    pub in_url : Reads r'.raw_query url
    pub body : Values
    pub in_body : Reads r'.content body
    pub safe_url :
        All (Safe (libs.enforce_all enforced) (selector_of libs enforced)) (read url (param kind))
    pub safe_body :
        All (Safe (libs.enforce_all enforced) (selector_of libs enforced)) (read body (param kind))
    pub some_value : (read url (param kind) ≢ []) ⊎ (read body (param kind) ≢ [])

  -- Alertmanager: the enforced matchers stand behind the caller's own filters.
  pub record Narrowed (scope : Scope) (r r' : HttpRequest) : Type 0 where
    pub enforced : List M
    pub of_scope : matchers_of libs scope.labels ≡ some enforced
    pub given : Values
    pub in_given : Reads r.raw_query given
    pub url : Values
    pub in_url : Reads r'.raw_query url
    pub filters : read url filter_param ≡ read given filter_param ++ map libs.string_of enforced
    pub no_body : r'.content ≡ []

  -- A silence is written that the caller owns, and that replaces none but the caller's.
  pub record Written (scope : Scope) (r r' : HttpRequest) : Type 0 where
    pub silence : Silence
    pub sent : libs.codec.encode_silence silence ≡ some r'.content
    pub no_query : r'.raw_query ≡ []
    pub owned : owns scope.labels silence.matchers ≡ true
    pub replaced :
        (silence.id ≡ []) ⊎ Theirs libs.is_silence_id (look_up libs scope r) scope.labels silence.id

  -- The silence of the path is deleted, which the caller owns.
  pub record Removed (scope : Scope) (r r' : HttpRequest) : Type 0 where
    pub theirs :
        Theirs libs.is_silence_id (look_up libs scope r) scope.labels (silence_id_of libs scope r)
    pub no_query : r'.raw_query ≡ []
    pub no_body : r'.content ≡ []

  abbrev pub Confined : Scope → Endpoint → HttpRequest → HttpRequest → Type 0
  Confined scope query r r' = Queried scope of_query r'
  Confined scope match r r' = Queried scope of_match r'
  Confined scope am_filter r r' = Narrowed scope r r'
  Confined scope silences r r' = Written scope r r'
  Confined scope silence_id r r' = Removed scope r r'
  Confined scope _ r r' = ⊥

  -- url.ParseQuery reads back what Values.Encode writes.
  abbrev pub ReadsBack : Type 0
  ReadsBack =
      (v : Values)
      → (v' : Values) × (Reads (libs.encode v) v') × ((name : Text) → read v' name ≡ read v name)

  -- The path and the method stay as they are.
  abbrev pub Same : HttpRequest → HttpRequest → Type 0
  Same r r' = (r'.path ≡ r.path) × (r'.method ≡ r.method)

  pub set_body-content :
      (r : HttpRequest) (body content_type : Text)
      → ((set_body libs r body content_type).content ≡ body)
        × ((set_body libs r body content_type).raw_query ≡ r.raw_query)
        × ((set_body libs r body content_type).path ≡ r.path)
        × ((set_body libs r body content_type).method ≡ r.method)
  unfolding set_body drop_body
  set_body-content r [] content_type = (refl, refl, refl, refl)
  set_body-content r (c ∷ body) content_type = (refl, refl, refl, refl)
