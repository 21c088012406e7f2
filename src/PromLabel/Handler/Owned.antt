-- ===== src/PromLabel/Handler/Owned.antt =====
-- internal/promlabel/silences.go: the silence that a caller writes, and the one it replaces or
-- deletes, belong to the caller.
use token_auth_proxy.Common.{
  ◌≡◌, ◌≢◌, refl, sym, ap, ◌⊎◌, inl, inr, Bool, true, false, not, Option, none, some, List, [], ◌∷◌,
  is_empty, if◌then◌else◌, Bool-cases,
}
use token_auth_proxy.Text.{Text}
use token_auth_proxy.PromLabel.Scope.{Label}
use token_auth_proxy.PromLabel.Silences.{
  Matcher, owns, Scoped, scoped, refused, scope_matchers, only_enforced, repeated, several_values,
}
use token_auth_proxy.PromLabel.Silences.Owned.{scope_matchers-owned}
use token_auth_proxy.PromLabel.Handler.{
  Looked, found, missing, unreadable, SilenceAnswer, let_through, stopped, deleted, judge_owner,
  check_owner, status_of, unless, post_silence, delete_silence, Status, bad_request,
}

module _ (is_silence_id : Text → Bool) (look_up : Text → Looked) where
  -- The ID has the form of one, and the target has a silence of that ID that the labels own.
  abbrev pub Theirs : List Label → Text → Type 0
  Theirs ls id =
      (is_silence_id id ≡ true)
      × ((ms : List Matcher) × (look_up id ≡ found ms) × (owns ls ms ≡ true))

  judge_owner-found :
      (ls : List Label) (l : Looked)
      → judge_owner is_silence_id look_up ls l ≡ none
      → (ms : List Matcher) × (l ≡ found ms) × (owns ls ms ≡ true)
  judge_owner-found ls missing h = absurd cc
  judge_owner-found ls unreadable h = absurd cc
  judge_owner-found ls (found ms) h = elim (Bool-cases (owns ls ms)) [
    | inl t ↦ (ms, refl, t)
    | inr f ↦ absurd cc
  ]

  past :
      (b : Bool) (e : Status) (judge : Option Status)
      → (if not b then some e else judge) ≡ none
      → (b ≡ true) × (judge ≡ none)
  past true e judge h = (refl, h)
  past false e judge h = absurd cc

  check_owner-Theirs :
      (ls : List Label) (id : Text) → check_owner is_silence_id look_up ls id ≡ none → Theirs ls id
  unfolding check_owner
  check_owner-Theirs ls id h =
      let (form, owner) =
        past (is_silence_id id) bad_request (judge_owner is_silence_id look_up ls (look_up id)) h in
      (form, judge_owner-found ls (look_up id) owner)

  -- Only an answer that lets something through has passed the check of the owner.
  unless-passed :
      (o : Option Status) (a b : SilenceAnswer)
      → ((s : Status) → b ≢ stopped s)
      → unless is_silence_id look_up o a ≡ b
      → (o ≡ none) × (a ≡ b)
  unless-passed none a b n h = (refl, h)
  unless-passed (some s) a b n h = absurd (n s (sym h))

  status_of-scoped :
      (r : Scoped) (out : List Matcher)
      → status_of is_silence_id look_up r ≡ let_through out
      → r ≡ scoped out
  status_of-scoped (scoped ms) out h = let e : ms ≡ out = cc in ap scoped e
  status_of-scoped (refused (token_auth_proxy.PromLabel.Silences.forbidden name)) out h = absurd cc
  status_of-scoped (refused only_enforced) out h = absurd cc
  status_of-scoped (refused (repeated name)) out h = absurd cc
  status_of-scoped (refused (several_values name)) out h = absurd cc

  named_id :
      (ls : List Label) (id : Text)
      → (if is_empty id then none else check_owner is_silence_id look_up ls id) ≡ none
      → (id ≡ []) ⊎ Theirs ls id
  named_id ls [] h = inl refl
  named_id ls (c ∷ id) h = inr (check_owner-Theirs ls (c ∷ id) h)

  -- When a silence is let through to the target, the matchers it has are owned by the caller; and when
  -- it names an ID, the ID has the form of one, and the silence that the target has of that ID, which
  -- is the one to be replaced, is owned by the caller as well.
  pub post_silence-owned :
      (ls : List Label) (id : Text) (ms out : List Matcher)
      → post_silence is_silence_id look_up ls id ms ≡ let_through out
      → (owns ls out ≡ true) × ((id ≡ []) ⊎ Theirs ls id)
  unfolding post_silence
  post_silence-owned ls id ms out h =
      let (n, e) =
        unless-passed (if is_empty id then none else check_owner is_silence_id look_up ls id)
          (status_of is_silence_id look_up (scope_matchers ls ms)) (let_through out) (λ s z. cc)
          h in
      let (_, _, _, _, o) =
        scope_matchers-owned ls ms out (status_of-scoped (scope_matchers ls ms) out e) in
      (o, named_id ls id n)

  -- When a silence is deleted at the target, its ID has the form of one and the silence that the
  -- target has of that ID is owned by the caller.
  pub delete_silence-owned :
      (ls : List Label) (id : Text)
      → delete_silence is_silence_id look_up ls id ≡ deleted
      → Theirs ls id
  unfolding delete_silence
  delete_silence-owned ls id h =
      let (n, _) =
        unless-passed (check_owner is_silence_id look_up ls id) deleted deleted (λ s z. cc) h in
      check_owner-Theirs ls id n
