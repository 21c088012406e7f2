-- ===== src/PromLabel/Handler/Enforced.antt =====
-- internal/promlabel/handler.go: no query reaches the backend that was not enforced.
use token_auth_proxy.Common.{
  ◌≡◌, ◌≢◌, refl, sym, ◌⊎◌, inl, inr, Bool, true, false, not, Option, none, some, List, [], ◌∷◌,
  is_empty, All, subst,
}
use token_auth_proxy.Text.{Text, ==_iff}
use token_auth_proxy.PromLabel.Handler.{
  Values, values_of, set_values, query_param, match_param, EnforceError, Rewritten, rewritten,
  not_rewritten, Checked, checked, failed, set_query, query_in, enforce_query, cons_selector,
  enforce_selectors, set_selectors, match_in, enforce_match, Kind, of_query, of_match, forwarded,
  enforce_kind, nothing_found, finish, rewrite,
}

abbrev pub param : Kind → Text
param of_query = query_param
param of_match = match_param

module _ (enforce : Text → Rewritten) (selector : Text) where
  -- A value that the enforcer wrote, or the selector of the enforced labels.
  abbrev pub Safe : Text → Type 0
  Safe q = (q ≡ selector) ⊎ ((given : Text) × (enforce given ≡ rewritten q))

  -- The values of a parameter, of which there are none where it is absent.
  abbrev pub values : Option (List Text) → List Text
  values none = []
  values (some vs) = vs

  here :
      (name : Text) (vs : List Text) (v : Values) → values_of (set_values name vs v) name ≡ some vs
  unfolding values_of
  here name vs v = rw ((==_iff name name).1 refl) refl

  Rewritten-cases :
      (r : Rewritten)
      → ((q : Text) × (r ≡ rewritten q)) ⊎ ((e : EnforceError) × (r ≡ not_rewritten e))
  Rewritten-cases (rewritten q) = inl (q, refl)
  Rewritten-cases (not_rewritten e) = inr (e, refl)

  -- Values of a parameter that are all safe, and of which there is one if any was found.
  record Good (name : Text) (any_found : Bool) (v : Values) : Type 0 where
    safe : All Safe (values (values_of v name))
    some_value : any_found ≡ true → values (values_of v name) ≢ []

  Fine : Text → Checked → Type 0
  Fine name (failed e) = Unit
  Fine name (checked b v) = Good name b v

  set-Good :
      (name : Text) (vs : List Text) (v : Values) (b : Bool)
      → All Safe vs
      → (b ≡ true → vs ≢ [])
      → Good name b (set_values name vs v)
  set-Good name vs v b h k = record {
    safe = subst (λ o. All Safe (values o)) (sym (here name vs v)) h;
    some_value = λ t. subst (λ o. values o ≢ []) (sym (here name vs v)) (k t);
  }

  query-Fine :
      (v : Values) (o : Option (List Text))
      → values_of v query_param ≡ o
      → Fine query_param (query_in enforce v o)
  unfolding Fine
  query-Fine v none e = record {
    safe = subst (λ o. All Safe (values o)) (sym e) tt;
    some_value = λ t. absurd cc;
  }
  query-Fine v (some []) e = tt
  query-Fine v (some (q ∷ r ∷ qs)) e = tt
  query-Fine v (some (q ∷ [])) e = written (enforce q) refl
    where
      written : (r : Rewritten) → enforce q ≡ r → Fine query_param (set_query enforce v r)
      written (not_rewritten x) k = tt
      written (rewritten x) k = set-Good query_param (x ∷ []) v true (inr (q, k), tt) (λ t z. cc)

  selectors-Safe :
      (given out : List Text) → enforce_selectors enforce given ≡ some out → All Safe out
  unfolding enforce_selectors
  selectors-Safe [] out h = subst (All Safe) (let e : [] ≡ out = cc in e) tt
  selectors-Safe (g ∷ gs) out h =
      go (selectors-Safe gs) (enforce g) (enforce_selectors enforce gs) refl refl h
    where
      go :
          ((rest : List Text) → enforce_selectors enforce gs ≡ some rest → All Safe rest)
          → (r : Rewritten) (o : Option (List Text)) → enforce g ≡ r
          → enforce_selectors enforce gs ≡ o
          → cons_selector enforce r o ≡ some out
          → All Safe out
      go ih (not_rewritten x) o e k m = absurd cc
      go ih (rewritten x) none e k m = absurd cc
      go ih (rewritten x) (some rest) e k m =
          let c : x ∷ rest ≡ out = cc in subst (All Safe) c (inr (g, e), ih rest k)

  match-Fine :
      (v : Values) (o : Option (List Text))
      → values_of v match_param ≡ o
      → Fine match_param (match_in enforce v o)
  unfolding Fine
  match-Fine v none e = record {
    safe = subst (λ o. All Safe (values o)) (sym e) tt;
    some_value = λ t. absurd cc;
  }
  match-Fine v (some given) e = done (enforce_selectors enforce given) refl
    where
      some_if : (out : List Text) → not (is_empty out) ≡ true → out ≢ []
      some_if [] h = absurd cc
      some_if (x ∷ xs) h = λ z. cc

      done :
          (o : Option (List Text))
          → enforce_selectors enforce given ≡ o
          → Fine match_param (set_selectors enforce v given o)
      done none k = tt
      done (some out) k =
          set-Good match_param out v (not (is_empty out)) (selectors-Safe given out k) (some_if out)

  kind-Fine : (kind : Kind) (v : Values) → Fine (param kind) (enforce_kind enforce selector kind v)
  unfolding enforce_query enforce_match
  kind-Fine of_query v = query-Fine v (values_of v query_param) refl
  kind-Fine of_match v = match-Fine v (values_of v match_param) refl

  -- Whatever parameters a request to a rewritten endpoint has in its URL and in its body, every value
  -- of the enforced parameter that is forwarded in either was written by the enforcer or is the
  -- selector of the enforced labels, and at least one of the two has a value.
  pub rewrite-Safe :
      (kind : Kind) (v body v' body' : Values)
      → rewrite enforce selector kind v body ≡ forwarded v' body'
      → All Safe (values (values_of v' (param kind)))
        × All Safe (values (values_of body' (param kind)))
        × ((values (values_of v' (param kind)) ≢ []) ⊎ (values (values_of body' (param kind)) ≢ []))
  unfolding rewrite Fine
  rewrite-Safe kind v body v' body' h =
      ends (enforce_kind enforce selector kind v) (enforce_kind enforce selector kind body)
        (kind-Fine kind v) (kind-Fine kind body) h
    where
      Both : Values → Values → Type 0
      Both x y =
          All Safe (values (values_of x (param kind)))
          × All Safe (values (values_of y (param kind)))
          × ((values (values_of x (param kind)) ≢ []) ⊎ (values (values_of y (param kind)) ≢ []))

      same : (x y : Values) → forwarded x y ≡ forwarded v' body' → Both x y → Both v' body'
      same x y e r =
          let p : x ≡ v' = cc in
          let q : y ≡ body' = cc in subst (λ z. Both z body') p (subst (Both x) q r)

      nothing :
          (k : Kind) (x y : Values)
          → k ≡ kind
          → Good (param k) false y
          → nothing_found enforce selector k x y ≡ forwarded v' body'
          → Both v' body'
      nothing of_query x y e g k = absurd cc
      nothing of_match x y e g k =
          let put = set-Good match_param (selector ∷ []) x true (inl refl, tt) (λ t z. cc) in
          same _ y k (
            subst
              (λ n.
                All Safe (values (values_of (set_values match_param (selector ∷ []) x) (param n)))
                × All Safe (values (values_of y (param n)))
                × ((values (values_of (set_values match_param (selector ∷ []) x) (param n)) ≢ [])
                    ⊎ (values (values_of y (param n)) ≢ [])))
              e (put.safe, g.safe, inl (put.some_value refl)))

      ends :
          (c d : Checked)
          → Fine (param kind) c
          → Fine (param kind) d
          → finish enforce selector kind c d ≡ forwarded v' body'
          → Both v' body'
      ends (failed e) d f g k = absurd cc
      ends (checked b x) (failed e) f g k = absurd cc
      ends (checked true x) (checked b y) f g k =
          same x y k (f.safe, g.safe, inl (f.some_value refl))
      ends (checked false x) (checked true y) f g k =
          same x y k (f.safe, g.safe, inr (g.some_value refl))
      ends (checked false x) (checked false y) f g k = nothing kind x y refl g k
