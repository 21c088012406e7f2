-- ===== src/Keys/Retried.antt =====
-- internal/authn/jwks.go: what the requests for one source's keys are answered with after a build
-- that failed, and after one that did not.
use token_auth_proxy.Common.{
  ℕ, ◌+◌, ◌≤◌, ◌<◌, ◌≡◌, refl, sym, ap, ◌∙◌, Bool, true, false, Option, none, some, List, [], ◌∷◌,
  ◌++◌, map, ltb, if◌then◌else◌, All, arith,
}
use token_auth_proxy.Text.{Text}
use token_auth_proxy.Config.{JwtSource}
use token_auth_proxy.Oauth.Clients.{Url}
use token_auth_proxy.Keys.{
  Resolver, Build, built, not_built, KeyAnswer, keys, no_keys, KeyError, retry, build, store_built,
  cached_or_built, resolve,
}

-- A request that takes the resolver's lock at a time; a build that it makes has ended at another.
pub record Call (Keys : Type 0) : Type 0 where
  pub src : JwtSource
  pub asked : ℕ
  pub ended : ℕ
  pub outcome : Build Keys

module _ {Keys : Type 0} (parse_request_uri : Text → Option Url) where
  -- What the calls are answered with, one after the other.
  unfoldable pub answers : List (Call Keys) → Resolver Keys → List (KeyAnswer Keys)
  answers [] res = []
  answers (c ∷ cs) res =
      let (answer, res') = resolve parse_request_uri c.asked c.ended c.outcome c.src res in
      answer ∷ answers cs res'

  resolve-cached :
      (asked ended : ℕ) (b : Build Keys) (src : JwtSource) (res : Resolver Keys) (k : Keys)
      → res.kf ≡ some k
      → resolve parse_request_uri asked ended b src res ≡ (keys k, res)
  unfolding resolve
  resolve-cached asked ended b src res k h = go res.kf h
    where
      go :
          (o : Option Keys)
          → o ≡ some k
          → cached_or_built parse_request_uri asked ended b src res o ≡ (keys k, res)
      go none e = absurd cc
      go (some j) e = let same : j ≡ k = cc in ap (λ x. (keys x, res)) same

  resolve-waiting :
      (asked ended : ℕ) (b : Build Keys) (src : JwtSource) (res : Resolver Keys)
      → res.kf ≡ none
      → asked < res.next_try
      → resolve parse_request_uri asked ended b src res ≡ (no_keys res.last_err, res)
  unfolding resolve
  resolve-waiting asked ended b src res h w = go res.kf h
    where
      early :
          (t : Bool)
          → ltb asked res.next_try ≡ t
          → (no_keys res.last_err, res) ≡ (
              if t
              then (no_keys res.last_err, res)
              else store_built parse_request_uri ended src res (build parse_request_uri b src))
      early true e = refl
      early false e = absurd (ground arith)

      go :
          (o : Option Keys)
          → o ≡ none
          → cached_or_built parse_request_uri asked ended b src res o ≡ (no_keys res.last_err, res)
      go none e = sym (early (ltb asked res.next_try) refl)
      go (some j) e = absurd cc

  resolve-due :
      (asked ended : ℕ) (b : Build Keys) (src : JwtSource) (res : Resolver Keys)
      → res.kf ≡ none
      → res.next_try ≤ asked
      → resolve parse_request_uri asked ended b src res
        ≡ store_built parse_request_uri ended src res (build parse_request_uri b src)
  unfolding resolve
  resolve-due asked ended b src res h w = go res.kf h
    where
      due :
          (t : Bool)
          → ltb asked res.next_try ≡ t
          → store_built parse_request_uri ended src res (build parse_request_uri b src) ≡ (
              if t
              then (no_keys res.last_err, res)
              else store_built parse_request_uri ended src res (build parse_request_uri b src))
      due false e = refl
      due true e = absurd (ground arith)

      go :
          (o : Option Keys)
          → o ≡ none
          → cached_or_built parse_request_uri asked ended b src res o
            ≡ store_built parse_request_uri ended src res (build parse_request_uri b src)
      go none e = sym (due (ltb asked res.next_try) refl)
      go (some j) e = absurd cc

  -- Once there are keys, every call is answered with them.
  answers-built :
      (res : Resolver Keys) (k : Keys) (cs : List (Call Keys))
      → res.kf ≡ some k
      → answers cs res ≡ map (λ c. keys k) cs
  unfolding answers
  answers-built res k [] h = refl
  answers-built res k (c ∷ cs) h =
      rw (resolve-cached c.asked c.ended c.outcome c.src res k h)
        (ap (λ r. keys k ∷ r) (answers-built res k cs h))

  answers-failed :
      (res : Resolver Keys) (e : KeyError) (waiting rest : List (Call Keys))
      → res.kf ≡ none
      → res.last_err ≡ some e
      → All (λ c. c.asked < res.next_try) waiting
      → answers (waiting ++ rest) res ≡ map (λ c. no_keys (some e)) waiting ++ answers rest res
  unfolding answers
  answers-failed res e [] rest h k w = refl
  answers-failed res e (c ∷ cs) rest h k w =
      let step =
        resolve-waiting c.asked c.ended c.outcome c.src res h w.0 ∙ ap (λ x. (no_keys x, res)) k in
      rw step (ap (λ r. no_keys (some e) ∷ r) (answers-failed res e cs rest h k w.1))

  -- Where a call that has no keys and is not made to wait fails to build them, it is answered with the
  -- error, and so is every later call that begins less than the retry interval after that; the first
  -- call that begins later builds again, and where that succeeds, it and every call after it are
  -- answered with the keys.
  pub answers-Retried :
      (res : Resolver Keys) (first last : Call Keys) (waiting later : List (Call Keys))
      (e : KeyError) (k : Keys) (url : Text)
      → res.kf ≡ none
      → res.next_try ≤ first.asked
      → build parse_request_uri first.outcome first.src ≡ not_built e
      → All (λ c. c.asked < first.ended + retry) waiting
      → first.ended + retry ≤ last.asked
      → build parse_request_uri last.outcome last.src ≡ built k url
      → answers (first ∷ waiting ++ last ∷ later) res
        ≡ no_keys (some e) ∷ map (λ c. no_keys (some e)) waiting ++ keys k ∷ map (λ c. keys k) later
  unfolding answers
  answers-Retried res first last waiting later e k url h due fails w again succeeds =
      let after = record res { last_err = some e; next_try = first.ended + retry } in
      let one =
        resolve-due first.asked first.ended first.outcome first.src res h due
        ∙ ap (store_built parse_request_uri first.ended first.src res) fails in
      let two =
        resolve-due last.asked last.ended last.outcome last.src after h again
        ∙ ap (store_built parse_request_uri last.ended last.src after) succeeds in
      rw one (
        ap (λ r. no_keys (some e) ∷ r)
          (answers-failed after e waiting (last ∷ later) h refl w
            ∙ ap (λ r. map (λ c. no_keys (some e)) waiting ++ r)
                (rw two (ap (λ r. keys k ∷ r) (answers-built _ k later refl)))))
