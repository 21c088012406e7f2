-- ===== src/Keys/Tests.antt =====
-- Runs of the resolvers and of the registry of signing keys.
use token_auth_proxy.Common.{ℕ, ◌+◌, ◌≡◌, refl, Option, none, some, [], ◌∷◌, true, arith}
use token_auth_proxy.Text.{Text, text, ◌==◌}
use token_auth_proxy.Config.{JwtSource}
use token_auth_proxy.Oauth.Clients.{Url}
use token_auth_proxy.Basic.Entries.{find, delete}
use token_auth_proxy.Keys.{
  Resolver, new_resolver, Build, keys, no_keys, no_key_set, no_reply, build, resolve,
}
use token_auth_proxy.Keys.Registry.{
  KeyRegistry, update, fingerprint, desired, close, allocate, look_up, kept, evicted, add_missing,
  reconcile,
}
use token_auth_proxy.Keys.Registry.Trace.{
  System, new_registry, start, looked_up, Reachable-Invariant,
}
use token_auth_proxy.Keys.Registry.Desired.{current, reconcile-Desired}
use token_auth_proxy.Keys.Retried.{Call, answers, answers-Retried}
use token_auth_proxy.Jwt.Tests.{source}

-- A key set is known by the URL that it is fetched from.
abbrev no_url : Text → Option Url
no_url t = none

abbrev show : ℕ → Text
show d = (d + 1) ∷ []

abbrev head_of : Text → ℕ
head_of [] = 0
head_of (c ∷ t) = c

abbrev idp : JwtSource
idp = record (source (text "idp") (text "i")) { jwks_url = text "https://i/k" }

abbrev moved : JwtSource
moved = record idp { jwks_url = text "https://i/2" }

abbrev up : Build Text
up = record { trust_roots = λ t. none; discovery = λ u. no_reply; new_keyfunc = λ url. some url }

abbrev down : Build Text
down = record up { new_keyfunc = λ url. none }

abbrev call : ℕ → Build Text → Call Text
call at outcome = record { src = idp; asked = at; ended = at; outcome = outcome }

answers-Retried_example :
    answers no_url
      (call 5 down ∷ call 6 up ∷ call 30000000005 up ∷ call 30000000006 down ∷ [])
      (new_resolver [])
    ≡ no_keys (some no_key_set)
      ∷ no_keys (some no_key_set)
      ∷ keys (text "https://i/k")
      ∷ keys (text "https://i/k")
      ∷ []
unfolding build
answers-Retried_example =
    answers-Retried no_url (new_resolver []) (call 5 down) (call 30000000005 up) (call 6 up ∷ [])
      (call 30000000006 down ∷ []) no_key_set (text "https://i/k") (text "https://i/k") refl
      (omega arith) refl (omega arith, tt) (omega arith) refl

-- A request looks its source up, the configuration loses the source, and the resolver is closed before
-- the request builds the keys: they are refreshed from then on, although no entry leads to them.
abbrev looking : System Text
looking = record { reg = (look_up show idp new_registry).1; pending = (0, idp) ∷ [] }

abbrev lost : KeyRegistry Text
lost = close show 0 (reconcile show 7 [] looking.reg).1

abbrev late : Resolver Text
late = (resolve no_url 0 0 up idp (lost.heap 0)).1

still_refreshing : (find lost.resolvers idp.name ≡ none) × (late.refreshing ≡ true)
unfolding find delete close look_up reconcile kept evicted add_missing desired fingerprint allocate
    resolve build ◌==◌
still_refreshing = (refl, refl)

-- The same run, with the keys that were built left in the resolver.
abbrev ended : System Text
ended = record looking {
  reg = record lost { heap = update lost.heap 0 (resolve no_url 0 0 up idp (lost.heap 0)).1 };
}

-- The only source that is ever configured.
abbrev Only : JwtSource → Type 0
Only j = j ≡ idp

-- The source's key set has moved, and another source is new.
abbrev other : JwtSource
other = record idp { name = text "other" }

reconcile-Desired_example :
    (current show (reconcile show 7 (moved ∷ other ∷ []) looking.reg).1 (text "idp")
      ≡ desired show (moved ∷ other ∷ []) (text "idp"))
    × ((id : ℕ)
        → find looking.reg.resolvers (text "idp") ≡ some id
        → desired show (moved ∷ other ∷ []) (text "idp") ≡ some (looking.reg.heap id).fingerprint
        → find (reconcile show 7 (moved ∷ other ∷ []) looking.reg).1.resolvers (text "idp")
          ≡ some id)
unfolding look_up find
reconcile-Desired_example =
    reconcile-Desired show no_url Only 7 (moved ∷ other ∷ []) looking.reg (text "idp")
      (Reachable-Invariant no_url show Only (looked_up idp refl start)).sound refl
