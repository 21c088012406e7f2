-- ===== src/Reload/Fresh.antt =====
-- internal/config/watcher.go: the configuration that is published against what the file holds.
use token_auth_proxy.Common.{
  ℕ, zero, suc, ◌≡◌, refl, ◌⊎◌, Bool, true, false, Option, none, some, List, [], ◌∷◌, arith,
}
use token_auth_proxy.Settings.{Config}
use token_auth_proxy.Reload.{Watcher, reload}
use token_auth_proxy.Reload.Loop.{Loop, Step, is_retrying, new_watcher, step, run}

-- What is published is what the file loads as, where it loads.
abbrev pub IsFresh : Option Config → Config → Type 0
IsFresh none c = Unit
IsFresh (some d) c = c ≡ d

-- There is still an event to take, or the timer to fire.
abbrev pub IsPending : ℕ → Option ℕ → Type 0
IsPending (suc n) t = Unit
IsPending zero none = ⊥
IsPending zero (some at) = Unit

pub record Watchful (l : Loop) : Type 0 where
  pub is_there : l.there ≡ true
  pub is_watched : l.watched ≡ true
  pub not_retrying : is_retrying l.phase ≡ false
  pub fresh_or_pending : IsFresh l.disk l.watcher.current ⊎ IsPending l.events l.timer

module _ (deep_equal : Config → Config → Bool) where
  pub reload-IsFresh :
      (o : Option Config) (w : Watcher) → IsFresh o (reload deep_equal o w).1.current
  unfolding reload
  reload-IsFresh none w = tt
  reload-IsFresh (some c) w = refl

  abbrev pub Kept : Loop → Type 0
  Kept l = l.been_away ≡ false → Watchful l

  step-Kept : (l : Loop) (s : Step) → Kept l → Kept (step deep_equal l s)
  unfolding step
  step-Kept l s h a = ground (arith, h, reload-IsFresh l.disk l.watcher)

  pub run-Kept : (l : Loop) (ss : List Step) → Kept l → Kept (run deep_equal l ss)
  unfolding run
  run-Kept l [] h = h
  run-Kept l (s ∷ ss) h = run-Kept (step deep_equal l s) ss (step-Kept l s h)

  pub new_watcher-Kept :
      (file : Option Config) (there : Bool) (l : Loop)
      → new_watcher file file there ≡ some l
      → Kept l
  unfolding new_watcher
  new_watcher-Kept file there l h a = ground arith
