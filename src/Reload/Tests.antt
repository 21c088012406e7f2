-- ===== src/Reload/Tests.antt =====
-- Runs of the configuration's reload.
use token_auth_proxy.Common.{◌≡◌, refl, sym, ap, none, some, List, [], ◌∷◌, Bool, true, arith}
use token_auth_proxy.Text.{Text, text, ◌==◌}
use token_auth_proxy.Settings.{Config}
use token_auth_proxy.Settings.Tests.{config, libs}
use token_auth_proxy.Source.{load_layered, read}
use token_auth_proxy.Source.Tests.{list_layers, plain_config, world, file, loads}
use token_auth_proxy.Reload.Published.{WasChecked, IsLoad, to_option, run-WasChecked}
use token_auth_proxy.Reload.{reload, needs_restart, hot_changed, restart_required, reload_failed}
use token_auth_proxy.Reload.Loop.{
  Loop, Step, written, removed, made, passed, took_event, timer_fired, retried, watching,
  new_watcher, step, run,
}
use token_auth_proxy.Reload.Settled.{left, done, wait, take, fire, Outcome, run-settled}

-- Two configurations are told apart by their targets.
abbrev by_target : Config → Config → Bool
by_target c d = c.fields.target == d.fields.target

abbrev moved_to : Text → Config → Config
moved_to t c = record c { fields = record c.fields { target = t } }

abbrev second_config : Config
second_config = moved_to (text "http://second") config

abbrev begun : Loop
begun = watching (some config) config

-- A write, and another while the timer runs; one reload.
abbrev edits : List Step
edits =
    written (some config)
    ∷ took_event
    ∷ passed 100000000
    ∷ written (some second_config)
    ∷ took_event
    ∷ passed 100000000
    ∷ timer_fired
    ∷ passed 50000000
    ∷ timer_fired
    ∷ []

one_reload :
    (run by_target begun edits).watcher ≡ record { current = second_config; reload_count = 1 }
unfolding run step reload
one_reload = refl

run-settled_example :
    Outcome by_target second_config (run by_target begun (written (some second_config) ∷ [])) 2 (
      step by_target
        (step by_target
          (step by_target (run by_target begun (written (some second_config) ∷ [])) took_event)
          (passed 150000000))
        timer_fired)
unfolding run step new_watcher
run-settled_example =
    run-settled by_target (some config) true begun _ (written (some second_config) ∷ []) 2
      second_config refl refl refl refl
      (take refl (omega arith) (wait 150000000 (fire refl refl done)))

-- What is written between the load of NewWatcher and its watch is not loaded.
lost_write :
    (new_watcher (some config) (some second_config) true
      ≡ some (watching (some second_config) config))
    × (left 0 none ≡ 0)
unfolding new_watcher
lost_write = (refl, refl)

-- The directory goes away and comes back with another configuration: the loop watches it again, and
-- does not load it.
abbrev swapped : Loop
swapped = run by_target begun (
    removed
    ∷ took_event
    ∷ passed 150000000
    ∷ timer_fired
    ∷ made (some second_config)
    ∷ retried
    ∷ [])

not_reloaded :
    (swapped.watched ≡ true)
    × (swapped.disk ≡ some second_config)
    × (swapped.events ≡ 0)
    × (swapped.timer ≡ none)
    × (swapped.watcher.current ≡ config)
unfolding run step reload
not_reloaded = (refl, refl, refl, refl, refl)

kept_when_refused : reload by_target none begun.watcher ≡ (reload_failed ∷ [], begun.watcher)
unfolding reload
kept_when_refused = refl

told_to_restart :
    (reload by_target
      (some (record config { fields = record config.fields { listen_addr = text ":9" } }))
      begun.watcher).0
    ≡ restart_required ∷ []
unfolding reload needs_restart hot_changed ◌==◌
told_to_restart = refl

unread : none ≡ to_option (load_layered list_layers libs world (λ p. none) (text "c.yaml") none)
unfolding load_layered read
unread = refl

-- A load that fails, between two that do not.
run-WasChecked_example :
    WasChecked list_layers libs
      (text "c.yaml")
      none
      (run by_target
        (watching (some plain_config) plain_config)
        (written none ∷ took_event ∷ passed 150000000 ∷ timer_fired ∷ [])).watcher.current
unfolding new_watcher
run-WasChecked_example =
    run-WasChecked list_layers libs (text "c.yaml") none by_target (some plain_config)
      (some plain_config) true (watching (some plain_config) plain_config)
      (written none ∷ took_event ∷ passed 150000000 ∷ timer_fired ∷ []) refl good good
      ((world, (λ p. none), unread), (tt, (tt, (tt, tt))))
  where
    good : IsLoad list_layers libs (text "c.yaml") none (some plain_config)
    good = (world, file, ap to_option (sym loads))
