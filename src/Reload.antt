-- ===== src/Reload.antt =====
-- internal/config/watcher.go: what a reload does, and what of a configuration needs a restart. What
-- loadLayered comes to is given to a reload: a configuration, or none where it fails.

pub mod Loop
pub mod Published
mod Tests
pub mod Fresh
pub mod Settled
use token_auth_proxy.Common.{
  ℕ, suc, Bool, true, false, not, ◌&&◌, ◌||◌, Option, none, some, List, [], ◌∷◌, ◌++◌, eqb,
  if◌then◌else◌,
}
use token_auth_proxy.Text.{Text, ◌==◌}
use token_auth_proxy.Settings.{Timeouts, Config}

pub record Watcher : Type 0 where
  pub current : Config
  pub reload_count : ℕ

-- What a reload has to say.
pub data Note : Type 0 where
  reload_failed restart_required config_reloaded : Note

abbrev pub same_timeouts : Timeouts → Timeouts → Bool
same_timeouts s t =
    eqb s.read_header t.read_header
    && (eqb s.read t.read
        && (eqb s.write t.write
            && (eqb s.idle t.idle
                && (eqb s.dial t.dial && eqb s.response_header t.response_header))))

unfoldable pub needs_restart : Config → Config → Bool
needs_restart prev next =
    not (prev.fields.listen_addr == next.fields.listen_addr)
    || (not (same_timeouts prev.fields.timeouts next.fields.timeouts)
        || not (prev.fields.target_ca_cert == next.fields.target_ca_cert))

abbrev pub no_timeouts : Timeouts
no_timeouts = record {
  read_header = 0;
  read = 0;
  write = 0;
  idle = 0;
  dial = 0;
  response_header = 0;
}

abbrev pub hot_part : Config → Config
hot_part c = record c {
  fields = record c.fields { listen_addr = []; timeouts = no_timeouts; target_ca_cert = [] };
}

module _ (deep_equal : Config → Config → Bool) where
  -- hotReloadableFieldsChanged
  unfoldable pub hot_changed : Config → Config → Bool
  hot_changed prev next = not (deep_equal (hot_part prev) (hot_part next))

  abbrev pub notes : Config → Config → List Note
  notes prev next =
      (if needs_restart prev next then restart_required ∷ [] else [])
      ++ (if hot_changed prev next then config_reloaded ∷ [] else [])

  -- Watcher.reload
  unfoldable pub reload : Option Config → Watcher → List Note × Watcher
  unfolding needs_restart hot_changed
  reload none w = (reload_failed ∷ [], w)
  reload (some next) w =
      (notes w.current next, record { current = next; reload_count = suc w.reload_count })
