-- ===== src/Reload/Loop.antt =====
-- internal/config/watcher.go: NewWatcher and the loop of Start, with what befalls the directory that is
-- watched. The steps come in any order, and one that cannot be taken changes nothing. An event of the
-- directory is buffered once it is watched. Times are in nanoseconds.
use token_auth_proxy.Common.{
  ℕ, zero, suc, ◌+◌, Bool, true, false, ◌&&◌, Option, none, some, List, [], ◌∷◌, leb, if◌then◌else◌,
}
use token_auth_proxy.Settings.{Config}
use token_auth_proxy.Reload.{Watcher, reload}

pub data Phase : Type 0 where
  listening retrying stopped : Phase

pub record Loop : Type 0 where
  pub watcher : Watcher
  pub phase : Phase
  -- When the debounce timer fires.
  pub timer : Option ℕ
  pub events : ℕ
  pub watched : Bool
  pub now : ℕ
  -- The directory: that it is there, what its file loads as, and that it was ever away.
  pub there : Bool
  pub disk : Option Config
  pub been_away : Bool

pub data Step : Type 0 where
  -- The file is written, the directory is removed or made again, time passes.
  written : Option Config → Step
  removed : Step
  made : Option Config → Step
  passed : ℕ → Step
  -- The loop takes an event, its timer fires, it tries to watch the directory again, it is told to end.
  took_event timer_fired retried cancelled : Step

-- defaultDebounce
abbrev pub debounce : ℕ
debounce = 150000000

abbrev pub with_event : Loop → Loop
with_event l = if l.watched then record l { events = suc l.events } else l

abbrev pub listened : Loop → ℕ → Loop
listened l zero = l
listened l (suc n) = record l { events = n; timer = some (l.now + debounce) }

abbrev pub watching_again : Loop → Loop
watching_again l =
    if l.there
    then record l { watched = true; phase = listening }
    else record l { phase = retrying }

abbrev pub due : ℕ → Option ℕ → Bool
due now none = false
due now (some at) = leb at now

abbrev pub is_listening : Phase → Bool
is_listening listening = true
is_listening retrying = false
is_listening stopped = false

abbrev pub is_retrying : Phase → Bool
is_retrying retrying = true
is_retrying listening = false
is_retrying stopped = false

-- NewWatcher: the file is loaded, and then its directory watched, when the file loads as `disk`.
abbrev pub watching : Option Config → Config → Loop
watching disk cfg = record {
  watcher = record { current = cfg; reload_count = 0 };
  phase = listening;
  timer = none;
  events = 0;
  watched = true;
  now = 0;
  there = true;
  disk = disk;
  been_away = false;
}

unfoldable pub new_watcher : Option Config → Option Config → Bool → Option Loop
new_watcher none disk there = none
new_watcher (some cfg) disk false = none
new_watcher (some cfg) disk true = some (watching disk cfg)

module _ (deep_equal : Config → Config → Bool) where
  abbrev pub fired : Loop → Loop
  fired l =
      watching_again (record l { timer = none; watcher = (reload deep_equal l.disk l.watcher).1 })

  unfoldable pub step : Loop → Step → Loop
  unfolding reload
  step l (written c) = if l.there then with_event (record l { disk = c }) else l
  step l removed =
      if l.there
      then record (with_event l) { there = false; disk = none; watched = false; been_away = true }
      else l
  step l (made c) = if l.there then l else record l { there = true; disk = c }
  step l (passed d) = record l { now = l.now + d }
  step l took_event = if is_listening l.phase then listened l l.events else l
  step l timer_fired = if is_listening l.phase && due l.now l.timer then fired l else l
  step l retried =
      if is_retrying l.phase && l.there then record l { watched = true; phase = listening } else l
  step l cancelled = record l { phase = stopped }

  unfoldable pub run : Loop → List Step → Loop
  unfolding step
  run l [] = l
  run l (s ∷ ss) = run (step l s) ss
