-- ===== src/Reload/Settled.antt =====
-- internal/config/watcher.go: that the loop comes to publish what the file holds.
use token_auth_proxy.Common.{
  ℕ, zero, suc, ◌+◌, ◌≤◌, ◌<◌, ◌≡◌, refl, ap, ◌∙◌, Bool, true, false, Option, none, some, List,
  arith,
}
use token_auth_proxy.Settings.{Config}
use token_auth_proxy.Reload.Loop.{
  Loop, Step, passed, took_event, timer_fired, due, is_listening, new_watcher, step, run,
}
use token_auth_proxy.Reload.Fresh.{Watchful, reload-IsFresh, run-Kept, new_watcher-Kept}

-- How many of the loop's own steps are left at most.
abbrev pub left : ℕ → Option ℕ → ℕ
left events none = events + events
left events (some at) = suc (events + events)

module _ (deep_equal : Config → Config → Bool) where
  -- The loop takes so many steps on its own, and time passes between them.
  pub data Own : Loop → ℕ → Loop → Type 0 where
    done : {l : Loop} → Own l 0 l
    wait : {l t : Loop} {n : ℕ} (d : ℕ) → Own (step deep_equal l (passed d)) n t → Own l n t
    take :
        {l t : Loop} {n : ℕ}
        → is_listening l.phase ≡ true
        → 0 < l.events
        → Own (step deep_equal l took_event) n t
        → Own l (suc n) t
    fire :
        {l t : Loop} {n : ℕ}
        → is_listening l.phase ≡ true
        → due l.now l.timer ≡ true
        → Own (step deep_equal l timer_fired) n t
        → Own l (suc n) t

  record Ready (c : Config) (l : Loop) : Type 0 where
    watchful : Watchful l
    at_work : is_listening l.phase ≡ true
    loads : l.disk ≡ some c

  took-Ready :
      (c : Config) (l : Loop) → Ready c l → 0 < l.events → Ready c (step deep_equal l took_event)
  unfolding step
  took-Ready c l h e = ground (arith, h.watchful, h.at_work, h.loads)

  fired-Ready : (c : Config) (l : Loop) → Ready c l → Ready c (step deep_equal l timer_fired)
  unfolding step
  fired-Ready c l h =
      ground (arith, h.watchful, h.at_work, h.loads, reload-IsFresh deep_equal l.disk l.watcher)

  passed-Ready :
      (c : Config) (l : Loop) (d : ℕ) → Ready c l → Ready c (step deep_equal l (passed d))
  unfolding step
  passed-Ready c l d h = ground (arith, h.watchful, h.at_work, h.loads)

  took-left :
      (l : Loop)
      → is_listening l.phase ≡ true
      → 0 < l.events
      → let t = step deep_equal l took_event in suc (left t.events t.timer) ≤ left l.events l.timer
  unfolding step
  took-left l p e = ground arith

  fired-left :
      (l : Loop)
      → is_listening l.phase ≡ true
      → due l.now l.timer ≡ true
      → let t = step deep_equal l timer_fired in suc (left t.events t.timer) ≤ left l.events l.timer
  unfolding step
  fired-left l p e = ground arith

  -- What holds at the end of the loop's own steps.
  abbrev pub Outcome : Config → Loop → ℕ → Loop → Type 0
  Outcome c l n t =
      (n + left t.events t.timer ≤ left l.events l.timer)
      × (left t.events t.timer ≡ 0 → t.watcher.current ≡ c)
      × (0 < left t.events t.timer → (u : Loop) × Own t 1 u)

  settled_here :
      (c : Config) (l : Loop) → Ready c l → left l.events l.timer ≡ 0 → l.watcher.current ≡ c
  settled_here c l h z = ground (arith, h.watchful.fresh_or_pending, h.loads)

  after_wait :
      (l : Loop) (at : ℕ)
      → l.timer ≡ some at
      → due (step deep_equal l (passed at)).now (step deep_equal l (passed at)).timer ≡ true
  unfolding step
  after_wait l at e = ground arith

  waited_phase : (l : Loop) (d : ℕ) → (step deep_equal l (passed d)).phase ≡ l.phase
  unfolding step
  waited_phase l d = refl

  goes_on : (c : Config) (l : Loop) → Ready c l → 0 < left l.events l.timer → (u : Loop) × Own l 1 u
  goes_on c l h p = go l.events l.timer refl refl
    where
      go : (e : ℕ) (t : Option ℕ) → l.events ≡ e → l.timer ≡ t → (u : Loop) × Own l 1 u
      go (suc e) t q r = (step deep_equal l took_event, take h.at_work (omega arith) done)
      go zero none q r = absurd (ground arith)
      go zero (some at) q r = (
        step deep_equal (step deep_equal l (passed at)) timer_fired,
        wait at (fire (ap is_listening (waited_phase l at) ∙ h.at_work) (after_wait l at r) done),
      )

  waited_left :
      (l : Loop) (d : ℕ)
      → let t = step deep_equal l (passed d) in left t.events t.timer ≡ left l.events l.timer
  unfolding step
  waited_left l d = refl

  Own-Outcome : (c : Config) {l t : Loop} {n : ℕ} → Own l n t → Ready c l → Outcome c l n t
  Own-Outcome c {l = _} (done {l = l}) h = (omega arith, settled_here c l h, goes_on c l h)
  Own-Outcome c {l = _} (wait {l = l} d o) h =
      let (bound, fresh, more) = Own-Outcome c o (passed-Ready c l d h) in
      (let e = waited_left l d in omega arith, fresh, more)
  Own-Outcome c {l = _} (take {l = l} p e o) h =
      let (bound, fresh, more) = Own-Outcome c o (took-Ready c l h e) in
      (let k = took-left l p e in omega arith, fresh, more)
  Own-Outcome c {l = _} (fire {l = l} p e o) h =
      let (bound, fresh, more) = Own-Outcome c o (fired-Ready c l h) in
      (let k = fired-left l p e in omega arith, fresh, more)

  -- Where the file was not written between the two first steps of NewWatcher, the directory was never
  -- away, the loop still listens and the file loads: after whatever
  -- happened before, and as long as nothing else does, the loop takes only so many steps of its own, it
  -- can take another while an event is waiting or the timer is set, and when neither is so, it has
  -- published what the file loads as.
  pub run-settled :
      (file : Option Config) (there : Bool) (l t : Loop) (ss : List Step) (n : ℕ) (c : Config)
      → new_watcher file file there ≡ some l
      → (run deep_equal l ss).been_away ≡ false
      → is_listening (run deep_equal l ss).phase ≡ true
      → (run deep_equal l ss).disk ≡ some c
      → Own (run deep_equal l ss) n t
      → Outcome c (run deep_equal l ss) n t
  run-settled file there l t ss n c h away at_work loads o = Own-Outcome c o (record {
    watchful = run-Kept deep_equal l ss (new_watcher-Kept deep_equal file there l h) away;
    at_work = at_work;
    loads = loads;
  })
