-- ===== src/Reload/Published.antt =====
-- internal/config/watcher.go and source.go: which configurations the watcher publishes.
use token_auth_proxy.Common.{
  ◌≡◌, refl, Bool, Option, none, some, List, [], ◌∷◌, All, All-map, ap, ◌∙◌, arith,
}
use token_auth_proxy.Text.{Text}
use token_auth_proxy.Interpolate.{World}
use token_auth_proxy.Settings.{Config, ConfigFields, Libs}
use token_auth_proxy.Source.{FlagSet, Layers, Loading, goes, fails, load_layered}
use token_auth_proxy.Source.Checked.{Checked, load_layered-Checked}
use token_auth_proxy.Reload.{reload}
use token_auth_proxy.Reload.Loop.{
  Loop, Step, written, removed, made, passed, took_event, timer_fired, retried, cancelled,
  new_watcher, step, run,
}

abbrev pub Holds : (Config → Type 0) → Option Config → Type 0
Holds P none = Unit
Holds P (some c) = P c

abbrev pub HoldsOf : (Config → Type 0) → Step → Type 0
HoldsOf P (written o) = Holds P o
HoldsOf P (made o) = Holds P o
HoldsOf P removed = Unit
HoldsOf P (passed d) = Unit
HoldsOf P took_event = Unit
HoldsOf P timer_fired = Unit
HoldsOf P retried = Unit
HoldsOf P cancelled = Unit

module _ (deep_equal : Config → Config → Bool) (P : Config → Type 0) where
  record Good (l : Loop) : Type 0 where
    on_disk : Holds P l.disk
    published : P l.watcher.current

  step-Good : (l : Loop) (s : Step) → HoldsOf P s → Good l → Good (step deep_equal l s)
  unfolding step reload
  step-Good l s p g = elim s [
    | timer_fired ↦ ground (arith, g.on_disk, g.published)
    | _ ↦ ground (arith, g.on_disk, g.published, p)
  ]

  run-Good : (l : Loop) (ss : List Step) → All (HoldsOf P) ss → Good l → Good (run deep_equal l ss)
  unfolding run
  run-Good l [] a g = g
  run-Good l (s ∷ ss) (p, a) g = run-Good (step deep_equal l s) ss a (step-Good l s p g)

  new_watcher-Good :
      (first disk : Option Config) (there : Bool) (l : Loop)
      → new_watcher first disk there ≡ some l
      → Holds P first
      → Holds P disk
      → Good l
  unfolding new_watcher
  new_watcher-Good first disk there l h f d = ground (arith, f, d)

  pub run-Holds :
      (first disk : Option Config) (there : Bool) (l : Loop) (ss : List Step)
      → new_watcher first disk there ≡ some l
      → Holds P first
      → Holds P disk
      → All (HoldsOf P) ss
      → P (run deep_equal l ss).watcher.current
  run-Holds first disk there l ss h f d a =
      (run-Good l ss a (new_watcher-Good first disk there l h f d)).published

abbrev pub to_option : Loading Config → Option Config
to_option (goes c) = some c
to_option (fails e) = none

module _ {K : Type 0} (layers : Layers K) {Cert : Type 0} {Key : Type 0} (libs : Libs Cert Key)
    (path : Text) (fs : Option FlagSet) where
  -- What loadLayered comes to in some state of the machine.
  abbrev pub IsLoad : Option Config → Type 0
  IsLoad o =
      (world : World) × (read_file : Text → Option Text) × (o
        ≡ to_option (load_layered layers libs world read_file path fs))

  abbrev pub LoadsOf : Step → Type 0
  LoadsOf (written o) = IsLoad o
  LoadsOf (made o) = IsLoad o
  LoadsOf removed = Unit
  LoadsOf (passed d) = Unit
  LoadsOf took_event = Unit
  LoadsOf timer_fired = Unit
  LoadsOf retried = Unit
  LoadsOf cancelled = Unit

  abbrev pub WasChecked : Config → Type 0
  WasChecked cfg = (k : K) × (c : ConfigFields) × Checked layers libs k c cfg

  IsLoad-Holds : (o : Option Config) → IsLoad o → Holds WasChecked o
  IsLoad-Holds none h = tt
  IsLoad-Holds (some cfg) (world, read_file, e) =
      go (load_layered layers libs world read_file path fs) refl e
    where
      go :
          (r : Loading Config)
          → load_layered layers libs world read_file path fs ≡ r
          → some cfg ≡ to_option r
          → WasChecked cfg
      go (fails x) q h = absurd cc
      go (goes c) q h =
          let same : c ≡ cfg = cc in
          load_layered-Checked layers libs world read_file path fs cfg (q ∙ ap goes same)

  LoadsOf-HoldsOf : (s : Step) → LoadsOf s → HoldsOf WasChecked s
  LoadsOf-HoldsOf (written o) h = IsLoad-Holds o h
  LoadsOf-HoldsOf (made o) h = IsLoad-Holds o h
  LoadsOf-HoldsOf removed h = tt
  LoadsOf-HoldsOf (passed d) h = tt
  LoadsOf-HoldsOf took_event h = tt
  LoadsOf-HoldsOf timer_fired h = tt
  LoadsOf-HoldsOf retried h = tt
  LoadsOf-HoldsOf cancelled h = tt

  -- Whatever is written to the file, in whatever order with the loop's steps, and wherever a load fails:
  -- the configuration that is published was decoded from layers that passed the checks on their keys, and
  -- is what Validate accepted.
  pub run-WasChecked :
      (deep_equal : Config → Config → Bool) (first disk : Option Config) (there : Bool) (l : Loop)
      (ss : List Step)
      → new_watcher first disk there ≡ some l
      → IsLoad first
      → IsLoad disk
      → All LoadsOf ss
      → WasChecked (run deep_equal l ss).watcher.current
  run-WasChecked deep_equal first disk there l ss h f d a =
      run-Holds deep_equal WasChecked first disk there l ss h (IsLoad-Holds first f)
        (IsLoad-Holds disk d) (All-map LoadsOf (HoldsOf WasChecked) LoadsOf-HoldsOf ss a)
