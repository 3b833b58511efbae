-- ===== src/Examples/Execute.antt =====
-- The program from main on, without arguments, until a signal comes.
use kube_graffiti.Common.{String, List, ◌≡◌, ◌⊎◌, refl, inr, some, [], ◌∷◌, ok}
use kube_graffiti.Dict.{insert}
use kube_graffiti.Log.{Zerolog, LogState, info_level}
use kube_graffiti.Existing.Groups.{Outcome, go_on}
use kube_graffiti.Cmd.Settings.{init}
use kube_graffiti.Cmd.Run.{ends_process}
use kube_graffiti.Cmd.Execute.{Cobra, RunsOnce, run_until_signal, execute, main, Ended, main-Ended}
use kube_graffiti.Examples.Fixtures.{toy}
use kube_graffiti.Examples.Web.{World, client, ascii, empty_world, configuration}
use kube_graffiti.Examples.Surroundings.{Values, surroundings}
use kube_graffiti.Examples.Run.{after, runs}

-- A logger is the texts of its fields.
abbrev zerolog : Zerolog (List String)
zerolog = record { console_output = λ g. g; with_str = λ k v g. k ∷ v ∷ g }

abbrev logs : LogState (List String)
logs = record { logger = []; global_level = info_level }

abbrev cobra : Cobra Values (List String) World
cobra = record { execute = λ c v s w. c.run v (c.pre_run v s) w }

abbrev interrupted : World → Outcome World
interrupted w = some (ok tt, w)

once : RunsOnce cobra
once c v s w = inr (inr (v, refl))

ends :
    main client ascii toy 5
      (surroundings configuration)
      zerolog
      interrupted
      cobra
      []
      logs
      empty_world
    ≡ some (ok tt, after)
unfolding main execute run_until_signal init insert go_on ends_process
ends = rw runs refl

main-Ended_example :
    (after ≡ empty_world)
    ⊎ Ended client ascii toy 5 (surroundings configuration) zerolog interrupted empty_world after
main-Ended_example =
    main-Ended client ascii toy 5 (surroundings configuration) zerolog interrupted cobra [] logs
      empty_world once ends
