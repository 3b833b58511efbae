-- ===== src/Cmd/Execute.antt =====
-- main.go, and rootCmd and Execute of cmd/command.go, over a parameter for cobra.
use kube_graffiti.Common.{
  IsOk, ℕ, String, ◌≡◌, ◌⊎◌, inl, inr, refl, sym, ap, ◌∙◌, none, some, List, [], ◌∷◌, Result, ok,
  err, abort,
}
use kube_graffiti.Log.{Zerolog, LogState}
use kube_graffiti.Graffiti.Libs.{Libs}
use kube_graffiti.Webhook.Registration.{Unicode, HookClient}
use kube_graffiti.Existing.Groups.{Outcome, go_on, state_of}
use kube_graffiti.Cmd.Settings.{Flag, config_flag, log_level_flag, check_existing_flag, init}
use kube_graffiti.Cmd.Run.{Surroundings, init_root_cmd, ends_process, run_root_cmd}
use kube_graffiti.Cmd.Run.Steps.{Phase, Reaches}
use kube_graffiti.Cmd.Run.Traced.{run_root_cmd-Reaches}

-- cobra.Command with its persistent flags, over the settings, the loggers and the cluster.
pub record Command (V G W : Type 0) : Type 0 where
  pub use_line : String
  pub short : String
  pub long : String
  pub example : String
  pub persistent_flags : List Flag
  pub pre_run : V → LogState G → LogState G
  pub run : V → LogState G → W → Outcome W

-- The method Execute, on the arguments of the process.
pub record Cobra (V G W : Type 0) : Type 0 where
  pub execute : Command V G W → V → LogState G → W → Outcome W

-- What cobra documents of Execute: it gives an error for arguments that it does not take, or prints a
-- help, or else calls PreRun and then Run, once, with the settings that the flags have changed.
abbrev pub RunsOnce : {V G W : Type 0} → Cobra V G W → Type 0
RunsOnce {V} {G} {W} B =
    (c : Command V G W) (v : V) (s : LogState G) (w : W)
    → ((e : String) × (B.execute c v s w ≡ some (err e, w)))
      ⊎ ((B.execute c v s w ≡ some (ok tt, w))
          ⊎ ((flagged : V) × (B.execute c v s w ≡ c.run flagged (c.pre_run flagged s) w)))

module _ {S V G H R W : Type 0} (K : HookClient S W) (U : Unicode) (L : Libs) (fuel : ℕ)
    (E : Surroundings V H R W) (Z : Zerolog G) (wait : W → Outcome W) where
  -- The whole of runRootCmd: `wait` is the wait for a signal, none if none comes, after which the
  -- process exits.
  unfoldable pub run_until_signal : V → W → Outcome W
  run_until_signal v w = go_on (run_root_cmd K U L fuel E v w) wait

  abbrev pub root_cmd : Command V G W
  root_cmd = record {
    use_line = "kube-graffiti";
    short = "Automatically add labels and/or annotations to kubernetes objects";
    long =
        "Write rules that match labels and object fields and add labels/annotations to kubernetes objects as they are created via a mutating webhook.";
    example = "kube-graffiti --config ./config.yaml";
    persistent_flags = config_flag ∷ log_level_flag ∷ check_existing_flag ∷ [];
    pre_run = init_root_cmd E Z;
    run = λ v s w. run_until_signal v w;
  }

  -- An error is printed, and the process exits with status 1.
  unfoldable pub execute : Cobra V G W → V → LogState G → W → Outcome W
  execute B v s w = ends_process (B.execute root_cmd v s w)

  -- The function main, after the function init of the package.
  unfoldable pub main : Cobra V G W → V → LogState G → W → Outcome W
  main B v s w = execute B (init E.viper v) s w

  -- Where a run from `w` on may leave the cluster: its steps lead to `at`, and only when it has started
  -- without an error, the wait for a signal follows.
  abbrev pub Ended : W → W → Type 0
  Ended w w' =
      (flagged : V) × (before : Result (Unit {0})) × (phase : Phase K U L fuel E) × (at : W)
      × (run_root_cmd K U L fuel E flagged w ≡ some (before, at))
      × Reaches K U L fuel E flagged w phase at
      × (((before ≡ ok tt) × ((after : Result (Unit {0})) × (wait at ≡ some (after, w'))))
          ⊎ ((¬ IsOk before) × (w' ≡ at)))

  run_until_signal-Ended :
      (flagged : V) (w : W) {r : Result (Unit {0})} {w' : W}
      → run_until_signal flagged w ≡ some (r, w')
      → Ended w w'
  unfolding run_until_signal go_on
  run_until_signal-Ended flagged w e = go (run_root_cmd K U L fuel E flagged w) refl e
    where
      go :
          (o : Outcome W) {r : Result (Unit {0})} {w' : W}
          → run_root_cmd K U L fuel E flagged w ≡ o
          → go_on o wait ≡ some (r, w')
          → Ended w w'
      go none ran e = cc
      go (some (ok u, at)) {r} ran e =
          let (phase, reached) = run_root_cmd-Reaches K U L fuel E flagged w ran in
          (flagged, ok u, phase, at, ran, reached, inl (refl, (r, e)))
      go (some (err m, at)) ran e =
          let (phase, reached) = run_root_cmd-Reaches K U L fuel E flagged w ran in
          (flagged, err m, phase, at, ran, reached, inr ((λ h. h), sym (ap (state_of at) e)))
      go (some (abort m, at)) ran e =
          let (phase, reached) = run_root_cmd-Reaches K U L fuel E flagged w ran in
          (flagged, abort m, phase, at, ran, reached, inr ((λ h. h), sym (ap (state_of at) e)))

  ends_process-some :
      (o : Outcome W) {r : Result (Unit {0})} {w : W}
      → ends_process o ≡ some (r, w)
      → (before : Result (Unit {0})) × (o ≡ some (before, w))
  unfolding ends_process
  ends_process-some none e = cc
  ends_process-some (some (before, at)) e =
      (before, ap (λ x. some (before, x)) (ap (state_of at) e))

  -- However the program ends, with whatever arguments and environment, if cobra runs the command at most
  -- once: either the cluster is as before, as after arguments that cobra does not take or for a help, or
  -- one run has been made, with the settings that the flags have changed; if that run started without
  -- an error, the cluster is what the wait for a signal made of where its steps lead, and else it is
  -- where its steps lead.
  pub main-Ended :
      (B : Cobra V G W) (v : V) (s : LogState G) (w : W) {r : Result (Unit {0})} {w' : W}
      → RunsOnce B
      → main B v s w ≡ some (r, w')
      → (w' ≡ w) ⊎ Ended w w'
  unfolding main execute
  main-Ended B v s w once e =
      let ready = init E.viper v in
      let (before, ended) = ends_process-some (B.execute root_cmd ready s w) e in
      elim (once root_cmd ready s w) [
        | inl (message, refused) ↦ inl (ap (state_of w) (sym ended ∙ refused))
        | inr (inl helped) ↦ inl (ap (state_of w) (sym ended ∙ helped))
        | inr (inr (flagged, runs)) ↦ inr (run_until_signal-Ended flagged w (sym runs ∙ ended))
      ]
