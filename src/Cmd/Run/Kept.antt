-- ===== src/Cmd/Run/Kept.antt =====
-- What a run of the program leaves alone in the API server.
use kube_graffiti.Common.{
  ℕ, String, ◌≡◌, refl, sym, ap, subst, ◌∙◌, true, Option, some, Result, ok, ok_injective,
}
use kube_graffiti.Graffiti.Libs.{Libs}
use kube_graffiti.Webhook.Server.{Server}
use kube_graffiti.Webhook.Registration.{Unicode, HookClient, WebhookConfig}
use kube_graffiti.Webhook.Registration.Replaced.{IsStore, register_hook-other}
use kube_graffiti.Config.{Configuration}
use kube_graffiti.Healthcheck.{HealthChecker}
use kube_graffiti.Cmd.Partial.{AreOther}
use kube_graffiti.Cmd.Run.{Surroundings, Prepared, is_disabled, prepare, run_root_cmd}
use kube_graffiti.Cmd.Run.Started.{loaded, prepare-IsValid}
use kube_graffiti.Cmd.Run.Steps.{
  Phase, untouched, healthy, serving, over, Reaches, begins, health_listens, webhook_listens,
  registers, fails, checks,
}
use kube_graffiti.Cmd.Run.Traced.{run_root_cmd-Reaches}

module _ {S V H R W : Type 0} (K : HookClient S W) (view : W → String → Option (WebhookConfig S))
    (store : IsStore K view) (U : Unicode) (L : Libs) (fuel : ℕ) (E : Surroundings V H R W) where
  -- The start of a listener changes no configuration in the API server.
  pub record ListenersKeep : Type 0 where
    pub health :
        (h : HealthChecker W) (w : W) → view (E.health_listener.listen_and_serve h w) ≡ view w
    pub webhook :
        (s : Server) (cert key : String) (w : W)
        → view (E.webhook_listener.listen_and_serve_tls s cert key w) ≡ view w

  module _ (keeps : ListenersKeep) (v : V) (start : W) {c : Configuration} {read : V}
      (loads : loaded E L v ≡ ok (c, read)) (off : is_disabled E read ≡ true) (j : String)
      (others : AreOther j c.rules) where
    abbrev Same : W → Type 0
    Same w = view w j ≡ view start j

    abbrev HasRead : Prepared V R W → Type 0
    HasRead p = (p.config ≡ c) × (p.viper ≡ read)

    abbrev Good : Phase K U L fuel E → W → Type 0
    Good untouched w = Same w
    Good (healthy p) w = Same w × HasRead p
    Good (serving p s rest) w = Same w × HasRead p × AreOther j rest
    Good over w = Same w

    prepare-HasRead : {p : Prepared V R W} → prepare E L v ≡ ok p → HasRead p
    prepare-HasRead e =
        let (found, valid) = prepare-IsValid E L v e in
        let same = ok_injective (sym found ∙ loads) in (ap (λ x. x.0) same, ap (λ x. x.1) same)

    Reaches-Good :
        {phase : Phase K U L fuel E} {w : W} → Reaches K U L fuel E v start phase w → Good phase w
    Reaches-Good begins = refl
    Reaches-Good (health_listens patterns prepared routed) =
        (ap (λ f. f j) (keeps.health _ start), prepare-HasRead prepared)
    Reaches-Good (webhook_listens {w = w} is_server before) =
        let (same, has_read) = Reaches-Good before in
        (
          ap (λ f. f j) (keeps.webhook _ _ _ w) ∙ same,
          has_read,
          subst (λ (x : Configuration). AreOther j x.rules) (sym has_read.0) others,
        )
    Reaches-Good (registers {s = s} {rule} {w = w} step before) =
        let (same, has_read, (differ, rest)) = Reaches-Good before in
        (
          ap (λ r. view r.1 j) (sym step)
              ∙ register_hook-other K view store U s rule.registration w j differ
              ∙ same,
          has_read,
          rest,
        )
    Reaches-Good (fails {s = s} {rule} {w = w} before) =
        let (same, has_read, (differ, rest)) = Reaches-Good before in
        register_hook-other K view store U s rule.registration w j differ ∙ same
    Reaches-Good (checks kube r on made calls before) =
        let (same, has_read, none_left) = Reaches-Good before in
        let e = ap (is_disabled E) (sym has_read.1) in absurd (cc)

    Good-Same : (phase : Phase K U L fuel E) {w : W} → Good phase w → Same w
    Good-Same untouched h = h
    Good-Same (healthy p) h = h.0
    Good-Same (serving p s rest) h = h.0
    Good-Same over h = h

    -- However a run ends whose settings disable the check of existing objects, the API server holds the
    -- same as before under every name that no rule of the configuration has, provided that the start of
    -- a listener changes none of its configurations.
    pub run_root_cmd-other :
        {r : Result (Unit {0})} {w : W}
        → run_root_cmd K U L fuel E v start ≡ some (r, w)
        → view w j ≡ view start j
    run_root_cmd-other e =
        let (phase, reached) = run_root_cmd-Reaches K U L fuel E v start e in
        Good-Same phase (Reaches-Good reached)
