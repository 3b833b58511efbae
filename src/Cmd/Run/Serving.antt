-- ===== src/Cmd/Run/Serving.antt =====
-- What holds when the program has started.
use kube_graffiti.Common.{ℕ, String, ◌≡◌, Option, ok, All}
use kube_graffiti.Graffiti.Libs.{Libs}
use kube_graffiti.Webhook.Server.{Server}
use kube_graffiti.Webhook.Registration.{Unicode, HookClient, WebhookConfig}
use kube_graffiti.Webhook.Registration.Replaced.{IsStore}
use kube_graffiti.Config.Validity.{IsValid}
use kube_graffiti.Healthcheck.{HealthChecker, start_health_checker}
use kube_graffiti.Cmd.Rules.{IsServed}
use kube_graffiti.Cmd.Registered.{IsRegistered}
use kube_graffiti.Cmd.Run.{Surroundings, Prepared, health_checker_of}
use kube_graffiti.Cmd.Run.Started.{loaded, Checked}
use kube_graffiti.Cmd.Run.Steps.{IsServerOf}
use kube_graffiti.Cmd.Run.Starting.{RegisterInTurn}

module _ {S V H R W : Type 0} (K : HookClient S W) (U : Unicode) (L : Libs) (fuel : ℕ)
    (E : Surroundings V H R W) (view : W → String → Option (WebhookConfig S))
    (store : IsStore K view) where
  -- What the program has done when it has started: the health checker listens at `up`; the listener of
  -- the webhook server `s`, which has the rules, started there, and then the rules were registered.
  abbrev pub HasStarted : V → W → W → Type 0
  HasStarted v w w' =
      (p : Prepared V R W) × (h : HealthChecker W) × (s : Server) × (up registered : W) × (loaded E
          L v
        ≡ ok (p.config, p.viper))
      × IsValid L p.config
      × (start_health_checker E.health_listener (health_checker_of E p) w ≡ (ok h, up))
      × IsServerOf K U L fuel E p s
      × All (IsServed L s) p.config.rules
      × RegisterInTurn K U s p.config.rules
          (E.webhook_listener.listen_and_serve_tls s (E.viper.get_string "server.cert-path" p.viper)
            (E.viper.get_string "server.key-path" p.viper) up)
          registered
      × All (IsRegistered K view store U s registered) p.config.rules
      × Checked K U L fuel E p registered w'
