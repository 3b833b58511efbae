-- ===== src/Cmd/Run/Traced.antt =====
-- However a run of the program ends, its steps lead there.
use kube_graffiti.Common.{
  ℕ, String, ◌≡◌, refl, ap, subst, false, Bool-cases, inl, inr, none, some, List, [], ◌∷◌, Result,
  ok, err, abort, ◌>>=◌,
}
use kube_graffiti.Http.{handle}
use kube_graffiti.Graffiti.Libs.{Libs}
use kube_graffiti.Webhook.Server.{Server, start_webhook_server}
use kube_graffiti.Webhook.Registration.{Unicode, HookClient, register_hook}
use kube_graffiti.Config.{Rule}
use kube_graffiti.Healthcheck.{listen_with, new_health_checker, start_health_checker}
use kube_graffiti.Existing.Groups.{Outcome, go_on, apply_rules_against_existing_objects}
use kube_graffiti.Existing.Groups.Confined.{apply_rules_against_existing_objects-MakesCalls}
use kube_graffiti.Existing.Discovery.{Kube, init_kube_clients}
use kube_graffiti.Cmd.{
  server_settings, add_rules, unless_failed, register_rules, register_on, init_webhook_server,
}
use kube_graffiti.Cmd.Run.{
  Surroundings, Prepared, health_checker_of, is_disabled, prepare, apply_rules_on,
  init_existing_check, start_webhook, after_checker, ends_process, run_prepared, run_root_cmd,
}
use kube_graffiti.Cmd.Run.Steps.{
  Phase, untouched, healthy, serving, over, new_server_of, Reaches, begins, health_listens,
  webhook_listens, registers, fails, checks,
}

module _ {S V H R W : Type 0} (K : HookClient S W) (U : Unicode) (L : Libs) (fuel : ℕ)
    (E : Surroundings V H R W) where
  module _ (v : V) (start : W) where
    abbrev Reached : Phase K U L fuel E → W → Type 0
    Reached = Reaches K U L fuel E v start

    abbrev Somewhere : W → Type 0
    Somewhere w = (phase : Phase K U L fuel E) × Reaches K U L fuel E v start phase w

    -- Where an outcome leaves the cluster.
    abbrev Leaves : Outcome W → Type 0
    Leaves none = Unit
    Leaves (some (r, w)) = Somewhere w

    ends_process-Leaves : (o : Outcome W) → Leaves o → Leaves (ends_process o)
    unfolding ends_process
    ends_process-Leaves none h = tt
    ends_process-Leaves (some (r, w)) h = h

    module _ (p : Prepared V R W) (s : Server) where
      -- The registrations, after which all rules are registered if there was no error.
      abbrev Registers : Result (Unit {0}) × W → Type 0
      Registers (ok u, w) = Reached (serving p s []) w
      Registers (err e, w) = Somewhere w
      Registers (abort e, w) = Somewhere w

      after-Registers :
          (rule : Rule) (rest : List Rule) (w : W) (r : Result (Unit {0}) × W)
          → register_hook K U s rule.registration w ≡ r
          → Reached (serving p s (rule ∷ rest)) w
          → ((w' : W) → Reached (serving p s rest) w' → Registers (register_rules K U s rest w'))
          → Registers (unless_failed K U r (λ w'. register_rules K U s rest w'))
      unfolding unless_failed
      after-Registers rule rest w (ok u, w') e h later = later w' (registers e h)
      after-Registers rule rest w (err m, w') e h later =
          (over, subst (Reached over) (ap (λ x. x.1) e) (fails h))
      after-Registers rule rest w (abort m, w') e h later =
          (over, subst (Reached over) (ap (λ x. x.1) e) (fails h))

      register_rules-Registers :
          (rules : List Rule) (w : W)
          → Reached (serving p s rules) w
          → Registers (register_rules K U s rules w)
      unfolding register_rules
      register_rules-Registers [] w h = h
      register_rules-Registers (rule ∷ rest) w h =
          after-Registers rule rest w _ refl h (register_rules-Registers rest)

      applied-Leaves :
          (kube : Kube W) (w : W) (o : Outcome W)
          → is_disabled E p.viper ≡ false
          → init_kube_clients (E.clients p.rest_config) ≡ ok kube
          → apply_rules_against_existing_objects kube.dynamic L kube.namespace_cache kube.discovered
              fuel kube.reflector p.config.rules w
            ≡ o
          → Reached (serving p s []) w
          → Leaves o
      applied-Leaves kube w none on made e h = tt
      applied-Leaves kube w (some (r, w')) on made e h = (
        over,
        checks kube r on made
            (apply_rules_against_existing_objects-MakesCalls kube.dynamic L kube.namespace_cache
              kube.discovered fuel p.config.rules kube.reflector w e)
            h,
      )

      apply_rules_on-Leaves :
          (r : Result (Kube W)) (w : W)
          → is_disabled E p.viper ≡ false
          → init_kube_clients (E.clients p.rest_config) ≡ r
          → Reached (serving p s []) w
          → Leaves (apply_rules_on L fuel r p.config w)
      unfolding apply_rules_on
      apply_rules_on-Leaves (ok kube) w on made h = applied-Leaves kube w _ on made refl h
      apply_rules_on-Leaves (err e) w on made h = (serving p s [], h)
      apply_rules_on-Leaves (abort e) w on made h = (serving p s [], h)

      init_existing_check-Leaves :
          (w : W) → Reached (serving p s []) w → Leaves (init_existing_check K U L fuel E p w)
      unfolding init_existing_check
      init_existing_check-Leaves w h = elim (Bool-cases (is_disabled E p.viper)) [
        | inl off ↦ rw off (serving p s [], h)
        | inr on ↦ rw on (apply_rules_on-Leaves _ w on refl h)
      ]

      -- What follows the registrations.
      registered-Leaves :
          (r : Result (Unit {0}) × W)
          → Registers r
          → Leaves (
              go_on
                (ends_process (some r))
                (λ w'. ends_process (init_existing_check K U L fuel E p w')))
      unfolding go_on ends_process
      registered-Leaves (ok u, w) h = ends_process-Leaves _ (init_existing_check-Leaves w h)
      registered-Leaves (err e, w) h = h
      registered-Leaves (abort e, w) h = h

    module _ (p : Prepared V R W) where
      -- The rest of the run behind the start of the webhook server.
      abbrev rest_of : Result (Unit {0}) × W → Outcome W
      rest_of r =
          go_on (ends_process (some r)) (λ w'. ends_process (init_existing_check K U L fuel E p w'))

      served-Leaves :
          (ca : String) (made : Result Server) (w : W)
          → E.read_file (server_settings E.viper p.viper).ca_cert_path ≡ ok ca
          → (new_server_of K U L fuel E p ca >>= λ new. add_rules L new p.config.rules) ≡ made
          → Reached (healthy p) w
          → Leaves (
              rest_of (
                register_on K U E.webhook_listener
                  (server_settings E.viper p.viper)
                  made
                  p.config.rules
                  w))
      unfolding register_on go_on ends_process start_webhook_server server_settings
      served-Leaves ca (ok s) w read e h =
          registered-Leaves p s _
            (register_rules-Registers p s p.config.rules _ (webhook_listens (ca, read, e) h))
      served-Leaves ca (err m) w read e h = (healthy p, h)
      served-Leaves ca (abort m) w read e h = (healthy p, h)

      start_webhook-Leaves :
          (ca : Result String) (w : W)
          → E.read_file (server_settings E.viper p.viper).ca_cert_path ≡ ca
          → Reached (healthy p) w
          → Leaves (
              rest_of (
                init_webhook_server K U E.webhook_listener L p.config
                  (server_settings E.viper p.viper)
                  ca
                  p.kube_client.config_map
                  w))
      unfolding init_webhook_server go_on ends_process
      start_webhook-Leaves (ok ca) w read h = served-Leaves ca _ w read refl h
      start_webhook-Leaves (err m) w read h = (healthy p, h)
      start_webhook-Leaves (abort m) w read h = (healthy p, h)

      after_checker-Leaves :
          (handled : Result (List String))
          → handle [] (health_checker_of E p).path ≡ handled
          → prepare E L v ≡ ok p
          → Leaves (
              after_checker K U L fuel E p
                (listen_with E.health_listener (health_checker_of E p) handled start))
      unfolding after_checker listen_with start_webhook
      after_checker-Leaves (ok patterns) routed prepared =
          start_webhook-Leaves _ _ refl (health_listens patterns prepared routed)
      after_checker-Leaves (err m) routed prepared = (untouched, begins)
      after_checker-Leaves (abort m) routed prepared = (untouched, begins)

    run_prepared-Leaves :
        (r : Result (Prepared V R W))
        → prepare E L v ≡ r
        → Leaves (run_prepared K U L fuel E r start)
    unfolding run_prepared start_health_checker health_checker_of new_health_checker
    run_prepared-Leaves (ok p) prepared = after_checker-Leaves p _ refl prepared
    run_prepared-Leaves (err m) prepared = (untouched, begins)
    run_prepared-Leaves (abort m) prepared = (untouched, begins)

    -- However a run of the program ends, with an error and a panic too, the cluster is where its steps
    -- lead, in this order: the health checker listens, for a configuration that was prepared; the
    -- webhook server listens, with the certificate and the key of the settings, when every rule has
    -- been added to it; the rules are registered one after the other, and a registration that fails is
    -- the last step; and only when all have succeeded, and the settings ask for it, the calls of the
    -- check of existing objects are made.
    pub run_root_cmd-Reaches :
        {r : Result (Unit {0})} {w : W}
        → run_root_cmd K U L fuel E v start ≡ some (r, w)
        → (phase : Phase K U L fuel E) × Reaches K U L fuel E v start phase w
    unfolding run_root_cmd
    run_root_cmd-Reaches e = subst Leaves e (run_prepared-Leaves (prepare E L v) refl)
