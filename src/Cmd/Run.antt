-- ===== src/Cmd/Run.antt =====
-- cmd/command.go: the order of the program's start, from the configuration to the check of existing
-- objects.
pub mod Started
pub mod Steps
pub mod Traced
pub mod Kept
pub mod Serving
pub mod Starting
use kube_graffiti.Common.{
  panics, exits, ℕ, String, Bool, not, ◌||◌, ◌==◌, Option, none, some, List, Result, ok, err, abort,
  ◌>>=◌, ◌>>◌, if◌then◌else◌,
}
use kube_graffiti.Log.{Level, Zerolog, LogState, init_logger, change_log_level}
use kube_graffiti.Kubernetes.{Clientset}
use kube_graffiti.Graffiti.Libs.{Libs}
use kube_graffiti.Webhook.Server.{WebhookListener}
use kube_graffiti.Webhook.Registration.{Unicode, HookClient}
use kube_graffiti.Config.{Configuration, validate_config}
use kube_graffiti.Healthcheck.{
  HealthChecker, HealthListener, new_cut_down_namespace_client, new_health_checker,
  start_health_checker,
}
use kube_graffiti.Existing.Groups.{Outcome, go_on, apply_rules_against_existing_objects}
use kube_graffiti.Existing.Discovery.{Clients, Kube, init_kube_clients}
use kube_graffiti.Cmd.Settings.{Viper, Mapstructure, or_end, fatal, load_config}
use kube_graffiti.Cmd.{server_settings, init_webhook_server}

-- What the program finds around it: viper and mapstructure, the configuration `R` of the clients, which
-- the cluster gives, the clients that are made from it, the files, and the start of the listeners.
pub record Surroundings (V H R W : Type 0) : Type 0 where
  pub viper : Viper V H
  pub mapstructure : Mapstructure H
  pub in_cluster_config : Result R
  pub new_for_config : R → Result (Clientset W)
  pub clients : R → Clients W
  pub read_file : String → Result String
  pub health_listener : HealthListener W
  pub webhook_listener : WebhookListener W

-- What stands when the servers start.
pub record Prepared (V R W : Type 0) : Type 0 where
  pub config : Configuration
  pub viper : V
  pub level : Level
  pub kube_client : Clientset W
  pub rest_config : R

module _ {V H R W : Type 0} (E : Surroundings V H R W) where
  unfoldable pub get_kube_clients : Result (Clientset W × R)
  get_kube_clients = do
    config ← or_end panics E.in_cluster_config
    client ← or_end panics (E.new_for_config config)
    ok (client, config)

  -- The logger, before the command runs.
  unfoldable pub init_root_cmd : {G : Type 0} → Zerolog G → V → LogState G → LogState G
  init_root_cmd Z v s = init_logger Z (E.viper.get_string "log-level" v) s

  -- The health checker that the settings ask for.
  unfoldable pub health_checker_of : Prepared V R W → HealthChecker W
  health_checker_of p =
      new_health_checker (new_cut_down_namespace_client p.kube_client)
        (E.viper.get_int "health-checker.port" p.viper)
        (E.viper.get_string "health-checker.path" p.viper)

  -- Whether the check of existing objects is disabled.
  abbrev pub is_disabled : V → Bool
  is_disabled v =
      not (E.viper.is_set "check-existing" v)
      || not (E.viper.get_string "check-existing" v == "true")

  -- The clients, for a configuration that is valid.
  unfoldable pub with_clients : Configuration → V → Result (Prepared V R W)
  with_clients config v = do
    clients ← get_kube_clients
    ok (record {
      config = config;
      viper = v;
      level = change_log_level (E.viper.get_string "log-level" v);
      kube_client = clients.0;
      rest_config = clients.1;
    })

  -- The part of runRootCmd before the servers, which changes nothing in the cluster.
  unfoldable pub prepare : Libs → V → Result (Prepared V R W)
  prepare L v = do
    loaded ←
        or_end (fatal "failed to load config")
          (load_config E.viper E.mapstructure (E.viper.get_string "config" v) v)
    or_end (fatal "failed to validate config") (validate_config L loaded.0)
    with_clients loaded.0 loaded.1

module _ {W : Type 0} where
  -- An error that the caller logs at level Fatal.
  unfoldable pub ends_process : Outcome W → Outcome W
  ends_process none = none
  ends_process (some (r, w)) = some (or_end exits r, w)

  -- What follows the set-up of the clients.
  unfoldable pub apply_rules_on : Libs → ℕ → Result (Kube W) → Configuration → W → Outcome W
  apply_rules_on L fuel (ok kube) c w =
      apply_rules_against_existing_objects kube.dynamic L kube.namespace_cache kube.discovered fuel
        kube.reflector c.rules w
  apply_rules_on L fuel (err e) c w = some (err e, w)
  apply_rules_on L fuel (abort e) c w = some (abort e, w)

module _ {S V H R W : Type 0} (K : HookClient S W) (U : Unicode) (L : Libs) (fuel : ℕ)
    (E : Surroundings V H R W) where
  unfoldable pub init_existing_check : Prepared V R W → W → Outcome W
  init_existing_check p w =
      if is_disabled E p.viper
      then some (ok tt, w)
      else apply_rules_on L fuel (init_kube_clients (E.clients p.rest_config)) p.config w

  unfoldable pub start_webhook : Prepared V R W → W → Result (Unit {0}) × W
  start_webhook p w =
      let st = server_settings E.viper p.viper in
      init_webhook_server K U E.webhook_listener L p.config st (E.read_file st.ca_cert_path)
        p.kube_client.config_map w

  -- What follows the start of the health checker, which panics on an empty path.
  unfoldable pub after_checker : Prepared V R W → Result (HealthChecker W) × W → Outcome W
  after_checker p (ok h, w) =
      go_on (ends_process (some (start_webhook p w)))
        (λ w'. ends_process (init_existing_check p w'))
  after_checker p (err e, w) = some (err e, w)
  after_checker p (abort e, w) = some (abort e, w)

  unfoldable pub run_prepared : Result (Prepared V R W) → W → Outcome W
  run_prepared (ok p) w =
      after_checker p (start_health_checker E.health_listener (health_checker_of E p) w)
  run_prepared (err e) w = some (err e, w)
  run_prepared (abort e) w = some (abort e, w)

  unfoldable pub run_root_cmd : V → W → Outcome W
  run_root_cmd v w = run_prepared (prepare E L v) w
