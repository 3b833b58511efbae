-- ===== src/Examples/Run.antt =====
-- A start of the whole program on a configuration with one rule, and a health check.
use kube_graffiti.Common.{Halt, ◌↔◌, true, none, ◌≡◌, refl, some, [], ◌∷◌, ok, abort, IsOk, ◌<>◌}
use kube_graffiti.Decimal.{pos}
use kube_graffiti.Dict.{lookup, insert}
use kube_graffiti.Dict.Laws.{lookup-insert}
use kube_graffiti.Http.{Writer, new_writer, set_header, write_header, write_string, handle}
use kube_graffiti.Healthcheck.{
  HealthChecker, new_health_checker, start_health_checker, new_cut_down_namespace_client,
  listen_with, serve_http, report,
}
use kube_graffiti.Healthcheck.Reports.{Tells, serve_http-Tells}
use kube_graffiti.Graffiti.Matchers
use kube_graffiti.Graffiti.Payload.Validate
use kube_graffiti.Graffiti.Payload.Validate.{
  validate_additions_deletions, validate_additions_labels, validate_additions_annotations,
  validate_deletions_keys, has_template,
}
use kube_graffiti.Graffiti.Selectors.{validate_label_selector, validate_field_selector}
use kube_graffiti.Graffiti.Rule
use kube_graffiti.Webhook.PathEscape.{path_from_name, path_escape}
use kube_graffiti.Webhook.Server.{
  get_api_server_cert, config_tls, server_with, new_server, add_graffiti_rule, start_webhook_server,
}
use kube_graffiti.Webhook.Registration.{register_hook, failure_policy}
use kube_graffiti.Config.{
  Configuration, validate_config, validate_log_args, validate_webhook_args, validate_rules,
  validate_each,
}
use kube_graffiti.Config.Validity.{IsValid, validate_config_iff}
use kube_graffiti.Existing.Groups.{go_on}
use kube_graffiti.Cmd.{
  server_settings, add_rules, register_rules, register_on, unless_failed, init_webhook_server,
}
use kube_graffiti.Cmd.Run.{
  is_disabled, get_kube_clients, with_clients, health_checker_of, prepare, start_webhook,
  after_checker, run_prepared, run_root_cmd, ends_process, init_existing_check,
}
use kube_graffiti.Cmd.Run.Started.{loaded, run_root_cmd-invalid}
use kube_graffiti.Cmd.Run.Kept.{ListenersKeep, run_root_cmd-other}
use kube_graffiti.Cmd.Run.Steps.{Phase, Reaches}
use kube_graffiti.Cmd.Run.Traced.{run_root_cmd-Reaches}
use kube_graffiti.Cmd.Run.Starting.{CanStart}
use kube_graffiti.Cmd.Run.Starting.Needed.{run_root_cmd-starts_iff}
use kube_graffiti.Cmd.Settings.{text, set_defaults, load_config, unmarshal_from_viper_strict}
use kube_graffiti.Cmd.Settings.Defaults.{KeepsDefaults, name_of, key_path, set_defaults-default}
use kube_graffiti.Examples.Fixtures.{toy}
use kube_graffiti.Examples.Web.{
  World, client, stored, client_stores, ascii, empty_world, configuration,
}
use kube_graffiti.Examples.Start.{config_map, settings, listener}
use kube_graffiti.Examples.Surroundings.{healthy, Values, viper, surroundings, flags}

keeps : KeepsDefaults (viper configuration) lookup
keeps k j x v = lookup-insert (name_of k) x v (name_of j)

set_defaults-default_example :
    lookup (name_of key_path) (set_defaults (viper configuration) flags) ≡ none
unfolding lookup
set_defaults-default_example =
    set_defaults-default (viper configuration) lookup keeps key_path flags

abbrev checker : HealthChecker World
checker = new_health_checker healthy (pos 8080) "/healthz"

abbrev health_answer : Writer
health_answer = record {
  header = ("Content-Type", "application/json") ∷ [];
  sent = some (200, []);
  body = "" <> "{\"healthy\": true}";
}

answers : serve_http checker empty_world new_writer ≡ ok health_answer
unfolding serve_http report new_health_checker set_header write_header write_string insert
answers = refl

serve_http-Tells_example : Tells (checker.client.namespaces.list empty_world) health_answer
serve_http-Tells_example = serve_http-Tells checker empty_world answers

abbrev no_level : Configuration
no_level = record configuration { log_level = "loud" }

-- What viper holds when it has read its file.
abbrev read : Configuration → Values
read c = insert "server.namespace" (text "graffiti") (
    insert "server.service" (text "webhook")
      (insert "file" (text "/config") (set_defaults (viper c) flags)))

loads : (c : Configuration) → loaded (surroundings c) toy flags ≡ ok (c, read c)
unfolding load_config unmarshal_from_viper_strict lookup
loads c = refl

refused : ¬ IsOk (validate_config toy no_level)
unfolding validate_config validate_log_args lookup
refused h = h

invalid : ¬ IsValid toy no_level
invalid v = refused ((validate_config_iff toy no_level).1 v)

run_root_cmd-invalid_example :
    (m : Halt) × (run_root_cmd client ascii toy 5 (surroundings no_level) flags empty_world
      ≡ some (abort m, empty_world))
run_root_cmd-invalid_example =
    run_root_cmd-invalid client ascii toy 5 (surroundings no_level) flags empty_world
      (loads no_level) invalid

abbrev pub after : World
after =
    (init_webhook_server client ascii listener toy configuration settings (ok "ca") config_map
      empty_world).1

pub runs :
    run_root_cmd client ascii toy 5 (surroundings configuration) flags empty_world
    ≡ some (ok tt, after)
unfolding run_root_cmd run_prepared prepare with_clients after_checker start_webhook
    health_checker_of load_config unmarshal_from_viper_strict set_defaults server_settings
    get_kube_clients start_health_checker listen_with new_health_checker
    new_cut_down_namespace_client handle go_on ends_process init_existing_check start_webhook_server
    insert validate_config validate_log_args validate_webhook_args validate_rules validate_each
    Rule.validate Matchers.validate validate_label_selector validate_field_selector
    Validate.validate validate_additions_deletions validate_additions_labels validate_deletions_keys
    has_template init_webhook_server register_on add_rules add_graffiti_rule new_server server_with
    config_tls get_api_server_cert lookup register_rules unless_failed register_hook failure_policy
    path_from_name path_escape
runs = refl

run_root_cmd-Reaches_example :
    (phase : Phase client ascii toy 5 (surroundings configuration)) × Reaches client ascii toy 5
      (surroundings configuration)
      flags
      empty_world
      phase
      after
run_root_cmd-Reaches_example =
    run_root_cmd-Reaches client ascii toy 5 (surroundings configuration) flags empty_world runs

run_root_cmd-starts_iff_example :
    (run_root_cmd client ascii toy 5 (surroundings configuration) flags empty_world
      ≡ some (ok tt, after))
    ↔ CanStart client ascii toy 5 (surroundings configuration) flags empty_world after
run_root_cmd-starts_iff_example =
    run_root_cmd-starts_iff client ascii toy 5 (surroundings configuration) flags empty_world after

keep : ListenersKeep client stored client_stores ascii toy 5 (surroundings configuration)
keep = record { health = λ h w. refl; webhook = λ s cert key w. refl }

disabled : is_disabled (surroundings configuration) (read configuration) ≡ true
unfolding set_defaults lookup insert
disabled = refl

run_root_cmd-other_example : stored after "another" ≡ stored empty_world "another"
run_root_cmd-other_example =
    run_root_cmd-other client stored client_stores ascii toy 5 (surroundings configuration) keep
      flags empty_world (loads configuration) disabled "another" ((λ e. cc), tt) runs
