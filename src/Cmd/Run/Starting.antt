-- ===== src/Cmd/Run/Starting.antt =====
-- When the program starts.
pub mod Webhook
pub mod Needed
use kube_graffiti.Common.{
  ℕ, String, ◌≡◌, ◌≢◌, ◌↔◌, refl, sym, ap, subst, ◌∙◌, ◌==◌, ◌<>◌, false, Option, none, some, List,
  [], ◌∷◌, Result, ok, err, abort, ◌>>=◌, >>=-eq-ok, ok_injective, IsOk, str-cases, inl, inr,
}
use kube_graffiti.Decimal.{ℤ, format_int}
use kube_graffiti.Dict.{Dict, lookup}
use kube_graffiti.Http.{handle}
use kube_graffiti.Log.{change_log_level}
use kube_graffiti.Kubernetes.{ConfigMap, Clientset}
use kube_graffiti.Graffiti.Libs.{Libs}
use kube_graffiti.Webhook.Server.{
  Server, no_client_cert, server_with, get_api_server_cert, config_tls, new_server,
  start_webhook_server,
}
use kube_graffiti.Webhook.Registration.{Unicode, HookClient, register_hook}
use kube_graffiti.Config.{Configuration, Rule, validate_config}
use kube_graffiti.Config.Validity.{IsValid, validate_config_iff}
use kube_graffiti.Healthcheck.{HealthChecker, listen_with, new_health_checker, start_health_checker}
use kube_graffiti.Existing.Groups.{Outcome, go_on, apply_rules_against_existing_objects}
use kube_graffiti.Existing.Discovery.{Kube, init_kube_clients}
use kube_graffiti.Cmd.Settings.{or_end}
use kube_graffiti.Cmd.{
  server_settings, add_rules, unless_failed, register_rules, register_on, init_webhook_server,
}
use kube_graffiti.Cmd.Rules.{add_rules-Adds, new_server-IsFree}
use kube_graffiti.Cmd.Run.{
  Surroundings, Prepared, get_kube_clients, with_clients, health_checker_of, is_disabled, prepare,
  apply_rules_on, init_existing_check, start_webhook, after_checker, ends_process, run_prepared,
  run_root_cmd,
}
use kube_graffiti.Cmd.Run.Started.{loaded, Checked}
use kube_graffiti.Cmd.Run.Steps.{new_server_of, IsServerOf}

new_server-made :
    (cd ns svc ca : String) (port : ℤ) {k : ConfigMap} {entries : Dict String} {pem : String}
    → k ≡ ok entries
    → lookup "requestheader-client-ca-file" entries ≡ some pem
    → (s : Server) × (new_server cd ns svc ca k port ≡ ok s)
unfolding new_server config_tls get_api_server_cert
new_server-made cd ns svc ca port {pem = pem} has_map has_ca = (
  server_with cd ns svc ca (":" <> format_int port) (record {
    client_cas = pem ∷ [];
    client_auth = no_client_cert;
    next_protos = "http/1.1" ∷ [];
  }),
  rw (has_map, get_api_server_cert, has_ca) refl,
)

module _ {S W : Type 0} (K : HookClient S W) (U : Unicode) (s : Server) where
  -- Every rule is registered without an error, one after the other.
  pub data RegisterInTurn : List Rule → W → W → Type 0 where
    all_done : {w : W} → RegisterInTurn [] w w
    one_more :
        {rule : Rule} {rules : List Rule} {w at w' : W}
        → register_hook K U s rule.registration w ≡ (ok tt, at)
        → RegisterInTurn rules at w'
        → RegisterInTurn (rule ∷ rules) w w'

  register_rules-in_turn :
      {rules : List Rule} {w w' : W}
      → RegisterInTurn rules w w'
      → register_rules K U s rules w ≡ (ok tt, w')
  unfolding register_rules unless_failed
  register_rules-in_turn all_done = refl
  register_rules-in_turn (one_more e h) = rw e (register_rules-in_turn h)

module _ {S V H R W : Type 0} (K : HookClient S W) (U : Unicode) (L : Libs) (fuel : ℕ)
    (E : Surroundings V H R W) where
  abbrev pub prepared_of : Configuration → V → Clientset W → R → Prepared V R W
  prepared_of c read client rest = record {
    config = c;
    viper = read;
    level = change_log_level (E.viper.get_string "log-level" read);
    kube_client = client;
    rest_config = rest;
  }

  -- The cluster when the two servers listen.
  abbrev pub listening : Prepared V R W → Server → W → W
  listening p s w =
      let checker = health_checker_of E p in
      let st = server_settings E.viper p.viper in
      start_webhook_server E.webhook_listener s st.cert_path st.key_path
        (E.health_listener.listen_and_serve (record checker { patterns = checker.path ∷ [] }) w)

  -- What the program needs to start, and the cluster that it leaves.
  pub record CanStart (v : V) (w w' : W) : Type 0 where
    pub config : Configuration
    pub read : V
    pub loads : loaded E L v ≡ ok (config, read)
    pub valid : IsValid L config
    pub rest_config : R
    pub in_cluster : E.in_cluster_config ≡ ok rest_config
    pub client : Clientset W
    pub connects : E.new_for_config rest_config ≡ ok client
    pub path_given : E.viper.get_string "health-checker.path" read ≢ ""
    pub ca : String
    pub ca_there : E.read_file (E.viper.get_string "server.ca-cert-path" read) ≡ ok ca
    pub entries : Dict String
    pub has_map : client.config_map ≡ ok entries
    pub pem : String
    pub has_ca : lookup "requestheader-client-ca-file" entries ≡ some pem
    pub registered : W
    pub registers :
        (s : Server)
        → IsServerOf K U L fuel E (prepared_of config read client rest_config) s
        → RegisterInTurn K U s config.rules
            (listening (prepared_of config read client rest_config) s w)
            registered
    pub checked : Checked K U L fuel E (prepared_of config read client rest_config) registered w'

  prepare-ok :
      (v : V) {c : Configuration} {read : V} {client : Clientset W} {rest : R}
      → loaded E L v ≡ ok (c, read)
      → IsValid L c
      → E.in_cluster_config ≡ ok rest
      → E.new_for_config rest ≡ ok client
      → prepare E L v ≡ ok (prepared_of c read client rest)
  unfolding prepare with_clients get_kube_clients
  prepare-ok v {c} loads valid inside connects =
      let checks = is_ok (validate_config L c) ((validate_config_iff L c).1 valid) in
      rw (loads, checks, inside, connects) refl
    where
      is_ok : (r : Result (Unit {0})) → IsOk r → r ≡ ok tt
      is_ok (ok u) h = refl
      is_ok (err e) h = absurd h
      is_ok (abort e) h = absurd h

  module _ (p : Prepared V R W) where
    -- The server of the settings is made, and takes all rules of a valid configuration.
    pub server-IsServerOf :
        {ca pem : String} {entries : Dict String}
        → IsValid L p.config
        → E.read_file (E.viper.get_string "server.ca-cert-path" p.viper) ≡ ok ca
        → p.kube_client.config_map ≡ ok entries
        → lookup "requestheader-client-ca-file" entries ≡ some pem
        → (s : Server) × IsServerOf K U L fuel E p s
    unfolding server_settings
    server-IsServerOf {ca} valid there has_map has_ca =
        let st = server_settings E.viper p.viper in
        let (new, made) =
          new_server-made st.company_domain st.namespace st.service ca st.port has_map has_ca in
        let (s, added, served, kept) = add_rules-Adds L new p.config.rules valid.own_names (
          new_server-IsFree L st.company_domain st.namespace st.service ca p.kube_client.config_map
            st.port p.config.rules made) in
        (s, (ca, there, rw made added))

    pub start_webhook-ok :
        (s : Server) (w : W) {registered : W}
        → IsServerOf K U L fuel E p s
        → RegisterInTurn K U s p.config.rules
            (start_webhook_server E.webhook_listener s
              (server_settings E.viper p.viper).cert_path
              (server_settings E.viper p.viper).key_path
              w)
            registered
        → start_webhook K U L fuel E p w ≡ (ok tt, registered)
    unfolding start_webhook init_webhook_server register_on
    start_webhook-ok s w (ca, there, made) h = rw (there, made) (register_rules-in_turn K U s h)

    init_existing_check-ok :
        {w w' : W}
        → Checked K U L fuel E p w w'
        → init_existing_check K U L fuel E p w ≡ some (ok tt, w')
    unfolding init_existing_check apply_rules_on
    init_existing_check-ok (inl (off, same)) = rw (off, same) refl
    init_existing_check-ok (inr (on, (kube, made, applied))) = rw (on, made) applied

    pub start_health_checker-ok :
        (w : W)
        → E.viper.get_string "health-checker.path" p.viper ≢ ""
        → start_health_checker E.health_listener (health_checker_of E p) w ≡ (
          ok (record (health_checker_of E p) { patterns = (health_checker_of E p).path ∷ [] }),
          E.health_listener.listen_and_serve
              (record (health_checker_of E p) { patterns = (health_checker_of E p).path ∷ [] })
              w,
        )
    unfolding start_health_checker listen_with health_checker_of new_health_checker handle
    start_health_checker-ok w given =
        elim (str-cases (E.viper.get_string "health-checker.path" p.viper) "") [
          | inl empty ↦ absurd (given empty)
          | inr test ↦ rw test refl
        ]

  pub CanStart-starts :
      (v : V) {w w' : W} → CanStart v w w' → run_root_cmd K U L fuel E v w ≡ some (ok tt, w')
  unfolding run_root_cmd run_prepared after_checker ends_process go_on
  CanStart-starts v {w} {w'} can =
      let p = prepared_of can.config can.read can.client can.rest_config in
      let (s, is_server) = server-IsServerOf p can.valid can.ca_there can.has_map can.has_ca in
      rw
        (
          prepare-ok v can.loads can.valid can.in_cluster can.connects,
          start_health_checker-ok p w can.path_given,
          start_webhook-ok p s _ is_server (can.registers s is_server),
          init_existing_check-ok p can.checked,
        )
        refl
