-- ===== src/Cmd/Run/Starting/Needed.antt =====
-- What a start that succeeded must have had.
use kube_graffiti.Common.{
  panics, eq_iff, ℕ, String, ◌≡◌, ◌≢◌, ◌↔◌, refl, sym, ap, subst, ◌∙◌, none, some, [], ◌∷◌, Result,
  ok, err, abort, >>=-eq-ok, ok_injective,
}
use kube_graffiti.Http.{handle}
use kube_graffiti.Graffiti.Libs.{Libs}
use kube_graffiti.Webhook.Server.{Server}
use kube_graffiti.Webhook.Registration.{Unicode, HookClient}
use kube_graffiti.Config.{Configuration, validate_config}
use kube_graffiti.Healthcheck.{
  new_cut_down_namespace_client, HealthChecker, listen_with, new_health_checker,
  start_health_checker,
}
use kube_graffiti.Existing.Groups.{Outcome, result_of}
use kube_graffiti.Cmd.{server_settings}
use kube_graffiti.Cmd.Run.{
  Surroundings, Prepared, get_kube_clients, with_clients, health_checker_of, prepare, start_webhook,
  after_checker, run_prepared, run_root_cmd, init_existing_check,
}
use kube_graffiti.Cmd.Run.Started.{
  loaded, or_end-eq-ok, go_on-ok, ends_process-ok, init_existing_check-Checked, prepare-IsValid,
}
use kube_graffiti.Cmd.Run.Steps.{new_server_of}
use kube_graffiti.Cmd.Run.Starting.{
  RegisterInTurn, prepared_of, CanStart, CanStart-starts, start_health_checker-ok, listening,
}
use kube_graffiti.Cmd.Settings.{or_end, fatal}
use kube_graffiti.Cmd.Run.Starting.Webhook.{init_webhook_server-parts, new_server_of-found}

-- The result and the state of an outcome.
abbrev held : {W : Type 0} → Result (Unit {0}) × W → Outcome W → Result (Unit {0}) × W
held r none = r
held r (some x) = x

module _ {S V H R W : Type 0} (K : HookClient S W) (U : Unicode) (L : Libs) (fuel : ℕ)
    (E : Surroundings V H R W) where
  module _ (p : Prepared V R W) where
    start_health_checker-aborts :
        (w : W)
        → E.viper.get_string "health-checker.path" p.viper ≡ ""
        → (m : String) × (start_health_checker E.health_listener (health_checker_of E p) w
            ≡ (abort (panics m), w))
    unfolding start_health_checker listen_with health_checker_of new_health_checker handle
    start_health_checker-aborts w empty = ("http: invalid pattern", rw ((eq_iff _ "").1 empty) refl)

    -- What a run that succeeds has done behind the start of the health checker.
    abbrev Continues : W → W → Type 0
    Continues w w' =
        (registered : W) × (start_webhook K U L fuel E p w ≡ (ok tt, registered))
        × (init_existing_check K U L fuel E p registered ≡ some (ok tt, w'))

    after_checker-Continues :
        (h : HealthChecker W) (w : W) {w' : W}
        → after_checker K U L fuel E p (ok h, w) ≡ some (ok tt, w')
        → Continues w w'
    unfolding after_checker
    after_checker-Continues h w e =
        let (registered, first, second) = go_on-ok _ _ e in
        (
          registered,
          ap (held (start_webhook K U L fuel E p w)) (ends_process-ok _ first),
          ends_process-ok _ second,
        )

    after_checker-parts :
        (w : W) {w' : W}
        → after_checker K U L fuel E p
            (start_health_checker E.health_listener (health_checker_of E p) w)
          ≡ some (ok tt, w')
        → (E.viper.get_string "health-checker.path" p.viper ≢ "")
          × Continues
              (E.health_listener.listen_and_serve
                (record (health_checker_of E p) { patterns = (health_checker_of E p).path ∷ [] })
                w)
              w'
    unfolding after_checker
    after_checker-parts w e =
        let given : E.viper.get_string "health-checker.path" p.viper ≢ "" = λ empty.
          let (m, aborts) = start_health_checker-aborts w empty in
          let h = ap result_of (rw aborts at e) in cc in
        let checker = health_checker_of E p in
        (
          given,
          after_checker-Continues (record checker { patterns = checker.path ∷ [] }) _
              (rw (start_health_checker-ok K U L fuel E p w given) at e),
        )

  -- The clients of what is prepared.
  abbrev ArePartsOf : Prepared V R W → Type 0
  ArePartsOf p =
      (E.in_cluster_config ≡ ok p.rest_config) × (E.new_for_config p.rest_config ≡ ok p.kube_client)

  with_clients-parts :
      (c : Configuration) (read : V) {p : Prepared V R W}
      → with_clients E c read ≡ ok p
      → ArePartsOf p
  unfolding with_clients get_kube_clients
  with_clients-parts c read {p} e =
      let (clients, got, final) = >>=-eq-ok (get_kube_clients E) _ e in
      let (r, inside, rest) = >>=-eq-ok (or_end panics E.in_cluster_config) _ got in
      let (client, connects, both) = >>=-eq-ok (or_end panics (E.new_for_config r)) _ rest in
      subst ArePartsOf (ok_injective final) (
        subst (λ x. ArePartsOf (prepared_of K U L fuel E c read x.0 x.1)) (ok_injective both)
          (or_end-eq-ok _ _ inside, or_end-eq-ok _ _ connects))

  prepare-parts : (v : V) {p : Prepared V R W} → prepare E L v ≡ ok p → ArePartsOf p
  unfolding prepare
  prepare-parts v e =
      let (l, loads, rest) =
        >>=-eq-ok (or_end (fatal "failed to load config") (loaded E L v)) _ e in
      let (u, checks, final) =
        >>=-eq-ok (or_end (fatal "failed to validate config") (validate_config L l.0)) _ rest in
      with_clients-parts l.0 l.1 final

  pub CanStart-needed :
      (v : V) {w w' : W}
      → run_root_cmd K U L fuel E v w ≡ some (ok tt, w')
      → CanStart K U L fuel E v w w'
  unfolding run_root_cmd run_prepared start_webhook server_settings health_checker_of
      new_health_checker new_cut_down_namespace_client
  CanStart-needed v {w} {w'} e = go (prepare E L v) refl e
    where
      same_server : {r : Result Server} {s : Server} (s' : Server) → r ≡ ok s → r ≡ ok s' → s ≡ s'
      same_server s' one other = ok_injective (sym one ∙ other)

      go :
          (r : Result (Prepared V R W))
          → prepare E L v ≡ r
          → run_prepared K U L fuel E r w ≡ some (ok tt, w')
          → CanStart K U L fuel E v w w'
      go (err m) prepared h = let k = ap result_of h in cc
      go (abort m) prepared h = let k = ap result_of h in cc
      go (ok p) prepared h =
          let (loads, valid) = prepare-IsValid E L v prepared in
          let (inside, connects) = prepare-parts v prepared in
          let (given, behind) = after_checker-parts p w h in
          let (registered, started, checked) = behind in
          let (ca, s, there, made, in_turn) =
            init_webhook_server-parts K U L fuel E p _ _ started in
          let (new, new_made, added) = >>=-eq-ok (new_server_of K U L fuel E p ca) _ made in
          let (entries, pem, has_map, has_ca) = new_server_of-found K U L fuel E p ca new_made in
          record {
            config = p.config;
            read = p.viper;
            loads = loads;
            valid = valid;
            rest_config = p.rest_config;
            in_cluster = inside;
            client = p.kube_client;
            connects = connects;
            path_given = given;
            ca = ca;
            ca_there = there;
            entries = entries;
            has_map = has_map;
            pem = pem;
            has_ca = has_ca;
            registered = registered;
            registers = λ s' (ca', there', made').
                subst
                  (λ x.
                    RegisterInTurn K U x p.config.rules (listening K U L fuel E p x w) registered)
                  (same_server s' made (rw (ok_injective (sym there ∙ there')) made')) in_turn;
            checked = init_existing_check-Checked K U L fuel E p registered checked;
          }

  -- The program starts, without an error or a panic, and leaves the cluster as `w'`, exactly when it has
  -- what it needs: a configuration that loads and is valid, the clients, a path for the health checker,
  -- the file of the certificate and the config map's entry, registrations that succeed one after the
  -- other on the cluster where the two servers listen, and then a check of existing objects that
  -- succeeds and leads to `w'`, or is disabled.
  pub run_root_cmd-starts_iff :
      (v : V) (w w' : W)
      → (run_root_cmd K U L fuel E v w ≡ some (ok tt, w')) ↔ CanStart K U L fuel E v w w'
  run_root_cmd-starts_iff v w w' = (CanStart-needed v, CanStart-starts K U L fuel E v)
