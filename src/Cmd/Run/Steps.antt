-- ===== src/Cmd/Run/Steps.antt =====
-- The steps of a run of the program, in the order in which they come.
use kube_graffiti.Common.{ℕ, String, ◌≡◌, false, List, [], ◌∷◌, Result, ok, ◌>>=◌}
use kube_graffiti.Http.{handle}
use kube_graffiti.Graffiti.Libs.{Libs}
use kube_graffiti.Webhook.Server.{Server, new_server}
use kube_graffiti.Webhook.Registration.{Unicode, HookClient, register_hook}
use kube_graffiti.Config.{Rule}
use kube_graffiti.Existing.Groups.Confined.{MakesCalls}
use kube_graffiti.Existing.Discovery.{Kube, init_kube_clients}
use kube_graffiti.Cmd.{server_settings, add_rules}
use kube_graffiti.Cmd.Run.{Surroundings, Prepared, health_checker_of, is_disabled, prepare}

module _ {S V H R W : Type 0} (K : HookClient S W) (U : Unicode) (L : Libs) (fuel : ℕ)
    (E : Surroundings V H R W) where
  -- How far a run has come: the servers that listen, and the rules that are not registered yet.
  pub data Phase : Type 0 where
    untouched : Phase
    healthy : Prepared V R W → Phase
    serving : Prepared V R W → Server → List Rule → Phase
    over : Phase

  -- The new server of the settings.
  abbrev pub new_server_of : Prepared V R W → String → Result Server
  new_server_of p ca =
      let st = server_settings E.viper p.viper in
      new_server st.company_domain st.namespace st.service ca p.kube_client.config_map st.port

  -- The server of the settings, with every rule of the configuration.
  abbrev pub IsServerOf : Prepared V R W → Server → Type 0
  IsServerOf p s =
      (ca : String) × (E.read_file (server_settings E.viper p.viper).ca_cert_path ≡ ok ca)
      × ((new_server_of p ca >>= λ new. add_rules L new p.config.rules) ≡ ok s)

  module _ (v : V) (start : W) where
    -- The steps of a run.
    pub data Reaches : Phase → W → Type 0 where
      begins : Reaches untouched start
      health_listens :
          {p : Prepared V R W} (patterns : List String)
          → prepare E L v ≡ ok p
          → handle [] (health_checker_of E p).path ≡ ok patterns
          → Reaches (healthy p) (
              E.health_listener.listen_and_serve
                (record (health_checker_of E p) { patterns = patterns })
                start)
      webhook_listens :
          {p : Prepared V R W} {s : Server} {w : W}
          → IsServerOf p s
          → Reaches (healthy p) w
          → Reaches (serving p s p.config.rules) (
              E.webhook_listener.listen_and_serve_tls s
                (E.viper.get_string "server.cert-path" p.viper)
                (E.viper.get_string "server.key-path" p.viper)
                w)
      registers :
          {p : Prepared V R W} {s : Server} {rule : Rule} {rest : List Rule} {w w' : W}
          → register_hook K U s rule.registration w ≡ (ok tt, w')
          → Reaches (serving p s (rule ∷ rest)) w
          → Reaches (serving p s rest) w'
      fails :
          {p : Prepared V R W} {s : Server} {rule : Rule} {rest : List Rule} {w : W}
          → Reaches (serving p s (rule ∷ rest)) w
          → Reaches over (register_hook K U s rule.registration w).1
      checks :
          {p : Prepared V R W} {s : Server} {w w' : W} (kube : Kube W) (r : Result (Unit {0}))
          → is_disabled E p.viper ≡ false
          → init_kube_clients (E.clients p.rest_config) ≡ ok kube
          → MakesCalls kube.dynamic L kube.namespace_cache kube.discovered fuel p.config.rules
              kube.reflector w r w'
          → Reaches (serving p s []) w
          → Reaches over w'
