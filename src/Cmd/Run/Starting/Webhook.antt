-- ===== src/Cmd/Run/Starting/Webhook.antt =====
-- What a start of the webhook server that succeeded must have had.
use kube_graffiti.Common.{
  ℕ, String, ◌≡◌, refl, ap, subst, Option-cases, some, List, [], ◌∷◌, Result, ok, err, abort, ◌>>=◌,
  >>=-eq-ok, inl, inr,
}
use kube_graffiti.Dict.{Dict, lookup}
use kube_graffiti.Kubernetes.{ConfigMap}
use kube_graffiti.Graffiti.Libs.{Libs}
use kube_graffiti.Webhook.Server.{
  Server, get_api_server_cert, config_tls, new_server, start_webhook_server,
}
use kube_graffiti.Webhook.Registration.{Unicode, HookClient, register_hook}
use kube_graffiti.Config.{Rule}
use kube_graffiti.Cmd.{
  server_settings, add_rules, unless_failed, register_rules, register_on, init_webhook_server,
}
use kube_graffiti.Cmd.Run.{Surroundings, Prepared}
use kube_graffiti.Cmd.Run.Steps.{new_server_of}
use kube_graffiti.Cmd.Run.Starting.{RegisterInTurn, all_done, one_more}

-- A map from which the certificate can be read has an entry for it.
get_api_server_cert-found :
    (k : ConfigMap) {cert : String}
    → get_api_server_cert k ≡ ok cert
    → (entries : Dict String) × (pem : String) × (k ≡ ok entries)
      × (lookup "requestheader-client-ca-file" entries ≡ some pem)
unfolding get_api_server_cert
get_api_server_cert-found (ok entries) e =
    elim (Option-cases (lookup "requestheader-client-ca-file" entries)) [
      | inl missing ↦ let h = rw (get_api_server_cert, missing) at e in cc
      | inr (pem, found) ↦ (entries, pem, refl, found)
    ]
get_api_server_cert-found (err m) e = cc
get_api_server_cert-found (abort m) e = cc

module _ {S W : Type 0} (K : HookClient S W) (U : Unicode) (s : Server) where
  after-in_turn :
      {rule : Rule} {rest : List Rule} {w w' : W} (r : Result (Unit {0}) × W)
      → register_hook K U s rule.registration w ≡ r
      → ((at : W) → register_rules K U s rest at ≡ (ok tt, w') → RegisterInTurn K U s rest at w')
      → unless_failed K U r (λ at. register_rules K U s rest at) ≡ (ok tt, w')
      → RegisterInTurn K U s (rule ∷ rest) w w'
  unfolding unless_failed
  after-in_turn (ok u, at) step later e = one_more step (later at e)
  after-in_turn (err m, at) step later e = let h = ap (λ x. x.0) e in absurd (cc)
  after-in_turn (abort m, at) step later e = let h = ap (λ x. x.0) e in absurd (cc)

  register_rules-RegisterInTurn :
      (rules : List Rule) (w : W) {w' : W}
      → register_rules K U s rules w ≡ (ok tt, w')
      → RegisterInTurn K U s rules w w'
  unfolding register_rules
  register_rules-RegisterInTurn [] w e =
      subst (RegisterInTurn K U s [] w) (ap (λ x. x.1) e) all_done
  register_rules-RegisterInTurn (rule ∷ rest) w e =
      after-in_turn _ refl (λ at. register_rules-RegisterInTurn rest at) e

module _ {S V H R W : Type 0} (K : HookClient S W) (U : Unicode) (L : Libs) (fuel : ℕ)
    (E : Surroundings V H R W) where
  module _ (p : Prepared V R W) where
    register_on-parts :
        (made : Result Server) (w : W) {w' : W}
        → register_on K U E.webhook_listener (server_settings E.viper p.viper) made p.config.rules w
          ≡ (ok tt, w')
        → (s : Server) × (made ≡ ok s)
          × RegisterInTurn K U s p.config.rules
              (start_webhook_server E.webhook_listener s
                (server_settings E.viper p.viper).cert_path
                (server_settings E.viper p.viper).key_path
                w)
              w'
    unfolding register_on
    register_on-parts (ok s) w e = (s, refl, register_rules-RegisterInTurn K U s _ _ e)
    register_on-parts (err m) w e = let h = ap (λ x. x.0) e in absurd (cc)
    register_on-parts (abort m) w e = let h = ap (λ x. x.0) e in absurd (cc)

    pub init_webhook_server-parts :
        (ca : Result String) (w : W) {w' : W}
        → init_webhook_server K U E.webhook_listener L p.config
            (server_settings E.viper p.viper)
            ca
            p.kube_client.config_map
            w
          ≡ (ok tt, w')
        → (pem : String) × (s : Server) × (ca ≡ ok pem)
          × ((new_server_of K U L fuel E p pem >>= λ new. add_rules L new p.config.rules) ≡ ok s)
          × RegisterInTurn K U s p.config.rules
              (start_webhook_server E.webhook_listener s
                (server_settings E.viper p.viper).cert_path
                (server_settings E.viper p.viper).key_path
                w)
              w'
    unfolding init_webhook_server
    init_webhook_server-parts (ok pem) w e =
        let (s, made, in_turn) = register_on-parts _ w e in (pem, s, refl, made, in_turn)
    init_webhook_server-parts (err m) w e = let h = ap (λ x. x.0) e in absurd (cc)
    init_webhook_server-parts (abort m) w e = let h = ap (λ x. x.0) e in absurd (cc)

    pub new_server_of-found :
        (ca : String) {new : Server}
        → new_server_of K U L fuel E p ca ≡ ok new
        → (entries : Dict String) × (pem : String) × (p.kube_client.config_map ≡ ok entries)
          × (lookup "requestheader-client-ca-file" entries ≡ some pem)
    unfolding new_server config_tls
    new_server_of-found ca e =
        let (tls, configured, made) = >>=-eq-ok (config_tls p.kube_client.config_map) _ e in
        let (cert, got, final) =
          >>=-eq-ok (get_api_server_cert p.kube_client.config_map) _ configured in
        get_api_server_cert-found p.kube_client.config_map got
