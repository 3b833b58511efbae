-- ===== src/Config.antt =====
-- pkg/config/config.go: the configuration and its validation. How viper and mapstructure decode it is
-- not modelled.
pub mod Validity
use kube_graffiti.Common.{
  String, Bool, true, false, ◌==◌, Option, none, some, List, [], ◌∷◌, Result, ok, err,
  if◌then◌else◌, ◌>>=◌, ◌>>◌, any, ◌<>◌, is_empty,
}
use kube_graffiti.Dict.{Dict, lookup, insert}
use kube_graffiti.Decimal.{ℤ}
use kube_graffiti.Log.{log_levels}
use kube_graffiti.Graffiti.Libs.{Libs}
use kube_graffiti.Graffiti.Matchers.{Matchers}
use kube_graffiti.Graffiti.Payload.{Payload}
use kube_graffiti.Graffiti.Rule.{Rule as GraffitiRule, validate as validate_rule}
use kube_graffiti.Webhook.Registration.{Registration}

pub record Server : Type 0 where
  pub webhook_port : ℤ
  pub company_domain : String
  pub namespace : String
  pub service : String
  pub ca_cert_path : String
  pub server_cert_path : String
  pub server_key_path : String

pub record Rule : Type 0 where
  pub registration : Registration
  pub matchers : Matchers
  pub payload : Payload

-- The two fields of healthcheck.HealthChecker that are configured.
pub record HealthSettings : Type 0 where
  pub port : ℤ
  pub path : String

pub record Configuration : Type 0 where
  pub log_level : String
  pub check_existing : Bool
  pub health_checker : HealthSettings
  pub server : Server
  pub rules : List Rule

-- The rule of package graffiti that a configured rule describes.
abbrev pub graffiti_rule : Rule → GraffitiRule
graffiti_rule rule = record {
  name = rule.registration.name;
  matchers = rule.matchers;
  payload = rule.payload;
}

unfoldable pub validate_log_args : Configuration → Result (Unit {0})
validate_log_args c = elim (lookup c.log_level log_levels) [
  | some _ ↦ ok tt
  | none ↦ err (c.log_level <> " is not a valid log-level")
]

unfoldable pub validate_webhook_args : Configuration → Result (Unit {0})
validate_webhook_args c =
    if c.server.namespace == ""
    then err "missing required parameter server.namespace"
    else if c.server.service == ""
    then err "missing required parameter server.service"
    else ok tt

abbrev pub is_set : Option Bool → Bool
is_set none = false
is_set (some b) = b

module _ (L : Libs) where
  -- The loop of validateRules; the map holds the names of the rules before.
  unfoldable pub validate_each : Dict Bool → List Rule → Result (Unit {0})
  validate_each existing_rule_names [] = ok tt
  validate_each existing_rule_names (rule ∷ rules) =
      let name = rule.registration.name in
      let later = validate_each (insert name true existing_rule_names) rules in
      if is_set (lookup name existing_rule_names)
      then err (
          "rule " <> name
          <> " is invalid - found duplicate rules with the same name, they must be unique")
      else (validate_rule L (graffiti_rule rule) >> later)

  unfoldable pub validate_rules : Configuration → Result (Unit {0})
  validate_rules c = if is_empty c.rules then err "no rules found" else validate_each [] c.rules

  unfoldable pub validate_config : Configuration → Result (Unit {0})
  validate_config c = do validate_log_args c; validate_webhook_args c; validate_rules c
