-- ===== src/Cmd/Settings.antt =====
-- cmd/command.go: what the command asks of viper and mapstructure, which are parameters here: init,
-- setDefaults, loadConfig, unmarshalFromViperStrict and decodeHookWithErrorUnused.
pub mod Defaults
use kube_graffiti.Common.{
  Halt, exits, String, Bool, true, false, List, [], ◌∷◌, Result, ok, err, abort, ◌>>=◌, map_err,
  ◌<>◌, ◌==◌, not, if◌then◌else◌,
}
use kube_graffiti.Decimal.{ℤ, pos}
use kube_graffiti.Graffiti.Operator.{Datum, decode_hook}
use kube_graffiti.Config.{Configuration}

-- A value of a flag or of a default.
pub data Setting : Type 0 where
  text : String → Setting
  number : ℤ → Setting
  boolean : Bool → Setting

-- A persistent flag with its default.
pub record Flag : Type 0 where
  pub name : String
  pub value : Setting
  pub usage : String

-- mapstructure's hooks, in `H`; `of_function` is a hook of the program, which gets whether the kind of
-- the source is a string, whether the target is a boolean operator, and the data.
pub record Mapstructure (H : Type 0) : Type 0 where
  pub string_to_time_duration_hook_func : H
  pub string_to_slice_hook_func : String → H
  pub of_function : (Bool → Bool → Datum → Result Datum) → H
  pub compose_decode_hook_func : List H → H

pub record DecoderConfig (H : Type 0) : Type 0 where
  pub decode_hook : H
  pub error_unused : Bool

-- viper, with a state in `V`: of the configuration file `read_in_config` gives the state that has read
-- it. `unmarshal` gets what an option makes of the configuration of the decoder.
pub record Viper (V H : Type 0) : Type 0 where
  pub bind_pflag : String → Flag → V → V
  pub set_env_prefix : String → V → V
  pub set_env_key_replacer : List (String × String) → V → V
  pub automatic_env : V → V
  pub set_default : String → Setting → V → V
  pub set_config_file : String → V → V
  pub set_config_name : String → V → V
  pub read_in_config : V → Result V
  pub unmarshal : (DecoderConfig H → DecoderConfig H) → V → Result Configuration
  pub get_string : String → V → String
  pub get_int : String → V → ℤ
  pub is_set : String → V → Bool

abbrev pub default_log_level : String
default_log_level = "info"

abbrev pub default_config_path : String
default_config_path = "/config"

abbrev pub config_flag : Flag
config_flag = record {
  name = "config";
  value = text "/config";
  usage = "[GRAFFITI_CONFIG] config file (default is /config.{yaml,json,toml,hcl})";
}

abbrev pub log_level_flag : Flag
log_level_flag = record {
  name = "log-level";
  value = text default_log_level;
  usage =
      "[GRAFFITI_LOG_LEVEL] set logging verbosity to one of panic, fatal, error, warn, info, debug";
}

abbrev pub check_existing_flag : Flag
check_existing_flag = record {
  name = "check-existing";
  value = boolean false;
  usage = "[GRAFFITTI_CHECK_EXISTING] run rules against existing objects";
}

-- What ends the process on an error: mylog.Fatal() and os.Exit(1), or panic(err.Error()).
abbrev pub or_end {ℓ} : {A : Type ℓ} → (String → Halt) → Result A → Result A
or_end halt (ok a) = ok a
or_end halt (err e) = abort (halt e)
or_end halt (abort e) = abort e

abbrev pub fatal : String → String → Halt
fatal message e = exits (message <> e)

unfoldable pub decode_hook_with_error_unused : {H : Type 0} → H → DecoderConfig H → DecoderConfig H
decode_hook_with_error_unused hook c = record c { decode_hook = hook; error_unused = true }

module _ {V H : Type 0} (P : Viper V H) where
  -- The function init, with the flags that it has made.
  unfoldable pub init : V → V
  init v0 =
      let v1 = P.bind_pflag "config" config_flag v0 in
      let v2 = P.bind_pflag "log-level" log_level_flag v1 in
      let v3 = P.bind_pflag "check-existing" check_existing_flag v2 in
      let v4 = P.set_env_prefix "GRAFFITI" v3 in
      P.automatic_env (P.set_env_key_replacer (("-", "_") ∷ (".", "_") ∷ []) v4)

  unfoldable pub set_defaults : V → V
  set_defaults v0 =
      let v1 = P.set_default "log-level" (text default_log_level) v0 in
      let v2 = P.set_default "check-existing" (boolean false) v1 in
      let v3 = P.set_default "server.port" (number (pos 8443)) v2 in
      let v4 = P.set_default "health-checker.port" (number (pos 8080)) v3 in
      let v5 = P.set_default "health-checker.path" (text "/healthz") v4 in
      let v6 = P.set_default "server.company-domain" (text "acme.com") v5 in
      let v7 = P.set_default "server.ca-cert-path" (text "/ca-cert") v6 in
      let v8 = P.set_default "server.cert-path" (text "/server-cert") v7 in
      P.set_default "server.cert-path" (text "/server-key") v8

module _ {V H : Type 0} (P : Viper V H) (M : Mapstructure H) where
  abbrev decoder_hook_func : H
  decoder_hook_func = M.compose_decode_hook_func (
      M.string_to_time_duration_hook_func
      ∷ M.string_to_slice_hook_func ","
      ∷ M.of_function decode_hook
      ∷ [])

  unfoldable pub unmarshal_from_viper_strict : V → Result Configuration
  unmarshal_from_viper_strict v =
      map_err (λ e. "failed to unmarshal configuration: " <> e)
        (P.unmarshal (decode_hook_with_error_unused decoder_hook_func) v)

  -- The configuration, and viper as it has read its file; a file that cannot be read ends the process.
  unfoldable pub load_config : String → V → Result (Configuration × V)
  load_config file v = do
    let named =
        if not (file == "")
        then P.set_config_file file (set_defaults P v)
        else P.set_config_name default_config_path (set_defaults P v)
    read ← or_end (fatal "Can't read config: ") (P.read_in_config named)
    c ← unmarshal_from_viper_strict read
    ok (c, read)
