-- ===== src/Log.antt =====
-- pkg/log/log.go: the levels of the log and the loggers of the components. What is written to them is
-- not modelled.
use kube_graffiti.Common.{String, none, some, [], ◌∷◌, Bool, true, false, if◌then◌else◌}
use kube_graffiti.Dict.{Dict, lookup}

-- The levels of zerolog that the program uses; the first is the zero value.
pub data Level : Type 0 where
  debug_level info_level warn_level error_level fatal_level : Level

abbrev pub log_levels : Dict Level
log_levels =
    ("panic", debug_level)
    ∷ ("fatal", fatal_level)
    ∷ ("error", error_level)
    ∷ ("warn", warn_level)
    ∷ ("info", info_level)
    ∷ ("debug", debug_level)
    ∷ []

-- LogLevels[level], which is the zero value for a level that is not in the table.
abbrev level_at : String → Level
level_at level = elim (lookup level log_levels) [ some l ↦ l | none ↦ debug_level ]

-- The global level that ChangeLogLevel sets.
unfoldable pub change_log_level : String → Level
change_log_level level = level_at level

abbrev is_debug : Level → Bool
is_debug debug_level = true
is_debug _ = false

-- What the program asks of zerolog, with loggers in `G`: a copy of a logger that writes to a console on
-- the error output, and one with a further field of text.
pub record Zerolog (G : Type 0) : Type 0 where
  pub console_output : G → G
  pub with_str : String → String → G → G

-- The logger and the level of the process.
pub record LogState (G : Type 0) : Type 0 where
  pub logger : G
  pub global_level : Level

module _ {G : Type 0} (Z : Zerolog G) where
  unfoldable pub init_logger : String → LogState G → LogState G
  init_logger level s = record { logger = Z.console_output s.logger; global_level = level_at level }

  unfoldable pub component_logger : String → String → LogState G → G
  component_logger component funcname s =
      let logger = Z.with_str "component" component s.logger in
      if is_debug s.global_level then Z.with_str "func" funcname logger else logger
