-- ===== src/Cmd/Settings/Defaults.antt =====
-- The defaults that setDefaults leaves.
use kube_graffiti.Common.{String, ◌≡◌, refl, Option, none, some, ◌==◌, false, if◌then◌else◌}
use kube_graffiti.Decimal.{pos}
use kube_graffiti.Cmd.Settings.{Setting, text, number, boolean, Viper, set_defaults}

-- The keys of the settings that the command reads.
pub data Key : Type 0 where
  config log_level check_existing server_port health_port health_path company_domain namespace
        service ca_cert_path cert_path key_path :
      Key

abbrev pub name_of : Key → String
name_of config = "config"
name_of log_level = "log-level"
name_of check_existing = "check-existing"
name_of server_port = "server.port"
name_of health_port = "health-checker.port"
name_of health_path = "health-checker.path"
name_of company_domain = "server.company-domain"
name_of namespace = "server.namespace"
name_of service = "server.service"
name_of ca_cert_path = "server.ca-cert-path"
name_of cert_path = "server.cert-path"
name_of key_path = "server.key-path"

-- The default of each key: none for the key path, whose text stands under the certificate's.
abbrev pub default_setting : Key → Option Setting
default_setting log_level = some (text "info")
default_setting check_existing = some (boolean false)
default_setting server_port = some (number (pos 8443))
default_setting health_port = some (number (pos 8080))
default_setting health_path = some (text "/healthz")
default_setting company_domain = some (text "acme.com")
default_setting ca_cert_path = some (text "/ca-cert")
default_setting cert_path = some (text "/server-key")
default_setting _ = none

abbrev pub or_before : Option Setting → Option Setting → Option Setting
or_before none before = before
or_before (some x) before = some x

module _ {V H : Type 0} (P : Viper V H) where
  -- What viper documents of SetDefault, for these keys, none of which is a part of another: the last
  -- default of a key counts, and other keys keep theirs.
  abbrev pub KeepsDefaults : (String → V → Option Setting) → Type 0
  KeepsDefaults default_of =
      (k j : Key) (x : Setting) (v : V)
      → default_of (name_of j) (P.set_default (name_of k) x v)
        ≡ (if name_of k == name_of j then some x else default_of (name_of j) v)

  -- The calls of SetDefault, from the last to the first, for one key.
  abbrev latest : Key → Option Setting → Option Setting
  latest j before =
      if name_of cert_path == name_of j
      then some (text "/server-key")
      else if name_of cert_path == name_of j
      then some (text "/server-cert")
      else if name_of ca_cert_path == name_of j
      then some (text "/ca-cert")
      else if name_of company_domain == name_of j
      then some (text "acme.com")
      else if name_of health_path == name_of j
      then some (text "/healthz")
      else if name_of health_port == name_of j
      then some (number (pos 8080))
      else if name_of server_port == name_of j
      then some (number (pos 8443))
      else if name_of check_existing == name_of j
      then some (boolean false)
      else if name_of log_level == name_of j
      then some (text "info")
      else before

  latest-default :
      (j : Key) (before : Option Setting) → latest j before ≡ or_before (default_setting j) before
  latest-default config before = refl
  latest-default log_level before = refl
  latest-default check_existing before = refl
  latest-default server_port before = refl
  latest-default health_port before = refl
  latest-default health_path before = refl
  latest-default company_domain before = refl
  latest-default namespace before = refl
  latest-default service before = refl
  latest-default ca_cert_path before = refl
  latest-default cert_path before = refl
  latest-default key_path before = refl

  -- Where viper keeps the last default of each key, after setDefaults every setting that the command
  -- reads has the default of the table, and those without one have what they had: the certificate's
  -- path has the text meant for the key's path, and the key's path has no default.
  pub set_defaults-default :
      (default_of : String → V → Option Setting)
      → KeepsDefaults default_of
      → (j : Key) (v : V)
      → default_of (name_of j) (set_defaults P v)
        ≡ or_before (default_setting j) (default_of (name_of j) v)
  unfolding set_defaults
  set_defaults-default default_of keeps j v =
      rw
        (
          keeps cert_path j,
          keeps cert_path j,
          keeps ca_cert_path j,
          keeps company_domain j,
          keeps health_path j,
          keeps health_port j,
          keeps server_port j,
          keeps check_existing j,
          keeps log_level j,
        )
        (latest-default j (default_of (name_of j) v))
