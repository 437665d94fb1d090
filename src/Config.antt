-- ===== src/Config.antt =====
-- canvaxservice, fileservice, greetservice and canvaservice, config/viper.go of each. The viper and
-- fwlog libraries are not part of the repository: each is a record of operations, viper with its
-- documented behaviour as a record of laws.
pub mod Loading
pub mod Memory
mod Examples
use Prim.Native.String.{◌++◌ as ◌<>◌}
use fawa.Common.{
  String, ◌≡◌, ◌≢◌, Bool, true, false, List, [], ◌∷◌, Option, none, some, if◌then◌else◌,
}
use fawa.Common.Dict.{Dict}

pub record Config : Type 0 where
  pub addr : String
  pub cert_file : String
  pub key_file : String
  pub log_level : String

-- What `viper.ReadInConfig` finds.
pub data ConfigFile : Type 0 where
  file_read file_not_found : ConfigFile
  file_error : String → ConfigFile

-- The viper library. `unmarshal` gives its error, if any, and the struct as it leaves it; `settings`
-- is what it knows under a key, from any source, and `explicit` what a flag that was given, the
-- environment or the file says.
pub record Viper : Type 1 where
  pub State : Type 0
  pub bind_pflags : List String → State → Option String × State
  pub read_in_config : String → String → List String → State → ConfigFile × State
  pub unmarshal : State → Config → Option String × Config
  pub set_default : String → String → State → State
  pub settings : State → String → Option String
  pub explicit : State → String → Option String

-- A field keeps its value where viper knows nothing.
abbrev pub field : Option String → String → String
field none old = old
field (some new) old = new

abbrev pub decoded : (V : Viper) → V.State → Config → Config
decoded V s c = record {
  addr = field (V.settings s "addr") c.addr;
  cert_file = field (V.settings s "certFile") c.cert_file;
  key_file = field (V.settings s "keyFile") c.key_file;
  log_level = field (V.settings s "logLevel") c.log_level;
}

pub record IsLawfulViper (V : Viper) : Type 0 where
  pub unmarshal-decoded :
      (s : V.State) (c d : Config) → V.unmarshal s c ≡ (none, d) → d ≡ decoded V s c
  pub settings-explicit :
      (s : V.State) (k v : String) → V.explicit s k ≡ some v → V.settings s k ≡ some v
  pub settings-set_default :
      (s : V.State) (k v : String)
      → V.explicit s k ≡ none
      → V.settings (V.set_default k v s) k ≡ some v
  pub settings-set_default_other :
      (s : V.State) (j k v : String) → j ≢ k → V.settings (V.set_default j v s) k ≡ V.settings s k
  pub explicit-set_default :
      (s : V.State) (j k v : String) → V.explicit (V.set_default j v s) k ≡ V.explicit s k

-- The levels of fwlog, and `fwlog.ParseLevel`.
pub record Fwlog : Type 1 where
  pub Level : Type 0
  pub parse_level : String → Option Level

-- The package's variables, the libraries' with them.
pub record Process (V : Viper) (F : Fwlog) : Type 0 where
  pub once_done : Bool
  pub config : Config
  pub viper : V.State
  pub level : F.Level
  pub watching : Bool

-- The flags that the services declare.
abbrev pub service_flags : List String
service_flags = "addr" ∷ "certFile" ∷ "keyFile" ∷ []

abbrev pub canvaxservice_defaults : Dict String
canvaxservice_defaults =
    ("addr", "127.0.0.1:8080")
    ∷ ("uploadDir", "./upload")
    ∷ ("certFile", "cert.pem")
    ∷ ("keyFile", "key.pem")
    ∷ ("logLevel", "info")
    ∷ []

module _ (V : Viper) (F : Fwlog) where
  unfoldable pub set_defaults : Dict String → V.State → V.State
  set_defaults [] s = s
  set_defaults ((k, v) ∷ rest) s = set_defaults rest (V.set_default k v s)

  unfoldable pub after_unmarshal :
      Dict String → Option String × Config → Process V F → Option String × Process V F
  unfolding set_defaults
  after_unmarshal defaults (some e, c) p = (
    some ("the initial configuration cannot be decoded into the struct: " <> e),
    record p { config = c },
  )
  after_unmarshal defaults (none, c) p =
      (none, record p { config = c; viper = set_defaults defaults p.viper; watching = true })

  unfoldable pub after_read :
      Dict String → ConfigFile × V.State → Process V F → Option String × Process V F
  unfolding after_unmarshal
  after_read defaults (file_error e, s) p =
      (some ("fatal error config file: " <> e), record p { viper = s })
  after_read defaults (file_read, s) p =
      after_unmarshal defaults (V.unmarshal s p.config) (record p { viper = s })
  after_read defaults (file_not_found, s) p =
      after_unmarshal defaults (V.unmarshal s p.config) (record p { viper = s })

  unfoldable pub after_bind :
      Dict String → Option String × V.State → Process V F → Option String × Process V F
  unfolding after_read
  after_bind defaults (some e, s) p =
      (some ("failed to bind pflags: " <> e), record p { viper = s })
  after_bind defaults (none, s) p =
      after_read defaults (V.read_in_config "config" "yaml" ("." ∷ "/etc/fawa/" ∷ []) s) p

  -- `LoadAndWatch`, with the flags and the defaults of the service.
  unfoldable pub load_and_watch :
      List String → Dict String → Process V F → Option String × Process V F
  unfolding after_bind
  load_and_watch flags defaults p = after_bind defaults (V.bind_pflags flags p.viper) p

  unfoldable pub init_config : List String → Dict String → Process V F → Option String × Process V F
  unfolding load_and_watch
  init_config flags defaults p =
      if p.once_done
      then (none, p)
      else let (failed, q) = load_and_watch flags defaults p in
        (failed, record q { once_done = true })

  unfoldable pub reloaded : Option String × Config → Process V F → Process V F
  reloaded (some e, c) p = record p { config = c }
  reloaded (none, c) p = elim (F.parse_level c.log_level) [
    | none ↦ record p { config = c }
    | some l ↦ record p { config = c; level = l }
  ]

  -- The callback of `viper.OnConfigChange`, when viper has read the file again.
  unfoldable pub on_config_change : V.State → Process V F → Process V F
  unfolding reloaded
  on_config_change s p = reloaded (V.unmarshal s p.config) (record p { viper = s })

  unfoldable pub load_canvaxservice : Process V F → Option String × Process V F
  unfolding load_and_watch
  load_canvaxservice = load_and_watch service_flags canvaxservice_defaults

  unfoldable pub load_fileservice : Process V F → Option String × Process V F
  unfolding load_and_watch
  load_fileservice = load_and_watch service_flags (
      ("addr", "127.0.0.1:8080")
      ∷ ("uploadDir", "./upload")
      ∷ ("certFile", "")
      ∷ ("keyFile", "")
      ∷ ("logLevel", "info")
      ∷ [])

  unfoldable pub load_greetservice : Process V F → Option String × Process V F
  unfolding load_and_watch
  load_greetservice = load_and_watch ("addr" ∷ "uploadDir" ∷ "certFile" ∷ "keyFile" ∷ []) (
      ("addr", "127.0.0.1:8080")
      ∷ ("uploadDir", "./upload")
      ∷ ("certFile", "")
      ∷ ("keyFile", "")
      ∷ ("logLevel", "info")
      ∷ [])

  unfoldable pub load_canvaservice : Process V F → Option String × Process V F
  unfolding load_and_watch
  load_canvaservice =
      load_and_watch service_flags (
        ("addr", "127.0.0.1:8081") ∷ ("certFile", "") ∷ ("keyFile", "") ∷ ("logLevel", "info") ∷ [])
