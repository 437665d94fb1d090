-- ===== src/Config/Memory.antt =====
-- A viper in memory that meets the assumptions on viper, and a log with two levels, for the examples.
use fawa.Common.{
  String, ◌≡◌, refl, sym, ap, false, [], Option, none, some, arith, eq_iff, eq_refl, str_eq,
  if◌then◌else◌,
}
use fawa.Common.Dict
use fawa.Common.Dict.{Dict}
use fawa.Config.{Config, file_not_found, Viper, field, IsLawfulViper, Fwlog, Process}

-- The settings of the file and the defaults.
pub record Layers : Type 0 where
  pub file : Dict String
  pub defaults : Dict String

abbrev pub setting : Option String → Option String → Option String
setting none default = default
setting (some v) default = some v

abbrev pub memory_viper : Viper
memory_viper = record {
  State = Layers;
  bind_pflags = λ flags s. (none, s);
  read_in_config = λ name type paths s. (file_not_found, s);
  unmarshal = λ s c. (
    none,
    record {
      addr = field (setting (Dict.lookup "addr" s.file) (Dict.lookup "addr" s.defaults)) c.addr;
      cert_file =
          field (setting (Dict.lookup "certFile" s.file) (Dict.lookup "certFile" s.defaults))
            c.cert_file;
      key_file =
          field (setting (Dict.lookup "keyFile" s.file) (Dict.lookup "keyFile" s.defaults))
            c.key_file;
      log_level =
          field (setting (Dict.lookup "logLevel" s.file) (Dict.lookup "logLevel" s.defaults))
            c.log_level;
    },
  );
  set_default = λ k v s. record s { defaults = Dict.insert k v s.defaults };
  settings = λ s k. setting (Dict.lookup k s.file) (Dict.lookup k s.defaults);
  explicit = λ s k. Dict.lookup k s.file;
}

setting-insert :
    (s : Layers) (j k v : String)
    → setting none (Dict.lookup k (Dict.insert j v s.defaults))
      ≡ (if str_eq j k then some v else Dict.lookup k s.defaults)
setting-insert s j k v = Dict.lookup-insert j k v s.defaults

pub memory_viper-IsLawful : IsLawfulViper memory_viper
memory_viper-IsLawful = record {
  unmarshal-decoded = λ s c d e. sym (ap (λ (x : Option String × Config). x.1) e);
  settings-explicit = λ s k v said. rw said refl;
  settings-set_default =
      λ s k v free. rw (free, Dict.lookup-insert k k v s.defaults, eq_refl k) refl;
  settings-set_default_other =
      λ s j k v apart. ground (arith, Dict.lookup-insert j k v s.defaults, eq_iff j k);
  explicit-set_default = λ s j k v. refl;
}

pub data Level : Type 0 where
  info_level warn_level : Level

abbrev pub levels : Fwlog
levels = record {
  Level = Level;
  parse_level = λ text.
      if str_eq text "info"
      then some info_level
      else if str_eq text "warn"
      then some warn_level
      else none;
}

abbrev pub fresh : Process memory_viper levels
fresh = record {
  once_done = false;
  config = record { addr = ""; cert_file = ""; key_file = ""; log_level = "" };
  viper = record { file = []; defaults = [] };
  level = warn_level;
  watching = false;
}
