-- ===== src/Config/Examples.antt =====
-- Runs of the configuration against a viper in memory.
use fawa.Common.{String, ◌≡◌, refl, [], ◌∷◌, Option, none}
use fawa.Common.Dict
use fawa.Common.Dict.{Dict}
use fawa.Config.{Process, load_and_watch, on_config_change, load_canvaxservice, service_flags}
use fawa.Config.Loading.{defaults_late}
use fawa.Config.Memory.{memory_viper, memory_viper-IsLawful, levels, fresh}

abbrev defaults : Dict String
defaults =
    ("addr", "127.0.0.1:8081") ∷ ("certFile", "") ∷ ("keyFile", "") ∷ ("logLevel", "info") ∷ []

abbrev loaded : Option String × Process memory_viper levels
loaded = load_and_watch memory_viper levels service_flags defaults fresh

loads : loaded ≡ (none, loaded.1)
unfolding load_and_watch
loads = refl

defaults_late_example :
    (loaded.1.config.log_level ≡ "")
    × ((on_config_change memory_viper levels loaded.1.viper loaded.1).config.log_level ≡ "info")
unfolding Dict.lookup
defaults_late_example =
    defaults_late memory_viper levels service_flags defaults "info" fresh loaded.1
      (memory_viper.unmarshal loaded.1.viper loaded.1.config).1 memory_viper-IsLawful loads
      (refl, (refl, (refl, (refl, tt)))) refl refl refl

-- The first run of canvaxservice with no file knows no certificate.
no_certificate : (load_canvaxservice memory_viper levels fresh).1.config.cert_file ≡ ""
unfolding load_canvaxservice Dict.lookup
no_certificate = refl
