-- ===== src/Start/Examples.antt =====
-- Starts of the services.
use fawa.Common.{List, true, str_eq, ◌≡◌, refl, [], ◌∷◌, none, some}
use fawa.Config.{Process}
use fawa.Config.Memory.{memory_viper, info_level, levels, fresh}
use fawa.Start.{
  sets_level, serves, Surroundings, main_fileservice, stop_canvaxservice, stop_fileservice,
  stop_greetservice, stop_canvaservice,
}
use fawa.Start.Shutdown.{
  up, ended_with, Action, arrives, finishes, signals, stops, serving, step, stop_step, finish_step,
  run, CanEndWith, ends_in_flight,
}

abbrev machine : Surroundings levels
machine = record {
  level_of = λ text. info_level;
  exists = λ path. str_eq path "cert.pem";
  load_key_pair = λ cert key. none;
  serve_error = none;
}

abbrev half_named : Process memory_viper levels
half_named = record fresh {
  config = record {
    addr = ":8080";
    cert_file = "cert.pem";
    key_file = "key.pem";
    log_level = "info";
  };
}

falls_back :
    main_fileservice machine (none, half_named) ≡ sets_level info_level ∷ serves ":8080" ∷ []
unfolding main_fileservice
falls_back = refl

ends_in_flight_example :
    CanEndWith {F = levels} stop_canvaxservice 3
    × CanEndWith {F = levels} stop_fileservice 3
    × CanEndWith {F = levels} stop_greetservice 3
    × CanEndWith {F = levels} (stop_canvaservice true true) 3
ends_in_flight_example = ends_in_flight levels 3 true true

-- Two uploads end after the signal, one before `Shutdown` has begun.
abbrev waits : List Action
waits = arrives ∷ arrives ∷ signals ∷ stops ∷ finishes ∷ stops ∷ finishes ∷ stops ∷ stops ∷ []

waits-ended : run {F = levels} stop_fileservice waits (up (serving 0)) ≡ some (ended_with 0)
unfolding run step stop_step finish_step stop_fileservice
waits-ended = refl
