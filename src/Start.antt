-- ===== src/Start.antt =====
-- main.go of canvaservice, canvaxservice, fileservice and greetservice: which servers a service
-- starts, given what `InitConfig` left. The file system, the TLS library and the level that
-- `fwlog.ParseLevel` returns are parameters; what serves requests is in the modules of the handlers.
pub mod Choice
pub mod Shutdown
mod Examples
use Prim.Native.String.{◌++◌ as ◌<>◌}
use fawa.Common.{
  String, str_eq, Bool, true, false, not, ◌&&◌, List, [], ◌∷◌, ◌++◌, Option, none, some,
  if◌then◌else◌,
}
use fawa.Config.{Config, Viper, Fwlog, Process}

-- What main does to the outside, in order. A fatal message ends the service.
pub data Effect (F : Fwlog) : Type 0 where
  fatal : String → Effect F
  sets_level : F.Level → Effect F
  serves : String → Effect F
  serves_tls : String → String → String → Effect F
  serves_http3 : String → Effect F
  serves_pprof : Effect F
  closes_handler closes_http3 shuts_down exits : Effect F

-- `level_of` is the level that `ParseLevel` returns, with an error or not, `exists` whether `os.Stat`
-- finds a file, `load_key_pair` the error of `tls.LoadX509KeyPair`, and `serve_error` the error that
-- ends a server, if it is not that the server was closed.
pub record Surroundings (F : Fwlog) : Type 0 where
  pub level_of : String → F.Level
  pub exists : String → Bool
  pub load_key_pair : String → String → Option String
  pub serve_error : Option String

module _ {F : Fwlog} (env : Surroundings F) where
  -- The fatal message for a server that ended with an error.
  unfoldable pub ended : String → List (Effect F)
  ended message = elim env.serve_error [ none ↦ [] | some e ↦ fatal (message <> e) ∷ [] ]

  -- The head of each main: the configuration, then the log level.
  unfoldable pub configured :
      {V : Viper} → (Config → List (Effect F)) → Option String × Process V F → List (Effect F)
  configured serve (some e, p) = fatal ("Failed to initialize configuration: " <> e) ∷ []
  configured serve (none, p) = sets_level (env.level_of p.config.log_level) ∷ serve p.config

  unfoldable pub has_certificates : Config → Bool
  has_certificates c =
      (not (str_eq c.cert_file "") && not (str_eq c.key_file ""))
      && (env.exists c.cert_file && env.exists c.key_file)

  unfoldable pub serve_with_fallback : Config → List (Effect F)
  unfolding ended has_certificates
  serve_with_fallback c =
      if has_certificates c
      then serves_tls c.addr c.cert_file c.key_file ∷ ended "Failed to start HTTPS server: "
      else serves c.addr ∷ ended "Failed to start HTTP server: "

  unfoldable pub main_fileservice : {V : Viper} → Option String × Process V F → List (Effect F)
  unfolding configured serve_with_fallback
  main_fileservice = configured serve_with_fallback

  unfoldable pub main_greetservice : {V : Viper} → Option String × Process V F → List (Effect F)
  unfolding configured serve_with_fallback
  main_greetservice = configured serve_with_fallback

  unfoldable pub main_canvaxservice : {V : Viper} → Option String × Process V F → List (Effect F)
  unfolding configured ended
  main_canvaxservice =
      configured (λ c. serves_tls c.addr c.cert_file c.key_file ∷ ended "Failed to start server: ")

  -- A server that ended without an error lets main go on to its end.
  unfoldable pub then_pprof : String → List (Effect F)
  then_pprof message = elim env.serve_error [
    | none ↦ serves_pprof ∷ []
    | some e ↦ fatal (message <> e) ∷ []
  ]

  unfoldable pub serve_canvas : Config → List (Effect F)
  unfolding then_pprof has_certificates
  serve_canvas c =
      if has_certificates c
      then elim (env.load_key_pair c.cert_file c.key_file) [
        | some e ↦ fatal ("Failed to load TLS certificate: " <> e) ∷ []
        | none ↦
            serves_http3 c.addr
            ∷ serves_tls c.addr c.cert_file c.key_file
            ∷ then_pprof "Failed to start HTTPS server: "
      ]
      else serves c.addr ∷ then_pprof "Failed to start HTTP server: "

  unfoldable pub main_canvaservice : {V : Viper} → Option String × Process V F → List (Effect F)
  unfolding configured serve_canvas
  main_canvaservice = configured serve_canvas

-- What the goroutines do that wait for a signal to stop; the errors of these calls are logged only.
unfoldable pub stop_canvaxservice : {F : Fwlog} → List (Effect F)
stop_canvaxservice = closes_handler ∷ shuts_down ∷ exits ∷ []

unfoldable pub stop_fileservice : {F : Fwlog} → List (Effect F)
stop_fileservice = closes_handler ∷ shuts_down ∷ exits ∷ []

unfoldable pub stop_greetservice : {F : Fwlog} → List (Effect F)
stop_greetservice = shuts_down ∷ exits ∷ []

-- With `h3Server` set once HTTP/3 is served.
unfoldable pub stop_canvaservice : {F : Fwlog} → (use_tls h3_server : Bool) → List (Effect F)
stop_canvaservice use_tls h3_server =
    if use_tls && h3_server then closes_http3 ∷ shuts_down ∷ [] else shuts_down ∷ []
