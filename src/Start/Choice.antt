-- ===== src/Start/Choice.antt =====
-- main.go of the services: when a service serves with TLS.
use fawa.Common.{
  String, eq_iff, ◌≡◌, ◌≢◌, refl, ap, ◌∙◌, true, false, ◌⊎◌, inl, inr, ◌↔◌, [], ◌∷◌, Option, none,
  some, arith, Bool-cases, Option-cases,
}
use Prim.Native.String.{◌++◌ as ◌<>◌}
use fawa.Config.{
  Config, Viper, Fwlog, Process, IsLawfulViper, field, service_flags, canvaxservice_defaults,
  load_canvaxservice,
}
use fawa.Config.Loading.{read_state, load_and_watch-Loaded}
use fawa.Start.{
  Effect, fatal, sets_level, serves, serves_tls, serves_http3, Surroundings, ended,
  has_certificates, serve_with_fallback, main_fileservice, main_canvaxservice, then_pprof,
  serve_canvas, main_canvaservice,
}

-- The configuration names two files that both exist.
abbrev pub HasCertificates : {F : Fwlog} → Surroundings F → Config → Type 0
HasCertificates env c =
    (c.cert_file ≢ "")
    × (c.key_file ≢ "")
    × (env.exists c.cert_file ≡ true)
    × (env.exists c.key_file ≡ true)

module _ {F : Fwlog} (env : Surroundings F) where
  has_certificates_iff : (c : Config) → (has_certificates env c ≡ true) ↔ HasCertificates env c
  unfolding has_certificates
  has_certificates_iff c = (
    λ h. (
      ground (arith, eq_iff c.cert_file ""),
      ground (arith, eq_iff c.key_file ""),
      ground arith,
      ground arith,
    ),
    λ (cert, key, e, f). ground (arith, eq_iff c.cert_file "", eq_iff c.key_file "", e, f),
  )

  -- `HasCertificates` is decided.
  has_certificates-cases :
      (c : Config)
      → ((has_certificates env c ≡ true) × HasCertificates env c)
        ⊎ ((has_certificates env c ≡ false) × ¬ HasCertificates env c)
  has_certificates-cases c = elim (Bool-cases (has_certificates env c)) [
    | inl yes' ↦ inl (yes', (has_certificates_iff c).0 yes')
    | inr no' ↦ inr (no', λ h. cc (no', (has_certificates_iff c).1 h))
  ]

  -- The head of what a service does that is configured.
  abbrev pub first : {V : Viper} → Process V F → Effect F
  first p = sets_level (env.level_of p.config.log_level)

  -- A fileservice that is configured sets its log level and then starts one server: with TLS if the
  -- configuration names two files that both exist, and with plain HTTP otherwise; after that it says
  -- nothing, or ends with the fatal message of that server.
  pub main_fileservice-serves :
      {V : Viper} (p : Process V F)
      → (HasCertificates env p.config
          × (main_fileservice env (none, p)
              ≡ first p
                ∷ serves_tls p.config.addr p.config.cert_file p.config.key_file
                ∷ ended env "Failed to start HTTPS server: "))
        ⊎ (¬ HasCertificates env p.config
            × (main_fileservice env (none, p)
                ≡ first p ∷ serves p.config.addr ∷ ended env "Failed to start HTTP server: "))
  unfolding main_fileservice
  main_fileservice-serves p = elim (has_certificates-cases p.config) [
    | inl (tls, h) ↦ inl (h, rw (tls, serve_with_fallback) refl)
    | inr (plain, h) ↦ inr (h, rw (plain, serve_with_fallback) refl)
  ]

  -- A canvaservice that is configured sets its log level, and then: with no certificate files it
  -- serves plain HTTP and no HTTP/3; with files that cannot be loaded it ends with a fatal message and
  -- serves nothing; else it serves HTTP/3 and HTTPS. What follows is a fatal message or pprof.
  pub main_canvaservice-serves :
      {V : Viper} (p : Process V F)
      → (¬ HasCertificates env p.config
          × (main_canvaservice env (none, p)
              ≡ first p ∷ serves p.config.addr ∷ then_pprof env "Failed to start HTTP server: "))
        ⊎ ((HasCertificates env p.config
              × ((e : String) × (env.load_key_pair p.config.cert_file p.config.key_file ≡ some e)
                  × (main_canvaservice env (none, p)
                      ≡ first p ∷ fatal ("Failed to load TLS certificate: " <> e) ∷ [])))
            ⊎ (HasCertificates env p.config
                × (env.load_key_pair p.config.cert_file p.config.key_file ≡ none)
                × (main_canvaservice env (none, p)
                    ≡ first p
                      ∷ serves_http3 p.config.addr
                      ∷ serves_tls p.config.addr p.config.cert_file p.config.key_file
                      ∷ then_pprof env "Failed to start HTTPS server: ")))
  unfolding main_canvaservice
  main_canvaservice-serves p = elim (has_certificates-cases p.config) [
    | inr (plain, h) ↦ inl (h, rw (plain, serve_canvas) refl)
    | inl (tls, h) ↦ elim (Option-cases (env.load_key_pair p.config.cert_file p.config.key_file)) [
      | inr (e, bad) ↦ inr (inl (h, (e, bad, rw (tls, bad, serve_canvas) refl)))
      | inl good ↦ inr (inr (h, good, rw (tls, good, serve_canvas) refl))
    ]
  ]

  -- A canvaxservice that is started with no certificate flag and no certificate in its file, so that
  -- viper knows only the empty flags, asks for HTTPS with empty file names, whatever the defaults.
  main_canvaxservice-no_certificate :
      {V : Viper} (p q : Process V F)
      → IsLawfulViper V
      → load_canvaxservice V F p ≡ (none, q)
      → V.settings (read_state V F service_flags p) "certFile" ≡ some ""
      → V.settings (read_state V F service_flags p) "keyFile" ≡ some ""
      → main_canvaxservice env (load_canvaxservice V F p)
        ≡ first q ∷ serves_tls q.config.addr "" "" ∷ ended env "Failed to start server: "
  unfolding main_canvaxservice load_canvaxservice
  main_canvaxservice-no_certificate {V} p q L loaded cert key =
      let (unmarshalled, _, _) =
        load_and_watch-Loaded V F service_flags canvaxservice_defaults p q loaded in
      let same =
        L.unmarshal-decoded (read_state V F service_flags p) p.config q.config unmarshalled in
      let no_cert : q.config.cert_file ≡ "" =
        ap (λ (x : Config). x.cert_file) same ∙ ap (λ o. field o p.config.cert_file) cert in
      let no_key : q.config.key_file ≡ "" =
        ap (λ (x : Config). x.key_file) same ∙ ap (λ o. field o p.config.key_file) key in
      ap (λ (o : Option String × Process V F). main_canvaxservice env o) loaded ∙ (λ i.
        first q
        ∷ serves_tls q.config.addr (no_cert i) (no_key i)
        ∷ ended env "Failed to start server: ")
