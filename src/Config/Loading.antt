-- ===== src/Config/Loading.antt =====
-- config/viper.go of the services: what the configuration is after it was loaded, and when defaults
-- come into it.
use fawa.Common.{
  String, ◌≡◌, refl, sym, subst, ◌⊎◌, ap, ◌∙◌, true, List, [], ◌∷◌, Option, none, some, none-ne,
  arith, eq_iff, str_eq, Bool-cases, Option-cases, inl, inr,
}
use fawa.Common.Dict
use fawa.Common.Dict.{Dict, NodupKeys}
use fawa.Config.{
  Config, ConfigFile, file_read, file_not_found, file_error, Viper, field, IsLawfulViper, Fwlog,
  Process, set_defaults, after_unmarshal, after_read, after_bind, load_and_watch, init_config,
  reloaded, on_config_change,
}

module _ (V : Viper) (F : Fwlog) where
  abbrev Outcome : Type 0
  Outcome = Option String × Process V F

  -- Whatever came of the first `InitConfig`, each later one reports no error and does nothing.
  init_config_once :
      (flags more : List String) (defaults others : Dict String) (p : Process V F)
      → init_config V F more others (init_config V F flags defaults p).1
        ≡ (none, (init_config V F flags defaults p).1)
  unfolding init_config
  init_config_once flags more defaults others p = elim (Bool-cases p.once_done) [
    | inl done ↦ rw (done, init_config) refl
    | inr first ↦ rw (first, init_config) refl
  ]

  -- The state of viper once the flags are bound and the file is read.
  abbrev pub read_state : List String → Process V F → V.State
  read_state flags p =
      (V.read_in_config "config" "yaml" ("." ∷ "/etc/fawa/" ∷ []) (V.bind_pflags flags p.viper).1).1

  module _ (L : IsLawfulViper V) where
    settings-set_defaults_other :
        (d : Dict String) (s : V.State) (k : String)
        → Dict.lookup k d ≡ none
        → V.settings (set_defaults V F d s) k ≡ V.settings s k
    unfolding set_defaults Dict.lookup
    settings-set_defaults_other [] s k out = refl
    settings-set_defaults_other ((j, w) ∷ d) s k out = elim (Bool-cases (str_eq j k)) [
      | inl same ↦ none-ne (sym (rw same at out))
      | inr other ↦
          settings-set_defaults_other d (V.set_default j w s) k (rw other at out)
          ∙ L.settings-set_default_other s j k w (ground (arith, eq_iff j k))
    ]

    -- A default counts where nothing explicit is said.
    settings-set_defaults :
        (d : Dict String) (s : V.State) (k v : String)
        → NodupKeys d
        → Dict.lookup k d ≡ some v
        → V.explicit s k ≡ none
        → V.settings (set_defaults V F d s) k ≡ some v
    unfolding set_defaults Dict.lookup
    settings-set_defaults [] s k v u found free = none-ne found
    settings-set_defaults ((j, w) ∷ d) s k v u found free = elim (Bool-cases (str_eq j k)) [
      | inl same ↦
          let e : j ≡ k = (eq_iff j k).0 same in
          let here : ◌≡◌ {A = Option String} (some w) (some v) = rw same at found in
          settings-set_defaults_other d (V.set_default j w s) k
            (subst (λ x. Dict.lookup x d ≡ none) e u.0)
          ∙ (ap (λ x. V.settings (V.set_default x w s) k) e
              ∙ (L.settings-set_default s k w free ∙ here))
      | inr other ↦
          settings-set_defaults d (V.set_default j w s) k v u.1 (rw other at found)
            (L.explicit-set_default s j k w ∙ free)
    ]

  -- What a load that reports no error leaves: the configuration is what viper decodes before the
  -- defaults are set, and the defaults are set, and changes of the file are watched.
  abbrev pub Loaded : List String → Dict String → Process V F → Process V F → Type 0
  Loaded flags defaults p q =
      (V.unmarshal (read_state flags p) p.config ≡ (none, q.config))
      × (q.viper ≡ set_defaults V F defaults (read_state flags p))
      × (q.watching ≡ true)

  after_unmarshal-Loaded :
      (defaults : Dict String) (o : Option String) (c : Config) (p q : Process V F)
      → after_unmarshal V F defaults (o, c) p ≡ (none, q)
      → (o ≡ none)
        × (q.config ≡ c)
        × (q.viper ≡ set_defaults V F defaults p.viper)
        × (q.watching ≡ true)
  unfolding after_unmarshal
  after_unmarshal-Loaded defaults (some e) c p q h = none-ne (sym (ap (λ (x : Outcome). x.0) h))
  after_unmarshal-Loaded defaults none c p q h =
      let same = ap (λ (x : Outcome). x.1) h in
      (
        refl,
        sym (ap (λ (x : Process V F). x.config) same),
        sym (ap (λ (x : Process V F). x.viper) same),
        sym (ap (λ (x : Process V F). x.watching) same),
      )

  read_file-Loaded :
      (defaults : Dict String) (s : V.State) (p q : Process V F)
      → after_unmarshal V F defaults (V.unmarshal s p.config) (record p { viper = s }) ≡ (none, q)
      → (V.unmarshal s p.config ≡ (none, q.config))
        × (q.viper ≡ set_defaults V F defaults s)
        × (q.watching ≡ true)
  read_file-Loaded defaults s p q h =
      let (o, c) = V.unmarshal s p.config in
      let (clean, config, viper, watching) =
        after_unmarshal-Loaded defaults o c (record p { viper = s }) q h in
      ((λ i. (clean i, sym config i)), viper, watching)

  after_read-Loaded :
      (defaults : Dict String) (f : ConfigFile) (s : V.State) (p q : Process V F)
      → after_read V F defaults (f, s) p ≡ (none, q)
      → (V.unmarshal s p.config ≡ (none, q.config))
        × (q.viper ≡ set_defaults V F defaults s)
        × (q.watching ≡ true)
  unfolding after_read
  after_read-Loaded defaults (file_error e) s p q h = none-ne (sym (ap (λ (x : Outcome). x.0) h))
  after_read-Loaded defaults file_read s p q h = read_file-Loaded defaults s p q h
  after_read-Loaded defaults file_not_found s p q h = read_file-Loaded defaults s p q h

  pub load_and_watch-Loaded :
      (flags : List String) (defaults : Dict String) (p q : Process V F)
      → load_and_watch V F flags defaults p ≡ (none, q)
      → Loaded flags defaults p q
  unfolding load_and_watch after_bind
  load_and_watch-Loaded flags defaults p q h = elim (Option-cases (V.bind_pflags flags p.viper).0) [
    | inl bound ↦
        let (f, s) =
          V.read_in_config "config" "yaml" ("." ∷ "/etc/fawa/" ∷ [])
            (V.bind_pflags flags p.viper).1 in
        after_read-Loaded defaults f s p q (rw (bound, load_and_watch, after_bind) at h)
    | inr (e, failed) ↦
        none-ne (sym (ap (λ (x : Outcome). x.0) (rw (failed, load_and_watch, after_bind) at h)))
  ]

  reloaded-config :
      (o : Option String) (c : Config) (p : Process V F) → (reloaded V F (o, c) p).config ≡ c
  unfolding reloaded
  reloaded-config (some e) c p = refl
  reloaded-config none c p = elim (Option-cases (F.parse_level c.log_level)) [
    | inl bad ↦ rw (bad, reloaded) refl
    | inr (l, good) ↦ rw (good, reloaded) refl
  ]

  reloaded-level :
      (o : Option String) (c : Config) (p : Process V F)
      → ((reloaded V F (o, c) p).level ≡ p.level)
        ⊎ (F.parse_level (reloaded V F (o, c) p).config.log_level
            ≡ some (reloaded V F (o, c) p).level)
  unfolding reloaded
  reloaded-level (some e) c p = inl refl
  reloaded-level none c p = elim (Option-cases (F.parse_level c.log_level)) [
    | inl bad ↦ inl (rw (bad, reloaded) refl)
    | inr (l, good) ↦ inr (rw (good, reloaded) good)
  ]

  -- A load that reports no error, with a log level set nowhere, leaves the log level as it was in the
  -- variable; the default takes effect when the file is reloaded, although nothing changed.
  pub defaults_late :
      (flags : List String) (defaults : Dict String) (level : String) (p q : Process V F)
      (c : Config)
      → IsLawfulViper V
      → load_and_watch V F flags defaults p ≡ (none, q)
      → NodupKeys defaults
      → Dict.lookup "logLevel" defaults ≡ some level
      → V.settings (read_state flags p) "logLevel" ≡ none
      → V.unmarshal q.viper q.config ≡ (none, c)
      → (q.config.log_level ≡ p.config.log_level)
        × ((on_config_change V F q.viper q).config.log_level ≡ level)
  unfolding on_config_change
  defaults_late flags defaults level p q c L loaded u found silent again =
      let (unmarshalled, viper, _) = load_and_watch-Loaded flags defaults p q loaded in
      let free : V.explicit (read_state flags p) "logLevel" ≡ none =
        elim (Option-cases (V.explicit (read_state flags p) "logLevel")) [
          | inl e ↦ e
          | inr (x, said) ↦
              none-ne (sym silent ∙ L.settings-explicit (read_state flags p) "logLevel" x said)
        ] in
      let late : V.settings q.viper "logLevel" ≡ some level =
        rw viper
          (settings-set_defaults L defaults (read_state flags p) "logLevel" level u found free) in
      (
        ap (λ (x : Config). x.log_level)
              (L.unmarshal-decoded (read_state flags p) p.config q.config unmarshalled)
            ∙ ap (λ o. field o p.config.log_level) silent,
        ap (λ (x : Config). x.log_level)
              (reloaded-config (V.unmarshal q.viper q.config).0 (V.unmarshal q.viper q.config).1 q
                ∙ (ap (λ (x : Option String × Config). x.1) again
                    ∙ L.unmarshal-decoded q.viper q.config c again))
            ∙ ap (λ o. field o q.config.log_level) late,
      )

  -- A reload leaves the configuration that viper decodes, also if it fails, and the level of the log
  -- is the one before, or the one that the log level of the new configuration stands for.
  pub on_config_change-level :
      (s : V.State) (p : Process V F)
      → ((on_config_change V F s p).config ≡ (V.unmarshal s p.config).1)
        × (((on_config_change V F s p).level ≡ p.level)
            ⊎ (F.parse_level (on_config_change V F s p).config.log_level
                ≡ some (on_config_change V F s p).level))
  unfolding on_config_change
  on_config_change-level s p =
      let (o, c) = V.unmarshal s p.config in
      (reloaded-config o c (record p { viper = s }), reloaded-level o c (record p { viper = s }))
