-- ===== src/File/Storage.antt =====
-- fileservice/storage/dragonfly.go and minio.go: metadata in Redis, contents in MinIO.
use fawa.Common.{
  ℕ, ◌*◌, ◌+◌, ◌<◌, ◌≤◌, ◌^◌, String, ◌≡◌, ◌≢◌, ap, refl, Option, none, some, arith, inl, inr, ◌⊎◌,
  dec_lt, Option-cases,
}
use fawa.File.{
  FileMetadata, Result, ok, err, Redis, Json, IsLawfulRedis, IsIsolatedRedis, IsLawfulJson,
}

-- `25 * time.Minute`
abbrev pub ttl : ℕ
ttl = 25 * 60 * 10 ^ 9

module _ (R : Redis) (J : Json) where
  save_encoded : String → Result String → ℕ → R.State → Option String × R.State
  save_encoded key (err e) now s = (some e, s)
  save_encoded key (ok text) now s = R.set key text ttl now s

  -- `SaveFileMeta`: an error, if any, and the store. `none` is the nil pointer.
  unfoldable pub save_file_meta :
      String → Option FileMetadata → ℕ → R.State → Option String × R.State
  unfolding save_encoded
  save_file_meta key none now s = (some "metadata cannot be nil", s)
  save_file_meta key (some m) now s = save_encoded key (J.marshal m) now s

  unfoldable pub get_file_meta : String → ℕ → R.State → Result FileMetadata
  get_file_meta key now s = elim (R.get key now s) [ err e ↦ err e | ok text ↦ J.unmarshal text ]

  saved_text :
      (key : String) (e : Result String) (now : ℕ) (s t : R.State)
      → save_encoded key e now s ≡ (none, t)
      → (text : String) × (e ≡ ok text) × (R.set key text ttl now s ≡ (none, t))
  unfolding save_encoded
  saved_text key (err e) now s t h = cc
  saved_text key (ok text) now s t h = (text, refl, h)

  -- Saving under one key leaves what is read under another.
  pub get_file_meta-save_file_meta_other :
      IsLawfulRedis R
      → (key j : String) (m : FileMetadata) (now later : ℕ) (s t : R.State)
      → save_file_meta key (some m) now s ≡ (none, t)
      → key ≢ j
      → get_file_meta j later t ≡ get_file_meta j later s
  unfolding save_file_meta get_file_meta
  get_file_meta-save_file_meta_other L key j m now later s t saved apart =
      let (text, encoded, set) = saved_text key (J.marshal m) now s t saved in
      ap (λ o. elim o [ err e ↦ err e | ok text ↦ J.unmarshal text ])
        (L.get-set_other key j text ttl now later s t set apart)

  save_encoded_apart :
      IsLawfulRedis R
      → IsIsolatedRedis R
      → (key j : String) (e : Result String) (now later : ℕ) (s : R.State) → key ≢ j
      → R.get j later (save_encoded key e now s).1 ≡ R.get j later s
  unfolding save_encoded
  save_encoded_apart L I key j (err e) now later s apart = refl
  save_encoded_apart L I key j (ok text) now later s apart =
      elim (Option-cases (R.set key text ttl now s).0) [
        | inl fine ↦
            L.get-set_other key j text ttl now later s (R.set key text ttl now s).1
              (λ i. (fine i, (R.set key text ttl now s).1)) apart
        | inr (e, failed) ↦
            I key j text e ttl now later s (R.set key text ttl now s).1
              (λ i. (failed i, (R.set key text ttl now s).1)) apart
      ]

  -- The same, whether the saving fails or not.
  pub get_file_meta-save_file_meta_apart :
      IsLawfulRedis R
      → IsIsolatedRedis R
      → (key j : String) (m : Option FileMetadata) (now later : ℕ) (s : R.State) → key ≢ j
      → get_file_meta j later (save_file_meta key m now s).1 ≡ get_file_meta j later s
  unfolding save_file_meta get_file_meta
  get_file_meta-save_file_meta_apart L I key j none now later s apart = refl
  get_file_meta-save_file_meta_apart L I key j (some m) now later s apart =
      ap (λ o. elim o [ err e ↦ err e | ok text ↦ J.unmarshal text ])
        (save_encoded_apart L I key j (J.marshal m) now later s apart)

  -- Metadata that was saved without an error is read back for 25 minutes, and is gone after that.
  pub get_file_meta-save_file_meta :
      IsLawfulRedis R
      → IsLawfulJson J
      → (key : String) (m : FileMetadata) (now later : ℕ) (s t : R.State)
      → save_file_meta key (some m) now s ≡ (none, t)
      → now ≤ later
      → ((later < now + ttl) × (get_file_meta key later t ≡ ok m))
        ⊎ ((now + ttl ≤ later) × (get_file_meta key later t ≡ err "redis: nil"))
  unfolding save_file_meta get_file_meta
  get_file_meta-save_file_meta L K key m now later s t saved le =
      let (text, encoded, set) = saved_text key (J.marshal m) now s t saved in
      elim (dec_lt later (now + ttl)) [
        | yes soon ↦ inl (
          soon,
          rw (L.get-set key text ttl now later s t set le soon, get_file_meta) (K m text encoded),
        )
        | no late ↦ inr (
          omega arith,
          rw (L.get-set_expired key text ttl now later s t set (omega arith), get_file_meta),
        )
      ]
