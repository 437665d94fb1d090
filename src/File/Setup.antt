-- ===== src/File/Setup.antt =====
-- fileservice/storage/minio.go and dragonfly.go: the setup of the two clients, `Close`, and
-- `ListObjects`. The environment and the answers of the clients are parameters.
use Prim.Native.String.{◌++◌ as ◌<>◌}
use fawa.Common.{
  String, str_eq, eq_iff, ◌≡◌, ◌≢◌, ◌⊎◌, ◌↔◌, inl, inr, refl, subst, sym, ap, ◌∙◌, Bool, true,
  false, ◌||◌, List, [], ◌∷◌, map, Option, none, some, none-ne, arith, if◌then◌else◌, Option-cases,
  Bool-cases,
}
use fawa.File.{Result, ok, err}

-- `new` and `make_bucket` give their error, if any.
pub record Surroundings : Type 0 where
  pub getenv : String → String
  pub new : (endpoint access_key_id secret_access_key : String) → (use_ssl : Bool) → Option String
  pub bucket_exists : String → Result Bool
  pub make_bucket : String → Option String

-- How `init` ends: without a store, with a fatal message, or with a store over a bucket.
pub data Setup : Type 0 where
  skipped : Setup
  stops : String → Setup
  ready : String → Setup

module _ (env : Surroundings) where
  unfoldable pub make_missing : String → Option String → Setup
  make_missing bucket none = ready bucket
  make_missing bucket (some e) =
      stops ((("Failed to create MinIO bucket '" <> bucket) <> "': ") <> e)

  unfoldable pub check_bucket : String → Result Bool → Setup
  unfolding make_missing
  check_bucket bucket (err e) =
      stops ((("Failed to check if MinIO bucket '" <> bucket) <> "' exists: ") <> e)
  check_bucket bucket (ok true) = ready bucket
  check_bucket bucket (ok false) = make_missing bucket (env.make_bucket bucket)

  unfoldable pub connect : String → Option String → Setup
  unfolding check_bucket
  connect bucket (some e) = stops ("Failed to initialize MinIO client: " <> e)
  connect bucket none = check_bucket bucket (env.bucket_exists bucket)

  -- `init` of minio.go.
  unfoldable pub init_minio : Setup
  unfolding connect
  init_minio =
      let endpoint = env.getenv "MINIO_ENDPOINT" in
      let access_key_id = env.getenv "MINIO_ACCESS_KEY_ID" in
      let secret_access_key = env.getenv "MINIO_SECRET_ACCESS_KEY" in
      let bucket = env.getenv "MINIO_BUCKET_NAME" in
      if (str_eq endpoint "" || str_eq access_key_id "")
        || (str_eq secret_access_key "" || str_eq bucket "")
      then skipped
      else connect bucket (
          env.new endpoint access_key_id secret_access_key
            (str_eq (env.getenv "MINIO_USE_SSL") "true"))

  -- The address of Dragonfly in `init` of dragonfly.go.
  unfoldable pub dragonfly_address : String
  dragonfly_address =
      let addr = env.getenv "DRAGONFLY_ADDR" in if str_eq addr "" then "localhost:6379" else addr

  -- The bucket is there: it was found, or it was missing and has been made.
  abbrev pub HasBucket : String → Type 0
  HasBucket bucket =
      (env.bucket_exists bucket ≡ ok true)
      ⊎ ((env.bucket_exists bucket ≡ ok false) × (env.make_bucket bucket ≡ none))

  check_bucket-HasBucket :
      (bucket b : String) (r : Result Bool)
      → env.bucket_exists bucket ≡ r
      → check_bucket bucket r ≡ ready b
      → (b ≡ bucket) × HasBucket bucket
  unfolding check_bucket
  check_bucket-HasBucket bucket b (err e) at_r h = cc
  check_bucket-HasBucket bucket b (ok true) at_r h = (cc, inl at_r)
  check_bucket-HasBucket bucket b (ok false) at_r h = elim (Option-cases (env.make_bucket bucket)) [
    | inl made ↦
        let h' : ready bucket ≡ ready b = rw (made, make_missing) at h in (cc, inr (at_r, made))
    | inr (e, failed) ↦ let h' : stops _ ≡ ready b = rw (failed, make_missing) at h in cc
  ]

  connect-HasBucket :
      (bucket b : String) (o : Option String)
      → connect bucket o ≡ ready b
      → (b ≡ bucket) × HasBucket bucket × (o ≡ none)
  unfolding connect
  connect-HasBucket bucket b (some e) h = cc
  connect-HasBucket bucket b none h =
      let (same, held) = check_bucket-HasBucket bucket b (env.bucket_exists bucket) refl h in
      (same, held, refl)

  connect-ready :
      (bucket : String) (o : Option String)
      → HasBucket bucket
      → o ≡ none
      → connect bucket o ≡ ready bucket
  unfolding connect check_bucket make_missing
  connect-ready bucket (some e) held made = none-ne (sym made)
  connect-ready bucket none (inl there) made = rw (there, check_bucket) refl
  connect-ready bucket none (inr (missing, created)) made =
      rw (missing, check_bucket, created, make_missing) refl

  -- What MinIO's client is made of, and the error that comes of it, if any.
  abbrev made_client : Option String
  made_client =
      env.new (env.getenv "MINIO_ENDPOINT") (env.getenv "MINIO_ACCESS_KEY_ID")
        (env.getenv "MINIO_SECRET_ACCESS_KEY") (str_eq (env.getenv "MINIO_USE_SSL") "true")

  -- What it takes to set up a store over a bucket.
  abbrev pub CanStore : String → Type 0
  CanStore b =
      (b ≡ env.getenv "MINIO_BUCKET_NAME")
      × HasBucket b
      × (made_client ≡ none)
      × (env.getenv "MINIO_ENDPOINT" ≢ "")
      × (env.getenv "MINIO_ACCESS_KEY_ID" ≢ "")
      × (env.getenv "MINIO_SECRET_ACCESS_KEY" ≢ "")
      × (b ≢ "")

  -- Whether one of the four settings is empty.
  abbrev is_unset : Bool
  is_unset =
      (str_eq (env.getenv "MINIO_ENDPOINT") "" || str_eq (env.getenv "MINIO_ACCESS_KEY_ID") "")
      || (str_eq (env.getenv "MINIO_SECRET_ACCESS_KEY") ""
          || str_eq (env.getenv "MINIO_BUCKET_NAME") "")

  CanStore-set : (b : String) → CanStore b → is_unset ≡ false
  CanStore-set b (same, held, made, endpoint, access, secret, named) = ground (
    arith,
    eq_iff (env.getenv "MINIO_ENDPOINT") "",
    eq_iff (env.getenv "MINIO_ACCESS_KEY_ID") "",
    eq_iff (env.getenv "MINIO_SECRET_ACCESS_KEY") "",
    eq_iff (env.getenv "MINIO_BUCKET_NAME") "",
    endpoint,
    access,
    secret,
    λ (e : env.getenv "MINIO_BUCKET_NAME" ≡ ""). named (same ∙ e),
  )

  init_minio-CanStore : (b : String) → init_minio ≡ ready b → CanStore b
  unfolding init_minio
  init_minio-CanStore b h = elim (Bool-cases is_unset) [
    | inl missing ↦ let h' : skipped ≡ ready b = rw (missing, init_minio) at h in cc
    | inr set ↦
        let bucket = env.getenv "MINIO_BUCKET_NAME" in
        let (same, held, made) = connect-HasBucket bucket b _ (rw (set, init_minio) at h) in
        (
          same,
          subst HasBucket (sym same) held,
          made,
          ground (arith, eq_iff (env.getenv "MINIO_ENDPOINT") ""),
          ground (arith, eq_iff (env.getenv "MINIO_ACCESS_KEY_ID") ""),
          ground (arith, eq_iff (env.getenv "MINIO_SECRET_ACCESS_KEY") ""),
          λ e. ground (arith, eq_iff bucket "", sym same ∙ e),
        )
  ]

  -- A store is set up exactly over the bucket that the environment names, where none of the four
  -- settings is empty, a client was made of them, and the bucket was found or was missing and has been
  -- made.
  pub init_minio-ready : (b : String) → (init_minio ≡ ready b) ↔ CanStore b
  unfolding init_minio
  init_minio-ready b = (
    init_minio-CanStore b,
    λ can.
        let (same, held, made, _, _, _, _) = can in
        rw (CanStore-set b can, init_minio)
          (connect-ready (env.getenv "MINIO_BUCKET_NAME") made_client (subst HasBucket same held)
              made
            ∙ ap (λ x. ready x) (sym same)),
  )

unfoldable pub collect : List (Result String) → Result (List String)
collect [] = ok []
collect (err e ∷ rest) = err e
collect (ok name ∷ rest) =
    let names = collect rest in elim names [ err e ↦ err e | ok found ↦ ok (name ∷ found) ]

-- `ListObjects` over what the client sends on its channel. `none` is a store that was not configured.
unfoldable pub list_objects : Option String → List (Result String) → Result (List String)
unfolding collect
list_objects none objects = err "MinIO client is not initialized"
list_objects (some bucket) objects = collect objects

collect-map : (names : List String) → collect (map (λ n. ok n) names) ≡ ok names
unfolding collect
collect-map [] = refl
collect-map (name ∷ names) = rw (collect-map names) refl

add-ok :
    (name : String) (names : List String) (r : Result (List String))
    → ◌≡◌ {A = Result (List String)}
        (elim r [ err e ↦ err e | ok found ↦ ok (name ∷ found) ])
        (ok names)
    → (found : List String) × (r ≡ ok found) × (names ≡ name ∷ found)
add-ok name names (err e) h = cc
add-ok name names (ok found) h = (found, refl, cc)

collect-ok :
    (objects : List (Result String)) (names : List String)
    → collect objects ≡ ok names
    → objects ≡ map (λ n. ok n) names
unfolding collect
collect-ok [] [] h = refl
collect-ok [] (n ∷ names) h = cc
collect-ok (err e ∷ rest) names h = cc
collect-ok (ok name ∷ rest) names h =
    let (found, at_r, e) = add-ok name names (collect rest) h in
    ap (λ l. ok name ∷ l) (collect-ok rest found at_r)
    ∙ ap (λ (l : List String). map (λ n. ok n) l) (sym e)

-- A listing is returned exactly if a store is configured and no object came with an error, and then it
-- is all names, in order.
pub list_objects_iff :
    (store : Option String) (objects : List (Result String)) (names : List String)
    → (list_objects store objects ≡ ok names)
      ↔ (((bucket : String) × (store ≡ some bucket)) × (objects ≡ map (λ n. ok n) names))
unfolding list_objects
list_objects_iff none objects names = (λ h. cc, λ ((b, e), o). none-ne e)
list_objects_iff (some bucket) objects names =
    (λ h. ((bucket, refl), collect-ok objects names h), λ (s, o). ap collect o ∙ collect-map names)

-- What the client of the Dragonfly storage is, with what closing it returns.
pub data Cmdable : Type 0 where
  client cluster_client : Option String → Cmdable
  other : Cmdable

-- `Close`. `none` is the nil pointer.
unfoldable pub close : Option Cmdable → Option String
close none = none
close (some (client e)) = e
close (some (cluster_client e)) = e
close (some other) = none
