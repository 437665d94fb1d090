-- ===== src/File/Memory.antt =====
-- Stores in memory that meet the assumptions on MinIO, Redis and the JSON encoder, for the examples.
use fawa.Common.{
  ℕ, zero, ◌+◌, String, str_eq, eq_iff, eq_refl, ◌≡◌, refl, sym, ap, Bool-cases, inl, inr, suc,
  false, lt→ltb, ◌∙◌, [], ◌++◌, Option, none, some, arith, ltb, if◌then◌else◌, ℤ, pos, negsuc, ◌&&◌,
  ◌≢◌, none-ne, true,
}
use fawa.File.{
  FileMetadata, Bytes, Result, ok, err, Reading, reads_on, returns, Minio, IsLawfulMinio,
  IsIsolatedMinio, Redis, IsIsolatedRedis, IsLawfulRedis, Json, IsLawfulJson,
}

abbrev pub Objects : Type 0
Objects = String → String → Option Bytes

pub record Open : Type 0 where
  pub bucket : String
  pub name : String
  pub bytes : Bytes
  pub objects : Objects

abbrev pub put : String → String → Bytes → Objects → Objects
put bucket name bytes objects b n =
    if str_eq bucket b && str_eq name n then some bytes else objects b n

abbrev pub memory_minio : Minio
memory_minio = record {
  State = Objects;
  Upload = Open;
  put_object = λ bucket name size objects. record {
    bucket = bucket;
    name = name;
    bytes = [];
    objects = objects;
  };
  read = λ u b. reads_on (record u { bytes = u.bytes ++ b });
  end_of_file = λ u. (put u.bucket u.name u.bytes u.objects, none);
  read_error = λ u e. u.objects;
  object = λ objects bucket name. objects bucket name;
}

abbrev open_of : Reading Open Objects → Open → Open
open_of (reads_on v) u = v
open_of (returns x s e) u = u

put_same :
    (bucket name : String) (b : Bytes) (s : Objects) → put bucket name b s bucket name ≡ some b
put_same bucket name b s = rw (eq_refl bucket, eq_refl name) refl

pub memory_minio-IsLawful : IsLawfulMinio memory_minio
memory_minio-IsLawful = record {
  target = λ u. (u.bucket, u.name);
  got = λ u. u.bytes;
  got-put_object = λ bucket name size s. refl;
  target-put_object = λ bucket name size s. refl;
  got-read = λ u v b e.
      let same : record u { bytes = u.bytes ++ b } ≡ v = ap (λ r. open_of r u) e in
      (sym (ap (λ (x : Open). x.bytes) same), sym (ap (λ (x : Open). (x.bucket, x.name)) same));
  stored_read = λ u b s e. cc;
  stored_end = λ u s e.
      ap (λ (x : Objects × Option String). x.0 u.bucket u.name) (sym e)
      ∙ put_same u.bucket u.name u.bytes u.objects;
}

put_other :
    (bucket name b n : String) (bytes : Bytes) (s : Objects)
    → ◌≢◌ {A = String × String} (bucket, name) (b, n)
    → put bucket name bytes s b n ≡ s b n
put_other bucket name b n bytes s apart = elim (Bool-cases (str_eq bucket b && str_eq name n)) [
  | inl both ↦
      let same_bucket : str_eq bucket b ≡ true = ground (arith, both) in
      let same_name : str_eq name n ≡ true = ground (arith, both) in
      absurd (apart (λ i. ((eq_iff bucket b).0 same_bucket i, (eq_iff name n).0 same_name i)))
  | inr not_both ↦ rw not_both refl
]

pub memory_minio-IsIsolated : IsIsolatedMinio memory_minio memory_minio-IsLawful
unfolding memory_minio-IsLawful
memory_minio-IsIsolated = record {
  at_start = λ u. u.objects;
  at_start-put_object = λ bucket name size s. refl;
  at_start-read = λ u v b e.
      let same : record u { bytes = u.bytes ++ b } ≡ v = ap (λ r. open_of r u) e in
      sym (ap (λ (x : Open). x.objects) same);
  kept_read = λ u b whole s x bucket name e apart. cc;
  kept_end = λ u bucket name apart. put_other u.bucket u.name bucket name u.bytes u.objects apart;
  kept_error = λ u e bucket name apart. refl;
}

-- Each key with its value and the time at which it goes.
abbrev pub Entries : Type 0
Entries = String → Option (String × ℕ)

abbrev pub alive : ℕ → Option (String × ℕ) → Result String
alive now none = err "redis: nil"
alive now (some (value, until)) = if ltb now until then ok value else err "redis: nil"

abbrev pub memory_redis : Redis
memory_redis = record {
  State = Entries;
  set = λ key value ttl now s. (none, λ k. if str_eq key k then some (value, now + ttl) else s k);
  get = λ key now s. alive now (s key);
}

pub memory_redis-IsLawful : IsLawfulRedis memory_redis
memory_redis-IsLawful = record {
  get-set = λ key value ttl now later s t e le soon.
      let new : t key ≡ some (value, now + ttl) =
        sym (ap (λ (x : Option String × Entries). x.1 key) e) ∙ rw (eq_refl key) refl in
      rw (new, lt→ltb later (now + ttl) soon) refl;
  get-set_expired = λ key value ttl now later s t e late.
      let new : t key ≡ some (value, now + ttl) =
        sym (ap (λ (x : Option String × Entries). x.1 key) e) ∙ rw (eq_refl key) refl in
      let past : ltb later (now + ttl) ≡ false = ground arith in rw (new, past) refl;
  get-set_other = λ key j value ttl now later s t e apart.
      let kept : t j ≡ s j =
        sym (ap (λ (x : Option String × Entries). x.1 j) e) ∙ ground (arith, eq_iff key j) in
      ap (alive later) kept;
}

pub memory_redis-IsIsolated : IsIsolatedRedis memory_redis
memory_redis-IsIsolated key j value e ttl now later s t h apart =
    none-ne (ap (λ (x : Option String × Entries). x.0) h)

-- An encoder for the metadata of empty files that are stored under their own name.
abbrev pub encode : String → ℤ → String → Result String
encode filename (pos zero) path = if str_eq filename path then ok filename else err "unsupported"
encode filename _ path = err "unsupported"

abbrev pub memory_json : Json
memory_json = record {
  marshal = λ m. encode m.filename m.size m.storage_path;
  unmarshal = λ text. ok (record { filename = text; size = pos 0; storage_path = text });
}

encode-decode :
    (filename path text : String) (size : ℤ)
    → encode filename size path ≡ ok text
    → ◌≡◌ {A = FileMetadata}
        (record { filename = text; size = pos 0; storage_path = text })
        (record { filename = filename; size = size; storage_path = path })
encode-decode filename path text (pos zero) h = elim (Bool-cases (str_eq filename path)) [
  | inl same ↦
      let h' : ◌≡◌ {A = Result String} (ok filename) (ok text) = rw same at h in
      let named : filename ≡ text = cc in
      let stored : filename ≡ path = (eq_iff filename path).0 same in
      λ i. record { filename = sym named i; size = pos 0; storage_path = (sym named ∙ stored) i }
  | inr other ↦ let h' : ◌≡◌ {A = Result String} (err "unsupported") (ok text) = rw other at h in cc
]
encode-decode filename path text (pos (suc n)) h = cc
encode-decode filename path text (negsuc n) h = cc

pub memory_json-IsLawful : IsLawfulJson memory_json
memory_json-IsLawful m text e =
    ap (λ x. ok x) (encode-decode m.filename m.storage_path text m.size e)
