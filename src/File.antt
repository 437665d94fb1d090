-- ===== src/File.antt =====
-- fileservice: the shared data of handler/handler.go and storage/, and what the service takes from
-- elsewhere. MinIO, Redis and the JSON encoder are not part of the repository: each is a record of
-- operations, with the documented behaviour that the theorems use as a record of laws.
pub mod Storage
pub mod Setup
pub mod Names
pub mod Upload
mod Pipes
pub mod Integrity
pub mod Errors
pub mod Overwrite
pub mod Download
pub mod Isolation
pub mod History
mod Memory
mod Examples
pub mod Remote
mod Runs
mod Calls
use fawa.Common.{
  ℕ, ◌*◌, ◌+◌, ◌<◌, ◌≤◌, ◌^◌, String, ◌≡◌, ◌≢◌, Bool, true, List, [], ◌++◌, Option, none, some, ℤ,
}

-- `storage.FileMetadata`
pub record FileMetadata : Type 0 where
  pub filename : String
  pub size : ℤ
  pub storage_path : String

-- `filev1.FileInfo`
pub record FileInfo : Type 0 where
  pub name : String
  pub size : ℤ

abbrev pub Bytes : Type 0
Bytes = List ℕ

-- The payload of a `filev1.SendFileRequest`.
pub data Payload : Type 0 where
  info : FileInfo → Payload
  chunk_data : Bytes → Payload
  unset : Payload

pub record SendFileResponse : Type 0 where
  pub success : Bool
  pub message : String
  pub randomkey : String

pub data Result {ℓ} (A : Type ℓ) : Type ℓ where
  ok : A → Result A
  err : String → Result A

-- The codes of `connect` that the service uses.
pub data Code : Type 0 where
  aborted invalid_argument not_found internal : Code

-- A response or a `connect.NewError`.
pub data Reply {ℓ} (A : Type ℓ) : Type ℓ where
  replies : A → Reply A
  rejects : Code → String → Reply A

-- What a call of `PutObject` does with a part of its reader: it reads on, or it returns. `whole`
-- says whether it had read all of that part.
pub data Reading (Upload State : Type 0) : Type 0 where
  reads_on : Upload → Reading Upload State
  returns : (whole : Bool) → State → Option String → Reading Upload State

-- The MinIO client. An `Upload` is a call of `PutObject` that waits for its reader; the reader ends
-- or gives an error.
pub record Minio : Type 1 where
  pub State : Type 0
  pub Upload : Type 0
  pub put_object : String → String → ℤ → State → Upload
  pub read : Upload → Bytes → Reading Upload State
  pub end_of_file : Upload → State × Option String
  pub read_error : Upload → String → State
  pub object : State → String → String → Option Bytes

-- `PutObject` that returns no error has stored what it read.
pub record IsLawfulMinio (M : Minio) : Type 0 where
  pub target : M.Upload → String × String
  pub got : M.Upload → Bytes
  pub got-put_object :
      (bucket name : String) (size : ℤ) (s : M.State) → got (M.put_object bucket name size s) ≡ []
  pub target-put_object :
      (bucket name : String) (size : ℤ) (s : M.State)
      → target (M.put_object bucket name size s) ≡ (bucket, name)
  pub got-read :
      (u v : M.Upload) (b : Bytes)
      → M.read u b ≡ reads_on v
      → (got v ≡ got u ++ b) × (target v ≡ target u)
  pub stored_read :
      (u : M.Upload) (b : Bytes) (s : M.State)
      → M.read u b ≡ returns true s none
      → M.object s (target u).0 (target u).1 ≡ some (got u ++ b)
  pub stored_end :
      (u : M.Upload) (s : M.State)
      → M.end_of_file u ≡ (s, none)
      → M.object s (target u).0 (target u).1 ≡ some (got u)

-- `PutObject` changes no object but its own, whether it stores it or fails. `at_start` is what the
-- bucket held when the call began.
pub record IsIsolatedMinio (M : Minio) (L : IsLawfulMinio M) : Type 0 where
  pub at_start : M.Upload → M.State
  pub at_start-put_object :
      (bucket name : String) (size : ℤ) (s : M.State)
      → at_start (M.put_object bucket name size s) ≡ s
  pub at_start-read :
      (u v : M.Upload) (b : Bytes) → M.read u b ≡ reads_on v → at_start v ≡ at_start u
  pub kept_read :
      (u : M.Upload) (b : Bytes) (whole : Bool) (s : M.State) (e : Option String)
      (bucket name : String)
      → M.read u b ≡ returns whole s e
      → L.target u ≢ (bucket, name)
      → M.object s bucket name ≡ M.object (at_start u) bucket name
  pub kept_end :
      (u : M.Upload) (bucket name : String)
      → L.target u ≢ (bucket, name)
      → M.object (M.end_of_file u).0 bucket name ≡ M.object (at_start u) bucket name
  pub kept_error :
      (u : M.Upload) (e bucket name : String)
      → L.target u ≢ (bucket, name)
      → M.object (M.read_error u e) bucket name ≡ M.object (at_start u) bucket name

-- The Redis client. Times are nanoseconds; a `set` gives its error, if any.
pub record Redis : Type 1 where
  pub State : Type 0
  pub set : String → String → ℕ → ℕ → State → Option String × State
  pub get : String → ℕ → State → Result String

-- A value that was set is there until its time to live is over, and other keys are as before.
pub record IsLawfulRedis (R : Redis) : Type 0 where
  pub get-set :
      (key value : String) (ttl now later : ℕ) (s t : R.State)
      → R.set key value ttl now s ≡ (none, t)
      → now ≤ later
      → later < now + ttl
      → R.get key later t ≡ ok value
  pub get-set_expired :
      (key value : String) (ttl now later : ℕ) (s t : R.State)
      → R.set key value ttl now s ≡ (none, t)
      → now + ttl ≤ later
      → R.get key later t ≡ err "redis: nil"
  pub get-set_other :
      (key j value : String) (ttl now later : ℕ) (s t : R.State)
      → R.set key value ttl now s ≡ (none, t)
      → key ≢ j
      → R.get j later t ≡ R.get j later s

-- A `set` that gives an error leaves other keys as they are.
abbrev pub IsIsolatedRedis : Redis → Type 0
IsIsolatedRedis R =
    (key j value e : String) (ttl now later : ℕ) (s t : R.State)
    → R.set key value ttl now s ≡ (some e, t)
    → key ≢ j
    → R.get j later t ≡ R.get j later s

-- `json.Marshal` and `json.Unmarshal` at `FileMetadata`.
pub record Json : Type 0 where
  pub marshal : FileMetadata → Result String
  pub unmarshal : String → Result FileMetadata

-- What was encoded is decoded to the same value.
abbrev pub IsLawfulJson : Json → Type 0
IsLawfulJson J =
    (m : FileMetadata) (text : String) → J.marshal m ≡ ok text → J.unmarshal text ≡ ok m
