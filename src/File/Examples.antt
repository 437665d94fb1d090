-- ===== src/File/Examples.antt =====
-- Runs of the file service against stores in memory.
use fawa.Common.{
  ◌↔◌, false, str_eq, if◌then◌else◌, String, ◌≡◌, ◌≢◌, eq_iff, refl, true, List, [], ◌∷◌, Option,
  none, some, arith, pos, ◌⊎◌, ◌<◌, ◌≤◌, ◌+◌,
}
use Prim.Native.String.{◌++◌ as ◌<>◌}
use fawa.File.{
  FileInfo, Payload, info, chunk_data, SendFileResponse, internal, Reply, replies, rejects, ok,
  not_found,
}
use fawa.File.Setup.{Surroundings, ready, init_minio, CanStore, init_minio-ready}
use fawa.File.Names.{is_abs, contains, check_name, IsSafe, check_name-IsSafe}
use fawa.File.Storage.{ttl, save_file_meta, get_file_meta}
use fawa.File.Upload.{World, send_file, not_chunk}
use fawa.File.Integrity.{Success, send_file-Success, metadata}
use fawa.File.Overwrite.{send_file-overwrites}
use fawa.File.Errors.{Unsaved, send_file-Unsaved}
use fawa.File.Download.{
  Url, Links, rebase, get_download_url, get_download_url-send_file, file_reply,
}
use fawa.File.Memory.{
  Entries, memory_minio, memory_minio-IsLawful, memory_redis, memory_redis-IsLawful, memory_json,
  memory_json-IsLawful,
}

abbrev pub Stores : Type 0
Stores = World memory_minio memory_redis

abbrev pub empty : Stores
empty = record { bucket = λ bucket name. none; metas = λ key. none }

abbrev pub notes : FileInfo
notes = record { name = "notes.txt"; size = pos 0 }

abbrev pub two_chunks : List Payload
two_chunks = info notes ∷ chunk_data (104 ∷ 105 ∷ []) ∷ chunk_data (33 ∷ []) ∷ []

abbrev answer : Reply SendFileResponse × Stores
answer =
    send_file memory_minio memory_redis memory_json (some "files") "k7" 100 two_chunks none empty

abbrev response : SendFileResponse
response = record {
  success = true;
  message = "File notes.txt uploaded successfully.";
  randomkey = "k7";
}

notes_checked : check_name notes.name ≡ none
unfolding check_name is_abs contains
notes_checked = refl

check_name-IsSafe_example : (check_name notes.name ≡ none) ↔ IsSafe notes.name
check_name-IsSafe_example = check_name-IsSafe notes.name

-- A name that leaves its directory, and an absolute one.
parent_refused : check_name "a/../../etc" ≡ some "invalid file name"
unfolding check_name is_abs contains
parent_refused = refl

absolute_refused : check_name "/etc/passwd" ≡ some "invalid file name"
unfolding check_name is_abs contains
absolute_refused = refl

answered : answer ≡ (replies response, answer.1)
unfolding send_file check_name is_abs contains save_file_meta
answered = refl

-- The bytes of both chunks stand in the bucket.
bytes_stored : answer.1.bucket "files" "notes.txt" ≡ some (104 ∷ 105 ∷ 33 ∷ [])
unfolding send_file check_name is_abs contains save_file_meta
bytes_stored = refl

send_file-Success_example :
    Success memory_minio memory_redis memory_json memory_minio-IsLawful
      (some "files")
      "k7"
      100
      two_chunks
      none
      empty
      answer.1
      response
send_file-Success_example =
    send_file-Success memory_minio memory_redis memory_json memory_minio-IsLawful (some "files")
      "k7" 100 two_chunks none empty answer.1 response answered

-- The info of the file comes a second time, between its chunks.
abbrev pub info_again : List Payload
info_again = chunk_data (104 ∷ []) ∷ info notes ∷ []

abbrev refused : Reply SendFileResponse × Stores
refused =
    send_file memory_minio memory_redis memory_json (some "files") "k7" 100
      (info notes ∷ info_again) none empty

refused_code : refused ≡ (rejects internal not_chunk, refused.1)
unfolding send_file check_name is_abs contains save_file_meta
refused_code = refl

send_file-Unsaved_example :
    (some internal ≡ some internal)
    × Unsaved memory_minio memory_redis memory_json "k7" notes 100 empty refused.1
send_file-Unsaved_example =
    send_file-Unsaved memory_minio memory_redis memory_json (some "files") "k7" 100 notes info_again
      none empty refused.1 internal not_chunk notes_checked refused_code

abbrev metas_after : Option String × Entries
metas_after = save_file_meta memory_redis memory_json "k7" (some (metadata notes)) 100 (λ key. none)

metas_saved : metas_after ≡ (none, metas_after.1)
unfolding save_file_meta
metas_saved = refl

abbrev signed : Url
signed = record {
  scheme = "http";
  host = "minio:9000";
  path = "/files/notes.txt";
  rest = "?X-Amz-Signature=5e1f";
}

abbrev front : Url
front = record { scheme = "https"; host = "fawa.io"; path = "/storage"; rest = "" }

abbrev pub links : Links
links = record {
  presigned_get_object = λ bucket name expires. ok signed;
  parse = λ text. ok front;
  to_string = λ url. ((url.scheme <> "://") <> url.host) <> (url.path <> url.rest);
}

download_link :
    get_download_url links memory_redis memory_json
      (some "files")
      "https://fawa.io/storage"
      200
      "k7"
      metas_after.1
    ≡ replies (record {
      url = "https://fawa.io/storage/files/notes.txt?X-Amz-Signature=5e1f";
      filename = "notes.txt";
    })
unfolding get_download_url get_file_meta save_file_meta rebase
download_link = refl

pub k7_named : ◌≢◌ {A = String} "k7" ""
k7_named = ground (arith, eq_iff "k7" "")

get_download_url-send_file_example :
    (s : Success memory_minio memory_redis memory_json memory_minio-IsLawful
      (some "files")
      "k7"
      100
      two_chunks
      none
      empty
      answer.1
      response)
    × (((200 < 100 + ttl)
          × (get_download_url links memory_redis memory_json
                (some "files")
                ""
                200
                "k7"
                answer.1.metas
              ≡ file_reply links (some "files") "" (metadata s.file)))
        ⊎ ((100 + ttl ≤ 200)
            × (get_download_url links memory_redis memory_json
                  (some "files")
                  ""
                  200
                  "k7"
                  answer.1.metas
                ≡ rejects not_found "file not found or link expired")))
get_download_url-send_file_example =
    get_download_url-send_file memory_minio memory_minio-IsLawful memory_redis memory_redis-IsLawful
      memory_json memory_json-IsLawful links (some "files") "" "k7" 100 200 two_chunks none empty
      answer.1 response k7_named answered (omega arith)

abbrev machine : Surroundings
machine = record {
  getenv = λ name. if str_eq name "MINIO_BUCKET_NAME" then "files" else "set";
  new = λ endpoint access_key_id secret_access_key use_ssl. none;
  bucket_exists = λ bucket. ok false;
  make_bucket = λ bucket. none;
}

is_ready : init_minio machine ≡ ready "files"
unfolding init_minio
is_ready = refl

init_minio-ready_example : (init_minio machine ≡ ready "files") ↔ CanStore machine "files"
init_minio-ready_example = init_minio-ready machine "files"

-- The same name again, with other bytes, under another key.
abbrev pub other_chunks : List Payload
other_chunks = chunk_data (63 ∷ []) ∷ []

abbrev again : Reply SendFileResponse × Stores
again =
    send_file memory_minio memory_redis memory_json (some "files") "k8" 150
      (info notes ∷ other_chunks) none answer.1

abbrev second_response : SendFileResponse
second_response = record response { randomkey = "k8" }

answered_again : again ≡ (replies second_response, again.1)
unfolding send_file check_name is_abs contains save_file_meta
answered_again = refl

keys_differ : ◌≢◌ {A = String} "k8" "k7"
keys_differ = ground (arith, eq_iff "k8" "k7")

send_file-overwrites_example :
    (get_file_meta memory_redis memory_json "k7" 200 again.1.metas ≡ ok (metadata notes))
    × (again.1.bucket "files" "notes.txt" ≡ some (63 ∷ []))
send_file-overwrites_example =
    send_file-overwrites memory_minio memory_minio-IsLawful memory_redis memory_redis-IsLawful
      memory_json memory_json-IsLawful "files" "k7" "k8" 100 150 200 notes notes
      (chunk_data (104 ∷ 105 ∷ []) ∷ chunk_data (33 ∷ []) ∷ []) other_chunks empty answer.1 again.1
      response second_response keys_differ refl answered answered_again (omega arith) (omega arith)
