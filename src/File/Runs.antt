-- ===== src/File/Runs.antt =====
-- A history of calls of the file service against stores in memory.
use fawa.Common.{◌≡◌, refl, List, [], ◌∷◌, Option, none, some, arith, pos}
use fawa.File.{FileInfo, info, SendFileResponse, not_found, Reply, rejects}
use fawa.File.Names.{is_abs, contains, check_name}
use fawa.File.Storage.{save_file_meta}
use fawa.File.Upload.{World, send_file}
use fawa.File.Integrity.{metadata}
use fawa.File.Download.{GetDownloadUrlResponse, get_download_url, file_reply}
use fawa.File.Isolation.{name_of}
use fawa.File.History.{Call, Allows, bytes_after, link_after, serve, serve-Allows}
use fawa.File.Memory.{
  memory_minio, memory_minio-IsLawful, memory_minio-IsIsolated, memory_redis, memory_redis-IsLawful,
  memory_redis-IsIsolated, memory_json, memory_json-IsLawful,
}
use fawa.File.Examples.{empty, notes, two_chunks, other_chunks, info_again, links, k7_named}

-- The latest first: a name that leaves its directory, a stream with the info in the middle, for a file
-- of its own, a second file of the first one's name, and the first file.
abbrev outside : FileInfo
outside = record { name = "../etc/passwd"; size = pos 0 }

abbrev draft : FileInfo
draft = record { name = "draft.txt"; size = pos 0 }

abbrev pub fourth_call : Call
fourth_call = record { key = "k10"; now = 130; messages = info outside ∷ []; stream_err = none }

abbrev pub three_calls : List Call
three_calls =
    record { key = "k9"; now = 120; messages = info draft ∷ info_again; stream_err = none }
    ∷ record { key = "k8"; now = 110; messages = info notes ∷ other_chunks; stream_err = none }
    ∷ record { key = "k7"; now = 100; messages = two_chunks; stream_err = none }
    ∷ []

abbrev pub calls : List Call
calls = fourth_call ∷ three_calls

abbrev served : List (Call × Reply SendFileResponse) × World memory_minio memory_redis
served = serve memory_minio memory_redis memory_json "files" calls empty

abbrev promised : Option (Reply GetDownloadUrlResponse)
promised =
    link_after links "files" "" "k7" 200 (rejects not_found "file not found or link expired")
      served.0

abbrev found : Reply GetDownloadUrlResponse
found = get_download_url links memory_redis memory_json (some "files") "" 200 "k7" served.1.metas

-- The first key is answered with the link of its file, under whose name the bytes are those of the
-- second file. The file of the broken stream has no promise, and the name that was refused is as it
-- was.
promised_link : promised ≡ some (file_reply links (some "files") "" (metadata notes))
unfolding link_after serve send_file check_name is_abs contains save_file_meta
promised_link = refl

promised_bytes : bytes_after "notes.txt" none served.0 ≡ some (some (63 ∷ []))
unfolding bytes_after name_of serve send_file check_name is_abs contains save_file_meta
promised_bytes = refl

no_promise : bytes_after "draft.txt" none served.0 ≡ none
unfolding bytes_after name_of serve send_file check_name is_abs contains save_file_meta
no_promise = refl

nothing_outside : bytes_after "../etc/passwd" none served.0 ≡ some none
unfolding bytes_after name_of serve send_file check_name is_abs contains save_file_meta
nothing_outside = refl

serve-Allows_example :
    Allows
      (link_after links "files" "" "k7" 200
        (get_download_url links memory_redis memory_json (some "files") "" 200 "k7" empty.metas)
        served.0)
      found
    × Allows (bytes_after "notes.txt" none served.0) (served.1.bucket "files" "notes.txt")
serve-Allows_example =
    serve-Allows memory_minio memory_minio-IsLawful memory_minio-IsIsolated memory_redis
      memory_redis-IsLawful memory_redis-IsIsolated memory_json memory_json-IsLawful links "files"
      "" calls empty "k7" "notes.txt" 200 k7_named
      (omega arith, (omega arith, (omega arith, (omega arith, tt))))
