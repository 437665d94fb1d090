-- ===== src/File/Calls.antt =====
-- Clients of the file service in a network in memory.
use fawa.Common.{String, ◌≡◌, List, ◌∷◌, map, Option, none, some, arith}
use fawa.Route.{Connect, trim_right}
use fawa.Route.Mux.{fileservice_mux}
use fawa.Route.Memory.{
  Method, memory_connect, memory_connect-IsLawful, unary_calls, unary_calls-IsLawful,
  server_stream_calls, client_stream_calls, client_stream_calls-IsLawful, network, network-IsServed,
}
use fawa.File.{SendFileResponse, Reply}
use fawa.File.Upload.{World}
use fawa.File.Download.{GetDownloadUrlResponse, get_download_url}
use fawa.File.History.{Call, Log, Allows, bytes_after, link_after}
use fawa.File.Memory.{
  memory_minio, memory_minio-IsLawful, memory_minio-IsIsolated, memory_redis, memory_redis-IsLawful,
  memory_redis-IsIsolated, memory_json, memory_json-IsLawful,
}
use fawa.File.Remote.{
  SendRun, ReceiveRun, DownloadRun, file_handler, remote_serve, remote_download, Serves,
  remote_serve-Allows,
}
use fawa.File.Examples.{empty, links, k7_named}
use fawa.File.Runs.{calls, fourth_call, three_calls}

abbrev Sends : Type 0
Sends = SendRun memory_minio memory_redis

abbrev Downloads : Type 0
Downloads = DownloadRun memory_minio memory_redis

abbrev wires : Connect
wires = memory_connect Downloads ReceiveRun Sends (Unit {0})

abbrev net : String → Option (Method Downloads ReceiveRun Sends (Unit {0}))
net = network wires "https://fawa.io/rpc" (
    fileservice_mux wires (
      file_handler wires memory_minio memory_redis memory_json links
        (client_stream_calls Downloads ReceiveRun Sends (Unit {0}))
        (server_stream_calls Downloads ReceiveRun Sends (Unit {0}))
        (unary_calls Downloads ReceiveRun Sends (Unit {0})) "files" ""))

abbrev ServesHere : String → Type 0
ServesHere =
    Serves wires memory_minio memory_redis memory_json links
      (client_stream_calls Downloads ReceiveRun Sends (Unit {0}))
      (server_stream_calls Downloads ReceiveRun Sends (Unit {0}))
      (unary_calls Downloads ReceiveRun Sends (Unit {0})) "files" "" net

two_slashes : ServesHere "https://fawa.io/rpc//"
unfolding trim_right
two_slashes = network-IsServed wires "https://fawa.io/rpc" _

no_slash : ServesHere "https://fawa.io/rpc"
unfolding trim_right
no_slash = network-IsServed wires "https://fawa.io/rpc" _

-- Each of the four calls by a client of its own, the fourth made for another spelling of the base URL.
abbrev remote_calls : List (String × Call)
remote_calls =
    ("https://fawa.io/rpc", fourth_call) ∷ map (λ c. ("https://fawa.io/rpc//", c)) three_calls

abbrev remote_out : Option (Log × World memory_minio memory_redis)
remote_out =
    remote_serve wires memory_minio memory_redis memory_json links
      (client_stream_calls Downloads ReceiveRun Sends (Unit {0}))
      (server_stream_calls Downloads ReceiveRun Sends (Unit {0}))
      (unary_calls Downloads ReceiveRun Sends (Unit {0})) "files" "" net remote_calls empty

abbrev remote_link : World memory_minio memory_redis → Option (Reply GetDownloadUrlResponse)
remote_link w =
    remote_download wires memory_minio memory_redis memory_json links
      (client_stream_calls Downloads ReceiveRun Sends (Unit {0}))
      (server_stream_calls Downloads ReceiveRun Sends (Unit {0}))
      (unary_calls Downloads ReceiveRun Sends (Unit {0})) "files" "" net "https://fawa.io/rpc" "k7"
      200 w

remote_serve-Allows_example :
    (log : Log) × (w : World memory_minio memory_redis) × (a : Reply GetDownloadUrlResponse)
    × (remote_out ≡ some (log, w))
    × (remote_link w ≡ some a)
    × (map (λ (e : Call × Reply SendFileResponse). e.0) log ≡ calls)
    × Allows
        (link_after links "files" "" "k7" 200
          (get_download_url links memory_redis memory_json (some "files") "" 200 "k7" empty.metas)
          log)
        a
    × Allows (bytes_after "notes.txt" none log) (w.bucket "files" "notes.txt")
remote_serve-Allows_example =
    remote_serve-Allows wires (memory_connect-IsLawful Downloads ReceiveRun Sends (Unit {0}))
      memory_minio memory_redis memory_json links
      (client_stream_calls Downloads ReceiveRun Sends (Unit {0}))
      (server_stream_calls Downloads ReceiveRun Sends (Unit {0}))
      (unary_calls Downloads ReceiveRun Sends (Unit {0})) "files" ""
      (client_stream_calls-IsLawful Downloads ReceiveRun Sends (Unit {0}))
      (unary_calls-IsLawful Downloads ReceiveRun Sends (Unit {0})) net memory_minio-IsLawful
      memory_minio-IsIsolated memory_redis-IsLawful memory_redis-IsIsolated memory_json-IsLawful
      remote_calls empty "https://fawa.io/rpc" "k7" "notes.txt" 200
      (no_slash, (two_slashes, (two_slashes, (two_slashes, tt)))) no_slash k7_named
      (omega arith, (omega arith, (omega arith, (omega arith, tt))))
