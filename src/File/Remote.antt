-- ===== src/File/Remote.antt =====
-- fileservice end to end: generated clients call, and the mux of main.go and the generated handler
-- bring the calls to handler/handler.go.
use fawa.Common.{ℕ, ◌≤◌, String, ◌≡◌, ◌≢◌, refl, ap, List, [], ◌∷◌, map, All, Option, none, some}
use fawa.Route.{
  Connect, IsLawfulConnect, UnaryCalls, ServerStreamCalls, ClientStreamCalls, IsLawfulCalls,
  trim_right, call_with,
}
use fawa.Route.FileConnect.{
  FileServiceHandler, new_file_service_client, call_send_file, call_get_download_url,
}
use fawa.Route.Mux.{fileservice_mux}
use fawa.Route.Agreement.{file_clients-Reaches}
use fawa.Route.Network.{IsServed, Reaches-call}
use fawa.File.{
  Payload, SendFileResponse, Reply, Minio, IsLawfulMinio, IsIsolatedMinio, Redis, IsLawfulRedis,
  IsIsolatedRedis, Json, IsLawfulJson,
}
use fawa.File.Upload.{World, send_file}
use fawa.File.Download.{GetDownloadUrlResponse, Links, get_download_url, receive_file}
use fawa.File.History.{Call, Log, Allows, bytes_after, link_after, serve, serve-Allows}

-- What the methods do: `SendFile` on a random key, a time, the messages of a stream, the error that it
-- ends with and the stores; `ReceiveFile` on a request; `GetDownloadURL` on a request, a time and the
-- stores.
abbrev pub SendRun : Minio → Redis → Type 0
SendRun M R =
    String → ℕ → List Payload → Option String → World M R → Reply SendFileResponse × World M R

abbrev pub ReceiveRun : Type 0
ReceiveRun = String → List (List ℕ) × Option String

abbrev pub DownloadRun : Minio → Redis → Type 0
DownloadRun M R = String → ℕ → World M R → Reply GetDownloadUrlResponse

module _ (C : Connect) (M : Minio) (R : Redis) (J : Json) (K : Links)
    (send : ClientStreamCalls C (SendRun M R)) (receive : ServerStreamCalls C ReceiveRun)
    (download : UnaryCalls C (DownloadRun M R)) (bucket endpoint : String) where
  -- `&handler.FileServiceHandler{}` as main.go hands it to the generated code.
  unfoldable pub file_handler : FileServiceHandler C
  file_handler = record {
    send_file = send.method (send_file M R J (some bucket));
    receive_file = receive.method receive_file;
    get_download_url =
        download.method
          (λ key now w. get_download_url K R J (some bucket) endpoint now key w.metas);
  }

  -- The network serves the mux of fileservice below a base URL without its last slashes.
  abbrev pub Serves : (String → Option C.Handler) → String → Type 0
  Serves net base = IsServed C (trim_right base) (fileservice_mux C file_handler) net

  -- Calls of `SendFile` by clients, each made for its own base URL, the latest first.
  pub remote_serve :
      (String → Option C.Handler) → List (String × Call) → World M R → Option (Log × World M R)
  remote_serve net [] v = some ([], v)
  remote_serve net ((base, c) ∷ earlier) v = elim (remote_serve net earlier v) [
    | none ↦ none
    | some (log, w) ↦ elim (call_send_file C send (new_file_service_client C base) net) [
      | none ↦ none
      | some run ↦ let (a, u) = run c.key c.now c.messages c.stream_err w in some ((c, a) ∷ log, u)
    ]
  ]

  -- A call of `GetDownloadURL` by a client.
  pub remote_download :
      (String → Option C.Handler)
      → String
      → String
      → ℕ
      → World M R
      → Option (Reply GetDownloadUrlResponse)
  remote_download net base key later w =
      elim (call_get_download_url C download (new_file_service_client C base) net key) [
        | none ↦ none
        | some run ↦ some (run later w)
      ]

-- The log names the calls.
serve-calls :
    (M : Minio) (R : Redis) (J : Json) (bucket : String) (calls : List Call) (v : World M R)
    → map (λ (e : Call × Reply SendFileResponse). e.0) (serve M R J bucket calls v).0 ≡ calls
unfolding serve
serve-calls M R J bucket [] v = refl
serve-calls M R J bucket (c ∷ earlier) v = ap (λ l. c ∷ l) (serve-calls M R J bucket earlier v)

module _ (C : Connect) (LC : IsLawfulConnect C) (M : Minio) (R : Redis) (J : Json) (K : Links)
    (send : ClientStreamCalls C (SendRun M R)) (receive : ServerStreamCalls C ReceiveRun)
    (download : UnaryCalls C (DownloadRun M R)) (bucket endpoint : String)
    (LS : IsLawfulCalls C C.ClientStream C.new_client_stream_handler (SendRun M R) send)
    (LD : IsLawfulCalls C C.Unary C.new_unary_handler (DownloadRun M R) download)
    (net : String → Option C.Handler) where
  send_file-reached :
      (base : String)
      → Serves C M R J K send receive download bucket endpoint net base
      → call_send_file C send (new_file_service_client C base) net
        ≡ some (send_file M R J (some bucket))
  unfolding call_send_file file_handler
  send_file-reached base on =
      let f = file_handler C M R J K send receive download bucket endpoint in
      Reaches-call C C.ClientStream _ C.new_client_stream_handler send LS (trim_right base)
        (fileservice_mux C f) net _ _ _ on (file_clients-Reaches C LC base f).0

  -- Calls over the network are calls of the service.
  remote_serve-serve :
      (calls : List (String × Call)) (v : World M R)
      → All
          (λ (c : String × Call). Serves C M R J K send receive download bucket endpoint net c.0)
          calls
      → remote_serve C M R J K send receive download bucket endpoint net calls v
        ≡ some (serve M R J bucket (map (λ (c : String × Call). c.1) calls) v)
  unfolding remote_serve serve
  remote_serve-serve [] v on = refl
  remote_serve-serve ((base, c) ∷ earlier) v (here, on) =
      rw (remote_serve-serve earlier v on, remote_serve)
        (rw (send_file-reached base here, remote_serve) refl)

  remote_download-get_download_url :
      (base key : String) (later : ℕ) (w : World M R)
      → Serves C M R J K send receive download bucket endpoint net base
      → remote_download C M R J K send receive download bucket endpoint net base key later w
        ≡ some (get_download_url K R J (some bucket) endpoint later key w.metas)
  unfolding remote_download call_get_download_url call_with file_handler
  remote_download-get_download_url base key later w on =
      let f = file_handler C M R J K send receive download bucket endpoint in
      let reached =
        Reaches-call C C.Unary _ C.new_unary_handler download LD (trim_right base)
          (fileservice_mux C f) net _ _ _ on (file_clients-Reaches C LC base f).2 in
      rw (reached, call_with, remote_download) refl

  module _ (L : IsLawfulMinio M) (I : IsIsolatedMinio M L) (LR : IsLawfulRedis R)
      (IR : IsIsolatedRedis R) (LJ : IsLawfulJson J) where
    -- Clients of fileservice, each made for a base URL of its own below which the network serves the
    -- mux of the service, call `SendFile` one after the other, and then one calls `GetDownloadURL`: all
    -- calls are answered, and the answer to the last one, and the bytes under each name, are those that
    -- the specification of the service promises from the calls and their answers.
    pub remote_serve-Allows :
        (calls : List (String × Call)) (v : World M R) (base key name : String) (later : ℕ)
        → All
            (λ (c : String × Call). Serves C M R J K send receive download bucket endpoint net c.0)
            calls
        → Serves C M R J K send receive download bucket endpoint net base
        → key ≢ ""
        → All (λ (c : Call). c.now ≤ later) (map (λ (c : String × Call). c.1) calls)
        → (log : Log) × (w : World M R) × (a : Reply GetDownloadUrlResponse) × (remote_serve C M R J
              K send receive download bucket endpoint net calls v
            ≡ some (log, w))
          × (remote_download C M R J K send receive download bucket endpoint net base key later w
              ≡ some a)
          × (map (λ (e : Call × Reply SendFileResponse). e.0) log
              ≡ map (λ (c : String × Call). c.1) calls)
          × Allows
              (link_after K bucket endpoint key later
                (get_download_url K R J (some bucket) endpoint later key v.metas)
                log)
              a
          × Allows
              (bytes_after name (M.object v.bucket bucket name) log)
              (M.object w.bucket bucket name)
    remote_serve-Allows calls v base key name later on here keyed past =
        let run = map (λ (c : String × Call). c.1) calls in
        let (log, w) = serve M R J bucket run v in
        let (link, bytes) =
          serve-Allows M L I R LR IR J LJ K bucket endpoint run v key name later keyed past in
        (
          log,
          w,
          get_download_url K R J (some bucket) endpoint later key w.metas,
          remote_serve-serve calls v on,
          remote_download-get_download_url base key later w here,
          serve-calls M R J bucket run v,
          link,
          bytes,
        )
