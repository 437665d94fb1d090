-- ===== src/File/Upload.antt =====
-- fileservice/handler/handler.go, `SendFile`: the messages of the stream go through a pipe to a
-- goroutine that runs `storage.UploadFile`. A write to the pipe waits until it is read or the reader
-- is closed, so the two goroutines take turns, and the whole is a function.
use fawa.Common.{ℕ, String, true, false, List, [], ◌∷◌, Option, none, some, ℤ}
use Prim.Native.String.{◌++◌ as ◌<>◌}
use fawa.File.{
  FileMetadata, FileInfo, Bytes, Payload, info, chunk_data, unset, SendFileResponse, aborted,
  invalid_argument, internal, Reply, replies, rejects, Reading, reads_on, returns, Minio, Redis,
  Json,
}
use fawa.File.Names.{check_name}
use fawa.File.Storage.{save_file_meta}

-- What the two stores hold.
pub record World (M : Minio) (R : Redis) : Type 0 where
  pub bucket : M.State
  pub metas : R.State

-- The goroutine of the upload: it reads from the pipe, or it has closed its end and left its error,
-- if any, in `errChan`.
pub data Pipe (M : Minio) : Type 0 where
  reading : M.Upload → Pipe M
  closed : M.State → Option String → Pipe M

abbrev pub closed_pipe : String
closed_pipe = "io: read/write on closed pipe"

abbrev pub not_chunk : String
not_chunk = "invalid_argument: subsequent messages must be chunk data"

module _ (M : Minio) where
  -- `UploadFile`. `none` is a store that was not configured.
  unfoldable pub upload_file : Option String → String → ℤ → M.State → Pipe M
  upload_file none name size s = closed s (some "MinIO client is not initialized")
  upload_file (some bucket) name size s = reading (M.put_object bucket name size s)

  unfoldable pub after_read : Reading M.Upload M.State → Pipe M × Option String
  after_read (reads_on v) = (reading v, none)
  after_read (returns true s e) = (closed s e, none)
  after_read (returns false s e) = (closed s e, some closed_pipe)

  -- `pw.Write`
  unfoldable pub write : Bytes → Pipe M → Pipe M × Option String
  unfolding after_read
  write b (reading u) = after_read (M.read u b)
  write b (closed s e) = (closed s e, some closed_pipe)

  -- The loop over the stream after its first message, with the error that the stream ends with.
  unfoldable pub receive_chunks : List Payload → Option String → Pipe M → Pipe M × Option String
  unfolding write
  receive_chunks [] stream_err p = (p, stream_err)
  receive_chunks (chunk_data b ∷ rest) stream_err p =
      let (q, failed) = write b p in
      elim failed [ none ↦ receive_chunks rest stream_err q | some e ↦ (q, some e) ]
  receive_chunks (info f ∷ rest) stream_err p = (p, some not_chunk)
  receive_chunks (unset ∷ rest) stream_err p = (p, some not_chunk)

  -- `pw.CloseWithError`, and the wait for the goroutine.
  unfoldable pub close_with_error : Pipe M → String → M.State
  close_with_error (reading u) e = M.read_error u e
  close_with_error (closed s _) e = s

  -- `pw.Close`, the wait for the goroutine, and what is read from `errChan`.
  unfoldable pub close_pipe : Pipe M → M.State × Option String
  close_pipe (reading u) = M.end_of_file u
  close_pipe (closed s e) = (s, e)

module _ (M : Minio) (R : Redis) (J : Json) where
  -- From the random key on: the metadata is saved, and the response is made.
  unfoldable pub save_reply : String → FileInfo → ℕ → World M R → Reply SendFileResponse × World M R
  save_reply key f now w =
      let m : FileMetadata = record { filename = f.name; size = f.size; storage_path = f.name } in
      let (failed, metas) = save_file_meta R J key (some m) now w.metas in
      elim failed [
        | some e ↦ (rejects internal e, record w { metas = metas })
        | none ↦ (
          replies (record {
            success = true;
            message = ("File " <> f.name) <> " uploaded successfully.";
            randomkey = key;
          }),
          record w { metas = metas },
        )
      ]

  unfoldable pub uploaded :
      String
      → FileInfo
      → ℕ
      → World M R
      → Pipe M × Option String
      → Reply SendFileResponse × World M R
  unfolding close_with_error close_pipe save_reply
  uploaded key f now w (p, some e) =
      (rejects internal e, record w { bucket = close_with_error M p e })
  uploaded key f now w (p, none) =
      let (bucket, failed) = close_pipe M p in
      elim failed [
        | some e ↦ (rejects internal ("minio upload failed: " <> e), record w { bucket = bucket })
        | none ↦ save_reply key f now (record w { bucket = bucket })
      ]

  -- `SendFile` on the messages of a stream and the error that it ends with, with the bucket that is
  -- configured, the random key that is drawn, and the time at which the metadata is saved.
  unfoldable pub send_file :
      Option String
      → String
      → ℕ
      → List Payload
      → Option String
      → World M R
      → Reply SendFileResponse × World M R
  unfolding uploaded receive_chunks upload_file
  send_file store key now [] (some e) w = (rejects aborted e, w)
  send_file store key now [] none w = (rejects invalid_argument "missing file info message", w)
  send_file store key now (info f ∷ rest) stream_err w = elim (check_name f.name) [
    | some e ↦ (rejects invalid_argument e, w)
    | none ↦
        uploaded key f now w
          (receive_chunks M rest stream_err (upload_file M store f.name f.size w.bucket))
  ]
  send_file store key now (chunk_data b ∷ rest) stream_err w =
      (rejects invalid_argument "first message must be file info", w)
  send_file store key now (unset ∷ rest) stream_err w =
      (rejects invalid_argument "first message must be file info", w)
