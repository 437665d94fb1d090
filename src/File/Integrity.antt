-- ===== src/File/Integrity.antt =====
-- fileservice/handler/handler.go, `SendFile`: what a response that reports success stands for.
use fawa.Common.{
  ℕ, String, ◌≡◌, refl, sym, ap, ◌∙◌, List, [], ◌∷◌, Option, none, some, none-ne, All, Option-cases,
  inl, inr,
}
use fawa.File.{
  FileMetadata, FileInfo, Payload, info, chunk_data, unset, SendFileResponse, Code, Reply, replies,
  rejects, Minio, IsLawfulMinio, Redis, Json,
}
use fawa.File.Names.{check_name}
use fawa.File.Storage.{save_file_meta}
use fawa.File.Upload.{
  World, Pipe, upload_file, receive_chunks, close_pipe, save_reply, uploaded, send_file,
}
use fawa.File.Pipes.{
  IsChunk, content, receive_chunks-Follows, close_pipe-Follows, receive_chunks-closed,
}

-- The metadata of an uploaded file.
abbrev pub metadata : FileInfo → FileMetadata
metadata f = record { filename = f.name; size = f.size; storage_path = f.name }

abbrev key_of : Reply SendFileResponse → String
key_of (replies r) = r.randomkey
key_of (rejects c e) = ""

module _ (M : Minio) (R : Redis) (J : Json) where
  abbrev Answer : Type 0
  Answer = Reply SendFileResponse × World M R

  rejected-ne :
      {c : Code} {e : String} {r : SendFileResponse} {v w : World M R} {B : Type 0}
      → ◌≡◌ {A = Answer} (rejects c e, v) (replies r, w)
      → B
  rejected-ne h = cc (ap (λ (x : Answer). x.0) h)

  -- What is left of an upload that was answered with success.
  abbrev Saved : String → FileInfo → ℕ → World M R → World M R → SendFileResponse → Type 0
  Saved key f now v w r =
      (w.bucket ≡ v.bucket)
      × (save_file_meta R J key (some (metadata f)) now v.metas ≡ (none, w.metas))
      × (r.randomkey ≡ key)

  save_reply-Saved :
      (key : String) (f : FileInfo) (now : ℕ) (v w : World M R) (r : SendFileResponse)
      → save_reply M R J key f now v ≡ (replies r, w)
      → Saved key f now v w r
  unfolding save_reply
  save_reply-Saved key f now v w r h =
      elim (Option-cases (save_file_meta R J key (some (metadata f)) now v.metas).0) [
        | inl fine ↦
            let h' : ◌≡◌ {A = Answer}
                (
                  replies _,
                  record v { metas = (save_file_meta R J key (some (metadata f)) now v.metas).1 },
                )
                (replies r, w) =
              rw (fine, save_reply) at h in
            let same = ap (λ (x : Answer). x.1) h' in
            (
              sym (ap (λ (x : World M R). x.bucket) same),
              (λ i. (fine i, (ap (λ (x : World M R). x.metas) same) i)),
              sym (ap (λ (x : Answer). key_of x.0) h'),
            )
        | inr (e, failed) ↦ rejected-ne (rw (failed, save_reply) at h)
      ]

  uploaded-Saved :
      (key : String) (f : FileInfo) (now : ℕ) (v w : World M R) (r : SendFileResponse) (p : Pipe M)
      (o : Option String)
      → uploaded M R J key f now v (p, o) ≡ (replies r, w)
      → (o ≡ none)
        × (close_pipe M p ≡ (w.bucket, none))
        × Saved key f now (record v { bucket = w.bucket }) w r
  unfolding uploaded
  uploaded-Saved key f now v w r p (some e) h = rejected-ne h
  uploaded-Saved key f now v w r p none h = elim (Option-cases (close_pipe M p).1) [
    | inl stored ↦
        let (bucket, saved, key') = save_reply-Saved key f now _ w r (rw (stored, uploaded) at h) in
        (refl, (λ i. (sym bucket i, stored i)), (refl, saved, key'))
    | inr (e, failed) ↦ rejected-ne (rw (failed, uploaded) at h)
  ]

  -- What a success of `SendFile` stands for, in the stores before and after it.
  pub record Success (L : IsLawfulMinio M) (store : Option String) (key : String) (now : ℕ)
      (msgs : List Payload) (stream_err : Option String) (v w : World M R) (r : SendFileResponse)
      : Type 0 where
    pub file : FileInfo
    pub chunks : List Payload
    pub bucket : String
    pub messages : msgs ≡ info file ∷ chunks
    pub configured : store ≡ some bucket
    pub named : check_name file.name ≡ none
    pub clean : stream_err ≡ none
    pub all_chunks : All IsChunk chunks
    pub stored : M.object w.bucket bucket file.name ≡ some (content chunks)
    pub saved : save_file_meta R J key (some (metadata file)) now v.metas ≡ (none, w.metas)
    pub keyed : r.randomkey ≡ key

  module _ (L : IsLawfulMinio M) where
    checked-Success :
        (store : Option String) (key : String) (now : ℕ) (f : FileInfo) (rest : List Payload)
        (stream_err : Option String) (v w : World M R) (r : SendFileResponse)
        → check_name f.name ≡ none
        → uploaded M R J key f now v
            (receive_chunks M rest stream_err (upload_file M store f.name f.size v.bucket))
          ≡ (replies r, w)
        → Success L store key now (info f ∷ rest) stream_err v w r
    unfolding upload_file close_pipe
    checked-Success none key now f rest stream_err v w r good h =
        let p = upload_file M none f.name f.size v.bucket in
        let (done, closes, _) = uploaded-Saved key f now v w r _ _ h in
        absurd (
          none-ne (
            sym (
              ap (λ (y : M.State × Option String). y.1)
                (ap (close_pipe M) (sym (receive_chunks-closed M rest stream_err v.bucket _))
                  ∙ closes))))
    checked-Success (some bucket) key now f rest stream_err v w r good h =
        let (q, o) =
          receive_chunks M rest stream_err (upload_file M (some bucket) f.name f.size v.bucket) in
        let (done, closes, (_, saved, keyed)) = uploaded-Saved key f now v w r q o h in
        let (clean, chunks, all) =
          receive_chunks-Follows M L bucket f.name rest stream_err []
            (upload_file M (some bucket) f.name f.size v.bucket) q (λ i. (q, done i))
            (
              L.got-put_object bucket f.name f.size v.bucket,
              L.target-put_object bucket f.name f.size v.bucket,
            ) in
        record {
          file = f;
          chunks = rest;
          bucket = bucket;
          messages = refl;
          configured = refl;
          named = good;
          clean = clean;
          all_chunks = chunks;
          stored = close_pipe-Follows M L bucket f.name (content rest) q w.bucket closes all;
          saved = saved;
          keyed = keyed;
        }

    -- If `SendFile` reports success, then its first message was the file's info, with a name that
    -- passed the check, all others were chunks, the stream ended with no error, and a bucket was
    -- configured; the bucket then holds exactly the bytes of the chunks, in order, under the name;
    -- and the metadata was saved, with no error, under the key that the response carries.
    pub send_file-Success :
        (store : Option String) (key : String) (now : ℕ) (msgs : List Payload)
        (stream_err : Option String) (v w : World M R) (r : SendFileResponse)
        → send_file M R J store key now msgs stream_err v ≡ (replies r, w)
        → Success L store key now msgs stream_err v w r
    unfolding send_file
    send_file-Success store key now [] (some e) v w r h = rejected-ne h
    send_file-Success store key now [] none v w r h = rejected-ne h
    send_file-Success store key now (chunk_data b ∷ rest) stream_err v w r h = rejected-ne h
    send_file-Success store key now (unset ∷ rest) stream_err v w r h = rejected-ne h
    send_file-Success store key now (info f ∷ rest) stream_err v w r h =
        elim (Option-cases (check_name f.name)) [
          | inl good ↦
              checked-Success store key now f rest stream_err v w r good (rw (good, send_file) at h)
          | inr (e, bad) ↦ rejected-ne (rw (bad, send_file) at h)
        ]
