-- ===== src/File/Errors.antt =====
-- fileservice/handler/handler.go, `SendFile`: what a rejection leaves behind.
use fawa.Common.{
  ℕ, String, ◌≡◌, sym, ap, ◌⊎◌, List, ◌∷◌, Option, none, some, none-ne, Option-cases, inl, inr,
}
use fawa.File.{
  FileInfo, Payload, info, SendFileResponse, Code, internal, Reply, replies, rejects, Minio, Redis,
  Json,
}
use fawa.File.Names.{check_name}
use fawa.File.Storage.{save_file_meta}
use fawa.File.Upload.{
  World, Pipe, upload_file, receive_chunks, close_pipe, save_reply, uploaded, send_file,
}
use fawa.File.Integrity.{metadata}

abbrev code_of : Reply SendFileResponse → Option Code
code_of (rejects c e) = some c
code_of (replies r) = none

module _ (M : Minio) (R : Redis) (J : Json) where
  abbrev Answer : Type 0
  Answer = Reply SendFileResponse × World M R

  -- The metadata store is as it was, or the saving of the metadata failed in it.
  abbrev pub Unsaved : String → FileInfo → ℕ → World M R → World M R → Type 0
  Unsaved key f now v w =
      (w.metas ≡ v.metas)
      ⊎ ((e : String) × (save_file_meta R J key (some (metadata f)) now v.metas
            ≡ (some e, w.metas)))

  same_world :
      {a b : Reply SendFileResponse} {v w : World M R} → ◌≡◌ {A = Answer} (a, v) (b, w) → v ≡ w
  same_world h = ap (λ (x : Answer). x.1) h

  same_code :
      {a b : Reply SendFileResponse} {v w : World M R}
      → ◌≡◌ {A = Answer} (a, v) (b, w)
      → code_of a ≡ code_of b
  same_code h = ap (λ (x : Answer). code_of x.0) h

  save_reply-Unsaved :
      (key : String) (f : FileInfo) (now : ℕ) (v w : World M R) (c : Code) (e : String)
      → save_reply M R J key f now v ≡ (rejects c e, w)
      → (some c ≡ some internal) × Unsaved key f now v w
  unfolding save_reply
  save_reply-Unsaved key f now v w c e h =
      elim (Option-cases (save_file_meta R J key (some (metadata f)) now v.metas).0) [
        | inl fine ↦ none-ne (same_code (rw (fine, save_reply) at h))
        | inr (x, failed) ↦
            let h' : ◌≡◌ {A = Answer}
                (
                  rejects internal x,
                  record v { metas = (save_file_meta R J key (some (metadata f)) now v.metas).1 },
                )
                (rejects c e, w) =
              rw (failed, save_reply) at h in
            (
              sym (same_code h'),
              inr (x, λ i. (failed i, (ap (λ (y : World M R). y.metas) (same_world h')) i)),
            )
      ]

  uploaded-Unsaved :
      (key : String) (f : FileInfo) (now : ℕ) (v w : World M R) (c : Code) (e : String) (p : Pipe M)
      (o : Option String)
      → uploaded M R J key f now v (p, o) ≡ (rejects c e, w)
      → (some c ≡ some internal) × Unsaved key f now v w
  unfolding uploaded
  uploaded-Unsaved key f now v w c e p (some x) h =
      (sym (same_code h), inl (sym (ap (λ (y : World M R). y.metas) (same_world h))))
  uploaded-Unsaved key f now v w c e p none h = elim (Option-cases (close_pipe M p).1) [
    | inl stored ↦ save_reply-Unsaved key f now _ w c e (rw (stored, uploaded) at h)
    | inr (x, failed) ↦
        let h' : ◌≡◌ {A = Answer} (rejects internal _, record v { bucket = (close_pipe M p).0 })
            (rejects c e, w) =
          rw (failed, uploaded) at h in
        (sym (same_code h'), inl (sym (ap (λ (y : World M R). y.metas) (same_world h'))))
  ]

  -- Once the first message is the info of a file with a name that passes the check, every rejection
  -- has the code `internal`, a message that is no chunk included; and no metadata is written, but
  -- by a save that itself failed.
  pub send_file-Unsaved :
      (store : Option String) (key : String) (now : ℕ) (f : FileInfo) (rest : List Payload)
      (stream_err : Option String) (v w : World M R) (c : Code) (e : String)
      → check_name f.name ≡ none
      → send_file M R J store key now (info f ∷ rest) stream_err v ≡ (rejects c e, w)
      → (some c ≡ some internal) × Unsaved key f now v w
  unfolding send_file
  send_file-Unsaved store key now f rest stream_err v w c e good h =
      let (q, o) = receive_chunks M rest stream_err (upload_file M store f.name f.size v.bucket) in
      uploaded-Unsaved key f now v w c e q o (rw (good, send_file) at h)
