-- ===== src/File/Isolation.antt =====
-- fileservice/handler/handler.go, `SendFile`: what a call leaves alone, whatever its answer. It may
-- change the object of its own file's name, and the metadata under its own key.
use fawa.Common.{
  ℕ, String, ◌≡◌, ◌≢◌, refl, sym, ap, ◌∙◌, List, [], ◌∷◌, true, false, Option, none, some,
  Option-cases, inl, inr, ◌⊎◌,
}
use fawa.File.{
  FileInfo, Bytes, Payload, info, chunk_data, unset, Reading, reads_on, returns, Minio,
  IsLawfulMinio, IsIsolatedMinio, Redis, IsLawfulRedis, IsIsolatedRedis, Json,
}
use fawa.File.Names.{check_name}
use fawa.File.Storage.{save_file_meta, get_file_meta, get_file_meta-save_file_meta_apart}
use fawa.File.Upload.{
  World, Pipe, reading, closed, upload_file, after_read, write, receive_chunks, close_with_error,
  close_pipe, save_reply, uploaded, send_file,
}
use fawa.File.Integrity.{metadata}

module _ (M : Minio) (L : IsLawfulMinio M) (I : IsIsolatedMinio M L) (bucket name b n : String)
    (apart : ◌≢◌ {A = String × String} (bucket, name) (b, n)) (s0 : M.State) where
  -- The upload to `name` has left the object `n` of `b` as it was in `s0`.
  abbrev pub Keeps : Pipe M → Type 0
  Keeps (reading u) = (L.target u ≡ (bucket, name)) × (I.at_start u ≡ s0)
  Keeps (closed s e) = M.object s b n ≡ M.object s0 b n

  elsewhere : (u : M.Upload) → Keeps (reading u) → L.target u ≢ (b, n)
  elsewhere u (t, _) e = apart (sym t ∙ e)

  from_start :
      (u : M.Upload) (s : M.State)
      → Keeps (reading u)
      → M.object s b n ≡ M.object (I.at_start u) b n
      → M.object s b n ≡ M.object s0 b n
  from_start u s (_, a) h = h ∙ ap (λ x. M.object x b n) a

  after_read-Keeps :
      (u : M.Upload) (c : Bytes) (r : Reading M.Upload M.State)
      → M.read u c ≡ r
      → Keeps (reading u)
      → Keeps (after_read M r).0
  unfolding after_read
  after_read-Keeps u c (reads_on v) e k =
      ((L.got-read u v c e).1 ∙ k.0, I.at_start-read u v c e ∙ k.1)
  after_read-Keeps u c (returns true s o) e k =
      from_start u s k (I.kept_read u c true s o b n e (elsewhere u k))
  after_read-Keeps u c (returns false s o) e k =
      from_start u s k (I.kept_read u c false s o b n e (elsewhere u k))

  write-Keeps : (c : Bytes) (p : Pipe M) → Keeps p → Keeps (write M c p).0
  unfolding write
  write-Keeps c (reading u) k = after_read-Keeps u c (M.read u c) refl k
  write-Keeps c (closed s e) k = k

  receive_chunks-Keeps :
      (rest : List Payload) (stream_err : Option String) (p : Pipe M)
      → Keeps p
      → Keeps (receive_chunks M rest stream_err p).0
  unfolding receive_chunks
  receive_chunks-Keeps [] stream_err p k = k
  receive_chunks-Keeps (chunk_data c ∷ rest) stream_err p k = elim (Option-cases (write M c p).1) [
    | inl done ↦
        rw (done, receive_chunks)
          (receive_chunks-Keeps rest stream_err (write M c p).0 (write-Keeps c p k))
    | inr (x, failed) ↦ rw (failed, receive_chunks) (write-Keeps c p k)
  ]
  receive_chunks-Keeps (info f ∷ rest) stream_err p k = k
  receive_chunks-Keeps (unset ∷ rest) stream_err p k = k

  close_with_error-Keeps :
      (p : Pipe M) (e : String) → Keeps p → M.object (close_with_error M p e) b n ≡ M.object s0 b n
  unfolding close_with_error
  close_with_error-Keeps (reading u) e k =
      from_start u (M.read_error u e) k (I.kept_error u e b n (elsewhere u k))
  close_with_error-Keeps (closed s _) e k = k

  close_pipe-Keeps : (p : Pipe M) → Keeps p → M.object (close_pipe M p).0 b n ≡ M.object s0 b n
  unfolding close_pipe
  close_pipe-Keeps (reading u) k =
      from_start u (M.end_of_file u).0 k (I.kept_end u b n (elsewhere u k))
  close_pipe-Keeps (closed s e) k = k

module _ (M : Minio) (R : Redis) (J : Json) where
  save_reply-bucket :
      (key : String) (f : FileInfo) (now : ℕ) (w : World M R)
      → (save_reply M R J key f now w).1.bucket ≡ w.bucket
  unfolding save_reply
  save_reply-bucket key f now w =
      elim (Option-cases (save_file_meta R J key (some (metadata f)) now w.metas).0) [
        | inl fine ↦ rw (fine, save_reply) refl
        | inr (e, failed) ↦ rw (failed, save_reply) refl
      ]

  -- The bucket and the metadata after a call, by the end of its upload.
  uploaded-bucket :
      (key : String) (f : FileInfo) (now : ℕ) (w : World M R) (p : Pipe M) (o : Option String)
      → ((e : String) × ((uploaded M R J key f now w (p, o)).1.bucket ≡ close_with_error M p e))
        ⊎ ((uploaded M R J key f now w (p, o)).1.bucket ≡ (close_pipe M p).0)
  unfolding uploaded
  uploaded-bucket key f now w p (some e) = inl (e, refl)
  uploaded-bucket key f now w p none = elim (Option-cases (close_pipe M p).1) [
    | inl stored ↦ inr (rw (stored, uploaded) (save_reply-bucket key f now _))
    | inr (e, failed) ↦ inr (rw (failed, uploaded) refl)
  ]

  save_reply-metas :
      (key : String) (f : FileInfo) (now : ℕ) (w : World M R)
      → (save_reply M R J key f now w).1.metas
        ≡ (save_file_meta R J key (some (metadata f)) now w.metas).1
  unfolding save_reply
  save_reply-metas key f now w =
      elim (Option-cases (save_file_meta R J key (some (metadata f)) now w.metas).0) [
        | inl fine ↦ rw (fine, save_reply) refl
        | inr (e, failed) ↦ rw (failed, save_reply) refl
      ]

  uploaded-metas :
      (key : String) (f : FileInfo) (now : ℕ) (w : World M R) (p : Pipe M) (o : Option String)
      → ((uploaded M R J key f now w (p, o)).1.metas ≡ w.metas)
        ⊎ ((uploaded M R J key f now w (p, o)).1.metas
            ≡ (save_file_meta R J key (some (metadata f)) now w.metas).1)
  unfolding uploaded
  uploaded-metas key f now w p (some e) = inl refl
  uploaded-metas key f now w p none = elim (Option-cases (close_pipe M p).1) [
    | inl stored ↦ inr (rw (stored, uploaded) (save_reply-metas key f now _))
    | inr (e, failed) ↦ inl (rw (failed, uploaded) refl)
  ]

-- The name of the object that a call may store: that of the file's info, if it passes the check.
unfoldable pub name_of : List Payload → Option String
name_of (info f ∷ rest) = elim (check_name f.name) [ none ↦ some f.name | some e ↦ none ]
name_of _ = none

module _ (M : Minio) (L : IsLawfulMinio M) (I : IsIsolatedMinio M L) (R : Redis) (J : Json) where
  uploaded-object :
      (bucket name b n : String)
      → (apart : ◌≢◌ {A = String × String} (bucket, name) (b, n))
      → (key : String) (f : FileInfo) (now : ℕ) (w : World M R) (p : Pipe M) (o : Option String)
      → Keeps M L I bucket name b n apart w.bucket p
      → M.object (uploaded M R J key f now w (p, o)).1.bucket b n ≡ M.object w.bucket b n
  uploaded-object bucket name b n apart key f now w p o k =
      elim (uploaded-bucket M R J key f now w p o) [
        | inl (e, same) ↦
            ap (λ s. M.object s b n) same
            ∙ close_with_error-Keeps M L I bucket name b n apart w.bucket p e k
        | inr same ↦
            ap (λ s. M.object s b n) same
            ∙ close_pipe-Keeps M L I bucket name b n apart w.bucket p k
      ]

  -- A call stores no object but the one of its file's name, however it ends.
  pub send_file-object_other :
      (bucket b n key : String) (now : ℕ) (msgs : List Payload) (stream_err : Option String)
      (w : World M R)
      → ((name : String)
          → name_of msgs ≡ some name
          → ◌≢◌ {A = String × String} (bucket, name) (b, n))
      → M.object (send_file M R J (some bucket) key now msgs stream_err w).1.bucket b n
        ≡ M.object w.bucket b n
  unfolding send_file upload_file name_of
  send_file-object_other bucket b n key now [] (some e) w apart = refl
  send_file-object_other bucket b n key now [] none w apart = refl
  send_file-object_other bucket b n key now (chunk_data c ∷ rest) stream_err w apart = refl
  send_file-object_other bucket b n key now (unset ∷ rest) stream_err w apart = refl
  send_file-object_other bucket b n key now (info f ∷ rest) stream_err w apart =
      elim (Option-cases (check_name f.name)) [
        | inl good ↦
            let other = apart f.name (rw (good, name_of) refl) in
            let opened = M.put_object bucket f.name f.size w.bucket in
            let (q, o) = receive_chunks M rest stream_err (reading opened) in
            rw (good, send_file)
              (uploaded-object bucket f.name b n other key f now w q o (
                receive_chunks-Keeps M L I bucket f.name b n other w.bucket rest stream_err
                  (reading opened)
                  (
                    L.target-put_object bucket f.name f.size w.bucket,
                    I.at_start-put_object bucket f.name f.size w.bucket,
                  )))
        | inr (e, bad) ↦ rw (bad, send_file) refl
      ]

module _ (M : Minio) (R : Redis) (LR : IsLawfulRedis R) (I : IsIsolatedRedis R) (J : Json) where
  uploaded-metas_other :
      (key j : String) (f : FileInfo) (now later : ℕ) (w : World M R) (p : Pipe M)
      (o : Option String)
      → key ≢ j
      → get_file_meta R J j later (uploaded M R J key f now w (p, o)).1.metas
        ≡ get_file_meta R J j later w.metas
  uploaded-metas_other key j f now later w p o apart = elim (uploaded-metas M R J key f now w p o) [
    | inl same ↦ ap (get_file_meta R J j later) same
    | inr saved ↦
        ap (get_file_meta R J j later) saved
        ∙ get_file_meta-save_file_meta_apart R J LR I key j (some (metadata f)) now later w.metas
            apart
  ]

  -- A call saves no metadata under another key than its own, however it ends.
  pub send_file-metas_other :
      (store : Option String) (key j : String) (now later : ℕ) (msgs : List Payload)
      (stream_err : Option String) (w : World M R)
      → key ≢ j
      → get_file_meta R J j later (send_file M R J store key now msgs stream_err w).1.metas
        ≡ get_file_meta R J j later w.metas
  unfolding send_file
  send_file-metas_other store key j now later [] (some e) w apart = refl
  send_file-metas_other store key j now later [] none w apart = refl
  send_file-metas_other store key j now later (chunk_data c ∷ rest) stream_err w apart = refl
  send_file-metas_other store key j now later (unset ∷ rest) stream_err w apart = refl
  send_file-metas_other store key j now later (info f ∷ rest) stream_err w apart =
      elim (Option-cases (check_name f.name)) [
        | inl good ↦
            let (q, o) =
              receive_chunks M rest stream_err (upload_file M store f.name f.size w.bucket) in
            rw (good, send_file) (uploaded-metas_other key j f now later w q o apart)
        | inr (e, bad) ↦ rw (bad, send_file) refl
      ]
