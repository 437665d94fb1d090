-- ===== src/File/Pipes.antt =====
-- fileservice/handler/handler.go, `SendFile`: what the upload has read when the stream ends.
use fawa.Common.{
  String, true, false, ◌≡◌, refl, sym, ap, subst, ◌∙◌, List, [], ◌∷◌, ◌++◌, append-nil,
  append_assoc, Option, none, some, none-ne, All, Option-cases, inl, inr,
}
use fawa.File.{
  Bytes, Payload, info, chunk_data, unset, Reading, reads_on, returns, Minio, IsLawfulMinio,
}
use fawa.File.Upload.{Pipe, reading, closed, after_read, write, receive_chunks, close_pipe}

abbrev pub IsChunk : Payload → Type 0
IsChunk (chunk_data b) = Unit {0}
IsChunk _ = ⊥

-- The bytes of the chunks, in order.
abbrev pub content : List Payload → Bytes
content [] = []
content (chunk_data b ∷ rest) = b ++ content rest
content (info f ∷ rest) = content rest
content (unset ∷ rest) = content rest

pipe_path :
    {M : Minio} {p q : Pipe M} {e o : Option String}
    → ◌≡◌ {A = Pipe M × Option String} (p, e) (q, o)
    → p ≡ q
pipe_path {M} h = ap (λ (x : Pipe M × Option String). x.0) h

module _ (M : Minio) (L : IsLawfulMinio M) (bucket name : String) where
  -- The upload to `name` has read exactly these bytes, and if it has returned with no error it has
  -- stored them.
  abbrev pub Follows : Bytes → Pipe M → Type 0
  Follows bs (reading u) = (L.got u ≡ bs) × (L.target u ≡ (bucket, name))
  Follows bs (closed s none) = M.object s bucket name ≡ some bs
  Follows bs (closed s (some e)) = Unit {0}

  after_read-Follows :
      (u : M.Upload) (b bs : Bytes) (r : Reading M.Upload M.State) (q : Pipe M)
      → M.read u b ≡ r
      → after_read M r ≡ (q, none)
      → Follows bs (reading u)
      → Follows (bs ++ b) q
  unfolding after_read
  after_read-Follows u b bs (reads_on v) q e h (g, t) =
      let (g', t') = L.got-read u v b e in
      subst (Follows (bs ++ b)) (pipe_path h) (g' ∙ ap (λ l. l ++ b) g, t' ∙ t)
  after_read-Follows u b bs (returns true s none) q e h (g, t) =
      subst (Follows (bs ++ b)) (pipe_path h) (
        subst (λ x. M.object s x.0 x.1 ≡ some (L.got u ++ b)) t (L.stored_read u b s e)
        ∙ ap (λ l. some (l ++ b)) g)
  after_read-Follows u b bs (returns true s (some x)) q e h f =
      subst (Follows (bs ++ b)) (pipe_path h) tt
  after_read-Follows u b bs (returns false s x) q e h f = cc

  write-Follows :
      (b bs : Bytes) (p q : Pipe M) → write M b p ≡ (q, none) → Follows bs p → Follows (bs ++ b) q
  unfolding write
  write-Follows b bs (reading u) q h f = after_read-Follows u b bs (M.read u b) q refl h f
  write-Follows b bs (closed s x) q h f = cc

  -- A loop that ends with no error has seen chunks alone, and a stream that ended with no error.
  pub receive_chunks-Follows :
      (rest : List Payload) (stream_err : Option String) (bs : Bytes) (p q : Pipe M)
      → receive_chunks M rest stream_err p ≡ (q, none)
      → Follows bs p
      → (stream_err ≡ none) × All IsChunk rest × Follows (bs ++ content rest) q
  unfolding receive_chunks
  receive_chunks-Follows [] stream_err bs p q h f = (
    ap (λ (x : Pipe M × Option String). x.1) h,
    tt,
    subst (Follows (bs ++ [])) (pipe_path h) (rw append-nil f),
  )
  receive_chunks-Follows (chunk_data b ∷ rest) stream_err bs p q h f =
      elim (Option-cases (write M b p).1) [
        | inl done ↦
            let onward =
              write-Follows b bs p (write M b p).0 (ap (λ o. ((write M b p).0, o)) done) f in
            let (clean, chunks, all) =
              receive_chunks-Follows rest stream_err (bs ++ b) (write M b p).0 q
                (rw (done, receive_chunks) at h) onward in
            (clean, (tt, chunks), subst (λ l. Follows l q) (append_assoc bs b (content rest)) all)
        | inr (x, failed) ↦
            none-ne
              (sym (ap (λ (y : Pipe M × Option String). y.1) (rw (failed, receive_chunks) at h)))
      ]
  receive_chunks-Follows (info x ∷ rest) stream_err bs p q h f = cc
  receive_chunks-Follows (unset ∷ rest) stream_err bs p q h f = cc

  pub close_pipe-Follows :
      (bs : Bytes) (p : Pipe M) (s : M.State)
      → close_pipe M p ≡ (s, none)
      → Follows bs p
      → M.object s bucket name ≡ some bs
  unfolding close_pipe
  close_pipe-Follows bs (reading u) s h (g, t) =
      subst (λ x. M.object s x.0 x.1 ≡ some (L.got u)) t (L.stored_end u s h) ∙ ap (λ l. some l) g
  close_pipe-Follows bs (closed s' none) s h f =
      subst (λ x. M.object x bucket name ≡ some bs) (ap (λ (y : M.State × Option String). y.0) h) f
  close_pipe-Follows bs (closed s' (some e)) s h f =
      none-ne (sym (ap (λ (y : M.State × Option String). y.1) h))

-- An upload that has returned takes nothing more.
pub receive_chunks-closed :
    (M : Minio) (rest : List Payload) (stream_err : Option String) (s : M.State) (e : Option String)
    → (receive_chunks M rest stream_err (closed s e)).0 ≡ closed s e
unfolding receive_chunks
receive_chunks-closed M [] stream_err s e = refl
receive_chunks-closed M (chunk_data b ∷ rest) stream_err s e = refl
receive_chunks-closed M (info f ∷ rest) stream_err s e = refl
receive_chunks-closed M (unset ∷ rest) stream_err s e = refl
