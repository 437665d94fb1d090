-- ===== src/File/Overwrite.antt =====
-- fileservice/handler/handler.go, `SendFile`: two uploads under one file name. The object is stored
-- under the name, so the second upload takes the place of the first.
use fawa.Common.{
  ℕ, ◌<◌, ◌≤◌, ◌+◌, String, ◌≡◌, ◌≢◌, sym, ap, ◌∙◌, List, ◌∷◌, none, some, arith, inl, inr,
}
use fawa.File.{
  FileInfo, Payload, info, SendFileResponse, ok, replies, Minio, IsLawfulMinio, Redis,
  IsLawfulRedis, Json, IsLawfulJson,
}
use fawa.File.Storage.{
  ttl, get_file_meta, get_file_meta-save_file_meta, get_file_meta-save_file_meta_other,
}
use fawa.File.Upload.{World, send_file}
use fawa.File.Pipes.{content}
use fawa.File.Integrity.{send_file-Success, metadata}

module _ (M : Minio) (L : IsLawfulMinio M) (R : Redis) (LR : IsLawfulRedis R) (J : Json)
    (LJ : IsLawfulJson J) where
  -- After two uploads with success of files of one name, under different keys, the first key still
  -- gives the metadata of the first file for 25 minutes after it was saved, and the object that this
  -- metadata leads to holds the bytes of the second file.
  pub send_file-overwrites :
      (bucket first second : String) (now next later : ℕ) (f g : FileInfo)
      (rest others : List Payload) (u v w : World M R) (r q : SendFileResponse)
      → second ≢ first
      → f.name ≡ g.name
      → send_file M R J (some bucket) first now (info f ∷ rest) none u ≡ (replies r, v)
      → send_file M R J (some bucket) second next (info g ∷ others) none v ≡ (replies q, w)
      → now ≤ later
      → later < now + ttl
      → (get_file_meta R J first later w.metas ≡ ok (metadata f))
        × (M.object w.bucket bucket (metadata f).storage_path ≡ some (content others))
  send_file-overwrites bucket first second now next later f g rest others u v w r q apart same one
        two le soon =
      let s = send_file-Success M R J L (some bucket) first now (info f ∷ rest) none u v r one in
      let t =
        send_file-Success M R J L (some bucket) second next (info g ∷ others) none v w q two in
      let is_f : s.file ≡ f = cc (s.messages) in
      let is_g : t.file ≡ g = cc (t.messages) in
      let chunks : t.chunks ≡ others = cc (t.messages) in
      let same_bucket : t.bucket ≡ bucket = cc (t.configured) in
      let read : get_file_meta R J first later v.metas ≡ ok (metadata s.file) =
        elim (get_file_meta-save_file_meta R J LR LJ first (metadata s.file) now later u.metas
          v.metas s.saved le) [ inl (_, found) ↦ found | inr (late, _) ↦ absurd (omega arith) ] in
      (
        get_file_meta-save_file_meta_other R J LR second first (metadata t.file) next later v.metas
              w.metas t.saved apart
            ∙ (read ∙ ap (λ x. ok (metadata x)) is_f),
        ap (λ n. M.object w.bucket bucket n) (same ∙ ap (λ (x : FileInfo). x.name) (sym is_g))
            ∙ (ap (λ b. M.object w.bucket b t.file.name) (sym same_bucket)
                ∙ (t.stored ∙ ap (λ l. some (content l)) chunks)),
      )
