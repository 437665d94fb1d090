-- ===== src/File/Download.antt =====
-- fileservice/handler/handler.go, `GetDownloadURL`, with `storage.GetPresignedURL` of minio.go. The
-- signing client and `net/url` are parameters; a URL is its parts.
use Prim.Native.String.{◌++◌ as ◌<>◌}
use text.Mathlib.TextLemmas.{nil-append}
use fawa.Common.{
  ℕ, ◌*◌, ◌^◌, ◌+◌, ◌<◌, ◌≤◌, String, str_eq, eq_iff, false, ◌≡◌, ◌≢◌, refl, sym, ap, ◌∙◌, List, [],
  Option, none, some, arith, if◌then◌else◌, Bool-cases, ◌⊎◌, inl, inr,
}
use fawa.File.{
  FileMetadata, Payload, SendFileResponse, Result, ok, err, invalid_argument, not_found, internal,
  Reply, replies, rejects, Minio, IsLawfulMinio, Redis, IsLawfulRedis, Json, IsLawfulJson,
}
use fawa.File.Storage.{ttl, get_file_meta, get_file_meta-save_file_meta}
use fawa.File.Upload.{World, send_file}
use fawa.File.Integrity.{Success, send_file-Success, metadata}

-- `url.URL`: what `GetDownloadURL` changes, and the rest (query, user, fragment).
pub record Url : Type 0 where
  pub scheme : String
  pub host : String
  pub path : String
  pub rest : String

pub record GetDownloadUrlResponse : Type 0 where
  pub url : String
  pub filename : String

-- `PresignedGetObject` of the MinIO client, `url.Parse` and `URL.String`.
pub record Links : Type 0 where
  pub presigned_get_object : String → String → ℕ → Result Url
  pub parse : String → Result Url
  pub to_string : Url → String

-- `5 * time.Minute`
abbrev pub expires : ℕ
expires = 5 * 60 * 10 ^ 9

-- The presigned URL behind a public endpoint.
unfoldable pub rebase : Url → Url → Url
rebase public url =
    let moved : Url = record url { scheme = public.scheme; host = public.host } in
    if str_eq public.path "" then moved else record moved { path = public.path <> url.path }

module _ (K : Links) where
  -- `GetPresignedURL`. `none` is a store that was not configured.
  unfoldable pub get_presigned_url : Option String → String → Result Url
  get_presigned_url none name = err "MinIO client is not initialized"
  get_presigned_url (some bucket) name = K.presigned_get_object bucket name expires

  -- From the presigned URL on, with the value of `MINIO_PUBLIC_ENDPOINT`.
  unfoldable pub link_reply : String → String → Url → Reply GetDownloadUrlResponse
  link_reply endpoint filename url =
      if str_eq endpoint ""
      then replies (record { url = K.to_string url; filename = filename })
      else elim (K.parse endpoint) [
        | err e ↦ rejects internal "invalid public endpoint configuration"
        | ok public ↦
            replies (record { url = K.to_string (rebase public url); filename = filename })
      ]

  unfoldable pub file_reply : Option String → String → FileMetadata → Reply GetDownloadUrlResponse
  unfolding get_presigned_url link_reply
  file_reply store endpoint m = elim (get_presigned_url store m.storage_path) [
    | err e ↦ rejects internal "could not generate download link"
    | ok url ↦ link_reply endpoint m.filename url
  ]

module _ (K : Links) (R : Redis) (J : Json) where
  -- `GetDownloadURL` at a time, with the bucket that is configured.
  unfoldable pub get_download_url :
      Option String → String → ℕ → String → R.State → Reply GetDownloadUrlResponse
  unfolding file_reply
  get_download_url store endpoint now key s =
      if str_eq key ""
      then rejects invalid_argument "randomkey cannot be empty"
      else elim (get_file_meta R J key now s) [
        | err e ↦ rejects not_found "file not found or link expired"
        | ok m ↦ file_reply K store endpoint m
      ]

  -- The answer is a function of the metadata under the key.
  pub get_download_url_cong :
      (store : Option String) (endpoint key : String) (now : ℕ) (s t : R.State)
      → get_file_meta R J key now s ≡ get_file_meta R J key now t
      → get_download_url store endpoint now key s ≡ get_download_url store endpoint now key t
  unfolding get_download_url
  get_download_url_cong store endpoint key now s t same =
      ap
        (λ found.
          if str_eq key ""
          then rejects invalid_argument "randomkey cannot be empty"
          else elim found [
            | err e ↦ rejects not_found "file not found or link expired"
            | ok m ↦ file_reply K store endpoint m
          ])
        same

-- `ReceiveFile` on a key: the chunks that it sends, and its error. What it would do is commented out.
unfoldable pub receive_file : String → List (List ℕ) × Option String
receive_file randomkey = ([], none)

-- A public endpoint gives its scheme and host to the link and its path in front of the link's path,
-- and leaves the rest of the link, the signature with it, as it was.
pub rebase_parts :
    (public url : Url)
    → ((rebase public url).scheme ≡ public.scheme)
      × ((rebase public url).host ≡ public.host)
      × ((rebase public url).path ≡ public.path <> url.path)
      × ((rebase public url).rest ≡ url.rest)
unfolding rebase
rebase_parts public url = elim (Bool-cases (str_eq public.path "")) [
  | inl none' ↦
      let root = (eq_iff public.path "").0 none' in
      rw (none', rebase)
        (refl, refl, sym (ap (λ p. p <> url.path) root ∙ nil-append url.path), refl)
  | inr some' ↦ rw (some', rebase) (refl, refl, refl, refl)
]

module _ (M : Minio) (L : IsLawfulMinio M) (R : Redis) (LR : IsLawfulRedis R) (J : Json)
    (LJ : IsLawfulJson J) (K : Links) where
  -- A file that was uploaded with success can be downloaded for 25 minutes: with the key of the
  -- response, a request is answered as for the file's own name and path in the bucket, in which the
  -- bytes of its chunks stand. After that the key is answered with `not_found`.
  pub get_download_url-send_file :
      (store : Option String) (endpoint key : String) (now later : ℕ) (msgs : List Payload)
      (stream_err : Option String) (v w : World M R) (r : SendFileResponse)
      → key ≢ ""
      → send_file M R J store key now msgs stream_err v ≡ (replies r, w)
      → now ≤ later
      → (s : Success M R J L store key now msgs stream_err v w r) × (((later < now + ttl)
            × (get_download_url K R J store endpoint later r.randomkey w.metas
                ≡ file_reply K store endpoint (metadata s.file)))
          ⊎ ((now + ttl ≤ later)
              × (get_download_url K R J store endpoint later r.randomkey w.metas
                  ≡ rejects not_found "file not found or link expired")))
  unfolding get_download_url
  get_download_url-send_file store endpoint key now later msgs stream_err v w r named h le =
      let s = send_file-Success M R J L store key now msgs stream_err v w r h in
      let named' : str_eq r.randomkey "" ≡ false =
        ground (arith, eq_iff key "", s.keyed, eq_iff r.randomkey "") in
      elim (get_file_meta-save_file_meta R J LR LJ key (metadata s.file) now later v.metas w.metas
        s.saved le) [
          | inl (soon, found) ↦ (s, inl (soon, rw (named', get_download_url) (rw (s.keyed, found))))
          | inr (late, gone) ↦ (s, inr (late, rw (named', get_download_url) (rw (s.keyed, gone))))
        ]
