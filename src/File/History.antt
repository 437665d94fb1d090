-- ===== src/File/History.antt =====
-- fileservice/handler/handler.go: what `GetDownloadURL` and the bucket promise after any number of
-- calls of `SendFile`, one after the other. The specification reads the history of the calls and
-- their answers alone; it knows no store.
use fawa.Common.{
  ℕ, ltb, ◌+◌, ◌≤◌, String, str_eq, eq_iff, Bool, true, false, Bool-cases, if◌then◌else◌, ◌≡◌, ◌≢◌,
  refl, sym, ap, subst, ◌∙◌, List, [], ◌∷◌, All, Option, none, some, some_elim, arith, inl, inr,
  lt→ltb,
}
use fawa.File.{
  FileInfo, Bytes, Payload, info, SendFileResponse, not_found, Reply, replies, rejects, Minio,
  IsLawfulMinio, IsIsolatedMinio, Redis, IsLawfulRedis, IsIsolatedRedis, Json, IsLawfulJson,
}
use fawa.File.Names.{check_name}
use fawa.File.Storage.{ttl}
use fawa.File.Upload.{World, send_file}
use fawa.File.Pipes.{content}
use fawa.File.Integrity.{metadata, send_file-Success}
use fawa.File.Download.{
  GetDownloadUrlResponse, get_download_url_cong, Links, file_reply, get_download_url,
  get_download_url-send_file,
}
use fawa.File.Isolation.{name_of, send_file-object_other, send_file-metas_other}

-- A call of `SendFile`: the random key that it draws, the time at which it saves the metadata, the
-- messages of its stream and the error that the stream ends with.
pub record Call : Type 0 where
  pub key : String
  pub now : ℕ
  pub messages : List Payload
  pub stream_err : Option String

-- The calls with their answers, the latest first.
abbrev pub Log : Type 0
Log = List (Call × Reply SendFileResponse)

-- Something is promised of a value, or nothing.
abbrev pub Allows : {A : Type 0} → Option A → A → Type 0
Allows none a = Unit {0}
Allows (some b) a = a ≡ b

-- The bytes under a name: those of the latest call for a file of that name. If that call was
-- rejected, nothing is promised.
abbrev is_name : String → Option String → Bool
is_name name none = false
is_name name (some n) = str_eq n name

abbrev bytes_by : Call × Reply SendFileResponse → Option (Option Bytes)
bytes_by (c, replies r) = some (some (content c.messages))
bytes_by (c, rejects code e) = none

unfoldable pub bytes_after : String → Option Bytes → Log → Option (Option Bytes)
bytes_after name start [] = some start
bytes_after name start (e ∷ log) =
    let rest = bytes_after name start log in
    if is_name name (name_of e.0.messages) then bytes_by e else rest

module _ (K : Links) (bucket endpoint : String) where
  abbrev link_of : ℕ → ℕ → List Payload → Option (Reply GetDownloadUrlResponse)
  link_of since later (info f ∷ rest) = some (
      if ltb later (since + ttl)
      then file_reply K (some bucket) endpoint (metadata f)
      else rejects not_found "file not found or link expired")
  link_of since later _ = none

  abbrev link_by : ℕ → Call × Reply SendFileResponse → Option (Reply GetDownloadUrlResponse)
  link_by later (c, replies r) = link_of c.now later c.messages
  link_by later (c, rejects code e) = none

  -- The answer to a request with a key: for 25 minutes the link of the file of the latest call with
  -- that key, then `not_found`. If that call was rejected, nothing is promised.
  unfoldable pub link_after :
      String → ℕ → Reply GetDownloadUrlResponse → Log → Option (Reply GetDownloadUrlResponse)
  link_after key later start [] = some start
  link_after key later start (e ∷ log) =
      let rest = link_after key later start log in
      if str_eq e.0.key key then link_by later e else rest

module _ (M : Minio) (R : Redis) (J : Json) (bucket : String) where
  abbrev pub answer : Call → World M R → Reply SendFileResponse × World M R
  answer c w = send_file M R J (some bucket) c.key c.now c.messages c.stream_err w

  -- The service on a series of calls, the latest first: the log, and what the stores then hold.
  unfoldable pub serve : List Call → World M R → Log × World M R
  serve [] v = ([], v)
  serve (c ∷ earlier) v =
      let (log, w) = serve earlier v in let (a, u) = answer c w in ((c, a) ∷ log, u)

is_name-true : (name : String) (o : Option String) → is_name name o ≡ true → o ≡ some name
is_name-true name none h = cc
is_name-true name (some n) h = ap (λ x. some x) ((eq_iff n name).0 h)

is_name-false :
    (name : String) (o : Option String)
    → is_name name o ≡ false
    → (n : String) → o ≡ some n
    → n ≢ name
is_name-false name none h n e same = cc
is_name-false name (some m) h n e same = let own : m ≡ name = cc in ground (arith, eq_iff m name)

name_of-info :
    (f : FileInfo) (rest : List Payload)
    → check_name f.name ≡ none
    → name_of (info f ∷ rest) ≡ some f.name
unfolding name_of
name_of-info f rest good = rw (good, name_of) refl

module _ (M : Minio) (L : IsLawfulMinio M) (R : Redis) (J : Json) (bucket : String) where
  bytes_by-answer :
      (c : Call) (w u : World M R) (a : Reply SendFileResponse) (name : String)
      → name_of c.messages ≡ some name
      → answer M R J bucket c w ≡ (a, u)
      → Allows (bytes_by (c, a)) (M.object u.bucket bucket name)
  bytes_by-answer c w u (rejects code e) name named h = tt
  bytes_by-answer c w u (replies r) name named h =
      let s = send_file-Success M R J L (some bucket) c.key c.now c.messages c.stream_err w u r h in
      let same : some s.file.name ≡ some name =
        sym (ap name_of s.messages ∙ name_of-info s.file s.chunks s.named) ∙ named in
      some_elim (λ b. M.object u.bucket b name ≡ some (content c.messages)) (sym s.configured)
        (some_elim (λ n. M.object u.bucket s.bucket n ≡ some (content c.messages)) same
          (s.stored ∙ ap (λ m. some (content m)) (sym s.messages)))

module _ (M : Minio) (L : IsLawfulMinio M) (R : Redis) (LR : IsLawfulRedis R) (J : Json)
    (LJ : IsLawfulJson J) (K : Links) (bucket endpoint : String) where
  link_by-answer :
      (c : Call) (w u : World M R) (a : Reply SendFileResponse) (later : ℕ)
      → c.key ≢ ""
      → c.now ≤ later
      → answer M R J bucket c w ≡ (a, u)
      → Allows
          (link_by K bucket endpoint later (c, a))
          (get_download_url K R J (some bucket) endpoint later c.key u.metas)
  link_by-answer c w u (rejects code e) later keyed le h = tt
  link_by-answer c w u (replies r) later keyed le h =
      let (s, reached) =
        get_download_url-send_file M L R LR J LJ K (some bucket) endpoint c.key c.now later
          c.messages c.stream_err w u r keyed h le in
      let to_reply =
        ap (λ k. get_download_url K R J (some bucket) endpoint later k u.metas) (sym s.keyed) in
      subst
        (λ m.
          Allows (link_of K bucket endpoint c.now later m)
            (get_download_url K R J (some bucket) endpoint later c.key u.metas))
        (sym s.messages)
        (elim reached [
          | inl (soon, found) ↦ rw (lt→ltb later (c.now + ttl) soon) (to_reply ∙ found)
          | inr (late, gone) ↦
              let past : ltb later (c.now + ttl) ≡ false = ground arith in rw past (to_reply ∙ gone)
        ])

module _ (M : Minio) (L : IsLawfulMinio M) (I : IsIsolatedMinio M L) (R : Redis)
    (LR : IsLawfulRedis R) (IR : IsIsolatedRedis R) (J : Json) (LJ : IsLawfulJson J) (K : Links)
    (bucket endpoint : String) where
  bytes_after-serve :
      (calls : List Call) (v : World M R) (name : String)
      → Allows
          (bytes_after name (M.object v.bucket bucket name) (serve M R J bucket calls v).0)
          (M.object (serve M R J bucket calls v).1.bucket bucket name)
  unfolding serve bytes_after
  bytes_after-serve [] v name = refl
  bytes_after-serve (c ∷ earlier) v name =
      let (log, w) = serve M R J bucket earlier v in
      let rest = bytes_after-serve earlier v name in
      elim (Bool-cases (is_name name (name_of c.messages))) [
        | inl own ↦ rw own (
            bytes_by-answer M L R J bucket c w (answer M R J bucket c w).1
              (answer M R J bucket c w).0 name (is_name-true name (name_of c.messages) own) refl)
        | inr other ↦ rw other (
            subst (Allows (bytes_after name (M.object v.bucket bucket name) log))
              (sym (
                send_file-object_other M L I R J bucket bucket name c.key c.now c.messages
                  c.stream_err w
                  (λ n named same.
                    is_name-false name (name_of c.messages) other n named (ap (λ x. x.1) same))))
              rest)
      ]

  link_after-serve :
      (calls : List Call) (v : World M R) (key : String) (later : ℕ)
      → key ≢ ""
      → All (λ (c : Call). c.now ≤ later) calls
      → Allows
          (link_after K bucket endpoint key later
            (get_download_url K R J (some bucket) endpoint later key v.metas)
            (serve M R J bucket calls v).0)
          (get_download_url K R J
            (some bucket)
            endpoint
            later
            key
            (serve M R J bucket calls v).1.metas)
  unfolding serve link_after
  link_after-serve [] v key later keyed past = refl
  link_after-serve (c ∷ earlier) v key later keyed (le, past) =
      let (log, w) = serve M R J bucket earlier v in
      let (a, u) = answer M R J bucket c w in
      let rest = link_after-serve earlier v key later keyed past in
      elim (Bool-cases (str_eq c.key key)) [
        | inl own ↦
            let same = (eq_iff c.key key).0 own in
            rw own (
              subst
                (λ k.
                  Allows (link_by K bucket endpoint later (c, a))
                    (get_download_url K R J (some bucket) endpoint later k u.metas))
                same
                (link_by-answer M L R LR J LJ K bucket endpoint c w u a later
                  (λ e. keyed (sym same ∙ e)) le refl))
        | inr other ↦ rw other (
            subst
              (Allows (
                link_after K bucket endpoint key later
                  (get_download_url K R J (some bucket) endpoint later key v.metas) log))
              (sym (
                get_download_url_cong K R J (some bucket) endpoint key later u.metas w.metas (
                  send_file-metas_other M R LR IR J (some bucket) c.key key c.now later c.messages
                    c.stream_err w (λ e. ground (arith, eq_iff c.key key)))))
              rest)
      ]

  -- After any series of calls of `SendFile`, whatever their answers: a request with a key is answered
  -- as the log of the calls says, and the bucket holds under each name what the log says. That is,
  -- the latest call with the key decides the answer, if it was a success: the link of its file for 25
  -- minutes, `not_found` from then on; and the latest call for a file of the name decides the bytes,
  -- if it was a success. Where no call had the key, or the name, all is as at the start; where the
  -- latest such call was rejected, nothing is said.
  pub serve-Allows :
      (calls : List Call) (v : World M R) (key name : String) (later : ℕ)
      → key ≢ ""
      → All (λ (c : Call). c.now ≤ later) calls
      → Allows
          (link_after K bucket endpoint key later
            (get_download_url K R J (some bucket) endpoint later key v.metas)
            (serve M R J bucket calls v).0)
          (get_download_url K R J
            (some bucket)
            endpoint
            later
            key
            (serve M R J bucket calls v).1.metas)
        × Allows
            (bytes_after name (M.object v.bucket bucket name) (serve M R J bucket calls v).0)
            (M.object (serve M R J bucket calls v).1.bucket bucket name)
  serve-Allows calls v key name later keyed past =
      (link_after-serve calls v key later keyed past, bytes_after-serve calls v name)
