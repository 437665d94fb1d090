-- ===== src/Canvas/Filing.antt =====
-- canvaservice/handler/handler.go: the map of sessions, and `CreateCanvas` when it draws a code twice.
use fawa.Common.{
  false, ℕ, suc, update, ◌<◌, String, str_eq, eq_iff, ◌≡◌, ◌≢◌, refl, sym, ap, ◌∙◌, some, none-ne,
  some_elim, arith, Bool-cases, Option-cases, inl, inr,
}
use fawa.Common.Dict
use fawa.Common.Dict.{NodupKeys}
use fawa.Canvas.{
  ConnType, CanvasSession, CanvasServiceHandler, answers, enters, bad_request, not_found, clean,
  find_session, create_canvas, new_session, add_client, remove_client, append_history, touch,
  is_expired, new_canvas_service_handler,
}
use fawa.Canvas.Cleaner.{lookup-clean, sweep}
use fawa.Canvas.Invariant.{Reach-IsConsistent}
use fawa.Canvas.System.{System, start, Action, creates, step, Reach, here, next}
use fawa.Canvas.Turns.{
  Move, asks, accepts, refuses, joins, copies, greets, misses, takes, appends, sends, touches,
  leaves, Turn, makes, moves, delivers, sweeps, waits, step-Turn,
}

-- Every session in the map was made, and stands under its own code.
abbrev pub IsFiled : System → Type 0
IsFiled s =
    (code : String) (p : ℕ)
    → Dict.lookup code s.sessions ≡ some p
    → (p < s.allocated) × ((s.heap p).code ≡ code)

pub Move-code :
    (i : ℕ) {s t : System} {q : _} {choice : _}
    → Move i s q choice t
    → (t.sessions ≡ s.sessions)
      × (t.allocated ≡ s.allocated)
      × ((p : ℕ) → (t.heap p).code ≡ (s.heap p).code)
unfolding append_history add_client remove_client touch
Move-code i (appends c e) = (refl, refl, λ p. ground arith)
Move-code i (asks kind code) = (refl, refl, λ p. refl)
Move-code i (accepts kind r) = (refl, refl, λ p. refl)
Move-code i (refuses kind r) = (refl, refl, λ p. refl)
Move-code i (joins kind r id) = (refl, refl, λ p. ground arith)
Move-code i (copies c) = (refl, refl, λ p. refl)
Move-code i (greets c events) = (refl, refl, λ p. refl)
Move-code i (misses c events) = (refl, refl, λ p. refl)
Move-code i (takes c r) = (refl, refl, λ p. refl)
Move-code i (sends c e room) = (refl, refl, λ p. ground arith)
Move-code i (touches c) = (refl, refl, λ p. ground arith)
Move-code i (leaves c) = (refl, refl, λ p. ground arith)

-- What the cleaner leaves under a code stood there.
kept-lookup :
    (s : System) (code : String) (p : ℕ)
    → NodupKeys s.sessions
    → Dict.lookup code (clean s.now s.heap s.sessions) ≡ some p
    → Dict.lookup code s.sessions ≡ some p
kept-lookup s code p u e = elim (Option-cases (Dict.lookup code s.sessions)) [
  | inl gone ↦ none-ne (rw (lookup-clean s.now s.heap code s.sessions u, gone, sweep) at e)
  | inr (q, found) ↦ elim (Bool-cases (is_expired s.now (s.heap q))) [
    | inl old ↦ none-ne (rw (lookup-clean s.now s.heap code s.sessions u, found, sweep, old) at e)
    | inr young ↦ found ∙ rw (lookup-clean s.now s.heap code s.sessions u, found, sweep, young) at e
  ]
]

update-same : {A : Type 0} (f : ℕ → A) (i : ℕ) (a : A) → update f i a i ≡ a
update-same f i a = ground arith

Turn-IsFiled :
    {s t : System} {a : Action} → Turn s a t → NodupKeys s.sessions → IsFiled s → IsFiled t
unfolding create_canvas new_session
Turn-IsFiled {s} (makes new) u v code p e = elim (Bool-cases (str_eq new code)) [
  | inl same ↦
      some_elim
        (λ q.
          (q < suc s.allocated)
          × ((update s.heap s.allocated (new_session new s.now) q).code ≡ code))
        (rw (Dict.lookup-insert new code s.allocated s.sessions, same) at e)
        (
          omega arith,
          ap (λ (q : CanvasSession). q.code)
                (update-same s.heap s.allocated (new_session new s.now))
              ∙ (eq_iff new code).0 same,
        )
  | inr other ↦
      let (lt, own) =
        v code p (rw (Dict.lookup-insert new code s.allocated s.sessions, other) at e) in
      (omega arith, ground arith)
]
Turn-IsFiled {s} {t} (moves i c m) u v code p e =
    let (same, made, codes) = Move-code i m in
    let (lt, own) = v code p (ap (Dict.lookup code) (sym same) ∙ e) in (omega arith, codes p ∙ own)
Turn-IsFiled {s} (delivers i r event rest written at_r front) u v code p e =
    let (lt, own) = v code p e in (lt, ground arith)
Turn-IsFiled {s} sweeps u v code p e = v code p (kept-lookup s code p u e)
Turn-IsFiled (waits d) u v code p e = v code p e

-- In every system that can come about each session in the map was made and stands under its own code,
-- so no session stands under two codes.
pub Reach-IsFiled : (kinds : ℕ → ConnType) {s : System} → Reach (start kinds) s → IsFiled s
unfolding start new_canvas_service_handler
Reach-IsFiled kinds here code p e = none-ne (rw (Dict.lookup-nil code) at e)
Reach-IsFiled kinds (next r a f) code p e =
    Turn-IsFiled (step-Turn a _ _ f) (Reach-IsConsistent kinds r).keys (Reach-IsFiled kinds r) code
      p e

pub find_session-lookup :
    (code : String) (p : ℕ) (h : CanvasServiceHandler)
    → find_session code h ≡ enters p
    → Dict.lookup code h.sessions ≡ some p
unfolding find_session
find_session-lookup code p h e = elim (Bool-cases (str_eq code "")) [
  | inl unnamed ↦ let k : answers bad_request ≡ enters p = rw (unnamed, find_session) at e in cc
  | inr named ↦ elim (Option-cases (Dict.lookup code h.sessions)) [
    | inl gone ↦ let k : answers not_found ≡ enters p = rw (named, gone, find_session) at e in cc
    | inr (q, found) ↦
        let k : enters q ≡ enters p = rw (named, found, find_session) at e in found ∙ cc k
  ]
]

-- A session that was made and stands under no code.
abbrev IsStranded : ℕ → System → Type 0
IsStranded p s = (p < s.allocated) × ((code : String) → Dict.lookup code s.sessions ≢ some p)

insert-ne :
    (new code : String) (fresh p : ℕ) (m : Dict.Dict ℕ)
    → p < fresh
    → (str_eq new code ≡ false → Dict.lookup code m ≢ some p)
    → Dict.lookup code (Dict.insert new fresh m) ≢ some p
insert-ne new code fresh p m lt absent e = elim (Bool-cases (str_eq new code)) [
  | inl same ↦
      let is_new : fresh ≡ p =
        some_elim (λ q. fresh ≡ q) (rw (Dict.lookup-insert new code fresh m, same) at e) refl in
      absurd (omega arith)
  | inr differs ↦ absent differs (rw (Dict.lookup-insert new code fresh m, differs) at e)
]

Turn-IsStranded :
    (p : ℕ) {s t : System} {a : Action}
    → Turn s a t
    → NodupKeys s.sessions
    → IsStranded p s
    → IsStranded p t
unfolding create_canvas
Turn-IsStranded p {s} (makes new) u (lt, absent) =
    (omega arith, λ code. insert-ne new code s.allocated p s.sessions lt (λ differs. absent code))
Turn-IsStranded p (moves i c m) u (lt, absent) =
    let (same, made, codes) = Move-code i m in
    (omega arith, λ code e. absent code (ap (Dict.lookup code) (sym same) ∙ e))
Turn-IsStranded p (delivers i r event rest written at_r front) u v = v
Turn-IsStranded p {s} sweeps u (lt, absent) = (lt, λ code e. absent code (kept-lookup s code p u e))
Turn-IsStranded p (waits d) u v = v

Reach-append : {s t u : System} → Reach s t → Reach t u → Reach s u
Reach-append r here = r
Reach-append r (next q a e) = next (Reach-append r q) a e

Reach-IsStranded :
    (kinds : ℕ → ConnType) (p : ℕ) {t u : System}
    → Reach (start kinds) t
    → IsStranded p t
    → Reach t u
    → IsStranded p u
Reach-IsStranded kinds p r v here = v
Reach-IsStranded kinds p r v (next q a e) =
    Turn-IsStranded p (step-Turn a _ _ e) (Reach-IsConsistent kinds (Reach-append r q)).keys
      (Reach-IsStranded kinds p r v q)

create_canvas-IsStranded :
    (s : System) (code : String) (p : ℕ)
    → IsFiled s
    → Dict.lookup code s.sessions ≡ some p
    → IsStranded p (record s { handler = (create_canvas code s.now s.handler).0 })
unfolding create_canvas
create_canvas-IsStranded s code p v held =
    let (lt, own) = v code p held in
    (
      omega arith,
      λ other. insert-ne code other s.allocated p s.sessions lt (λ differs e.
          let (_, own') = v other p e in cc (differs, (eq_iff code other).1 (sym own ∙ own'))),
    )

-- If CreateCanvas draws the code of a session that is there, then the session keeps its clients, its
-- history and its channel, and in whatever comes about no request, with whatever code, is led to it.
pub create_canvas-strands :
    (kinds : ℕ → ConnType) {s t u : System} (code other : String) (p : ℕ)
    → Reach (start kinds) s
    → Dict.lookup code s.sessions ≡ some p
    → step (creates code) s ≡ some t
    → Reach t u
    → (t.heap p ≡ s.heap p) × (find_session other u.handler ≢ enters p)
unfolding step create_canvas
create_canvas-strands kinds {s} {t} {u} code other p r held e after =
    some_elim
      (λ (w : System).
        Reach w u → (w.heap p ≡ s.heap p) × (find_session other u.handler ≢ enters p))
      e
      (λ later.
        let (lt, own) = Reach-IsFiled kinds r code p held in
        let stranded = create_canvas-IsStranded s code p (Reach-IsFiled kinds r) held in
        let (_, absent) = Reach-IsStranded kinds p (next r (creates code) refl) stranded later in
        (ground arith, λ led. absent other (find_session-lookup other p u.handler led)))
      after
