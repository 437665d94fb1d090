-- ===== src/Canvas/Occupied.antt =====
-- canvaservice/handler/handler.go: `sessionCleaner` leaves a session alone while a client is in it. README.md
-- names a cleanup after ten minutes of inactivity, without this further condition.
use fawa.Common.{
  ℕ, String, eq_iff, str_eq, ◌≡◌, ◌≢◌, refl, sym, ap, ◌∙◌, some, none-ne, arith, Bool-cases, inl,
  inr, false,
}
use fawa.Common.Dict
use fawa.Common.Dict.{Dict, NodupKeys}
use fawa.Canvas.{ConnType, CanvasSession, enters, create_canvas, find_session, is_expired}
use fawa.Canvas.Cleaner.{lookup-clean, sweep, is_expired_iff}
use fawa.Canvas.System.{System, Action, creates, step}
use fawa.Canvas.Turns.{Turn, makes, moves, delivers, sweeps, waits, step-Turn}
use fawa.Canvas.Ownership.{owner}
use fawa.Canvas.Filing.{Move-code}
use fawa.Canvas.Invariant.{Reach-IsConsistent}
use fawa.Canvas.Registration.{call_of, IsFresh, FreshReach, FreshReach-Reach, FreshReach-Listed}

-- A run in which call `i` stays in a session under an id, and the code is not drawn again.
pub data Staying (i p : ℕ) (id code : String) (s : System) : System → Type 0 where
  here : Staying i p id code s s
  next :
      {t u : System}
      → Staying i p id code s t
      → (a : Action) → a ≢ creates code
      → IsFresh t u
      → owner (u.pc i) ≡ some (p, id)
      → step a t ≡ some u
      → Staying i p id code s u

pub occupied :
    (now : ℕ) (q : CanvasSession) (id : String) (i : ℕ)
    → call_of (Dict.lookup id q.clients) ≡ some i
    → is_expired now q ≡ false
occupied now q id i listed = elim (Bool-cases (is_expired now q)) [
  | inl old ↦
      let (empty, _) = (is_expired_iff now q).0 old in
      none-ne (
        sym (ap (λ m. call_of (Dict.lookup id m)) empty ∙ ap call_of (Dict.lookup-nil id)) ∙ listed)
  | inr young ↦ young
]

Turn-lookup :
    (code : String) (i p : ℕ) (id : String) {s t : System} {a : Action}
    → Turn s a t
    → a ≢ creates code
    → NodupKeys s.sessions
    → call_of (Dict.lookup id (s.heap p).clients) ≡ some i
    → Dict.lookup code s.sessions ≡ some p
    → Dict.lookup code t.sessions ≡ some p
unfolding create_canvas
Turn-lookup code i p id {s} (makes new) other u listed filed = elim (Bool-cases (str_eq new code)) [
  | inl same ↦ absurd (other (ap creates ((eq_iff new code).0 same)))
  | inr differs ↦ rw (Dict.lookup-insert new code s.allocated s.sessions, differs) filed
]
Turn-lookup code i p id (moves j c m) other u listed filed =
    ap (Dict.lookup code) (Move-code j m).0 ∙ filed
Turn-lookup code i p id (delivers j r e rest written at_r front) other u listed filed = filed
Turn-lookup code i p id {s} sweeps other u listed filed =
    lookup-clean s.now s.heap code s.sessions u
    ∙ rw (filed, sweep, occupied s.now (s.heap p) id i listed) refl
Turn-lookup code i p id (waits d) other u listed filed = filed

-- What holds over such a run.
Staying-filed :
    (kinds : ℕ → ConnType) (i p : ℕ) (id code : String) {s t : System}
    → FreshReach kinds s
    → owner (s.pc i) ≡ some (p, id)
    → Dict.lookup code s.sessions ≡ some p
    → Staying i p id code s t
    → FreshReach kinds t × (owner (t.pc i) ≡ some (p, id)) × (Dict.lookup code t.sessions ≡ some p)
Staying-filed kinds i p id code r own filed here = (r, own, filed)
Staying-filed kinds i p id code r own filed (next run a other fresh stays e) =
    let (r', own', filed') = Staying-filed kinds i p id code r own filed run in
    (
      FreshReach.next r' a fresh e,
      stays,
      Turn-lookup code i p id (step-Turn a _ _ e) other
          (Reach-IsConsistent kinds (FreshReach-Reach kinds r')).keys
          (FreshReach-Listed kinds r' i p id own') filed',
    )

-- While the random ids do not collide: as long as a call stays in a session that stands under a code,
-- and CreateCanvas does not draw that code again, every request with the code is led to the session,
-- however long nothing was drawn there and however often the cleaner runs.
pub Staying-find_session :
    (kinds : ℕ → ConnType) (i p : ℕ) (id code : String) {s t : System}
    → FreshReach kinds s
    → owner (s.pc i) ≡ some (p, id)
    → Dict.lookup code s.sessions ≡ some p
    → code ≢ ""
    → Staying i p id code s t
    → find_session code t.handler ≡ enters p
unfolding find_session
Staying-find_session kinds i p id code r own filed named run =
    let (_, _, filed') = Staying-filed kinds i p id code r own filed run in
    rw (filed', find_session) (ground (arith, eq_iff code ""))
