-- ===== src/Canvas/Hazards.antt =====
-- canvaservice/handler/handler.go: what becomes of clients and events when a session expires under a
-- client that is about to join, and when a connection is gone and its writer is not.
use fawa.Common.{
  ℕ, ◌<◌, String, eq_iff, eq_refl, ◌≡◌, refl, sym, ap, ◌∙◌, ◌≢◌, List, [], ◌∷◌, ◌++◌, append-nil,
  append_assoc, ◌≤◌, some, arith, Bool, false, if◌then◌else◌, ◌==◌,
}
use fawa.Common.Dict
use fawa.Common.Dict.{NodupKeys}
use fawa.Canvas.{
  DrawEvent, ConnType, SessionClient, not_found, answers, find_session, add_client, clean,
  create_canvas, append_history, remove_client, touch,
}
use fawa.Canvas.Cleaner.{IsExpired, lookup-clean, is_expired_iff}
use fawa.Canvas.System.{
  System, Conn, Pc, upgraded, joined, gone, waiting, ended, Action, serves, writes, cleans,
  client_id, step, run, serve_step, write_step, is_open, at_pc, at_session, Reach, here, next,
}
use fawa.Canvas.Turns.{
  Move, asks, accepts, refuses, joins, copies, greets, misses, takes, appends, sends, touches,
  leaves, Turn, makes, moves, delivers, sweeps, waits, step-Turn, after_write,
}
use fawa.Canvas.Delivery.{allocated-le}

-- A client that has looked up a session which is expired can join it after the cleaner has removed
-- it: the client then is in a session that no other client finds under its code.
pub join_after_clean :
    (s : System) (i p : ℕ) (kind : ConnType) (id code : String)
    → NodupKeys s.sessions
    → s.pc i ≡ upgraded kind p
    → Dict.lookup code s.sessions ≡ some p
    → code ≢ ""
    → IsExpired s.now (s.heap p)
    → (t : System) × (run (cleans ∷ serves i (client_id id) ∷ []) s ≡ some t)
      × (Dict.lookup id (t.heap p).clients ≡ some (record { id = id; conn_type = kind; call = i }))
      × (find_session code t.handler ≡ answers not_found)
unfolding run step serve_step add_client find_session
join_after_clean s i p kind id code u place found named old = (
  at_pc i (joined c) (at_session p (add_client cl) swept),
  rw (place, run, step, serve_step),
  ground (arith, Dict.lookup-insert id id cl (s.heap p).clients, eq_refl id),
  rw
      (
        lookup-clean s.now s.heap code s.sessions u,
        found,
        (is_expired_iff s.now (s.heap p)).1 old,
        find_session,
      )
      (ground (arith, eq_iff code "")),
)
  where
    c : Conn
    c = record { conn_type = kind; session = p; id = id }

    cl : SessionClient
    cl = record { id = id; conn_type = kind; call = i }

    swept : System
    swept = record s { handler = record s.handler { sessions = clean s.now s.heap s.sessions } }

-- The writer of a call whose connection is closed still takes the next event of the session, and
-- the event is written to nobody.
stale_writer :
    (s : System) (i p : ℕ) (event : DrawEvent) (rest : List DrawEvent) (written : Bool)
    → s.pc i ≡ gone
    → s.writer i ≡ waiting p
    → (s.heap p).broadcast ≡ event ∷ rest
    → (t : System) × (step (writes i written) s ≡ some t)
      × ((t.heap p).broadcast ≡ rest)
      × (t.log ≡ s.log ++ record { session = p; call = i; event = event; written = false } ∷ [])
      × (t.writer i ≡ ended)
unfolding step write_step is_open
stale_writer s i p event rest written away at_p front = (
  after_write i p event rest false s,
  rw (at_p, step, write_step) (rw (front, away, write_step, is_open) (ground arith)),
  ground arith,
  refl,
  ground arith,
)

Move-history :
    (p i : ℕ) {s t : System} {q : Pc} {choice : _}
    → Move i s q choice t
    → (more : List DrawEvent) × ((t.heap p).history ≡ (s.heap p).history ++ more)
unfolding append_history add_client remove_client touch
Move-history p i {s} (appends c e) =
    (if c.session == p then e ∷ [] else [], ground (arith, append-nil (s.heap p).history))
Move-history p i {s} (asks kind code) = ([], sym (append-nil _))
Move-history p i {s} (accepts kind r) = ([], sym (append-nil _))
Move-history p i {s} (refuses kind r) = ([], sym (append-nil _))
Move-history p i {s} (joins kind r id) = ([], ground (arith, append-nil (s.heap p).history))
Move-history p i {s} (copies c) = ([], sym (append-nil _))
Move-history p i {s} (greets c events) = ([], sym (append-nil _))
Move-history p i {s} (misses c events) = ([], sym (append-nil _))
Move-history p i {s} (takes c r) = ([], sym (append-nil _))
Move-history p i {s} (sends c e room) = ([], ground (arith, append-nil (s.heap p).history))
Move-history p i {s} (touches c) = ([], ground (arith, append-nil (s.heap p).history))
Move-history p i {s} (leaves c) = ([], ground (arith, append-nil (s.heap p).history))

pub Turn-history :
    (p : ℕ) {s t : System} {a : Action}
    → p < s.allocated
    → Turn s a t
    → (more : List DrawEvent) × ((t.heap p).history ≡ (s.heap p).history ++ more)
unfolding create_canvas
Turn-history p {s} old (makes code) = ([], ground (arith, append-nil (s.heap p).history))
Turn-history p old (moves i c m) = Move-history p i m
Turn-history p {s} old (delivers i r event rest written at_r front) =
    ([], ground (arith, append-nil (s.heap p).history))
Turn-history p {s} old sweeps = ([], sym (append-nil _))
Turn-history p {s} old (waits d) = ([], sym (append-nil _))

-- The history of a session that was made is only added to, at its end, whatever happens: no event
-- leaves it, and it has no limit.
Reach-history :
    (p : ℕ) {s t : System}
    → p < s.allocated
    → Reach s t
    → (s.allocated ≤ t.allocated)
      × ((more : List DrawEvent) × ((t.heap p).history ≡ (s.heap p).history ++ more))
Reach-history p {s} old here = (omega arith, ([], sym (append-nil _)))
Reach-history p {s} old (next r a e) =
    let (le, (xs, h)) = Reach-history p old r in
    let turn = step-Turn a _ _ e in
    let (ys, k) = Turn-history p (omega arith) turn in
    (
      omega (arith, allocated-le turn),
      (xs ++ ys, k ∙ (ap (λ l. l ++ ys) h ∙ append_assoc (s.heap p).history xs ys)),
    )
