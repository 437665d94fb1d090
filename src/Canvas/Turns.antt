-- ===== src/Canvas/Turns.antt =====
-- canvaservice/handler/handler.go: the steps of `System` as relations, so that a proof about a step
-- splits on the steps that can be made.
use fawa.Common.{
  ℕ, ◌+◌, ◌<◌, String, ◌&&◌, ◌≡◌, refl, Bool, true, false, List, [], ◌∷◌, ◌++◌, some, arith, inl,
  inr, Bool-cases, length, some_elim, none-ne, ltb, update, if◌then◌else◌,
}
use fawa.Canvas.{
  DrawEvent, ConnType, broadcast_capacity, create_canvas, find_session, add_client, remove_client,
  initial_response, append_history, send_broadcast, touch, clean,
}
use fawa.Canvas.System.{
  System, Conn, Pc, arrived, found, upgraded, joined, copied, reading, adding, sending, touching,
  leaving, gone, Writer, off, waiting, ended, Read, Choice, with_code, upgrade, client_id, reads,
  write_fails, goes_on, Action, creates, serves, writes, cleans, passes, at_pc, at_session,
  entry_pc, read_pc, serve_step, is_open, write_step, step,
}

-- The steps of one handler call from each place in it.
pub data Move (i : ℕ) (s : System) : Pc → Choice → System → Type 0 where
  asks :
      (kind : ConnType) (code : String)
      → Move i s
          (arrived kind)
          (with_code code)
          (at_pc i (entry_pc kind (find_session code s.handler)) s)
  accepts :
      (kind : ConnType) (p : ℕ)
      → Move i s (found kind p) (upgrade true) (at_pc i (upgraded kind p) s)
  refuses : (kind : ConnType) (p : ℕ) → Move i s (found kind p) (upgrade false) (at_pc i gone s)
  joins :
      (kind : ConnType) (p : ℕ) (id : String)
      → Move i s (upgraded kind p) (client_id id) (
          at_pc i
            (joined (record { conn_type = kind; session = p; id = id }))
            (at_session p (add_client (record { id = id; conn_type = kind; call = i })) s))
  copies :
      (c : Conn) → Move i s (joined c) goes_on (at_pc i (copied c (s.heap c.session).history) s)
  greets :
      (c : Conn) (events : List DrawEvent)
      → Move i s (copied c events) goes_on (
          at_pc i (reading c) (record s {
            greeted = update s.greeted i (s.greeted i ++ initial_response events);
            writer = update s.writer i (waiting c.session);
          }))
  misses :
      (c : Conn) (events : List DrawEvent)
      → Move i s
          (copied c events)
          write_fails
          (at_pc i (reading c) (record s { writer = update s.writer i (waiting c.session) }))
  takes : (c : Conn) (r : Read) → Move i s (reading c) (reads r) (at_pc i (read_pc c r) s)
  appends :
      (c : Conn) (event : DrawEvent)
      → Move i s
          (adding c event)
          goes_on
          (at_pc i (sending c event) (at_session c.session (append_history event) s))
  sends :
      (c : Conn) (event : DrawEvent)
      → length (s.heap c.session).broadcast < broadcast_capacity
      → Move i s (sending c event) goes_on (
          at_pc i
            (touching c)
            (at_session c.session (λ q. record q { broadcast = q.broadcast ++ event ∷ [] }) s))
  touches :
      (c : Conn)
      → Move i s (touching c) goes_on (at_pc i (reading c) (at_session c.session (touch s.now) s))
  leaves :
      (c : Conn)
      → Move i s (leaving c) goes_on (at_pc i gone (at_session c.session (remove_client c.id) s))

pub sending-Move :
    (i : ℕ) (c : Conn) (event : DrawEvent) (s t : System)
    → serve_step i (sending c event) goes_on s ≡ some t
    → Move i s (sending c event) goes_on t
unfolding serve_step send_broadcast
sending-Move i c event s t e =
    elim (Bool-cases (ltb (length (s.heap c.session).broadcast) broadcast_capacity)) [
      | inl room ↦
          some_elim (Move i s (sending c event) goes_on)
            (rw (room, serve_step, send_broadcast) at e) (sends c event (ground arith))
      | inr full ↦ none-ne (rw (full, serve_step, send_broadcast) at e)
    ]

-- Every step of a call is one of the moves.
serve_step-Move :
    (i : ℕ) (p : Pc) (c : Choice) (s t : System) → serve_step i p c s ≡ some t → Move i s p c t
unfolding serve_step
serve_step-Move i (arrived kind) (with_code code) s t e =
    some_elim (Move i s _ _) e (asks kind code)
serve_step-Move i (found kind p) (upgrade true) s t e = some_elim (Move i s _ _) e (accepts kind p)
serve_step-Move i (found kind p) (upgrade false) s t e = some_elim (Move i s _ _) e (refuses kind p)
serve_step-Move i (upgraded kind p) (client_id id) s t e =
    some_elim (Move i s _ _) e (joins kind p id)
serve_step-Move i (joined c) goes_on s t e = some_elim (Move i s _ _) e (copies c)
serve_step-Move i (copied c events) goes_on s t e = some_elim (Move i s _ _) e (greets c events)
serve_step-Move i (copied c events) write_fails s t e = some_elim (Move i s _ _) e (misses c events)
serve_step-Move i (reading c) (reads r) s t e = some_elim (Move i s _ _) e (takes c r)
serve_step-Move i (adding c event) goes_on s t e = some_elim (Move i s _ _) e (appends c event)
serve_step-Move i (sending c event) goes_on s t e = sending-Move i c event s t e
serve_step-Move i (touching c) goes_on s t e = some_elim (Move i s _ _) e (touches c)
serve_step-Move i (leaving c) goes_on s t e = some_elim (Move i s _ _) e (leaves c)
serve_step-Move _ _ _ _ _ e = none-ne e

-- The system after the writer of call `i` took the event in front of the channel of session `p`.
abbrev pub after_write : ℕ → ℕ → DrawEvent → List DrawEvent → Bool → System → System
after_write i p event rest through s =
    record (at_session p (λ q. record q { broadcast = rest }) s) {
      writer = update s.writer i (if through then waiting p else ended);
      log = s.log ++ record { session = p; call = i; event = event; written = through } ∷ [];
    }

-- The steps of the system.
pub data Turn (s : System) : Action → System → Type 0 where
  makes :
      (code : String)
      → Turn s (creates code) (record s { handler = (create_canvas code s.now s.handler).0 })
  moves : (i : ℕ) (c : Choice) {t : System} → Move i s (s.pc i) c t → Turn s (serves i c) t
  delivers :
      (i p : ℕ) (event : DrawEvent) (rest : List DrawEvent) (written : Bool)
      → s.writer i ≡ waiting p
      → (s.heap p).broadcast ≡ event ∷ rest
      → Turn s (writes i written) (after_write i p event rest (written && is_open (s.pc i)) s)
  sweeps :
      Turn s cleans
        (record s { handler = record s.handler { sessions = clean s.now s.heap s.sessions } })
  waits : (d : ℕ) → Turn s (passes d) (record s { now = s.now + d })

front-Turn :
    (q : List DrawEvent) (i p : ℕ) (written : Bool) (s t : System)
    → s.writer i ≡ waiting p
    → (s.heap p).broadcast ≡ q
    → write_step i (waiting p) written s ≡ some t
    → Turn s (writes i written) t
unfolding write_step
front-Turn [] i p written s t at_p empty e = none-ne (rw (empty, write_step) at e)
front-Turn (event ∷ rest) i p written s t at_p front e =
    some_elim (Turn s (writes i written)) (rw (front, write_step) at e)
      (delivers i p event rest written at_p front)

write_step-Turn :
    (i : ℕ) (w : Writer) (written : Bool) (s t : System)
    → s.writer i ≡ w
    → write_step i w written s ≡ some t
    → Turn s (writes i written) t
unfolding write_step
write_step-Turn i (waiting p) written s t at_p e = front-Turn _ i p written s t at_p refl e
write_step-Turn i off written s t at_p e = none-ne e
write_step-Turn i ended written s t at_p e = none-ne e

-- Every step of the system is one of the turns.
pub step-Turn : (a : Action) (s t : System) → step a s ≡ some t → Turn s a t
unfolding step
step-Turn (creates code) s t e = some_elim (Turn s _) e (makes code)
step-Turn (serves i c) s t e = moves i c (serve_step-Move i (s.pc i) c s t e)
step-Turn (writes i written) s t e = write_step-Turn i (s.writer i) written s t refl e
step-Turn cleans s t e = some_elim (Turn s _) e sweeps
step-Turn (passes d) s t e = some_elim (Turn s _) e (waits d)
