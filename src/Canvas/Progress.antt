-- ===== src/Canvas/Progress.antt =====
-- canvaservice/handler/handler.go: a call can always come to its end while its session has room in its
-- channel or a writer in its loop.
use fawa.Common.{
  ℕ, ◌<◌, ◌≤◌, String, false, ◌≡◌, refl, ◌⊎◌, List, [], ◌∷◌, Option, none, some, arith, length, ltb,
  inl, inr, eq_refl, Bool-cases,
}
use fawa.Common.Dict
use fawa.Canvas.{
  DrawEvent, ConnType, bad_request, broadcast_capacity, find_session, append_history, remove_client,
}
use fawa.Canvas.System.{
  System, Conn, Pc, arrived, found, upgraded, joined, copied, reading, adding, sending, touching,
  leaving, answered, gone, waiting, with_code, upgrade, client_id, reads, fails, goes_on, serves,
  writes, at_pc, at_session, entry_pc, read_pc, serve_step, run, start, Reach,
}
use fawa.Canvas.Ownership.{owner}
use fawa.Canvas.Invariant.{Reach-IsConsistent}
use fawa.Canvas.Turns.{after_write}
use fawa.Canvas.Steps.{writing_step, sending_step, with_sent}
use fawa.Canvas.Ending.{Ends, before, longer, over-Ends, serving}

-- The channel of session `p` has room, or a writer waits there.
abbrev pub Served : ℕ → System → Type 0
Served p s =
    (length (s.heap p).broadcast < broadcast_capacity) ⊎ ((j : ℕ) × (s.writer j ≡ waiting p))

module _ (i : ℕ) (c : Conn) where
  abbrev here : Option (ℕ × String)
  here = some (c.session, c.id)

  leaving-Ends : (s : System) → s.pc i ≡ leaving c → Ends 1 i here s
  unfolding serve_step remove_client
  leaving-Ends s at = serving 0 i here (leaving c) gone goes_on s _ at refl (
      over-Ends i here _ (ground arith)
        (ground (arith, Dict.lookup-erase c.id c.id (s.heap c.session).clients, eq_refl c.id)))

  reading-Ends : (s : System) → s.pc i ≡ reading c → Ends 2 i here s
  unfolding serve_step read_pc
  reading-Ends s at =
      serving 1 i here (reading c) (leaving c) (reads fails) s s at refl
        (leaving-Ends _ (ground arith))

  touching-Ends : (s : System) → s.pc i ≡ touching c → Ends 3 i here s
  unfolding serve_step
  touching-Ends s at =
      serving 2 i here (touching c) (reading c) goes_on s _ at refl (reading-Ends _ (ground arith))

  room-Ends :
      (e : DrawEvent) (s : System)
      → length (s.heap c.session).broadcast < broadcast_capacity
      → s.pc i ≡ sending c e
      → Ends 4 i here s
  room-Ends e s room at =
      before 3 i here (serves i goes_on) s (with_sent i c e s) (sending_step s i c e at room)
        (touching-Ends _ (ground arith))

  -- A sender that finds the channel full goes on after one round of a writer.
  full-Ends :
      (e : DrawEvent) (q : List DrawEvent) (j : ℕ) (s : System)
      → s.writer j ≡ waiting c.session
      → (s.heap c.session).broadcast ≡ q
      → broadcast_capacity ≤ length q
      → length q ≤ broadcast_capacity
      → s.pc i ≡ sending c e
      → Ends 5 i here s
  full-Ends e [] j s waits same full within at = absurd (omega arith)
  full-Ends e (f ∷ q) j s waits same full within at =
      before 4 i here (writes j false) s (after_write j c.session f q false s)
        (writing_step s j c.session f q waits same)
        (room-Ends e (after_write j c.session f q false s) (ground arith) at)

  sending-Ends :
      (e : DrawEvent) (s : System)
      → length (s.heap c.session).broadcast ≤ broadcast_capacity
      → Served c.session s
      → s.pc i ≡ sending c e
      → Ends 5 i here s
  sending-Ends e s within (inl room) at = longer 4 5 i here s (omega arith) (room-Ends e s room at)
  sending-Ends e s within (inr (j, waits)) at =
      elim (Bool-cases (ltb (length (s.heap c.session).broadcast) broadcast_capacity)) [
        | inl room ↦ longer 4 5 i here s (omega arith) (room-Ends e s (ground arith) at)
        | inr full ↦ full-Ends e _ j s waits refl (ground arith) within at
      ]

  still :
      (e : DrawEvent) (s : System)
      → Served c.session s
      → Served c.session (at_pc i (sending c e) (at_session c.session (append_history e) s))
  unfolding append_history
  still e s (inl room) = inl (ground arith)
  still e s (inr waits) = inr waits

  adding-Ends :
      (e : DrawEvent) (s : System)
      → length (s.heap c.session).broadcast ≤ broadcast_capacity
      → Served c.session s
      → s.pc i ≡ adding c e
      → Ends 6 i here s
  unfolding serve_step append_history
  adding-Ends e s within served at =
      let w = at_session c.session (append_history e) s in
      serving 5 i here (adding c e) (sending c e) goes_on s w at refl
        (sending-Ends e (at_pc i (sending c e) w) (ground arith) (still e s served) (ground arith))

  copied-Ends : (es : List DrawEvent) (s : System) → s.pc i ≡ copied c es → Ends 3 i here s
  unfolding serve_step
  copied-Ends es s at =
      serving 2 i here (copied c es) (reading c) goes_on s _ at refl (reading-Ends _ (ground arith))

  joined-Ends : (s : System) → s.pc i ≡ joined c → Ends 4 i here s
  unfolding serve_step
  joined-Ends s at =
      serving 3 i here (joined c) (copied c (s.heap c.session).history) goes_on s s at refl
        (copied-Ends (s.heap c.session).history _ (ground arith))

-- Who has left a session is of no matter to a call that is in none.
unbound : (n i : ℕ) (o : Option (ℕ × String)) (s : System) → Ends n i o s → Ends n i none s
unbound n i o s (actions, le, (t, h, over, left)) = (actions, le, (t, h, over, tt))

upgraded-Ends :
    (i : ℕ) (kind : ConnType) (p : ℕ) (s : System) → s.pc i ≡ upgraded kind p → Ends 5 i none s
unfolding serve_step
upgraded-Ends i kind p s at =
    let c : Conn = record { conn_type = kind; session = p; id = "" } in
    serving 4 i none (upgraded kind p) (joined c) (client_id "") s _ at refl
      (unbound 4 i (some (p, "")) _ (joined-Ends i c _ (ground arith)))

found-Ends :
    (i : ℕ) (kind : ConnType) (p : ℕ) (s : System) → s.pc i ≡ found kind p → Ends 1 i none s
unfolding serve_step
found-Ends i kind p s at =
    serving 0 i none (found kind p) gone (upgrade false) s s at refl
      (over-Ends i none _ (ground arith) tt)

arrived-Ends : (i : ℕ) (kind : ConnType) (s : System) → s.pc i ≡ arrived kind → Ends 1 i none s
unfolding serve_step find_session entry_pc
arrived-Ends i kind s at =
    serving 0 i none (arrived kind) (answered bad_request) (with_code "") s s at refl
      (over-Ends i none _ (ground arith) tt)

place-Ends :
    (i : ℕ) (p : Pc) (s : System)
    → ((r : ℕ) → length (s.heap r).broadcast ≤ broadcast_capacity)
    → ((r : ℕ) (id : String) → owner p ≡ some (r, id) → Served r s)
    → s.pc i ≡ p
    → Ends 6 i (owner p) s
unfolding run
place-Ends i (arrived kind) s within served at =
    longer 1 6 i none s (omega arith) (arrived-Ends i kind s at)
place-Ends i (found kind p) s within served at =
    longer 1 6 i none s (omega arith) (found-Ends i kind p s at)
place-Ends i (upgraded kind p) s within served at =
    longer 5 6 i none s (omega arith) (upgraded-Ends i kind p s at)
place-Ends i (joined c) s within served at =
    longer 4 6 i (here i c) s (omega arith) (joined-Ends i c s at)
place-Ends i (copied c es) s within served at =
    longer 3 6 i (here i c) s (omega arith) (copied-Ends i c es s at)
place-Ends i (reading c) s within served at =
    longer 2 6 i (here i c) s (omega arith) (reading-Ends i c s at)
place-Ends i (adding c e) s within served at =
    adding-Ends i c e s (within c.session) (served c.session c.id refl) at
place-Ends i (sending c e) s within served at =
    longer 5 6 i (here i c) s (omega arith)
      (sending-Ends i c e s (within c.session) (served c.session c.id refl) at)
place-Ends i (touching c) s within served at =
    longer 3 6 i (here i c) s (omega arith) (touching-Ends i c s at)
place-Ends i (leaving c) s within served at =
    longer 1 6 i (here i c) s (omega arith) (leaving-Ends i c s at)
place-Ends i (answered r) s within served at =
    longer 0 6 i none s (omega arith) (over-Ends i none s (ground arith) tt)
place-Ends i gone s within served at =
    longer 0 6 i none s (omega arith) (over-Ends i none s (ground arith) tt)

-- In every system that can come about, each call can be over within six steps and its client out of the
-- session, if the channel of the session that it is in, if any, has room or a writer waits there: also
-- a call that waits for room in the channel.
pub call-Ends :
    (kinds : ℕ → ConnType) (i : ℕ) {s : System}
    → Reach (start kinds) s
    → ((p : ℕ) (id : String) → owner (s.pc i) ≡ some (p, id) → Served p s)
    → Ends 6 i (owner (s.pc i)) s
call-Ends kinds i {s} r served =
    place-Ends i (s.pc i) s (λ p. ((Reach-IsConsistent kinds r).sound p).within) served refl
