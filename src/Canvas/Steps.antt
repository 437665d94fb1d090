-- ===== src/Canvas/Steps.antt =====
-- canvaservice/handler/handler.go: single steps of `System` as equations, for proofs that follow a
-- schedule.
use fawa.Common.{
  ℕ, ◌<◌, ◌≡◌, refl, List, [], ◌∷◌, ◌++◌, Option, none, some, none-ne, length, lt→ltb, false,
}
use fawa.Canvas.{DrawEvent, broadcast_capacity, append_history, send_broadcast}
use fawa.Canvas.System.{
  System, Conn, adding, sending, touching, waiting, goes_on, Action, serves, writes, at_pc,
  at_session, serve_step, write_step, step, run,
}
use fawa.Canvas.Turns.{after_write}

pub run-cons :
    (a : Action) (rest : List Action) (s t : System)
    → step a s ≡ some t
    → run (a ∷ rest) s ≡ run rest t
unfolding run
run-cons a rest s t e = rw (e, run)

first_step :
    (a : Action) (rest : List Action) (s t : System) (o : Option System)
    → step a s ≡ o
    → run (a ∷ rest) s ≡ some t
    → (w : System) × (step a s ≡ some w) × (run rest w ≡ some t)
unfolding run
first_step a rest s t none e h = none-ne (rw (e, run) at h)
first_step a rest s t (some w) e h = (w, e, rw (e, run) at h)

-- A schedule that runs to its end makes its first step.
pub run-uncons :
    (a : Action) (rest : List Action) (s t : System)
    → run (a ∷ rest) s ≡ some t
    → (w : System) × (step a s ≡ some w) × (run rest w ≡ some t)
run-uncons a rest s t h = first_step a rest s t (step a s) refl h

-- Where a writer waits at session `p`, it can take the event in front of the channel.
pub writing_step :
    (s : System) (j p : ℕ) (e : DrawEvent) (rest : List DrawEvent)
    → s.writer j ≡ waiting p
    → (s.heap p).broadcast ≡ e ∷ rest
    → step (writes j false) s ≡ some (after_write j p e rest false s)
unfolding step write_step
writing_step s j p e rest at front = rw (at, step) (rw (front, write_step))

pub adding_step :
    (s : System) (i : ℕ) (c : Conn) (e : DrawEvent)
    → s.pc i ≡ adding c e
    → step (serves i goes_on) s
      ≡ some (at_pc i (sending c e) (at_session c.session (append_history e) s))
unfolding step serve_step
adding_step s i c e place = rw (place, step, serve_step)

-- The system after call `i` put an event into the channel of its session.
abbrev pub with_sent : ℕ → Conn → DrawEvent → System → System
with_sent i c e s =
    let q = s.heap c.session in
    at_pc i (touching c)
      (at_session c.session (λ _. record q { broadcast = q.broadcast ++ e ∷ [] }) s)

pub sending_step :
    (s : System) (i : ℕ) (c : Conn) (e : DrawEvent)
    → s.pc i ≡ sending c e
    → length (s.heap c.session).broadcast < broadcast_capacity
    → step (serves i goes_on) s ≡ some (with_sent i c e s)
unfolding step serve_step send_broadcast
sending_step s i c e place room =
    rw (place, step, serve_step) (rw (lt→ltb _ _ room, serve_step, send_broadcast))
