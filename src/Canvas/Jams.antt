-- ===== src/Canvas/Jams.antt =====
-- canvaservice/handler/handler.go: a reader that sends into the full channel of a session whose writers have
-- all ended.
use fawa.Common.{
  some, sym, ap, ◌∙◌, subst, ℕ, ◌<◌, ◌≤◌, ◌≡◌, ◌≢◌, refl, arith, length, ◌==◌, Bool-cases, inl, inr,
}
use fawa.Canvas.{
  DrawEvent, broadcast_capacity, create_canvas, new_session, add_client, remove_client,
  append_history, touch,
}
use fawa.Canvas.System.{System, Conn, Pc, sending, waiting, Action, step}
use fawa.Canvas.Turns.{
  Move, asks, accepts, refuses, joins, copies, greets, misses, takes, appends, sends, touches,
  leaves, Turn, makes, moves, delivers, sweeps, waits, step-Turn,
}

-- No writer is in its loop over the channel of session `p`.
abbrev pub Unserved : ℕ → System → Type 0
Unserved p s = (j : ℕ) → s.writer j ≢ waiting p

-- What can come about while no writer serves session `p`.
pub data Meanwhile (p : ℕ) (s : System) : System → Type 0 where
  here : Meanwhile p s s
  next :
      {t u : System}
      → Meanwhile p s t
      → Unserved p t
      → (a : Action) → step a t ≡ some u
      → Meanwhile p s u

abbrev pub Jammed : ℕ → Conn → DrawEvent → System → Type 0
Jammed i c e s =
    (c.session < s.allocated)
    × (broadcast_capacity ≤ length (s.heap c.session).broadcast)
    × (s.pc i ≡ sending c e)

abbrev session_of : Pc → ℕ
session_of (sending c e) = c.session
session_of _ = 0

Move-Jammed :
    (i : ℕ) (c : Conn) (e : DrawEvent) (j : ℕ) {s t : System} {p : Pc} {choice : _}
    → s.pc j ≡ p
    → Move j s p choice t
    → Jammed i c e s
    → Jammed i c e t
unfolding append_history add_client remove_client touch
Move-Jammed i c e j place (asks kind code) h = ground arith
Move-Jammed i c e j place (accepts kind r) h = ground arith
Move-Jammed i c e j place (refuses kind r) h = ground arith
Move-Jammed i c e j place (joins kind r id) h = ground arith
Move-Jammed i c e j place (copies d) h = ground arith
Move-Jammed i c e j place (greets d events) h = ground arith
Move-Jammed i c e j place (misses d events) h = ground arith
Move-Jammed i c e j place (takes d r) h = ground arith
Move-Jammed i c e j place (appends d f) h = ground arith
Move-Jammed i c e j {s} place (sends d f room) h = elim (Bool-cases (d.session == c.session)) [
  | inl same ↦
      let full : broadcast_capacity ≤ length (s.heap d.session).broadcast =
        subst (λ p. broadcast_capacity ≤ length (s.heap p).broadcast) (ground arith) h.1 in
      absurd (omega arith)
  | inr apart ↦ elim (Bool-cases (j == i)) [
    | inl self ↦
        let one : sending d f ≡ sending c e = sym place ∙ (ap s.pc (ground arith) ∙ h.2) in
        absurd (ground (arith, ap session_of one))
    | inr another ↦ ground arith
  ]
]
Move-Jammed i c e j place (touches d) h = ground arith
Move-Jammed i c e j place (leaves d) h = ground arith

Turn-Jammed :
    (i : ℕ) (c : Conn) (e : DrawEvent) {s t : System} {a : Action}
    → Turn s a t
    → Unserved c.session s
    → Jammed i c e s
    → Jammed i c e t
unfolding create_canvas new_session
Turn-Jammed i c e (makes code) idle h = ground arith
Turn-Jammed i c e (moves j x m) idle h = Move-Jammed i c e j refl m h
Turn-Jammed i c e {s} (delivers j r f rest written at_r front) idle h =
    elim (Bool-cases (r == c.session)) [
      | inl same ↦ absurd (idle j (at_r ∙ ap waiting (ground arith)))
      | inr apart ↦ ground arith
    ]
Turn-Jammed i c e sweeps idle h = h
Turn-Jammed i c e (waits d) idle h = h

Meanwhile-Jammed :
    (i : ℕ) (c : Conn) (e : DrawEvent) {s t : System}
    → Jammed i c e s
    → Meanwhile c.session s t
    → Jammed i c e t
Meanwhile-Jammed i c e h here = h
Meanwhile-Jammed i c e h (next m idle a f) =
    Turn-Jammed i c e (step-Turn a _ _ f) idle (Meanwhile-Jammed i c e h m)

-- While no writer is in its loop over the channel of a session, and the channel is full, a call that
-- wants to broadcast in the session stands where it stood, whatever else comes about.
pub stuck_without_writers :
    {s t : System} (i : ℕ) (c : Conn) (e : DrawEvent)
    → c.session < s.allocated
    → broadcast_capacity ≤ length (s.heap c.session).broadcast
    → s.pc i ≡ sending c e
    → Meanwhile c.session s t
    → (broadcast_capacity ≤ length (t.heap c.session).broadcast) × (t.pc i ≡ sending c e)
stuck_without_writers i c e made full place m =
    let (_, full', place') = Meanwhile-Jammed i c e (made, full, place) m in (full', place')
