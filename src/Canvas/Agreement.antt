-- ===== src/Canvas/Agreement.antt =====
-- canvaservice/handler/handler.go, `processSessionDrawEvent`: it adds an event to the history of a session
-- and then puts it into the channel, with no lock held over both.
use fawa.Common.{
  ℕ, ◌<◌, ◌≤◌, ◌≡◌, refl, sym, ap, subst, ◌∙◌, List, [], ◌∷◌, ◌++◌, append-nil, some, arith, ◌==◌,
  if◌then◌else◌, Bool-cases, inl, inr, false,
}
use fawa.Canvas.{
  DrawEvent, Entry, answers, enters, ConnType, create_canvas, find_session, add_client,
  remove_client, append_history, touch,
}
use fawa.Canvas.System.{
  System, Conn, Pc, adding, Read, request, Action, serves, step, entry_pc, read_pc,
}
use fawa.Canvas.Turns.{
  Move, asks, accepts, refuses, joins, copies, greets, misses, takes, appends, sends, touches,
  leaves, Turn, makes, moves, delivers, sweeps, waits, step-Turn,
}
use fawa.Canvas.Posts.{
  Posts, posts, events, events_of, events-posts, events_of-append, events_of-posts, chained,
  held_on,
}
use fawa.Canvas.Delivery.{enqueues, enqueued, line, Turn-line, allocated-le}

-- What a call that stands at `adding` adds to the history of session `p`.
abbrev pub adds : ℕ → Pc → List DrawEvent
adds p (adding c event) = if c.session == p then event ∷ [] else []
adds p _ = []

-- The acting call with what it adds to the history of session `p`, and with what it puts into its
-- channel.
abbrev pub added_by : ℕ → Action → System → Posts
added_by p (serves i c) s = posts i (adds p (s.pc i))
added_by p _ s = []

abbrev pub enqueued_by : ℕ → Action → System → Posts
enqueued_by p (serves i c) s = posts i (enqueues p (s.pc i))
enqueued_by p _ s = []

-- A run, with what it adds to the history of session `p` and what it puts into its channel.
pub data Trace (p : ℕ) (s : System) : System → Posts → Posts → Type 0 where
  here : Trace p s s [] []
  next :
      {t u : System} {xs ys : Posts}
      → Trace p s t xs ys
      → (a : Action) → step a t ≡ some u
      → Trace p s u (xs ++ added_by p a t) (ys ++ enqueued_by p a t)

same-history :
    (s : System) (p : ℕ) (h : List DrawEvent)
    → h ≡ (s.heap p).history
    → h ≡ (s.heap p).history ++ []
same-history s p h e = e ∙ sym (append-nil (s.heap p).history)

Move-added :
    (p i : ℕ) {s t : System} {q : Pc} {choice : _}
    → Move i s q choice t
    → (t.heap p).history ≡ (s.heap p).history ++ adds p q
unfolding append_history add_client remove_client touch
Move-added p i {s} (appends c e) = ground (arith, append-nil (s.heap p).history)
Move-added p i {s} (asks kind code) = same-history s p _ refl
Move-added p i {s} (accepts kind r) = same-history s p _ refl
Move-added p i {s} (refuses kind r) = same-history s p _ refl
Move-added p i {s} (joins kind r id) = same-history s p _ (ground arith)
Move-added p i {s} (copies c) = same-history s p _ refl
Move-added p i {s} (greets c es) = same-history s p _ refl
Move-added p i {s} (misses c es) = same-history s p _ refl
Move-added p i {s} (takes c r) = same-history s p _ refl
Move-added p i {s} (sends c e room) = same-history s p _ (ground arith)
Move-added p i {s} (touches c) = same-history s p _ (ground arith)
Move-added p i {s} (leaves c) = same-history s p _ (ground arith)

-- What a call adds is what it sends next.
entry_pc-enqueues : (p : ℕ) (kind : ConnType) (e : Entry) → enqueues p (entry_pc kind e) ≡ []
unfolding entry_pc
entry_pc-enqueues p kind (answers r) = refl
entry_pc-enqueues p kind (enters q) = refl

read_pc-enqueues : (p : ℕ) (c : Conn) (r : Read) → enqueues p (read_pc c r) ≡ []
unfolding read_pc
read_pc-enqueues p c (request (some e)) = refl
read_pc-enqueues p c _ = refl

Move-hands :
    (p i : ℕ) {s t : System} {q : Pc} {choice : _}
    → Move i s q choice t
    → enqueues p (t.pc i) ≡ adds p q
Move-hands p i (appends c e) = ground arith
Move-hands p i {s} (asks kind code) =
    ground (arith, entry_pc-enqueues p kind (find_session code s.handler))
Move-hands p i (accepts kind r) = ground arith
Move-hands p i (refuses kind r) = ground arith
Move-hands p i (joins kind r id) = ground arith
Move-hands p i (copies c) = ground arith
Move-hands p i (greets c es) = ground arith
Move-hands p i (misses c es) = ground arith
Move-hands p i (takes c r) = ground (arith, read_pc-enqueues p c r)
Move-hands p i (sends c e room) = ground arith
Move-hands p i (touches c) = ground arith
Move-hands p i (leaves c) = ground arith

Turn-added :
    (p : ℕ) {s t : System} {a : Action}
    → p < s.allocated
    → Turn s a t
    → (t.heap p).history ≡ (s.heap p).history ++ events (added_by p a s)
unfolding create_canvas
Turn-added p {s} old (makes code) = same-history s p _ (ground arith)
Turn-added p {s} old (moves i c m) =
    Move-added p i m ∙ ap (λ l. (s.heap p).history ++ l) (sym (events-posts i (adds p (s.pc i))))
Turn-added p {s} old (delivers i r event rest written at_r front) =
    same-history s p _ (ground arith)
Turn-added p {s} old sweeps = same-history s p _ refl
Turn-added p {s} old (waits d) = same-history s p _ refl

enqueued-events : (p : ℕ) (a : Action) (s : System) → enqueued p a s ≡ events (enqueued_by p a s)
enqueued-events p (serves i c) s = sym (events-posts i (enqueues p (s.pc i)))
enqueued-events p _ s = refl

Move-apart :
    (i j : ℕ) {s t : System} {q : Pc} {choice : _}
    → Move j s q choice t
    → (j == i) ≡ false
    → t.pc i ≡ s.pc i
Move-apart i j (appends c e) apart = ground arith
Move-apart i j _ apart = ground arith

-- What call `i` has added and not sent changes by what it adds and what it sends.
Turn-hands :
    (p i : ℕ) {s t : System} {a : Action}
    → Turn s a t
    → enqueues p (s.pc i) ++ events_of i (added_by p a s)
      ≡ events_of i (enqueued_by p a s) ++ enqueues p (t.pc i)
Turn-hands p i {s} {t} (moves j c m) = elim (Bool-cases (j == i)) [
  | inl self ↦
      let same : j ≡ i = ground arith in
      subst
        (λ k.
          enqueues p (s.pc k) ++ events_of k (posts j (adds p (s.pc j)))
          ≡ events_of k (posts j (enqueues p (s.pc j))) ++ enqueues p (t.pc k))
        same
        (ground (
          arith,
          events_of-posts j j (adds p (s.pc j)),
          events_of-posts j j (enqueues p (s.pc j)),
          Move-hands p j m,
        ))
  | inr apart ↦ ground (
    arith,
    events_of-posts i j (adds p (s.pc j)),
    events_of-posts i j (enqueues p (s.pc j)),
    Move-apart i j m apart,
    append-nil (enqueues p (s.pc i)),
  )
]
Turn-hands p i {s} (makes code) = append-nil (enqueues p (s.pc i))
Turn-hands p i {s} (delivers j r event rest written at_r front) = append-nil (enqueues p (s.pc i))
Turn-hands p i {s} sweeps = append-nil (enqueues p (s.pc i))
Turn-hands p i {s} (waits d) = append-nil (enqueues p (s.pc i))

Trace-allocated :
    {p : ℕ} {s t : System} {xs ys : Posts} → Trace p s t xs ys → s.allocated ≤ t.allocated
Trace-allocated here = omega arith
Trace-allocated (next r a e) = omega (arith, Trace-allocated r, allocated-le (step-Turn a _ _ e))

-- Over any run and for each session that was made before it: the history is that of the start followed
-- by what the calls added, and what the writers took and what waits in the channel is that of the start
-- followed by what the calls sent; and each call has sent the very events that it added, in the order
-- in which it added them, but for one that it added last and has still to send.
pub Trace-agrees :
    (p : ℕ) {s t : System} {xs ys : Posts}
    → p < s.allocated
    → Trace p s t xs ys
    → ((t.heap p).history ≡ (s.heap p).history ++ events xs)
      × (line p t ≡ line p s ++ events ys)
      × ((i : ℕ) → enqueues p (s.pc i) ++ events_of i xs ≡ events_of i ys ++ enqueues p (t.pc i))
Trace-agrees p {s} old here =
    (sym (append-nil _), sym (append-nil (line p s)), λ i. append-nil (enqueues p (s.pc i)))
Trace-agrees p {s} {t} old (next {t = w} {xs = xs} {ys = ys} r a e) =
    let (kept, lined, sent) = Trace-agrees p old r in
    let turn = step-Turn a w t e in
    let made : p < w.allocated = omega (arith, Trace-allocated r) in
    let zs = added_by p a w in
    let ws = enqueued_by p a w in
    (
      chained _ _ _ xs zs kept (Turn-added p made turn),
      chained (line p s) (line p w) (line p t) ys ws lined
          (Turn-line p made turn ∙ ap (λ l. line p w ++ l) (enqueued-events p a w)),
      λ i.
          ap (λ l. enqueues p (s.pc i) ++ l) (events_of-append i xs zs)
          ∙ (held_on (enqueues p (s.pc i)) (enqueues p (w.pc i)) (enqueues p (t.pc i))
                (events_of i xs) (events_of i ys) (events_of i zs) (events_of i ws) (sent i)
                (Turn-hands p i turn)
              ∙ ap (λ l. l ++ enqueues p (t.pc i)) (sym (events_of-append i ys ws))),
    )
