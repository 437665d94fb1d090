-- ===== src/Canvas/Delivery.antt =====
-- canvaservice/handler/handler.go: what becomes of a draw event in a session. Every writer of a
-- session receives from the one channel of that session, so each event goes to one writer.
use fawa.Common.{
  empty_of_length, ℕ, ◌+◌, ◌<◌, ◌&&◌, ◌≤◌, ◌≡◌, ◌≢◌, refl, sym, ap, ◌∙◌, List, [], ◌∷◌, ◌++◌, some,
  arith, length, length-append, append-nil, append_assoc, ◌==◌, if◌then◌else◌,
}
use fawa.Canvas.{
  DrawEvent, create_canvas, new_session, add_client, remove_client, append_history, touch,
}
use fawa.Canvas.System.{System, Pc, sending, Delivery, Action, serves, step, is_open}
use fawa.Canvas.Turns.{
  Move, asks, accepts, refuses, joins, copies, greets, misses, takes, appends, sends, touches,
  leaves, Turn, makes, moves, delivers, sweeps, waits, step-Turn,
}

-- The events that writers took from the channel of session `p`.
abbrev pub taken : ℕ → List Delivery → List DrawEvent
taken p [] = []
taken p (d ∷ ds) = let rest = taken p ds in if d.session == p then d.event ∷ rest else rest

taken-append : (p : ℕ) (xs ys : List Delivery) → taken p (xs ++ ys) ≡ taken p xs ++ taken p ys
taken-append p [] ys = refl
taken-append p (d ∷ xs) ys = ground (arith, taken-append p xs ys)

-- What a call that stands at `sending` puts into the channel of session `p`.
abbrev pub enqueues : ℕ → Pc → List DrawEvent
enqueues p (sending c event) = if c.session == p then event ∷ [] else []
enqueues p _ = []

abbrev pub enqueued : ℕ → Action → System → List DrawEvent
enqueued p (serves i c) s = enqueues p (s.pc i)
enqueued p _ s = []

-- What the writers took from session `p`, then what waits in its channel.
abbrev pub line : ℕ → System → List DrawEvent
line p s = taken p s.log ++ (s.heap p).broadcast

same-line :
    (p : ℕ) (s : System) (b : List DrawEvent)
    → b ≡ (s.heap p).broadcast
    → taken p s.log ++ b ≡ line p s ++ []
same-line p s b e = rw e (sym (append-nil (line p s)))

Move-line :
    (p i : ℕ) {s t : System} {q : Pc} {choice : _}
    → Move i s q choice t
    → line p t ≡ line p s ++ enqueues p q
unfolding add_client remove_client append_history touch
Move-line p i {s} (asks kind code) = same-line p s _ refl
Move-line p i {s} (accepts kind r) = same-line p s _ refl
Move-line p i {s} (refuses kind r) = same-line p s _ refl
Move-line p i {s} (joins kind r id) = same-line p s _ (ground arith)
Move-line p i {s} (copies c) = same-line p s _ refl
Move-line p i {s} (greets c events) = same-line p s _ refl
Move-line p i {s} (misses c events) = same-line p s _ refl
Move-line p i {s} (takes c r) = same-line p s _ refl
Move-line p i {s} (appends c e) = same-line p s _ (ground arith)
Move-line p i {s} (sends c e room) =
    ground
      (arith, append_assoc (taken p s.log) (s.heap p).broadcast (e ∷ []), append-nil (line p s))
Move-line p i {s} (touches c) = same-line p s _ (ground arith)
Move-line p i {s} (leaves c) = same-line p s _ (ground arith)

-- A step adds to what was taken from a session and what waits there exactly the event that it puts
-- into the channel of the session.
pub Turn-line :
    (p : ℕ) {s t : System} {a : Action}
    → p < s.allocated
    → Turn s a t
    → line p t ≡ line p s ++ enqueued p a s
unfolding create_canvas new_session
Turn-line p {s} old (makes code) = same-line p s _ (ground arith)
Turn-line p old (moves i c m) = Move-line p i m
Turn-line p {s} old (delivers i r event rest written at_r front) = ground (
  arith,
  taken-append p s.log
      (record { session = r; call = i; event = event; written = written && is_open (s.pc i) } ∷ []),
  append_assoc (taken p s.log) (event ∷ []) rest,
  append-nil (taken p s.log),
  append-nil (line p s),
)
Turn-line p {s} old sweeps = same-line p s _ refl
Turn-line p {s} old (waits d) = same-line p s _ refl

Move-allocated :
    (i : ℕ) {s t : System} {q : Pc} {choice : _} → Move i s q choice t → s.allocated ≤ t.allocated
Move-allocated i (asks kind code) = omega arith
Move-allocated i _ = omega arith

pub allocated-le : {s t : System} {a : Action} → Turn s a t → s.allocated ≤ t.allocated
unfolding create_canvas
allocated-le (makes code) = omega arith
allocated-le (moves i c m) = Move-allocated i m
allocated-le (delivers i r event rest written at_r front) = omega arith
allocated-le sweeps = omega arith
allocated-le (waits d) = omega arith

-- A run, with the events that it puts into the channel of session `p`.
pub data Run (p : ℕ) (s : System) : System → List DrawEvent → Type 0 where
  here : Run p s s []
  next :
      {t u : System} {es : List DrawEvent}
      → Run p s t es
      → (a : Action) → step a t ≡ some u
      → Run p s u (es ++ enqueued p a t)

Run-allocated :
    {p : ℕ} {s t : System} {es : List DrawEvent} → Run p s t es → s.allocated ≤ t.allocated
Run-allocated here = omega arith
Run-allocated (next r a e) = omega (arith, Run-allocated r, allocated-le (step-Turn a _ _ e))

-- Each event that goes into the channel of a session is taken from it once, by one writer, in order:
-- over any run, the events that the writers of the session took, followed by what waits in its
-- channel, are those of the start followed by every event that the run put into the channel.
pub Run-line :
    (p : ℕ) {s t : System} {es : List DrawEvent}
    → p < s.allocated
    → Run p s t es
    → line p t ≡ line p s ++ es
Run-line p {s} old here = sym (append-nil (line p s))
Run-line p {s} old (next {t = t} {es = es} r a e) =
    Turn-line p (omega (arith, Run-allocated r)) (step-Turn a _ _ e)
    ∙ (ap (λ l. l ++ enqueued p a t) (Run-line p old r)
        ∙ append_assoc (line p s) es (enqueued p a t))

-- So the writers of a session, however many there are, make at most one write for each event: no
-- more than the events that waited at the start and those that the run put into the channel.
pub length-taken-le :
    (p : ℕ) {s t : System} {es : List DrawEvent}
    → p < s.allocated
    → Run p s t es
    → length (taken p t.log) ≤ length (line p s) + length es
length-taken-le p {s} {t} {es} old r = omega (
  arith,
  ap length (Run-line p old r),
  length-append (taken p t.log) (t.heap p).broadcast,
  length-append (line p s) es,
)

-- The events that the writer of call `i` took from the channel of session `p`.
abbrev pub taken_by : ℕ → ℕ → List Delivery → List DrawEvent
taken_by i p [] = []
taken_by i p (d ∷ ds) =
    let rest = taken_by i p ds in if d.session == p && d.call == i then d.event ∷ rest else rest

length-taken_by :
    (i j p : ℕ) (ds : List Delivery)
    → i ≢ j
    → length (taken_by i p ds) + length (taken_by j p ds) ≤ length (taken p ds)
length-taken_by i j p [] apart = omega arith
length-taken_by i j p (d ∷ ds) apart = ground (arith, length-taken_by i j p ds apart)

-- The channel of a session is no broadcast: over a run that starts with nothing ever taken from a
-- session and nothing waiting in its channel, the writers of two calls have together taken at most as
-- many events as the run put into the channel; so if it put any, not both writers have taken them all.
pub not_broadcast :
    (p i j : ℕ) {s t : System} {es : List DrawEvent}
    → p < s.allocated
    → line p s ≡ []
    → Run p s t es
    → i ≢ j
    → (length (taken_by i p t.log) + length (taken_by j p t.log) ≤ length es)
      × ((es ≢ []) → ¬ ((taken_by i p t.log ≡ es) × (taken_by j p t.log ≡ es)))
not_broadcast p i j {s} {t} {es} old quiet r apart =
    let shared : length (taken_by i p t.log) + length (taken_by j p t.log) ≤ length es =
      omega (arith, length-taken-le p old r, ap length quiet, length-taken_by i j p t.log apart) in
    (
      shared,
      λ some_events (all_i, all_j).
          some_events
            (empty_of_length es (omega (arith, shared, ap length all_i, ap length all_j))),
    )
