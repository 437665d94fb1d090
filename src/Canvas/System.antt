-- ===== src/Canvas/System.antt =====
-- canvaservice/handler/handler.go: the goroutines over the sessions. A call of `HandleWebSocket` or
-- `HandleWebTransport` runs its reader itself and starts a writer, `sessionBroadcastWriter`; the
-- cleaner runs beside them. A step is what one goroutine does between two points where another can
-- come in between.
use fawa.Common.{
  none-ne, some_elim, refl, ℕ, ◌+◌, String, ◌&&◌, Bool, true, false, List, [], ◌∷◌, ◌++◌, Option,
  none, some, ◌≡◌, if◌then◌else◌, update,
}
use fawa.Canvas.{
  DrawEvent, ClientDrawResponse, ConnType, SessionClient, CanvasSession, CanvasServiceHandler,
  new_canvas_service_handler, HttpResponse, Entry, answers, enters, create_canvas, find_session,
  add_client, remove_client, initial_response, append_history, send_broadcast, touch, clean,
}

-- A connection that is up: its kind, the pointer of its session, and the id of its client.
pub record Conn : Type 0 where
  pub conn_type : ConnType
  pub session : ℕ
  pub id : String

-- Where a handler call stands.
pub data Pc : Type 0 where
  arrived : ConnType → Pc
  found : ConnType → ℕ → Pc
  upgraded : ConnType → ℕ → Pc
  joined : Conn → Pc
  copied : Conn → List DrawEvent → Pc
  reading : Conn → Pc
  adding : Conn → DrawEvent → Pc
  sending : Conn → DrawEvent → Pc
  touching : Conn → Pc
  leaving : Conn → Pc
  answered : HttpResponse → Pc
  gone : Pc

-- The writer of a call: not started, in its loop over the channel of a session, or returned.
pub data Writer : Type 0 where
  off : Writer
  waiting : ℕ → Writer
  ended : Writer

-- A draw event that the writer of a call took from the channel of a session, and whether the write
-- went through.
pub record Delivery : Type 0 where
  pub session : ℕ
  pub call : ℕ
  pub event : DrawEvent
  pub written : Bool

-- `greeted i` is what call `i` wrote on its connection itself, `log` what the writers took.
pub record System : Type 0 where
  pub handler : CanvasServiceHandler
  pub open handler use *
  pub pc : ℕ → Pc
  pub writer : ℕ → Writer
  pub greeted : ℕ → List ClientDrawResponse
  pub log : List Delivery
  pub now : ℕ

-- The kind of each call is given, by the endpoint that was requested.
unfoldable pub start : (ℕ → ConnType) → System
start kinds = record {
  handler = new_canvas_service_handler;
  pc = λ i. arrived (kinds i);
  writer = λ _. off;
  greeted = λ _. [];
  log = [];
  now = 0;
}

-- What a reader gets: a request with a draw event or with none, or an error, a close or the end of
-- the session among them. Where a stream of a WebTransport session ends the reader takes the next
-- stream, which shows as no request.
pub data Read : Type 0 where
  request : Option DrawEvent → Read
  no_request : Read
  fails : Read

-- What the surroundings decide: the code of the request, whether the upgrade and (for WebTransport)
-- the opening of the output stream go through, the random client id, what is read, and that the write
-- of the initial history fails.
pub data Choice : Type 0 where
  with_code : String → Choice
  upgrade : Bool → Choice
  client_id : String → Choice
  reads : Read → Choice
  write_fails : Choice
  goes_on : Choice

pub data Action : Type 0 where
  creates : String → Action
  serves : ℕ → Choice → Action
  writes : ℕ → Bool → Action
  cleans : Action
  passes : ℕ → Action

abbrev pub at_pc : ℕ → Pc → System → System
at_pc i p s = record s { pc = update s.pc i p }

-- A change of one session in the heap.
abbrev pub at_session : ℕ → (CanvasSession → CanvasSession) → System → System
at_session p f s = record s { handler = record s.handler { heap = update s.heap p (f (s.heap p)) } }

unfoldable pub entry_pc : ConnType → Entry → Pc
entry_pc kind (answers r) = answered r
entry_pc kind (enters p) = found kind p

-- The reader's loop, with the head of `processSessionDrawEvent`.
unfoldable pub read_pc : Conn → Read → Pc
read_pc c (request (some event)) = adding c (record event { client_id = c.id })
read_pc c (request none) = reading c
read_pc c no_request = reading c
read_pc c fails = leaving c

-- One step of a handler call; `none` where it cannot be made.
unfoldable pub serve_step : ℕ → Pc → Choice → System → Option System
serve_step i (arrived kind) (with_code code) s =
    some (at_pc i (entry_pc kind (find_session code s.handler)) s)
serve_step i (found kind p) (upgrade true) s = some (at_pc i (upgraded kind p) s)
serve_step i (found kind p) (upgrade false) s = some (at_pc i gone s)
serve_step i (upgraded kind p) (client_id id) s =
    let client : SessionClient = record { id = id; conn_type = kind; call = i } in
    some (
      at_pc i (joined (record { conn_type = kind; session = p; id = id }))
        (at_session p (add_client client) s))
serve_step i (joined c) goes_on s = some (at_pc i (copied c (s.heap c.session).history) s)
serve_step i (copied c events) goes_on s = some (
    at_pc i (reading c) (record s {
      greeted = update s.greeted i (s.greeted i ++ initial_response events);
      writer = update s.writer i (waiting c.session);
    }))
serve_step i (copied c events) write_fails s =
    some (at_pc i (reading c) (record s { writer = update s.writer i (waiting c.session) }))
serve_step i (reading c) (reads r) s = some (at_pc i (read_pc c r) s)
serve_step i (adding c event) goes_on s =
    some (at_pc i (sending c event) (at_session c.session (append_history event) s))
serve_step i (sending c event) goes_on s = elim (send_broadcast event (s.heap c.session)) [
  | none ↦ none
  | some q ↦ some (at_pc i (touching c) (at_session c.session (λ _. q) s))
]
serve_step i (touching c) goes_on s =
    some (at_pc i (reading c) (at_session c.session (touch s.now) s))
serve_step i (leaving c) goes_on s =
    some (at_pc i gone (at_session c.session (remove_client c.id) s))
serve_step _ _ _ _ = none

-- A connection is closed when its call returns, and a write on it fails from then on.
unfoldable pub is_open : Pc → Bool
is_open gone = false
is_open _ = true

-- One round of `sessionBroadcastWriter`: it takes the next event from the channel and writes it; a
-- write that fails ends it.
unfoldable pub write_step : ℕ → Writer → Bool → System → Option System
write_step i (waiting p) written s = elim (s.heap p).broadcast [
  | [] ↦ none
  | event ∷ rest ↦
      let through = written && is_open (s.pc i) in
      some (record (at_session p (λ q. record q { broadcast = rest }) s) {
        writer = update s.writer i (if through then waiting p else ended);
        log = s.log ++ record { session = p; call = i; event = event; written = through } ∷ [];
      })
]
write_step _ _ _ _ = none

unfoldable pub step : Action → System → Option System
step (creates code) s = some (record s { handler = (create_canvas code s.now s.handler).0 })
step (serves i c) s = serve_step i (s.pc i) c s
step (writes i written) s = write_step i (s.writer i) written s
step cleans s =
    some (record s { handler = record s.handler { sessions = clean s.now s.heap s.sessions } })
step (passes d) s = some (record s { now = s.now + d })

unfoldable pub run : List Action → System → Option System
run [] s = some s
run (a ∷ rest) s = elim (step a s) [ none ↦ none | some t ↦ run rest t ]

-- What can come about from a given system, in any order of steps.
pub data Reach (s : System) : System → Type 0 where
  here : Reach s s
  next : {t u : System} → Reach s t → (a : Action) → step a t ≡ some u → Reach s u

step-Reach :
    {s t u : System} (a : Action) (rest : List Action) (o : Option System)
    → Reach s t
    → step a t ≡ o
    → run (a ∷ rest) t ≡ some u
    → (w : System) × Reach s w × (run rest w ≡ some u)
unfolding run
step-Reach a rest none r e h = none-ne (rw (e, run) at h)
step-Reach a rest (some w) r e h = (w, next r a e, rw (e, run) at h)

-- A schedule that runs to its end shows that its last system can come about.
pub run-Reach :
    {s u : System} (actions : List Action) {t : System}
    → Reach s t
    → run actions t ≡ some u
    → Reach s u
unfolding run
run-Reach {s} [] r h = some_elim (Reach s) h r
run-Reach (a ∷ rest) {t} r h =
    let (w, r', h') = step-Reach a rest (step a t) r refl h in run-Reach rest {t = w} r' h'
