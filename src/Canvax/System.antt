-- ===== src/Canvax/System.antt =====
-- The goroutines over one `CanvaServiceHandler`: every call of `Collaborate`, and the loop of
-- `handleBroadcasts`. A step is what one goroutine does between two points where another can come
-- in between; a list of actions is a schedule.
use fawa.Common.{
  none-ne, some_elim, refl, ℕ, String, str_eq, Bool, true, false, List, [], ◌∷◌, ◌++◌, Option, none,
  some, ◌==◌, ◌≡◌, ◌&&◌, if◌then◌else◌, update,
}
use fawa.Canvax.{
  DrawEvent, ClientDrawResponse, initial_history, CanvaServiceHandler, new_canva_service_handler,
  register_client, unregister_client, copy_history, clear_history, add_to_history, send_broadcast,
  receive_broadcast, broadcast_to_clients, close,
}

-- What `Collaborate` returns: `nil` or an error.
pub data Outcome : Type 0 where
  ok : Outcome
  err : String → Outcome

-- What `stream.Receive` gives. A message carries a draw event or nothing.
pub data Received : Type 0 where
  message : Option DrawEvent → Received
  end_of_stream : Received
  canceled : Received
  failed : String → Received

-- Where a call of `Collaborate` stands.
pub data Pc : Type 0 where
  entered : Pc
  registered : String → Pc
  copied : String → List DrawEvent → Pc
  receiving : String → Pc
  adding : String → DrawEvent → Pc
  sending : String → DrawEvent → Pc
  clearing : String → DrawEvent → Pc
  leaving : String → Outcome → Pc
  returned : Outcome → Pc

-- What the goroutine of `handleBroadcasts` is at: the `select`, an event that it has received, or the loop
-- over the clients, with the sends that are still to be made. It holds `clientsMu` for reading in the
-- loop.
pub data Hand : Type 0 where
  idle : Hand
  held : DrawEvent → Hand
  looping : List (ℕ × ClientDrawResponse) → Hand

abbrev pub is_locked : Hand → Bool
is_locked (looping due) = true
is_locked _ = false

-- `sent i` is what was sent on the stream of call `i` by sends that went through, and `running` says that
-- the goroutine of `handleBroadcasts` has not returned.
pub record System : Type 0 where
  pub handler : CanvaServiceHandler
  pub open handler use *
  pub pc : ℕ → Pc
  pub sent : ℕ → List ClientDrawResponse
  pub running : Bool
  pub hand : Hand

unfoldable pub start : System
start = record {
  handler = new_canva_service_handler;
  pc = λ _. entered;
  sent = λ _. [];
  running = true;
  hand = idle;
}

-- The switch on `drawEvent.Type`, after the client id is set.
unfoldable pub process : String → DrawEvent → Pc
process id event =
    let stamped : DrawEvent = record event { client_id = id } in
    if str_eq event.type "ping" then receiving id else adding id stamped

-- The rest of the loop's body after `stream.Receive`.
unfoldable pub handle : String → Received → Pc
unfolding process
handle id (message (some event)) = process id event
handle id (message none) = receiving id
handle id end_of_stream = leaving id ok
handle id canceled = leaving id ok
handle id (failed e) = leaving id (err e)

-- After the broadcast: `clear` goes on to `clearHistory`, any other event back to the loop.
unfoldable pub after_send : String → DrawEvent → Pc
after_send id event = if str_eq event.type "clear" then clearing id event else receiving id

-- The next step of a goroutine, with what its surroundings decide: the random client id, whether a
-- send of the history fails, an error of the context, what is received.
pub data Choice : Type 0 where
  client_id : String → Choice
  history_send : Option String → Choice
  context_error : String → Choice
  receives : Received → Choice
  goes_on : Choice

pub data Action : Type 0 where
  collaborate : ℕ → Choice → Action
  deliver : Bool → Action
  stop_broadcasts : Action
  shut_down : Action

abbrev pub at_pc : ℕ → Pc → System → System
at_pc i p s = record s { pc = update s.pc i p }

abbrev pub with_handler : CanvaServiceHandler → System → System
with_handler h s = record s { handler = h }

-- One step of a call of `Collaborate`; `none` where it cannot be made. Registering and unregistering
-- wait for the lock of the clients.
unfoldable pub collaborate_step : ℕ → Pc → Choice → System → Option System
collaborate_step i entered (client_id id) s =
    if is_locked s.hand
    then none
    else some (at_pc i (registered id) (with_handler (register_client id i s.handler) s))
collaborate_step i (registered id) goes_on s = some (at_pc i (copied id (copy_history s.handler)) s)
collaborate_step i (copied id events) (history_send none) s = some (
    at_pc i (receiving id)
      (record s { sent = update s.sent i (s.sent i ++ initial_history events ∷ []) }))
collaborate_step i (copied id events) (history_send (some e)) s =
    some (at_pc i (leaving id (err e)) s)
collaborate_step i (receiving id) (context_error e) s = some (at_pc i (leaving id (err e)) s)
collaborate_step i (receiving id) (receives r) s = some (at_pc i (handle id r) s)
collaborate_step i (adding id event) goes_on s =
    some (at_pc i (sending id event) (with_handler (add_to_history event s.handler) s))
collaborate_step i (sending id event) goes_on s = elim (send_broadcast event s.handler) [
  | none ↦ none
  | some h ↦ some (at_pc i (after_send id event) (with_handler h s))
]
collaborate_step i (clearing id event) goes_on s =
    some (at_pc i (receiving id) (with_handler (clear_history event s.handler) s))
collaborate_step i (leaving id o) goes_on s =
    if is_locked s.hand
    then none
    else some (at_pc i (returned o) (with_handler (unregister_client id s.handler) s))
collaborate_step _ _ _ _ = none

-- A step that waits for a lock was made with the lock free.
pub gate :
    (b : Bool) {s t : System}
    → (if b then none else some s) ≡ some t
    → (b ≡ false) × (some s ≡ some t)
gate true h = none-ne h
gate false h = (refl, h)

-- The messages of a list of sends that go to one stream.
unfoldable pub for_stream : ℕ → List (ℕ × ClientDrawResponse) → List ClientDrawResponse
for_stream i [] = []
for_stream i ((j, r) ∷ sends) = let rest = for_stream i sends in if j == i then r ∷ rest else rest

-- The next step of `handleBroadcasts` with `broadcastToClients`: the receive, `RLock` with the start of the
-- loop, one `Send`, and `RUnlock` after the last. The Boolean says whether the `Send` goes through; if it
-- does not, that is only logged.
unfoldable pub deliver_step : Bool → Hand → System → Option System
deliver_step through idle s = elim (receive_broadcast s.handler) [
  | none ↦ none
  | some (event, h) ↦ if s.running then some (record s { handler = h; hand = held event }) else none
]
deliver_step through (held event) s =
    some (record s { hand = looping (broadcast_to_clients event s.clients) })
deliver_step through (looping []) s = some (record s { hand = idle })
deliver_step through (looping ((j, r) ∷ due)) s = some (record s {
  sent = if through then update s.sent j (s.sent j ++ r ∷ []) else s.sent;
  hand = looping due;
})

abbrev pub is_idle : Hand → Bool
is_idle idle = true
is_idle _ = false

-- `case <-h.done`
unfoldable pub stop_step : System → Option System
stop_step s =
    if s.running && (s.done && is_idle s.hand) then some (record s { running = false }) else none

-- A call of `Close`; `none` is its panic, or that it waits for the lock of the clients.
unfoldable pub close_step : System → Option System
close_step s = elim (close s.handler) [
  | none ↦ none
  | some h ↦ if is_locked s.hand then none else some (with_handler h s)
]

unfoldable pub step : Action → System → Option System
step (collaborate i c) s = collaborate_step i (s.pc i) c s
step (deliver through) s = deliver_step through s.hand s
step stop_broadcasts s = stop_step s
step shut_down s = close_step s

unfoldable pub run : List Action → System → Option System
run [] s = some s
run (a ∷ rest) s = elim (step a s) [ none ↦ none | some t ↦ run rest t ]

-- What can come about from a given system, in any order of steps.
pub data Reach (s : System) : System → Type 0 where
  here : Reach s s
  next : {t u : System} → Reach s t → (a : Action) → step a t ≡ some u → Reach s u

step-Reach :
    {s t u : System} (a : Action) (rest : List Action) (o : Option System)
    → Reach s t
    → step a t ≡ o
    → run (a ∷ rest) t ≡ some u
    → (w : System) × Reach s w × (run rest w ≡ some u)
unfolding run
step-Reach a rest none r e h = none-ne (rw (e, run) at h)
step-Reach a rest (some w) r e h = (w, next r a e, rw (e, run) at h)

-- A schedule that runs to its end shows that its last system can come about.
pub run-Reach :
    {s u : System} (actions : List Action) {t : System}
    → Reach s t
    → run actions t ≡ some u
    → Reach s u
unfolding run
run-Reach {s} [] r h = some_elim (Reach s) h r
run-Reach (a ∷ rest) {t} r h =
    let (w, r', h') = step-Reach a rest (step a t) r refl h in run-Reach rest {t = w} r' h'
