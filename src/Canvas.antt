-- ===== src/Canvas.antt =====
-- canvaservice/handler/types.go and handler.go: canvas sessions, and what `CanvasServiceHandler`
-- does to them. Sessions are shared by pointer, so they stand in a heap; the goroutines that hold
-- such pointers are in `System`. Times are nanoseconds of a monotonic clock.
pub mod System
mod Turns
mod Steps
pub mod Cleaner
mod Ownership
mod Invariant
pub mod Filing
pub mod Jams
pub mod Delivery
pub mod Hazards
pub mod Posts
pub mod Agreement
pub mod Ending
pub mod Progress
mod Pointers
pub mod Registration
pub mod Occupied
pub mod Greeting
pub mod Bounded
pub mod Reordering
pub mod Messages
pub mod Rooms
mod Examples
mod Runs
use fawa.Common.{
  ℕ, suc, str_eq, ◌-◌, ◌*◌, ◌^◌, String, Bool, true, false, List, [], ◌∷◌, ◌++◌, Option, none, some,
  ltb, ◌==◌, ◌&&◌, length, if◌then◌else◌, update, ℤ,
}
use fawa.Common.Dict
use fawa.Common.Dict.{Dict}

pub record DrawEvent : Type 0 where
  pub type : String
  pub color : String
  pub size : ℤ
  pub prev_x : ℤ
  pub prev_y : ℤ
  pub curr_x : ℤ
  pub curr_y : ℤ
  pub client_id : String
  pub time : ℤ

-- A response with one of its two members set.
pub data ClientDrawResponse : Type 0 where
  draw_event : DrawEvent → ClientDrawResponse
  initial_history : List DrawEvent → ClientDrawResponse

pub data ConnType : Type 0 where
  websocket webtransport : ConnType

-- `call` names the handler call that holds the connection.
pub record SessionClient : Type 0 where
  pub id : String
  pub conn_type : ConnType
  pub call : ℕ

-- `broadcast` is the queue of the channel, oldest first.
pub record CanvasSession : Type 0 where
  pub code : String
  pub clients : Dict SessionClient
  pub history : List DrawEvent
  pub broadcast : List DrawEvent
  pub last_active : ℕ

abbrev pub broadcast_capacity : ℕ
broadcast_capacity = 100

-- `10 * time.Minute`
abbrev pub session_expiry_duration : ℕ
session_expiry_duration = 10 * 60 * 10 ^ 9

-- `Sessions`, and the sessions that were made, by their pointers.
pub record CanvasServiceHandler : Type 0 where
  pub sessions : Dict ℕ
  pub heap : ℕ → CanvasSession
  pub allocated : ℕ

unfoldable pub new_session : String → ℕ → CanvasSession
new_session code now = record {
  code = code;
  clients = [];
  history = [];
  broadcast = [];
  last_active = now;
}

unfoldable pub new_canvas_service_handler : CanvasServiceHandler
unfolding new_session
new_canvas_service_handler = record { sessions = []; heap = λ _. new_session "" 0; allocated = 0 }

-- What a handler answers before a connection is up.
pub data HttpResponse : Type 0 where
  ok : HttpResponse
  created : String → HttpResponse
  bad_request not_found : HttpResponse

-- `CreateCanvas`, with the random code that it draws.
unfoldable pub create_canvas :
    String → ℕ → CanvasServiceHandler → CanvasServiceHandler × HttpResponse
unfolding new_session
create_canvas code now h = (
  record h {
    sessions = Dict.insert code h.allocated h.sessions;
    heap = update h.heap h.allocated (new_session code now);
    allocated = suc h.allocated;
  },
  created code,
)

unfoldable pub join_canvas : String → CanvasServiceHandler → HttpResponse
join_canvas code h = elim (Dict.lookup code h.sessions) [ none ↦ not_found | some p ↦ ok ]

-- The guards of `HandleWebSocket` and of `HandleWebTransport`: an answer or the session.
pub data Entry : Type 0 where
  answers : HttpResponse → Entry
  enters : ℕ → Entry

unfoldable pub find_session : String → CanvasServiceHandler → Entry
find_session code h =
    if str_eq code ""
    then answers bad_request
    else elim (Dict.lookup code h.sessions) [ none ↦ answers not_found | some p ↦ enters p ]

unfoldable pub add_client : SessionClient → CanvasSession → CanvasSession
add_client client s = record s { clients = Dict.insert client.id client s.clients }

unfoldable pub remove_client : String → CanvasSession → CanvasSession
remove_client id s = record s { clients = Dict.erase id s.clients }

-- The initial history goes out only if there is one.
unfoldable pub initial_response : List DrawEvent → List ClientDrawResponse
initial_response [] = []
initial_response (e ∷ events) = initial_history (e ∷ events) ∷ []

-- The three parts of `processSessionDrawEvent` after the id is set: append to the history under
-- its lock, send on the channel (`none` is a sender that waits for room), note the time.
unfoldable pub append_history : DrawEvent → CanvasSession → CanvasSession
append_history event s = record s { history = s.history ++ event ∷ [] }

unfoldable pub send_broadcast : DrawEvent → CanvasSession → Option CanvasSession
send_broadcast event s =
    if ltb (length s.broadcast) broadcast_capacity
    then some (record s { broadcast = s.broadcast ++ event ∷ [] })
    else none

unfoldable pub touch : ℕ → CanvasSession → CanvasSession
touch now s = record s { last_active = now }

-- `now.Sub(session.LastActive)`, if not negative, against the limit, for a session with no client.
unfoldable pub is_expired : ℕ → CanvasSession → Bool
is_expired now s = length s.clients == 0 && ltb session_expiry_duration (now - s.last_active)

-- The loop of `sessionCleaner` over the sessions, as one step. The map is locked for the whole of it; a
-- client that joins a session after its clients were counted joins it, here, after the sweep. `now` is
-- the time of the sweep, since the wait for the lock is not modelled.
unfoldable pub clean : ℕ → (ℕ → CanvasSession) → Dict ℕ → Dict ℕ
clean now heap [] = []
clean now heap ((code, p) ∷ m) =
    let rest = clean now heap m in if is_expired now (heap p) then rest else (code, p) ∷ rest
