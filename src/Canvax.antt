-- ===== src/Canvax.antt =====
-- canvaxservice/handler/handler.go: the state of `CanvaServiceHandler` and its helper methods.
-- The goroutines that call them are in `System`. A method that locks a mutex for its whole body is
-- one function; log output is left out.
pub mod History
pub mod System
mod Turns
mod Steps
pub mod Bounded
pub mod Progress
pub mod Whiteboard
pub mod Joining
mod Invariant
pub mod Broadcast
pub mod Registration
pub mod Hazards
mod Runs
mod Examples
use fawa.Common.{
  ℕ, ◌/◌, String, Bool, true, false, List, [], ◌∷◌, ◌++◌, Option, none, some, ltb, leb, length,
  drop, if◌then◌else◌, map, ℤ,
}
use fawa.Common.Dict
use fawa.Common.Dict.{Dict}

-- `canvav1.DrawEvent`
pub record DrawEvent : Type 0 where
  pub type : String
  pub color : String
  pub size : ℤ
  pub prev_x : ℤ
  pub prev_y : ℤ
  pub curr_x : ℤ
  pub curr_y : ℤ
  pub client_id : String

-- `canvav1.ClientDrawResponse` with one of its messages set.
pub data ClientDrawResponse : Type 0 where
  draw_event : DrawEvent → ClientDrawResponse
  initial_history : List DrawEvent → ClientDrawResponse

-- A stream is named by the number of the `Collaborate` call that it belongs to.
pub record Client : Type 0 where
  pub id : String
  pub stream : ℕ

-- The broadcast channel is its queue, oldest first; `done` says whether that channel is closed.
pub record CanvaServiceHandler : Type 0 where
  pub clients : Dict Client
  pub history : List DrawEvent
  pub broadcast : List DrawEvent
  pub done : Bool

abbrev pub broadcast_capacity : ℕ
broadcast_capacity = 100

abbrev pub history_limit : ℕ
history_limit = 1000

unfoldable pub new_canva_service_handler : CanvaServiceHandler
new_canva_service_handler = record { clients = []; history = []; broadcast = []; done = false }

unfoldable pub register_client : String → ℕ → CanvaServiceHandler → CanvaServiceHandler
register_client id stream h = record h {
  clients = Dict.insert id (record { id = id; stream = stream }) h.clients;
}

unfoldable pub unregister_client : String → CanvaServiceHandler → CanvaServiceHandler
unregister_client id h = record h { clients = Dict.erase id h.clients }

-- The copy of the history that `sendInitialHistory` makes under the lock.
unfoldable pub copy_history : CanvaServiceHandler → List DrawEvent
copy_history h = h.history

unfoldable pub clear_history : DrawEvent → CanvaServiceHandler → CanvaServiceHandler
clear_history clear_event h = record h { history = clear_event ∷ [] }

-- `h.history[len(h.history)/2:]` at the size limit.
unfoldable pub trim : List DrawEvent → List DrawEvent
trim history =
    if leb history_limit (length history) then drop (length history / 2) history else history

unfoldable pub add_to_history : DrawEvent → CanvaServiceHandler → CanvaServiceHandler
add_to_history event h = record h { history = trim h.history ++ event ∷ [] }

-- `h.broadcast <- event`: `none` is a sender that has to wait for room.
unfoldable pub send_broadcast : DrawEvent → CanvaServiceHandler → Option CanvaServiceHandler
send_broadcast event h =
    if ltb (length h.broadcast) broadcast_capacity
    then some (record h { broadcast = h.broadcast ++ event ∷ [] })
    else none

-- `event := <-h.broadcast`: `none` is a receiver that has to wait.
unfoldable pub receive_broadcast : CanvaServiceHandler → Option (DrawEvent × CanvaServiceHandler)
receive_broadcast h = elim h.broadcast [
  | [] ↦ none
  | event ∷ rest ↦ some (event, record h { broadcast = rest })
]

-- The sends of `broadcastToClients`, one to each client's stream. An error of a send is logged and
-- has no other effect.
unfoldable pub broadcast_to_clients : DrawEvent → Dict Client → List (ℕ × ClientDrawResponse)
broadcast_to_clients event = map λ (id, cl). (cl.stream, draw_event event)

-- `none` is the panic of a second `close(h.done)`.
unfoldable pub close : CanvaServiceHandler → Option CanvaServiceHandler
close h = if h.done then none else some (record h { clients = []; done = true })
