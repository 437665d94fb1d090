-- ===== src/Canvax/Runs.antt =====
-- Runs of the system of canvaxservice, from its start.
use fawa.Common.{
  replicate, ◌+◌, true, false, ℕ, String, ◌≡◌, refl, List, [], ◌∷◌, ◌++◌, Option, none, some, pos,
}
use fawa.Common.Dict
use fawa.Canvax.{
  DrawEvent, ClientDrawResponse, draw_event, initial_history, new_canva_service_handler,
  register_client, unregister_client, copy_history, clear_history, trim, add_to_history,
  send_broadcast, receive_broadcast, broadcast_to_clients, close,
}
use fawa.Canvax.System.{
  Reach, here, run-Reach, System, message, client_id, history_send, receives, goes_on, Action,
  collaborate, deliver, start, collaborate_step, deliver_step, stop_step, close_step, step, run,
  for_stream, handle, after_send,
}

abbrev pub event : String → DrawEvent
event t = record {
  type = t;
  color = "red";
  size = pos 2;
  prev_x = pos 0;
  prev_y = pos 0;
  curr_x = pos 5;
  curr_y = pos 7;
  client_id = "forged";
}

-- Call `i` opens under an id and gets to its loop.
abbrev pub opens : ℕ → String → List Action
opens i id =
    collaborate i (client_id id) ∷ collaborate i goes_on ∷ collaborate i (history_send none) ∷ []

-- Call `i` receives a draw event, adds it and broadcasts it.
abbrev pub draws : ℕ → String → List Action
draws i t =
    collaborate i (receives (message (some (event t))))
    ∷ collaborate i goes_on
    ∷ collaborate i goes_on
    ∷ []

-- The broadcasting goroutine receives an event and sends it to `n` clients.
abbrev pub broadcasts : ℕ → List Action
broadcasts n = replicate (n + 3) (deliver true)

abbrev pub stamped : String → String → DrawEvent
stamped t id = record (event t) { client_id = id }

unfoldable pub test_run : List Action → Option System
unfolding run step collaborate_step deliver_step stop_step close_step start
    new_canva_service_handler register_client unregister_client copy_history clear_history
    add_to_history trim send_broadcast receive_broadcast broadcast_to_clients close for_stream
    handle after_send Dict.insert Dict.erase Dict.lookup
test_run actions = run actions start

abbrev pub value : Option System → System
value none = start
value (some s) = s

abbrev pub sent_to : ℕ → Option System → List ClientDrawResponse
sent_to i none = []
sent_to i (some s) = s.sent i

-- Two clients: each is sent the event that the first one drew, under its real id.
two_clients :
    sent_to 1 (test_run (opens 0 "a" ++ (opens 1 "b" ++ (draws 0 "draw" ++ broadcasts 2))))
    ≡ initial_history [] ∷ draw_event (stamped "draw" "a") ∷ []
unfolding test_run
two_clients = refl

-- A client that comes later gets the history.
late_client :
    sent_to 1 (test_run (opens 0 "a" ++ (draws 0 "draw" ++ (broadcasts 1 ++ opens 1 "b"))))
    ≡ initial_history (stamped "draw" "a" ∷ []) ∷ []
unfolding test_run
late_client = refl

-- A client that joins while an event stands between the history and the channel is sent the event with
-- the history, and once more by the broadcast.
sent_twice :
    sent_to 1 (
      test_run (
        opens 0 "a"
        ++ (collaborate 0 (receives (message (some (event "draw"))))
            ∷ collaborate 0 goes_on
            ∷ (opens 1 "b" ++ (collaborate 0 goes_on ∷ broadcasts 2)))))
    ≡ initial_history (stamped "draw" "a" ∷ []) ∷ draw_event (stamped "draw" "a") ∷ []
unfolding test_run
sent_twice = refl

-- A send to the first client that fails is only logged, and the second is sent the event.
failed_send :
    sent_to 1 (
      test_run (
        opens 0 "a"
        ++ (opens 1 "b"
            ++ (draws 0 "draw"
                ++ (deliver true ∷ deliver true ∷ deliver false ∷ deliver true ∷ [])))))
    ≡ initial_history [] ∷ draw_event (stamped "draw" "a") ∷ []
unfolding test_run
failed_send = refl

-- Two clients are connected, and the first one's event is about to go into the channel.
abbrev pub two_joined : List Action
two_joined = opens 0 "a" ++ opens 1 "b"

unfoldable pub two : System
unfolding test_run
two = value (test_run two_joined)

pub two-Reach : Reach start two
unfolding two
two-Reach = run-Reach two_joined here refl
