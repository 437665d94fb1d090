-- ===== src/Canvas/Examples.antt =====
-- Runs of the canvas sessions, and their theorems at concrete data.
use fawa.Common.{
  ◌+◌, update, replicate, length, ℕ, String, ◌≡◌, ◌≢◌, ◌≤◌, ◌*◌, ◌^◌, refl, List, [], ◌∷◌, ◌++◌,
  Option, none, some, arith, pos, true, eq_iff,
}
use fawa.Common.Dict
use fawa.Canvas.{
  DrawEvent, ConnType, websocket, new_canvas_service_handler, not_found, answers, enters,
  create_canvas, find_session, add_client, remove_client, initial_response, append_history,
  send_broadcast, touch, is_expired, clean,
}
use fawa.Canvas.Filing.{create_canvas-strands}
use fawa.Canvas.Jams.{Meanwhile, stuck_without_writers}
use fawa.Canvas.Ownership.{IsConsistent}
use fawa.Canvas.Invariant.{Reach-IsConsistent}
use fawa.Canvas.Delivery.{line, taken_by, Run, Run-line, not_broadcast}
use fawa.Canvas.Hazards.{join_after_clean}
use fawa.Canvas.System.{
  System, Conn, Pc, request, fails, with_code, upgrade, client_id, reads, goes_on, Action, creates,
  serves, writes, cleans, passes, Writer, start, entry_pc, read_pc, serve_step, is_open, write_step,
  step, run, run-Reach, Reach, here,
}

abbrev pub event : DrawEvent
event = record {
  type = "draw";
  color = "red";
  size = pos 2;
  prev_x = pos 0;
  prev_y = pos 0;
  curr_x = pos 5;
  curr_y = pos 7;
  client_id = "forged";
  time = pos 9;
}

abbrev pub stamped : String → DrawEvent
stamped id = record event { client_id = id }

-- Call `i` joins the canvas under an id and gets to its reader's loop.
abbrev pub joins : ℕ → String → List Action
joins i id =
    serves i (with_code "abc")
    ∷ serves i (upgrade true)
    ∷ serves i (client_id id)
    ∷ serves i goes_on
    ∷ serves i goes_on
    ∷ []

abbrev pub draws : ℕ → List Action
draws i =
    serves i (reads (request (some event)))
    ∷ serves i goes_on
    ∷ serves i goes_on
    ∷ serves i goes_on
    ∷ []

abbrev pub parts : ℕ → List Action
parts i = serves i (reads fails) ∷ serves i goes_on ∷ []

abbrev pub kinds : ℕ → ConnType
kinds i = websocket

unfoldable pub test_run : List Action → Option System
unfolding run step serve_step write_step start new_canvas_service_handler create_canvas find_session
    add_client remove_client initial_response append_history send_broadcast touch is_expired clean
    entry_pc read_pc is_open Dict.insert Dict.erase Dict.lookup
test_run actions = run actions (start kinds)

abbrev pub value : Option System → System
value none = start kinds
value (some s) = s

abbrev pub two_joined : List Action
two_joined = creates "abc" ∷ (joins 0 "a" ++ joins 1 "b")

unfoldable pub two : System
unfolding test_run
two = value (test_run two_joined)

pub two-Reach : Reach (start kinds) two
unfolding two
two-Reach = run-Reach two_joined here refl

-- Two clients are in the session, the first draws, and the writer of the second takes the event: the
-- first, like any third, is never sent it.
one_receiver :
    (value (test_run (two_joined ++ (draws 0 ++ (writes 1 true ∷ []))))).log
    ≡ record { session = 0; call = 1; event = stamped "a"; written = true } ∷ []
unfolding test_run
one_receiver = refl

-- Then no other writer finds an event in the channel.
none_left : test_run (two_joined ++ (draws 0 ++ (writes 1 true ∷ writes 0 true ∷ []))) ≡ none
unfolding test_run
none_left = refl

Reach-IsConsistent_example : IsConsistent two
Reach-IsConsistent_example = Reach-IsConsistent kinds two-Reach

abbrev pub eleven_minutes : ℕ
eleven_minutes = 11 * 60 * 10 ^ 9

pub named : ◌≢◌ {A = String} "abc" ""
named = ground (arith, eq_iff "abc" "")

unfoldable pub quiet : System
unfolding test_run
quiet = value (test_run (two_joined ++ (draws 0 ++ (writes 1 true ∷ []))))

drawing : Run 0 two quiet (stamped "a" ∷ [])
unfolding two quiet
drawing =
    Run.next
      (Run.next
        (Run.next
          (Run.next (Run.next Run.here (serves 0 (reads (request (some event)))) refl)
            (serves 0 goes_on) refl)
          (serves 0 goes_on) refl)
        (serves 0 goes_on) refl)
      (writes 1 true) refl

Run-line_example : line 0 quiet ≡ line 0 two ++ stamped "a" ∷ []
unfolding two
Run-line_example = Run-line 0 (omega arith) drawing

not_broadcast_example :
    (length (taken_by 0 0 quiet.log) + length (taken_by 1 0 quiet.log) ≤ 1)
    × ((stamped "a" ∷ [] ≢ [])
        → ¬ (
            (taken_by 0 0 quiet.log ≡ stamped "a" ∷ [])
            × (taken_by 1 0 quiet.log ≡ stamped "a" ∷ [])))
unfolding two
not_broadcast_example = not_broadcast 0 0 1 (omega arith) refl drawing (omega arith)

-- The code is drawn again while two clients draw on the canvas.
drawn_again : System
unfolding two test_run
drawn_again = value (step (creates "abc") two)

-- Ten minutes later the code is drawn a third time.
later_on : System
unfolding drawn_again
later_on = value (run (passes eleven_minutes ∷ cleans ∷ creates "abc" ∷ []) drawn_again)

create_canvas-strands_example :
    (drawn_again.heap 0 ≡ two.heap 0) × (find_session "abc" later_on.handler ≢ enters 0)
unfolding later_on
create_canvas-strands_example =
    create_canvas-strands kinds "abc" "abc" 0 two-Reach refl refl
      (run-Reach (passes eleven_minutes ∷ cleans ∷ creates "abc" ∷ []) here refl)

-- A client has looked the canvas up, and eleven minutes pass before it joins.
slow : System
unfolding test_run
slow = value (
    test_run (
      creates "abc"
      ∷ serves 0 (with_code "abc")
      ∷ serves 0 (upgrade true)
      ∷ passes eleven_minutes
      ∷ []))

join_after_clean_example :
    (t : System) × (run (cleans ∷ serves 0 (client_id "a") ∷ []) slow ≡ some t)
    × (Dict.lookup "a" (t.heap 0).clients
        ≡ some (record { id = "a"; conn_type = websocket; call = 0 }))
    × (find_session "abc" t.handler ≡ answers not_found)
unfolding slow
join_after_clean_example =
    join_after_clean slow 0 0 websocket "a" "abc" (refl, tt) refl refl named (refl, omega arith)

-- Both writers have ended, and the first client has drawn until the channel was full.
abbrev conn_a : Conn
conn_a = record { conn_type = websocket; session = 0; id = "a" }

abbrev jammed : System
jammed = record two {
  handler = record two.handler {
    heap = update two.heap 0 (record (two.heap 0) { broadcast = replicate 100 event });
  };
  pc = update two.pc 0 (Pc.sending conn_a (stamped "a"));
  writer = λ _. Writer.ended;
}

stuck_without_writers_example :
    (100 ≤ length (jammed.heap 0).broadcast) × (jammed.pc 0 ≡ Pc.sending conn_a (stamped "a"))
unfolding two
stuck_without_writers_example =
    stuck_without_writers {s = jammed} {t = record jammed { now = jammed.now + eleven_minutes }} 0
      conn_a (stamped "a") (omega arith) (omega arith) refl
      (Meanwhile.next Meanwhile.here (λ j e. cc) (passes eleven_minutes) refl)
