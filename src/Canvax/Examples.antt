-- ===== src/Canvax/Examples.antt =====
-- The theorems on canvaxservice at concrete data.
use fawa.Common.{
  ℕ, ◌≢◌, sym, ◌∙◌, update, String, none, inl, ◌+◌, ◌*◌, ◌≡◌, refl, List, [], ◌∷◌, ◌++◌, some,
  arith, true, false, length, replicate, ◌≤◌, none-ne,
}
use fawa.Canvax.{DrawEvent, CanvaServiceHandler, broadcast_to_clients}
use fawa.Canvax.History.{add_all, IsWindow, add_all-IsWindow}
use fawa.Canvax.Invariant.{Inv, Reach-Inv, owner}
use fawa.Canvax.Joining.{Accounted}
use fawa.Canvax.Joining.Complete.{Connected-complete}
use fawa.Canvax.Broadcast.{line, Connected, Connected-line}
use fawa.Canvax.Whiteboard.{Behaves}
use fawa.Canvax.Whiteboard.View.{board}
use fawa.Canvax.Whiteboard.Refinement.{deeds, FreshReach-Behaves}
use fawa.Canvax.Registration.{FreshReach}
use fawa.Canvax.Bounded.{rank, steps_of, reads_of, steps_bounded}
use fawa.Canvax.Progress.{Returns, call-Returns}
use fawa.Canvax.Hazards.{collision-displaces, clear_race, stuck_after_stop}
use fawa.Canvax.System.{
  history_send, Reach, here, run-Reach, System, message, client_id, receives, goes_on, Pc,
  collaborate, deliver, start, step, run, for_stream,
}
use fawa.Canvax.Runs.{
  event, opens, draws, broadcasts, stamped, test_run, value, two_joined, two, two-Reach,
}

abbrev full_history : List DrawEvent
full_history = replicate 1000 (event "draw")

abbrev full_handler : CanvaServiceHandler
full_handler = record { clients = []; history = full_history; broadcast = []; done = false }

abbrev many_events : List DrawEvent
many_events = replicate 1200 (event "draw")

abbrev empty_handler : CanvaServiceHandler
empty_handler = record { clients = []; history = []; broadcast = []; done = false }

add_all-IsWindow_example : IsWindow many_events (add_all many_events empty_handler).history
add_all-IsWindow_example = add_all-IsWindow many_events empty_handler refl

Reach-Inv_example : Inv two
Reach-Inv_example = Reach-Inv two-Reach

-- The first call draws, and the broadcast reaches both.
abbrev drawn : System
drawn = value (test_run (two_joined ++ (draws 0 "draw" ++ broadcasts 2)))

drawn-Connected : Connected 1 "b" two drawn (stamped "draw" "a" ∷ [])
unfolding two
drawn-Connected =
    Connected.next
      (Connected.next
        (Connected.next
          (Connected.next
            (Connected.next
              (Connected.next
                (Connected.next
                  (Connected.next Connected.here
                    (collaborate 0 (receives (message (some (event "draw"))))) refl (λ e. cc) refl)
                  (collaborate 0 goes_on) refl (λ e. cc) refl)
                (collaborate 0 goes_on) refl (λ e. cc) refl)
              (deliver true) refl (λ e. cc) refl)
            (deliver true) refl (λ e. cc) refl)
          (deliver true) refl (λ e. cc) refl)
        (deliver true) refl (λ e. cc) refl)
      (deliver true) refl (λ e. cc) refl

Connected-line_example : line 1 drawn ≡ line 1 two ++ stamped "draw" "a" ∷ []
Connected-line_example = Connected-line 1 "b" (Reach-Inv two-Reach) drawn-Connected

Connected-complete_example : Accounted two (line 1 drawn) drawn (stamped "draw" "a")
unfolding two
Connected-complete_example =
    Connected-complete 1 "b" (Reach-Inv two-Reach) drawn-Connected (stamped "draw" "a") (inl refl)

sending_a : System
unfolding test_run
sending_a = value (
    test_run (
      two_joined
      ++ (collaborate 0 (receives (message (some (event "draw")))) ∷ collaborate 0 goes_on ∷ [])))

sending_a-Reach : Reach start sending_a
unfolding sending_a
sending_a-Reach =
    run-Reach
      (two_joined
        ++ (collaborate 0 (receives (message (some (event "draw")))) ∷ collaborate 0 goes_on ∷ []))
      here refl

one : System
unfolding test_run
one = value (test_run (collaborate 0 (client_id "a") ∷ []))

one-FreshReach : FreshReach one
unfolding one
one-FreshReach =
    FreshReach.next FreshReach.here (collaborate 0 (client_id "a")) (λ e. cc)
      (λ i j id f o e. none-ne e) refl

collision-displaces_example :
    (t : System) × (step (collaborate 2 (client_id "a")) two ≡ some t)
    × (owner (t.pc 0) ≡ some "a")
    × (for_stream 0 (broadcast_to_clients (event "draw") t.clients) ≡ [])
unfolding two
collision-displaces_example =
    collision-displaces two 0 2 "a" (event "draw") two-Reach refl refl refl

-- Call 1 stands before `clearHistory` while call 0 is about to add its event.
clearing_b : System
unfolding test_run
clearing_b = value (
    test_run (
      two_joined
      ++ (draws 1 "clear" ++ (collaborate 0 (receives (message (some (event "draw")))) ∷ []))))

clear_race_example :
    (t : System) × (run
        (collaborate 0 goes_on ∷ collaborate 0 goes_on ∷ collaborate 1 goes_on ∷ [])
        clearing_b
      ≡ some t)
    × (t.history ≡ stamped "clear" "b" ∷ [])
    × (t.broadcast ≡ clearing_b.broadcast ++ stamped "draw" "a" ∷ [])
unfolding clearing_b
clear_race_example =
    clear_race clearing_b 0 1 "a" "b" (stamped "draw" "a") (stamped "clear" "b") refl refl
      (omega arith)

-- The broadcasting goroutine has returned, the channel is full, and call 0 wants to send.
abbrev stopped : System
stopped = record sending_a {
  handler = record sending_a.handler { broadcast = replicate 100 (event "draw"); done = true };
  running = false;
}

stuck_after_stop_example :
    (stopped.running ≡ false)
    × (100 ≤ length stopped.broadcast)
    × (stopped.pc 0 ≡ Pc.sending "a" (stamped "draw" "a"))
unfolding sending_a
stuck_after_stop_example =
    stuck_after_stop {s = stopped} {t = stopped} 0 "a" (stamped "draw" "a") refl (omega arith) refl
      here

-- A call that was live before its step draws no id.
steady :
    (pc : ℕ → Pc) (k : ℕ) (q : Pc) (x : String)
    → owner (pc k) ≡ some x
    → (i j : ℕ) (id : String) → owner (pc i) ≡ none
    → owner (update pc k q i) ≡ some id
    → owner (pc j) ≢ some id
steady pc k q x own i j id free now = ground (arith, own)

-- Call 0 opens, draws, and its event is broadcast.
sent_one : FreshReach (value (test_run (opens 0 "a" ++ draws 0 "draw")))
unfolding test_run one
sent_one =
    FreshReach.next
      (FreshReach.next
        (FreshReach.next
          (FreshReach.next
            (FreshReach.next one-FreshReach (collaborate 0 goes_on) (λ e. cc)
              (steady _ 0 _ "a" refl) refl)
            (collaborate 0 (history_send none)) (λ e. cc) (steady _ 0 _ "a" refl) refl)
          (collaborate 0 (receives (message (some (event "draw"))))) (λ e. cc)
          (steady _ 0 _ "a" refl) refl)
        (collaborate 0 goes_on) (λ e. cc) (steady _ 0 _ "a" refl) refl)
      (collaborate 0 goes_on) (λ e. cc) (steady _ 0 _ "a" refl) refl

shown_one : System
unfolding test_run
shown_one = value (
    test_run (
      opens 0 "a"
      ++ (draws 0 "draw" ++ (deliver true ∷ deliver true ∷ deliver true ∷ deliver true ∷ []))))

-- A step of the broadcasting goroutine draws no id.
calm :
    (pc : ℕ → Pc) (i j : ℕ) (id : String)
    → owner (pc i) ≡ none
    → owner (pc i) ≡ some id
    → owner (pc j) ≢ some id
calm pc i j id free now = none-ne (sym free ∙ now)

shown_one-FreshReach : FreshReach shown_one
unfolding shown_one test_run
shown_one-FreshReach =
    FreshReach.next
      (FreshReach.next
        (FreshReach.next (FreshReach.next sent_one (deliver true) (λ e. cc) (calm _) refl)
          (deliver true) (λ e. cc) (calm _) refl)
        (deliver true) (λ e. cc) (calm _) refl)
      (deliver true) (λ e. cc) (calm _) refl

FreshReach-Behaves_example : Behaves (deeds shown_one-FreshReach) (board shown_one)
FreshReach-Behaves_example = FreshReach-Behaves shown_one-FreshReach

steps_bounded_example :
    steps_of 0 (opens 0 "a" ++ draws 0 "draw")
      + rank ((value (test_run (opens 0 "a" ++ draws 0 "draw"))).pc 0)
    ≤ 5 + 4 * reads_of 0 (opens 0 "a" ++ draws 0 "draw")
unfolding test_run
steps_bounded_example =
    steps_bounded 0 (opens 0 "a" ++ draws 0 "draw") start
      (value (test_run (opens 0 "a" ++ draws 0 "draw"))) refl

call-Returns_example : Returns 6 0 sending_a
unfolding sending_a
call-Returns_example = call-Returns 0 sending_a-Reach refl (λ o e. cc)
