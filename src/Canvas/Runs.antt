-- ===== src/Canvas/Runs.antt =====
-- More runs of the canvas sessions.
use fawa.Common.{
  ℕ, String, ◌≡◌, ◌≢◌, refl, [], ◌∷◌, ◌++◌, none, some, some_elim, arith, inl, true, sym, ◌∙◌,
  none-ne, update, ◌≤◌, ◌+◌, ◌*◌,
}
use fawa.Canvas.{websocket, enters, find_session}
use fawa.Canvas.System.{
  System, request, with_code, upgrade, client_id, reads, goes_on, creates, serves, writes, cleans,
  passes, run, Pc,
}
use fawa.Canvas.Ownership.{owner}
use fawa.Canvas.Delivery.{line, enqueues}
use fawa.Canvas.Posts.{events_of}
use fawa.Canvas.Agreement.{Trace, Trace-agrees}
use fawa.Canvas.Ending.{Ends}
use fawa.Canvas.Progress.{Served, call-Ends}
use fawa.Canvas.Registration.{FreshReach}
use fawa.Canvas.Occupied.{Staying, Staying-find_session}
use fawa.Canvas.Bounded.{rank, steps_of, reads_of, serves_bounded}
use fawa.Canvas.Rooms.{Hosts}
use fawa.Canvas.Rooms.View.{rooms}
use fawa.Canvas.Rooms.Refinement.{deeds, FreshReach-Hosts}
use fawa.Canvas.Reordering.{overtakes, overtakes-reorders}
use fawa.Canvas.Examples.{
  event, stamped, joins, draws, kinds, value, test_run, two, two-Reach, quiet, named,
  eleven_minutes,
}

drawing_trace : Trace 0 two quiet ((0, stamped "a") ∷ []) ((0, stamped "a") ∷ [])
unfolding two quiet
drawing_trace =
    Trace.next
      (Trace.next
        (Trace.next
          (Trace.next (Trace.next Trace.here (serves 0 (reads (request (some event)))) refl)
            (serves 0 goes_on) refl)
          (serves 0 goes_on) refl)
        (serves 0 goes_on) refl)
      (writes 1 true) refl

Trace-agrees_example :
    ((quiet.heap 0).history ≡ (two.heap 0).history ++ stamped "a" ∷ [])
    × (line 0 quiet ≡ line 0 two ++ stamped "a" ∷ [])
    × ((i : ℕ)
        → enqueues 0 (two.pc i) ++ events_of i ((0, stamped "a") ∷ [])
          ≡ events_of i ((0, stamped "a") ∷ []) ++ enqueues 0 (quiet.pc i))
unfolding two
Trace-agrees_example = Trace-agrees 0 (omega arith) drawing_trace

two-Served : (p : ℕ) (id : String) → owner (two.pc 0) ≡ some (p, id) → Served p two
unfolding two
two-Served p id own = some_elim (λ (x : ℕ × String). Served x.0 two) own (inl (omega arith))

call-Ends_example : Ends 6 0 (owner (two.pc 0)) two
call-Ends_example = call-Ends kinds 0 two-Reach two-Served

serves_bounded_example :
    steps_of 0 (draws 0 ++ (writes 1 true ∷ [])) + rank (quiet.pc 0)
    ≤ rank (two.pc 0) + 4 * reads_of 0 (draws 0 ++ (writes 1 true ∷ []))
unfolding two quiet
serves_bounded_example = serves_bounded 0 (draws 0 ++ (writes 1 true ∷ [])) two quiet refl

-- Both clients have sent an event, and neither was added to the history yet.
both : System
unfolding two test_run
both = value (
    run (serves 0 (reads (request (some event))) ∷ serves 1 (reads (request (some event))) ∷ [])
      two)

overtakes-reorders_example :
    (t : System) × (run (overtakes 0 1) both ≡ some t)
    × ((t.heap 0).history ≡ (both.heap 0).history ++ stamped "a" ∷ stamped "b" ∷ [])
    × ((t.heap 0).broadcast ≡ (both.heap 0).broadcast ++ stamped "b" ∷ stamped "a" ∷ [])
unfolding both
overtakes-reorders_example =
    overtakes-reorders both 0 1 0 websocket websocket "a" "b" (stamped "a") (stamped "b")
      (omega arith) refl refl (omega arith)

-- A step of a call that keeps its place among the clients draws no id.
owner-update :
    (f : ℕ → Pc) (i : ℕ) (q : Pc) (k : ℕ)
    → owner (f i) ≡ owner q
    → owner (update f i q k) ≡ owner (f k)
owner-update f i q k same = ground arith

steady :
    (f : ℕ → Pc) (i : ℕ) (q : Pc)
    → owner (f i) ≡ owner q
    → (k j p : ℕ) (id : String) → owner (f k) ≡ none
    → owner (update f i q k) ≡ some (p, id)
    → owner (f j) ≢ some (p, id)
steady f i q same k j p id free now = none-ne (sym free ∙ (sym (owner-update f i q k same) ∙ now))

-- One client joins, and stays for eleven minutes in which it draws nothing.
one_joined : System
unfolding test_run
one_joined = value (test_run (creates "abc" ∷ joins 0 "a"))

one_joined-FreshReach : FreshReach kinds one_joined
unfolding one_joined
one_joined-FreshReach =
    FreshReach.next
      (FreshReach.next
        (FreshReach.next
          (FreshReach.next
            (FreshReach.next
              (FreshReach.next FreshReach.here (creates "abc")
                (λ i j p id free now. none-ne (sym free ∙ now)) refl)
              (serves 0 (with_code "abc")) (steady _ 0 _ refl) refl)
            (serves 0 (upgrade true)) (steady _ 0 _ refl) refl)
          (serves 0 (client_id "a")) (λ i j p id free now taken. none-ne (sym (first j) ∙ taken))
          refl)
        (serves 0 goes_on) (steady _ 0 _ refl) refl)
      (serves 0 goes_on) (steady _ 0 _ refl) refl
  where
    first :
        (j : ℕ)
        → owner (
            (value (
                test_run
                  (creates "abc" ∷ serves 0 (with_code "abc") ∷ serves 0 (upgrade true) ∷ []))).pc
              j)
          ≡ none
    first j = ground arith

cleaned : System
unfolding one_joined test_run
cleaned = value (run (passes eleven_minutes ∷ cleans ∷ []) one_joined)

stays_on : Staying 0 0 "a" "abc" one_joined cleaned
unfolding one_joined cleaned
stays_on =
    Staying.next
      (Staying.next Staying.here (passes eleven_minutes) (λ e. cc)
        (λ i j p id free now. none-ne (sym free ∙ now)) refl refl)
      cleans (λ e. cc) (λ i j p id free now. none-ne (sym free ∙ now)) refl refl

Staying-find_session_example : find_session "abc" cleaned.handler ≡ enters 0
unfolding one_joined
Staying-find_session_example =
    Staying-find_session kinds 0 0 "a" "abc" one_joined-FreshReach refl refl named stays_on

-- The cleaner comes by and keeps the room.
cleaned-FreshReach : FreshReach kinds cleaned
unfolding cleaned one_joined
cleaned-FreshReach =
    FreshReach.next
      (FreshReach.next one_joined-FreshReach (passes eleven_minutes)
        (λ i j p id free now. none-ne (sym free ∙ now)) refl)
      cleans (λ i j p id free now. none-ne (sym free ∙ now)) refl

FreshReach-Hosts_example : Hosts (deeds kinds cleaned-FreshReach) (rooms cleaned)
FreshReach-Hosts_example = FreshReach-Hosts kinds cleaned-FreshReach
