-- ===== src/Canvax/Bounded.antt =====
-- canvaxservice/handler/handler.go: how many steps a call of `Collaborate` makes, against the
-- messages that it reads.
use fawa.Common.{
  Bool, ℕ, suc, ◌+◌, ◌*◌, ◌≤◌, String, ◌≡◌, refl, ap, List, [], ◌∷◌, none, some, none-ne, some_elim,
  arith, ◌==◌, update, if◌then◌else◌,
}
use fawa.Canvax.{DrawEvent}
use fawa.Canvax.System.{
  is_locked, gate, System, Received, message, end_of_stream, canceled, failed, Pc, entered,
  registered, copied, receiving, adding, sending, clearing, leaving, returned, handle, after_send,
  Choice, client_id, history_send, context_error, receives, goes_on, Action, collaborate, deliver,
  stop_broadcasts, shut_down, collaborate_step, step, run,
}
use fawa.Canvax.Turns.{
  Turn, picks, locks, tells, unlocks, stops, closes, step-Turn, sending-Move, Move, sends,
}
use fawa.Canvax.Steps.{run-uncons}

-- How many steps a call can make at most before it reads the next message or has returned.
abbrev pub rank : Pc → ℕ
rank entered = 5
rank (registered id) = 4
rank (copied id es) = 3
rank (receiving id) = 2
rank (adding id e) = 5
rank (sending id e) = 4
rank (clearing id e) = 3
rank (leaving id o) = 1
rank (returned o) = 0

abbrev reading : Choice → ℕ
reading (receives r) = 1
reading _ = 0

-- The steps of call `i` in a schedule, and those that read a message.
abbrev pub steps_of : ℕ → List Action → ℕ
steps_of i [] = 0
steps_of i (collaborate j c ∷ rest) = (if i == j then 1 else 0) + steps_of i rest
steps_of i (_ ∷ rest) = steps_of i rest

abbrev pub reads_of : ℕ → List Action → ℕ
reads_of i [] = 0
reads_of i (collaborate j c ∷ rest) = (if i == j then reading c else 0) + reads_of i rest
reads_of i (_ ∷ rest) = reads_of i rest

-- A step of call `j`, as call `i` sees it.
abbrev Falls : ℕ → ℕ → Choice → System → System → Type 0
Falls i j c s t =
    (if i == j then 1 else 0) + rank (t.pc i)
    ≤ rank (s.pc i) + 4 * (if i == j then reading c else 0)

moved-Falls :
    (i j : ℕ) (c : Choice) (s : System) (p q : Pc)
    → s.pc j ≡ p
    → suc (rank q) ≤ rank p + 4 * reading c
    → (if i == j then 1 else 0) + rank (update s.pc j q i)
      ≤ rank (s.pc i) + 4 * (if i == j then reading c else 0)
moved-Falls i j c s p q place le = ground (arith, ap rank place)

rank-handle : (id : String) (r : Received) → rank (handle id r) ≤ 5
unfolding handle
rank-handle id (message (some e)) = ground arith
rank-handle id (message none) = omega arith
rank-handle id end_of_stream = omega arith
rank-handle id canceled = omega arith
rank-handle id (failed e) = omega arith

rank-after_send : (id : String) (e : DrawEvent) → rank (after_send id e) ≤ 3
unfolding after_send
rank-after_send id e = ground arith

sending-Falls :
    (i j : ℕ) (id : String) (e : DrawEvent) (s t : System)
    → s.pc j ≡ sending id e
    → Move j s (sending id e) t
    → Falls i j goes_on s t
sending-Falls i j id e s t place (sends _ _ room) =
    moved-Falls i j goes_on s _ _ place (omega (arith, rank-after_send id e))

collaborate_step-Falls :
    (i j : ℕ) (p : Pc) (c : Choice) (s t : System)
    → s.pc j ≡ p
    → collaborate_step j p c s ≡ some t
    → Falls i j c s t
unfolding collaborate_step
collaborate_step-Falls i j entered (client_id id) s t at h =
    some_elim (Falls i j (client_id id) s) (gate (is_locked s.hand) h).1
      (moved-Falls i j (client_id id) s _ (registered id) at (omega arith))
collaborate_step-Falls i j (registered id) goes_on s t at h =
    some_elim (Falls i j goes_on s) h (moved-Falls i j goes_on s _ (copied id _) at (omega arith))
collaborate_step-Falls i j (copied id es) (history_send none) s t at h =
    some_elim (Falls i j (history_send none) s) h
      (moved-Falls i j (history_send none) s _ (receiving id) at (omega arith))
collaborate_step-Falls i j (copied id es) (history_send (some x)) s t at h =
    some_elim (Falls i j (history_send (some x)) s) h
      (moved-Falls i j (history_send (some x)) s _ (leaving id _) at (omega arith))
collaborate_step-Falls i j (receiving id) (context_error x) s t at h =
    some_elim (Falls i j (context_error x) s) h
      (moved-Falls i j (context_error x) s _ (leaving id _) at (omega arith))
collaborate_step-Falls i j (receiving id) (receives r) s t at h =
    some_elim (Falls i j (receives r) s) h
      (moved-Falls i j (receives r) s _ (handle id r) at (omega (arith, rank-handle id r)))
collaborate_step-Falls i j (adding id e) goes_on s t at h =
    some_elim (Falls i j goes_on s) h (moved-Falls i j goes_on s _ (sending id e) at (omega arith))
collaborate_step-Falls i j (sending id e) goes_on s t at h =
    sending-Falls i j id e s t at (sending-Move j id e s t h)
collaborate_step-Falls i j (clearing id e) goes_on s t at h =
    some_elim (Falls i j goes_on s) h (moved-Falls i j goes_on s _ (receiving id) at (omega arith))
collaborate_step-Falls i j (leaving id o) goes_on s t at h =
    some_elim (Falls i j goes_on s) (gate (is_locked s.hand) h).1
      (moved-Falls i j goes_on s _ (returned o) at (omega arith))
collaborate_step-Falls _ _ _ _ _ _ _ h = none-ne h

-- The other goroutines leave a call where it stands.
deliver-rank :
    (i : ℕ) (b : Bool) {s t : System} → Turn s (deliver b) t → rank (t.pc i) ≤ rank (s.pc i)
deliver-rank i b (picks _ e rest at front on) = omega arith
deliver-rank i b (locks _ e at) = omega arith
deliver-rank i b (tells _ j r due at) = omega arith
deliver-rank i b (unlocks _ at) = omega arith

stop-rank : (i : ℕ) {s t : System} → Turn s stop_broadcasts t → rank (t.pc i) ≤ rank (s.pc i)
stop-rank i (stops d on) = omega arith

close-rank : (i : ℕ) {s t : System} → Turn s shut_down t → rank (t.pc i) ≤ rank (s.pc i)
close-rank i (closes d) = omega arith

-- However the goroutines take turns, a call makes at most five steps and four more for each message
-- that it reads, less what its place at the end leaves of them.
pub steps_bounded :
    (i : ℕ) (actions : List Action) (s t : System)
    → run actions s ≡ some t
    → steps_of i actions + rank (t.pc i) ≤ rank (s.pc i) + 4 * reads_of i actions
unfolding run step
steps_bounded i [] s t h =
    some_elim (λ (w : System). 0 + rank (w.pc i) ≤ rank (s.pc i) + 4 * 0) h (omega arith)
steps_bounded i (collaborate j c ∷ rest) s t h =
    let (w, e, h') = run-uncons (collaborate j c) rest s t h in
    let one = collaborate_step-Falls i j (s.pc j) c s w refl e in
    omega (arith, one, steps_bounded i rest w t h')
steps_bounded i (deliver b ∷ rest) s t h =
    let (w, e, h') = run-uncons (deliver b) rest s t h in
    omega (arith, deliver-rank i b (step-Turn (deliver b) s w e), steps_bounded i rest w t h')
steps_bounded i (stop_broadcasts ∷ rest) s t h =
    let (w, e, h') = run-uncons stop_broadcasts rest s t h in
    omega (arith, stop-rank i (step-Turn stop_broadcasts s w e), steps_bounded i rest w t h')
steps_bounded i (shut_down ∷ rest) s t h =
    let (w, e, h') = run-uncons shut_down rest s t h in
    omega (arith, close-rank i (step-Turn shut_down s w e), steps_bounded i rest w t h')
