-- ===== src/Canvax/Turns.antt =====
-- canvaxservice/handler/handler.go: the steps of `System` as relations, so that a proof about a
-- step splits on the steps that can be made.
use fawa.Common.{
  Bool, if◌then◌else◌, ℕ, ◌<◌, String, ◌≡◌, refl, true, false, List, [], ◌∷◌, ◌++◌, none, some,
  arith, inl, inr, Bool-cases, length, some_elim, none-ne, ltb, update, ◌&&◌,
}
use fawa.Canvax.{
  DrawEvent, ClientDrawResponse, initial_history, broadcast_capacity, register_client,
  unregister_client, copy_history, clear_history, add_to_history, send_broadcast, receive_broadcast,
  broadcast_to_clients, close,
}
use fawa.Canvax.System.{
  Hand, idle, held, looping, is_locked, is_idle, gate, System, Received, Pc, entered, registered,
  copied, receiving, adding, sending, clearing, leaving, returned, Outcome, err, handle, after_send,
  Choice, client_id, history_send, context_error, receives, goes_on, Action, collaborate, deliver,
  stop_broadcasts, shut_down, at_pc, with_handler, collaborate_step, deliver_step, stop_step,
  close_step, step,
}

-- The steps of one call of `Collaborate` from each place in it.
pub data Move (i : ℕ) (s : System) : Pc → System → Type 0 where
  enters :
      (id : String)
      → is_locked s.hand ≡ false
      → Move i s entered (at_pc i (registered id) (with_handler (register_client id i s.handler) s))
  copies : (id : String) → Move i s (registered id) (at_pc i (copied id (copy_history s.handler)) s)
  greets :
      (id : String) (events : List DrawEvent)
      → Move i s (copied id events) (
          at_pc i
            (receiving id)
            (record s { sent = update s.sent i (s.sent i ++ initial_history events ∷ []) }))
  fails :
      (id e : String) (events : List DrawEvent)
      → Move i s (copied id events) (at_pc i (leaving id (err e)) s)
  ends : (id e : String) → Move i s (receiving id) (at_pc i (leaving id (err e)) s)
  takes : (id : String) (r : Received) → Move i s (receiving id) (at_pc i (handle id r) s)
  adds :
      (id : String) (event : DrawEvent)
      → Move i s
          (adding id event)
          (at_pc i (sending id event) (with_handler (add_to_history event s.handler) s))
  sends :
      (id : String) (event : DrawEvent)
      → length s.broadcast < broadcast_capacity
      → Move i s (sending id event) (
          at_pc i
            (after_send id event)
            (with_handler (record s.handler { broadcast = s.broadcast ++ event ∷ [] }) s))
  clears :
      (id : String) (event : DrawEvent)
      → Move i s
          (clearing id event)
          (at_pc i (receiving id) (with_handler (clear_history event s.handler) s))
  leaves :
      (id : String) (o : Outcome)
      → Move i s
          (leaving id o)
          (at_pc i (returned o) (with_handler (unregister_client id s.handler) s))

pub sending-Move :
    (i : ℕ) (id : String) (event : DrawEvent) (s t : System)
    → collaborate_step i (sending id event) goes_on s ≡ some t
    → Move i s (sending id event) t
unfolding collaborate_step send_broadcast
sending-Move i id event s t e = elim (Bool-cases (ltb (length s.broadcast) broadcast_capacity)) [
  | inl room ↦
      some_elim (Move i s (sending id event)) (rw (room, collaborate_step) at e)
        (sends id event (ground arith))
  | inr full ↦ none-ne (rw (full, collaborate_step) at e)
]

-- Every step of a call is one of the moves.
collaborate_step-Move :
    (i : ℕ) (p : Pc) (c : Choice) (s t : System) → collaborate_step i p c s ≡ some t → Move i s p t
unfolding collaborate_step
collaborate_step-Move i entered (client_id id) s t e =
    let (unlocked, e') = gate (is_locked s.hand) e in some_elim (Move i s _) e' (enters id unlocked)
collaborate_step-Move i (registered id) goes_on s t e = some_elim (Move i s _) e (copies id)
collaborate_step-Move i (copied id r) (history_send none) s t e =
    some_elim (Move i s _) e (greets id r)
collaborate_step-Move i (copied id r) (history_send (some x)) s t e =
    some_elim (Move i s _) e (fails id x r)
collaborate_step-Move i (receiving id) (context_error x) s t e =
    some_elim (Move i s _) e (ends id x)
collaborate_step-Move i (receiving id) (receives r) s t e = some_elim (Move i s _) e (takes id r)
collaborate_step-Move i (adding id event) goes_on s t e = some_elim (Move i s _) e (adds id event)
collaborate_step-Move i (sending id event) goes_on s t e = sending-Move i id event s t e
collaborate_step-Move i (clearing id event) goes_on s t e =
    some_elim (Move i s _) e (clears id event)
collaborate_step-Move i (leaving id o) goes_on s t e =
    some_elim (Move i s _) (gate (is_locked s.hand) e).1 (leaves id o)
collaborate_step-Move _ _ _ _ _ e = none-ne e

-- The event that a step puts into the broadcast channel, if it does.
abbrev pub enqueues : Pc → List DrawEvent
enqueues (sending id event) = event ∷ []
enqueues _ = []

-- The steps of the system.
pub data Turn (s : System) : Action → System → Type 0 where
  moves : (i : ℕ) (c : Choice) {t : System} → Move i s (s.pc i) t → Turn s (collaborate i c) t
  picks :
      (b : Bool) (event : DrawEvent) (rest : List DrawEvent)
      → s.hand ≡ idle
      → s.broadcast ≡ event ∷ rest
      → s.running ≡ true
      → Turn s (deliver b) (record s {
        handler = record s.handler { broadcast = rest };
        running = true;
        hand = held event;
      })
  locks :
      (b : Bool) (event : DrawEvent)
      → s.hand ≡ held event
      → Turn s (deliver b) (record s { hand = looping (broadcast_to_clients event s.clients) })
  tells :
      (b : Bool) (j : ℕ) (r : ClientDrawResponse) (due : List (ℕ × ClientDrawResponse))
      → s.hand ≡ looping ((j, r) ∷ due)
      → Turn s (deliver b) (record s {
        sent = if b then update s.sent j (s.sent j ++ r ∷ []) else s.sent;
        hand = looping due;
      })
  unlocks : (b : Bool) → s.hand ≡ looping [] → Turn s (deliver b) (record s { hand = idle })
  stops : s.done ≡ true → s.running ≡ true → Turn s stop_broadcasts (record s { running = false })
  closes :
      s.done ≡ false
      → Turn s shut_down (with_handler (record s.handler { clients = []; done = true }) s)

picking-Turn :
    (b : Bool) (q : List DrawEvent) (s t : System)
    → s.hand ≡ idle
    → s.broadcast ≡ q
    → deliver_step b idle s ≡ some t
    → Turn s (deliver b) t
unfolding deliver_step receive_broadcast
picking-Turn b [] s t at empty e = none-ne (rw (empty, deliver_step, receive_broadcast) at e)
picking-Turn b (event ∷ rest) s t at front e = elim (Bool-cases s.running) [
  | inl on ↦
      some_elim (Turn s (deliver b)) (rw (front, deliver_step, receive_broadcast, on) at e)
        (picks b event rest at front on)
  | inr off ↦ none-ne (rw (front, deliver_step, receive_broadcast, off) at e)
]

deliver_step-Turn :
    (b : Bool) (h : Hand) (s t : System)
    → s.hand ≡ h
    → deliver_step b h s ≡ some t
    → Turn s (deliver b) t
unfolding deliver_step
deliver_step-Turn b idle s t at e = picking-Turn b s.broadcast s t at refl e
deliver_step-Turn b (held event) s t at e = some_elim (Turn s _) e (locks b event at)
deliver_step-Turn b (looping []) s t at e = some_elim (Turn s _) e (unlocks b at)
deliver_step-Turn b (looping ((j, r) ∷ due)) s t at e = some_elim (Turn s _) e (tells b j r due at)

stop_step-Turn : (s t : System) → stop_step s ≡ some t → Turn s stop_broadcasts t
unfolding stop_step
stop_step-Turn s t e = elim (Bool-cases (s.running && (s.done && is_idle s.hand))) [
  | inl both ↦
      some_elim (Turn s _) (rw (both, stop_step) at e) (stops (ground arith) (ground arith))
  | inr off ↦ none-ne (rw (off, stop_step) at e)
]

close_step-Turn : (s t : System) → close_step s ≡ some t → Turn s shut_down t
unfolding close_step close
close_step-Turn s t e = elim (Bool-cases s.done) [
  | inl twice ↦ none-ne (rw (twice, close_step, close) at e)
  | inr first ↦
      some_elim (Turn s _) (gate (is_locked s.hand) (rw (first, close_step, close) at e)).1
        (closes first)
]

-- Every step of the system is one of the turns.
pub step-Turn : (a : Action) (s t : System) → step a s ≡ some t → Turn s a t
unfolding step
step-Turn (collaborate i c) s t e = moves i c (collaborate_step-Move i (s.pc i) c s t e)
step-Turn (deliver b) s t e = deliver_step-Turn b s.hand s t refl e
step-Turn stop_broadcasts s t e = stop_step-Turn s t e
step-Turn shut_down s t e = close_step-Turn s t e
