-- ===== src/Canvax/Steps.antt =====
-- canvaxservice/handler/handler.go: single steps of `System` as equations, for proofs that follow a
-- schedule.
use fawa.Common.{
  false, ℕ, ◌<◌, String, ◌≡◌, refl, List, [], ◌∷◌, ◌++◌, none, some, none-ne, Option, length,
  lt→ltb, true, update,
}
use fawa.Canvax.{
  DrawEvent, ClientDrawResponse, initial_history, broadcast_capacity, register_client,
  unregister_client, copy_history, clear_history, add_to_history, send_broadcast, receive_broadcast,
  broadcast_to_clients,
}
use fawa.Canvax.System.{
  idle, held, looping, is_locked, System, Outcome, ok, end_of_stream, entered, registered, copied,
  receiving, adding, sending, clearing, leaving, returned, client_id, history_send, receives,
  goes_on, Action, collaborate, deliver, step, run, collaborate_step, deliver_step, at_pc,
  with_handler, after_send, handle,
}

pub run-cons :
    (a : Action) (rest : List Action) (s t : System)
    → step a s ≡ some t
    → run (a ∷ rest) s ≡ run rest t
unfolding run
run-cons a rest s t e = rw (e, run)

-- The three steps of `Collaborate` for a draw event, and the fourth for `clear`.
pub adding_step :
    (s : System) (i : ℕ) (id : String) (e : DrawEvent)
    → s.pc i ≡ adding id e
    → step (collaborate i goes_on) s
      ≡ some (at_pc i (sending id e) (with_handler (add_to_history e s.handler) s))
unfolding step collaborate_step
adding_step s i id e place = rw (place, step, collaborate_step)

pub sending_step :
    (s : System) (i : ℕ) (id : String) (e : DrawEvent)
    → s.pc i ≡ sending id e
    → length s.broadcast < broadcast_capacity
    → step (collaborate i goes_on) s
      ≡ some (
          at_pc i
            (after_send id e)
            (with_handler (record s.handler { broadcast = s.broadcast ++ e ∷ [] }) s))
unfolding step collaborate_step send_broadcast
sending_step s i id e place room =
    rw (place, step, collaborate_step) (rw (lt→ltb _ _ room, send_broadcast))

pub clearing_step :
    (s : System) (i : ℕ) (id : String) (e : DrawEvent)
    → s.pc i ≡ clearing id e
    → step (collaborate i goes_on) s
      ≡ some (at_pc i (receiving id) (with_handler (clear_history e s.handler) s))
unfolding step collaborate_step
clearing_step s i id e place = rw (place, step, collaborate_step)

pub entering_step :
    (s : System) (i : ℕ) (id : String)
    → s.pc i ≡ entered
    → is_locked s.hand ≡ false
    → step (collaborate i (client_id id)) s
      ≡ some (at_pc i (registered id) (with_handler (register_client id i s.handler) s))
unfolding step collaborate_step
entering_step s i id place open' = rw (place, step, collaborate_step) (rw open' refl)

pub copying_step :
    (s : System) (i : ℕ) (id : String)
    → s.pc i ≡ registered id
    → step (collaborate i goes_on) s ≡ some (at_pc i (copied id (copy_history s.handler)) s)
unfolding step collaborate_step
copying_step s i id place = rw (place, step, collaborate_step)

pub greeting_step :
    (s : System) (i : ℕ) (id : String) (es : List DrawEvent)
    → s.pc i ≡ copied id es
    → step (collaborate i (history_send none)) s
      ≡ some (
          at_pc i
            (receiving id)
            (record s { sent = update s.sent i (s.sent i ++ initial_history es ∷ []) }))
unfolding step collaborate_step
greeting_step s i id es place = rw (place, step, collaborate_step)

pub ending_step :
    (s : System) (i : ℕ) (id : String)
    → s.pc i ≡ receiving id
    → step (collaborate i (receives end_of_stream)) s ≡ some (at_pc i (leaving id ok) s)
unfolding step collaborate_step handle
ending_step s i id place = rw (place, step, collaborate_step)

pub leaving_step :
    (s : System) (i : ℕ) (id : String) (o : Outcome)
    → s.pc i ≡ leaving id o
    → is_locked s.hand ≡ false
    → step (collaborate i goes_on) s
      ≡ some (at_pc i (returned o) (with_handler (unregister_client id s.handler) s))
unfolding step collaborate_step
leaving_step s i id o place open' = rw (place, step, collaborate_step) (rw open' refl)

-- The steps of the broadcasting goroutine.
pub picking_step :
    (s : System) (e : DrawEvent) (rest : List DrawEvent)
    → s.hand ≡ idle
    → s.broadcast ≡ e ∷ rest
    → s.running ≡ true
    → step (deliver true) s
      ≡ some (record s { handler = record s.handler { broadcast = rest }; hand = held e })
unfolding step deliver_step receive_broadcast
picking_step s e rest at front on = rw (at, step, deliver_step, front, receive_broadcast, on) refl

pub locking_step :
    (s : System) (e : DrawEvent)
    → s.hand ≡ held e
    → step (deliver true) s ≡ some (record s { hand = looping (broadcast_to_clients e s.clients) })
unfolding step deliver_step
locking_step s e at = rw (at, step, deliver_step) refl

pub telling_step :
    (s : System) (j : ℕ) (r : ClientDrawResponse) (due : List (ℕ × ClientDrawResponse))
    → s.hand ≡ looping ((j, r) ∷ due)
    → step (deliver true) s
      ≡ some (record s { sent = update s.sent j (s.sent j ++ r ∷ []); hand = looping due })
unfolding step deliver_step
telling_step s j r due at = rw (at, step, deliver_step) refl

pub unlocking_step :
    (s : System) → s.hand ≡ looping [] → step (deliver true) s ≡ some (record s { hand = idle })
unfolding step deliver_step
unlocking_step s at = rw (at, step, deliver_step) refl

-- A schedule that runs to its end makes its first step.
first_step :
    (a : Action) (rest : List Action) (s t : System) (o : Option System)
    → step a s ≡ o
    → run (a ∷ rest) s ≡ some t
    → (w : System) × (step a s ≡ some w) × (run rest w ≡ some t)
unfolding run
first_step a rest s t none e h = none-ne (rw (e, run) at h)
first_step a rest s t (some w) e h = (w, e, rw (e, run) at h)

pub run-uncons :
    (a : Action) (rest : List Action) (s t : System)
    → run (a ∷ rest) s ≡ some t
    → (w : System) × (step a s ≡ some w) × (run rest w ≡ some t)
run-uncons a rest s t h = first_step a rest s t (step a s) refl h
