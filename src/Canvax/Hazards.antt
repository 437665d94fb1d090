-- ===== src/Canvax/Hazards.antt =====
-- canvaxservice/handler/handler.go: what goes wrong when client ids collide, when an event comes in
-- between the broadcast of a `clear` and `clearHistory`, and after `Close`.
use fawa.Common.{
  ℕ, ◌<◌, String, eq_iff, eq_refl, ◌≡◌, refl, sym, ap, ◌∙◌, ◌≢◌, [], ◌∷◌, ◌++◌, some, arith, All,
  none-ne, false, length, ◌≤◌,
}
use fawa.Common.Dict
use fawa.Common.Dict.{Dict, NodupKeys}
use fawa.Canvax.{
  DrawEvent, Client, broadcast_capacity, register_client, unregister_client, clear_history,
  add_to_history, broadcast_to_clients,
}
use fawa.Canvax.System.{
  is_locked, System, Pc, entered, registered, adding, sending, clearing, receiving, goes_on,
  client_id, start, Action, collaborate, Reach, here, next, step, run, collaborate_step, for_stream,
  at_pc, with_handler, after_send,
}
use fawa.Canvax.Turns.{
  Move, enters, copies, greets, fails, ends, takes, adds, sends, clears, leaves, Turn, moves, picks,
  locks, tells, unlocks, stops, closes, step-Turn,
}
use fawa.Canvax.Steps.{run-cons, adding_step, sending_step, clearing_step}
use fawa.Canvax.Invariant.{owner, Owned, Inv, Reach-Inv, Turn-Inv}
use fawa.Canvax.Broadcast.{entry, for_stream-missing}

-- A stream gets nothing where the entry under the id of its call belongs to another call.
for_stream-displaced :
    (pc : ℕ → Pc) (e : DrawEvent) (i j : ℕ) (id : String) (m : Dict Client)
    → owner (pc i) ≡ some id
    → i ≢ j
    → Dict.lookup id m ≡ some (entry id j)
    → NodupKeys m
    → All (Owned pc) m
    → for_stream i (broadcast_to_clients e m) ≡ []
unfolding broadcast_to_clients for_stream Dict.lookup
for_stream-displaced pc e i j id [] own ne found u h = none-ne found
for_stream-displaced pc e i j id ((k, cl) ∷ m) own ne found u h = ground (
  arith,
  eq_iff k id,
  for_stream-missing pc e i id m own,
  for_stream-displaced pc e i j id m own ne,
)

-- If call `j` draws the id of call `i`, and no broadcast holds the lock of the clients, then `j` can
-- register, and `i`, still live, is in no broadcast to the clients that are then registered.
pub collision-displaces :
    (s : System) (i j : ℕ) (id : String) (e : DrawEvent)
    → Reach start s
    → owner (s.pc i) ≡ some id
    → s.pc j ≡ entered
    → is_locked s.hand ≡ false
    → (t : System) × (step (collaborate j (client_id id)) s ≡ some t)
      × (owner (t.pc i) ≡ some id)
      × (for_stream i (broadcast_to_clients e t.clients) ≡ [])
unfolding step collaborate_step register_client
collision-displaces s i j id e r own place open' = (
  t,
  made,
  keeps,
  for_stream-displaced t.pc e i j id t.clients keeps apart found v.unique v.owned,
)
  where
    t : System
    t = at_pc j (registered id) (with_handler (register_client id j s.handler) s)

    made : step (collaborate j (client_id id)) s ≡ some t
    made = rw (place, step, collaborate_step) (rw open' refl)

    apart : i ≢ j
    apart same = none-ne (ap owner (sym place) ∙ (ap (λ k. owner (s.pc k)) (sym same) ∙ own))

    keeps : owner (t.pc i) ≡ some id
    keeps = ground arith

    found : Dict.lookup id t.clients ≡ some (entry id j)
    found = rw (Dict.lookup-insert, eq_refl)

    v : Inv t
    v = Turn-Inv (step-Turn (collaborate j (client_id id)) s t made) (Reach-Inv r)

-- While call `j` stands between the broadcast of its `clear` and `clearHistory`, call `i` can add
-- its event and put it into the channel, behind all that is there; then `clearHistory` leaves the
-- `clear` alone in the history, without the event of `i`.
pub clear_race :
    (s : System) (i j : ℕ) (x y : String) (e c : DrawEvent)
    → s.pc i ≡ adding x e
    → s.pc j ≡ clearing y c
    → length s.broadcast < broadcast_capacity
    → (t : System) × (run
          (collaborate i goes_on ∷ collaborate i goes_on ∷ collaborate j goes_on ∷ [])
          s
        ≡ some t)
      × (t.history ≡ c ∷ [])
      × (t.broadcast ≡ s.broadcast ++ e ∷ [])
unfolding run clear_history add_to_history
clear_race s i j x y e c at_i at_j room = (
  at_pc j (receiving y) (with_handler (clear_history c s2.handler) s2),
  run-cons _ (collaborate i goes_on ∷ collaborate j goes_on ∷ []) s s1 (adding_step s i x e at_i)
      ∙ (run-cons _ (collaborate j goes_on ∷ []) s1 s2 (sending_step s1 i x e (ground arith) room)
          ∙ run-cons _ [] s2 _ (clearing_step s2 j y c (ground arith))),
  refl,
  refl,
)
  where
    s1 : System
    s1 = at_pc i (sending x e) (with_handler (add_to_history e s.handler) s)

    s2 : System
    s2 =
        at_pc i (after_send x e)
          (with_handler (record s1.handler { broadcast = s.broadcast ++ e ∷ [] }) s1)

abbrev Stuck : ℕ → String → DrawEvent → System → Type 0
Stuck i id e s =
    (s.running ≡ false) × (broadcast_capacity ≤ length s.broadcast) × (s.pc i ≡ sending id e)

-- A move of another call, with the channel full, leaves the channel as it is.
Move-Stuck :
    (i : ℕ) (id : String) (e : DrawEvent) (j : ℕ) {s t : System} {p : Pc}
    → s.pc j ≡ p
    → Move j s p t
    → Stuck i id e s
    → Stuck i id e t
unfolding register_client unregister_client clear_history add_to_history
Move-Stuck i id e j place (enters x unlocked) h = ground arith
Move-Stuck i id e j place (copies x) h = ground arith
Move-Stuck i id e j place (greets x es) h = ground arith
Move-Stuck i id e j place (fails x y es) h = ground arith
Move-Stuck i id e j place (ends x y) h = ground arith
Move-Stuck i id e j place (takes x r) h = ground arith
Move-Stuck i id e j place (adds x f) h = ground arith
Move-Stuck i id e j place (sends x f room) h = absurd (omega arith)
Move-Stuck i id e j place (clears x f) h = ground arith
Move-Stuck i id e j place (leaves x o) h = ground arith

Turn-Stuck :
    (i : ℕ) (id : String) (e : DrawEvent) {s t : System} {a : Action}
    → Turn s a t
    → Stuck i id e s
    → Stuck i id e t
Turn-Stuck i id e (moves j c m) h = Move-Stuck i id e j refl m h
Turn-Stuck i id e (picks b f rest at front on) h = ground arith
Turn-Stuck i id e (locks b f at) h = (h.0, h.1, h.2)
Turn-Stuck i id e (tells b k r due at) h = (h.0, h.1, h.2)
Turn-Stuck i id e (unlocks b at) h = (h.0, h.1, h.2)
Turn-Stuck i id e (stops d on) h = (refl, h.1, h.2)
Turn-Stuck i id e (closes d) h = (h.0, h.1, h.2)

-- After the broadcasting goroutine has returned, a call that wants to broadcast into a full channel
-- is stuck: in whatever comes about it stands where it stood.
pub stuck_after_stop :
    {s t : System} (i : ℕ) (id : String) (e : DrawEvent)
    → s.running ≡ false
    → broadcast_capacity ≤ length s.broadcast
    → s.pc i ≡ sending id e
    → Reach s t
    → (t.running ≡ false) × (broadcast_capacity ≤ length t.broadcast) × (t.pc i ≡ sending id e)
stuck_after_stop i id e off full place here = (off, full, place)
stuck_after_stop i id e off full place (next r a h) =
    Turn-Stuck i id e (step-Turn a _ _ h) (stuck_after_stop i id e off full place r)
