-- ===== src/Canvax/Progress.antt =====
-- canvaxservice/handler/handler.go: a call of `Collaborate` can always come to its end while the broadcasting goroutine runs.
use fawa.Common.{
  false, ap, ◌+◌, ℕ, suc, ◌<◌, ◌≤◌, String, str_eq, true, ◌≡◌, refl, ◌∙◌, ◌≢◌, List, [], ◌∷◌, some,
  arith, length, ltb, inl, inr, Bool-cases,
}
use fawa.Common.Dict.{Dict}
use fawa.Canvax.{
  DrawEvent, Client, ClientDrawResponse, broadcast_to_clients, broadcast_capacity, copy_history,
  add_to_history,
}
use fawa.Canvax.System.{
  Hand, idle, held, looping, is_locked, System, Pc, entered, registered, copied, receiving, adding,
  sending, clearing, leaving, returned, Outcome, ok, after_send, goes_on, Action, collaborate,
  start, step, run, Reach,
}
use fawa.Canvax.Steps.{
  run-cons, entering_step, copying_step, greeting_step, adding_step, sending_step, clearing_step,
  ending_step, leaving_step, picking_step, locking_step, telling_step, unlocking_step,
}
use fawa.Canvax.Invariant.{Reach-Inv}

-- A schedule of at most `n` steps after which call `i` has returned.
abbrev pub Returns : ℕ → ℕ → System → Type 0
Returns n i s =
    (actions : List Action) × (length actions ≤ n)
    × ((t : System) × (run actions s ≡ some t) × ((o : Outcome) × (t.pc i ≡ returned o)))

before :
    (n i : ℕ) (a : Action) (s w : System) → step a s ≡ some w → Returns n i w → Returns (suc n) i s
before n i a s w e (actions, le, (t, h, gone)) =
    (a ∷ actions, omega (arith, le), (t, run-cons a actions s w e ∙ h, gone))

longer : (m n i : ℕ) (s : System) → m ≤ n → Returns m i s → Returns n i s
longer m n i s le (actions, le', rest) = (actions, omega (arith, le'), rest)

module _ (i : ℕ) (id : String) where
  leaving-Returns :
      (o : Outcome) (s : System) → s.pc i ≡ leaving id o → is_locked s.hand ≡ false → Returns 1 i s
  unfolding run
  leaving-Returns o s at open' = (
    collaborate i goes_on ∷ [],
    omega arith,
    (_, run-cons _ [] s _ (leaving_step s i id o at open'), (o, ground arith)),
  )

  receiving-Returns :
      (s : System) → s.pc i ≡ receiving id → is_locked s.hand ≡ false → Returns 2 i s
  receiving-Returns s at open' =
      before 1 i _ s _ (ending_step s i id at) (leaving-Returns ok _ (ground arith) open')

  clearing-Returns :
      (e : DrawEvent) (s : System)
      → s.pc i ≡ clearing id e
      → is_locked s.hand ≡ false
      → Returns 3 i s
  clearing-Returns e s at open' =
      before 2 i _ s _ (clearing_step s i id e at) (receiving-Returns _ (ground arith) open')

  after_send-Returns :
      (e : DrawEvent) (s : System)
      → s.pc i ≡ after_send id e
      → is_locked s.hand ≡ false
      → Returns 3 i s
  unfolding after_send
  after_send-Returns e s at open' = elim (Bool-cases (str_eq e.type "clear")) [
    | inl clear ↦ clearing-Returns e s (ground arith) open'
    | inr other ↦ longer 2 3 i s (omega arith) (receiving-Returns s (ground arith) open')
  ]

  room-Returns :
      (e : DrawEvent) (s : System)
      → length s.broadcast < broadcast_capacity
      → s.pc i ≡ sending id e
      → is_locked s.hand ≡ false
      → Returns 4 i s
  room-Returns e s room at open' =
      before 3 i _ s _ (sending_step s i id e at room) (after_send-Returns e _ (ground arith) open')

  -- A sender that finds the channel full goes on after one receive of the broadcasting goroutine.
  full-Returns :
      (e : DrawEvent) (q : List DrawEvent) (s : System)
      → s.broadcast ≡ q
      → length q ≤ broadcast_capacity
      → broadcast_capacity ≤ length q
      → s.running ≡ true
      → s.hand ≡ idle
      → s.pc i ≡ sending id e
      → Returns 5 i s
  full-Returns e [] s same within full on free at = absurd (omega arith)
  full-Returns e (f ∷ q) s same within full on free at =
      before 4 i _ s _ (picking_step s f q free same on) (room-Returns e _ (omega arith) at refl)

  sending-Returns :
      (e : DrawEvent) (s : System)
      → length s.broadcast ≤ broadcast_capacity
      → s.running ≡ true
      → s.hand ≡ idle
      → s.pc i ≡ sending id e
      → Returns 5 i s
  sending-Returns e s within on free at =
      elim (Bool-cases (ltb (length s.broadcast) broadcast_capacity)) [
        | inl room ↦
            longer 4 5 i s (omega arith) (room-Returns e s (ground arith) at (ap is_locked free))
        | inr full ↦ full-Returns e s.broadcast s refl within (ground arith) on free at
      ]

  adding-Returns :
      (e : DrawEvent) (s : System)
      → length s.broadcast ≤ broadcast_capacity
      → s.running ≡ true
      → s.hand ≡ idle
      → s.pc i ≡ adding id e
      → Returns 6 i s
  unfolding add_to_history
  adding-Returns e s within on free at =
      before 5 i _ s _ (adding_step s i id e at) (sending-Returns e _ within on free (ground arith))

  copied-Returns :
      (es : List DrawEvent) (s : System)
      → s.pc i ≡ copied id es
      → is_locked s.hand ≡ false
      → Returns 3 i s
  copied-Returns es s at open' =
      before 2 i _ s _ (greeting_step s i id es at) (receiving-Returns _ (ground arith) open')

  registered-Returns :
      (s : System) → s.pc i ≡ registered id → is_locked s.hand ≡ false → Returns 4 i s
  registered-Returns s at open' =
      before 3 i _ s _ (copying_step s i id at)
        (copied-Returns (copy_history s.handler) _ (ground arith) open')

place-Returns :
    (i : ℕ) (p : Pc) (s : System)
    → length s.broadcast ≤ broadcast_capacity
    → s.running ≡ true
    → s.hand ≡ idle
    → s.pc i ≡ p
    → ((o : Outcome) → p ≢ returned o)
    → Returns 6 i s
place-Returns i entered s within on free at live = longer 5 6 i s (omega arith) (
    before 4 i _ s _ (entering_step s i "" at (ap is_locked free))
      (registered-Returns i "" _ (ground arith) (ap is_locked free)))
place-Returns i (registered id) s within on free at live =
    longer 4 6 i s (omega arith) (registered-Returns i id s at (ap is_locked free))
place-Returns i (copied id es) s within on free at live =
    longer 3 6 i s (omega arith) (copied-Returns i id es s at (ap is_locked free))
place-Returns i (receiving id) s within on free at live =
    longer 2 6 i s (omega arith) (receiving-Returns i id s at (ap is_locked free))
place-Returns i (adding id e) s within on free at live = adding-Returns i id e s within on free at
place-Returns i (sending id e) s within on free at live =
    longer 5 6 i s (omega arith) (sending-Returns i id e s within on free at)
place-Returns i (clearing id e) s within on free at live =
    longer 3 6 i s (omega arith) (clearing-Returns i id e s at (ap is_locked free))
place-Returns i (leaving id o) s within on free at live =
    longer 1 6 i s (omega arith) (leaving-Returns i id o s at (ap is_locked free))
place-Returns i (returned o) s within on free at live = absurd (live o refl)

-- The steps that the broadcasting goroutine needs to be back at its `select`.
abbrev pub owed : Hand → Dict Client → ℕ
owed idle m = 0
owed (held e) m = 2 + length (broadcast_to_clients e m)
owed (looping due) m = 1 + length due

-- Where the call stands, and what it needs of the channel.
abbrev IsReady : ℕ → System → Type 0
IsReady i s =
    (length s.broadcast ≤ broadcast_capacity)
    × (s.running ≡ true)
    × ((o : Outcome) → s.pc i ≢ returned o)

ready-Returns : (i : ℕ) (s : System) → IsReady i s → s.hand ≡ idle → Returns 6 i s
ready-Returns i s (within, on, live) free = place-Returns i (s.pc i) s within on free refl live

looping-Returns :
    (i : ℕ) (due : List (ℕ × ClientDrawResponse)) (s : System)
    → IsReady i s
    → s.hand ≡ looping due
    → Returns (1 + length due + 6) i s
looping-Returns i [] s ready at =
    before 6 i _ s _ (unlocking_step s at) (ready-Returns i _ ready refl)
looping-Returns i ((j, r) ∷ due) s ready at =
    longer (suc (1 + length due + 6)) _ i s (omega arith) (
      before (1 + length due + 6) i _ s _ (telling_step s j r due at)
        (looping-Returns i due _ ready refl))

hand-Returns :
    (i : ℕ) (h : Hand) (s : System) → IsReady i s → s.hand ≡ h → Returns (owed h s.clients + 6) i s
hand-Returns i idle s ready at = ready-Returns i s ready at
hand-Returns i (held e) s ready at =
    longer (suc (1 + length (broadcast_to_clients e s.clients) + 6)) _ i s (omega arith) (
      before (1 + length (broadcast_to_clients e s.clients) + 6) i _ s _ (locking_step s e at)
        (looping-Returns i (broadcast_to_clients e s.clients) _ ready refl))
hand-Returns i (looping due) s ready at = looping-Returns i due s ready at

-- In every system that can come about in which the broadcasting goroutine runs, each call that has not
-- returned can do so within six steps and those that the goroutine needs to end the broadcast that it
-- is at, if any: also one that waits for room in the channel or for the lock of the clients.
pub call-Returns :
    (i : ℕ) {s : System}
    → Reach start s
    → s.running ≡ true
    → ((o : Outcome) → s.pc i ≢ returned o)
    → Returns (owed s.hand s.clients + 6) i s
call-Returns i {s} r on live = hand-Returns i s.hand s ((Reach-Inv r).within, on, live) refl
