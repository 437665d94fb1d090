-- ===== src/Canvax/Registration.antt =====
-- canvaxservice/handler/handler.go: which calls stand in the client map, and in whose name a draw
-- event goes out.
use fawa.Common.{
  none-ne, ℕ, String, eq_iff, ◌≡◌, refl, sym, ap, ◌∙◌, ◌≢◌, none, some, arith, All, update,
}
use fawa.Common.Dict
use fawa.Canvax.{Client, register_client, unregister_client, clear_history, add_to_history}
use fawa.Canvax.System.{
  System, Choice, Pc, registered, sending, returned, Outcome, start, Action, collaborate, shut_down,
  Reach, step,
}
use fawa.Canvax.Turns.{
  Move, enters, copies, greets, fails, ends, takes, adds, sends, clears, leaves, Turn, moves, picks,
  locks, tells, unlocks, stops, closes, step-Turn, enqueues,
}
use fawa.Canvax.Invariant.{owner, Owned, IsStamped, Reach-Inv, owner-handle, owner-after_send}
use fawa.Canvax.Broadcast.{entry, enqueued}

-- A call that has not registered yet, or has returned on any path, has no entry in the client map.
pub Reach-unregistered :
    {s : System}
    → Reach start s
    → (i : ℕ) → owner (s.pc i) ≡ none
    → (k : String) (cl : Client) → Dict.lookup k s.clients ≡ some cl
    → cl.stream ≢ i
Reach-unregistered {s} r i free k cl found same =
    let own = Dict.lookup-All (Owned s.pc) k cl s.clients (Reach-Inv r).owned found in cc

-- What a call puts into the channel carries the id under which that call registered, whatever id
-- the client wrote into its event.
enqueued-stamped :
    {s : System}
    → Reach start s
    → (i : ℕ) (c : Choice)
    → All (λ e. owner (s.pc i) ≡ some e.client_id) (enqueued (collaborate i c) s)
enqueued-stamped {s} r i c = go (s.pc i) ((Reach-Inv r).stamped i)
  where
    go : (p : Pc) → IsStamped p → All (λ e. owner p ≡ some e.client_id) (enqueues p)
    go (sending id e) st = (ap some (sym st), tt)
    go _ st = tt

-- A call that registers in a step draws an id that no registered call has.
abbrev pub IsFresh : System → System → Type 0
IsFresh s t =
    (i j : ℕ) (id : String)
    → owner (s.pc i) ≡ none
    → owner (t.pc i) ≡ some id
    → owner (s.pc j) ≢ some id

-- What can come about while `Close` is not called and the random ids do not collide.
pub data FreshReach : System → Type 0 where
  here : FreshReach start
  next :
      {t u : System}
      → FreshReach t
      → (a : Action) → a ≢ shut_down
      → IsFresh t u
      → step a t ≡ some u
      → FreshReach u

-- Every live call has its own entry in the client map.
abbrev pub Registered : System → Type 0
Registered s =
    (i : ℕ) (id : String) → owner (s.pc i) ≡ some id → Dict.lookup id s.clients ≡ some (entry id i)

-- The same clients, and call `i` keeps its owner.
kept-Registered :
    (s : System) (i : ℕ) (q : Pc)
    → owner (s.pc i) ≡ owner q
    → Registered s
    → (j : ℕ) (id : String) → owner (update s.pc i q j) ≡ some id
    → Dict.lookup id s.clients ≡ some (entry id j)
kept-Registered s i q same reg j id own = reg j id (ground arith)

entered-Registered :
    (s : System) (i : ℕ) (id : String)
    → ((j : ℕ) → owner (s.pc j) ≢ some id)
    → Registered s
    → (j : ℕ) (k : String) → owner (update s.pc i (registered id) j) ≡ some k
    → Dict.lookup k (Dict.insert id (entry id i) s.clients) ≡ some (entry k j)
entered-Registered s i id fresh reg j k own =
    rw Dict.lookup-insert (ground (arith, fresh j, reg j k, eq_iff id k))

left-Registered :
    (s : System) (i : ℕ) (id : String) (o : Outcome)
    → owner (s.pc i) ≡ some id
    → Registered s
    → (j : ℕ) (k : String) → owner (update s.pc i (returned o) j) ≡ some k
    → Dict.lookup k (Dict.erase id s.clients) ≡ some (entry k j)
left-Registered s i id o own' reg j k own =
    rw Dict.lookup-erase (ground (arith, reg j k, reg i id, eq_iff id k))

start-Registered : Registered start
unfolding start
start-Registered i id own = none-ne own

Move-Registered :
    (i : ℕ) {s t : System} {p : Pc}
    → s.pc i ≡ p
    → Move i s p t
    → IsFresh s t
    → Registered s
    → Registered t
unfolding register_client unregister_client clear_history add_to_history
Move-Registered i {s} place (enters id unlocked) fresh reg =
    entered-Registered s i id (λ j. fresh i j id (ap owner place) (ground arith)) reg
Move-Registered i {s} place (leaves id o) fresh reg = left-Registered s i id o (ap owner place) reg
Move-Registered i {s} place (takes id r) fresh reg =
    kept-Registered s i _ (ap owner place ∙ sym (owner-handle id r)) reg
Move-Registered i {s} place (sends id e room) fresh reg =
    kept-Registered s i _ (ap owner place ∙ sym (owner-after_send id e)) reg
Move-Registered i {s} place (copies id) fresh reg = kept-Registered s i _ (ap owner place) reg
Move-Registered i {s} place (greets id es) fresh reg = kept-Registered s i _ (ap owner place) reg
Move-Registered i {s} place (fails id e es) fresh reg = kept-Registered s i _ (ap owner place) reg
Move-Registered i {s} place (ends id e) fresh reg = kept-Registered s i _ (ap owner place) reg
Move-Registered i {s} place (adds id e) fresh reg = kept-Registered s i _ (ap owner place) reg
Move-Registered i {s} place (clears id e) fresh reg = kept-Registered s i _ (ap owner place) reg

Turn-Registered :
    {s t : System} {a : Action}
    → Turn s a t
    → a ≢ shut_down
    → IsFresh s t
    → Registered s
    → Registered t
Turn-Registered (moves i c m) open' fresh reg = Move-Registered i refl m fresh reg
Turn-Registered (picks b e rest at front on) open' fresh reg = reg
Turn-Registered (locks b e at) open' fresh reg = reg
Turn-Registered (tells b k r due at) open' fresh reg = reg
Turn-Registered (unlocks b at) open' fresh reg = reg
Turn-Registered (stops d on) open' fresh reg = reg
Turn-Registered (closes d) open' fresh reg = absurd (open' refl)

-- While `Close` is not called and the random ids do not collide, every call between its
-- registration and its return stands in the client map under its id, with its own stream.
pub FreshReach-Registered : {s : System} → FreshReach s → Registered s
FreshReach-Registered here = start-Registered
FreshReach-Registered (next r a o fresh e) =
    Turn-Registered (step-Turn a _ _ e) o fresh (FreshReach-Registered r)
