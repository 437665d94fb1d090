-- ===== src/Canvax/Invariant.antt =====
-- canvaxservice/handler/handler.go: what holds in every system that can come about.
use fawa.Common.{
  ℕ, ◌≤◌, String, eq_iff, ◌≡◌, refl, sym, ap, subst, ◌∙◌, [], ◌∷◌, Option, none, some, arith,
  length, length-append, All, update,
}
use fawa.Common.Dict
use fawa.Common.Dict.{Dict, NodupKeys}
use fawa.Canvax.{
  DrawEvent, Client, broadcast_capacity, history_limit, new_canva_service_handler, register_client,
  unregister_client, clear_history, add_to_history,
}
use fawa.Canvax.History.{length-add_to_history}
use fawa.Canvax.System.{
  System, Received, message, Pc, entered, registered, copied, receiving, adding, sending, clearing,
  leaving, returned, handle, after_send, Action, start, Reach, here, next,
}
use fawa.Canvax.Turns.{
  Move, enters, copies, greets, fails, ends, takes, adds, sends, clears, leaves, Turn, moves, picks,
  locks, tells, unlocks, stops, closes, step-Turn,
}

-- The id under which a call stands registered.
abbrev pub owner : Pc → Option String
owner entered = none
owner (registered id) = some id
owner (copied id r) = some id
owner (receiving id) = some id
owner (adding id e) = some id
owner (sending id e) = some id
owner (clearing id e) = some id
owner (leaving id o) = some id
owner (returned o) = none

-- An entry of the client map belongs to a live call, under the id of that call.
abbrev pub Owned : (ℕ → Pc) → String × Client → Type 0
Owned pc (k, cl) = owner (pc cl.stream) ≡ some k

-- A draw event in the hands of a call carries the id of that call.
abbrev pub IsStamped : Pc → Type 0
IsStamped (adding id e) = e.client_id ≡ id
IsStamped (sending id e) = e.client_id ≡ id
IsStamped (clearing id e) = e.client_id ≡ id
IsStamped _ = Unit {0}

pub record Inv (s : System) : Type 0 where
  pub bounded : length s.history ≤ history_limit
  pub within : length s.broadcast ≤ broadcast_capacity
  pub unique : NodupKeys s.clients
  pub owned : All (Owned s.pc) s.clients
  pub stamped : (i : ℕ) → IsStamped (s.pc i)

-- A step of a call that stays registered keeps the owners.
Owned-update :
    (pc : ℕ → Pc) (i : ℕ) (p : Pc) (m : Dict Client)
    → owner (pc i) ≡ owner p
    → All (Owned pc) m
    → All (Owned (update pc i p)) m
Owned-update pc i p [] same h = tt
Owned-update pc i p ((k, cl) ∷ m) same h = ground (arith, Owned-update pc i p m same h.1)

-- A call that was not registered owns no entry.
Owned-update_free :
    (pc : ℕ → Pc) (i : ℕ) (p : Pc) (m : Dict Client)
    → owner (pc i) ≡ none
    → All (Owned pc) m
    → All (Owned (update pc i p)) m
Owned-update_free pc i p [] free h = tt
Owned-update_free pc i p ((k, cl) ∷ m) free h = ground (arith, Owned-update_free pc i p m free h.1)

Owned-insert :
    (pc : ℕ → Pc) (i : ℕ) (id : String) (m : Dict Client)
    → owner (pc i) ≡ none
    → All (Owned pc) m
    → All (Owned (update pc i (registered id))) (Dict.insert id (record { id = id; stream = i }) m)
Owned-insert pc i id m free h =
    Dict.insert-All (Owned (update pc i (registered id))) id _ m (ground arith)
      (Owned-update_free pc i (registered id) m free h)

-- The entry of a call that leaves goes with it.
Owned-erase :
    (pc : ℕ → Pc) (i : ℕ) (id : String) (p : Pc) (m : Dict Client)
    → owner (pc i) ≡ some id
    → All (Owned pc) m
    → All (Owned (update pc i p)) (Dict.erase id m)
unfolding Dict.erase
Owned-erase pc i id p [] own h = tt
Owned-erase pc i id p ((k, cl) ∷ m) own h =
    ground (arith, eq_iff k id, Owned-erase pc i id p m own h.1)

update-IsStamped :
    (pc : ℕ → Pc) (i : ℕ) (p : Pc)
    → IsStamped p
    → ((j : ℕ) → IsStamped (pc j))
    → (j : ℕ) → IsStamped (update pc i p j)
update-IsStamped pc i p h all j = ground (arith, all j)

handle-IsStamped : (id : String) (r : Received) → IsStamped (handle id r)
unfolding handle
handle-IsStamped id (message (some e)) = ground arith
handle-IsStamped id _ = tt

pub owner-handle : (id : String) (r : Received) → owner (handle id r) ≡ some id
unfolding handle
owner-handle id (message (some e)) = ground arith
owner-handle id _ = refl

after_send-IsStamped :
    (id : String) (e : DrawEvent) → e.client_id ≡ id → IsStamped (after_send id e)
unfolding after_send
after_send-IsStamped id e h = ground arith

pub owner-after_send : (id : String) (e : DrawEvent) → owner (after_send id e) ≡ some id
unfolding after_send
owner-after_send id e = ground arith

-- A step of a call from place `p` to place `q` that leaves the handler alone.
moved-Inv :
    (s : System) (i : ℕ) (q : Pc)
    → owner (s.pc i) ≡ owner q
    → IsStamped q
    → Inv s
    → Inv (record s { pc = update s.pc i q })
moved-Inv s i q same st v = record {
  bounded = v.bounded;
  within = v.within;
  unique = v.unique;
  owned = Owned-update s.pc i q s.clients same v.owned;
  stamped = update-IsStamped s.pc i q st v.stamped;
}

Move-Inv : (i : ℕ) {s t : System} {p : Pc} → s.pc i ≡ p → Move i s p t → Inv s → Inv t
unfolding register_client unregister_client clear_history add_to_history
Move-Inv i {s} place (enters id unlocked) v = record {
  bounded = v.bounded;
  within = v.within;
  unique = Dict.insert-NodupKeys id _ s.clients v.unique;
  owned = Owned-insert s.pc i id s.clients (ap owner place) v.owned;
  stamped = update-IsStamped s.pc i _ tt v.stamped;
}
Move-Inv i {s} place (copies id) v = moved-Inv s i _ (ap owner place) tt v
Move-Inv i {s} place (greets id r) v = record {
  bounded = v.bounded;
  within = v.within;
  unique = v.unique;
  owned = Owned-update s.pc i _ s.clients (ap owner place) v.owned;
  stamped = update-IsStamped s.pc i _ tt v.stamped;
}
Move-Inv i {s} place (fails id e r) v = moved-Inv s i _ (ap owner place) tt v
Move-Inv i {s} place (ends id e) v = moved-Inv s i _ (ap owner place) tt v
Move-Inv i {s} place (takes id r) v =
    moved-Inv s i _ (ap owner place ∙ sym (owner-handle id r)) (handle-IsStamped id r) v
Move-Inv i {s} place (adds id event) v = record {
  bounded = length-add_to_history event s.handler v.bounded;
  within = v.within;
  unique = v.unique;
  owned = Owned-update s.pc i _ s.clients (ap owner place) v.owned;
  stamped = update-IsStamped s.pc i _ (subst IsStamped place (v.stamped i)) v.stamped;
}
Move-Inv i {s} place (sends id event room) v = record {
  bounded = v.bounded;
  within = omega (arith, length-append s.broadcast (event ∷ []));
  unique = v.unique;
  owned =
      Owned-update s.pc i _ s.clients (ap owner place ∙ sym (owner-after_send id event)) v.owned;
  stamped =
      update-IsStamped s.pc i _
        (after_send-IsStamped id event (subst IsStamped place (v.stamped i))) v.stamped;
}
Move-Inv i {s} place (clears id event) v = record {
  bounded = omega arith;
  within = v.within;
  unique = v.unique;
  owned = Owned-update s.pc i _ s.clients (ap owner place) v.owned;
  stamped = update-IsStamped s.pc i _ tt v.stamped;
}
Move-Inv i {s} place (leaves id o) v = record {
  bounded = v.bounded;
  within = v.within;
  unique = Dict.erase-NodupKeys id s.clients v.unique;
  owned = Owned-erase s.pc i id _ s.clients (ap owner place) v.owned;
  stamped = update-IsStamped s.pc i _ tt v.stamped;
}

-- Every step of the system keeps the invariant.
pub Turn-Inv : {s t : System} {a : Action} → Turn s a t → Inv s → Inv t
Turn-Inv (moves i c m) v = Move-Inv i refl m v
Turn-Inv (picks b event rest at front on) v = record {
  bounded = v.bounded;
  within = ground (arith, v.within);
  unique = v.unique;
  owned = v.owned;
  stamped = v.stamped;
}
Turn-Inv (locks b e at) v = record {
  bounded = v.bounded;
  within = v.within;
  unique = v.unique;
  owned = v.owned;
  stamped = v.stamped;
}
Turn-Inv (tells b k r due at) v = record {
  bounded = v.bounded;
  within = v.within;
  unique = v.unique;
  owned = v.owned;
  stamped = v.stamped;
}
Turn-Inv (unlocks b at) v = record {
  bounded = v.bounded;
  within = v.within;
  unique = v.unique;
  owned = v.owned;
  stamped = v.stamped;
}
Turn-Inv (stops d on) v = record {
  bounded = v.bounded;
  within = v.within;
  unique = v.unique;
  owned = v.owned;
  stamped = v.stamped;
}
Turn-Inv (closes d) v = record {
  bounded = v.bounded;
  within = v.within;
  unique = tt;
  owned = tt;
  stamped = v.stamped;
}

start-Inv : Inv start
unfolding start new_canva_service_handler
start-Inv = record {
  bounded = omega arith;
  within = omega arith;
  unique = tt;
  owned = tt;
  stamped = λ i. tt;
}

-- In every system that can come about the history and the channel keep their limits, the client
-- map names live calls under their own ids, and draw events are stamped by the call that brought
-- them.
pub Reach-Inv : {s : System} → Reach start s → Inv s
Reach-Inv here = start-Inv
Reach-Inv (next r a e) = Turn-Inv (step-Turn a _ _ e) (Reach-Inv r)
