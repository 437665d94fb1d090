-- ===== src/Canvax/Whiteboard/View.antt =====
-- The board that the system of canvaxservice/handler/handler.go is, and the deed that an action of it is.
use fawa.Common.{
  ℕ, String, ◌≡◌, ap, Bool, true, false, List, [], ◌∷◌, ◌++◌, append-nil, Option, none, some, ◌==◌,
  arith, if◌then◌else◌, inl, inr, Option-cases, update,
}
use fawa.Canvax.{DrawEvent, initial_history, broadcast_to_clients}
use fawa.Canvax.System.{
  Hand, held, looping, System, Pc, entered, registered, sending, leaving, Action, collaborate,
  deliver, stop_broadcasts, shut_down, for_stream,
}
use fawa.Canvax.Invariant.{owner, Inv}
use fawa.Canvax.Broadcast.{draws, draws-append, pending, for_stream-registered}
use fawa.Canvax.Registration.{Registered}
use fawa.Canvax.Whiteboard.{Board, Deed, rest, join, leave, post, give_out, show, miss}

abbrev is_some : Option String → Bool
is_some none = false
is_some (some id) = true

-- The members of the board are the calls that are registered and have not returned.
abbrev pub live : Pc → Bool
live p = is_some (owner p)

-- The event that the broadcasting goroutine has received and not yet given out.
abbrev pub in_hand : Hand → List DrawEvent
in_hand (held event) = event ∷ []
in_hand _ = []

abbrev pub board : System → Board
board s = record {
  coming = in_hand s.hand ++ s.broadcast;
  box = λ i. pending i s.hand ++ s.broadcast;
  feed = λ i. draws (s.sent i);
  member = λ i. live (s.pc i);
}

-- What a call does in its next step, and the broadcasting goroutine in its.
abbrev pub deed_at : ℕ → Pc → Deed
deed_at i entered = join i
deed_at i (sending id event) = post event
deed_at i (leaving id o) = leave i
deed_at i _ = rest

abbrev pub deed_of_hand : Bool → Hand → Deed
deed_of_hand through (held event) = give_out
deed_of_hand true (looping ((j, r) ∷ due)) = show j
deed_of_hand false (looping ((j, r) ∷ due)) = miss j
deed_of_hand through _ = rest

abbrev pub deed_of : Action → System → Deed
deed_of (collaborate i c) s = deed_at i (s.pc i)
deed_of (deliver through) s = deed_of_hand through s.hand
deed_of stop_broadcasts s = rest
deed_of shut_down s = rest

-- A broadcast to the registered clients gives the event to each live call, once.
pub for_stream-live :
    (s : System) (e : DrawEvent) (i : ℕ)
    → Inv s
    → Registered s
    → live (s.pc i) ≡ true
    → draws (for_stream i (broadcast_to_clients e s.clients)) ≡ e ∷ []
for_stream-live s e i v reg on = elim (Option-cases (owner (s.pc i))) [
  | inl free ↦ let off : false ≡ true = rw (free, is_some) at on in cc
  | inr (id, own) ↦
      ap draws (for_stream-registered s.pc e i id s.clients own (reg i id own) v.unique v.owned)
]

-- A step of a call that stays live, or stays out.
pub live-update :
    (s : System) (i : ℕ) (q : Pc)
    → owner (s.pc i) ≡ owner q
    → (j : ℕ) → live (update s.pc i q j) ≡ live (s.pc j)
live-update s i q same j = ground (arith, ap is_some same)

pub enters-live :
    (s : System) (i : ℕ) (id : String) (j : ℕ)
    → live (update s.pc i (registered id) j) ≡ (if i == j then true else live (s.pc j))
enters-live s i id j = ground arith

pub leaves-live :
    (s : System) (i : ℕ) (p : Pc) (j : ℕ)
    → owner p ≡ none
    → live (update s.pc i p j) ≡ (if i == j then false else live (s.pc j))
leaves-live s i p j out = ground (arith, ap is_some out)

pub greets-draws :
    (s : System) (i : ℕ) (es : List DrawEvent) (j : ℕ)
    → draws (update s.sent i (s.sent i ++ initial_history es ∷ []) j) ≡ draws (s.sent j)
greets-draws s i es j =
    ground (arith, draws-append (s.sent i) (initial_history es ∷ []), append-nil (draws (s.sent i)))
