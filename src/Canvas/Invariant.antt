-- ===== src/Canvas/Invariant.antt =====
-- canvaservice/handler/handler.go: what holds in every system that can come about.
use fawa.Common.{
  ℕ, String, ◌≡◌, refl, sym, ap, subst, ◌∙◌, [], ◌∷◌, arith, length-append, update-all, none-ne,
}
use fawa.Common.Dict
use fawa.Common.Dict.{Dict, NodupKeys}
use fawa.Canvas.{
  ConnType, new_canvas_service_handler, new_session, create_canvas, find_session, append_history,
  touch,
}
use fawa.Canvas.Cleaner.{clean-NodupKeys}
use fawa.Canvas.System.{
  System, Pc, reading, sending, touching, gone, Action, start, Reach, here, next,
}
use fawa.Canvas.Turns.{
  Move, asks, accepts, refuses, joins, copies, greets, misses, takes, appends, sends, touches,
  leaves, Turn, makes, moves, delivers, sweeps, waits, step-Turn,
}
use fawa.Canvas.Ownership.{
  IsConsistent, IsSound, IsStamped, apart-IsSound, entry_pc-IsStamped, joined-IsSound,
  kept-IsConsistent, left-IsSound, moved-IsConsistent, owner, owner-entry_pc, owner-read_pc,
  read_pc-IsStamped, session-IsConsistent,
}

Move-IsConsistent :
    (i : ℕ) {s t : System} {q : Pc} {choice : _}
    → s.pc i ≡ q
    → Move i s q choice t
    → IsConsistent s
    → IsConsistent t
unfolding append_history touch
Move-IsConsistent i {s} place (asks kind code) v =
    moved-IsConsistent s i _
      (ap owner place ∙ sym (owner-entry_pc kind (find_session code s.handler)))
      (entry_pc-IsStamped kind (find_session code s.handler)) v
Move-IsConsistent i {s} place (accepts kind p) v = moved-IsConsistent s i _ (ap owner place) tt v
Move-IsConsistent i {s} place (refuses kind p) v = moved-IsConsistent s i _ (ap owner place) tt v
Move-IsConsistent i {s} place (joins kind p id) v =
    session-IsConsistent s i _ p _ (joined-IsSound s i kind p id (ap owner place) v)
      (λ r _. apart-IsSound s i _ r (λ k e. none-ne (sym (ap owner place) ∙ e)) v) tt v
Move-IsConsistent i {s} place (copies c) v = moved-IsConsistent s i _ (ap owner place) tt v
Move-IsConsistent i {s} place (greets c events) v =
    let w = moved-IsConsistent s i (reading c) (ap owner place) tt v in
    record { keys = w.keys; sound = w.sound; stamped = w.stamped }
Move-IsConsistent i {s} place (misses c events) v =
    let w = moved-IsConsistent s i (reading c) (ap owner place) tt v in
    record { keys = w.keys; sound = w.sound; stamped = w.stamped }
Move-IsConsistent i {s} place (takes c r) v =
    moved-IsConsistent s i _ (ap owner place ∙ sym (owner-read_pc c r)) (read_pc-IsStamped c r) v
Move-IsConsistent i {s} place (appends c e) v =
    kept-IsConsistent s i (sending c e) c.session _ (ap owner place) (v.sound c.session).within refl
      (subst IsStamped place (v.stamped i)) v
Move-IsConsistent i {s} place (sends c e room) v =
    kept-IsConsistent s i (touching c) c.session _ (ap owner place)
      (omega (arith, length-append (s.heap c.session).broadcast (e ∷ []))) refl tt v
Move-IsConsistent i {s} place (touches c) v =
    kept-IsConsistent s i (reading c) c.session _ (ap owner place) (v.sound c.session).within refl
      tt v
Move-IsConsistent i {s} place (leaves c) v =
    session-IsConsistent s i gone c.session _ (left-IsSound s i c.session c.id (ap owner place) v)
      (λ r apart. apart-IsSound s i gone r (λ k e. ground (arith, ap owner place)) v) tt v

new_session-IsSound :
    (pc : ℕ → Pc) (p : ℕ) (code : String) (now : ℕ) → IsSound pc p (new_session code now)
unfolding new_session
new_session-IsSound pc p code now = record { within = omega arith; unique = tt; owned = tt }

-- Every step of the system keeps the invariant.
pub Turn-IsConsistent : {s t : System} {a : Action} → Turn s a t → IsConsistent s → IsConsistent t
unfolding create_canvas
Turn-IsConsistent {s} (makes code) v = record {
  keys = Dict.insert-NodupKeys code s.allocated s.sessions v.keys;
  sound =
      update-all (IsSound s.pc) s.heap s.allocated (new_session code s.now)
        (new_session-IsSound s.pc s.allocated code s.now) (λ r _. v.sound r);
  stamped = v.stamped;
}
Turn-IsConsistent (moves i c m) v = Move-IsConsistent i refl m v
Turn-IsConsistent {s} (delivers i p event rest written at_p front) v = record {
  keys = v.keys;
  sound =
      update-all (IsSound s.pc) s.heap p _
        (record {
          within = ground (arith, (v.sound p).within);
          unique = (v.sound p).unique;
          owned = (v.sound p).owned;
        })
        (λ r _. v.sound r);
  stamped = v.stamped;
}
Turn-IsConsistent {s} sweeps v = record {
  keys = clean-NodupKeys s.now s.heap s.sessions v.keys;
  sound = v.sound;
  stamped = v.stamped;
}
Turn-IsConsistent (waits d) v = record { keys = v.keys; sound = v.sound; stamped = v.stamped }

start-IsConsistent : (kinds : ℕ → ConnType) → IsConsistent (start kinds)
unfolding start new_canvas_service_handler
start-IsConsistent kinds = record {
  keys = tt;
  sound = λ p. new_session-IsSound _ p "" 0;
  stamped = λ i. tt;
}

-- In every system that can come about no code stands twice in the session map; in every session the
-- channel holds at most 100 events, no client id stands twice, and each client belongs to a live call
-- of that session, under the id of that call; and a draw event that a call is about to add or send
-- carries the id of that call.
pub Reach-IsConsistent :
    (kinds : ℕ → ConnType) {s : System} → Reach (start kinds) s → IsConsistent s
Reach-IsConsistent kinds here = start-IsConsistent kinds
Reach-IsConsistent kinds (next r a e) =
    Turn-IsConsistent (step-Turn a _ _ e) (Reach-IsConsistent kinds r)
