-- ===== src/Canvas/Ending.antt =====
-- canvaservice/handler/handler.go: schedules that bring a call to its end.
use fawa.Common.{
  ℕ, suc, ◌≤◌, String, ◌≡◌, refl, ◌∙◌, List, [], ◌∷◌, Option, none, some, arith, length,
}
use fawa.Common.Dict
use fawa.Canvas.System.{
  System, Pc, answered, gone, Choice, Action, serves, at_pc, serve_step, step, run,
}
use fawa.Canvas.Steps.{run-cons}

-- A call is over that has been answered or has returned.
abbrev pub IsOver : Pc → Type 0
IsOver (answered r) = Unit {0}
IsOver gone = Unit {0}
IsOver _ = ⊥

-- No client stands in a session under an id, if one is given.
abbrev pub Left : Option (ℕ × String) → System → Type 0
Left none s = Unit {0}
Left (some (p, id)) s = Dict.lookup id (s.heap p).clients ≡ none

-- A schedule of at most `n` steps after which call `i` is over and `o` has left.
abbrev pub Ends : ℕ → ℕ → Option (ℕ × String) → System → Type 0
Ends n i o s =
    (actions : List Action) × (length actions ≤ n)
    × ((t : System) × (run actions s ≡ some t) × IsOver (t.pc i) × Left o t)

pub before :
    (n i : ℕ) (o : Option (ℕ × String)) (a : Action) (s w : System)
    → step a s ≡ some w
    → Ends n i o w
    → Ends (suc n) i o s
before n i o a s w e (actions, le, (t, h, over, left)) =
    (a ∷ actions, omega (arith, le), (t, run-cons a actions s w e ∙ h, over, left))

pub longer :
    (m n i : ℕ) (o : Option (ℕ × String)) (s : System) → m ≤ n → Ends m i o s → Ends n i o s
longer m n i o s le (actions, le', rest) = (actions, omega (arith, le'), rest)

pub over-Ends :
    (i : ℕ) (o : Option (ℕ × String)) (s : System) → IsOver (s.pc i) → Left o s → Ends 0 i o s
unfolding run
over-Ends i o s over left = ([], omega arith, (s, refl, over, left))

-- A step of call `i` from the place where it stands to another.
pub serving :
    (n i : ℕ) (o : Option (ℕ × String)) (p q : Pc) (c : Choice) (s w : System)
    → s.pc i ≡ p
    → serve_step i p c s ≡ some (at_pc i q w)
    → Ends n i o (at_pc i q w)
    → Ends (suc n) i o s
unfolding step
serving n i o p q c s w at e rest = before n i o (serves i c) s (at_pc i q w) (rw (at, step) e) rest
