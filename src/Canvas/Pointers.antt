-- ===== src/Canvas/Pointers.antt =====
-- canvaservice/handler/handler.go: the sessions that calls hold pointers to.
use fawa.Common.{
  ℕ, ◌<◌, ◌≤◌, String, ◌≡◌, refl, sym, ap, ◌∙◌, ◌==◌, Option, none, some, none-ne, some_elim, arith,
  update, Bool-cases, inl, inr,
}
use fawa.Canvas.{ConnType, Entry, answers, enters, create_canvas, find_session}
use fawa.Canvas.System.{
  System, Conn, Pc, found, upgraded, gone, Read, request, start, Action, Reach, entry_pc, read_pc,
}
use fawa.Canvas.Turns.{
  Move, asks, accepts, refuses, joins, copies, greets, misses, takes, appends, sends, touches,
  leaves, Turn, makes, moves, delivers, sweeps, waits, step-Turn,
}
use fawa.Canvas.Ownership.{owner}
use fawa.Canvas.Filing.{IsFiled, Reach-IsFiled, find_session-lookup}

-- The session that a call holds a pointer to.
abbrev pub held : Pc → Option ℕ
held (found kind p) = some p
held (upgraded kind p) = some p
held q = elim (owner q) [ none ↦ none | some (p, id) ↦ some p ]

-- Calls hold pointers to sessions that were made.
abbrev pub IsMade : System → Type 0
IsMade s = (i p : ℕ) → held (s.pc i) ≡ some p → p < s.allocated

held-read_pc : (c : Conn) (r : Read) → held (read_pc c r) ≡ some c.session
unfolding read_pc
held-read_pc c (request (some e)) = refl
held-read_pc c _ = refl

entry_pc-IsMade :
    (kind : ConnType) (code : String) (s : System) (p : ℕ)
    → IsFiled s
    → held (entry_pc kind (find_session code s.handler)) ≡ some p
    → p < s.allocated
unfolding entry_pc
entry_pc-IsMade kind code s p filed h = go (find_session code s.handler) refl h
  where
    go :
        (e : Entry)
        → find_session code s.handler ≡ e
        → held (entry_pc kind e) ≡ some p
        → p < s.allocated
    go (answers r) same h = none-ne h
    go (enters q) same h =
        some_elim (λ r. r < s.allocated) h
          (filed code q (find_session-lookup code q s.handler same)).0

moved-IsMade :
    (s : System) (i : ℕ) (q : Pc) (n : ℕ)
    → ((p : ℕ) → held q ≡ some p → p < n)
    → s.allocated ≤ n
    → IsMade s
    → (j p : ℕ) → held (update s.pc i q j) ≡ some p
    → p < n
moved-IsMade s i q n new le v j p h = elim (Bool-cases (i == j)) [
  | inl same ↦ new p (rw same at h)
  | inr other ↦ let old = v j p (rw other at h) in omega arith
]

-- The same where the call keeps its pointer, and where it has none any more.
kept-IsMade :
    (s : System) (i : ℕ) (q : Pc)
    → held (s.pc i) ≡ held q
    → IsMade s
    → (j p : ℕ) → held (update s.pc i q j) ≡ some p
    → p < s.allocated
kept-IsMade s i q same v = moved-IsMade s i q s.allocated (λ p h. v i p (same ∙ h)) (omega arith) v

freed-IsMade :
    (s : System) (i : ℕ) (q : Pc)
    → held q ≡ none
    → IsMade s
    → (j p : ℕ) → held (update s.pc i q j) ≡ some p
    → p < s.allocated
freed-IsMade s i q free v =
    moved-IsMade s i q s.allocated (λ p h. none-ne (sym free ∙ h)) (omega arith) v

Move-IsMade :
    (i : ℕ) {s t : System} {q : Pc} {choice : _}
    → s.pc i ≡ q
    → Move i s q choice t
    → IsFiled s
    → IsMade s
    → IsMade t
Move-IsMade i {s} place (asks kind code) filed v =
    moved-IsMade s i _ s.allocated (λ p. entry_pc-IsMade kind code s p filed) (omega arith) v
Move-IsMade i {s} place (takes c r) filed v =
    kept-IsMade s i _ (ap held place ∙ sym (held-read_pc c r)) v
Move-IsMade i {s} place (refuses kind p) filed v = freed-IsMade s i gone refl v
Move-IsMade i {s} place (leaves c) filed v = freed-IsMade s i gone refl v
Move-IsMade i {s} place (accepts kind p) filed v = kept-IsMade s i _ (ap held place) v
Move-IsMade i {s} place (joins kind p id) filed v = kept-IsMade s i _ (ap held place) v
Move-IsMade i {s} place (copies c) filed v = kept-IsMade s i _ (ap held place) v
Move-IsMade i {s} place (greets c es) filed v = kept-IsMade s i _ (ap held place) v
Move-IsMade i {s} place (misses c es) filed v = kept-IsMade s i _ (ap held place) v
Move-IsMade i {s} place (appends c e) filed v = kept-IsMade s i _ (ap held place) v
Move-IsMade i {s} place (sends c e room) filed v = kept-IsMade s i _ (ap held place) v
Move-IsMade i {s} place (touches c) filed v = kept-IsMade s i _ (ap held place) v

Turn-IsMade : {s t : System} {a : Action} → Turn s a t → IsFiled s → IsMade s → IsMade t
unfolding create_canvas
Turn-IsMade (makes code) filed v = λ j p h. let old = v j p h in omega arith
Turn-IsMade (moves i c m) filed v = Move-IsMade i refl m filed v
Turn-IsMade (delivers i r e rest written at_r front) filed v = v
Turn-IsMade sweeps filed v = v
Turn-IsMade (waits d) filed v = v

-- In every system that can come about, calls hold pointers to sessions that were made.
pub Reach-IsMade : (kinds : ℕ → ConnType) {s : System} → Reach (start kinds) s → IsMade s
unfolding start
Reach-IsMade kinds Reach.here = λ j p h. none-ne h
Reach-IsMade kinds (Reach.next r a e) =
    Turn-IsMade (step-Turn a _ _ e) (Reach-IsFiled kinds r) (Reach-IsMade kinds r)

abbrev session_of : Option (ℕ × String) → Option ℕ
session_of none = none
session_of (some (p, id)) = some p

pub held-owner : (q : Pc) (p : ℕ) (id : String) → owner q ≡ some (p, id) → held q ≡ some p
held-owner (found kind r) p id h = none-ne h
held-owner (upgraded kind r) p id h = none-ne h
held-owner _ p id h = ap session_of h
