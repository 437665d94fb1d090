-- ===== src/Canvas/Bounded.antt =====
-- canvaservice/handler/handler.go: how many steps a handler call makes, against what it reads.
use fawa.Common.{
  ℕ, suc, ◌+◌, ◌*◌, ◌≤◌, ◌≡◌, refl, ap, List, [], ◌∷◌, some, none-ne, some_elim, arith, ◌==◌,
  update, if◌then◌else◌, Bool-cases, inl, inr, ◌∙◌, ◌≢◌, true, false,
}
use fawa.Canvas.{Entry, answers, enters, ConnType, DrawEvent, find_session}
use fawa.Canvas.System.{
  System, Conn, Pc, arrived, found, upgraded, joined, copied, reading, adding, sending, touching,
  leaving, answered, gone, Read, request, Choice, with_code, upgrade, client_id, reads, write_fails,
  goes_on, Action, creates, serves, writes, cleans, passes, entry_pc, read_pc, serve_step, step,
  run,
}
use fawa.Canvas.Steps.{run-uncons}
use fawa.Canvas.Turns.{
  Turn, makes, moves, delivers, sweeps, waits, step-Turn, Move, sends, sending-Move,
}

-- How many steps a call can make at most before it reads again or is over.
abbrev pub rank : Pc → ℕ
rank (arrived kind) = 7
rank (found kind p) = 6
rank (upgraded kind p) = 5
rank (joined c) = 4
rank (copied c es) = 3
rank (reading c) = 2
rank (adding c e) = 5
rank (sending c e) = 4
rank (touching c) = 3
rank (leaving c) = 1
rank (answered r) = 0
rank gone = 0

abbrev is_read : Choice → ℕ
is_read (reads r) = 1
is_read _ = 0

-- The steps of call `i` in a schedule, and those that read.
abbrev pub steps_of : ℕ → List Action → ℕ
steps_of i [] = 0
steps_of i (serves j c ∷ rest) = (if i == j then 1 else 0) + steps_of i rest
steps_of i (_ ∷ rest) = steps_of i rest

abbrev pub reads_of : ℕ → List Action → ℕ
reads_of i [] = 0
reads_of i (serves j c ∷ rest) = (if i == j then is_read c else 0) + reads_of i rest
reads_of i (_ ∷ rest) = reads_of i rest

-- A step of call `j`, as call `i` sees it.
abbrev Falls : ℕ → ℕ → Choice → System → System → Type 0
Falls i j c s t =
    (if i == j then 1 else 0) + rank (t.pc i)
    ≤ rank (s.pc i) + 4 * (if i == j then is_read c else 0)

rank_self : (f : ℕ → Pc) (i j : ℕ) (q : Pc) → i ≡ j → rank (update f j q i) ≡ rank q
rank_self f i j q same = let at : update f j q i ≡ q = ground arith in ap rank at

rank-other : (f : ℕ → Pc) (i j : ℕ) (q : Pc) → i ≢ j → rank (update f j q i) ≡ rank (f i)
rank-other f i j q apart = let at : update f j q i ≡ f i = ground arith in ap rank at

moved-Falls :
    (i j : ℕ) (c : Choice) (s : System) (p q : Pc)
    → s.pc j ≡ p
    → suc (rank q) ≤ rank p + 4 * is_read c
    → (if i == j then 1 else 0) + rank (update s.pc j q i)
      ≤ rank (s.pc i) + 4 * (if i == j then is_read c else 0)
moved-Falls i j c s p q place le = elim (Bool-cases (i == j)) [
  | inl same ↦
      let one : i ≡ j = ground arith in
      rw same (omega (arith, le, rank_self s.pc i j q one, ap rank (ap s.pc one ∙ place)))
  | inr other ↦
      let two : i ≢ j = ground arith in rw other (omega (arith, rank-other s.pc i j q two))
]

rank-entry_pc : (kind : ConnType) (e : Entry) → rank (entry_pc kind e) ≤ 6
unfolding entry_pc
rank-entry_pc kind (answers r) = omega arith
rank-entry_pc kind (enters p) = omega arith

rank-read_pc : (c : Conn) (r : Read) → rank (read_pc c r) ≤ 5
unfolding read_pc
rank-read_pc c (request (some e)) = omega arith
rank-read_pc c _ = omega arith

sending-Falls :
    (i j : ℕ) (c : Conn) (e : DrawEvent) (s t : System)
    → s.pc j ≡ sending c e
    → Move j s (sending c e) goes_on t
    → Falls i j goes_on s t
sending-Falls i j c e s t place (sends _ _ room) =
    moved-Falls i j goes_on s _ (touching c) place (omega arith)

serve_step-Falls :
    (i j : ℕ) (p : Pc) (c : Choice) (s t : System)
    → s.pc j ≡ p
    → serve_step j p c s ≡ some t
    → Falls i j c s t
unfolding serve_step
serve_step-Falls i j (arrived kind) (with_code code) s t at h =
    some_elim (Falls i j (with_code code) s) h (
      moved-Falls i j (with_code code) s _ _ at
        (omega (arith, rank-entry_pc kind (find_session code s.handler))))
serve_step-Falls i j (found kind p) (upgrade true) s t at h =
    some_elim (Falls i j (upgrade true) s) h
      (moved-Falls i j (upgrade true) s _ (upgraded kind p) at (omega arith))
serve_step-Falls i j (found kind p) (upgrade false) s t at h =
    some_elim (Falls i j (upgrade false) s) h
      (moved-Falls i j (upgrade false) s _ gone at (omega arith))
serve_step-Falls i j (upgraded kind p) (client_id id) s t at h =
    some_elim (Falls i j (client_id id) s) h
      (moved-Falls i j (client_id id) s _ (joined _) at (omega arith))
serve_step-Falls i j (joined c) goes_on s t at h =
    some_elim (Falls i j goes_on s) h (moved-Falls i j goes_on s _ (copied c _) at (omega arith))
serve_step-Falls i j (copied c es) goes_on s t at h =
    some_elim (Falls i j goes_on s) h (moved-Falls i j goes_on s _ (reading c) at (omega arith))
serve_step-Falls i j (copied c es) write_fails s t at h =
    some_elim (Falls i j write_fails s) h
      (moved-Falls i j write_fails s _ (reading c) at (omega arith))
serve_step-Falls i j (reading c) (reads r) s t at h =
    some_elim (Falls i j (reads r) s) h
      (moved-Falls i j (reads r) s _ (read_pc c r) at (omega (arith, rank-read_pc c r)))
serve_step-Falls i j (adding c e) goes_on s t at h =
    some_elim (Falls i j goes_on s) h (moved-Falls i j goes_on s _ (sending c e) at (omega arith))
serve_step-Falls i j (sending c e) goes_on s t at h =
    sending-Falls i j c e s t at (sending-Move j c e s t h)
serve_step-Falls i j (touching c) goes_on s t at h =
    some_elim (Falls i j goes_on s) h (moved-Falls i j goes_on s _ (reading c) at (omega arith))
serve_step-Falls i j (leaving c) goes_on s t at h =
    some_elim (Falls i j goes_on s) h (moved-Falls i j goes_on s _ gone at (omega arith))
serve_step-Falls _ _ _ _ _ _ _ h = none-ne h

-- A step of another goroutine leaves a call where it stands.
abbrev IsAside : Action → Type 0
IsAside (serves j c) = ⊥
IsAside _ = Unit {0}

aside-pc : {s t : System} {a : Action} → Turn s a t → IsAside a → (i : ℕ) → t.pc i ≡ s.pc i
aside-pc (makes code) aside i = refl
aside-pc (moves j c m) aside i = elim aside [ ]
aside-pc (delivers j r e rest written at_r front) aside i = refl
aside-pc sweeps aside i = refl
aside-pc (waits d) aside i = refl

aside-bounded :
    (i : ℕ) (a : Action) (s w : System) (n m k : ℕ)
    → IsAside a
    → step a s ≡ some w
    → n + m ≤ rank (w.pc i) + k
    → n + m ≤ rank (s.pc i) + k
aside-bounded i a s w n m k aside e le =
    omega (arith, le, ap rank (aside-pc (step-Turn a s w e) aside i))

-- However the goroutines take turns, a handler call makes at most seven steps and four more for each
-- time that it reads, less what its place at the end leaves of them.
pub serves_bounded :
    (i : ℕ) (actions : List Action) (s t : System)
    → run actions s ≡ some t
    → steps_of i actions + rank (t.pc i) ≤ rank (s.pc i) + 4 * reads_of i actions
unfolding run step
serves_bounded i [] s t h =
    some_elim (λ (w : System). 0 + rank (w.pc i) ≤ rank (s.pc i) + 4 * 0) h (omega arith)
serves_bounded i (serves j c ∷ rest) s t h =
    let (w, e, h') = run-uncons (serves j c) rest s t h in
    let one = serve_step-Falls i j (s.pc j) c s w refl e in
    omega (arith, one, serves_bounded i rest w t h')
serves_bounded i (creates code ∷ rest) s t h =
    let (w, e, h') = run-uncons (creates code) rest s t h in
    aside-bounded i (creates code) s w _ _ _ tt e (serves_bounded i rest w t h')
serves_bounded i (writes j written ∷ rest) s t h =
    let (w, e, h') = run-uncons (writes j written) rest s t h in
    aside-bounded i (writes j written) s w _ _ _ tt e (serves_bounded i rest w t h')
serves_bounded i (cleans ∷ rest) s t h =
    let (w, e, h') = run-uncons cleans rest s t h in
    aside-bounded i cleans s w _ _ _ tt e (serves_bounded i rest w t h')
serves_bounded i (passes d ∷ rest) s t h =
    let (w, e, h') = run-uncons (passes d) rest s t h in
    aside-bounded i (passes d) s w _ _ _ tt e (serves_bounded i rest w t h')
