-- ===== src/Canvas/Registration.antt =====
-- canvaservice/handler/handler.go: which calls stand among the clients of a session.
use fawa.Common.{
  ℕ, String, eq_iff, eq_refl, ◌≡◌, ◌≢◌, refl, sym, ap, ◌∙◌, ◌==◌, Option, none, some, none-ne,
  some_elim, arith, update, Bool-cases, inl, inr,
}
use fawa.Common.Dict
use fawa.Common.Dict.{Dict, NodupKeys}
use fawa.Canvas.{
  ConnType, SessionClient, CanvasSession, create_canvas, find_session, add_client, remove_client,
  append_history, touch,
}
use fawa.Canvas.System.{System, Pc, gone, start, Action, step, Reach}
use fawa.Canvas.Turns.{
  Move, asks, accepts, refuses, joins, copies, greets, misses, takes, appends, sends, touches,
  leaves, Turn, makes, moves, delivers, sweeps, waits, step-Turn,
}
use fawa.Canvas.Ownership.{owner, owner-entry_pc, owner-read_pc}
use fawa.Canvas.Pointers.{IsMade, Reach-IsMade, held-owner}

-- A call that joins in a step draws an id that no call in its session has.
abbrev pub IsFresh : System → System → Type 0
IsFresh s t =
    (i j p : ℕ) (id : String)
    → owner (s.pc i) ≡ none
    → owner (t.pc i) ≡ some (p, id)
    → owner (s.pc j) ≢ some (p, id)

-- What can come about while the random ids do not collide.
pub data FreshReach (kinds : ℕ → ConnType) : System → Type 0 where
  here : FreshReach kinds (start kinds)
  next :
      {t u : System}
      → FreshReach kinds t
      → (a : Action) → IsFresh t u
      → step a t ≡ some u
      → FreshReach kinds u

pub FreshReach-Reach :
    (kinds : ℕ → ConnType) {s : System} → FreshReach kinds s → Reach (start kinds) s
FreshReach-Reach kinds here = Reach.here
FreshReach-Reach kinds (next r a fresh e) = Reach.next (FreshReach-Reach kinds r) a e

-- The call that an entry of the clients belongs to.
abbrev pub call_of : Option SessionClient → Option ℕ
call_of none = none
call_of (some client) = some client.call

-- Every call in a session stands among the clients of that session, under its id.
abbrev pub Listed : System → Type 0
Listed s =
    (i p : ℕ) (id : String)
    → owner (s.pc i) ≡ some (p, id)
    → call_of (Dict.lookup id (s.heap p).clients) ≡ some i

-- A step of call `i` that keeps its place among the clients, and the clients of each session.
kept-Listed :
    (s t : System) (i : ℕ) (q : Pc)
    → owner (s.pc i) ≡ owner q
    → ((p : ℕ) → (t.heap p).clients ≡ (s.heap p).clients)
    → Listed s
    → (j p : ℕ) (id : String) → owner (update s.pc i q j) ≡ some (p, id)
    → call_of (Dict.lookup id (t.heap p).clients) ≡ some j
kept-Listed s t i q same clients v j p id own =
    ap (λ m. call_of (Dict.lookup id m)) (clients p) ∙ v j p id (ground arith)

-- The clients of each session when session `p` has become `q`.
abbrev clients_in : System → ℕ → CanvasSession → ℕ → Dict SessionClient
clients_in s p q r = (update s.heap p q r).clients

joined-Listed :
    (s : System) (i p : ℕ) (id : String) (kind : ConnType) (q : Pc)
    → owner q ≡ some (p, id)
    → ((j : ℕ) → owner (s.pc j) ≢ some (p, id))
    → Listed s
    → (j r : ℕ) (k : String) → owner (update s.pc i q j) ≡ some (r, k)
    → call_of (
        Dict.lookup k (
          clients_in s p
            (add_client (record { id = id; conn_type = kind; call = i }) (s.heap p))
            r))
      ≡ some j
unfolding add_client
joined-Listed s i p id kind q mine fresh v j r k own = elim (Bool-cases (i == j)) [
  | inl same ↦
      some_elim
        (λ (x : ℕ × String).
          call_of (Dict.lookup x.1 (clients_in s p (add_client client (s.heap p)) x.0)) ≡ some j)
        (sym mine ∙ rw same at own)
        (ground (arith, Dict.lookup-insert id id client (s.heap p).clients, eq_refl id))
  | inr other ↦ elim (Bool-cases (p == r)) [
    | inl within ↦
        ground
          (arith, fresh j, v j r k, eq_iff id k, Dict.lookup-insert id k client (s.heap p).clients)
    | inr apart ↦ ground (arith, v j r k)
  ]
]
  where
    client : SessionClient
    client = record { id = id; conn_type = kind; call = i }

left-Listed :
    (s : System) (i p : ℕ) (id : String)
    → owner (s.pc i) ≡ some (p, id)
    → Listed s
    → (j r : ℕ) (k : String) → owner (update s.pc i gone j) ≡ some (r, k)
    → call_of (Dict.lookup k (clients_in s p (remove_client id (s.heap p)) r)) ≡ some j
unfolding remove_client
left-Listed s i p id mine v j r k own = elim (Bool-cases (i == j)) [
  | inl same ↦ none-ne (rw same at own)
  | inr other ↦ elim (Bool-cases (p == r)) [
    | inl within ↦
        ground
          (arith, v j r k, v i p id mine, eq_iff id k, Dict.lookup-erase id k (s.heap p).clients)
    | inr apart ↦ ground (arith, v j r k)
  ]
]

Move-Listed :
    (i : ℕ) {s t : System} {q : Pc} {choice : _}
    → s.pc i ≡ q
    → Move i s q choice t
    → IsFresh s t
    → Listed s
    → Listed t
unfolding append_history touch
Move-Listed i {s} {t} place (joins kind p id) fresh v =
    joined-Listed s i p id kind _ refl (λ j. fresh i j p id (ap owner place) (ground arith)) v
Move-Listed i {s} place (leaves c) fresh v = left-Listed s i c.session c.id (ap owner place) v
Move-Listed i {s} {t} place (asks kind code) fresh v =
    kept-Listed s t i _ (ap owner place ∙ sym (owner-entry_pc kind (find_session code s.handler)))
      (λ p. refl) v
Move-Listed i {s} {t} place (takes c r) fresh v =
    kept-Listed s t i _ (ap owner place ∙ sym (owner-read_pc c r)) (λ p. refl) v
Move-Listed i {s} {t} place (accepts kind p) fresh v =
    kept-Listed s t i _ (ap owner place) (λ p. refl) v
Move-Listed i {s} {t} place (refuses kind p) fresh v =
    kept-Listed s t i gone (ap owner place) (λ p. refl) v
Move-Listed i {s} {t} place (copies c) fresh v = kept-Listed s t i _ (ap owner place) (λ p. refl) v
Move-Listed i {s} {t} place (greets c es) fresh v =
    kept-Listed s t i _ (ap owner place) (λ p. refl) v
Move-Listed i {s} {t} place (misses c es) fresh v =
    kept-Listed s t i _ (ap owner place) (λ p. refl) v
Move-Listed i {s} {t} place (appends c e) fresh v =
    kept-Listed s t i _ (ap owner place) (λ p. ground arith) v
Move-Listed i {s} {t} place (sends c e room) fresh v =
    kept-Listed s t i _ (ap owner place) (λ p. ground arith) v
Move-Listed i {s} {t} place (touches c) fresh v =
    kept-Listed s t i _ (ap owner place) (λ p. ground arith) v

Turn-Listed :
    {s t : System} {a : Action} → Turn s a t → IsMade s → IsFresh s t → Listed s → Listed t
unfolding create_canvas
Turn-Listed {s} (makes code) made fresh v =
    λ j p id own. let lt = made j p (held-owner (s.pc j) p id own) in ground (arith, v j p id own)
Turn-Listed (moves i c m) made fresh v = Move-Listed i refl m fresh v
Turn-Listed {s} (delivers i r e rest written at_r front) made fresh v =
    λ j p id own. ground (arith, v j p id own)
Turn-Listed sweeps made fresh v = v
Turn-Listed (waits d) made fresh v = v

start-Listed : (kinds : ℕ → ConnType) → Listed (start kinds)
unfolding start
start-Listed kinds i p id own = none-ne own

-- While the random ids do not collide, every call that has joined a session and not left it stands
-- among the clients of the session, under its id.
pub FreshReach-Listed : (kinds : ℕ → ConnType) {s : System} → FreshReach kinds s → Listed s
FreshReach-Listed kinds here = start-Listed kinds
FreshReach-Listed kinds (next r a fresh e) =
    Turn-Listed (step-Turn a _ _ e) (Reach-IsMade kinds (FreshReach-Reach kinds r)) fresh
      (FreshReach-Listed kinds r)
