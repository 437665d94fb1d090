-- ===== src/Canvax/Broadcast.antt =====
-- canvaxservice/handler/handler.go: what a registered client is sent.
use fawa.Common.{
  Option, false, true, ◌≢◌, ◌==◌, Bool-cases, inl, inr, update, ℕ, String, eq_iff, ◌≡◌, refl, sym,
  ap, ◌∙◌, List, [], ◌∷◌, ◌++◌, none, some, arith, none-ne, All, append_assoc, append-nil,
}
use fawa.Common.Dict
use fawa.Common.Dict.{Dict, NodupKeys}
use fawa.Canvax.{
  DrawEvent, ClientDrawResponse, draw_event, initial_history, Client, broadcast_to_clients,
  register_client, unregister_client, clear_history, add_to_history,
}
use fawa.Canvax.System.{
  Hand, idle, held, looping, deliver, System, Pc, for_stream, Action, collaborate, step,
}
use fawa.Canvax.Turns.{
  Move, enters, copies, greets, fails, ends, takes, adds, sends, clears, leaves, enqueues, Turn,
  moves, picks, locks, tells, unlocks, stops, closes, step-Turn,
}
use fawa.Canvax.Invariant.{owner, Owned, Inv, Turn-Inv}

-- The draw events among the messages of a stream.
abbrev pub draws : List ClientDrawResponse → List DrawEvent
draws [] = []
draws (draw_event e ∷ rs) = e ∷ draws rs
draws (initial_history es ∷ rs) = draws rs

pub draws-append : (xs ys : List ClientDrawResponse) → draws (xs ++ ys) ≡ draws xs ++ draws ys
draws-append [] ys = refl
draws-append (draw_event e ∷ xs) ys = ap (◌∷◌ e) (draws-append xs ys)
draws-append (initial_history es ∷ xs) ys = draws-append xs ys

-- The entry that call `i` made for itself.
abbrev pub entry : String → ℕ → Client
entry id i = record { id = id; stream = i }

-- No message goes to a stream whose call is registered under none of the keys.
pub for_stream-missing :
    (pc : ℕ → Pc) (e : DrawEvent) (i : ℕ) (id : String) (m : Dict Client)
    → owner (pc i) ≡ some id
    → Dict.lookup id m ≡ none
    → All (Owned pc) m
    → for_stream i (broadcast_to_clients e m) ≡ []
unfolding broadcast_to_clients for_stream Dict.lookup
for_stream-missing pc e i id [] own miss h = refl
for_stream-missing pc e i id ((k, cl) ∷ m) own miss h =
    ground (arith, eq_iff k id, for_stream-missing pc e i id m own)

-- A registered stream gets the event exactly once.
pub for_stream-registered :
    (pc : ℕ → Pc) (e : DrawEvent) (i : ℕ) (id : String) (m : Dict Client)
    → owner (pc i) ≡ some id
    → Dict.lookup id m ≡ some (entry id i)
    → NodupKeys m
    → All (Owned pc) m
    → for_stream i (broadcast_to_clients e m) ≡ draw_event e ∷ []
unfolding broadcast_to_clients for_stream Dict.lookup
for_stream-registered pc e i id [] own found u h = none-ne found
for_stream-registered pc e i id ((k, cl) ∷ m) own found u h =
    ground (
      arith,
      eq_iff k id,
      for_stream-missing pc e i id m own,
      for_stream-registered pc e i id m own,
    )

-- What a step puts into the channel.
abbrev pub enqueued : Action → System → List DrawEvent
enqueued (collaborate i c) s = enqueues (s.pc i)
enqueued _ s = []

-- What the broadcasting goroutine has still to send to stream `i`.
abbrev pub pending : ℕ → Hand → List DrawEvent
pending i idle = []
pending i (held event) = event ∷ []
pending i (looping due) = draws (for_stream i due)

-- What stream `i` was sent, then what the broadcasting goroutine has still to send to it, then what waits
-- in the channel.
abbrev pub line : ℕ → System → List DrawEvent
line i s = draws (s.sent i) ++ (pending i s.hand ++ s.broadcast)

-- The stream to which a send fails in a step, if one does.
abbrev failing : Hand → Option ℕ
failing (looping ((j, r) ∷ due)) = some j
failing _ = none

abbrev pub fails_to : Action → System → Option ℕ
fails_to (deliver false) s = failing s.hand
fails_to _ s = none

Move-line : (i j : ℕ) {s t : System} {p : Pc} → Move j s p t → line i t ≡ line i s ++ enqueues p
unfolding add_to_history register_client clear_history unregister_client
Move-line i j {s} (sends id e room) =
    ap (λ l. draws (s.sent i) ++ l) (sym (append_assoc (pending i s.hand) s.broadcast (e ∷ [])))
    ∙ sym (append_assoc (draws (s.sent i)) (pending i s.hand ++ s.broadcast) (e ∷ []))
Move-line i j {s} (greets id es) = ground (
  arith,
  append-nil (line i s),
  draws-append (s.sent i) (initial_history es ∷ []),
  append-nil (draws (s.sent i)),
)
Move-line i j {s} (enters id unlocked) = sym (append-nil (line i s))
Move-line i j {s} (copies id) = sym (append-nil (line i s))
Move-line i j {s} (fails id e es) = sym (append-nil (line i s))
Move-line i j {s} (ends id e) = sym (append-nil (line i s))
Move-line i j {s} (takes id r) = sym (append-nil (line i s))
Move-line i j {s} (adds id e) = sym (append-nil (line i s))
Move-line i j {s} (clears id e) = sym (append-nil (line i s))
Move-line i j {s} (leaves id o) = sym (append-nil (line i s))

-- A send that goes through moves its message from what is due to what was sent.
told-line :
    (i j : ℕ) (s : System) (r : ClientDrawResponse) (due : List (ℕ × ClientDrawResponse))
    → s.hand ≡ looping ((j, r) ∷ due)
    → draws (update s.sent j (s.sent j ++ r ∷ []) i) ++ (draws (for_stream i due) ++ s.broadcast)
      ≡ line i s ++ []
unfolding for_stream
told-line i j s r due at = elim (Bool-cases (j == i)) [
  | inl same ↦
      let here : j ≡ i = ground arith in
      rw (at, same, append-nil)
        (ap (λ k. draws (s.sent k ++ r ∷ []) ++ (draws (for_stream i due) ++ s.broadcast)) here
          ∙ (ap (λ l. l ++ (draws (for_stream i due) ++ s.broadcast))
                (draws-append (s.sent i) (r ∷ []))
              ∙ (append_assoc (draws (s.sent i)) (draws (r ∷ []))
                    (draws (for_stream i due) ++ s.broadcast)
                  ∙ ap (λ l. draws (s.sent i) ++ l)
                      (sym (append_assoc (draws (r ∷ [])) (draws (for_stream i due)) s.broadcast)
                        ∙ ap (λ l. l ++ s.broadcast)
                            (sym (draws-append (r ∷ []) (for_stream i due)))))))
  | inr other ↦ rw (at, other, append-nil) refl
]

-- One that fails is none to stream `i`.
missed-line :
    (i j : ℕ) (s : System) (r : ClientDrawResponse) (due : List (ℕ × ClientDrawResponse))
    → s.hand ≡ looping ((j, r) ∷ due)
    → failing s.hand ≢ some i
    → draws (s.sent i) ++ (draws (for_stream i due) ++ s.broadcast) ≡ line i s ++ []
unfolding for_stream
missed-line i j s r due at goes = elim (Bool-cases (j == i)) [
  | inl same ↦
      let here : j ≡ i = ground arith in absurd (goes (ap failing at ∙ ap (λ k. some k) here))
  | inr other ↦ rw (at, other, append-nil) refl
]

-- While call `i` stands in the client map and no send to it fails, a step adds to what it was sent and what
-- is on its way to it exactly the event that the step puts into the channel.
Turn-line :
    (i : ℕ) (id : String) {s t : System} {a : Action}
    → Inv s
    → Dict.lookup id s.clients ≡ some (entry id i)
    → fails_to a s ≢ some i
    → Turn s a t
    → line i t ≡ line i s ++ enqueued a s
unfolding for_stream
Turn-line i id v found goes (moves j c m) = Move-line i j m
Turn-line i id {s} v found goes (picks b e rest at front on) = rw (at, front, append-nil) refl
Turn-line i id {s} v found goes (locks b e at) =
    let own = Dict.lookup-All (Owned s.pc) id (entry id i) s.clients v.owned found in
    let once = for_stream-registered s.pc e i id s.clients own found v.unique v.owned in
    rw (once, at, append-nil) refl
Turn-line i id {s} v found goes (tells true j r due at) = told-line i j s r due at
Turn-line i id {s} v found goes (tells false j r due at) = missed-line i j s r due at goes
Turn-line i id {s} v found goes (unlocks b at) = rw (at, append-nil) refl
Turn-line i id {s} v found goes (stops d on) = sym (append-nil (line i s))
Turn-line i id {s} v found goes (closes d) = sym (append-nil (line i s))

-- A run in which call `i` stands in the client map before every step and no send to it fails, with the
-- events that the run puts into the channel.
pub data Connected (i : ℕ) (id : String) (s : System) : System → List DrawEvent → Type 0 where
  here : Connected i id s s []
  next :
      {t u : System} {es : List DrawEvent}
      → Connected i id s t es
      → (a : Action) → Dict.lookup id t.clients ≡ some (entry id i)
      → fails_to a t ≢ some i
      → step a t ≡ some u
      → Connected i id s u (es ++ enqueued a t)

Connected-Inv :
    {i : ℕ} {id : String} {s t : System} {es : List DrawEvent}
    → Connected i id s t es
    → Inv s
    → Inv t
Connected-Inv here v = v
Connected-Inv (next c a found goes e) v = Turn-Inv (step-Turn a _ _ e) (Connected-Inv c v)

-- Over any run in which a call stays in the client map and no send to it fails, the draw events that it
-- was sent, followed by those that the broadcasting goroutine has received and still to send to it, and
-- by what waits in the channel, are those of the start with every event behind them that the run put
-- into the channel: nothing is lost, doubled or reordered.
pub Connected-line :
    (i : ℕ) (id : String) {s t : System} {es : List DrawEvent}
    → Inv s
    → Connected i id s t es
    → line i t ≡ line i s ++ es
Connected-line i id {s} v here = sym (append-nil (line i s))
Connected-line i id {s} v (next {t = t} {es = es} c a found goes e) =
    Turn-line i id (Connected-Inv c v) found goes (step-Turn a _ _ e)
    ∙ (ap (λ l. l ++ enqueued a t) (Connected-line i id v c)
        ∙ append_assoc (line i s) es (enqueued a t))
