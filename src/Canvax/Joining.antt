-- ===== src/Canvax/Joining.antt =====
-- canvaxservice/handler/handler.go: where an event of the history is found by a client that is connected.
-- An event goes into the history before it goes into the channel, and a `clear` purges the history after.
pub mod Complete
use fawa.Common.{
  ℕ, ◌/◌, String, str_eq, ◌≡◌, refl, sym, ap, ◌∙◌, subst, ◌⊎◌, inl, inr, List, [], ◌∷◌, ◌++◌, none,
  some, arith, In, In-append_left, In-append_right, In-append-cases, In-drop, append-nil,
  Bool-cases, ◌==◌, leb, length, update,
}
use fawa.Canvax.{
  DrawEvent, history_limit, trim, add_to_history, register_client, unregister_client, clear_history,
  copy_history,
}
use fawa.Canvax.System.{
  System, Received, message, end_of_stream, canceled, failed, Pc, entered, registered, copied, err,
  receiving, adding, sending, clearing, leaving, returned, handle, process, after_send, Action,
}
use fawa.Canvax.Turns.{
  Move, enters, copies, greets, fails, ends, takes, adds, sends, clears, leaves, enqueues, Turn,
  moves, picks, locks, tells, unlocks, stops, closes, step-Turn,
}
use fawa.Canvax.Invariant.{Inv}
use fawa.Canvax.Broadcast.{enqueued, line, Connected, Connected-line, here, next}

-- Where an event of the history of `t` is found, after a run from `s` that put the events `es` into the
-- channel: in the history of `s`, among those events, in the hands of a call that is about to send it,
-- or it is a `clear` that was under way in `s`.
abbrev pub Accounted : System → List DrawEvent → System → DrawEvent → Type 0
Accounted s es t e =
    In e s.history
    ⊎ (In e es
        ⊎ (((j : ℕ) × ((id : String) × (t.pc j ≡ sending id e)))
            ⊎ ((j : ℕ) × ((id : String) × (s.pc j ≡ clearing id e)))))

-- A `clear` that was broadcast and is about to purge the history.
abbrev Underway : System → List DrawEvent → System → Type 0
Underway s es t =
    (j : ℕ) (id : String) (e : DrawEvent)
    → t.pc j ≡ clearing id e
    → In e es ⊎ ((k : ℕ) × ((x : String) × (s.pc k ≡ clearing x e)))

In-trim : (e : DrawEvent) (h : List DrawEvent) → In e (trim h) → In e h
unfolding trim
In-trim e h i = elim (Bool-cases (leb history_limit (length h))) [
  | inl full ↦ In-drop e (length h / 2) h (rw full at i)
  | inr room ↦ rw room at i
]

-- After a step of call `j` its events are accounted for as before, or have gone into the channel.
moved-Accounted :
    (s t : System) (es : List DrawEvent) (j : ℕ) (p q : Pc) (u : System) (e : DrawEvent)
    → t.pc j ≡ p
    → u.pc ≡ update t.pc j q
    → Accounted s es t e
    → Accounted s (es ++ enqueues p) u e
moved-Accounted s t es j p q u e place pcs (inl old) = inl old
moved-Accounted s t es j p q u e place pcs (inr (inl sent)) =
    inr (inl (In-append_left e es (enqueues p) sent))
moved-Accounted s t es j p q u e place pcs (inr (inr (inl (k, (id, at))))) =
    elim (Bool-cases (j == k)) [
      | inl same ↦
          let here : p ≡ sending id e = sym place ∙ (ap t.pc (ground arith) ∙ at) in
          inr (inl (In-append_right e es (enqueues p) (rw here (inl refl))))
      | inr other ↦
          inr (inr (inl (k, (id, ap (λ (f : ℕ → Pc). f k) pcs ∙ (rw (other, update) at)))))
    ]
moved-Accounted s t es j p q u e place pcs (inr (inr (inr under))) = inr (inr (inr under))

handle-ne-clearing :
    {B : Type 0} (id x : String) (r : Received) (e : DrawEvent) → handle id r ≡ clearing x e → B
unfolding handle
handle-ne-clearing id x (message (some d)) e h = elim (Bool-cases (str_eq d.type "ping")) [
  | inl ping ↦ cc (rw (ping, process) at h)
  | inr other ↦ cc (rw (other, process) at h)
]
handle-ne-clearing id x (message none) e h = cc
handle-ne-clearing id x end_of_stream e h = cc
handle-ne-clearing id x canceled e h = cc
handle-ne-clearing id x (failed m) e h = cc

update-same : (f : ℕ → Pc) (j : ℕ) (p : Pc) → update f j p j ≡ p
update-same f j p = ground arith

-- A call comes to `clearing` only by sending the event that it then clears with.
Move-clearing :
    (j : ℕ) {t u : System} {p : Pc}
    → Move j t p u
    → (x : String) (e : DrawEvent) → u.pc j ≡ clearing x e
    → In e (enqueues p)
unfolding after_send
Move-clearing j {t} (enters id unlocked) x e h =
    let k : (registered id) ≡ clearing x e = sym (update-same t.pc j (registered id)) ∙ h in cc
Move-clearing j {t} (copies id) x e h =
    let k : (copied id (copy_history t.handler)) ≡ clearing x e =
      sym (update-same t.pc j (copied id (copy_history t.handler))) ∙ h in
    cc
Move-clearing j {t} (greets id es) x e h =
    let k : (receiving id) ≡ clearing x e = sym (update-same t.pc j (receiving id)) ∙ h in cc
Move-clearing j {t} (fails id m es) x e h =
    let k : (leaving id (err m)) ≡ clearing x e =
      sym (update-same t.pc j (leaving id (err m))) ∙ h in
    cc
Move-clearing j {t} (ends id m) x e h =
    let k : (leaving id (err m)) ≡ clearing x e =
      sym (update-same t.pc j (leaving id (err m))) ∙ h in
    cc
Move-clearing j {t} (takes id r) x e h =
    handle-ne-clearing id x r e (sym (update-same t.pc j (handle id r)) ∙ h)
Move-clearing j {t} (adds id d) x e h =
    let k : (sending id d) ≡ clearing x e = sym (update-same t.pc j (sending id d)) ∙ h in cc
Move-clearing j {t} (sends id d room) x e h =
    let k : after_send id d ≡ clearing x e = sym (update-same t.pc j (after_send id d)) ∙ h in
    elim (Bool-cases (str_eq d.type "clear")) [
      | inl clear ↦
          let k' : clearing id d ≡ clearing x e = rw (clear, after_send) at k in inl (cc k')
      | inr other ↦ let k' : receiving id ≡ clearing x e = rw (other, after_send) at k in cc
    ]
Move-clearing j {t} (clears id d) x e h =
    let k : (receiving id) ≡ clearing x e = sym (update-same t.pc j (receiving id)) ∙ h in cc
Move-clearing j {t} (leaves id o) x e h =
    let k : (returned o) ≡ clearing x e = sym (update-same t.pc j (returned o)) ∙ h in cc

-- Every event of the history is accounted for, and so is every `clear` that is under way.
record Known (s : System) (es : List DrawEvent) (t : System) : Type 0 where
  accounted : (e : DrawEvent) → In e t.history → Accounted s es t e
  underway : Underway s es t
