-- ===== src/Canvax/Joining/Complete.antt =====
-- canvaxservice/handler/handler.go: the steps of the calls, and the history that they leave.
use fawa.Common.{
  ℕ, String, ◌≡◌, refl, sym, ap, ◌∙◌, subst, inl, inr, List, [], ◌∷◌, ◌++◌, arith, In,
  In-append_left, In-append_right, In-append-cases, append-nil, Bool-cases, ◌==◌, update,
}
use fawa.Canvax.{DrawEvent, trim, add_to_history, register_client, unregister_client, clear_history}
use fawa.Canvax.System.{
  System, Pc, entered, registered, copied, receiving, adding, sending, clearing, leaving, Action,
}
use fawa.Canvax.Turns.{
  Move, enters, copies, greets, fails, ends, takes, adds, sends, clears, leaves, enqueues, Turn,
  moves, picks, locks, tells, unlocks, stops, closes, step-Turn,
}
use fawa.Canvax.Invariant.{Inv}
use fawa.Canvax.Broadcast.{enqueued, line, Connected, Connected-line, here, next}
use fawa.Canvax.Joining.{
  Accounted, Underway, Known, In-trim, moved-Accounted, update-same, Move-clearing,
}

-- After a step of call `j` each `clear` that is under way was under way before, or was just sent.
moved-Underway :
    (s t : System) (es : List DrawEvent) (j : ℕ) (p q : Pc) (u : System)
    → u.pc ≡ update t.pc j q
    → ((x : String) (e : DrawEvent) → u.pc j ≡ clearing x e → In e (enqueues p))
    → Underway s es t
    → Underway s (es ++ enqueues p) u
moved-Underway s t es j p q u pcs sent v k id e at = elim (Bool-cases (j == k)) [
  | inl same ↦ inl (In-append_right e es (enqueues p) (sent id e (ap u.pc (ground arith) ∙ at)))
  | inr other ↦
      let before : t.pc k ≡ clearing id e =
        sym (ap (λ (f : ℕ → Pc). f k) pcs ∙ rw (other, update) refl) ∙ at in
      elim (v k id e before) [
        | inl old ↦ inl (In-append_left e es (enqueues p) old)
        | inr first ↦ inr first
      ]
]

-- The history after a step of call `j`.
Move-Accounted :
    (s : System) (es : List DrawEvent) (j : ℕ) {t u : System} {p : Pc}
    → Move j t p u
    → t.pc j ≡ p
    → Known s es t
    → (e : DrawEvent) → In e u.history
    → Accounted s (es ++ enqueues p) u e
unfolding register_client unregister_client clear_history add_to_history
Move-Accounted s es j {t} {u} (enters id unlocked) place v e i =
    moved-Accounted s t es j entered _ u e place refl (v.accounted e i)
Move-Accounted s es j {t} {u} (copies id) place v e i =
    moved-Accounted s t es j (registered id) _ u e place refl (v.accounted e i)
Move-Accounted s es j {t} {u} (greets id events) place v e i =
    moved-Accounted s t es j (copied id events) _ u e place refl (v.accounted e i)
Move-Accounted s es j {t} {u} (fails id m events) place v e i =
    moved-Accounted s t es j (copied id events) _ u e place refl (v.accounted e i)
Move-Accounted s es j {t} {u} (ends id m) place v e i =
    moved-Accounted s t es j (receiving id) _ u e place refl (v.accounted e i)
Move-Accounted s es j {t} {u} (takes id r) place v e i =
    moved-Accounted s t es j (receiving id) _ u e place refl (v.accounted e i)
Move-Accounted s es j {t} {u} (sends id d room) place v e i =
    moved-Accounted s t es j (sending id d) _ u e place refl (v.accounted e i)
Move-Accounted s es j {t} {u} (leaves id o) place v e i =
    moved-Accounted s t es j (leaving id o) _ u e place refl (v.accounted e i)
Move-Accounted s es j {t} {u} (adds id d) place v e i =
    elim (In-append-cases e (trim t.history) (d ∷ []) i) [
      | inl old ↦
          moved-Accounted s t es j (adding id d) _ u e place refl
            (v.accounted e (In-trim e t.history old))
      | inr new ↦ elim new [
        | inl same ↦
            inr
              (inr (inl (j, (id, update-same t.pc j (sending id d) ∙ ap (sending id) (sym same)))))
        | inr nowhere ↦ elim nowhere [ ]
      ]
    ]
Move-Accounted s es j {t} {u} (clears id d) place v e i = elim i [
  | inl same ↦ elim (v.underway j id d place) [
    | inl old ↦ inr (inl (In-append_left e es [] (subst (λ x. In x es) (sym same) old)))
    | inr (k, (x, at)) ↦ inr (inr (inr (k, (x, at ∙ ap (clearing x) (sym same)))))
  ]
  | inr nowhere ↦ elim nowhere [ ]
]

Move-pc : (j : ℕ) {t u : System} {p : Pc} → Move j t p u → (q : Pc) × (u.pc ≡ update t.pc j q)
Move-pc j (enters id unlocked) = (_, refl)
Move-pc j (copies id) = (_, refl)
Move-pc j (greets id events) = (_, refl)
Move-pc j (fails id m events) = (_, refl)
Move-pc j (ends id m) = (_, refl)
Move-pc j (takes id r) = (_, refl)
Move-pc j (adds id d) = (_, refl)
Move-pc j (sends id d room) = (_, refl)
Move-pc j (clears id d) = (_, refl)
Move-pc j (leaves id o) = (_, refl)

Turn-Known :
    (s : System) (es : List DrawEvent) {t u : System} {a : Action}
    → Turn t a u
    → Known s es t
    → Known s (es ++ enqueued a t) u
Turn-Known s es {t} {u} (moves j c m) v =
    let (q, pcs) = Move-pc j m in
    record {
      accounted = Move-Accounted s es j m refl v;
      underway = moved-Underway s t es j (t.pc j) q u pcs (Move-clearing j m) v.underway;
    }
Turn-Known s es {t} {u} (picks b e rest at front on) v =
    subst (λ l. Known s l u) (sym (append-nil es))
      (record { accounted = v.accounted; underway = v.underway })
Turn-Known s es {t} {u} (locks b e at) v =
    subst (λ l. Known s l u) (sym (append-nil es))
      (record { accounted = v.accounted; underway = v.underway })
Turn-Known s es {t} {u} (tells b k r due at) v =
    subst (λ l. Known s l u) (sym (append-nil es))
      (record { accounted = v.accounted; underway = v.underway })
Turn-Known s es {t} {u} (unlocks b at) v =
    subst (λ l. Known s l u) (sym (append-nil es))
      (record { accounted = v.accounted; underway = v.underway })
Turn-Known s es {t} {u} (stops d on) v =
    subst (λ l. Known s l u) (sym (append-nil es))
      (record { accounted = v.accounted; underway = v.underway })
Turn-Known s es {t} {u} (closes d) v =
    subst (λ l. Known s l u) (sym (append-nil es))
      (record { accounted = v.accounted; underway = v.underway })

Connected-Known :
    (i : ℕ) (id : String) {s t : System} {es : List DrawEvent}
    → Connected i id s t es
    → Known s es t
Connected-Known i id here = record {
  accounted = λ e h. inl h;
  underway = λ j x e at. inr (j, (x, at));
}
Connected-Known i id {s} (next {es = es} c a found goes e) =
    Turn-Known s es (step-Turn a _ _ e) (Connected-Known i id c)

-- Over any run in which a call stays in the client map and no send to it fails, an event that stands in
-- the history at the end stood there at the start, or is one of those that the call was sent, that the
-- broadcasting goroutine has still to send to it or that wait in the channel, or is in the hands of a
-- call that has still to broadcast it, or is a `clear` that was about to purge the history at the start.
pub Connected-complete :
    (i : ℕ) (id : String) {s t : System} {es : List DrawEvent}
    → Inv s
    → Connected i id s t es
    → (e : DrawEvent) → In e t.history
    → Accounted s (line i t) t e
Connected-complete i id {s} {t} {es} v c e h = elim ((Connected-Known i id c).accounted e h) [
  | inl old ↦ inl old
  | inr (inl sent) ↦
      inr
        (inl (subst (In e) (sym (Connected-line i id v c)) (In-append_right e (line i s) es sent)))
  | inr (inr rest) ↦ inr (inr rest)
]
