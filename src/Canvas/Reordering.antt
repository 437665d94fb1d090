-- ===== src/Canvas/Reordering.antt =====
-- canvaservice/handler/handler.go, `processSessionDrawEvent`: the history is locked while an event is
-- added to it, and nothing is locked from there to the channel.
use fawa.Common.{
  ℕ, ◌+◌, ◌≤◌, ◌≡◌, ◌≢◌, ap, String, ◌∙◌, List, [], ◌∷◌, ◌++◌, append_assoc, some, arith, length,
  length-append,
}
use fawa.Canvas.{ConnType, CanvasSession, DrawEvent, broadcast_capacity, append_history}
use fawa.Canvas.System.{
  System, Conn, adding, sending, goes_on, Action, serves, at_pc, at_session, run,
}
use fawa.Canvas.Steps.{run-cons, adding_step, sending_step, with_sent}

-- The first call adds its event, then the second one adds its own and sends it, then the first sends.
abbrev pub overtakes : ℕ → ℕ → List Action
overtakes i j = serves i goes_on ∷ serves j goes_on ∷ serves j goes_on ∷ serves i goes_on ∷ []

abbrev added : ℕ → Conn → DrawEvent → System → System
added i c e s = at_pc i (sending c e) (at_session c.session (append_history e) s)

-- What the two steps do to the session and to where the calls stand.
module _ (s : System) (i : ℕ) (c : Conn) (e : DrawEvent) where
  added_parts :
      ((added i c e s).heap c.session ≡ append_history e (s.heap c.session))
      × ((added i c e s).pc i ≡ sending c e)
  added_parts = (ground arith, ground arith)

  sent_parts :
      (((with_sent i c e s).heap c.session).history ≡ (s.heap c.session).history)
      × (((with_sent i c e s).heap c.session).broadcast ≡ (s.heap c.session).broadcast ++ e ∷ [])
  sent_parts = (ground arith, ground arith)

  added-history : ((added i c e s).heap c.session).history ≡ (s.heap c.session).history ++ e ∷ []
  unfolding append_history
  added-history = ap (λ (q : CanvasSession). q.history) added_parts.0

  added-broadcast : ((added i c e s).heap c.session).broadcast ≡ (s.heap c.session).broadcast
  unfolding append_history
  added-broadcast = ap (λ (q : CanvasSession). q.broadcast) added_parts.0

  added-other : (j : ℕ) → i ≢ j → (added i c e s).pc j ≡ s.pc j
  added-other j apart = ground arith

  sent-other : (j : ℕ) → i ≢ j → (with_sent i c e s).pc j ≡ s.pc j
  sent-other j apart = ground arith

-- Where two calls of one session are each about to add an event, and the channel has room for both, the
-- calls can take turns so that the history has the events in one order and the channel in the other: who
-- joins later is told another order than those who watch.
pub overtakes-reorders :
    (s : System) (i j p : ℕ) (k l : ConnType) (a b : String) (e f : DrawEvent)
    → i ≢ j
    → s.pc i ≡ adding (record { conn_type = k; session = p; id = a }) e
    → s.pc j ≡ adding (record { conn_type = l; session = p; id = b }) f
    → length (s.heap p).broadcast + 2 ≤ broadcast_capacity
    → (t : System) × (run (overtakes i j) s ≡ some t)
      × ((t.heap p).history ≡ (s.heap p).history ++ e ∷ f ∷ [])
      × ((t.heap p).broadcast ≡ (s.heap p).broadcast ++ f ∷ e ∷ [])
unfolding run
overtakes-reorders s i j p k l a b e f apart at_i at_j room =
    let c : Conn = record { conn_type = k; session = p; id = a } in
    let d : Conn = record { conn_type = l; session = p; id = b } in
    let w = added i c e s in
    let x = added j d f w in
    let y = with_sent j d f x in
    let t = with_sent i c e y in
    let apart' : j ≢ i = omega arith in
    let x_chan = added-broadcast w j d f ∙ added-broadcast s i c e in
    let y_chan = (sent_parts x j d f).1 ∙ ap (λ q. q ++ f ∷ []) x_chan in
    let y_at =
      sent-other x j d f i apart' ∙ (added-other w j d f i apart' ∙ (added_parts s i c e).1) in
    (
      t,
      run-cons (serves i goes_on) (serves j goes_on ∷ serves j goes_on ∷ serves i goes_on ∷ []) s w
            (adding_step s i c e at_i)
          ∙ (run-cons (serves j goes_on) (serves j goes_on ∷ serves i goes_on ∷ []) w x
                (adding_step w j d f (added-other s i c e j apart ∙ at_j))
              ∙ (run-cons (serves j goes_on) (serves i goes_on ∷ []) x y
                    (sending_step x j d f (added_parts w j d f).1 (omega (arith, ap length x_chan)))
                  ∙ run-cons (serves i goes_on) [] y t (
                      sending_step y i c e y_at (
                        omega (
                          arith,
                          ap length y_chan,
                          length-append (s.heap p).broadcast (f ∷ []),
                        ))))),
      (sent_parts y i c e).0
          ∙ ((sent_parts x j d f).0
              ∙ (added-history w j d f
                  ∙ (ap (λ h. h ++ f ∷ []) (added-history s i c e)
                      ∙ append_assoc (s.heap p).history (e ∷ []) (f ∷ [])))),
      (sent_parts y i c e).1
          ∙ (ap (λ q. q ++ e ∷ []) y_chan ∙ append_assoc (s.heap p).broadcast (f ∷ []) (e ∷ [])),
    )
