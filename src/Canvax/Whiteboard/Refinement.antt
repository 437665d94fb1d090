-- ===== src/Canvax/Whiteboard/Refinement.antt =====
-- canvaxservice/handler/handler.go implements the board: each step of a goroutine is the deed that belongs
-- to its action.
use fawa.Common.{
  subst, ℕ, ◌≡◌, ◌≢◌, refl, sym, ap, ◌∙◌, true, false, List, [], ◌∷◌, ◌++◌, append_assoc, arith,
  All, update,
}
use fawa.Common.Dict.{Dict}
use fawa.Canvax.{
  DrawEvent, ClientDrawResponse, draw_event, Client, new_canva_service_handler,
  broadcast_to_clients, register_client, unregister_client, clear_history, add_to_history,
}
use fawa.Canvax.System.{
  Hand, idle, held, looping, is_locked, System, Pc, returned, start, Action, shut_down, for_stream,
  Reach,
}
use fawa.Canvax.Turns.{
  Move, enters, copies, greets, fails, ends, takes, adds, sends, clears, leaves, Turn, moves, picks,
  locks, tells, unlocks, stops, closes, step-Turn,
}
use fawa.Canvax.Invariant.{owner, Inv, Reach-Inv, owner-handle, owner-after_send}
use fawa.Canvax.Broadcast.{draws, draws-append, pending}
use fawa.Canvax.Registration.{FreshReach, Registered, FreshReach-Registered}
use fawa.Canvax.Whiteboard.{Deed, Happens, Behaves}
use fawa.Canvax.Whiteboard.View.{
  live, in_hand, board, deed_at, deed_of_hand, deed_of, for_stream-live, live-update, enters-live,
  leaves-live, greets-draws,
}

-- All that a broadcast sends are draw events.
abbrev IsDraw : ℕ × ClientDrawResponse → Type 0
IsDraw (j, r) = (e : DrawEvent) × (r ≡ draw_event e)

abbrev AllDraws : Hand → Type 0
AllDraws (looping due) = All IsDraw due
AllDraws _ = Unit {0}

broadcast-AllDraws : (e : DrawEvent) (m : Dict Client) → All IsDraw (broadcast_to_clients e m)
unfolding broadcast_to_clients
broadcast-AllDraws e [] = tt
broadcast-AllDraws e ((k, cl) ∷ m) = ((e, refl), broadcast-AllDraws e m)

Move-hand : (i : ℕ) {s t : System} {p : Pc} → Move i s p t → t.hand ≡ s.hand
Move-hand i (enters id unlocked) = refl
Move-hand i _ = refl

Turn-AllDraws : {s t : System} {a : Action} → Turn s a t → AllDraws s.hand → AllDraws t.hand
Turn-AllDraws (moves i c m) h = subst AllDraws (sym (Move-hand i m)) h
Turn-AllDraws (picks b e queue at front on) h = tt
Turn-AllDraws {s} (locks b e at) h = broadcast-AllDraws e s.clients
Turn-AllDraws (tells b j r due at) h = (subst AllDraws at h).1
Turn-AllDraws (unlocks b at) h = tt
Turn-AllDraws (stops d on) h = h
Turn-AllDraws (closes d) h = h

start-AllDraws : AllDraws start.hand
unfolding start
start-AllDraws = tt

Reach-AllDraws : {s : System} → Reach start s → AllDraws s.hand
Reach-AllDraws Reach.here = start-AllDraws
Reach-AllDraws (Reach.next r a e) = Turn-AllDraws (step-Turn a _ _ e) (Reach-AllDraws r)

open_pending : (i : ℕ) (h : Hand) → is_locked h ≡ false → pending i h ≡ in_hand h
open_pending i idle open' = refl
open_pending i (held e) open' = refl
open_pending i (looping due) open' = cc

Move-Happens :
    (i : ℕ) {s t : System} {p : Pc}
    → s.pc i ≡ p
    → Move i s p t
    → Happens (board s) (board t) (deed_at i p)
unfolding register_client unregister_client clear_history add_to_history
Move-Happens i {s} at (enters id unlocked) =
    Happens.joins i (ap live at) (ap (λ l. l ++ s.broadcast) (open_pending i s.hand unlocked)) refl
      (λ j apart. refl) (λ j. refl) (enters-live s i id)
Move-Happens i {s} at (copies id) =
    Happens.rests refl (λ j. refl) (λ j. refl) (live-update s i _ (ap owner at))
Move-Happens i {s} at (greets id es) =
    Happens.rests refl (λ j. refl) (greets-draws s i es) (live-update s i _ (ap owner at))
Move-Happens i {s} at (fails id x es) =
    Happens.rests refl (λ j. refl) (λ j. refl) (live-update s i _ (ap owner at))
Move-Happens i {s} at (ends id x) =
    Happens.rests refl (λ j. refl) (λ j. refl) (live-update s i _ (ap owner at))
Move-Happens i {s} at (takes id r) =
    Happens.rests refl (λ j. refl) (λ j. refl)
      (live-update s i _ (ap owner at ∙ sym (owner-handle id r)))
Move-Happens i {s} at (adds id e) =
    Happens.rests refl (λ j. refl) (λ j. refl) (live-update s i _ (ap owner at))
Move-Happens i {s} at (sends id e room) =
    Happens.posts e (sym (append_assoc (in_hand s.hand) s.broadcast (e ∷ [])))
      (λ j. sym (append_assoc (pending j s.hand) s.broadcast (e ∷ []))) (λ j. refl)
      (live-update s i _ (ap owner at ∙ sym (owner-after_send id e)))
Move-Happens i {s} at (clears id e) =
    Happens.rests refl (λ j. refl) (λ j. refl) (live-update s i _ (ap owner at))
Move-Happens i {s} at (leaves id o) =
    Happens.leaves i (ap live at) refl (λ j. refl) (λ j. refl)
      (λ j. leaves-live s i (returned o) j refl)

other_due :
    (j i : ℕ) (r : ClientDrawResponse) (due : List (ℕ × ClientDrawResponse))
    → j ≢ i
    → for_stream i ((j, r) ∷ due) ≡ for_stream i due
unfolding for_stream
other_due j i r due apart = ground arith

own_due :
    (j : ℕ) (r : ClientDrawResponse) (due : List (ℕ × ClientDrawResponse))
    → for_stream j ((j, r) ∷ due) ≡ r ∷ for_stream j due
unfolding for_stream
own_due j r due = ground arith

-- What lies in the boxes before and after a send to stream `j`.
front_box :
    (s : System) (j : ℕ) (r : ClientDrawResponse) (e : DrawEvent)
    (due : List (ℕ × ClientDrawResponse))
    → s.hand ≡ looping ((j, r) ∷ due)
    → r ≡ draw_event e
    → (board s).box j ≡ e ∷ (draws (for_stream j due) ++ s.broadcast)
front_box s j r e due at same =
    ap (λ h. pending j h ++ s.broadcast) at
    ∙ (ap (λ l. draws l ++ s.broadcast) (own_due j r due)
        ∙ ap (λ x. draws (x ∷ for_stream j due) ++ s.broadcast) same)

other_box :
    (s : System) (j i : ℕ) (r : ClientDrawResponse) (due : List (ℕ × ClientDrawResponse))
    → s.hand ≡ looping ((j, r) ∷ due)
    → j ≢ i
    → draws (for_stream i due) ++ s.broadcast ≡ (board s).box i
other_box s j i r due at apart = sym (
    ap (λ h. pending i h ++ s.broadcast) at
    ∙ ap (λ l. draws l ++ s.broadcast) (other_due j i r due apart))

update_own :
    (f : ℕ → List ClientDrawResponse) (j : ℕ) (l : List ClientDrawResponse) → update f j l j ≡ l
update_own f j l = ground arith

shown_feed :
    (f : ℕ → List ClientDrawResponse) (j : ℕ) (r : ClientDrawResponse) (e : DrawEvent)
    → r ≡ draw_event e
    → draws (update f j (f j ++ r ∷ []) j) ≡ draws (f j) ++ e ∷ []
shown_feed f j r e same =
    ap draws (update_own f j (f j ++ r ∷ []))
    ∙ (draws-append (f j) (r ∷ []) ∙ ap (λ x. draws (f j) ++ draws (x ∷ [])) same)

Turn-Happens :
    {s t : System} {a : Action}
    → Inv s
    → Registered s
    → AllDraws s.hand
    → Turn s a t
    → a ≢ shut_down
    → Happens (board s) (board t) (deed_of a s)
unfolding for_stream
Turn-Happens v reg drawn (moves i c m) open' = Move-Happens i refl m
Turn-Happens {s} v reg drawn (picks b e queue at front on) open' =
    rw (at, deed_of_hand) (Happens.rests (sym front) (λ i. sym front) (λ i. refl) (λ i. refl))
Turn-Happens {s} v reg drawn (locks b e at) open' =
    rw (at, deed_of_hand)
      (Happens.gives_out e refl
        (λ i on. ap (λ l. l ++ s.broadcast) (for_stream-live s e i v reg on)) (λ i. refl)
        (λ i. refl))
Turn-Happens {s} {t} v reg drawn (tells true j r due at) open' =
    let ((e, same), others) = subst AllDraws at drawn in
    subst (λ h. Happens (board s) (board t) (deed_of_hand true h)) (sym at)
      (Happens.shows j e (front_box s j r e due at same) (shown_feed s.sent j r e same)
        (ap (λ h. in_hand h ++ s.broadcast) (sym at)) (λ i apart. other_box s j i r due at apart)
        (λ i apart. ground arith) (λ i. refl))
Turn-Happens {s} {t} v reg drawn (tells false j r due at) open' =
    let ((e, same), others) = subst AllDraws at drawn in
    subst (λ h. Happens (board s) (board t) (deed_of_hand false h)) (sym at)
      (Happens.misses j e (front_box s j r e due at same)
        (ap (λ h. in_hand h ++ s.broadcast) (sym at)) (λ i apart. other_box s j i r due at apart)
        (λ i. refl) (λ i. refl))
Turn-Happens {s} v reg drawn (unlocks true at) open' =
    rw (at, deed_of_hand) (Happens.rests refl (λ i. refl) (λ i. refl) (λ i. refl))
Turn-Happens {s} v reg drawn (unlocks false at) open' =
    rw (at, deed_of_hand) (Happens.rests refl (λ i. refl) (λ i. refl) (λ i. refl))
Turn-Happens v reg drawn (stops d on) open' = Happens.rests refl (λ i. refl) (λ i. refl) (λ i. refl)
Turn-Happens v reg drawn (closes d) open' = absurd (open' refl)

FreshReach-Reach : {s : System} → FreshReach s → Reach start s
FreshReach-Reach FreshReach.here = Reach.here
FreshReach-Reach (FreshReach.next r a o fresh e) = Reach.next (FreshReach-Reach r) a e

-- What was done in a run, the latest first.
abbrev pub deeds : {s : System} → FreshReach s → List Deed
deeds FreshReach.here = []
deeds (FreshReach.next {t} r a o fresh e) = deed_of a t ∷ deeds r

-- While `Close` is not called and the random ids do not collide, each step of a run is, seen without ids,
-- maps, locks and places in the code, the deed of the abstract board that belongs to its action: a call
-- that registers joins; an event that is put into the channel is posted at the end of each box; the event
-- that a broadcast begins with leaves what one who joins would find, and stays in the box of each member;
-- a send shows its receiver what lies in front in the box, or that is missed if the send fails; a call
-- that unregisters leaves; and no other step changes a box or what a call was shown.
pub FreshReach-Behaves : {s : System} (r : FreshReach s) → Behaves (deeds r) (board s)
unfolding start new_canva_service_handler
FreshReach-Behaves FreshReach.here = Behaves.opens refl (λ i. refl) (λ i. refl)
FreshReach-Behaves (FreshReach.next {t} r a o fresh e) = Behaves.goes_on (FreshReach-Behaves r) (
    Turn-Happens (Reach-Inv (FreshReach-Reach r)) (FreshReach-Registered r)
      (Reach-AllDraws (FreshReach-Reach r)) (step-Turn a t _ e) o)
