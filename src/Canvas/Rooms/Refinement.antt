-- ===== src/Canvas/Rooms/Refinement.antt =====
-- canvaservice/handler/handler.go keeps the rooms: each step of a goroutine is something that can happen
-- to them, or leaves them at rest.
use fawa.Common.{List, [], ◌∷◌, ℕ, ◌≡◌, refl, sym, ap, subst, ◌∙◌, ◌↔◌, some, update}
use fawa.Common.Dict
use fawa.Common.Dict.{Dict, NodupKeys}
use fawa.Canvas.{
  ConnType, CanvasSession, create_canvas, add_client, remove_client, append_history, touch,
  new_canvas_service_handler,
}
use fawa.Canvas.System.{
  System, Pc, arrived, found, upgraded, adding, touching, leaving, start, Action, creates, serves,
  writes, cleans, passes, Choice, with_code, upgrade,
}
use fawa.Canvas.Turns.{
  Move, asks, accepts, refuses, joins, copies, greets, misses, takes, appends, sends, touches,
  leaves, Turn, makes, moves, delivers, sweeps, waits, step-Turn,
}
use fawa.Canvas.Ownership.{IsConsistent}
use fawa.Canvas.Invariant.{Reach-IsConsistent}
use fawa.Canvas.Cleaner.{lookup-clean}
use fawa.Canvas.Registration.{Listed, FreshReach, FreshReach-Reach, FreshReach-Listed}
use fawa.Canvas.Rooms.{
  Place, Rooms, Agrees, Needed, Deed, rest, open_room, ask, be_let_in, enter, draw, note, leave,
  close_rooms, wait, Happens, Hosts,
}
use fawa.Canvas.Rooms.View.{place_of, rooms, seen, unseen, place-read_pc, place-find_session}
use fawa.Canvas.Rooms.Guests.{is_expired-Needed, swept}

-- What a call does in its next step.
abbrev deed_at : ℕ → Pc → Choice → Deed
deed_at i (arrived kind) (with_code code) = ask i code
deed_at i (found kind p) (upgrade through) = be_let_in i through
deed_at i (upgraded kind p) c = enter i
deed_at i (adding c event) x = draw i event
deed_at i (touching c) x = note i
deed_at i (leaving c) x = leave i
deed_at i _ _ = rest

-- What an action does: a call does what its place says, the cleaner closes rooms, a writer nothing
-- that is seen.
abbrev pub deed_of : Action → System → Deed
deed_of (creates code) s = open_room code
deed_of (serves i c) s = deed_at i (s.pc i) c
deed_of (writes i written) s = rest
deed_of cleans s = close_rooms
deed_of (passes d) s = wait d

-- A step that moves a call and changes no session.
stayed-Agrees :
    (s : System) (i : ℕ) (q : Pc)
    → place_of q ≡ place_of (s.pc i)
    → Agrees (rooms (record s { pc = update s.pc i q })) (rooms s)
stayed-Agrees s i q same = record {
  under = λ code. refl;
  place = unseen place_of s.pc i q same;
  history = λ p. refl;
  drawn = λ p. refl;
  opened = refl;
  clock = refl;
}

moved-Agrees :
    (s : System) (i : ℕ) (q : Pc) (a : Place)
    → place_of q ≡ a
    → Agrees
        (rooms (record s { pc = update s.pc i q }))
        (record (rooms s) { place = update (rooms s).place i a })
moved-Agrees s i q a same = record {
  under = λ code. refl;
  place = λ j. seen place_of s.pc i q j ∙ ap (λ x. update (rooms s).place i x j) same;
  history = λ p. refl;
  drawn = λ p. refl;
  opened = refl;
  clock = refl;
}

-- A step that moves a call, and changes neither the history nor the time of a session.
kept-Agrees :
    (s : System) (i : ℕ) (q : Pc) (p : ℕ) (new : CanvasSession) (d : Rooms)
    → new.history ≡ (s.heap p).history
    → new.last_active ≡ (s.heap p).last_active
    → Agrees (rooms (record s { pc = update s.pc i q })) d
    → Agrees
        (rooms (record s {
          handler = record s.handler { heap = update s.heap p new };
          pc = update s.pc i q;
        }))
        d
kept-Agrees s i q p new d h l a = record {
  under = a.under;
  place = a.place;
  history = λ r. unseen (λ (x : CanvasSession). x.history) s.heap p new h r ∙ a.history r;
  drawn = λ r. unseen (λ (x : CanvasSession). x.last_active) s.heap p new l r ∙ a.drawn r;
  opened = a.opened;
  clock = a.clock;
}

Move-Happens :
    (i : ℕ) {s t : System} {q : Pc} {choice : Choice}
    → s.pc i ≡ q
    → Move i s q choice t
    → Happens (rooms s) (rooms t) (deed_at i q choice)
unfolding append_history touch add_client remove_client
Move-Happens i {s} at (asks kind code) =
    Happens.asks i code (ap place_of at) (moved-Agrees s i _ _ (place-find_session kind code s))
Move-Happens i {s} at (accepts kind p) =
    Happens.lets_in i p (ap place_of at) (stayed-Agrees s i _ (sym (ap place_of at)))
Move-Happens i {s} at (refuses kind p) =
    Happens.turns_away i p (ap place_of at) (moved-Agrees s i _ _ refl)
Move-Happens i {s} at (joins kind p id) =
    Happens.enters i p (ap place_of at)
      (kept-Agrees s i _ p _ _ refl refl (moved-Agrees s i _ _ refl))
Move-Happens i {s} at (copies c) = Happens.rests (stayed-Agrees s i _ (sym (ap place_of at)))
Move-Happens i {s} at (greets c es) = Happens.rests (stayed-Agrees s i _ (sym (ap place_of at)))
Move-Happens i {s} at (misses c es) = Happens.rests (stayed-Agrees s i _ (sym (ap place_of at)))
Move-Happens i {s} at (takes c r) =
    Happens.rests (stayed-Agrees s i _ (place-read_pc c r ∙ sym (ap place_of at)))
Move-Happens i {s} at (appends c e) = Happens.draws i c.session e (ap place_of at) (record {
  under = λ code. refl;
  place = unseen place_of s.pc i _ (sym (ap place_of at));
  history = seen (λ (x : CanvasSession). x.history) s.heap c.session _;
  drawn = unseen (λ (x : CanvasSession). x.last_active) s.heap c.session _ refl;
  opened = refl;
  clock = refl;
})
Move-Happens i {s} at (sends c e room) =
    Happens.rests
      (kept-Agrees s i _ c.session _ _ refl refl (stayed-Agrees s i _ (sym (ap place_of at))))
Move-Happens i {s} at (touches c) = Happens.notes i c.session (ap place_of at) (record {
  under = λ code. refl;
  place = unseen place_of s.pc i _ (sym (ap place_of at));
  history = unseen (λ (x : CanvasSession). x.history) s.heap c.session _ refl;
  drawn = seen (λ (x : CanvasSession). x.last_active) s.heap c.session _;
  opened = refl;
  clock = refl;
})
Move-Happens i {s} at (leaves c) =
    Happens.leaves i c.session (ap place_of at)
      (kept-Agrees s i _ c.session _ _ refl refl (moved-Agrees s i _ _ refl))

Turn-Happens :
    {s t : System} {a : Action}
    → Turn s a t
    → IsConsistent s
    → Listed s
    → Happens (rooms s) (rooms t) (deed_of a s)
unfolding create_canvas
Turn-Happens {s} (makes code) v listed = Happens.opens code (record {
  under = λ x. Dict.lookup-insert code x s.allocated s.sessions;
  place = λ i. refl;
  history = seen (λ (x : CanvasSession). x.history) s.heap s.allocated _;
  drawn = seen (λ (x : CanvasSession). x.last_active) s.heap s.allocated _;
  opened = refl;
  clock = refl;
})
Turn-Happens (moves i c m) v listed = Move-Happens i refl m
Turn-Happens {s} (delivers i p e queue written at_p front) v listed = Happens.rests (record {
  under = λ code. refl;
  place = λ j. refl;
  history = unseen (λ (x : CanvasSession). x.history) s.heap p _ refl;
  drawn = unseen (λ (x : CanvasSession). x.last_active) s.heap p _ refl;
  opened = refl;
  clock = refl;
})
Turn-Happens {s} sweeps v listed =
    Happens.closes
      (λ code p.
        subst (λ o. (o ≡ some p) ↔ ((Dict.lookup code s.sessions ≡ some p) × Needed (rooms s) p))
          (sym (lookup-clean s.now s.heap code s.sessions v.keys))
          (swept s code p (λ r. is_expired-Needed s r v listed)))
      (record {
        under = λ code. refl;
        place = λ i. refl;
        history = λ p. refl;
        drawn = λ p. refl;
        opened = refl;
        clock = refl;
      })
Turn-Happens (waits d) v listed = Happens.waits d (record {
  under = λ code. refl;
  place = λ i. refl;
  history = λ p. refl;
  drawn = λ p. refl;
  opened = refl;
  clock = refl;
})

-- What was done in a run, the latest first.
abbrev pub deeds : (kinds : ℕ → ConnType) {s : System} → FreshReach kinds s → List Deed
deeds kinds FreshReach.here = []
deeds kinds (FreshReach.next {t} r a fresh e) = deed_of a t ∷ deeds kinds r

-- While the random ids do not collide, each step of a run is, seen without ids, pointers, maps of clients
-- and places in the code, the deed of the abstract specification that belongs to its action: a guest is
-- led to the room under the code that is asked for, is let in or turned away, enters, draws and leaves;
-- a drawn event goes to the end of the history of the guest's room, and nothing else changes a history;
-- and when the cleaner runs it closes exactly the rooms that have no guest and were neither opened nor
-- drawn in within ten minutes.
pub FreshReach-Hosts :
    (kinds : ℕ → ConnType) {s : System} (r : FreshReach kinds s) → Hosts (deeds kinds r) (rooms s)
unfolding start new_canvas_service_handler
FreshReach-Hosts kinds FreshReach.here = Hosts.begins Dict.lookup-nil (λ i. refl) refl refl
FreshReach-Hosts kinds (FreshReach.next {t} r a fresh e) =
    Hosts.goes_on (FreshReach-Hosts kinds r) (
      Turn-Happens (step-Turn a t _ e) (Reach-IsConsistent kinds (FreshReach-Reach kinds r))
        (FreshReach-Listed kinds r))
