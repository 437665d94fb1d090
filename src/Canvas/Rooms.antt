-- ===== src/Canvas/Rooms.antt =====
-- What canvaservice promises, without ids, pointers, maps of clients and places in the code: rooms
-- that are opened under codes, that guests are led to, enter, draw in and leave, and that are closed when
-- nobody needs them.
pub mod View
mod Guests
pub mod Refinement
use fawa.Common.{
  ℕ, Bool, true, false, suc, ◌+◌, ◌≤◌, String, str_eq, ◌≡◌, ◌⊎◌, ◌↔◌, Option, none, some, List, [],
  ◌∷◌, ◌++◌, update, if◌then◌else◌,
}
use fawa.Canvas.{DrawEvent, session_expiry_duration}

-- Where a guest is: not there yet, led to a room, in it, or away for good.
pub data Place : Type 0 where
  outside : Place
  invited : ℕ → Place
  inside : ℕ → Place
  away : Place

-- `under` is the room that a code leads to, `drawn p` when room `p` was opened or something that was
-- drawn there was noted last, `opened` the number of rooms so far.
pub record Rooms : Type 0 where
  pub under : String → Option ℕ
  pub place : ℕ → Place
  pub history : ℕ → List DrawEvent
  pub drawn : ℕ → ℕ
  pub opened : ℕ
  pub clock : ℕ

-- The same rooms.
pub record Agrees (c d : Rooms) : Type 0 where
  pub under : (code : String) → c.under code ≡ d.under code
  pub place : (i : ℕ) → c.place i ≡ d.place i
  pub history : (p : ℕ) → c.history p ≡ d.history p
  pub drawn : (p : ℕ) → c.drawn p ≡ d.drawn p
  pub opened : c.opened ≡ d.opened
  pub clock : c.clock ≡ d.clock

-- Where a guest who asks for a code is led.
abbrev pub led : String → Option ℕ → Place
led code none = away
led code (some p) = if str_eq code "" then away else invited p

-- A room that has a guest, or that was opened or drawn in within the last ten minutes.
abbrev pub Needed : Rooms → ℕ → Type 0
Needed b p = ((i : ℕ) × (b.place i ≡ inside p)) ⊎ (b.clock ≤ b.drawn p + session_expiry_duration)

-- What somebody does: nothing that is seen, opening a room under a code, asking for a code, being let
-- in (or, at `false`, turned away), entering, drawing, noting that something was drawn, leaving, closing rooms, and
-- the passing of time.
pub data Deed : Type 0 where
  rest : Deed
  open_room : String → Deed
  ask : ℕ → String → Deed
  be_let_in : ℕ → Bool → Deed
  enter : ℕ → Deed
  draw : ℕ → DrawEvent → Deed
  note : ℕ → Deed
  leave : ℕ → Deed
  close_rooms : Deed
  wait : ℕ → Deed

-- What comes of a deed. Closing rooms takes exactly those from their codes that nobody needs, and does
-- nothing else.
pub data Happens (b c : Rooms) : Deed → Type 0 where
  rests : Agrees c b → Happens b c rest
  opens :
      (code : String)
      → Agrees c (record b {
        under = λ x. if str_eq code x then some b.opened else b.under x;
        history = update b.history b.opened [];
        drawn = update b.drawn b.opened b.clock;
        opened = suc b.opened;
      })
      → Happens b c (open_room code)
  asks :
      (i : ℕ) (code : String)
      → b.place i ≡ outside
      → Agrees c (record b { place = update b.place i (led code (b.under code)) })
      → Happens b c (ask i code)
  lets_in : (i p : ℕ) → b.place i ≡ invited p → Agrees c b → Happens b c (be_let_in i true)
  turns_away :
      (i p : ℕ)
      → b.place i ≡ invited p
      → Agrees c (record b { place = update b.place i away })
      → Happens b c (be_let_in i false)
  enters :
      (i p : ℕ)
      → b.place i ≡ invited p
      → Agrees c (record b { place = update b.place i (inside p) })
      → Happens b c (enter i)
  draws :
      (i p : ℕ) (e : DrawEvent)
      → b.place i ≡ inside p
      → Agrees c (record b { history = update b.history p (b.history p ++ e ∷ []) })
      → Happens b c (draw i e)
  notes :
      (i p : ℕ)
      → b.place i ≡ inside p
      → Agrees c (record b { drawn = update b.drawn p b.clock })
      → Happens b c (note i)
  leaves :
      (i p : ℕ)
      → b.place i ≡ inside p
      → Agrees c (record b { place = update b.place i away })
      → Happens b c (leave i)
  closes :
      ((code : String) (p : ℕ) → (c.under code ≡ some p) ↔ ((b.under code ≡ some p) × Needed b p))
      → Agrees c (record b { under = c.under })
      → Happens b c close_rooms
  waits : (d : ℕ) → Agrees c (record b { clock = b.clock + d }) → Happens b c (wait d)

-- The rooms that come of deeds, the latest first, at the beginning of which there is no room.
pub data Hosts : List Deed → Rooms → Type 0 where
  begins :
      {b : Rooms}
      → ((code : String) → b.under code ≡ none)
      → ((i : ℕ) → b.place i ≡ outside)
      → b.opened ≡ 0
      → b.clock ≡ 0
      → Hosts [] b
  goes_on :
      {deeds : List Deed} {deed : Deed} {b c : Rooms}
      → Hosts deeds b
      → Happens b c deed
      → Hosts (deed ∷ deeds) c
