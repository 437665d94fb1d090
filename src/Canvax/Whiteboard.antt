-- ===== src/Canvax/Whiteboard.antt =====
-- What canvaxservice promises, without ids, maps, locks and places in the code: a board that has a box for
-- each member, in which an event lies from the time that it is posted until it is shown to the member.
pub mod View
pub mod Refinement
use fawa.Common.{ℕ, ◌≡◌, ◌≢◌, Bool, true, false, List, [], ◌∷◌, ◌++◌, ◌==◌, if◌then◌else◌}
use fawa.Canvax.{DrawEvent}

-- `coming` is what one who joined now would find in the box, `box i` what lies in the box of member `i`,
-- oldest first, and `feed i` what `i` was shown.
pub record Board : Type 0 where
  pub coming : List DrawEvent
  pub box : ℕ → List DrawEvent
  pub feed : ℕ → List DrawEvent
  pub member : ℕ → Bool

-- What somebody does: nothing that is seen, joining, leaving, posting an event, giving the oldest event
-- out to the members, and showing a member what lies in front in the box, or failing to.
pub data Deed : Type 0 where
  rest : Deed
  join : ℕ → Deed
  leave : ℕ → Deed
  post : DrawEvent → Deed
  give_out : Deed
  show : ℕ → Deed
  miss : ℕ → Deed

abbrev pub Same : {A : Type 0} → (ℕ → A) → (ℕ → A) → Type 0
Same f g = (i : ℕ) → f i ≡ g i

abbrev pub SameBut : {A : Type 0} → ℕ → (ℕ → A) → (ℕ → A) → Type 0
SameBut i f g = (j : ℕ) → i ≢ j → f j ≡ g j

-- What comes of a deed.
pub data Happens (b c : Board) : Deed → Type 0 where
  rests :
      c.coming ≡ b.coming
      → Same c.box b.box
      → Same c.feed b.feed
      → Same c.member b.member
      → Happens b c rest
  joins :
      (i : ℕ)
      → b.member i ≡ false
      → c.box i ≡ b.coming
      → c.coming ≡ b.coming
      → SameBut i c.box b.box
      → Same c.feed b.feed
      → ((j : ℕ) → c.member j ≡ (if i == j then true else b.member j))
      → Happens b c (join i)
  leaves :
      (i : ℕ)
      → b.member i ≡ true
      → c.coming ≡ b.coming
      → Same c.box b.box
      → Same c.feed b.feed
      → ((j : ℕ) → c.member j ≡ (if i == j then false else b.member j))
      → Happens b c (leave i)
  posts :
      (e : DrawEvent)
      → c.coming ≡ b.coming ++ e ∷ []
      → ((i : ℕ) → c.box i ≡ b.box i ++ e ∷ [])
      → Same c.feed b.feed
      → Same c.member b.member
      → Happens b c (post e)
  gives_out :
      (e : DrawEvent)
      → b.coming ≡ e ∷ c.coming
      → ((i : ℕ) → b.member i ≡ true → c.box i ≡ b.box i)
      → Same c.feed b.feed
      → Same c.member b.member
      → Happens b c give_out
  shows :
      (i : ℕ) (e : DrawEvent)
      → b.box i ≡ e ∷ c.box i
      → c.feed i ≡ b.feed i ++ e ∷ []
      → c.coming ≡ b.coming
      → SameBut i c.box b.box
      → SameBut i c.feed b.feed
      → Same c.member b.member
      → Happens b c (show i)
  misses :
      (i : ℕ) (e : DrawEvent)
      → b.box i ≡ e ∷ c.box i
      → c.coming ≡ b.coming
      → SameBut i c.box b.box
      → Same c.feed b.feed
      → Same c.member b.member
      → Happens b c (miss i)

-- The boards that come of deeds, the latest first, at the beginning of which there is no member and no
-- event.
pub data Behaves : List Deed → Board → Type 0 where
  opens :
      {b : Board}
      → b.coming ≡ []
      → ((i : ℕ) → b.feed i ≡ [])
      → ((i : ℕ) → b.member i ≡ false)
      → Behaves [] b
  goes_on :
      {deeds : List Deed} {deed : Deed} {b c : Board}
      → Behaves deeds b
      → Happens b c deed
      → Behaves (deed ∷ deeds) c
