-- ===== src/Canvas/Rooms/Guests.antt =====
-- canvaservice/handler/handler.go, `sessionCleaner`: the sessions that it keeps are the rooms that are
-- needed.
use fawa.Common.{
  ltb, ◌+◌, ◌≢◌, ℕ, String, ◌≡◌, refl, sym, ap, ◌∙◌, ◌⊎◌, ◌↔◌, Option, none, some, none-ne,
  some_elim, [], ◌∷◌, All, arith, Bool-cases, Option-cases, inl, inr, false,
}
use fawa.Common.Dict
use fawa.Common.Dict.{Dict, NodupKeys}
use fawa.Canvas.{SessionClient, is_expired, session_expiry_duration}
use fawa.Canvas.System.{System, Pc, arrived, found, upgraded, answered, gone}
use fawa.Canvas.Ownership.{owner, Owned, IsConsistent}
use fawa.Canvas.Cleaner.{sweep, is_expired_iff}
use fawa.Canvas.Occupied.{occupied}
use fawa.Canvas.Registration.{Listed}
use fawa.Canvas.Rooms.{Place, inside, away, Needed}
use fawa.Canvas.Rooms.View.{place_of, rooms}

abbrev place_at : Option (ℕ × String) → Place
place_at none = away
place_at (some (p, id)) = inside p

place-owner : (q : Pc) (p : ℕ) (id : String) → owner q ≡ some (p, id) → place_of q ≡ inside p
place-owner (arrived kind) p id own = none-ne own
place-owner (found kind r) p id own = none-ne own
place-owner (upgraded kind r) p id own = none-ne own
place-owner _ p id own = ap place_at own

none-place : (q : Pc) (p : ℕ) → owner q ≡ none → place_of q ≢ inside p
none-place (arrived kind) p free at = cc
none-place (found kind r) p free at = cc
none-place (upgraded kind r) p free at = cc
none-place (answered a) p free at = cc
none-place gone p free at = cc
none-place _ p free at = none-ne (sym free)

owner-place : (q : Pc) (p : ℕ) → place_of q ≡ inside p → (id : String) × (owner q ≡ some (p, id))
owner-place q p at = elim (Option-cases (owner q)) [
  | inl free ↦ absurd (none-place q p free at)
  | inr ((r, id), own) ↦
      let same : r ≡ p = let there = place-owner q r id own in cc in
      (id, own ∙ ap (λ n. some (n, id)) same)
]

-- A session has no client, or one whose call is inside.
guest :
    (pc : ℕ → Pc) (p : ℕ) (m : Dict SessionClient)
    → All (Owned pc p) m
    → (m ≡ []) ⊎ ((i : ℕ) × (place_of (pc i) ≡ inside p))
guest pc p [] h = inl refl
guest pc p ((k, cl) ∷ m) h = inr (cl.call, place-owner (pc cl.call) p k h.0)

-- The cleaner keeps a session exactly if its room is needed.
pub is_expired-Needed :
    (s : System) (p : ℕ)
    → IsConsistent s
    → Listed s
    → (is_expired s.now (s.heap p) ≡ false) ↔ Needed (rooms s) p
is_expired-Needed s p v listed = (
  λ young. elim (guest s.pc p (s.heap p).clients (v.sound p).owned) [
    | inl empty ↦ elim (Bool-cases (ltb ((s.heap p).last_active + session_expiry_duration) s.now)) [
      | inl late ↦ cc (young, (is_expired_iff s.now (s.heap p)).1 (empty, ground arith))
      | inr soon ↦ inr (ground arith)
    ]
    | inr someone ↦ inl someone
  ],
  λ needed. elim needed [
    | inl (i, at) ↦
        let (id, own) = owner-place (s.pc i) p at in
        occupied s.now (s.heap p) id i (listed i p id own)
    | inr recent ↦ elim (Bool-cases (is_expired s.now (s.heap p))) [
      | inl old ↦
          let (_, late) = (is_expired_iff s.now (s.heap p)).0 old in
          absurd (omega (arith, late, recent))
      | inr young ↦ young
    ]
  ],
)

pub swept :
    (s : System) (code : String) (p : ℕ)
    → ((r : ℕ) → (is_expired s.now (s.heap r) ≡ false) ↔ Needed (rooms s) r)
    → (sweep s.now s.heap (Dict.lookup code s.sessions) ≡ some p)
      ↔ ((Dict.lookup code s.sessions ≡ some p) × Needed (rooms s) p)
swept s code p kept = elim (Option-cases (Dict.lookup code s.sessions)) [
  | inl e ↦ (λ h. none-ne (rw e at h), λ h. none-ne (sym e ∙ h.0))
  | inr (r, e) ↦ elim (Bool-cases (is_expired s.now (s.heap r))) [
    | inl old ↦ (
      λ h. none-ne (rw (e, sweep, old) at h),
      λ h.
          let same : r ≡ p = let there : some r ≡ some p = sym e ∙ h.0 in cc in
          let young = (kept p).1 h.1 in cc,
    )
    | inr young ↦ (
      λ h.
          let there : some r ≡ some p = rw (e, sweep, young) at h in
          (e ∙ there, some_elim (λ n. Needed (rooms s) n) there ((kept r).0 young)),
      λ h. rw (e, sweep, young) (sym e ∙ h.0),
    )
  ]
]
