-- ===== src/Canvas/Rooms/View.antt =====
-- canvaservice/handler/handler.go as rooms: where its calls are, and what of its sessions is seen.
use fawa.Common.{
  ℕ, String, str_eq, ◌≡◌, refl, ap, ◌∙◌, ◌==◌, some, arith, update, Bool-cases, Option-cases, inl,
  inr,
}
use fawa.Common.Dict
use fawa.Common.Dict.{Dict, NodupKeys}
use fawa.Canvas.{ConnType, find_session}
use fawa.Canvas.System.{
  System, Conn, Pc, arrived, found, upgraded, joined, copied, reading, adding, sending, touching,
  leaving, answered, gone, Read, request, entry_pc, read_pc,
}
use fawa.Canvas.Rooms.{Place, outside, invited, inside, away, Rooms, led}

-- Where a call is among the rooms.
abbrev pub place_of : Pc → Place
place_of (arrived kind) = outside
place_of (found kind p) = invited p
place_of (upgraded kind p) = invited p
place_of (answered r) = away
place_of gone = away
place_of (joined c) = inside c.session
place_of (copied c es) = inside c.session
place_of (reading c) = inside c.session
place_of (adding c e) = inside c.session
place_of (sending c e) = inside c.session
place_of (touching c) = inside c.session
place_of (leaving c) = inside c.session

abbrev pub rooms : System → Rooms
rooms s = record {
  under = λ code. Dict.lookup code s.sessions;
  place = λ i. place_of (s.pc i);
  history = λ p. (s.heap p).history;
  drawn = λ p. (s.heap p).last_active;
  opened = s.allocated;
  clock = s.now;
}

pub place-read_pc : (c : Conn) (r : Read) → place_of (read_pc c r) ≡ inside c.session
unfolding read_pc
place-read_pc c (request (some e)) = refl
place-read_pc c _ = refl

pub place-find_session :
    (kind : ConnType) (code : String) (s : System)
    → place_of (entry_pc kind (find_session code s.handler))
      ≡ led code (Dict.lookup code s.sessions)
unfolding find_session entry_pc
place-find_session kind code s = elim (Option-cases (Dict.lookup code s.sessions)) [
  | inl e ↦ elim (Bool-cases (str_eq code "")) [
    | inl unnamed ↦ rw (e, led, unnamed) refl
    | inr named ↦ rw (e, led, named) refl
  ]
  | inr (p, e) ↦ elim (Bool-cases (str_eq code "")) [
    | inl unnamed ↦ rw (e, led, unnamed) refl
    | inr named ↦ rw (e, led, named) refl
  ]
]

-- What a change of one entry does to what is seen of the entries.
pub seen {ℓ κ} :
    {A : Type ℓ} {B : Type κ} (f : A → B) (g : ℕ → A) (i : ℕ) (a : A) (j : ℕ)
    → f (update g i a j) ≡ update (λ k. f (g k)) i (f a) j
seen f g i a j = elim (Bool-cases (i == j)) [ inl same ↦ rw same refl | inr other ↦ rw other refl ]

pub unseen {ℓ κ} :
    {A : Type ℓ} {B : Type κ} (f : A → B) (g : ℕ → A) (i : ℕ) (a : A)
    → f a ≡ f (g i)
    → (j : ℕ) → f (update g i a j) ≡ f (g j)
unseen f g i a same j = elim (Bool-cases (i == j)) [
  | inl here ↦ rw here (same ∙ ap (λ k. f (g k)) (ground arith))
  | inr other ↦ rw other refl
]
