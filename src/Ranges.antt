-- ===== src/Ranges.antt =====
-- The loops over Go maps: `broadcastToClients` of canvaxservice/handler/handler.go over the clients, and
-- `sessionCleaner` of canvaservice/handler/handler.go over the sessions. Go goes through a map in any order,
-- the model through an association list in its own.
mod Examples
use mathlib.Core.List.{Permᴰ}
use fawa.Common.{
  ℕ, String, eq_iff, ◌≡◌, refl, sym, ap, subst, ◌∙◌, List, [], ◌∷◌, Option, none, some, arith,
  if◌then◌else◌,
}
use fawa.Common.Dict
use fawa.Common.Dict.{Dict, NodupKeys}
use fawa.Canvax.{DrawEvent, Client, broadcast_to_clients}
use fawa.Canvax.System.{for_stream}
use fawa.Canvas.{CanvasSession, clean}
use fawa.Canvas.Cleaner.{sweep, lookup-clean}

-- What a map in another order has under each key.
lookup-Permᴰ :
    {V : Type 0} {m n : Dict V}
    → Permᴰ m n
    → NodupKeys m
    → ((key : String) → Dict.lookup key n ≡ Dict.lookup key m) × NodupKeys n
unfolding Dict.lookup
lookup-Permᴰ Permᴰ.nil u = (λ key. refl, tt)
lookup-Permᴰ (Permᴰ.cons {a = (k, v)} {b = (j, w)} {l₁ = l₁} {l₂ = l₂} e p) u =
    let (same, w') = lookup-Permᴰ p u.1 in
    subst
      (λ x.
        ((key : String) → Dict.lookup key (x ∷ l₂) ≡ Dict.lookup key ((k, v) ∷ l₁))
        × NodupKeys (x ∷ l₂))
      e (λ key. ground (arith, same key), (same k ∙ u.0, w'))
lookup-Permᴰ (Permᴰ.swap {a = (k, v)} {b = (j, w)} {b' = y} {l = l} e f) u =
    subst
      (λ x.
        ((key : String) → Dict.lookup key (x ∷ y ∷ l) ≡ Dict.lookup key ((k, v) ∷ (j, w) ∷ l))
        × NodupKeys (x ∷ y ∷ l))
      f
      (subst
        (λ x.
          ((key : String)
            → Dict.lookup key ((j, w) ∷ x ∷ l) ≡ Dict.lookup key ((k, v) ∷ (j, w) ∷ l))
          × NodupKeys ((j, w) ∷ x ∷ l))
        e
        (
          λ key. ground (arith, u, eq_iff k key, eq_iff j key, eq_iff j k),
          ground (arith, u, eq_iff j k, eq_iff k j),
        ))
lookup-Permᴰ (Permᴰ.trans p q) u =
    let (same, v) = lookup-Permᴰ p u in
    let (same', w) = lookup-Permᴰ q v in (λ key. same' key ∙ same key, w)

for_stream-Permᴰ :
    (e : DrawEvent) (i : ℕ) {m n : Dict Client}
    → Permᴰ m n
    → for_stream i (broadcast_to_clients e n) ≡ for_stream i (broadcast_to_clients e m)
unfolding for_stream broadcast_to_clients
for_stream-Permᴰ e i Permᴰ.nil = refl
for_stream-Permᴰ e i (Permᴰ.cons {a = a} {b = b} {l₁ = l₁} {l₂ = l₂} same p) =
    subst
      (λ x.
        for_stream i (broadcast_to_clients e (x ∷ l₂))
        ≡ for_stream i (broadcast_to_clients e (a ∷ l₁)))
      same (ground (arith, for_stream-Permᴰ e i p))
for_stream-Permᴰ e i (Permᴰ.swap {a = a} {b = b} {a' = c} {b' = d} {l = l} f g) =
    ground (
      arith,
      ap (λ (x : String × Client). x.1.stream) f,
      ap (λ (x : String × Client). x.1.stream) g,
    )
for_stream-Permᴰ e i (Permᴰ.trans p q) = for_stream-Permᴰ e i q ∙ for_stream-Permᴰ e i p

-- In whatever order Go goes through the clients, a broadcast sends the same to each stream; and in
-- whatever order it goes through the sessions, under no two of which the same code stands, the cleaner
-- leaves the same under each code.
pub any_order :
    (e : DrawEvent) (i now : ℕ) (heap : ℕ → CanvasSession) (code : String) {m n : Dict Client}
    {sessions others : Dict ℕ}
    → Permᴰ m n
    → Permᴰ sessions others
    → NodupKeys sessions
    → (for_stream i (broadcast_to_clients e n) ≡ for_stream i (broadcast_to_clients e m))
      × (Dict.lookup code (clean now heap others) ≡ Dict.lookup code (clean now heap sessions))
any_order e i now heap code {sessions = sessions} {others = others} p q u =
    let (same, v) = lookup-Permᴰ q u in
    (
      for_stream-Permᴰ e i p,
      lookup-clean now heap code others v
          ∙ (ap (sweep now heap) (same code) ∙ sym (lookup-clean now heap code sessions u)),
    )
