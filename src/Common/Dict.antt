-- ===== src/Common/Dict.antt =====
-- Go maps with `string` keys as association lists. Proofs elsewhere go by the laws in `if` form.
use mathlib.Core.Path.{◌≡◌, refl, subst}
use mathlib.Core.Logic.{inl, inr}
use mathlib.Core.Option.{Option, none, some}
use mathlib.Core.List.{List, [], ◌∷◌}
use native.Mathlib.Omega.{arith}
use Prim.Native.String.{String}
use text.Mathlib.Text.{◌==◌}
use text.Mathlib.TextEquality.{eq_iff}
use fawa.Common.Tests.{if◌then◌else◌, Bool-cases, none-ne}
use fawa.Common.Lists.{All}

abbrev pub Dict {ℓ} : Type ℓ → Type ℓ
Dict V = List (String × V)

module _ {ℓ} {V : Type ℓ} where
  -- `m[key]`, and whether it is there.
  unfoldable pub lookup : String → Dict V → Option V
  lookup key [] = none
  lookup key ((held, v) ∷ others) = if held == key then some v else lookup key others

  -- `delete(m, key)`
  unfoldable pub erase : String → Dict V → Dict V
  erase key [] = []
  erase key ((held, v) ∷ others) =
      let rest = erase key others in if held == key then rest else (held, v) ∷ rest

  pub lookup-nil : (key : String) → lookup key [] ≡ none
  unfolding lookup
  lookup-nil key = refl

  -- `m[key] = new`
  unfoldable pub insert : String → V → Dict V → Dict V
  insert key new [] = (key, new) ∷ []
  insert key new ((held, v) ∷ others) =
      if held == key then (key, new) ∷ others else (held, v) ∷ insert key new others

  pub lookup-erase :
      (key j : String) (m : Dict V)
      → lookup j (erase key m) ≡ (if key == j then none else lookup j m)
  unfolding lookup erase
  lookup-erase key j [] = ground arith
  lookup-erase key j ((held, v) ∷ others) =
      ground (arith, eq_iff key j, eq_iff held key, eq_iff held j, lookup-erase key j others)

  pub lookup-insert :
      (key j : String) (new : V) (m : Dict V)
      → lookup j (insert key new m) ≡ (if key == j then some new else lookup j m)
  unfolding lookup insert
  lookup-insert key j new [] = refl
  lookup-insert key j new ((held, v) ∷ others) =
      ground (arith, eq_iff key j, eq_iff held key, eq_iff held j, lookup-insert key j new others)

  -- No key stands twice.
  abbrev pub NodupKeys : Dict V → Type ℓ
  NodupKeys [] = Unit
  NodupKeys ((k, _) ∷ m) = (lookup k m ≡ none) × NodupKeys m

  pub insert-NodupKeys : (k : String) (v : V) (m : Dict V) → NodupKeys m → NodupKeys (insert k v m)
  unfolding insert
  insert-NodupKeys k v [] u = (lookup-nil k, tt)
  insert-NodupKeys k v ((j, w) ∷ m) u =
      ground (arith, eq_iff k j, eq_iff j k, insert-NodupKeys k v m u.1, lookup-insert k j v m)

  pub erase-NodupKeys : (k : String) (m : Dict V) → NodupKeys m → NodupKeys (erase k m)
  unfolding erase
  erase-NodupKeys k [] u = tt
  erase-NodupKeys k ((j, w) ∷ m) u = ground (arith, erase-NodupKeys k m u.1, lookup-erase k j m)

  module _ {κ} (P : String × V → Type κ) where
    pub insert-All : (k : String) (v : V) (m : Dict V) → P (k, v) → All P m → All P (insert k v m)
    unfolding insert
    insert-All k v [] p h = (p, tt)
    insert-All k v ((j, w) ∷ m) p h = ground (arith, insert-All k v m p h.1)

    -- An entry of a dictionary has the property of all its entries.
    pub lookup-All : (k : String) (v : V) (m : Dict V) → All P m → lookup k m ≡ some v → P (k, v)
    unfolding lookup
    lookup-All k v [] h e = none-ne e
    lookup-All k v ((j, w) ∷ m) h e = elim (Bool-cases (j == k)) [
      | inl same ↦ subst P (ground (arith, eq_iff j k)) h.0
      | inr other ↦ lookup-All k v m h.1 (rw other at e)
    ]
