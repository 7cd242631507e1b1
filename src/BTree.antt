-- ===== src/BTree.antt =====
-- `std::collections::BTreeMap` with integer keys, as the list of its entries in the order of the keys.
pub mod Laws
use scpy.Prelude.{ℕ, Option, none, some, List, [], ◌∷◌, ltb, leb, ◌==◌, if◌then◌else◌}

abbrev pub BTree {ℓ} : Type ℓ → Type ℓ
BTree V = List (ℕ × V)

module _ {ℓ} {V : Type ℓ} where
  -- An entry with the key is replaced.
  unfoldable pub insert : ℕ → V → BTree V → BTree V
  insert k v [] = (k, v) ∷ []
  insert k v ((j, w) ∷ m) =
      if ltb k j then (k, v) ∷ (j, w) ∷ m else if j == k then (k, v) ∷ m else (j, w) ∷ insert k v m

  unfoldable pub remove : ℕ → BTree V → BTree V
  remove k [] = []
  remove k ((j, w) ∷ m) = if j == k then m else (j, w) ∷ remove k m

  unfoldable pub get : ℕ → BTree V → Option V
  get k [] = none
  get k ((j, w) ∷ m) = if j == k then some w else get k m

  -- `iter().next()`.
  unfoldable pub first : BTree V → Option (ℕ × V)
  first [] = none
  first (entry ∷ m) = some entry

  -- `range(..=k).next_back()`.
  unfoldable pub last_up_to : ℕ → BTree V → Option (ℕ × V)
  last_up_to k [] = none
  last_up_to k ((j, w) ∷ m) =
      if leb j k
      then (elim (last_up_to k m) [ none ↦ some (j, w) | some entry ↦ some entry ])
      else none
