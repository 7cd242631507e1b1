-- ===== src/Alloc/Tier.antt =====
-- src/allocator.rs: `TieredAllocator`, the free ids of the four tiers as maps from the start of a
-- free interval to its end. A method that takes `&mut self` returns the new allocator and its
-- result.
pub mod Interval
pub mod Release
pub mod FreeIn
pub mod Invariant
use scpy.Prelude.{
  ℕ, ◌+◌, ◌-◌, ◌%◌, ◌^◌, Bool, true, false, ◌&&◌, Option, none, some, List, [], ◌∷◌, ltb, leb, ◌==◌,
  ◌||◌, if◌then◌else◌, ◌>>=◌,
}
use scpy.BTree.{BTree, insert, remove, get, first, last_up_to}
use scpy.Alloc.Code.{CodeAllocation, code_lengths, tier_capacity, encode_local_id}

pub data FreeOutcome : Type 0 where
  freed already_free : FreeOutcome

pub record TieredAllocator : Type 0 where
  pub intervals : BTree (BTree ℕ)

-- u64 addition.
abbrev pub add_u64 : ℕ → ℕ → ℕ
add_u64 a b = (a + b) % 2 ^ 64

abbrev pub checked_add : ℕ → ℕ → Option ℕ
checked_add a b = if ltb (a + b) (2 ^ 64) then some (a + b) else none

empty_tiers : List ℕ → BTree (BTree ℕ) → BTree (BTree ℕ)
empty_tiers [] intervals = intervals
empty_tiers (code_len ∷ rest) intervals = empty_tiers rest (insert code_len [] intervals)

unfoldable pub empty : TieredAllocator
unfolding empty_tiers insert
empty = record { intervals = empty_tiers code_lengths [] }

-- The loop of `seed_tier`: it stops at the first interval that is out of order or out of range, and
-- what it has inserted stays.
unfoldable pub seed_intervals : ℕ → List (ℕ × ℕ) → BTree ℕ → BTree ℕ × Option (Unit {0})
seed_intervals capacity [] tier = (tier, some tt)
seed_intervals capacity ((start, end) ∷ rest) tier =
    let more = seed_intervals capacity rest (insert start end tier) in
    if ltb end start || leb capacity end then (tier, none) else more

-- `self` with the tier that `get_mut` found changed.
abbrev pub with_tier : TieredAllocator → ℕ → BTree ℕ → TieredAllocator
with_tier a code_len tier = record { intervals = insert code_len tier a.intervals }

unfoldable pub seed_tier : TieredAllocator → ℕ → List (ℕ × ℕ) → TieredAllocator × Option (Unit {0})
seed_tier a code_len intervals = elim (tier_capacity code_len) [
  | none ↦ (a, none)
  | some capacity ↦ elim (get code_len a.intervals) [
    | none ↦ (a, none)
    | some tier ↦
        let (seeded, result) = seed_intervals capacity intervals [] in
        (with_tier a code_len seeded, result)
  ]
]

-- The loop of `new`; `none` is a panic of an `expect`.
unfoldable pub seed_all : List ℕ → TieredAllocator → Option TieredAllocator
seed_all [] a = some a
seed_all (code_len ∷ rest) a = do
  capacity ← tier_capacity code_len
  let (seeded, result) = seed_tier a code_len ((0, capacity - 1) ∷ [])
  done ← result
  seed_all rest seeded

unfoldable pub new : Option TieredAllocator
new = seed_all code_lengths empty

-- A tier without its smallest free id.
unfoldable pub take_start : ℕ → ℕ → BTree ℕ → BTree ℕ
take_start start end tier =
    let rest = remove start tier in
    if ltb start end then insert (add_u64 start 1) end rest else rest

-- The loop of `allocate` over the lengths that are left.
unfoldable pub allocate_from : List ℕ → TieredAllocator → TieredAllocator × Option CodeAllocation
allocate_from [] a = (a, none)
allocate_from (code_len ∷ rest) a =
    let later = allocate_from rest a in
    elim (get code_len a.intervals) [
      | none ↦ later
      | some tier ↦ elim (first tier) [
        | none ↦ later
        | some (start, end) ↦ (
          with_tier a code_len (take_start start end tier),
          (encode_local_id code_len start >>= λ room_id.
              some (record { room_id = room_id; code_len = code_len; local_id = start })),
        )
      ]
    ]

unfoldable pub allocate : TieredAllocator → TieredAllocator × Option CodeAllocation
allocate a = allocate_from code_lengths a

unfoldable pub left_adjacent : Option (ℕ × ℕ) → ℕ → Option (ℕ × ℕ)
left_adjacent left local_id =
    left >>= λ entry. if add_u64 entry.1 1 == local_id then some entry else none

unfoldable pub right_adjacent : ℕ → BTree ℕ → Option (ℕ × ℕ)
right_adjacent local_id tier = do
  next ← checked_add local_id 1
  end ← get next tier
  some (next, end)

-- The `match` on the two neighbours.
unfoldable pub merge : Option (ℕ × ℕ) → Option (ℕ × ℕ) → ℕ → BTree ℕ → BTree ℕ
merge (some (left_start, left_end)) (some (right_start, right_end)) local_id tier =
    remove right_start (insert left_start right_end tier)
merge (some (left_start, left_end)) none local_id tier = insert left_start local_id tier
merge none (some (right_start, right_end)) local_id tier =
    insert local_id right_end (remove right_start tier)
merge none none local_id tier = insert local_id local_id tier

unfoldable pub covers : Option (ℕ × ℕ) → ℕ → Bool
covers none local_id = false
covers (some (start, end)) local_id = leb start local_id && leb local_id end

-- `free` on the tier that it has found.
unfoldable pub free_in : ℕ → BTree ℕ → BTree ℕ × FreeOutcome
free_in local_id tier =
    let left = last_up_to local_id tier in
    if covers left local_id
    then (tier, already_free)
    else (merge (left_adjacent left local_id) (right_adjacent local_id tier) local_id tier, freed)

unfoldable pub free : TieredAllocator → ℕ → ℕ → TieredAllocator × Option FreeOutcome
free a code_len local_id = elim (tier_capacity code_len) [
  | none ↦ (a, none)
  | some capacity ↦ if leb capacity local_id then (a, none) else elim (get code_len a.intervals) [
    | none ↦ (a, none)
    | some tier ↦
        let (tier', outcome) = free_in local_id tier in (with_tier a code_len tier', some outcome)
  ]
]

-- The accessor `intervals`.
unfoldable pub tier_intervals : TieredAllocator → ℕ → Option (List (ℕ × ℕ))
tier_intervals a code_len = get code_len a.intervals
