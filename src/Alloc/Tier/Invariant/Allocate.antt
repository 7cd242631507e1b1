-- ===== src/Alloc/Tier/Invariant/Allocate.antt =====
-- What `allocate` does: it takes the smallest free id of the shortest tier that has one.
use scpy.Prelude.{
  ℕ, ◌+◌, ◌^◌, ◌≤◌, ◌<◌, ◌≡◌, refl, ◌∙◌, inl, inr, ◌⊎◌, true, false, not, ◌&&◌, List, [], ◌∷◌,
  arith, ◌==◌, leb, Option, none, some, Bool-cases,
}
use scpy.BTree.{BTree, get, first, remove}
use scpy.Alloc.Code.{CodeAllocation, tier_capacity, encode_local_id, code_lengths}
use scpy.Alloc.Code.Permute.{tier_capacity-IsTier}
use scpy.Alloc.Code.RoundTrip.{encode_local_id_total}
use scpy.Alloc.Tier.{TieredAllocator, with_tier, take_start, allocate_from, allocate}
use scpy.Alloc.Tier.Interval.{IsOrdered, IsOrdered-weaken, member, member_below}
use scpy.Alloc.Tier.FreeIn.{insert_head}
use scpy.Alloc.Tier.Invariant.{IsValid, is_free, is_free-with_tier, with_tier-IsValid}

-- Taking the first id of a tier.
module _ (capacity start end : ℕ) (rest : BTree ℕ) (small : capacity < 2 ^ 64)
    (ordered : IsOrdered capacity 0 ((start, end) ∷ rest)) where
  take_start-IsOrdered : IsOrdered capacity 0 (take_start start end ((start, end) ∷ rest))
  unfolding take_start remove
  take_start-IsOrdered = ground (
    arith,
    insert_head capacity (end + 2) (start + 1) end rest ordered.3,
    IsOrdered-weaken capacity (end + 2) 0 rest (omega arith) ordered.3,
  )

  member-take_start :
      (j : ℕ)
      → member j (take_start start end ((start, end) ∷ rest))
        ≡ (not (j == start) && member j ((start, end) ∷ rest))
  unfolding take_start remove member
  member-take_start j = ground (
    arith,
    insert_head capacity (end + 2) (start + 1) end rest ordered.3,
    member_below capacity (end + 2) j rest ordered.3,
  )

  member-start :
      (member start ((start, end) ∷ rest) ≡ true)
      × ((j : ℕ) → j < start → member j ((start, end) ∷ rest) ≡ false)
  unfolding member
  member-start =
      (ground arith, λ j h. ground (arith, member_below capacity (end + 2) j rest ordered.3))

-- The allocation `code` out of `a`, which leaves `a'`.
pub record IsAllocated (a a' : TieredAllocator) (code : CodeAllocation) : Type 0 where
  pub encoded : encode_local_id code.code_len code.local_id ≡ some code.room_id
  pub was_free : is_free a code.code_len code.local_id ≡ true
  pub least : (j : ℕ) → j < code.local_id → is_free a code.code_len j ≡ false
  pub shorter : (m j : ℕ) → m < code.code_len → is_free a m j ≡ false
  pub taken :
      (m j : ℕ) → is_free a' m j ≡ (not (code.code_len == m && j == code.local_id) && is_free a m j)
  pub keeps : IsValid a'

-- Either an allocation, or no id is free and nothing changes.
pub data Outcome (a : TieredAllocator) : TieredAllocator × Option CodeAllocation → Type 0 where
  allocated :
      (a' : TieredAllocator) (code : CodeAllocation)
      → IsAllocated a a' code
      → Outcome a (a', some code)
  exhausted : ((m j : ℕ) → is_free a m j ≡ false) → Outcome a (a, none)

-- The lengths that are left to try, when all below `n` have failed.
abbrev Remaining : ℕ → List ℕ → Type 0
Remaining n [] = n ≡ 7
Remaining n (code_len ∷ rest) = (code_len ≡ n) × (3 ≤ n) × (n ≤ 6) × Remaining (n + 1) rest

capacity_of : (n : ℕ) → 3 ≤ n → n ≤ 6 → (c : ℕ) × (tier_capacity n ≡ some c)
unfolding tier_capacity
capacity_of n h k = (56 ^ n, ground arith)

no_capacity : (n : ℕ) → (n < 3) ⊎ (6 < n) → tier_capacity n ≡ none
unfolding tier_capacity
no_capacity n h = ground arith

abbrev NoneBelow : TieredAllocator → ℕ → Type 0
NoneBelow a n = (m j : ℕ) → m < n → is_free a m j ≡ false

outside_tiers :
    (a : TieredAllocator) → IsValid a → (m j : ℕ) → (m < 3) ⊎ (6 < m) → is_free a m j ≡ false
unfolding is_free
outside_tiers a v m j h = rw (v.only m (no_capacity m h), is_free) refl

module _ (a : TieredAllocator) (v : IsValid a) where
  -- An empty tier of length `n` adds `n` to the lengths without a free id.
  NoneBelow-suc : (n : ℕ) → get n a.intervals ≡ some [] → NoneBelow a n → NoneBelow a (n + 1)
  unfolding is_free member
  NoneBelow-suc n found none_below m j h = elim (Bool-cases (m == n)) [
    | inl same ↦ let e : m ≡ n = ground arith in rw e (rw (found, is_free) refl)
    | inr other ↦ none_below m j (ground arith)
  ]

  take_first :
      (n capacity start end : ℕ) (rest : BTree ℕ)
      → tier_capacity n ≡ some capacity
      → get n a.intervals ≡ some ((start, end) ∷ rest)
      → IsOrdered capacity 0 ((start, end) ∷ rest)
      → NoneBelow a n
      → (room_id : List ℕ) → encode_local_id n start ≡ some room_id
      → IsAllocated a
          (with_tier a n (take_start start end ((start, end) ∷ rest)))
          (record { room_id = room_id; code_len = n; local_id = start })
  take_first n capacity start end rest valid found ordered none_below room_id encoded =
      let t = tier_capacity-IsTier n capacity valid in
      let small : capacity < 2 ^ 64 = omega (arith, t.wide, t.narrow) in
      let is_free_n : (j : ℕ) → is_free a n j ≡ member j ((start, end) ∷ rest) =
        λ j. unfold is_free in rw (found, is_free) refl in
      let starts = member-start capacity start end rest small ordered in
      record {
        encoded = encoded;
        was_free = is_free_n start ∙ starts.0;
        least = λ j h. is_free_n j ∙ starts.1 j h;
        shorter = none_below;
        taken = λ m j. ground (
          arith,
          is_free-with_tier a n m j (take_start start end ((start, end) ∷ rest)),
          member-take_start capacity start end rest small ordered j,
          is_free_n j,
        );
        keeps =
            with_tier-IsValid a n capacity _ v valid
              (take_start-IsOrdered capacity start end rest small ordered);
      }

  try_tier :
      (n capacity : ℕ) (lengths : List ℕ) (tier : BTree ℕ)
      → tier_capacity n ≡ some capacity
      → get n a.intervals ≡ some tier
      → IsOrdered capacity 0 tier
      → NoneBelow a n
      → (NoneBelow a (n + 1) → Outcome a (allocate_from lengths a))
      → Outcome a (allocate_from (n ∷ lengths) a)
  try_tier n capacity lengths [] valid found ordered none_below later =
      let skip : allocate_from (n ∷ lengths) a ≡ allocate_from lengths a =
        unfold allocate_from first in rw (found, allocate_from) refl in
      rw skip (later (NoneBelow-suc n found none_below))
  try_tier n capacity lengths ((start, end) ∷ rest) valid found ordered none_below later =
      let inside : start < capacity = omega arith in
      let (room_id, encoded, len) = encode_local_id_total n capacity start valid inside in
      let hit : allocate_from (n ∷ lengths) a ≡ (
        with_tier a n (take_start start end ((start, end) ∷ rest)),
        some (record { room_id = room_id; code_len = n; local_id = start }),
      ) =
        unfold allocate_from first in rw (found, allocate_from, encoded) refl in
      rw hit (
        allocated _ _
          (take_first n capacity start end rest valid found ordered none_below room_id encoded))

  allocate_from-Outcome :
      (n : ℕ) (lengths : List ℕ)
      → Remaining n lengths
      → NoneBelow a n
      → Outcome a (allocate_from lengths a)
  allocate_from-Outcome n [] r none_below =
      unfold allocate_from in
      exhausted (λ m j. elim (Bool-cases (leb 7 m)) [
        | inl high ↦ outside_tiers a v m j (inr (ground arith))
        | inr low ↦ none_below m j (ground arith)
      ])
  allocate_from-Outcome n (code_len ∷ rest) r none_below =
      let (capacity, valid) = capacity_of n r.1 r.2 in
      let at = v.tiers n capacity valid in
      let later = λ (next : NoneBelow a (n + 1)). allocate_from-Outcome (n + 1) rest r.3 next in
      rw r.0 (try_tier n capacity rest at.tier valid at.found at.ordered none_below later)

  -- In a valid allocator `allocate` takes the least free id of the shortest tier that has one,
  -- answers with its code, changes no other id and keeps the allocator valid; or no id is free and
  -- nothing changes.
  pub allocate-Outcome : Outcome a (allocate a)
  unfolding allocate
  allocate-Outcome =
      allocate_from-Outcome 3 code_lengths (omega arith) (λ m j h. outside_tiers a v m j (inl h))
