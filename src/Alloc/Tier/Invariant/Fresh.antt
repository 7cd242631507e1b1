-- ===== src/Alloc/Tier/Invariant/Fresh.antt =====
-- The allocator that `new` builds, and an id allocated and freed again.
use scpy.Prelude.{
  ℕ, ◌-◌, ◌<◌, ◌≡◌, refl, false, [], ◌∷◌, arith, subst, some_inj, ltb, Option, none, some,
}
use scpy.BTree.{get, insert}
use scpy.Alloc.Code.{CodeAllocation, tier_capacity}
use scpy.Alloc.Code.RoundTrip.{encode_local_id_range}
use scpy.Alloc.Tier.{
  TieredAllocator, freed, new, seed_all, seed_tier, seed_intervals, empty, free, allocate,
}
use scpy.Alloc.Tier.Interval.{member}
use scpy.Alloc.Tier.Invariant.{IsValid, is_free, free-IsFreed}
use scpy.Alloc.Tier.Invariant.Allocate.{
  IsAllocated, Outcome, allocated, exhausted, allocate-Outcome,
}

abbrev pub full_tiers : TieredAllocator
full_tiers = record {
  intervals =
      (3, (0, 175615) ∷ [])
      ∷ (4, (0, 9834495) ∷ [])
      ∷ (5, (0, 550731775) ∷ [])
      ∷ (6, (0, 30840979455) ∷ [])
      ∷ [];
}

-- `new` does not panic, and has one interval in each tier.
new_lem : new ≡ some full_tiers
unfolding new seed_all seed_tier seed_intervals empty tier_capacity get insert
new_lem = refl

tier_facts :
    (code_len capacity : ℕ)
    → tier_capacity code_len ≡ some capacity
    → (get code_len full_tiers.intervals ≡ some ((0, capacity - 1) ∷ [])) × (0 < capacity)
unfolding tier_capacity get
tier_facts code_len capacity h = ground arith

full_tiers-IsValid : IsValid full_tiers
full_tiers-IsValid = record {
  tiers = λ n c h. record {
    tier = (0, c - 1) ∷ [];
    found = (tier_facts n c h).0;
    ordered = (omega arith, omega arith, omega (arith, (tier_facts n c h).1), tt);
  };
  only = λ n h. unfold tier_capacity get in ground arith;
}

-- Every id of every tier is free in a new allocator, and nothing else is.
is_free-full_tiers :
    (n id : ℕ)
    → is_free full_tiers n id
      ≡ (elim (tier_capacity n) [ none ↦ false | some capacity ↦ ltb id capacity ])
unfolding is_free member tier_capacity get
is_free-full_tiers n id = ground arith

-- `new` does not panic: it answers with a valid allocator whose free ids are those of the four
-- tiers.
pub new-IsValid :
    (new ≡ some full_tiers)
    × IsValid full_tiers
    × ((n id : ℕ)
        → is_free full_tiers n id
          ≡ (elim (tier_capacity n) [ none ↦ false | some capacity ↦ ltb id capacity ]))
new-IsValid = (new_lem, full_tiers-IsValid, is_free-full_tiers)

free-IsAllocated :
    (a a' : TieredAllocator) (code : CodeAllocation)
    → IsAllocated a a' code
    → let out = free a' code.code_len code.local_id in
      (out.1 ≡ some freed) × IsValid out.0 × ((m j : ℕ) → is_free out.0 m j ≡ is_free a m j)
free-IsAllocated a a' code i =
    let (capacity, valid, inside) =
      encode_local_id_range code.code_len code.local_id code.room_id i.encoded in
    let f = free-IsFreed a' i.keeps code.code_len capacity code.local_id valid inside in
    (
      ground (arith, f.outcome, i.taken code.code_len code.local_id),
      f.keeps,
      λ m j. ground (arith, f.ids m j, i.taken m j, i.was_free),
    )

free-Outcome :
    (a : TieredAllocator) {out : TieredAllocator × Option CodeAllocation} (code : CodeAllocation)
    → Outcome a out
    → out.1 ≡ some code
    → let freed_again = free out.0 code.code_len code.local_id in
      (freed_again.1 ≡ some freed)
      × IsValid freed_again.0
      × ((m j : ℕ) → is_free freed_again.0 m j ≡ is_free a m j)
free-Outcome a code (exhausted none_free) h = absurd (cc)
free-Outcome a code (allocated a' code' i) h =
    free-IsAllocated a a' code (subst (IsAllocated a a') (some_inj h) i)

-- Freeing in a valid allocator what `allocate` has just answered is no double free, and gives a
-- valid allocator with the free ids from before.
pub free-allocate :
    (a : TieredAllocator) (code : CodeAllocation)
    → IsValid a
    → (allocate a).1 ≡ some code
    → let freed_again = free (allocate a).0 code.code_len code.local_id in
      (freed_again.1 ≡ some freed)
      × IsValid freed_again.0
      × ((m j : ℕ) → is_free freed_again.0 m j ≡ is_free a m j)
free-allocate a code v = free-Outcome a code (allocate-Outcome a v)
