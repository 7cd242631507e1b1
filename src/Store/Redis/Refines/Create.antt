-- ===== src/Store/Redis/Refines/Create.antt =====
-- clip_create.lua against `allocate` of src/allocator.rs.
use scpy.Prelude.{
  ℕ, ◌+◌, ◌%◌, ◌^◌, ◌<◌, ◌≡◌, refl, ◌∙◌, inl, inr, Option, none, some, arith, ltb, Bool-cases, List,
  [], ◌∷◌,
}
use scpy.BTree.{BTree, get, first, remove}
use scpy.Alloc.Code.{CodeAllocation, tier_capacity, code_lengths}
use scpy.Alloc.Code.Permute.{tier_capacity-IsTier}
use scpy.Alloc.Code.RoundTrip.{encode_local_id_total}
use scpy.Alloc.Tier.{TieredAllocator, with_tier, take_start, allocate_from, allocate}
use scpy.Alloc.Tier.Interval.{IsOrdered, get_below}
use scpy.Alloc.Tier.Invariant.{IsValid}
use scpy.Store.Redis.Database.{expiring, starts, ends, number, Redis, IsRedis, Contents}
use scpy.Store.Redis.Intervals.{IsTierOf, IsOrdered-IsAscending, first_of-starts_of}
use scpy.Store.Redis.Edits.{IsEdit, IsEdit-trans, drop_start, put_new}
use scpy.Store.Redis.Mirror.{IsMirror, IsMirror-with_tier}
use scpy.Store.Redis.Scripts.{take_id, shrink}

-- The tier and the id of an allocation.
abbrev pub place_of : Option CodeAllocation → Option (ℕ × ℕ)
place_of none = none
place_of (some code) = some (code.code_len, code.local_id)

-- The database has followed the allocator, with the same outcome, and no string has changed.
pub record IsTaken {D V : Type 0} (view : D → Contents V) (d : D)
    (out : TieredAllocator × Option CodeAllocation) (taken : D × Option (Option (ℕ × ℕ)))
    : Type 0 where
  pub mirrors : IsMirror (view taken.0) out.0
  pub strings : (view taken.0).strings ≡ (view d).strings
  pub result : taken.1 ≡ some (place_of out.1)
  pub index : (view taken.0).sets expiring ≡ (view d).sets expiring

abbrev pub HasTiers : List ℕ → Type 0
HasTiers [] = Unit {0}
HasTiers (n ∷ rest) = ((capacity : ℕ) × (tier_capacity n ≡ some capacity)) × HasTiers rest

code_lengths-HasTiers : HasTiers code_lengths
unfolding tier_capacity
code_lengths-HasTiers = ((_, refl), ((_, refl), ((_, refl), ((_, refl), tt))))

module _ {D V : Type 0} (r : Redis D V) (law : IsRedis r) (d : D) where
  shrink-take_start :
      (n capacity start end : ℕ) (rest : BTree ℕ)
      → capacity < 2 ^ 64
      → IsOrdered capacity 0 ((start, end) ∷ rest)
      → IsTierOf (law.view d) n ((start, end) ∷ rest)
      → let shrunk = shrink r n (number start) (some start) (some end) d in
        (shrunk.1 ≡ some start)
        × IsEdit (law.view d) (law.view shrunk.0) n (take_start start end ((start, end) ∷ rest))
  unfolding shrink take_start
  shrink-take_start n capacity start end rest small o t =
      let tier : BTree ℕ = (start, end) ∷ rest in
      let dropped =
        drop_start r law d n start 0 tier t 0
          (IsOrdered-IsAscending capacity 0 0 tier (omega arith) o) in
      elim (Bool-cases (ltb start end)) [
        | inl e ↦
            let absent : get (start + 1) (remove start tier) ≡ none =
              unfold remove in ground (arith, get_below capacity (end + 2) (start + 1) rest o.3) in
            let next : (start + 1) % 2 ^ 64 ≡ start + 1 = omega arith in
            (
              refl,
              rw (e, next)
                  (IsEdit-trans dropped
                    (put_new r law _ n (start + 1) end (remove start tier) dropped.mirrors absent)),
            )
        | inr e ↦ (refl, rw e dropped)
      ]

  module _ (a : TieredAllocator) (v : IsValid a) (m : IsMirror (law.view d) a) where
    try_tier :
        (n capacity : ℕ) (lengths : List ℕ) (tier : BTree ℕ)
        → tier_capacity n ≡ some capacity
        → get n a.intervals ≡ some tier
        → IsOrdered capacity 0 tier
        → IsTaken law.view d (allocate_from lengths a) (take_id r lengths d)
        → IsTaken law.view d (allocate_from (n ∷ lengths) a) (take_id r (n ∷ lengths) d)
    try_tier n capacity lengths [] valid found o later =
        let t = m.at n [] found in
        let skip : allocate_from (n ∷ lengths) a ≡ allocate_from lengths a =
          unfold allocate_from first in rw (found, allocate_from) refl in
        let nothing : r.zrange_first (starts n) d ≡ none =
          law.zrange_first_lem (starts n) d
          ∙ rw t.set_lem (unfold first in first_of-starts_of []) in
        let skipped : take_id r (n ∷ lengths) d ≡ take_id r lengths d =
          unfold take_id in rw (take_id, nothing) refl in
        rw (skip, skipped) later
    try_tier n capacity lengths ((start, end) ∷ rest) valid found o later =
        let t = m.at n ((start, end) ∷ rest) found in
        let wide = tier_capacity-IsTier n capacity valid in
        let (room_id, encoded, len) = encode_local_id_total n capacity start valid (omega arith) in
        let hit : allocate_from (n ∷ lengths) a ≡ (
          with_tier a n (take_start start end ((start, end) ∷ rest)),
          some (record { room_id = room_id; code_len = n; local_id = start }),
        ) =
          unfold allocate_from first in rw (found, allocate_from, encoded) refl in
        let smallest : r.zrange_first (starts n) d ≡ some (number start) =
          law.zrange_first_lem (starts n) d
          ∙ rw t.set_lem (unfold first in first_of-starts_of ((start, end) ∷ rest)) in
        let last : r.hget (ends n) (number start) d ≡ some (number end) =
          law.hget_lem (ends n) (number start) d
          ∙ t.hash_lem start
          ∙ (unfold get in ground arith) in
        let (shrunk, edit) =
          shrink-take_start n capacity start end rest (omega (arith, wide.wide, wide.narrow)) o t in
        let took : take_id r (n ∷ lengths) d
            ≡ ((shrink r n (number start) (some start) (some end) d).0, some (some (n, start))) =
          unfold take_id in rw (take_id, smallest, last, shrunk) refl in
        rw (hit, took)
          (record {
            mirrors = IsMirror-with_tier edit m;
            strings = edit.strings;
            result = refl;
            index = edit.sets expiring refl;
          })

    take_id-allocate_from :
        (lengths : List ℕ)
        → HasTiers lengths
        → IsTaken law.view d (allocate_from lengths a) (take_id r lengths d)
    take_id-allocate_from [] h =
        unfold allocate_from take_id in
        record { mirrors = m; strings = refl; result = refl; index = refl }
    take_id-allocate_from (n ∷ rest) ((capacity, valid), h) =
        let at = v.tiers n capacity valid in
        try_tier n capacity rest at.tier valid at.found at.ordered (take_id-allocate_from rest h)

    -- clip_create.lua takes the id that `allocate` takes, and the database goes on to mirror the
    -- allocator that `allocate` leaves; where that finds no id, the script finds none.
    pub take_id-allocate : IsTaken law.view d (allocate a) (take_id r code_lengths d)
    unfolding allocate
    take_id-allocate = take_id-allocate_from code_lengths code_lengths-HasTiers
