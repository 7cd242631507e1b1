-- ===== src/Alloc/Tier/Invariant.antt =====
-- The invariant of the allocator, the set of ids that it holds free, and what `free` does to both.
pub mod Allocate
pub mod Fresh
use scpy.Prelude.{
  ℕ, ◌+◌, ◌^◌, ◌≤◌, ◌<◌, ◌≡◌, refl, sym, ap, ◌∙◌, some_inj, inl, inr, ◌⊎◌, Bool, true, false, ◌&&◌,
  ◌||◌, arith, ◌==◌, leb, Option, none, some, if◌then◌else◌, Bool-cases, Option-cases,
}
use scpy.BTree.{BTree, get}
use scpy.BTree.Laws.{get-insert}
use scpy.Alloc.Code.{tier_capacity}
use scpy.Alloc.Code.Permute.{tier_capacity-IsTier}
use scpy.Alloc.Tier.{TieredAllocator, FreeOutcome, freed, already_free, with_tier, free}
use scpy.Alloc.Tier.Interval.{IsOrdered, member, release}
use scpy.Alloc.Tier.Release.{release-IsOrdered, member-release}
use scpy.Alloc.Tier.FreeIn.{free_in-release}

pub record TierAt (a : TieredAllocator) (code_len capacity : ℕ) : Type 0 where
  pub tier : BTree ℕ
  pub found : get code_len a.intervals ≡ some tier
  pub ordered : IsOrdered capacity 0 tier

-- There is a tier for each code length and no other, and its intervals are in order.
pub record IsValid (a : TieredAllocator) : Type 0 where
  pub tiers :
      (code_len capacity : ℕ) → tier_capacity code_len ≡ some capacity → TierAt a code_len capacity
  pub only : (code_len : ℕ) → tier_capacity code_len ≡ none → get code_len a.intervals ≡ none

unfoldable pub is_free : TieredAllocator → ℕ → ℕ → Bool
is_free a code_len id = elim (get code_len a.intervals) [
  | none ↦ false
  | some tier ↦ member id tier
]

-- A tier replaced by one in order keeps the invariant.
pub with_tier-IsValid :
    (a : TieredAllocator) (code_len capacity : ℕ) (tier : BTree ℕ)
    → IsValid a
    → tier_capacity code_len ≡ some capacity
    → IsOrdered capacity 0 tier
    → IsValid (with_tier a code_len tier)
with_tier-IsValid a code_len capacity tier v valid o = record {
  tiers = λ m c h. elim (Bool-cases (code_len == m)) [
    | inl same ↦
        let e : code_len ≡ m = ground arith in
        let k : capacity ≡ c = some_inj (sym valid ∙ ap tier_capacity e ∙ h) in
        record {
          tier = tier;
          found = get-insert code_len m tier a.intervals ∙ rw same refl;
          ordered = rw k at o;
        }
    | inr other ↦ record {
      tier = (v.tiers m c h).tier;
      found = get-insert code_len m tier a.intervals ∙ rw other (v.tiers m c h).found;
      ordered = (v.tiers m c h).ordered;
    }
  ];
  only = λ m h. elim (Bool-cases (code_len == m)) [
    | inl same ↦ let e : code_len ≡ m = ground arith in absurd (cc (valid, h, ap tier_capacity e))
    | inr other ↦ get-insert code_len m tier a.intervals ∙ rw other (v.only m h)
  ];
}

pub is_free-with_tier :
    (a : TieredAllocator) (code_len m j : ℕ) (tier : BTree ℕ)
    → is_free (with_tier a code_len tier) m j
      ≡ (if code_len == m then member j tier else is_free a m j)
unfolding is_free
is_free-with_tier a code_len m j tier = ground (arith, get-insert code_len m tier a.intervals)

-- What `free` does to a valid allocator with an id of a tier.
pub record IsFreed (a : TieredAllocator) (code_len id : ℕ)
    (out : TieredAllocator × Option FreeOutcome) : Type 0 where
  pub outcome : out.1 ≡ some (if is_free a code_len id then already_free else freed)
  pub ids : (m j : ℕ) → is_free out.0 m j ≡ (code_len == m && j == id || is_free a m j)
  pub keeps : IsValid out.0

module _ (a : TieredAllocator) (v : IsValid a) (code_len capacity id : ℕ)
    (valid : tier_capacity code_len ≡ some capacity) (inside : id < capacity) where
  abbrev pub at : TierAt a code_len capacity
  at = v.tiers code_len capacity valid

  small : capacity < 2 ^ 64
  small = let t = tier_capacity-IsTier code_len capacity valid in omega (arith, t.wide, t.narrow)

  pub is_free_at : (j : ℕ) → is_free a code_len j ≡ member j at.tier
  unfolding is_free
  is_free_at j = rw (at.found, is_free) refl

  free_eq : free a code_len id ≡ (
    with_tier a code_len (release id at.tier),
    some (if is_free a code_len id then already_free else freed),
  )
  unfolding free
  free_eq =
      let found = at.found in
      ground (
        arith,
        valid,
        found,
        free_in-release capacity small id inside 0 at.tier at.ordered,
        is_free_at id,
      )

  -- In a valid allocator `free` of an id of a tier adds that id to the free ids and no other, tells
  -- whether it was free already, and keeps the intervals in order, apart from one another and
  -- within the tier.
  pub free-IsFreed : IsFreed a code_len id (free a code_len id)
  free-IsFreed = rw free_eq (record {
    outcome = refl;
    ids = λ m j. ground (
      arith,
      is_free-with_tier a code_len m j (release id at.tier),
      member-release capacity 0 id at.tier at.ordered j,
      is_free_at j,
    );
    keeps =
        with_tier-IsValid a code_len capacity _ v valid
          (release-IsOrdered capacity 0 id at.tier (omega arith) inside at.ordered);
  })
