-- ===== src/Store/Redis/Mirror.antt =====
-- A database that mirrors an allocator of src/allocator.rs, and what keeps it one.
use scpy.Prelude.{ℕ, ◌≡◌, ◌∙◌, ap, sym, subst, inl, inr, some, some_inj, arith, ◌==◌, Bool-cases}
use scpy.BTree.{BTree, get}
use scpy.BTree.Laws.{get-insert}
use scpy.Alloc.Tier.{TieredAllocator, with_tier}
use scpy.Store.Redis.Database.{starts, ends, number, Contents}
use scpy.Store.Redis.Intervals.{IsTierOf}
use scpy.Store.Redis.Edits.{IsEdit}

-- Each tier of the allocator stands under its two keys.
pub record IsMirror {V : Type 0} (c : Contents V) (a : TieredAllocator) : Type 0 where
  pub at : (n : ℕ) (tier : BTree ℕ) → get n a.intervals ≡ some tier → IsTierOf c n tier

-- Of one database and another the tiers are the same.
pub record IsSameTiers {V : Type 0} (c c' : Contents V) : Type 0 where
  pub sets : (n : ℕ) → c'.sets (starts n) ≡ c.sets (starts n)
  pub hashes : (n : ℕ) → c'.hashes (ends n) ≡ c.hashes (ends n)

module _ {V : Type 0} where
  pub IsTierOf-IsSameTiers :
      {c c' : Contents V} {n : ℕ} {tier : BTree ℕ}
      → IsSameTiers c c'
      → IsTierOf c n tier
      → IsTierOf c' n tier
  IsTierOf-IsSameTiers {c} {c'} {n} {tier} s t = record {
    set_lem = s.sets n ∙ t.set_lem;
    hash_lem = λ start. ap (λ h. h (number start)) (s.hashes n) ∙ t.hash_lem start;
  }

  pub IsMirror-IsSameTiers :
      {c c' : Contents V} {a : TieredAllocator} → IsSameTiers c c' → IsMirror c a → IsMirror c' a
  IsMirror-IsSameTiers s m = record { at = λ n tier h. IsTierOf-IsSameTiers s (m.at n tier h) }

  pub IsMirror-with_tier :
      {c c' : Contents V} {a : TieredAllocator} {n : ℕ} {tier : BTree ℕ}
      → IsEdit c c' n tier
      → IsMirror c a
      → IsMirror c' (with_tier a n tier)
  IsMirror-with_tier {c} {c'} {a} {n} {tier} e m = record {
    at = λ k found h. elim (Bool-cases (n == k)) [
      | inl same ↦
          let s : n ≡ k = ground arith in
          let f : tier ≡ found =
            some_inj (sym (rw same at (get-insert n k tier a.intervals)) ∙ h) in
          subst (λ j. IsTierOf c' j found) s (subst (IsTierOf c' n) f e.mirrors)
      | inr other ↦
          let t = m.at k found (sym (rw other at (get-insert n k tier a.intervals)) ∙ h) in
          record {
            set_lem = e.sets (starts k) other ∙ t.set_lem;
            hash_lem =
                λ start. ap (λ f. f (number start)) (e.hashes (ends k) other) ∙ t.hash_lem start;
          }
    ];
  }
