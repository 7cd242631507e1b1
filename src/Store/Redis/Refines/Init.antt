-- ===== src/Store/Redis/Refines/Init.antt =====
-- alloc_init.lua against `TieredAllocator::new`.
use scpy.Prelude.{
  ℕ, ◌+◌, ◌<◌, ◌≡◌, refl, ◌∙◌, inl, inr, true, false, none, some, arith, ◌==◌, Bool-cases, [], ◌∷◌,
  codes, some_inj, subst,
}
use scpy.BTree.{BTree, get}
use scpy.Alloc.Tier.Invariant.Fresh.{full_tiers}
use scpy.Store.Redis.Database.{
  clip, expiring, sentinel, starts, ends, number, Redis, IsRedis, unexpired, zset_remove,
  zset_insert,
}
use scpy.Store.Redis.Intervals.{IsAscending, IsAscending-weaken, IsTierOf, starts_of}
use scpy.Store.Redis.Mirror.{IsMirror, IsSameTiers, IsTierOf-IsSameTiers}
use scpy.Store.Redis.Scripts.{capacities, init_tiers, alloc_init}

-- The tiers of a table of last ids.
abbrev seeded : BTree ℕ → BTree (BTree ℕ)
seeded [] = []
seeded ((n, last) ∷ rest) = (n, (0, last) ∷ []) ∷ seeded rest

module _ {D V : Type 0} (r : Redis D V) (law : IsRedis r) where
  -- One turn of the loop.
  abbrev seed : ℕ → ℕ → D → D
  seed n last d =
      r.hset (ends n) (number 0) (number last)
        (r.zadd (starts n) 0 (number 0) (r.del (ends n) (r.del (starts n) d)))

  seed-IsTierOf : (n last : ℕ) (d : D) → IsTierOf (law.view (seed n last d)) n ((0, last) ∷ [])
  unfolding starts_of zset_remove zset_insert get
  seed-IsTierOf n last d =
      let same : (n == n) ≡ true = ground arith in
      rw (law.hset_lem, law.zadd_lem, law.del_lem, law.del_lem)
        (record { set_lem = rw same refl; hash_lem = λ start. rw same (ground arith) })

  seed-others :
      (n last m : ℕ) (tier : BTree ℕ) (d : D)
      → n < m
      → IsTierOf (law.view d) n tier
      → IsTierOf (law.view (seed m last d)) n tier
  seed-others n last m tier d h t =
      let other : (m == n) ≡ false = ground arith in
      rw (law.hset_lem, law.zadd_lem, law.del_lem, law.del_lem)
        (record { set_lem = rw other t.set_lem; hash_lem = λ start. rw other (t.hash_lem start) })

  init_tiers-others :
      (n : ℕ) (tier : BTree ℕ) (table : BTree ℕ) (d : D)
      → IsAscending (n + 1) table
      → IsTierOf (law.view d) n tier
      → IsTierOf (law.view (init_tiers r table d)) n tier
  unfolding init_tiers
  init_tiers-others n tier [] d o t = t
  init_tiers-others n tier ((m, last) ∷ rest) d o t =
      init_tiers-others n tier rest (seed m last d)
        (IsAscending-weaken (n + 1) (m + 1) rest (omega arith) o.1)
        (seed-others n last m tier d (omega arith) t)

  init_tiers-IsTierOf :
      (low n : ℕ) (tier : BTree ℕ) (table : BTree ℕ) (d : D)
      → IsAscending low table
      → get n (seeded table) ≡ some tier
      → IsTierOf (law.view (init_tiers r table d)) n tier
  unfolding init_tiers get
  init_tiers-IsTierOf low n tier [] d o h = absurd (ground arith)
  init_tiers-IsTierOf low n tier ((m, last) ∷ rest) d o h = elim (Bool-cases (m == n)) [
    | inl same ↦
        let s : m ≡ n = ground arith in
        let f : (0, last) ∷ [] ≡ tier = some_inj (rw same at h) in
        subst (λ j. IsTierOf (law.view (init_tiers r ((m, last) ∷ rest) d)) j tier) s
          (subst (IsTierOf (law.view (init_tiers r ((m, last) ∷ rest) d)) m) f (
            init_tiers-others m ((0, last) ∷ []) rest (seed m last d) o.1 (seed-IsTierOf m last d)))
    | inr other ↦ init_tiers-IsTierOf (m + 1) n tier rest (seed m last d) o.1 (rw other at h)
  ]

  -- The rooms and their index are as before.
  pub init_tiers_rooms :
      (table : BTree ℕ) (d : D)
      → ((n id : ℕ)
          → (law.view (init_tiers r table d)).strings (clip n id)
            ≡ (law.view d).strings (clip n id))
        × ((law.view (init_tiers r table d)).sets expiring ≡ (law.view d).sets expiring)
  unfolding init_tiers
  init_tiers_rooms [] d = (λ n id. refl, refl)
  init_tiers_rooms ((m, last) ∷ rest) d =
      let later = init_tiers_rooms rest (seed m last d) in
      (
        λ n id. later.0 n id ∙ rw (law.hset_lem, law.zadd_lem, law.del_lem, law.del_lem) refl,
        later.1 ∙ rw (law.hset_lem, law.zadd_lem, law.del_lem, law.del_lem) refl,
      )

  pub sentinel_written :
      (initialized : V) (d : D)
      → (law.view (r.set sentinel initialized d)).strings sentinel ≡ some (initialized, none)
  sentinel_written initialized d = rw law.set_lem refl

  -- Where the sentinel is missing, alloc_init.lua makes a database that mirrors a new allocator; run
  -- again, at any time, it changes nothing.
  pub alloc_init-full_tiers :
      (initialized : V) (time later : ℕ) (d : D)
      → unexpired time ((law.view d).strings sentinel) ≡ none
      → let (d', response) = alloc_init r initialized time d in
        IsMirror (law.view d') full_tiers
        × (response ≡ some (record { status = codes "ok"; state = codes "initialized" }))
        × (alloc_init r initialized later d'
            ≡ (d', some (record { status = codes "ok"; state = codes "already_initialized" })))
  unfolding alloc_init
  alloc_init-full_tiers initialized time later d absent =
      let missing : r.exists time sentinel d ≡ false =
        law.exists_lem time sentinel d ∙ rw absent refl in
      let d' = r.set sentinel initialized (init_tiers r capacities d) in
      let same : IsSameTiers (law.view (init_tiers r capacities d)) (law.view d') =
        rw law.set_lem (record { sets = λ n. refl; hashes = λ n. refl }) in
      let present : r.exists later sentinel d' ≡ true =
        law.exists_lem later sentinel d'
        ∙ rw (sentinel_written initialized (init_tiers r capacities d)) refl in
      rw missing (
        record {
          at = λ n tier h. IsTierOf-IsSameTiers same (
              init_tiers-IsTierOf 0 n tier capacities d
                (omega arith, (omega arith, (omega arith, (omega arith, tt)))) h);
        },
        refl,
        rw present refl,
      )
