-- ===== src/Store/Redis/Refines/Reclaim.antt =====
-- clip_reclaim_expired.lua: what it frees, and what it counts.
use scpy.Prelude.{
  ℕ, ◌<◌, ◌≡◌, refl, ◌∙◌, ap, inl, inr, true, false, ◌&&◌, Option, none, some, arith, ◌==◌,
  Bool-cases, Option-cases, List, [], ◌∷◌, length,
}
use scpy.Alloc.Code.{tier_capacity}
use scpy.Alloc.Tier.{TieredAllocator, free}
use scpy.Alloc.Tier.Invariant.{IsValid, is_free, free-IsFreed}
use scpy.Store.Redis.Database.{
  Key, expiring, clip, Member, number, pair, other, Redis, IsRedis, unexpired, zset_remove,
}
use scpy.Store.Redis.Index.{IsPlace, ArePlaces, ArePlaces-zset_remove}
use scpy.Store.Redis.Mirror.{IsMirror, IsMirror-with_tier, IsMirror-IsSameTiers}
use scpy.Store.Redis.Scripts.{
  Reclaimed, freed, cleaned, kept, Counts, count, reclaim_member, reclaim_members,
}
use scpy.Store.Redis.Refines.Reclaimed.{
  IsReclaimed, IsReclaimed-refl, IsReclaimed-trans, IsCounted, IsCounted-count, IsDropped, IsFreeAt,
}
use scpy.Store.Redis.Refines.Free.{interval_contains-is_free, merged}

module _ {D V : Type 0} (r : Redis D V) (law : IsRedis r) (time : ℕ) where
  unindexed :
      (m : Member) (d : D) (a : TieredAllocator)
      → IsValid a
      → IsMirror (law.view d) a
      → IsReclaimed time (law.view d) (law.view (r.zrem expiring m d)) a a
  unindexed m d a v mirror = rw law.zrem_lem (record {
    valid = v;
    mirrors = IsMirror-IsSameTiers (record { sets = λ n. refl; hashes = λ n. refl }) mirror;
    strings = refl;
    keeps = λ n id h. h;
    only = λ n id h. inl h;
    index = ArePlaces-zset_remove m ((law.view d).sets expiring);
  })

  exists_missing :
      (k : Key) (d : D) → r.exists time k d ≡ false → unexpired time ((law.view d).strings k) ≡ none
  exists_missing k d h = elim (Option-cases (unexpired time ((law.view d).strings k))) [
    | inl e ↦ e
    | inr (x, e) ↦
        let found : r.exists time k d ≡ true = law.exists_lem time k d ∙ rw e refl in
        absurd (cc (h, found))
  ]

  present_there :
      (n id : ℕ) (d : D)
      → r.exists time (clip n id) d ≡ true
      → ¬ (unexpired time ((law.view d).strings (clip n id)) ≡ none)
  present_there n id d present gone =
      let absent : r.exists time (clip n id) d ≡ false =
        law.exists_lem time (clip n id) d ∙ rw gone refl in
      cc (present, absent)

  cleared :
      (m : Member) (d : D) (a : TieredAllocator)
      → IsFreeAt a m
      → IsDropped time m (law.view d) (law.view (r.zrem expiring m d)) a
  cleared m d a free = record { index = λ gone. rw law.zrem_lem refl; free = λ gone. free }

  -- One turn of the loop, with the allocator that the database mirrors after it.
  abbrev Turn : Member → D → TieredAllocator → Type 0
  Turn m d a =
      (a' : TieredAllocator) × (what : Reclaimed) × (d' : D) × (reclaim_member r time m d
        ≡ (d', some what))
      × IsReclaimed time (law.view d) (law.view d') a a'
      × IsDropped time m (law.view d) (law.view d') a'

  reclaim_pair :
      (n capacity id : ℕ) (d : D) (a : TieredAllocator)
      → IsValid a
      → IsMirror (law.view d) a
      → tier_capacity n ≡ some capacity
      → id < capacity
      → r.exists time (clip n id) d ≡ false
      → Turn (pair n id) d a
  unfolding reclaim_member
  reclaim_pair n capacity id d a v mirror valid inside missing =
      let contains = interval_contains-is_free r law d a v mirror n capacity id valid inside in
      elim (Bool-cases (is_free a n id)) [
        | inl e ↦ (
          a,
          cleaned,
          _,
          rw (missing, contains, e) refl,
          unindexed (pair n id) d a v mirror,
          record { index = λ gone. rw law.zrem_lem refl; free = λ gone. e },
        )
        | inr e ↦
            let (d', tier', done, edit, eq) =
              merged r law d a v mirror n capacity id valid inside e in
            let f = free-IsFreed a v n capacity id valid inside in
            let freed_a : IsReclaimed time (law.view d) (law.view d') a (free a n id).0 = record {
              valid = f.keeps;
              mirrors = rw eq (IsMirror-with_tier edit mirror);
              strings = edit.strings;
              keeps = λ k j h. ground (arith, f.ids k j);
              index = λ places. rw (edit.sets expiring refl) places;
              only = λ k j h. elim (Bool-cases (n == k && j == id)) [
                | inl same ↦
                    let s : (k ≡ n) × (j ≡ id) = ground arith in
                    inr (rw (s.0, s.1) (exists_missing (clip n id) d missing))
                | inr apart ↦ inl (ground (arith, f.ids k j))
              ];
            } in
            (
              (free a n id).0,
              freed,
              _,
              rw (missing, contains, e, done) refl,
              IsReclaimed-trans freed_a
                  (unindexed (pair n id) d' (free a n id).0 f.keeps freed_a.mirrors),
              record {
                index = λ gone.
                    rw law.zrem_lem (ap (zset_remove (pair n id)) (edit.sets expiring refl));
                free = λ gone. ground (arith, f.ids n id);
              },
            )
      ]

  pub turn :
      (m : Member) (d : D) (a : TieredAllocator)
      → IsValid a
      → IsMirror (law.view d) a
      → IsPlace m
      → Turn m d a
  unfolding reclaim_member
  turn (number n) d a v mirror p =
      (a, cleaned, _, refl, unindexed (number n) d a v mirror, cleared (number n) d a tt)
  turn (other text) d a v mirror p =
      (a, cleaned, _, refl, unindexed (other text) d a v mirror, cleared (other text) d a tt)
  turn (pair n id) d a v mirror (capacity, valid, inside) =
      elim (Bool-cases (r.exists time (clip n id) d)) [
        | inl present ↦ (
          a,
          kept,
          d,
          rw present refl,
          IsReclaimed-refl time (law.view d) a v mirror,
          record {
            index = λ gone. absurd (present_there n id d present gone);
            free = λ gone. absurd (present_there n id d present gone);
          },
        )
        | inr missing ↦ reclaim_pair n capacity id d a v mirror valid inside missing
      ]

  pub turned :
      (m : Member) (rest : List Member) (c : Counts) (d d' : D) (what : Reclaimed)
      → reclaim_member r time m d ≡ (d', some what)
      → reclaim_members r time (m ∷ rest) c d ≡ reclaim_members r time rest (count what c) d'
  unfolding reclaim_members
  turned m rest c d d' what e =
      ap {B = D × Option Counts}
        (λ out. elim out.1 [
          | none ↦ (out.0, none)
          | some done ↦ reclaim_members r time rest (count done c) out.0
        ])
        e

  pub reclaim_members-IsReclaimed :
      (list : List Member) (c : Counts) (d : D) (a : TieredAllocator)
      → IsValid a
      → IsMirror (law.view d) a
      → ArePlaces list
      → (a' : TieredAllocator) × (c' : Counts) × (d' : D) × (reclaim_members r time list c d
          ≡ (d', some c'))
        × IsCounted c c' (length list)
        × IsReclaimed time (law.view d) (law.view d') a a'
  unfolding reclaim_members
  reclaim_members-IsReclaimed [] c d a v mirror p = (
    a,
    c,
    d,
    refl,
    record { scanned = omega arith; bound = omega arith },
    IsReclaimed-refl time (law.view d) a v mirror,
  )
  reclaim_members-IsReclaimed (m ∷ rest) c d a v mirror (p, ps) =
      let (a', what, d', eq, step, dropped) = turn m d a v mirror p in
      let (a'', c', d'', eq', counted, steps) =
        reclaim_members-IsReclaimed rest (count what c) d' a' step.valid step.mirrors ps in
      (
        a'',
        c',
        d'',
        turned m rest c d d' what eq ∙ eq',
        IsCounted-count what c c' (length rest) counted,
        IsReclaimed-trans step steps,
      )
