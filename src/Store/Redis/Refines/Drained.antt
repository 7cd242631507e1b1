-- ===== src/Store/Redis/Refines/Drained.antt =====
-- One run of clip_reclaim_expired.lua where the rooms of its members are gone.
use scpy.Prelude.{
  ℕ, ◌-◌, ◌≡◌, refl, ◌∙◌, ap, inl, inr, true, some, leb, ◌==◌, Bool-cases, arith, List, [], ◌∷◌,
  text_eq_refl,
}
use scpy.Alloc.Tier.{TieredAllocator}
use scpy.Alloc.Tier.Invariant.{IsValid, is_free}
use scpy.Store.Redis.Database.{
  expiring, Member, number, pair, other, member_eq, Redis, IsRedis, Contents, take, zset_up_to,
  zset_remove,
}
use scpy.Store.Redis.Index.{ArePlaces}
use scpy.Store.Redis.Mirror.{IsMirror}
use scpy.Store.Redis.Scripts.{Counts, count, reclaim_members}
use scpy.Store.Redis.Refines.Reclaimed.{
  IsReclaimed, IsReclaimed-refl, IsReclaimed-trans, IsFreeAt, AreGone, AreFree,
}
use scpy.Store.Redis.Refines.Reclaim.{turn, turned}
use scpy.Store.Redis.Refines.Drain.{
  rest_after, rest_after_zero, rest_after-cons, rest_after_late, up_to-cons, up_to_late, take-cons,
  take_zero,
}

member_eq_refl : (m : Member) → member_eq m m ≡ true
member_eq_refl (number n) = ground arith
member_eq_refl (pair n id) = ground arith
member_eq_refl (other text) = text_eq_refl text

zset_remove_first :
    (s : ℕ) (m : Member) (rest : List (ℕ × Member)) → zset_remove m ((s, m) ∷ rest) ≡ rest
unfolding zset_remove
zset_remove_first s m rest = rw (zset_remove, member_eq_refl m) refl

-- The first members of the index are taken out, and their ids are free.
pub record IsDrained {V : Type 0} (time : ℕ) (c c' : Contents V) (a a' : TieredAllocator)
    (taken : List Member) (rest : List (ℕ × Member)) : Type 0 where
  pub reclaimed : IsReclaimed time c c' a a'
  pub index : c'.sets expiring ≡ rest
  pub free : AreFree a' taken

IsFreeAt-keeps :
    (a a' : TieredAllocator) (m : Member)
    → ((n id : ℕ) → is_free a n id ≡ true → is_free a' n id ≡ true)
    → IsFreeAt a m
    → IsFreeAt a' m
IsFreeAt-keeps a a' (number n) keeps f = tt
IsFreeAt-keeps a a' (other text) keeps f = tt
IsFreeAt-keeps a a' (pair n id) keeps f = keeps n id f

module _ {D V : Type 0} (r : Redis D V) (law : IsRedis r) (time : ℕ) where
  -- A run over members, with the allocator that the database mirrors after it.
  abbrev Drains : List Member → List (ℕ × Member) → Counts → D → TieredAllocator → Type 0
  Drains taken rest c d a =
      (a' : TieredAllocator) × (c' : Counts) × (d' : D) × (reclaim_members r time taken c d
        ≡ (d', some c'))
      × IsDrained time (law.view d) (law.view d') a a' taken rest

  Drains-none :
      (list : List (ℕ × Member)) (c : Counts) (d : D) (a : TieredAllocator)
      → IsValid a
      → IsMirror (law.view d) a
      → (law.view d).sets expiring ≡ list
      → Drains [] list c d a
  unfolding reclaim_members
  Drains-none list c d a v mirror e = (
    a,
    c,
    d,
    refl,
    record { reclaimed = IsReclaimed-refl time (law.view d) a v mirror; index = e; free = tt },
  )

  pub reclaim_members-IsDrained :
      (k score : ℕ) (list : List (ℕ × Member)) (c : Counts) (d : D) (a : TieredAllocator)
      → IsValid a
      → IsMirror (law.view d) a
      → (law.view d).sets expiring ≡ list
      → ArePlaces (take k (zset_up_to score list))
      → AreGone time (law.view d).strings (take k (zset_up_to score list))
      → Drains (take k (zset_up_to score list)) (rest_after k score list) c d a
  reclaim_members-IsDrained k score [] c d a v mirror e places gone =
      unfold take zset_up_to rest_after in Drains-none [] c d a v mirror e
  reclaim_members-IsDrained k score ((s, m) ∷ rest) c d a v mirror e places gone =
      elim (Bool-cases (leb s score)) [
        | inr late ↦
            rw (up_to_late score s m rest late, rest_after_late k score s m rest late)
              (unfold take in Drains-none ((s, m) ∷ rest) c d a v mirror e)
        | inl in_time ↦ elim (Bool-cases (k == 0)) [
          | inl none_left ↦
              rw
                (
                  take_zero k (zset_up_to score ((s, m) ∷ rest)) none_left,
                  rest_after_zero k score ((s, m) ∷ rest) none_left,
                )
                (Drains-none ((s, m) ∷ rest) c d a v mirror e)
          | inr more ↦
              let (place, later_places) =
                rw (up_to-cons score s m rest in_time, take-cons k m (zset_up_to score rest) more)
                  at places in
              let (here, later_gone) =
                rw (up_to-cons score s m rest in_time, take-cons k m (zset_up_to score rest) more)
                  at gone in
              let (a', what, d', done, step, dropped) = turn r law time m d a v mirror place in
              let (a'', c', d'', dones, drained) =
                reclaim_members-IsDrained (k - 1) score rest (count what c) d' a' step.valid
                  step.mirrors
                  (dropped.index here ∙ ap (zset_remove m) e ∙ zset_remove_first s m rest)
                  later_places (rw step.strings later_gone) in
              rw
                (
                  up_to-cons score s m rest in_time,
                  take-cons k m (zset_up_to score rest) more,
                  rest_after-cons k score s m rest more in_time,
                )
                (
                  a'',
                  c',
                  d'',
                  turned r law time m _ c d d' what done ∙ dones,
                  record {
                    reclaimed = IsReclaimed-trans step drained.reclaimed;
                    index = drained.index;
                    free = (
                      IsFreeAt-keeps a' a'' m drained.reclaimed.keeps (dropped.free here),
                      drained.free,
                    );
                  },
                )
        ]
      ]
