-- ===== src/Store/Redis/Refines/Free.antt =====
-- clip_free.lua against `free` of src/allocator.rs.
use scpy.Prelude.{
  ℕ, ◌+◌, ◌^◌, ◌<◌, ◌≡◌, refl, ◌∙◌, sym, inl, inr, true, false, Bool, none, some, arith, Bool-cases,
  codes, [], ◌∷◌,
}
use scpy.BTree.{BTree, get, last_up_to}
use scpy.Alloc.Code.{tier_capacity}
use scpy.Alloc.Code.Permute.{tier_capacity-IsTier}
use scpy.Alloc.Tier.{
  TieredAllocator, FreeOutcome, freed, already_free, with_tier, covers, free_in, free,
}
use scpy.Alloc.Tier.FreeIn.{covers-member}
use scpy.Alloc.Tier.Interval.{IsOrdered, member}
use scpy.Alloc.Tier.Invariant.{IsValid, TierAt, is_free}
use scpy.Store.Redis.Database.{Key, clip, key_eq, at_key, Redis, IsRedis, Contents, pair, expiring}
use scpy.Store.Redis.Edits.{IsEdit}
use scpy.Store.Redis.Index.{IsIndexed, ArePlaces-zset_remove}
use scpy.Store.Redis.Mirror.{IsMirror, IsMirror-with_tier, IsMirror-IsSameTiers, IsSameTiers}
use scpy.Store.Redis.Scripts.{
  FreeScriptResponse, drop_clip, clip_free, merge_free_interval, interval_contains,
}
use scpy.Store.Redis.Merges.{interval_contains-covers, merge_free_interval-merge}

get_absent :
    (id : ℕ) (tier : BTree ℕ) (capacity low : ℕ)
    → IsOrdered capacity low tier
    → member id tier ≡ false
    → get id tier ≡ none
unfolding member get
get_absent id [] capacity low o h = refl
get_absent id ((start, end) ∷ rest) capacity low o h =
    ground (arith, get_absent id rest capacity (end + 2) o.3)

-- What clip_free.lua answers for an id that was free already, or not.
abbrev pub free_response : Bool → FreeScriptResponse
free_response true = record { status = codes "ok"; result = some (codes "already_free") }
free_response false = record { status = codes "ok"; result = some (codes "freed") }

-- A room has left the database, its id is free, and all other strings are as before.
pub record IsClipFreed {V : Type 0} (c c' : Contents V) (a : TieredAllocator) (n id : ℕ)
    : Type 0 where
  pub mirrors : IsMirror c' (free a n id).0
  pub gone : c'.strings (clip n id) ≡ none
  pub others : (k : Key) → key_eq (clip n id) k ≡ false → c'.strings k ≡ c.strings k
  pub index : IsIndexed c c'

-- An id of a tier in a database that mirrors an allocator.
module _ {D V : Type 0} (r : Redis D V) (law : IsRedis r) (d : D) (a : TieredAllocator)
    (v : IsValid a) (m : IsMirror (law.view d) a) (n capacity id : ℕ)
    (valid : tier_capacity n ≡ some capacity) (inside : id < capacity) where
  abbrev at : TierAt a n capacity
  at = v.tiers n capacity valid

  abbrev tier : BTree ℕ
  tier = at.tier

  small : capacity < 2 ^ 64
  small = let t = tier_capacity-IsTier n capacity valid in omega (arith, t.wide, t.narrow)

  free_in_eq : free a n id ≡ (with_tier a n (free_in id tier).0, some (free_in id tier).1)
  unfolding free
  free_in_eq = let found = at.found in ground (arith, valid, found)

  pub interval_contains-is_free : interval_contains r n id d ≡ some (is_free a n id)
  unfolding is_free
  interval_contains-is_free =
      interval_contains-covers r law d capacity n id tier small inside (m.at n tier at.found)
        at.ordered
      ∙ rw (covers-member capacity 0 id tier at.ordered, at.found, is_free) refl

  free_member : is_free a n id ≡ member id tier
  unfolding is_free
  free_member = rw (at.found, is_free) refl

  pub unmerged :
      is_free a n id ≡ true
      → IsEdit (law.view d) (law.view d) n tier
        × (free a n id ≡ (with_tier a n tier, some already_free))
  unmerged h =
      let covered : covers (last_up_to id tier) id ≡ true =
        covers-member capacity 0 id tier at.ordered ∙ sym free_member ∙ h in
      (
        record {
          mirrors = m.at n tier at.found;
          strings = refl;
          sets = λ k h. refl;
          hashes = λ k h. refl;
        },
        free_in_eq ∙ (unfold free_in in rw (free_in, covered) refl),
      )

  pub merged :
      is_free a n id ≡ false
      → (d' : D) × (tier' : BTree ℕ) × (merge_free_interval r n id d ≡ some d')
        × IsEdit (law.view d) (law.view d') n tier'
        × (free a n id ≡ (with_tier a n tier', some freed))
  merged h =
      let apart : member id tier ≡ false = sym free_member ∙ h in
      let uncovered : covers (last_up_to id tier) id ≡ false =
        covers-member capacity 0 id tier at.ordered ∙ apart in
      let (d', done, edit) =
        merge_free_interval-merge r law d capacity n id tier small inside (m.at n tier at.found)
          at.ordered (get_absent id tier capacity 0 at.ordered apart) in
      (d', _, done, edit, free_in_eq ∙ (unfold free_in in rw (free_in, uncovered) refl))

module _ {D V : Type 0} (r : Redis D V) (law : IsRedis r) (use_expiry_index : Bool) (d : D)
    (a : TieredAllocator) (v : IsValid a) (m : IsMirror (law.view d) a) (n capacity id : ℕ)
    (valid : tier_capacity n ≡ some capacity) (inside : id < capacity) where
  abbrev dropped : D
  dropped = drop_clip r use_expiry_index n id d

  dropped-IsSameTiers : IsSameTiers (law.view d) (law.view dropped)
  unfolding drop_clip
  dropped-IsSameTiers = elim (Bool-cases use_expiry_index) [
    | inl e ↦ rw (e, law.zrem_lem, law.del_lem) (record { sets = λ k. refl; hashes = λ k. refl })
    | inr e ↦ rw (e, law.del_lem) (record { sets = λ k. refl; hashes = λ k. refl })
  ]

  dropped-IsIndexed : IsIndexed (law.view d) (law.view dropped)
  unfolding drop_clip
  dropped-IsIndexed places = elim (Bool-cases use_expiry_index) [
    | inl e ↦
        rw (e, law.zrem_lem, law.del_lem)
          (ArePlaces-zset_remove (pair n id) ((law.view d).sets expiring) places)
    | inr e ↦ rw (e, law.del_lem) places
  ]

  dropped_strings : (law.view dropped).strings ≡ at_key (clip n id) none ((law.view d).strings)
  unfolding drop_clip
  dropped_strings = elim (Bool-cases use_expiry_index) [
    | inl e ↦ rw (e, law.zrem_lem, law.del_lem) refl
    | inr e ↦ rw (e, law.del_lem) refl
  ]

  freed-IsClipFreed :
      (d' : D) (tier' : BTree ℕ) (outcome : FreeOutcome)
      → free a n id ≡ (with_tier a n tier', some outcome)
      → IsEdit (law.view dropped) (law.view d') n tier'
      → IsClipFreed (law.view d) (law.view d') a n id
  freed-IsClipFreed d' tier' outcome e edit =
      let same : key_eq (clip n id) (clip n id) ≡ true = ground arith in
      record {
        mirrors = rw e (IsMirror-with_tier edit (IsMirror-IsSameTiers dropped-IsSameTiers m));
        gone = rw (edit.strings, dropped_strings, same) refl;
        others = λ k h. rw (edit.strings, dropped_strings, h) refl;
        index = λ places. rw (edit.sets expiring refl) (dropped-IsIndexed places);
      }

  -- In a database that mirrors a valid allocator clip_free.lua tells whether an id of a tier was
  -- free, the database goes on to mirror what `free` leaves of the allocator, and of the strings the
  -- room's own is gone and no other has changed.
  pub clip_free-IsClipFreed :
      (d' : D) × (clip_free r use_expiry_index n id d ≡ (d', some (free_response (is_free a n id))))
      × IsClipFreed (law.view d) (law.view d') a n id
  clip_free-IsClipFreed =
      let m' = IsMirror-IsSameTiers dropped-IsSameTiers m in
      let contains = interval_contains-is_free r law d a v m n capacity id valid inside in
      elim (Bool-cases (is_free a n id)) [
        | inl e ↦
            let (edit, eq) = unmerged r law dropped a v m' n capacity id valid inside e in
            (
              dropped,
              unfold clip_free in rw (clip_free, contains, e) refl,
              freed-IsClipFreed dropped _ already_free eq edit,
            )
        | inr e ↦
            let (d', tier', done, edit, eq) =
              merged r law dropped a v m' n capacity id valid inside e in
            (
              d',
              unfold clip_free in rw (clip_free, contains, e, done) refl,
              freed-IsClipFreed d' tier' freed eq edit,
            )
      ]
