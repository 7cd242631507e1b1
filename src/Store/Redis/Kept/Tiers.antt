-- ===== src/Store/Redis/Kept/Tiers.antt =====
-- The scripts that change the free ids keep them apart from the rooms.
use scpy.Prelude.{ℕ, ◌<◌, ◌≡◌, refl, inl, inr, Bool, ◌&&◌, Option, some, arith, ◌==◌, Bool-cases}
use scpy.Alloc.Code.{CodeAllocation, tier_capacity, code_lengths}
use scpy.Alloc.Code.RoundTrip.{encode_local_id_range}
use scpy.Alloc.Tier.{TieredAllocator, allocate, free}
use scpy.Alloc.Tier.Invariant.{free-IsFreed}
use scpy.Alloc.Tier.Invariant.Allocate.{Outcome, allocated, exhausted, allocate-Outcome}
use scpy.Store.Types.{StoredRoom}
use scpy.Store.Redis.Database.{sentinel, clip, expiring, Redis, IsRedis}
use scpy.Store.Redis.Scripts.{
  Codec, expiry, clip_create, clip_free, clip_reclaim_expired, take_id, place, created_record,
  reclaim_members,
}
use scpy.Store.Redis.Index.{ArePlaces-zset_up_to, ArePlaces-take}
use scpy.Store.Redis.Refines.Create.{IsTaken, take_id-allocate}
use scpy.Store.Redis.Refines.Free.{clip_free-IsClipFreed}
use scpy.Store.Redis.Refines.Reclaim.{reclaim_members-IsReclaimed}
use scpy.Store.Redis.Commands.{IsKept}
use scpy.Store.Redis.Kept.{put_clip-IsKept}

module _ {D V P L Setup : Type 0} (r : Redis D V) (law : IsRedis r) (codec : Codec V P L Setup)
    (use_expiry_index : Bool) (time : ℕ) where
  -- The scripts' effect once an id is taken.
  placed-IsKept :
      (now_ms ttl_ms : ℕ) (room : StoredRoom P) (a : TieredAllocator) (d : D)
      (i : IsKept time (law.view d))
      → a ≡ i.allocator
      → (out : TieredAllocator × Option CodeAllocation) → Outcome i.allocator out
      → (taken : D × Option (Option (ℕ × ℕ))) → IsTaken law.view d out taken
      → IsKept time (law.view (place r codec time use_expiry_index now_ms ttl_ms room taken).0)
  unfolding place
  placed-IsKept now_ms ttl_ms room a d i e out (exhausted none_free) (d', answer) t =
      rw (t.result, place)
        (record {
          allocator = i.allocator;
          valid = i.valid;
          mirrors = t.mirrors;
          kept = λ m j h. rw t.strings (i.kept m j h);
          places = rw t.index i.places;
          initialized = λ later. rw t.strings (i.initialized later);
        })
  placed-IsKept now_ms ttl_ms room a d i e out (allocated a' code l) (d', answer) t =
      let (capacity, valid, inside) =
        encode_local_id_range code.code_len code.local_id code.room_id l.encoded in
      let after : IsKept time (law.view d') = record {
        allocator = a';
        valid = l.keeps;
        mirrors = t.mirrors;
        kept = λ m j h. rw t.strings (i.kept m j (ground (arith, l.taken m j)));
        places = rw t.index i.places;
        initialized = λ later. rw t.strings (i.initialized later);
      } in
      elim (Bool-cases (r.accepts_px time ttl_ms)) [
        | inl accepted ↦
            rw (t.result, place, accepted)
              (put_clip-IsKept r law codec use_expiry_index time code.code_len capacity
                code.local_id ttl_ms
                (created_record now_ms (expiry codec now_ms ttl_ms) code.code_len code.local_id
                  room)
                d' after valid inside (ground (arith, l.taken code.code_len code.local_id)))
        | inr failed ↦ rw (t.result, place, failed) after
      ]

  pub create-IsKept :
      (now_ms ttl_ms : ℕ) (room : StoredRoom P) (d : D)
      → IsKept time (law.view d)
      → IsKept time (law.view (clip_create r codec time use_expiry_index now_ms ttl_ms room d).0)
  unfolding clip_create
  create-IsKept now_ms ttl_ms room d i =
      placed-IsKept now_ms ttl_ms room i.allocator d i refl (allocate i.allocator)
        (allocate-Outcome i.allocator i.valid) (take_id r code_lengths d)
        (take_id-allocate r law d i.allocator i.valid i.mirrors)

  pub free-IsKept :
      (n capacity id : ℕ) (d : D)
      → IsKept time (law.view d)
      → tier_capacity n ≡ some capacity
      → id < capacity
      → IsKept time (law.view (clip_free r use_expiry_index n id d).0)
  free-IsKept n capacity id d i valid inside =
      let (d', eq, c) =
        clip_free-IsClipFreed r law use_expiry_index d i.allocator i.valid i.mirrors n capacity id
          valid inside in
      let f = free-IsFreed i.allocator i.valid n capacity id valid inside in
      rw eq (record {
        allocator = (free i.allocator n id).0;
        valid = f.keeps;
        mirrors = c.mirrors;
        kept = λ m j h. elim (Bool-cases (n == m && id == j)) [
          | inl same ↦ let s : (m ≡ n) × (j ≡ id) = ground arith in rw (s.0, s.1, c.gone) refl
          | inr other ↦ rw (c.others (clip m j) other) (i.kept m j (ground (arith, f.ids m j)))
        ];
        places = c.index i.places;
        initialized = λ later. rw (c.others sentinel refl) (i.initialized later);
      })

  pub reclaim-IsKept :
      (now_ms limit : ℕ) (d : D)
      → IsKept time (law.view d)
      → IsKept time (law.view (clip_reclaim_expired r time now_ms limit d).0)
  unfolding clip_reclaim_expired
  reclaim-IsKept now_ms limit d i =
      let due =
        ArePlaces-take limit _
          (ArePlaces-zset_up_to now_ms ((law.view d).sets expiring) i.places) in
      let (a', c, d', eq, counted, f) =
        reclaim_members-IsReclaimed r law time _
          (record { reclaimed = 0; cleaned = 0; scanned = 0 }) d i.allocator i.valid i.mirrors
          due in
      let run_eq : reclaim_members r time (r.zrange_up_to expiring now_ms limit d)
            (record { reclaimed = 0; cleaned = 0; scanned = 0 }) d
          ≡ (d', some c) =
        rw law.zrange_up_to_lem eq in
      rw (clip_reclaim_expired, run_eq, run_eq)
        (record {
          allocator = a';
          valid = f.valid;
          mirrors = f.mirrors;
          kept = λ m j h.
              rw f.strings
                (elim (f.only m j h) [ inl before ↦ i.kept m j before | inr missing ↦ missing ]);
          places = f.index i.places;
          initialized = λ later. rw f.strings (i.initialized later);
        })
