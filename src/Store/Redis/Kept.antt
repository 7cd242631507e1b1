-- ===== src/Store/Redis/Kept.antt =====
-- Every command keeps the free ids apart from the rooms that have not expired.
pub mod Tiers
use scpy.Prelude.{
  ℕ, ◌+◌, ◌≤◌, ◌<◌, ◌≡◌, refl, ◌∙◌, ap, sym, inl, inr, true, false, Bool, not, ◌&&◌, ◌||◌, Option,
  none, some, List, [], ◌∷◌, arith, ltb, ◌==◌, if◌then◌else◌, Bool-cases, Option-cases, Text, codes,
  some_inj, subst,
}
use scpy.Auth.{StoredOpaqueLoginState, StoredOpaqueSession}
use scpy.Crypto.{CipherEnvelope}
use scpy.Alloc.Code.{CodeAllocation, decode_room_id, encode_local_id, tier_capacity, code_lengths}
use scpy.Alloc.Code.RoundTrip.{encode-decode, encode_local_id_range}
use scpy.Alloc.Tier.{TieredAllocator, allocate, free}
use scpy.Alloc.Tier.Invariant.{IsValid, is_free, free-IsFreed}
use scpy.Alloc.Tier.Invariant.Fresh.{full_tiers, new-IsValid}
use scpy.Alloc.Tier.Invariant.Allocate.{
  IsAllocated, Outcome, allocated, exhausted, allocate-Outcome,
}
use scpy.Store.Types.{StoredRoom, StoredRoomRecord}
use scpy.Store.Redis.Database.{
  Key, sentinel, setup, clip, starts, ends, login, session, expiring, pair, key_eq, at_key, Redis,
  IsRedis, Contents, Entry, unexpired, members, zset_remove,
}
use scpy.Store.Redis.Scripts.{
  Codec, alloc_init, clip_create, clip_free, clip_reclaim_expired, clip_write, put_clip,
  write_stored, take_id, place, created_record, reclaim_members, Counts,
}
use scpy.Store.Redis.Mirror.{IsMirror, IsMirror-IsSameTiers, IsSameTiers}
use scpy.Store.Redis.Index.{
  IsPlace, ArePlaces, IsIndexed, ArePlaces-zset_insert, ArePlaces-zset_remove, ArePlaces-zset_up_to,
  ArePlaces-take,
}
use scpy.Store.Redis.Refines.Init.{alloc_init-full_tiers}
use scpy.Store.Redis.Refines.Create.{IsTaken, take_id-allocate}
use scpy.Store.Redis.Refines.Free.{clip_free-IsClipFreed}
use scpy.Store.Redis.Refines.Reclaim.{reclaim_members-IsReclaimed}
use scpy.Store.Redis.Commands.{IsKept, IsKept-le, Command, execute, run, InOrder, last_time}

-- Nothing of the rooms has changed.
pub record IsQuiet {V : Type 0} (c c' : Contents V) : Type 0 where
  pub tiers : IsSameTiers c c'
  pub rooms : (n id : ℕ) → c'.strings (clip n id) ≡ c.strings (clip n id)
  pub index : c'.sets expiring ≡ c.sets expiring
  pub made : c'.strings sentinel ≡ c.strings sentinel

pub IsKept-IsQuiet :
    {V : Type 0} {time : ℕ} {c c' : Contents V} → IsQuiet c c' → IsKept time c → IsKept time c'
IsKept-IsQuiet {V} {time} q i = record {
  allocator = i.allocator;
  valid = i.valid;
  mirrors = IsMirror-IsSameTiers q.tiers i.mirrors;
  kept = λ n id e. rw (q.rooms n id) (i.kept n id e);
  places = rw q.index i.places;
  initialized = λ later. rw q.made (i.initialized later);
}

module _ {D V P L Setup : Type 0} (r : Redis D V) (law : IsRedis r) (codec : Codec V P L Setup)
    (use_expiry_index : Bool) (time : ℕ) where
  -- A room is written under an id that is not free.
  pub put_clip-IsKept :
      (n capacity id ttl_ms : ℕ) (stored : StoredRoomRecord P) (d : D)
      (i : IsKept time (law.view d))
      → tier_capacity n ≡ some capacity
      → id < capacity
      → is_free i.allocator n id ≡ false
      → IsKept time (law.view (put_clip r codec time use_expiry_index n id ttl_ms stored d))
  unfolding put_clip
  put_clip-IsKept n capacity id ttl_ms stored d i valid inside taken =
      elim (Bool-cases use_expiry_index) [
        | inl e ↦
            rw (e, law.zadd_lem, law.set_px_lem)
              (record {
                allocator = i.allocator;
                valid = i.valid;
                mirrors =
                    IsMirror-IsSameTiers (record { sets = λ k. refl; hashes = λ k. refl })
                      i.mirrors;
                kept = λ m j h. rw (apart m j h) (i.kept m j h);
                places =
                    ArePlaces-zset_insert law.before stored.expires_at_ms (pair n id) _
                      (capacity, valid, inside) (ArePlaces-zset_remove (pair n id) _ i.places);
                initialized = i.initialized;
              })
        | inr e ↦
            rw (e, law.set_px_lem)
              (record {
                allocator = i.allocator;
                valid = i.valid;
                mirrors =
                    IsMirror-IsSameTiers (record { sets = λ k. refl; hashes = λ k. refl })
                      i.mirrors;
                kept = λ m j h. rw (apart m j h) (i.kept m j h);
                places = i.places;
                initialized = i.initialized;
              })
      ]
    where
      apart : (m j : ℕ) → is_free i.allocator m j ≡ true → key_eq (clip n id) (clip m j) ≡ false
      apart m j h = elim (Bool-cases (n == m && id == j)) [
        | inl same ↦
            let s : (m ≡ n) × (j ≡ id) = ground arith in absurd (cc (rw (s.0, s.1) at h, taken))
        | inr other ↦ other
      ]

  pub set_px-IsQuiet :
      (k : Key) (v : V) (ttl : ℕ) (d : D)
      → ((n id : ℕ) → key_eq k (clip n id) ≡ false)
      → ((n : ℕ) → (key_eq k (starts n) ≡ false) × (key_eq k (ends n) ≡ false))
      → key_eq k expiring ≡ false
      → key_eq k sentinel ≡ false
      → IsQuiet (law.view d) (law.view (r.set_px time k v ttl d))
  set_px-IsQuiet k v ttl d rooms tiers index made = rw law.set_px_lem (record {
    tiers = record { sets = λ n. rw (tiers n).0 refl; hashes = λ n. rw (tiers n).1 refl };
    rooms = λ n id. rw (rooms n id) refl;
    index = rw index refl;
    made = rw made refl;
  })

  pub alloc_init-IsKept :
      (d : D)
      → IsKept time (law.view d)
      → IsKept time (law.view (alloc_init r codec.initialized time d).0)
  unfolding alloc_init
  alloc_init-IsKept d i =
      let (v, made) = i.initialized time in
      let present : r.exists time sentinel d ≡ true =
        law.exists_lem time sentinel d ∙ rw made refl in
      rw (alloc_init, present) i
