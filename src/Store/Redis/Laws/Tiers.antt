-- ===== src/Store/Redis/Laws/Tiers.antt =====
-- `connect_with_options`, `free` and `reclaim_expired`: the free ids in the database.
use scpy.Prelude.{
  ℕ, ◌+◌, ◌-◌, ◌≤◌, ◌≡◌, refl, true, false, Bool, Option, none, some, arith, if◌then◌else◌, List,
  [], ◌∷◌, length, Text, text_eq,
}
use scpy.Time.{Clock, now_unix_ms}
use scpy.Alloc.Code.{CodeAllocation, decode_room_id}
use scpy.Alloc.Code.RoundTrip.{encode-decode, encode_local_id_range}
use scpy.Alloc.Tier.{TieredAllocator}
use scpy.Alloc.Tier.Invariant.{IsValid, is_free}
use scpy.Alloc.Tier.Invariant.Fresh.{full_tiers}
use scpy.Store.Types.{ok}
use scpy.Store.Redis.{
  freed, already_free, ReclaimResult, Trip, answered, invoke, connect_with_options, free,
  reclaim_expired, max_one,
}
use scpy.Store.Redis.Database.{
  Member, sentinel, expiring, Redis, IsRedis, unexpired, take, zset_up_to,
}
use scpy.Store.Redis.Scripts.{
  Codec, Counts, alloc_init, clip_free, clip_reclaim_expired, reclaim_members,
}
use scpy.Store.Redis.Index.{ArePlaces}
use scpy.Store.Redis.Mirror.{IsMirror}
use scpy.Store.Redis.Refines.Init.{alloc_init-full_tiers}
use scpy.Store.Redis.Refines.Free.{IsClipFreed, free_response, clip_free-IsClipFreed}
use scpy.Store.Redis.Refines.Reclaim.{reclaim_members-IsReclaimed}
use scpy.Store.Redis.Refines.Reclaimed.{IsReclaimed}

module _ {D : Type 0} where
  pub invoke_answered :
      {X : Type 0} (trip : Trip) (script : ℕ → D → D × Option X) (d d' : D) (x : X)
      → trip.delivery ≡ answered
      → script trip.time d ≡ (d', some x)
      → invoke trip script d ≡ (d', ok x)
  invoke_answered trip script d d' x h e = rw (h, e) refl

module _ {D V P L Setup : Type 0} (r : Redis D V) (law : IsRedis r) (codec : Codec V P L Setup)
    (use_expiry_index : Bool) where
  -- When its request is answered, the first `connect_with_options` on a database without the
  -- sentinel succeeds and leaves it mirroring the allocator that `new` builds; every later one
  -- succeeds and changes nothing.
  pub connect_with_options-IsMirror :
      (trip again : Trip) (d : D)
      → trip.delivery ≡ answered
      → again.delivery ≡ answered
      → unexpired trip.time ((law.view d).strings sentinel) ≡ none
      → let (d', result) = connect_with_options r codec use_expiry_index trip d in
        (result ≡ ok tt)
        × IsMirror (law.view d') full_tiers
        × (connect_with_options r codec use_expiry_index again d' ≡ (d', ok tt))
  unfolding connect_with_options text_eq alloc_init
  connect_with_options-IsMirror trip again d h k absent =
      let (mirrors, fresh, old) =
        alloc_init-full_tiers r law codec.initialized trip.time again.time d absent in
      rw (h, k, fresh, old) (refl, mirrors, refl)

  free_answered :
      (trip : Trip) (d d' : D) (room_id : Text) (code : CodeAllocation) (was_free : Bool)
      → trip.delivery ≡ answered
      → decode_room_id room_id ≡ some code
      → clip_free r use_expiry_index code.code_len code.local_id d
        ≡ (d', some (free_response was_free))
      → free r codec use_expiry_index trip room_id d
        ≡ (d', ok (if was_free then already_free else freed))
  unfolding free text_eq
  free_answered trip d d' room_id code true h decoded e = rw (free, decoded, h, e) refl
  free_answered trip d d' room_id code false h decoded e = rw (free, decoded, h, e) refl

  -- In a database that mirrors a valid allocator, `free` of the Redis store of a room's code, when
  -- its request is answered, tells whether the id was free already, the database goes on to mirror
  -- what `free` of the allocator leaves, and of the strings the room's own is gone and no other has
  -- changed.
  pub free-IsClipFreed :
      (trip : Trip) (d : D) (a : TieredAllocator) (room_id : Text) (code : CodeAllocation)
      → trip.delivery ≡ answered
      → IsValid a
      → IsMirror (law.view d) a
      → decode_room_id room_id ≡ some code
      → (d' : D) × (free r codec use_expiry_index trip room_id d
          ≡ (d', ok (if is_free a code.code_len code.local_id then already_free else freed)))
        × IsClipFreed (law.view d) (law.view d') a code.code_len code.local_id
  free-IsClipFreed trip d a room_id code h v m decoded =
      let (capacity, valid, inside) =
        encode_local_id_range code.code_len code.local_id room_id
          (encode-decode room_id code decoded) in
      let (d', answer, done) =
        clip_free-IsClipFreed r law use_expiry_index d a v m code.code_len capacity code.local_id
          valid inside in
      (
        d',
        free_answered trip d d' room_id code (is_free a code.code_len code.local_id) h decoded
            answer,
        done,
      )

  reclaim_answered :
      (clock : Clock) (trip : Trip) (limit : ℕ) (d d' : D) (c : Counts)
      → trip.delivery ≡ answered
      → reclaim_members r trip.time
          (r.zrange_up_to expiring (now_unix_ms clock) (max_one limit) d)
          (record { reclaimed = 0; cleaned = 0; scanned = 0 })
          d
        ≡ (d', some c)
      → reclaim_expired r codec use_expiry_index clock trip limit d
        ≡ (d', ok (record { reclaimed = c.reclaimed; cleaned = c.cleaned; scanned = c.scanned }))
  unfolding reclaim_expired clip_reclaim_expired text_eq
  reclaim_answered clock trip limit d d' c h e = rw (h, clip_reclaim_expired, e, e) refl

  length-take : (n : ℕ) (list : List Member) → length (take n list) ≤ n
  unfolding take
  length-take n [] = omega arith
  length-take n (x ∷ rest) = ground (arith, length-take (n - 1) rest)

  -- In a database that mirrors a valid allocator, and whose due members of the expiry index name
  -- ids of tiers or no id, `reclaim_expired`, when its request is answered, succeeds with at most
  -- the limit scanned, or one where the limit is 0, and no more reclaimed and cleaned than scanned;
  -- the database mirrors a valid allocator in which free ids stay free and an id comes to be free
  -- only where its room is missing, and no string has changed.
  pub reclaim_expired-IsReclaimed :
      (clock : Clock) (trip : Trip) (limit : ℕ) (d : D) (a : TieredAllocator)
      → trip.delivery ≡ answered
      → IsValid a
      → IsMirror (law.view d) a
      → ArePlaces
          (take (max_one limit) (zset_up_to (now_unix_ms clock) ((law.view d).sets expiring)))
      → (d' : D) × (a' : TieredAllocator) × (result : ReclaimResult) × (reclaim_expired r codec
            use_expiry_index clock trip limit d
          ≡ (d', ok result))
        × (result.reclaimed + result.cleaned ≤ result.scanned)
        × (result.scanned ≤ max_one limit)
        × IsReclaimed trip.time (law.view d) (law.view d') a a'
  reclaim_expired-IsReclaimed clock trip limit d a h v m p =
      let due =
        take (max_one limit) (zset_up_to (now_unix_ms clock) ((law.view d).sets expiring)) in
      let (a', c, d', done, counted, reclaimed) =
        reclaim_members-IsReclaimed r law trip.time due
          (record { reclaimed = 0; cleaned = 0; scanned = 0 }) d a v m p in
      (
        d',
        a',
        record { reclaimed = c.reclaimed; cleaned = c.cleaned; scanned = c.scanned },
        reclaim_answered clock trip limit d d' c h (rw law.zrange_up_to_lem done),
        omega (arith, counted.scanned, counted.bound),
        omega (
          arith,
          counted.scanned,
          length-take (max_one limit) (zset_up_to (now_unix_ms clock) ((law.view d).sets expiring)),
        ),
        reclaimed,
      )
