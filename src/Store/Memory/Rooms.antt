-- ===== src/Store/Memory/Rooms.antt =====
-- What `create`, `get` and `update` of the memory store promise to a caller.
use scpy.Prelude.{
  ℕ, ◌≤◌, ◌<◌, ◌≡◌, refl, sym, ap, ◌∙◌, ◌≢◌, true, false, arith, leb, ltb, Option, none, some, Text,
  text_eq, text_eq_iff, if◌then◌else◌,
}
use scpy.HashMap.{lookup, remove}
use scpy.HashMap.Laws.{lookup-insert, lookup-remove, lookup-remove_self}
use scpy.Time.{Clock, expires_after}
use scpy.Crypto.{CipherEnvelope}
use scpy.Alloc.Code.{CodeAllocation, encode_local_id}
use scpy.Alloc.Tier
use scpy.Alloc.Tier.{TieredAllocator}
use scpy.Alloc.Tier.Invariant.{is_free}
use scpy.Alloc.Tier.Invariant.Allocate.{Outcome, allocated, exhausted, allocate-Outcome}
use scpy.Store.Types.{
  StoredRoom, StoredRoomRecord, allocator_exhausted, Result, ok, err, new_record,
}
use scpy.Store.Memory.{ExpiringRoom, MemoryRoomStore, remove_if_expired, admit, create, get, update}
use scpy.Store.Memory.Invariant.{IsConsistent, is_none, evict-IsConsistent}

-- What `create` returns: a room under a code that no room had, or the error with nothing changed.
pub data Created {P L : Type 0} (clock : Clock) (s : MemoryRoomStore P L) (room : StoredRoom P)
    (ttl : ℕ) : MemoryRoomStore P L × Result (StoredRoomRecord P) → Type 0 where
  stored :
      (s' : MemoryRoomStore P L) (r : StoredRoomRecord P)
      → r ≡ new_record clock r.room_id r.code_len r.local_id room ttl
      → encode_local_id r.code_len r.local_id ≡ some r.room_id
      → lookup r.room_id s.rooms ≡ none
      → ((k : Text)
          → lookup k s'.rooms ≡ (
              if text_eq r.room_id k
              then some (record { room_record = r; expires_at = expires_after clock ttl })
              else lookup k s.rooms))
      → (s'.sessions ≡ s.sessions) × (s'.login_states ≡ s.login_states)
      → Created clock s room ttl (s', ok r)
  refused :
      ((n id : ℕ) → is_free s.allocator n id ≡ false)
      → Created clock s room ttl (s, err allocator_exhausted)

absent_of_free : {P : Type 0} (o : Option (ExpiringRoom P)) → true ≡ is_none o → o ≡ none
absent_of_free none h = refl
absent_of_free (some e) h = absurd (cc)

module _ {P L : Type 0} (s : MemoryRoomStore P L) (c : IsConsistent s) (clock : Clock) where
  admit-Created :
      (room : StoredRoom P) (ttl : ℕ) {out : TieredAllocator × Option CodeAllocation}
      → Outcome s.allocator out
      → Created clock s room ttl (admit clock s room ttl out)
  unfolding admit new_record
  admit-Created room ttl (exhausted none_free) = refused none_free
  admit-Created room ttl (allocated a' code i) =
      stored _ _ refl i.encoded
        (absent_of_free _
          (sym i.was_free ∙ c.exact code.code_len code.local_id code.room_id i.encoded))
        (λ k. lookup-insert code.room_id k _ s.rooms) (refl, refl)

  -- In a consistent store `create` either stores the new record under a code that no room has,
  -- changing no other room, no session and no login state, or fails because no id is free, changing
  -- nothing.
  pub create-Created :
      (room : StoredRoom P) (ttl : ℕ) → Created clock s room ttl (create clock s room ttl)
  unfolding create
  create-Created room ttl = admit-Created room ttl (allocate-Outcome s.allocator c.alloc)

-- Another id than the one whose room goes is unaffected; that one is free again.
pub record IsEvicted {P L : Type 0} (s s' : MemoryRoomStore P L) (room_id : Text)
    (r : StoredRoomRecord P) : Type 0 where
  pub gone : lookup room_id s'.rooms ≡ none
  pub others : (k : Text) → k ≢ room_id → lookup k s'.rooms ≡ lookup k s.rooms
  pub reusable : is_free s'.allocator r.code_len r.local_id ≡ true

module _ {P L : Type 0} (s : MemoryRoomStore P L) where
  -- A room that has not expired, and its last answer.
  pub get_live :
      (clock : Clock) (room_id : Text) (entry : ExpiringRoom P)
      → lookup room_id s.rooms ≡ some entry
      → clock.now < entry.expires_at
      → get clock s room_id ≡ (s, ok (some entry.room_record))
  unfolding get
  get_live clock room_id entry e h =
      let live : ltb clock.now entry.expires_at ≡ true = ground arith in rw (e, get, live) refl

  removed :
      (clock : Clock) (room_id : Text) (entry : ExpiringRoom P)
      → lookup room_id s.rooms ≡ some entry
      → entry.expires_at ≤ clock.now
      → remove_if_expired s room_id clock.now ≡ (
        record s {
          rooms = remove room_id s.rooms;
          allocator =
              (Tier.free s.allocator entry.room_record.code_len entry.room_record.local_id).0;
        },
        some entry.room_record,
      )
  unfolding remove_if_expired
  removed clock room_id entry e h =
      let expired : leb entry.expires_at clock.now ≡ true = ground arith in
      rw (e, remove_if_expired, expired) refl

  module _ (c : IsConsistent s) (clock : Clock) (room_id : Text) (entry : ExpiringRoom P)
      (found : lookup room_id s.rooms ≡ some entry) (expired : entry.expires_at ≤ clock.now) where
    remove_if_expired-IsEvicted :
        IsEvicted s (remove_if_expired s room_id clock.now).0 room_id entry.room_record
    remove_if_expired-IsEvicted =
        let (encoded, named) = c.keyed room_id entry found in
        let kept = evict-IsConsistent s c room_id entry found in
        let gone = lookup-remove_self room_id s.rooms in
        rw (removed clock room_id entry found expired) (record {
          gone = gone;
          others = λ k h. ground (arith, lookup-remove room_id k s.rooms, text_eq_iff room_id k);
          reusable = kept.exact _ _ room_id encoded ∙ ap is_none gone;
        })

    -- In a consistent store `get` of an expired room answers with nothing, removes that room and no
    -- other, and frees its id.
    pub get_expired :
        ((get clock s room_id).1 ≡ ok none)
        × IsEvicted s (get clock s room_id).0 room_id entry.room_record
    unfolding get
    get_expired =
        let evicted = remove_if_expired-IsEvicted in
        let late : ltb clock.now entry.expires_at ≡ false = ground arith in
        (rw (found, get, late) refl, rw (found, get, late) evicted)

    -- In a consistent store `update` of an expired room answers with nothing whatever its version,
    -- removes that room and no other, and frees its id.
    pub update_expired :
        (envelope : CipherEnvelope) (ttl : ℕ)
        → ((update clock s room_id envelope ttl).1 ≡ ok none)
          × IsEvicted s (update clock s room_id envelope ttl).0 room_id entry.room_record
    unfolding update
    update_expired envelope ttl =
        let evicted = remove_if_expired-IsEvicted in
        let late : leb entry.expires_at clock.now ≡ true = ground arith in
        (rw (found, update, late) refl, rw (found, update, late) evicted)
