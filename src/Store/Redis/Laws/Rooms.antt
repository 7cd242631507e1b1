-- ===== src/Store/Redis/Laws/Rooms.antt =====
-- `create`, `get` and `update`: the rooms in the database.
use scpy.Prelude.{
  ℕ, ◌+◌, ◌^◌, ◌<◌, ◌≡◌, refl, ◌∙◌, inl, inr, true, Bool, Option, none, some, arith, Bool-cases,
  ltb, codes, Text, text_eq, Option-cases, subst, some_inj,
}
use scpy.Time.{Clock, now_unix_ms, ttl_to_millis}
use scpy.Alloc.Code.{CodeAllocation, decode_room_id, encode_local_id, code_lengths}
use scpy.Alloc.Code.RoundTrip.{decode-encode}
use scpy.Alloc.Tier.{TieredAllocator, allocate}
use scpy.Alloc.Tier.Invariant.{IsValid}
use scpy.Alloc.Tier.Invariant.Allocate.{Outcome, allocated, exhausted, allocate-Outcome}
use scpy.Store.Types.{StoredRoom, StoredRoomRecord, Result, ok, err, allocator_exhausted}
use scpy.Store.Redis.{Trip, answered, create, get, normalize_record}
use scpy.Store.Redis.Database.{
  Key, clip, key_eq, at_key, Entry, Redis, IsRedis, Contents, unexpired,
}
use scpy.Store.Redis.Scripts.{Codec, expiry, take_id, put_clip, created_record, clip_create, place}
use scpy.Store.Redis.Mirror.{IsMirror, IsMirror-IsSameTiers, IsSameTiers}
use scpy.Store.Redis.Refines.Create.{take_id-allocate}
use scpy.Store.Redis.Laws.Codecs.{fits_json, code_fits, expiry_lem, IsCodec}

-- The record that `create` answers with.
abbrev pub created_room :
    {P : Type 0} → Clock → CodeAllocation → StoredRoom P → ℕ → StoredRoomRecord P
created_room clock code room ttl =
    record (created_record (now_unix_ms clock) (now_unix_ms clock + ttl_to_millis ttl) code.code_len
      code.local_id room) { room_id = code.room_id }

abbrev pub created_result :
    {P : Type 0} → Clock → StoredRoom P → ℕ → Option CodeAllocation → Result (StoredRoomRecord P)
created_result clock room ttl none = err allocator_exhausted
created_result clock room ttl (some code) = ok (created_room clock code room ttl)

-- The strings after `create`, of those before it.
abbrev pub created_strings :
    {V P L Setup : Type 0}
    → Codec V P L Setup
    → Clock
    → Trip
    → StoredRoom P
    → ℕ
    → (Key → Option (Entry V))
    → Option CodeAllocation
    → Key
    → Option (Entry V)
created_strings codec clock trip room ttl strings none = strings
created_strings codec clock trip room ttl strings (some code) =
    at_key (clip code.code_len code.local_id)
      (some (
        codec.room_json (
            created_record (now_unix_ms clock) (now_unix_ms clock + ttl_to_millis ttl) code.code_len
              code.local_id room),
        some (trip.time + ttl_to_millis ttl),
      ))
      strings

pub encoded_of :
    {a : TieredAllocator} {out : TieredAllocator × Option CodeAllocation} (code : CodeAllocation)
    → Outcome a out
    → out.1 ≡ some code
    → encode_local_id code.code_len code.local_id ≡ some code.room_id
encoded_of code (exhausted none_free) e = absurd (cc)
encoded_of code (allocated a' code' i) e =
    subst (λ c. encode_local_id c.code_len c.local_id ≡ some c.room_id) (some_inj e) i.encoded

module _ {D V P L Setup : Type 0} (r : Redis D V) (law : IsRedis r) (codec : Codec V P L Setup)
    (exact : IsCodec codec) (use_expiry_index : Bool) where
  -- The database with a room written: only the string of the room has changed.
  pub record IsWritten (c c' : Contents V) (n id : ℕ) (stored : StoredRoomRecord P) (expiry : ℕ)
      : Type 0 where
    pub same_tiers : IsSameTiers c c'
    pub strings :
        c'.strings ≡ at_key (clip n id) (some (codec.room_json stored, some expiry)) c.strings

  pub put_clip-IsWritten :
      (time n id ttl_ms : ℕ) (stored : StoredRoomRecord P) (d : D)
      → IsWritten
          (law.view d)
          (law.view (put_clip r codec time use_expiry_index n id ttl_ms stored d))
          n
          id
          stored
          (time + ttl_ms)
  unfolding put_clip
  put_clip-IsWritten time n id ttl_ms stored d = elim (Bool-cases use_expiry_index) [
    | inl e ↦
        rw (e, law.zadd_lem, law.set_px_lem)
          (record { same_tiers = record { sets = λ k. refl; hashes = λ k. refl }; strings = refl })
    | inr e ↦
        rw (e, law.set_px_lem)
          (record { same_tiers = record { sets = λ k. refl; hashes = λ k. refl }; strings = refl })
  ]

  -- What `get` reads of a room that is stored and has not expired.
  pub get_stored :
      (trip : Trip) (room_id : Text) (code : CodeAllocation) (stored : StoredRoomRecord P)
      (public_id : Text) (d : D)
      → trip.delivery ≡ answered
      → decode_room_id room_id ≡ some code
      → unexpired trip.time ((law.view d).strings (clip code.code_len code.local_id))
        ≡ some (codec.room_json stored)
      → fits_json stored ≡ true
      → encode_local_id stored.code_len stored.local_id ≡ some public_id
      → get r codec use_expiry_index trip room_id d
        ≡ (d, ok (some (record stored { room_id = public_id })))
  unfolding get normalize_record
  get_stored trip room_id code stored public_id d h decoded present fits encoded =
      let found = law.get_lem trip.time (clip code.code_len code.local_id) d ∙ present in
      let read = exact.serde_room_lem stored fits in rw (get, decoded, h, found, read, encoded) refl

  pub unexpired-IsWritten :
      (c c' : Contents V) (n id expiry time : ℕ) (stored : StoredRoomRecord P)
      → IsWritten c c' n id stored expiry
      → time < expiry
      → unexpired time (c'.strings (clip n id)) ≡ some (codec.room_json stored)
  unexpired-IsWritten c c' n id expiry time stored w h =
      let same : key_eq (clip n id) (clip n id) ≡ true = ground arith in
      let alive : ltb time expiry ≡ true = ground arith in rw (w.strings, same, alive) refl

  placed :
      (time now_ms ttl_ms n id : ℕ) (room : StoredRoom P) (taken : D × Option (Option (ℕ × ℕ)))
      → taken.1 ≡ some (some (n, id))
      → r.accepts_px time ttl_ms ≡ true
      → place r codec time use_expiry_index now_ms ttl_ms room taken ≡ (
        put_clip r codec time use_expiry_index n id ttl_ms
            (created_record now_ms (expiry codec now_ms ttl_ms) n id room)
            taken.0,
        some (record {
          status = codes "ok";
          error = none;
          code_len = some n;
          local_id = some id;
          expires_at_ms = some (expiry codec now_ms ttl_ms);
        }),
      )
  unfolding place
  placed time now_ms ttl_ms n id room (d, answer) e accepted = rw (e, place, accepted) refl

  displaced :
      (time now_ms ttl_ms : ℕ) (room : StoredRoom P) (taken : D × Option (Option (ℕ × ℕ)))
      → taken.1 ≡ some none
      → place r codec time use_expiry_index now_ms ttl_ms room taken ≡ (
        taken.0,
        some (record {
          status = codes "err";
          error = some (codes "allocator_exhausted");
          code_len = none;
          local_id = none;
          expires_at_ms = none;
        }),
      )
  unfolding place
  displaced time now_ms ttl_ms room (d, answer) e = rw (e, place) refl

  module _ (clock : Clock) (trip : Trip) (room : StoredRoom P) (ttl : ℕ) (d : D)
      (a : TieredAllocator) (h : trip.delivery ≡ answered) (v : IsValid a)
      (m : IsMirror (law.view d) a) (in_range : trip.time + ttl_to_millis ttl < 10 ^ 14)
      (small : now_unix_ms clock + ttl_to_millis ttl < 10 ^ 14) where
    accepted : r.accepts_px trip.time (ttl_to_millis ttl) ≡ true
    accepted =
        law.accepts_px_lem trip.time (ttl_to_millis ttl) (unfold ttl_to_millis in ground arith)
          in_range

    created_eq :
        (code : CodeAllocation)
        → (allocate a).1 ≡ some code
        → encode_local_id code.code_len code.local_id ≡ some code.room_id
        → create r codec use_expiry_index clock trip room ttl d ≡ (
          put_clip r codec trip.time use_expiry_index code.code_len code.local_id
              (ttl_to_millis ttl)
              (created_record
                (now_unix_ms clock)
                (now_unix_ms clock + ttl_to_millis ttl)
                code.code_len
                code.local_id
                room)
              (take_id r code_lengths d).0,
          ok (created_room clock code room ttl),
        )
    unfolding create clip_create text_eq
    created_eq code e encoded =
        let taken = take_id-allocate r law d a v m in
        let answer =
          placed trip.time (now_unix_ms clock) (ttl_to_millis ttl) code.code_len code.local_id room
            (take_id r code_lengths d) (taken.result ∙ rw e refl) accepted in
        let sum = expiry_lem codec exact (now_unix_ms clock) (ttl_to_millis ttl) (ground arith) in
        let ids = code_fits code.code_len code.local_id code.room_id encoded in
        let read =
          exact.serde_created_lem
            (record {
              status = codes "ok";
              error = none;
              code_len = some code.code_len;
              local_id = some code.local_id;
              expires_at_ms = some (now_unix_ms clock + ttl_to_millis ttl);
            })
            (ground arith) in
        rw (h, answer, sum, read, encoded) refl

    exhausted_eq :
        (allocate a).1 ≡ none
        → create r codec use_expiry_index clock trip room ttl d
          ≡ ((take_id r code_lengths d).0, err allocator_exhausted)
    unfolding create clip_create text_eq
    exhausted_eq e =
        let taken = take_id-allocate r law d a v m in
        let answer =
          displaced trip.time (now_unix_ms clock) (ttl_to_millis ttl) room
            (take_id r code_lengths d) (taken.result ∙ rw e refl) in
        let read =
          exact.serde_created_lem
            (record {
              status = codes "err";
              error = some (codes "allocator_exhausted");
              code_len = none;
              local_id = none;
              expires_at_ms = none;
            })
            refl in
        rw (h, answer, read) refl

    -- With JSON that is read back as it was written, where the expiry of the room is below 10 ^ 14
    -- by the client's clock and by the server's, in a database that mirrors a valid allocator,
    -- `create` of the Redis store, when its request is answered, takes the id that `allocate` takes
    -- and the database goes on to mirror what `allocate` leaves; it stores the room under that id,
    -- changing no other string, or fails because no id is free, changing no string.
    pub create-allocate :
        let (d', result) = create r codec use_expiry_index clock trip room ttl d in
        (result ≡ created_result clock room ttl (allocate a).1)
        × IsMirror (law.view d') (allocate a).0
        × ((law.view d').strings
            ≡ created_strings codec clock trip room ttl (law.view d).strings (allocate a).1)
    create-allocate =
        let taken = take_id-allocate r law d a v m in
        elim (Option-cases (allocate a).1) [
          | inl e ↦ rw (exhausted_eq e, e) (refl, taken.mirrors, taken.strings)
          | inr (code, e) ↦
              let eq = created_eq code e (encoded_of code (allocate-Outcome a v) e) in
              let written =
                put_clip-IsWritten trip.time code.code_len code.local_id (ttl_to_millis ttl)
                  (created_record (now_unix_ms clock) (now_unix_ms clock + ttl_to_millis ttl)
                    code.code_len code.local_id room)
                  (take_id r code_lengths d).0 in
              rw (eq, e)
                (
                  refl,
                  IsMirror-IsSameTiers written.same_tiers taken.mirrors,
                  rw (← taken.strings) written.strings,
                )
        ]

    -- With JSON that is read back as it was written, for a record whose clocks and versions are
    -- below 10 ^ 14 and whose credential id is not empty, and an expiry below 10 ^ 14 by either
    -- clock, in a database that mirrors a valid allocator with a free id, when the requests are
    -- answered, a `get` of the code that `create` answered with, before the room expires, answers
    -- with the same record.
    pub get-create :
        (code : CodeAllocation) (get_trip : Trip)
        → (allocate a).1 ≡ some code
        → get_trip.delivery ≡ answered
        → get_trip.time < trip.time + ttl_to_millis ttl
        → fits_json (created_room clock code room ttl) ≡ true
        → let (d', result) = create r codec use_expiry_index clock trip room ttl d in
          (result ≡ ok (created_room clock code room ttl))
          × (get r codec use_expiry_index get_trip code.room_id d'
              ≡ (d', ok (some (created_room clock code room ttl))))
    get-create code get_trip e k early fits =
        let encoded = encoded_of code (allocate-Outcome a v) e in
        let stored =
          created_record (now_unix_ms clock) (now_unix_ms clock + ttl_to_millis ttl) code.code_len
            code.local_id room in
        let written =
          put_clip-IsWritten trip.time code.code_len code.local_id (ttl_to_millis ttl) stored
            (take_id r code_lengths d).0 in
        let alive =
          unexpired-IsWritten _ _ code.code_len code.local_id _ get_trip.time stored written
            early in
        rw (created_eq code e encoded) (
          refl,
          get_stored get_trip code.room_id
              (record {
                room_id = code.room_id;
                code_len = code.code_len;
                local_id = code.local_id;
              })
              stored code.room_id _ k
              (decode-encode code.code_len code.local_id code.room_id encoded) alive fits encoded,
        )
