-- ===== src/Store/Memory/Tasks/Changes.antt =====
-- What one turn of a task may do to the room under a code.
use scpy.Prelude.{
  ℕ, zero, suc, ◌+◌, ◌%◌, ◌^◌, ◌≡◌, refl, subst, inl, inr, true, arith, leb, Option, none, some,
  some_inj, Bool-cases, Option-cases, ◌==◌, ==_iff, Text, text_eq, text_eq_iff, List, [], ◌∷◌,
}
use scpy.HashMap.{lookup}
use scpy.HashMap.Laws.{lookup-insert, lookup-remove}
use scpy.Time.{Clock, expires_after, now_unix_ms}
use scpy.Crypto.{CipherEnvelope}
use scpy.Alloc.Code.{CodeAllocation}
use scpy.Alloc.Tier
use scpy.Alloc.Tier.{TieredAllocator}
use scpy.Store.Types.{StoredRoom, StoredRoomRecord}
use scpy.Store.Memory.{ExpiringRoom, MemoryRoomStore, new, write, updated_record}
use scpy.Store.Memory.Tasks.{
  Task, allocating, inserting, reading, evicting, freeing, checking, writing, putting_login_state,
  taking_login_state, putting_session, reading_session, removing_session, deleting_session,
  returned, offered, evict, resume, Event, resumes, take_turn, happen, interleave,
}
use scpy.Store.Memory.Tasks.Held.{IsTask, AreTasks}
use scpy.Store.Memory.Tasks.Runs.{begin, interleave-new, task_at, interleave-IsHeldAlone}

-- The room under a code before and after the turn of a task: as it was; the new room of a `create`,
-- where none was; gone, if it had expired when the task began; or rewritten, if the version was next.
pub data Change {P L : Type 0} (clock : Clock) (code : Text)
    : Task P L → Option (ExpiringRoom P) → Option (ExpiringRoom P) → Type 0 where
  same : (t : Task P L) (room : Option (ExpiringRoom P)) → Change clock code t room room
  placed :
      (r : StoredRoomRecord P) (expires_at : ℕ)
      → r.room_id ≡ code
      → Change clock code
          (inserting r expires_at)
          none
          (some (record { room_record = r; expires_at = expires_at }))
  evicted :
      (now : ℕ) (entry : ExpiringRoom P)
      → leb entry.expires_at now ≡ true
      → Change clock code (evicting code now) (some entry) none
  rewritten :
      (now ttl : ℕ) (envelope : CipherEnvelope) (entry : ExpiringRoom P)
      → envelope.version ≡ (entry.room_record.content_version + 1) % 2 ^ 64
      → Change clock code (writing code now envelope ttl) (some entry) (
          some (record {
            room_record = updated_record clock entry.room_record envelope ttl;
            expires_at = expires_after (record clock { now = now }) ttl;
          }))

-- A room to be inserted is the first under its code.
abbrev IsFirst : {P L : Type 0} → MemoryRoomStore P L → Task P L → Type 0
IsFirst s (inserting r expires_at) = lookup r.room_id s.rooms ≡ none
IsFirst s _ = Unit

module _ {P L : Type 0} (clock : Clock) (s : MemoryRoomStore P L) (code : Text) where
  evict-Change :
      (room_id : Text) (now : ℕ)
      → Change {L = L} clock code
          (evicting room_id now)
          (lookup code s.rooms)
          (lookup code (evict s room_id now).0.rooms)
  unfolding evict
  evict-Change room_id now = elim (Option-cases (lookup room_id s.rooms)) [
    | inl e ↦ rw (e, evict) (same _ _)
    | inr (entry, e) ↦ elim (Bool-cases (leb entry.expires_at now)) [
      | inl expired ↦
          rw (e, evict, expired, lookup-remove room_id code s.rooms)
            (elim (Bool-cases (text_eq room_id code)) [
              | inl here ↦
                  let k : room_id ≡ code = (text_eq_iff room_id code).0 here in
                  rw (here, k, rw k at e) (evicted now entry expired)
              | inr there ↦ rw there (same _ _)
            ])
      | inr live ↦ rw (e, evict, live) (same _ _)
    ]
  ]

  write-Change :
      (room_id : Text) (now ttl : ℕ) (envelope : CipherEnvelope)
      → Change {L = L} clock code
          (writing room_id now envelope ttl)
          (lookup code s.rooms)
          (lookup code (write (record clock { now = now }) s room_id envelope ttl).0.rooms)
  unfolding write updated_record now_unix_ms
  write-Change room_id now ttl envelope = elim (Option-cases (lookup room_id s.rooms)) [
    | inl e ↦ rw (e, write) (same _ _)
    | inr (entry, e) ↦
        elim (Bool-cases (envelope.version == (entry.room_record.content_version + 1) % 2 ^ 64)) [
          | inl next ↦
              rw (e, write, next, lookup-insert room_id code _ s.rooms)
                (elim (Bool-cases (text_eq room_id code)) [
                  | inl here ↦
                      let k : room_id ≡ code = (text_eq_iff room_id code).0 here in
                      rw (here, k, rw k at e)
                        (rewritten now ttl envelope entry ((==_iff _ _).0 next))
                  | inr there ↦ rw there (same _ _)
                ])
          | inr stale ↦ rw (e, write, stale) (same _ _)
        ]
  ]

  insert-Change :
      (r : StoredRoomRecord P) (expires_at : ℕ)
      → lookup r.room_id s.rooms ≡ none
      → Change {L = L} clock code
          (inserting r expires_at)
          (lookup code s.rooms)
          (lookup code (resume clock s (inserting r expires_at)).0.rooms)
  unfolding resume
  insert-Change r expires_at vacant =
      rw (lookup-insert r.room_id code _ s.rooms) (elim (Bool-cases (text_eq r.room_id code)) [
        | inl here ↦
            let k : r.room_id ≡ code = (text_eq_iff r.room_id code).0 here in
            rw (here, rw k at vacant) (placed r expires_at k)
        | inr there ↦ rw there (same _ _)
      ])

  offered-rooms :
      (room : StoredRoom P) (ttl : ℕ) (out : TieredAllocator × Option CodeAllocation)
      → (offered clock s room ttl out).0.rooms ≡ s.rooms
  unfolding offered
  offered-rooms room ttl (allocator, none) = refl
  offered-rooms room ttl (allocator, some a) = refl

  resume-Change :
      (t : Task P L)
      → IsFirst s t
      → Change clock code t (lookup code s.rooms) (lookup code (resume clock s t).0.rooms)
  unfolding resume
  resume-Change (allocating room ttl) first =
      rw (offered-rooms room ttl (Tier.allocate s.allocator)) (same _ _)
  resume-Change (inserting r expires_at) vacant = insert-Change r expires_at vacant
  resume-Change (evicting room_id now) first = evict-Change room_id now
  resume-Change (writing room_id now envelope ttl) first = write-Change room_id now ttl envelope
  resume-Change (reading room_id now) first = same _ _
  resume-Change (freeing code_len local_id) first = same _ _
  resume-Change (checking room_id now envelope ttl) first = same _ _
  resume-Change (putting_login_state key entry) first = same _ _
  resume-Change (taking_login_state key now) first = same _ _
  resume-Change (putting_session key entry) first = same _ _
  resume-Change (reading_session key now) first = same _ _
  resume-Change (removing_session key) first = same _ _
  resume-Change (deleting_session key) first = same _ _
  resume-Change (returned answer) first = same _ _

module _ {P L : Type 0} where
  take_turn-resume :
      (clock : Clock) (place : ℕ) (s : MemoryRoomStore P L) (ts : List (Task P L)) (t : Task P L)
      → task_at place ts ≡ some t
      → (take_turn clock place s ts).0 ≡ (resume clock s t).0
  unfolding take_turn
  take_turn-resume clock place s [] t e = ground arith
  take_turn-resume clock zero s (x ∷ ts) t e = rw (some_inj e) refl
  take_turn-resume clock (suc place) s (x ∷ ts) t e = take_turn-resume clock place s ts t e

  IsTask-at :
      (place : ℕ) (ts : List (Task P L)) (t : Task P L)
      → task_at place ts ≡ some t
      → AreTasks ts
      → IsTask t
  IsTask-at place [] t e h = ground arith
  IsTask-at zero (x ∷ ts) t e (h, hs) = subst IsTask (some_inj e) h
  IsTask-at (suc place) (x ∷ ts) t e (h, hs) = IsTask-at place ts t e hs

  IsFirst-task_at :
      (s : MemoryRoomStore P L) (events : List (Event P L)) (place : ℕ) (t : Task P L)
      → new ≡ some s
      → task_at place (interleave (begin s) events).tasks ≡ some t
      → IsTask t
      → IsFirst (interleave (begin s) events).store t
  IsFirst-task_at s events place (inserting r expires_at) h at_place encoded =
      (interleave-IsHeldAlone s events place r.code_len r.local_id r.room_id
        (inserting r expires_at) h at_place (ground arith) encoded).no_room
  IsFirst-task_at s events place _ h at_place is_task = tt

  -- However tasks have taken their turns on a store from `new`, the turn of a task leaves the room
  -- under a code as it was, or stores the new room of a `create` where none was, or removes one
  -- that had expired at the task's start, or rewrites one with the version after its own, in u64
  -- arithmetic.
  pub happen-Change :
      (s : MemoryRoomStore P L) (events : List (Event P L)) (clock : Clock) (place : ℕ)
      (t : Task P L) (code : Text)
      → new ≡ some s
      → task_at place (interleave (begin s) events).tasks ≡ some t
      → Change clock code t
          (lookup code (interleave (begin s) events).store.rooms)
          (lookup code (happen (interleave (begin s) events) (resumes clock place)).store.rooms)
  unfolding happen
  happen-Change s events clock place t code h at_place =
      let y = interleave (begin s) events in
      rw (take_turn-resume clock place y.store y.tasks t at_place) (
        resume-Change clock y.store code t (
          IsFirst-task_at s events place t h at_place
            (IsTask-at place y.tasks t at_place (interleave-new s events h).are_tasks)))
