-- ===== src/Store/Memory/Tasks/Turns.antt =====
-- Every turn of a task keeps each id at one place, and so does any run of tasks from `new`.
use scpy.Prelude.{
  ℕ, zero, suc, ◌+◌, ◌≡◌, refl, inl, inr, arith, Option, Bool-cases, Option-cases, leb, ◌==◌, ◌%◌,
  ◌^◌, Text, List, [], ◌∷◌,
}
use scpy.HashMap.{lookup}
use scpy.Time.{Clock}
use scpy.Crypto.{CipherEnvelope}
use scpy.Alloc.Code.{CodeAllocation}
use scpy.Alloc.Tier.{TieredAllocator}
use scpy.Alloc.Tier.Invariant.Allocate.{Outcome, allocated, exhausted, allocate-Outcome}
use scpy.Store.Types.{StoredRoom, new_record}
use scpy.Store.Memory.{MemoryRoomStore, write, updated_record}
use scpy.Store.Memory.Steps.{Call}
use scpy.Store.Memory.Tasks.{
  Task, allocating, inserting, reading, evicting, freeing, checking, writing, putting_login_state,
  taking_login_state, putting_session, reading_session, removing_session, deleting_session,
  returned, start, offered, evict, read, check, read_session, resume, System, Event, starts,
  resumes, take_turn, happen, interleave,
}
use scpy.Store.Memory.Tasks.Held.{
  holds, held, IsTask, AreTasks, IsShared, allocate-IsShared, insert-IsShared, remove-IsShared,
  free-IsShared, rewrite-IsShared,
}

-- What stays of the invariant when a task has had its turn.
abbrev Kept : {P L : Type 0} → (ℕ → ℕ → ℕ) → MemoryRoomStore P L × Task P L → Type 0
Kept o (s, t) = IsShared s (λ n id. holds t n id + o n id) × IsTask t

-- The same of a task that holds nothing, whatever it is.
abbrev IsResting : {P L : Type 0} → (ℕ → ℕ → ℕ) → MemoryRoomStore P L → Type 0
IsResting o s = IsShared s (λ n id. 0 + o n id) × Unit

module _ {P L : Type 0} where
  -- Only the rooms, the allocator and the number of holders matter.
  pub IsShared-same :
      (s s' : MemoryRoomStore P L) (h h' : ℕ → ℕ → ℕ)
      → s'.rooms ≡ s.rooms
      → s'.allocator ≡ s.allocator
      → ((n id : ℕ) → h' n id ≡ h n id)
      → IsShared s h
      → IsShared s' h'
  IsShared-same s s' h h' rooms allocator same c = record {
    alloc = rw allocator c.alloc;
    keyed = rw rooms c.keyed;
    once = λ n id code e. rw (rooms, allocator, same n id) (c.once n id code e);
  }

  -- A task that holds no id, and a store whose rooms and ids are as before.
  IsIdle : Task P L → Type 0
  IsIdle t = ((n id : ℕ) → holds t n id ≡ 0) × IsTask t

  Kept-idle :
      (s s' : MemoryRoomStore P L) (o : ℕ → ℕ → ℕ) (t : Task P L)
      → s'.rooms ≡ s.rooms
      → s'.allocator ≡ s.allocator
      → IsIdle t
      → IsShared s o
      → Kept o (s', t)
  unfolding IsIdle
  Kept-idle s s' o t rooms allocator (idle, ok_task) c =
      (IsShared-same s s' o _ rooms allocator (λ n id. omega (arith, idle n id)) c, ok_task)

  rests : (s : MemoryRoomStore P L) (o : ℕ → ℕ → ℕ) → IsShared s o → IsResting o s
  rests s o c = (IsShared-same s s o _ refl refl (λ n id. omega arith) c, tt)

module _ {P L : Type 0} (s : MemoryRoomStore P L) where
  read-IsIdle : (room_id : Text) (now : ℕ) → IsIdle (read s room_id now)
  unfolding read IsIdle
  read-IsIdle room_id now = (λ n id. ground arith, ground arith)

  check-IsIdle :
      (room_id : Text) (now : ℕ) (envelope : CipherEnvelope) (ttl : ℕ)
      → IsIdle (check s room_id now envelope ttl)
  unfolding check IsIdle
  check-IsIdle room_id now envelope ttl = (λ n id. ground arith, ground arith)

  read_session-IsIdle : (key : Text) (now : ℕ) → IsIdle (read_session s key now)
  unfolding read_session IsIdle
  read_session-IsIdle key now = (λ n id. ground arith, ground arith)

module _ {P L : Type 0} (s : MemoryRoomStore P L) (o : ℕ → ℕ → ℕ) (c : IsShared s o) where
  waits : (t : Task P L) → IsIdle t → Kept o (s, t)
  waits t idle = Kept-idle s s o t refl refl idle c

  offered-Kept :
      (clock : Clock) (room : StoredRoom P) (ttl : ℕ)
      {out : TieredAllocator × Option CodeAllocation}
      → Outcome s.allocator out
      → Kept o (offered clock s room ttl out)
  unfolding offered new_record
  offered-Kept clock room ttl (exhausted none_free) = rests s o c
  offered-Kept clock room ttl (allocated a' code i) = (allocate-IsShared s o a' code c i, i.encoded)

  evict-Kept : (room_id : Text) (now : ℕ) → Kept o (evict s room_id now)
  unfolding evict
  evict-Kept room_id now =
      let stays = rests s o c in
      elim (Option-cases (lookup room_id s.rooms)) [
        | inl e ↦ rw (e, evict) stays
        | inr (entry, e) ↦ elim (Bool-cases (leb entry.expires_at now)) [
          | inl expired ↦
              rw (e, evict, expired)
                (remove-IsShared s o room_id entry c e, (room_id, (c.keyed room_id entry e).0))
          | inr live ↦ rw (e, evict, live) stays
        ]
      ]

  write-IsShared :
      (clock : Clock) (room_id : Text) (envelope : CipherEnvelope) (ttl : ℕ)
      → IsShared (write clock s room_id envelope ttl).0 o
  unfolding write updated_record
  write-IsShared clock room_id envelope ttl = elim (Option-cases (lookup room_id s.rooms)) [
    | inl e ↦ rw (e, write) c
    | inr (entry, e) ↦
        elim (Bool-cases (envelope.version == (entry.room_record.content_version + 1) % 2 ^ 64)) [
          | inl next ↦
              rw (e, write, next)
                (rewrite-IsShared s o room_id entry _ c e (c.keyed room_id entry e))
          | inr stale ↦ rw (e, write, stale) c
        ]
  ]

module _ {P L : Type 0} (clock : Clock) (s : MemoryRoomStore P L) (o : ℕ → ℕ → ℕ) where
  -- A task that held no id.
  unheld : IsShared s (λ n id. 0 + o n id) → IsShared s o
  unheld = IsShared-same s s _ o refl refl (λ n id. omega arith)

  -- A method whose turn touches neither rooms nor ids.
  aside :
      (s' : MemoryRoomStore P L)
      → s'.rooms ≡ s.rooms
      → s'.allocator ≡ s.allocator
      → IsShared s (λ n id. 0 + o n id)
      → IsResting o s'
  aside s' rooms allocator c = (IsShared-same s s' _ _ rooms allocator (λ n id. refl) c, tt)

  resume-Kept :
      (t : Task P L)
      → IsTask t
      → IsShared s (λ n id. holds t n id + o n id)
      → Kept o (resume clock s t)
  unfolding resume
  resume-Kept (allocating room ttl) is_task c =
      offered-Kept s o (unheld c) clock room ttl (allocate-Outcome s.allocator c.alloc)
  resume-Kept (inserting r expires_at) is_task c = rests _ o (
      insert-IsShared s o r.room_id (record { room_record = r; expires_at = expires_at }) c
        (is_task, refl))
  resume-Kept (reading room_id now) is_task c = waits s o (unheld c) _ (read-IsIdle s room_id now)
  resume-Kept (evicting room_id now) is_task c = evict-Kept s o (unheld c) room_id now
  resume-Kept (freeing code_len local_id) (code, encoded) c =
      rests _ o (free-IsShared s o code_len local_id code encoded c)
  resume-Kept (checking room_id now envelope ttl) is_task c =
      waits s o (unheld c) _ (check-IsIdle s room_id now envelope ttl)
  resume-Kept (writing room_id now envelope ttl) is_task c =
      rests _ o (write-IsShared s o (unheld c) (record clock { now = now }) room_id envelope ttl)
  resume-Kept (putting_login_state key entry) is_task c = aside _ refl refl c
  resume-Kept (taking_login_state key now) is_task c = aside _ refl refl c
  resume-Kept (putting_session key entry) is_task c = aside _ refl refl c
  resume-Kept (reading_session key now) is_task c =
      waits s o (unheld c) _ (read_session-IsIdle s key now)
  resume-Kept (removing_session key) is_task c = aside _ refl refl c
  resume-Kept (deleting_session key) is_task c = aside _ refl refl c
  resume-Kept (returned answer) is_task c = aside s refl refl c

-- What holds of a store and its tasks, and of ids that others hold.
AllKept : {P L : Type 0} → (ℕ → ℕ → ℕ) → MemoryRoomStore P L × List (Task P L) → Type 0
AllKept o (s, ts) = IsShared s (λ n id. held ts n id + o n id) × AreTasks ts

module _ {P L : Type 0} where
  take_turn-AllKept :
      (clock : Clock) (place : ℕ) (s : MemoryRoomStore P L) (ts : List (Task P L)) (o : ℕ → ℕ → ℕ)
      → AllKept o (s, ts)
      → AllKept o (take_turn clock place s ts)
  unfolding take_turn AllKept held
  take_turn-AllKept clock place s [] o k = k
  take_turn-AllKept clock zero s (t ∷ ts) o (c, (is_task, are_tasks)) =
      let (c', is_task') =
        resume-Kept clock s (λ n id. held ts n id + o n id) t is_task
          (IsShared-same s s _ _ refl refl (λ n id. omega arith) c) in
      (IsShared-same _ _ _ _ refl refl (λ n id. omega arith) c', (is_task', are_tasks))
  take_turn-AllKept clock (suc place) s (t ∷ ts) o (c, (is_task, are_tasks)) =
      let (c', are_tasks') =
        take_turn-AllKept clock place s ts (λ n id. holds t n id + o n id)
          (IsShared-same s s _ _ refl refl (λ n id. omega arith) c, are_tasks) in
      (IsShared-same _ _ _ _ refl refl (λ n id. omega arith) c', (is_task, are_tasks'))

  start-IsIdle : (clock : Clock) (call : Call P L) → IsIdle (start clock call)
  unfolding start IsIdle
  start-IsIdle clock call = (λ n id. ground arith, ground arith)

  -- The invariant of a system.
  pub record IsSound (y : System P L) : Type 0 where
    pub shared : IsShared y.store (held y.tasks)
    pub are_tasks : AreTasks y.tasks

  happen-IsSound : (y : System P L) (event : Event P L) → IsSound y → IsSound (happen y event)
  unfolding happen AllKept held IsIdle
  happen-IsSound y (starts clock call) i =
      let (idle, is_task) = start-IsIdle clock call in
      record {
        shared = IsShared-same _ _ _ _ refl refl (λ n id. omega (arith, idle n id)) i.shared;
        are_tasks = (is_task, i.are_tasks);
      }
  happen-IsSound y (resumes clock place) i =
      let (c, are_tasks) =
        take_turn-AllKept clock place y.store y.tasks (λ n id. 0)
          (IsShared-same _ _ _ _ refl refl (λ n id. omega arith) i.shared, i.are_tasks) in
      record {
        shared = IsShared-same _ _ _ _ refl refl (λ n id. omega arith) c;
        are_tasks = are_tasks;
      }

  pub interleave-IsSound :
      (y : System P L) (events : List (Event P L)) → IsSound y → IsSound (interleave y events)
  unfolding interleave
  interleave-IsSound y [] i = i
  interleave-IsSound y (event ∷ events) i =
      interleave-IsSound (happen y event) events (happen-IsSound y event i)
