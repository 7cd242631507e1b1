-- ===== src/Store/Memory/Tasks/Held.antt =====
-- Which ids the tasks hold: a `create` holds the id it was given until its room is stored, and an
-- eviction holds the id of the room it removed until the id is free. With the ids that are free and
-- those of the stored rooms, these are all ids, each once.
use scpy.Prelude.{
  ℕ, ◌+◌, ◌≡◌, Bool, true, false, ◌&&◌, arith, ◌==◌, some, Text, text_eq_iff, List, [], ◌∷◌,
  if◌then◌else◌,
}
use scpy.HashMap.{lookup, insert, remove}
use scpy.HashMap.Laws.{lookup-insert, lookup-remove}
use scpy.Alloc.Code.{CodeAllocation, encode_local_id}
use scpy.Alloc.Code.RoundTrip.{encode_local_id_range}
use scpy.Alloc.Tier
use scpy.Alloc.Tier.{TieredAllocator}
use scpy.Alloc.Tier.Invariant.{IsValid, is_free, free-IsFreed}
use scpy.Alloc.Tier.Invariant.Allocate.{IsAllocated}
use scpy.Store.Memory.{ExpiringRoom, MemoryRoomStore}
use scpy.Store.Memory.Invariant.{IsKeyed, AreKeyed, AreKeyed-insert, is_none, text_eq-codes}
use scpy.Store.Memory.Tasks.{Task, inserting, freeing}

abbrev pub one_if : Bool → ℕ
one_if true = 1
one_if false = 0

module _ {P L : Type 0} where
  abbrev pub holds : Task P L → ℕ → ℕ → ℕ
  holds (inserting r expires_at) n id = one_if (n == r.code_len && id == r.local_id)
  holds (freeing code_len local_id) n id = one_if (n == code_len && id == local_id)
  holds _ n id = 0

  unfoldable pub held : List (Task P L) → ℕ → ℕ → ℕ
  held [] n id = 0
  held (t ∷ ts) n id = holds t n id + held ts n id

  -- A task holds an id that has a code; a new room has the code of its own id.
  abbrev pub IsTask : Task P L → Type 0
  IsTask (inserting r expires_at) = encode_local_id r.code_len r.local_id ≡ some r.room_id
  IsTask (freeing code_len local_id) =
      (code : Text) × (encode_local_id code_len local_id ≡ some code)
  IsTask _ = Unit

  abbrev pub AreTasks : List (Task P L) → Type 0
  AreTasks [] = Unit
  AreTasks (t ∷ ts) = IsTask t × AreTasks ts

  -- Each id that has a code is free, or that of a stored room, or held by one task; and every room
  -- stands under the code of its id.
  pub record IsShared (s : MemoryRoomStore P L) (h : ℕ → ℕ → ℕ) : Type 0 where
    pub alloc : IsValid s.allocator
    pub keyed : AreKeyed s.rooms
    pub once :
        (n id : ℕ) (code : Text)
        → encode_local_id n id ≡ some code
        → one_if (is_free s.allocator n id)
            + (if is_none (lookup code s.rooms) then 0 else 1)
            + h n id
          ≡ 1

module _ {P L : Type 0} (s : MemoryRoomStore P L) (o : ℕ → ℕ → ℕ) where
  -- An allocation moves an id from the free ones to a task.
  pub allocate-IsShared :
      (a' : TieredAllocator) (a : CodeAllocation)
      → IsShared s o
      → IsAllocated s.allocator a' a
      → IsShared
          (record s { allocator = a' })
          (λ n id. one_if (n == a.code_len && id == a.local_id) + o n id)
  allocate-IsShared a' a c i = record {
    alloc = i.keeps;
    keyed = c.keyed;
    once = λ n id code h. ground (arith, i.taken n id, c.once n id code h, i.was_free);
  }

  -- An insertion moves it from the task to a room.
  pub insert-IsShared :
      (code : Text) (entry : ExpiringRoom P)
      → IsShared s (λ n id.
        one_if (n == entry.room_record.code_len && id == entry.room_record.local_id) + o n id)
      → IsKeyed code entry
      → IsShared (record s { rooms = insert code entry s.rooms }) o
  insert-IsShared code entry c own = record {
    alloc = c.alloc;
    keyed = AreKeyed-insert s.rooms code entry own c.keyed;
    once = λ n id k h. ground (
      arith,
      lookup-insert code k entry s.rooms,
      text_eq-codes entry.room_record.code_len entry.room_record.local_id n id code k own.0 h,
      c.once n id k h,
    );
  }

  -- A room rewritten in place keeps its id.
  pub rewrite-IsShared :
      (code : Text) (old entry : ExpiringRoom P)
      → IsShared s o
      → lookup code s.rooms ≡ some old
      → IsKeyed code entry
      → IsShared (record s { rooms = insert code entry s.rooms }) o
  rewrite-IsShared code old entry c found own = record {
    alloc = c.alloc;
    keyed = AreKeyed-insert s.rooms code entry own c.keyed;
    once = λ n id k h.
        ground
          (arith, lookup-insert code k entry s.rooms, text_eq_iff code k, found, c.once n id k h);
  }

  -- An eviction moves the id of a room to a task, and then to the free ones.
  pub remove-IsShared :
      (code : Text) (entry : ExpiringRoom P)
      → IsShared s o
      → lookup code s.rooms ≡ some entry
      → IsShared
          (record s { rooms = remove code s.rooms })
          (λ n id.
            one_if (n == entry.room_record.code_len && id == entry.room_record.local_id) + o n id)
  remove-IsShared code entry c found =
      let (encoded, named) = c.keyed code entry found in
      record {
        alloc = c.alloc;
        keyed = λ k e h. ground (arith, lookup-remove code k s.rooms, c.keyed k e);
        once = λ n id k h. ground (
          arith,
          lookup-remove code k s.rooms,
          text_eq_iff code k,
          found,
          text_eq-codes entry.room_record.code_len entry.room_record.local_id n id code k encoded h,
          c.once n id k h,
        );
      }

  pub free-IsShared :
      (code_len local_id : ℕ) (code : Text)
      → encode_local_id code_len local_id ≡ some code
      → IsShared s (λ n id. one_if (n == code_len && id == local_id) + o n id)
      → IsShared (record s { allocator = (Tier.free s.allocator code_len local_id).0 }) o
  free-IsShared code_len local_id code encoded c =
      let (capacity, valid, inside) = encode_local_id_range code_len local_id code encoded in
      let f = free-IsFreed s.allocator c.alloc code_len capacity local_id valid inside in
      record {
        alloc = f.keeps;
        keyed = c.keyed;
        once = λ n id k h. ground (arith, f.ids n id, c.once n id k h);
      }
