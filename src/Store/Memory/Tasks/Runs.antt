-- ===== src/Store/Memory/Tasks/Runs.antt =====
-- What holds however the tasks of a store from `new` come in between one another.
use scpy.Prelude.{
  ℕ, zero, suc, ◌+◌, ◌≤◌, ◌≡◌, ◌≢◌, refl, inl, inr, Bool, true, false, arith, Option, none, some,
  some_inj, Bool-cases, ◌==◌, ==_iff, Text, List, [], ◌∷◌,
}
use scpy.HashMap.{lookup}
use scpy.Alloc.Code.{encode_local_id}
use scpy.Alloc.Tier.Invariant.{is_free}
use scpy.Store.Memory.{MemoryRoomStore, new}
use scpy.Store.Memory.Invariant.{IsConsistent, is_none}
use scpy.Store.Memory.Steps.{new-IsConsistent}
use scpy.Store.Memory.Tasks.{Task, returned, System, Event, interleave}
use scpy.Store.Memory.Tasks.Held.{holds, held, IsShared}
use scpy.Store.Memory.Tasks.Turns.{IsShared-same, IsSound, interleave-IsSound}

absent_of_none {ℓ} : {A : Type ℓ} (o : Option A) → is_none o ≡ true → o ≡ none
absent_of_none none h = refl
absent_of_none (some e) h = ground arith

module _ {P L : Type 0} where
  abbrev pub begin : MemoryRoomStore P L → System P L
  begin s = record { store = s; tasks = [] }

  IsConsistent-IsShared : (s : MemoryRoomStore P L) → IsConsistent s → IsShared s (λ n id. 0)
  IsConsistent-IsShared s c = record {
    alloc = c.alloc;
    keyed = c.keyed;
    once = λ n id code h. ground (arith, c.exact n id code h);
  }

  -- In every state that calls of the trait's methods reach on the store that `new` builds, however
  -- their tasks take turns between the locks that they await, each id that has a code is exactly
  -- one of free, of the room stored under that code, or held by one task; each room stands under
  -- the code of its id, and every tier is in order.
  pub interleave-new :
      (s : MemoryRoomStore P L) (events : List (Event P L))
      → new ≡ some s
      → IsSound (interleave (begin s) events)
  unfolding held
  interleave-new s events h = interleave-IsSound (begin s) events (record {
    shared =
        IsShared-same s s _ _ refl refl (λ n id. refl)
          (IsConsistent-IsShared s (new-IsConsistent s h));
    are_tasks = tt;
  })

  abbrev pub has_returned : Task P L → Bool
  has_returned (returned answer) = true
  has_returned _ = false

  -- Every task has returned.
  abbrev pub IsQuiet : List (Task P L) → Type 0
  IsQuiet [] = Unit
  IsQuiet (t ∷ ts) = (has_returned t ≡ true) × IsQuiet ts

  held-IsQuiet : (ts : List (Task P L)) → IsQuiet ts → (n id : ℕ) → held ts n id ≡ 0
  unfolding held
  held-IsQuiet [] q n id = refl
  held-IsQuiet (t ∷ ts) (r, q) n id =
      let none_here : holds t n id ≡ 0 = ground arith in
      omega (arith, none_here, held-IsQuiet ts q n id)

  -- However calls of the trait's methods have come in between one another on a store from `new`,
  -- once all have returned the store is consistent: the free ids are exactly those without a stored
  -- room, so none is lost, and each room stands under the code of its id.
  pub interleave-IsConsistent :
      (s : MemoryRoomStore P L) (events : List (Event P L))
      → new ≡ some s
      → IsQuiet (interleave (begin s) events).tasks
      → IsConsistent (interleave (begin s) events).store
  interleave-IsConsistent s events h q =
      let i = interleave-new s events h in
      let y = interleave (begin s) events in
      record {
        alloc = i.shared.alloc;
        keyed = i.shared.keyed;
        exact =
            λ n id code e. ground (arith, i.shared.once n id code e, held-IsQuiet y.tasks q n id);
      }

  abbrev pub task_at : ℕ → List (Task P L) → Option (Task P L)
  task_at place [] = none
  task_at zero (t ∷ ts) = some t
  task_at (suc place) (t ∷ ts) = task_at place ts

  holds-held :
      (n id place : ℕ) (ts : List (Task P L)) (t : Task P L)
      → task_at place ts ≡ some t
      → holds t n id ≤ held ts n id
  unfolding held
  holds-held n id place [] t e = ground arith
  holds-held n id zero (x ∷ ts) t e = let same : x ≡ t = some_inj e in rw same (omega arith)
  holds-held n id (suc place) (x ∷ ts) t e = omega (arith, holds-held n id place ts t e)

  holds-held_two :
      (n id p q : ℕ) (ts : List (Task P L)) (t u : Task P L)
      → task_at p ts ≡ some t
      → task_at q ts ≡ some u
      → p ≢ q
      → holds t n id + holds u n id ≤ held ts n id
  unfolding held
  holds-held_two n id p q [] t u e k apart = ground arith
  holds-held_two n id zero zero (x ∷ ts) t u e k apart = absurd (apart refl)
  holds-held_two n id zero (suc q) (x ∷ ts) t u e k apart =
      let same : x ≡ t = some_inj e in rw same (omega (arith, holds-held n id q ts u k))
  holds-held_two n id (suc p) zero (x ∷ ts) t u e k apart =
      let same : x ≡ u = some_inj k in rw same (omega (arith, holds-held n id p ts t e))
  holds-held_two n id (suc p) (suc q) (x ∷ ts) t u e k apart =
      omega (arith, holds-held_two n id p q ts t u e k (λ z. apart (omega arith)))

-- What is so of an id that a task holds.
pub record IsHeldAlone {P L : Type 0} (y : System P L) (place n id : ℕ) (code : Text) : Type 0 where
  pub not_free : is_free y.store.allocator n id ≡ false
  pub no_room : lookup code y.store.rooms ≡ none
  pub no_other :
      (other : ℕ) (u : Task P L) → task_at other y.tasks ≡ some u → holds u n id ≡ 1 → other ≡ place

module _ {P L : Type 0} where
  -- However tasks take their turns on a store from `new`, an id that one of them holds, a `create`
  -- before it stores the room or an eviction before it frees the id, is not free, has no stored room,
  -- and is held by no other.
  pub interleave-IsHeldAlone :
      (s : MemoryRoomStore P L) (events : List (Event P L)) (place n id : ℕ) (code : Text)
      (t : Task P L)
      → new ≡ some s
      → task_at place (interleave (begin s) events).tasks ≡ some t
      → holds t n id ≡ 1
      → encode_local_id n id ≡ some code
      → IsHeldAlone (interleave (begin s) events) place n id code
  interleave-IsHeldAlone s events place n id code t h at_place own encoded =
      let y = interleave (begin s) events in
      let once = (interleave-new s events h).shared.once n id code encoded in
      let counted = holds-held n id place y.tasks t at_place in
      record {
        not_free = ground (arith, once, counted);
        no_room = absent_of_none _ (ground (arith, once, counted));
        no_other = λ other u there its_own. elim (Bool-cases (other == place)) [
          | inl same ↦ (==_iff other place).0 same
          | inr apart ↦
              let two =
                holds-held_two n id other place y.tasks u t there at_place (λ e. ground arith) in
              absurd (ground arith)
        ];
      }
