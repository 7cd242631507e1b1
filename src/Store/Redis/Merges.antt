-- ===== src/Store/Redis/Merges.antt =====
-- The scripts' search of a tier and their merging of an id into it do what src/allocator.rs does to
-- the map of intervals that the database mirrors.
use scpy.Prelude.{
  ℕ, ◌+◌, ◌^◌, ◌≤◌, ◌<◌, ◌≡◌, refl, ◌∙◌, inl, inr, Option, none, some, arith, Option-cases, ◌>>=◌,
}
use scpy.BTree.{BTree, insert, remove, get, last_up_to}
use scpy.Alloc.Tier.{left_adjacent, right_adjacent, covers, merge, checked_add}
use scpy.Alloc.Tier.Interval.{IsOrdered}
use scpy.Store.Redis.Database.{starts, ends, number, Redis, IsRedis}
use scpy.Store.Redis.Intervals.{
  IsAscending, insert-IsAscending, IsOrdered-IsAscending, IsTierOf, start_of, as_number, get-remove,
  zset_at-starts_of, zset_up_to-starts_of, get-last_up_to,
}
use scpy.Store.Redis.Scripts.{
  interval_contains, left_interval, right_interval, write_merged, merge_free_interval,
}
use scpy.Store.Redis.Edits.{IsEdit, IsEdit-trans, put_new, put_old, drop_start}

-- The start of an interval, if there is one.
abbrev pub only_start : Option (ℕ × ℕ) → Option ℕ
only_start none = none
only_start (some (start, end)) = some start

module _ {D V : Type 0} (r : Redis D V) (law : IsRedis r) (d : D) (capacity code_len id : ℕ)
    (tier : BTree ℕ) (small : capacity < 2 ^ 64) (inside : id < capacity)
    (t : IsTierOf (law.view d) code_len tier) (o : IsOrdered capacity 0 tier) where
  found_left : r.zrevrange_up_to (starts code_len) id d ≡ start_of (last_up_to id tier)
  found_left =
      law.zrevrange_up_to_lem (starts code_len) id d ∙ rw t.set_lem (zset_up_to-starts_of id tier)

  found_end : (start : ℕ) → r.hget (ends code_len) (number start) d ≡ as_number (get start tier)
  found_end start = law.hget_lem (ends code_len) (number start) d ∙ t.hash_lem start

  pub interval_contains-covers :
      interval_contains r code_len id d ≡ some (covers (last_up_to id tier) id)
  unfolding interval_contains covers
  interval_contains-covers = elim (Option-cases (last_up_to id tier)) [
    | inl e ↦ rw (found_left, interval_contains, e) refl
    | inr ((start, end), e) ↦
        let found = get-last_up_to capacity 0 id start end tier o e in
        rw (found_left, interval_contains, e, found_end, found.0) (ground arith)
  ]

  left_interval-left_adjacent :
      left_interval r code_len id d ≡ some (only_start (left_adjacent (last_up_to id tier) id))
  unfolding left_interval left_adjacent
  left_interval-left_adjacent = elim (Option-cases (last_up_to id tier)) [
    | inl e ↦ rw (found_left, left_interval, e) refl
    | inr ((start, end), e) ↦
        let found = get-last_up_to capacity 0 id start end tier o e in
        rw (found_left, left_interval, e, found_end, found.0) (ground arith)
  ]

  right_interval-right_adjacent : right_interval r code_len id d ≡ right_adjacent id tier
  unfolding right_interval right_adjacent
  right_interval-right_adjacent =
      let found : r.zrange_at (starts code_len) (id + 1) d
          ≡ (get (id + 1) tier >>= λ end. some (number (id + 1))) =
        law.zrange_at_lem (starts code_len) (id + 1) d
        ∙ rw t.set_lem (zset_at-starts_of (id + 1) tier) in
      let fits : checked_add id 1 ≡ some (id + 1) = ground arith in
      elim (Option-cases (get (id + 1) tier)) [
        | inl e ↦ rw (found, right_interval, fits, e) refl
        | inr (end, e) ↦ rw (found, right_interval, fits, e, found_end, e) refl
      ]

  -- What the neighbours of an id that is not free are.
  record IsLeft (left : Option (ℕ × ℕ)) : Type 0 where
    found : (start end : ℕ) → left ≡ some (start, end) → (get start tier ≡ some end) × (start ≤ id)

  record IsRight (right : Option (ℕ × ℕ)) : Type 0 where
    found :
        (start end : ℕ) → right ≡ some (start, end) → (get start tier ≡ some end) × (start ≡ id + 1)

  left_adjacent-IsLeft : IsLeft (left_adjacent (last_up_to id tier) id)
  unfolding left_adjacent
  left_adjacent-IsLeft = record {
    found = λ start end h. elim (Option-cases (last_up_to id tier)) [
      | inl e ↦ absurd (ground arith)
      | inr ((a, b), e) ↦ let found = get-last_up_to capacity 0 id a b tier o e in ground arith
    ];
  }

  right_adjacent-IsRight : IsRight (right_adjacent id tier)
  unfolding right_adjacent
  right_adjacent-IsRight = record { found = λ start end h. ground arith }

  ascending : IsAscending 0 tier
  ascending = IsOrdered-IsAscending capacity 0 0 tier (omega arith) o

  write_merged-merge :
      (left right : Option (ℕ × ℕ))
      → IsLeft left
      → IsRight right
      → get id tier ≡ none
      → IsEdit
          (law.view d)
          (law.view (write_merged r code_len id (only_start left) right d))
          code_len
          (merge left right id tier)
  unfolding write_merged merge
  write_merged-merge none none l q h = put_new r law d code_len id id tier t h
  write_merged-merge none (some (right_start, right_end)) l q h =
      let dropped = drop_start r law d code_len right_start 0 tier t 0 ascending in
      let fresh = get-remove 0 right_start id tier ascending in
      let (found, place) = q.found right_start right_end refl in
      IsEdit-trans dropped (
        put_new r law _ code_len id right_end (remove right_start tier) dropped.mirrors
          (ground (arith, fresh)))
  write_merged-merge (some (left_start, left_end)) none l q h =
      let (found, place) = l.found left_start left_end refl in
      put_old r law d code_len left_start id tier t 0 left_end ascending found
  write_merged-merge (some (left_start, left_end)) (some (right_start, right_end)) l q h =
      let (found, place) = l.found left_start left_end refl in
      let joined =
        put_old r law d code_len left_start right_end tier t 0 left_end ascending found in
      IsEdit-trans joined (
        drop_start r law _ code_len right_start 0 (insert left_start right_end tier) joined.mirrors
          0 (insert-IsAscending 0 left_start right_end tier (omega arith) ascending))

  -- The id is merged into the tier as `free` of src/allocator.rs merges it.
  pub merge_free_interval-merge :
      get id tier ≡ none
      → (d' : D) × (merge_free_interval r code_len id d ≡ some d')
        × IsEdit
            (law.view d)
            (law.view d')
            code_len
            (merge (left_adjacent (last_up_to id tier) id) (right_adjacent id tier) id tier)
  unfolding merge_free_interval
  merge_free_interval-merge h = (
    _,
    rw (merge_free_interval, left_interval-left_adjacent, right_interval-right_adjacent) refl,
    write_merged-merge (left_adjacent (last_up_to id tier) id) (right_adjacent id tier)
        left_adjacent-IsLeft right_adjacent-IsRight h,
  )
