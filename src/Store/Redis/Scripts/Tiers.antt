-- ===== src/Store/Redis/Scripts/Tiers.antt =====
-- redis/alloc_init.lua, redis/clip_free.lua and redis/clip_reclaim_expired.lua, and the loop of
-- redis/clip_create.lua: what the scripts do to the tiers.
use scpy.Prelude.{
  ℕ, ◌+◌, Bool, true, false, Option, none, some, List, [], ◌∷◌, ltb, leb, ◌==◌, codes,
  if◌then◌else◌, ◌>>=◌,
}
use scpy.Store.Redis.Database.{
  sentinel, expiring, starts, ends, clip, Member, number, pair, other, tonumber, Redis,
}
use scpy.Store.Redis.Scripts.Answers.{
  InitScriptResponse, FreeScriptResponse, ReclaimScriptResponse, capacities, Reclaimed, freed,
  cleaned, kept, Counts, count,
}

module _ {D V : Type 0} (r : Redis D V) where
  unfoldable pub init_tiers : List (ℕ × ℕ) → D → D
  init_tiers [] d = d
  init_tiers ((code_len, last) ∷ rest) d =
      let cleared = r.del (ends code_len) (r.del (starts code_len) d) in
      init_tiers rest (
        r.hset (ends code_len) (number 0) (number last)
          (r.zadd (starts code_len) 0 (number 0) cleared))

  -- alloc_init.lua.
  unfoldable pub alloc_init : V → ℕ → D → D × Option InitScriptResponse
  alloc_init initialized time d =
      if r.exists time sentinel d
      then (d, some (record { status = codes "ok"; state = codes "already_initialized" }))
      else (
        r.set sentinel initialized (init_tiers capacities d),
        some (record { status = codes "ok"; state = codes "initialized" }),
      )

  -- `interval_contains`, with the comparison with `nil` that fails.
  unfoldable pub interval_contains : ℕ → ℕ → D → Option Bool
  interval_contains code_len id d = elim (r.zrevrange_up_to (starts code_len) id d) [
    | none ↦ some false
    | some left_start ↦ elim (tonumber left_start) [
      | none ↦ none
      | some start ↦
          if leb start id
          then (elim (r.hget (ends code_len) left_start d) [
            | none ↦ none
            | some left_end ↦ elim (tonumber left_end) [
              | none ↦ none
              | some end ↦ some (leb id end)
            ]
          ])
          else some false
    ]
  ]

  -- The interval that starts right after an id: `right_start` and `right_end`.
  unfoldable pub right_interval : ℕ → ℕ → D → Option (ℕ × ℕ)
  right_interval code_len id d = elim (r.zrange_at (starts code_len) (id + 1) d) [
    | none ↦ none
    | some right ↦ elim (tonumber right) [
      | none ↦ none
      | some right_start ↦ elim (r.hget (ends code_len) right d) [
        | none ↦ none
        | some right_end ↦ elim (tonumber right_end) [
          | none ↦ none
          | some end ↦ some (right_start, end)
        ]
      ]
    ]
  ]

  -- The interval that ends right before an id, if one does; `none` is arithmetic on `nil`.
  unfoldable pub left_interval : ℕ → ℕ → D → Option (Option ℕ)
  left_interval code_len id d = elim (r.zrevrange_up_to (starts code_len) id d) [
    | none ↦ some none
    | some left ↦ elim (tonumber left) [
      | none ↦ some none
      | some left_start ↦ elim (r.hget (ends code_len) left d) [
        | none ↦ none
        | some left_end ↦ elim (tonumber left_end) [
          | none ↦ none
          | some end ↦ some (if end + 1 == id then some left_start else none)
        ]
      ]
    ]
  ]

  -- The four branches on `left_adjacent` and `right_adjacent`.
  unfoldable pub write_merged : ℕ → ℕ → Option ℕ → Option (ℕ × ℕ) → D → D
  write_merged code_len id (some left_start) (some (right_start, right_end)) d =
      r.hdel (ends code_len) (number right_start) (
        r.zrem (starts code_len) (number right_start)
          (r.hset (ends code_len) (number left_start) (number right_end) d))
  write_merged code_len id (some left_start) none d =
      r.hset (ends code_len) (number left_start) (number id) d
  write_merged code_len id none (some (right_start, right_end)) d =
      r.hset (ends code_len) (number id) (number right_end) (
        r.zadd (starts code_len) id (number id) (
          r.hdel (ends code_len) (number right_start)
            (r.zrem (starts code_len) (number right_start) d)))
  write_merged code_len id none none d =
      r.hset (ends code_len) (number id) (number id) (r.zadd (starts code_len) id (number id) d)

  -- `merge_free_interval`, which clip_free.lua has in its body.
  unfoldable pub merge_free_interval : ℕ → ℕ → D → Option D
  merge_free_interval code_len id d = elim (left_interval code_len id d) [
    | none ↦ none
    | some left ↦ some (write_merged code_len id left (right_interval code_len id d) d)
  ]

  -- Without the room and, where the index is kept, its place in it.
  unfoldable pub drop_clip : Bool → ℕ → ℕ → D → D
  drop_clip use_expiry_index code_len local_id d =
      let dropped = r.del (clip code_len local_id) d in
      if use_expiry_index then r.zrem expiring (pair code_len local_id) dropped else dropped

  -- clip_free.lua.
  unfoldable pub clip_free : Bool → ℕ → ℕ → D → D × Option FreeScriptResponse
  clip_free use_expiry_index code_len local_id d =
      let dropped = drop_clip use_expiry_index code_len local_id d in
      elim (interval_contains code_len local_id d) [
        | none ↦ (d, none)
        | some true ↦
            (dropped, some (record { status = codes "ok"; result = some (codes "already_free") }))
        | some false ↦ elim (merge_free_interval code_len local_id dropped) [
          | none ↦ (dropped, none)
          | some merged ↦
              (merged, some (record { status = codes "ok"; result = some (codes "freed") }))
        ]
      ]

  -- The body of the loop of clip_reclaim_expired.lua.
  unfoldable pub reclaim_member : ℕ → Member → D → D × Option Reclaimed
  reclaim_member time (number n) d = (r.zrem expiring (number n) d, some cleaned)
  reclaim_member time (other text) d = (r.zrem expiring (other text) d, some cleaned)
  reclaim_member time (pair code_len local_id) d =
      if r.exists time (clip code_len local_id) d
      then (d, some kept)
      else (elim (interval_contains code_len local_id d) [
        | none ↦ (d, none)
        | some true ↦ (r.zrem expiring (pair code_len local_id) d, some cleaned)
        | some false ↦ elim (merge_free_interval code_len local_id d) [
          | none ↦ (d, none)
          | some merged ↦ (r.zrem expiring (pair code_len local_id) merged, some freed)
        ]
      ])

  unfoldable pub reclaim_members : ℕ → List Member → Counts → D → D × Option Counts
  reclaim_members time [] c d = (d, some c)
  reclaim_members time (m ∷ rest) c d =
      let (d', result) = reclaim_member time m d in
      elim result [ none ↦ (d', none) | some what ↦ reclaim_members time rest (count what c) d' ]

  -- clip_reclaim_expired.lua.
  unfoldable pub clip_reclaim_expired : ℕ → ℕ → ℕ → D → D × Option ReclaimScriptResponse
  clip_reclaim_expired time now_ms limit d =
      let (d', result) =
        reclaim_members time (r.zrange_up_to expiring now_ms limit d)
          (record { reclaimed = 0; cleaned = 0; scanned = 0 }) d in
      elim result [
        | none ↦ (d', none)
        | some c ↦ (
          d',
          some (record {
            status = codes "ok";
            reclaimed = some c.reclaimed;
            cleaned = some c.cleaned;
            scanned = some c.scanned;
          }),
        )
      ]

  -- The tier without its first interval, which is written back from its second id on if it has one.
  unfoldable pub shrink : ℕ → Member → Option ℕ → Option ℕ → D → D × Option ℕ
  shrink code_len start_member (some start) (some end) d =
      let removed = r.hdel (ends code_len) start_member (r.zrem (starts code_len) start_member d) in
      (
        if ltb start end
            then r.hset (ends code_len) (number (start + 1)) (number end)
                (r.zadd (starts code_len) (start + 1) (number (start + 1)) removed)
            else removed,
        some start,
      )
  shrink code_len start_member (some start) none d =
      (r.hdel (ends code_len) start_member (r.zrem (starts code_len) start_member d), none)
  shrink code_len start_member none end d =
      (r.hdel (ends code_len) start_member (r.zrem (starts code_len) start_member d), none)

  -- The loop of clip_create.lua up to the first tier with an interval, and the id that it takes; the
  -- inner `none` is an error of the script.
  unfoldable pub take_id : List ℕ → D → D × Option (Option (ℕ × ℕ))
  take_id [] d = (d, some none)
  take_id (code_len ∷ rest) d =
      let later = take_id rest d in
      elim (r.zrange_first (starts code_len) d) [
        | none ↦ later
        | some start ↦
            let end = r.hget (ends code_len) start d >>= tonumber in
            let (d', taken) = shrink code_len start (tonumber start) end d in
            (d', elim taken [ none ↦ none | some id ↦ some (some (code_len, id)) ])
      ]
