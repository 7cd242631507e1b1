-- ===== src/Alloc/Tier/FreeIn.antt =====
-- `free_in`, which looks up the two neighbours of an id and rewrites the map, is `release`.
use scpy.Prelude.{
  ℕ, ◌+◌, ◌^◌, ◌≤◌, ◌<◌, ◌≡◌, refl, sym, ap, ◌∙◌, inl, inr, true, false, [], ◌∷◌, arith, ltb, ◌==◌,
  some, Bool-cases, Option-cases, if◌then◌else◌, ◌>>=◌,
}
use scpy.BTree.{BTree, get, remove, insert, last_up_to}
use scpy.Alloc.Tier.{freed, already_free, left_adjacent, right_adjacent, merge, covers, free_in}
use scpy.Alloc.Tier.Interval.{IsOrdered, member, member_below, get_below, last_up_to_below, release}

-- A key below all others goes in front.
pub insert_head :
    (capacity low key end : ℕ) (tier : BTree ℕ)
    → IsOrdered capacity low tier
    → key < low
    → insert key end tier ≡ (key, end) ∷ tier
unfolding insert
insert_head capacity low key end [] o h = refl
insert_head capacity low key end ((start, stop) ∷ rest) o h = ground arith

last_up_to_bounds :
    (capacity low id : ℕ) (tier : BTree ℕ) (a b : ℕ)
    → IsOrdered capacity low tier
    → last_up_to id tier ≡ some (a, b)
    → (low ≤ a) × (a ≤ id)
unfolding last_up_to
last_up_to_bounds capacity low id [] a b o h = absurd (ground arith)
last_up_to_bounds capacity low id ((start, end) ∷ rest) a b o h =
    ground (arith, last_up_to_bounds capacity (end + 2) id rest a b o.3)

-- The interval found to the left covers the id exactly when some interval does.
pub covers-member :
    (capacity low id : ℕ) (tier : BTree ℕ)
    → IsOrdered capacity low tier
    → covers (last_up_to id tier) id ≡ member id tier
unfolding covers member last_up_to
covers-member capacity low id [] o = refl
covers-member capacity low id ((start, end) ∷ rest) o = elim (Option-cases (last_up_to id rest)) [
  | inl e ↦ ground (
    arith,
    covers-member capacity (end + 2) id rest o.3,
    member_below capacity (end + 2) id rest o.3,
  )
  | inr ((a, b), e) ↦ ground (
    arith,
    covers-member capacity (end + 2) id rest o.3,
    member_below capacity (end + 2) id rest o.3,
    last_up_to_bounds capacity (end + 2) id rest a b o.3 e,
  )
]

-- An id that is free already leaves the intervals as they are.
pub release-eq_of_member :
    (capacity low id : ℕ) (tier : BTree ℕ)
    → IsOrdered capacity low tier
    → member id tier ≡ true
    → release id tier ≡ tier
unfolding release member
release-eq_of_member capacity low id [] o h = absurd (ground arith)
release-eq_of_member capacity low id ((start, end) ∷ rest) o h = ground (
  arith,
  member_below capacity (end + 2) id rest o.3,
  release-eq_of_member capacity (end + 2) id rest o.3,
)

abbrev merged : ℕ → BTree ℕ → BTree ℕ
merged id tier = merge (left_adjacent (last_up_to id tier) id) (right_adjacent id tier) id tier

module _ (capacity : ℕ) (small : capacity < 2 ^ 64) (id : ℕ) (below : id < capacity) where
  right_adjacent_lem :
      (tier : BTree ℕ) → right_adjacent id tier ≡ (get (id + 1) tier >>= λ end. some (id + 1, end))
  unfolding right_adjacent
  right_adjacent_lem tier = ground arith

  module _ (low start end : ℕ) (rest : BTree ℕ)
      (ordered : IsOrdered capacity low ((start, end) ∷ rest)) where
    merged_before : id < start → merged id ((start, end) ∷ rest) ≡ release id ((start, end) ∷ rest)
    unfolding merge left_adjacent last_up_to release get insert remove
    merged_before h = rw (right_adjacent_lem ((start, end) ∷ rest)) (
        ground (
          arith,
          get_below capacity (end + 2) (id + 1) rest ordered.3,
          insert_head capacity (end + 2) id end rest ordered.3,
        ))

    merged_adjacent :
        id ≡ end + 1 → merged id ((start, end) ∷ rest) ≡ release id ((start, end) ∷ rest)
    unfolding merge left_adjacent last_up_to release get insert remove
    merged_adjacent h =
        rw (right_adjacent_lem ((start, end) ∷ rest))
          (ground (arith, last_up_to_below capacity (end + 2) id rest ordered.3))

    left_after :
        end + 1 < id
        → left_adjacent (last_up_to id ((start, end) ∷ rest)) id
          ≡ left_adjacent (last_up_to id rest) id
    unfolding left_adjacent last_up_to
    left_after h = ground arith

    right_after : end + 1 < id → right_adjacent id ((start, end) ∷ rest) ≡ right_adjacent id rest
    unfolding get
    right_after h =
        rw (right_adjacent_lem ((start, end) ∷ rest), right_adjacent_lem rest) (ground arith)

    -- A left neighbour among the later intervals starts after this one.
    left_bound : (a b : ℕ) → left_adjacent (last_up_to id rest) id ≡ some (a, b) → start < a
    unfolding left_adjacent
    left_bound a b h = elim (Option-cases (last_up_to id rest)) [
      | inl e ↦ absurd (ground arith)
      | inr ((a', b'), e) ↦
          let bounds = last_up_to_bounds capacity (end + 2) id rest a' b' ordered.3 e in
          let same : a' ≡ a = ground arith in omega arith
    ]

    merged_after : end + 1 < id → merged id ((start, end) ∷ rest) ≡ (start, end) ∷ merged id rest
    merged_after h =
        rw (left_after h, right_after h, right_adjacent_lem rest)
          (elim (Option-cases (left_adjacent (last_up_to id rest) id)) [
            | inl l ↦ elim (Option-cases (get (id + 1) rest)) [
              | inl r ↦ rw (l, r) (unfold merge insert remove in ground arith)
              | inr (right_end, r) ↦ rw (l, r) (unfold merge insert remove in ground arith)
            ]
            | inr ((a, b), l) ↦
                let bound = left_bound a b l in
                elim (Option-cases (get (id + 1) rest)) [
                  | inl r ↦ rw (l, r) (unfold merge insert remove in ground arith)
                  | inr (right_end, r) ↦ rw (l, r) (unfold merge insert remove in ground arith)
                ]
          ])

  merged-release :
      (low : ℕ) (tier : BTree ℕ)
      → IsOrdered capacity low tier
      → member id tier ≡ false
      → merged id tier ≡ release id tier
  merged-release low [] o h =
      rw (right_adjacent_lem []) (unfold merge left_adjacent last_up_to release get insert in refl)
  merged-release low ((start, end) ∷ rest) o h = elim (Bool-cases (ltb id start)) [
    | inl before ↦ merged_before low start end rest o (ground arith)
    | inr other ↦ elim (Bool-cases (id == end + 1)) [
      | inl adjacent ↦ merged_adjacent low start end rest o (ground arith)
      | inr apart ↦
          let after : end + 1 < id = unfold member in ground arith in
          let absent : member id rest ≡ false = unfold member in ground arith in
          let same : release id ((start, end) ∷ rest) ≡ (start, end) ∷ release id rest =
            unfold release in ground arith in
          merged_after low start end rest o after
          ∙ ap (λ (t : BTree ℕ). (start, end) ∷ t) (merged-release (end + 2) rest o.3 absent)
          ∙ sym same
    ]
  ]

  -- Freeing an id adds it to the set of free ids, and says whether it was there.
  pub free_in-release :
      (low : ℕ) (tier : BTree ℕ)
      → IsOrdered capacity low tier
      → free_in id tier ≡ (release id tier, if member id tier then already_free else freed)
  unfolding free_in
  free_in-release low tier o =
      rw (covers-member capacity low id tier o) (elim (Bool-cases (member id tier)) [
        | inl m ↦ rw (m, release-eq_of_member capacity low id tier o m) refl
        | inr m ↦ rw (m, merged-release low tier o m) refl
      ])
