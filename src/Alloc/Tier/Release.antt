-- ===== src/Alloc/Tier/Release.antt =====
-- `release` keeps the order of the intervals, and adds its id and no other.
use scpy.Prelude.{
  ℕ, ◌+◌, ◌≤◌, ◌<◌, ◌≡◌, ◌∙◌, ap, sym, subst, inl, inr, ◌||◌, [], ◌∷◌, arith, ltb, leb, ◌==◌,
  Bool-cases, Option-cases,
}
use scpy.BTree.{BTree, get, remove}
use scpy.Alloc.Tier.Interval.{
  IsOrdered, IsOrdered-gap, member, get_head, release, Released, before, touching_next, inside,
  touching_last, joining, after,
}

remove_head : (key end : ℕ) (rest : BTree ℕ) → remove key ((key, end) ∷ rest) ≡ rest
unfolding remove
remove_head key end rest = ground arith

module _ (capacity low id start end : ℕ) (rest : BTree ℕ)
    (ordered : IsOrdered capacity low ((start, end) ∷ rest)) where
  release_adjacent :
      id ≡ end + 1 → Released capacity id start end rest (release id ((start, end) ∷ rest))
  unfolding release
  release_adjacent e = elim (Option-cases (get (id + 1) rest)) [
    | inl no_next ↦
        let same : release id ((start, end) ∷ rest) ≡ (start, id) ∷ rest = ground arith in
        rw same (touching_last e no_next)
    | inr (right_end, next) ↦
        let bound : end + 2 ≡ id + 1 = omega arith in
        let (others, shape) =
          get_head capacity (id + 1) rest right_end (rw bound at ordered.3) next in
        let shorter : remove (id + 1) rest ≡ others =
          ap (remove (id + 1)) shape ∙ remove_head (id + 1) right_end others in
        let same : release id ((start, end) ∷ rest) ≡ (start, right_end) ∷ others = ground arith in
        subst (Released capacity id start end rest) (sym same) (joining right_end others e shape)
  ]

  pub release-Released : Released capacity id start end rest (release id ((start, end) ∷ rest))
  release-Released = elim (Bool-cases (id == end + 1)) [
    | inl adjacent ↦ release_adjacent (ground arith)
    | inr apart ↦ elim (Bool-cases (ltb id start)) [
      | inl low_side ↦ elim (Bool-cases (start == id + 1)) [
        | inl touches ↦
            let same : release id ((start, end) ∷ rest) ≡ (id, end) ∷ rest =
              unfold release in ground arith in
            rw same (touching_next (ground arith))
        | inr gap ↦
            let same : release id ((start, end) ∷ rest) ≡ (id, id) ∷ (start, end) ∷ rest =
              unfold release in ground arith in
            rw same (before (ground arith))
      ]
      | inr high_side ↦ elim (Bool-cases (leb id end)) [
        | inl within ↦
            let same : release id ((start, end) ∷ rest) ≡ (start, end) ∷ rest =
              unfold release in ground arith in
            rw same (inside (ground arith) (ground arith))
        | inr beyond ↦
            let same : release id ((start, end) ∷ rest) ≡ (start, end) ∷ release id rest =
              unfold release in ground arith in
            rw same (after (ground arith))
      ]
    ]
  ]

  Released-IsOrdered :
      {out : BTree ℕ}
      → Released capacity id start end rest out
      → low ≤ id
      → id < capacity
      → (end + 2 ≤ id → IsOrdered capacity (end + 2) (release id rest))
      → IsOrdered capacity low out
  Released-IsOrdered (before h) l c later =
      (l, omega arith, c, (omega arith, ordered.1, ordered.2, ordered.3))
  Released-IsOrdered (touching_next e) l c later = (l, omega arith, ordered.2, ordered.3)
  Released-IsOrdered (inside h k) l c later = ordered
  Released-IsOrdered (touching_last e no_next) l c later =
      let bound : end + 2 ≡ id + 1 = omega arith in
      let gap : id + 1 + 1 ≡ id + 2 = omega arith in
      (
        ordered.0,
        omega arith,
        c,
        rw gap at (IsOrdered-gap capacity (id + 1) rest (rw bound at ordered.3) no_next),
      )
  Released-IsOrdered (joining right_end others e shape) l c later =
      let next = subst (IsOrdered capacity (end + 2)) shape ordered.3 in
      (ordered.0, omega arith, next.2, next.3)
  Released-IsOrdered (after h) l c later = (ordered.0, ordered.1, ordered.2, later (omega arith))

  Released-member :
      {out : BTree ℕ}
      → Released capacity id start end rest out
      → (j : ℕ) → member j (release id rest) ≡ (j == id || member j rest)
      → member j out ≡ (j == id || member j ((start, end) ∷ rest))
  unfolding member
  Released-member (before h) j later = ground arith
  Released-member (touching_next e) j later = ground arith
  Released-member (inside h k) j later = ground arith
  Released-member (touching_last e no_next) j later = ground arith
  Released-member (joining right_end others e shape) j later =
      let next = subst (IsOrdered capacity (end + 2)) shape ordered.3 in rw shape (ground arith)
  Released-member (after h) j later = ground arith

pub release-IsOrdered :
    (capacity low id : ℕ) (tier : BTree ℕ)
    → low ≤ id
    → id < capacity
    → IsOrdered capacity low tier
    → IsOrdered capacity low (release id tier)
release-IsOrdered capacity low id [] l c o = unfold release in (l, omega arith, c, tt)
release-IsOrdered capacity low id ((start, end) ∷ rest) l c o =
    Released-IsOrdered capacity low id start end rest o
      (release-Released capacity low id start end rest o) l c
      (λ above. release-IsOrdered capacity (end + 2) id rest above c o.3)

pub member-release :
    (capacity low id : ℕ) (tier : BTree ℕ)
    → IsOrdered capacity low tier
    → (j : ℕ) → member j (release id tier) ≡ (j == id || member j tier)
member-release capacity low id [] o j = unfold release member in ground arith
member-release capacity low id ((start, end) ∷ rest) o j =
    Released-member capacity low id start end rest o
      (release-Released capacity low id start end rest o) j
      (member-release capacity (end + 2) id rest o.3 j)
