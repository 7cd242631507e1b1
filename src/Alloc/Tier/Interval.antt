-- ===== src/Alloc/Tier/Interval.antt =====
-- The maps of free intervals that the allocator keeps, as sets of ids: ordered, disjoint, never
-- adjacent, and below the capacity. `release` is the insertion of one id by recursion.
use scpy.Prelude.{
  ℕ, ◌+◌, ◌≤◌, ◌<◌, ◌≡◌, refl, Bool, true, false, ◌&&◌, ◌||◌, [], ◌∷◌, arith, ltb, leb, ◌==◌,
  if◌then◌else◌, none, some,
}
use scpy.BTree.{BTree, get, last_up_to, remove}

-- The intervals start at `low` or above, end below `capacity`, and keep a gap to the next.
abbrev pub IsOrdered : ℕ → ℕ → BTree ℕ → Type 0
IsOrdered capacity low [] = Unit {0}
IsOrdered capacity low ((start, end) ∷ rest) =
    (low ≤ start) × (start ≤ end) × (end < capacity) × IsOrdered capacity (end + 2) rest

-- The id lies in one of the intervals.
unfoldable pub member : ℕ → BTree ℕ → Bool
member id [] = false
member id ((start, end) ∷ rest) = leb start id && leb id end || member id rest

unfoldable pub release : ℕ → BTree ℕ → BTree ℕ
release id [] = (id, id) ∷ []
release id ((start, end) ∷ rest) =
    let later = release id rest in
    if ltb id start
    then (if start == id + 1 then (id, end) ∷ rest else (id, id) ∷ (start, end) ∷ rest)
    else if leb id end
    then (start, end) ∷ rest
    else if id == end + 1
    then (elim (get (id + 1) rest) [
      | none ↦ (start, id) ∷ rest
      | some right_end ↦ (start, right_end) ∷ remove (id + 1) rest
    ])
    else (start, end) ∷ later

pub IsOrdered-weaken :
    (capacity low low' : ℕ) (tier : BTree ℕ)
    → low' ≤ low
    → IsOrdered capacity low tier
    → IsOrdered capacity low' tier
IsOrdered-weaken capacity low low' [] h o = tt
IsOrdered-weaken capacity low low' ((start, end) ∷ rest) h o = (omega arith, o.1, o.2, o.3)

pub member_below :
    (capacity low id : ℕ) (tier : BTree ℕ)
    → IsOrdered capacity low tier
    → id < low
    → member id tier ≡ false
unfolding member
member_below capacity low id [] o h = refl
member_below capacity low id ((start, end) ∷ rest) o h =
    ground (arith, member_below capacity (end + 2) id rest o.3)

pub member-lt_capacity :
    (capacity low id : ℕ) (tier : BTree ℕ)
    → IsOrdered capacity low tier
    → member id tier ≡ true
    → id < capacity
unfolding member
member-lt_capacity capacity low id [] o h = ground arith
member-lt_capacity capacity low id ((start, end) ∷ rest) o h =
    ground (arith, member-lt_capacity capacity (end + 2) id rest o.3)

-- Below the first start there is no entry, and none that starts at or before an id.
pub get_below :
    (capacity low key : ℕ) (tier : BTree ℕ)
    → IsOrdered capacity low tier
    → key < low
    → get key tier ≡ none
unfolding get
get_below capacity low key [] o h = refl
get_below capacity low key ((start, end) ∷ rest) o h =
    ground (arith, get_below capacity (end + 2) key rest o.3)

pub last_up_to_below :
    (capacity low id : ℕ) (tier : BTree ℕ)
    → IsOrdered capacity low tier
    → id < low
    → last_up_to id tier ≡ none
unfolding last_up_to
last_up_to_below capacity low id [] o h = refl
last_up_to_below capacity low id ((start, end) ∷ rest) o h = ground arith

-- An entry that starts right at the lower bound can only be the first.
pub get_head :
    (capacity low : ℕ) (tier : BTree ℕ) (end : ℕ)
    → IsOrdered capacity low tier
    → get low tier ≡ some end
    → (rest : BTree ℕ) × (tier ≡ (low, end) ∷ rest)
unfolding get
get_head capacity low [] end o h = absurd (ground arith)
get_head capacity low ((start, stop) ∷ rest) end o h =
    let none_below = get_below capacity (stop + 2) low rest o.3 in
    (rest, ground (arith, none_below))

-- Without an entry at the lower bound the intervals start above it.
pub IsOrdered-gap :
    (capacity low : ℕ) (tier : BTree ℕ)
    → IsOrdered capacity low tier
    → get low tier ≡ none
    → IsOrdered capacity (low + 1) tier
unfolding get
IsOrdered-gap capacity low [] o h = tt
IsOrdered-gap capacity low ((start, end) ∷ rest) o h = (ground arith, o.1, o.2, o.3)

-- The six ways in which an id can lie to the first interval and its neighbour, with the outcome.
pub data Released (capacity id start end : ℕ) (rest : BTree ℕ) : BTree ℕ → Type 0 where
  before : id + 1 < start → Released capacity id start end rest ((id, id) ∷ (start, end) ∷ rest)
  touching_next : start ≡ id + 1 → Released capacity id start end rest ((id, end) ∷ rest)
  inside : start ≤ id → id ≤ end → Released capacity id start end rest ((start, end) ∷ rest)
  touching_last :
      id ≡ end + 1
      → get (id + 1) rest ≡ none
      → Released capacity id start end rest ((start, id) ∷ rest)
  joining :
      (right_end : ℕ) (others : BTree ℕ)
      → id ≡ end + 1
      → rest ≡ (id + 1, right_end) ∷ others
      → Released capacity id start end rest ((start, right_end) ∷ others)
  after : end + 1 < id → Released capacity id start end rest ((start, end) ∷ release id rest)
