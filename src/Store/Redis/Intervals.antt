-- ===== src/Store/Redis/Intervals.antt =====
-- The two keys of a tier, the sorted set of the starts and the hash of the ends, against the map of
-- intervals of src/allocator.rs.
use scpy.Prelude.{
  ℕ, ◌+◌, ◌≤◌, ◌<◌, ◌≡◌, refl, Bool, Option, none, some, List, [], ◌∷◌, arith, ◌==◌, if◌then◌else◌,
  ◌>>=◌,
}
use scpy.BTree.{BTree, insert, remove, get, first, last_up_to}
use scpy.Alloc.Tier.Interval.{IsOrdered}
use scpy.Store.Redis.Database.{
  starts, ends, Member, number, Contents, zset_insert, zset_remove, zset_up_to, zset_at, first_of,
  last_of, members,
}

-- The starts are in order, and at `low` or above.
abbrev pub IsAscending : ℕ → BTree ℕ → Type 0
IsAscending low [] = Unit {0}
IsAscending low ((start, end) ∷ rest) = (low ≤ start) × IsAscending (start + 1) rest

pub IsAscending-weaken :
    (low low' : ℕ) (tier : BTree ℕ) → low ≤ low' → IsAscending low' tier → IsAscending low tier
IsAscending-weaken low low' [] h o = tt
IsAscending-weaken low low' ((start, end) ∷ rest) h o = (omega arith, o.1)

pub IsOrdered-IsAscending :
    (capacity low low' : ℕ) (tier : BTree ℕ)
    → low' ≤ low
    → IsOrdered capacity low tier
    → IsAscending low' tier
IsOrdered-IsAscending capacity low low' [] h o = tt
IsOrdered-IsAscending capacity low low' ((start, end) ∷ rest) h o =
    (omega arith, IsOrdered-IsAscending capacity (end + 2) (start + 1) rest (omega arith) o.3)

get_under : (low k : ℕ) (tier : BTree ℕ) → IsAscending low tier → k < low → get k tier ≡ none
unfolding get
get_under low k [] o h = refl
get_under low k ((start, end) ∷ rest) o h = ground (arith, get_under (start + 1) k rest o.1)

pub insert-IsAscending :
    (low k v : ℕ) (tier : BTree ℕ)
    → low ≤ k
    → IsAscending low tier
    → IsAscending low (insert k v tier)
unfolding insert
insert-IsAscending low k v [] h o = (h, tt)
insert-IsAscending low k v ((start, end) ∷ rest) h o =
    ground (arith, insert-IsAscending (start + 1) k v rest)

unfoldable pub starts_of : BTree ℕ → List (ℕ × Member)
starts_of [] = []
starts_of ((start, end) ∷ rest) = (start, number start) ∷ starts_of rest

abbrev pub as_number : Option ℕ → Option Member
as_number none = none
as_number (some n) = some (number n)

abbrev pub start_of : Option (ℕ × ℕ) → Option Member
start_of none = none
start_of (some (start, end)) = some (number start)

-- The database holds the map under the keys of the tier.
pub record IsTierOf {V : Type 0} (c : Contents V) (code_len : ℕ) (tier : BTree ℕ) : Type 0 where
  pub set_lem : c.sets (starts code_len) ≡ starts_of tier
  pub hash_lem : (start : ℕ) → c.hashes (ends code_len) (number start) ≡ as_number (get start tier)

pub first_of-starts_of :
    (tier : BTree ℕ) → first_of (members (starts_of tier)) ≡ start_of (first tier)
unfolding starts_of members first
first_of-starts_of [] = refl
first_of-starts_of ((start, end) ∷ rest) = refl

pub zset_remove-starts_of :
    (k : ℕ) (tier : BTree ℕ) → zset_remove (number k) (starts_of tier) ≡ starts_of (remove k tier)
unfolding zset_remove starts_of remove
zset_remove-starts_of k [] = refl
zset_remove-starts_of k ((start, end) ∷ rest) = ground (arith, zset_remove-starts_of k rest)

pub zset_remove_absent :
    (k : ℕ) (tier : BTree ℕ)
    → get k tier ≡ none
    → zset_remove (number k) (starts_of tier) ≡ starts_of tier
unfolding zset_remove starts_of get
zset_remove_absent k [] h = refl
zset_remove_absent k ((start, end) ∷ rest) h = ground (arith, zset_remove_absent k rest)

pub zset_insert-starts_of :
    (before : Member → Member → Bool) (k v : ℕ) (tier : BTree ℕ)
    → get k tier ≡ none
    → zset_insert before k (number k) (starts_of tier) ≡ starts_of (insert k v tier)
unfolding zset_insert starts_of insert get
zset_insert-starts_of before k v [] h = refl
zset_insert-starts_of before k v ((start, end) ∷ rest) h =
    ground (arith, zset_insert-starts_of before k v rest)

pub starts_of-insert :
    (low k v w : ℕ) (tier : BTree ℕ)
    → IsAscending low tier
    → get k tier ≡ some w
    → starts_of (insert k v tier) ≡ starts_of tier
unfolding starts_of insert get
starts_of-insert low k v w [] o h = absurd (ground arith)
starts_of-insert low k v w ((start, end) ∷ rest) o h =
    ground (arith, get_under (start + 1) k rest o.1, starts_of-insert (start + 1) k v w rest o.1)

pub get-remove :
    (low k j : ℕ) (tier : BTree ℕ)
    → IsAscending low tier
    → get j (remove k tier) ≡ (if k == j then none else get j tier)
unfolding get remove
get-remove low k j [] o = ground arith
get-remove low k j ((start, end) ∷ rest) o =
    ground (arith, get_under (start + 1) j rest o.1, get-remove (start + 1) k j rest o.1)

pub zset_at-starts_of :
    (k : ℕ) (tier : BTree ℕ) → zset_at k (starts_of tier) ≡ (get k tier >>= λ end. some (number k))
unfolding zset_at starts_of get
zset_at-starts_of k [] = refl
zset_at-starts_of k ((start, end) ∷ rest) = ground (arith, zset_at-starts_of k rest)

pub zset_up_to-starts_of :
    (id : ℕ) (tier : BTree ℕ)
    → last_of (zset_up_to id (starts_of tier)) ≡ start_of (last_up_to id tier)
unfolding zset_up_to last_of starts_of last_up_to
zset_up_to-starts_of id [] = refl
zset_up_to-starts_of id ((start, end) ∷ rest) = ground (arith, zset_up_to-starts_of id rest)

-- The interval found is one of the map.
pub get-last_up_to :
    (capacity low id start end : ℕ) (tier : BTree ℕ)
    → IsOrdered capacity low tier
    → last_up_to id tier ≡ some (start, end)
    → (get start tier ≡ some end) × (start ≤ id) × (low ≤ start) × (end < capacity)
unfolding get last_up_to
get-last_up_to capacity low id a b [] o h = absurd (ground arith)
get-last_up_to capacity low id a b ((start, end) ∷ rest) o h =
    ground (arith, get-last_up_to capacity (end + 2) id a b rest o.3)

pub get-first :
    (start end : ℕ) (tier : BTree ℕ) → first tier ≡ some (start, end) → get start tier ≡ some end
unfolding get first
get-first start end [] h = absurd (ground arith)
get-first start end ((a, b) ∷ rest) h = ground arith
