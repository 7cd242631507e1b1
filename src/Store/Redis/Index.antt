-- ===== src/Store/Redis/Index.antt =====
-- The expiry index: its members name ids of tiers, and what the scripts do to it keeps them so.
use scpy.Prelude.{
  ℕ, ◌<◌, ◌-◌, ◌≡◌, inl, inr, Bool, ◌&&◌, ◌||◌, some, List, [], ◌∷◌, ltb, leb, ◌==◌, Bool-cases,
}
use scpy.Alloc.Code.{tier_capacity}
use scpy.Store.Redis.Database.{
  expiring, Member, number, pair, other, member_eq, Contents, members, zset_remove, zset_insert,
  zset_up_to, take,
}

-- A place in the expiry index that names an id of a tier.
abbrev pub IsPlace : Member → Type 0
IsPlace (number n) = Unit {0}
IsPlace (other text) = Unit {0}
IsPlace (pair n id) = (capacity : ℕ) × (tier_capacity n ≡ some capacity) × (id < capacity)

abbrev pub ArePlaces : List Member → Type 0
ArePlaces [] = Unit {0}
ArePlaces (m ∷ rest) = IsPlace m × ArePlaces rest

-- If the members of the index are places, they still are.
abbrev pub IsIndexed : {V : Type 0} → Contents V → Contents V → Type 0
IsIndexed c c' = ArePlaces (members (c.sets expiring)) → ArePlaces (members (c'.sets expiring))

pub ArePlaces-zset_remove :
    (m : Member) (list : List (ℕ × Member))
    → ArePlaces (members list)
    → ArePlaces (members (zset_remove m list))
unfolding members zset_remove
ArePlaces-zset_remove m [] h = h
ArePlaces-zset_remove m ((s, k) ∷ rest) (p, ps) = elim (Bool-cases (member_eq k m)) [
  | inl e ↦ rw (zset_remove, e) ps
  | inr e ↦ rw (zset_remove, e) (p, ArePlaces-zset_remove m rest ps)
]

pub ArePlaces-zset_insert :
    (before : Member → Member → Bool) (s : ℕ) (m : Member) (list : List (ℕ × Member))
    → IsPlace m
    → ArePlaces (members list)
    → ArePlaces (members (zset_insert before s m list))
unfolding members zset_insert
ArePlaces-zset_insert before s m [] h hs = (h, tt)
ArePlaces-zset_insert before s m ((t, k) ∷ rest) h (p, ps) =
    elim (Bool-cases (ltb s t || s == t && before m k)) [
      | inl e ↦ rw (zset_insert, e) (h, (p, ps))
      | inr e ↦ rw (zset_insert, e) (p, ArePlaces-zset_insert before s m rest h ps)
    ]

pub ArePlaces-zset_up_to :
    (score : ℕ) (list : List (ℕ × Member))
    → ArePlaces (members list)
    → ArePlaces (zset_up_to score list)
unfolding members zset_up_to
ArePlaces-zset_up_to score [] h = tt
ArePlaces-zset_up_to score ((s, m) ∷ rest) (p, ps) = elim (Bool-cases (leb s score)) [
  | inl e ↦ rw (zset_up_to, e) (p, ArePlaces-zset_up_to score rest ps)
  | inr e ↦ rw (zset_up_to, e) tt
]

pub ArePlaces-take : (n : ℕ) (list : List Member) → ArePlaces list → ArePlaces (take n list)
unfolding take
ArePlaces-take n [] h = tt
ArePlaces-take n (m ∷ rest) (p, ps) = elim (Bool-cases (n == 0)) [
  | inl e ↦ rw (take, e) tt
  | inr e ↦ rw (take, e) (p, ArePlaces-take (n - 1) rest ps)
]
