-- ===== src/Store/Redis/Refines/Reclaimed.antt =====
-- What clip_reclaim_expired.lua does to the free ids and to the expiry index, and what it counts.
use scpy.Prelude.{
  ℕ, suc, refl, ◌+◌, ◌≤◌, ◌≡◌, ◌∙◌, ap, sym, inl, inr, ◌⊎◌, true, none, arith, List, [], ◌∷◌,
}
use scpy.Alloc.Tier.{TieredAllocator}
use scpy.Alloc.Tier.Invariant.{IsValid, is_free}
use scpy.Store.Redis.Database.{
  Key, expiring, clip, Member, number, pair, other, Contents, Entry, unexpired, zset_remove,
}
use scpy.Prelude.{Option}
use scpy.Store.Redis.Index.{IsIndexed}
use scpy.Store.Redis.Mirror.{IsMirror}
use scpy.Store.Redis.Scripts.{Reclaimed, freed, cleaned, kept, Counts, count}

-- From one database to another free ids stay free, and an id comes to be free only where its room
-- is missing; the strings are the same.
pub record IsReclaimed {V : Type 0} (time : ℕ) (c c' : Contents V) (a a' : TieredAllocator)
    : Type 0 where
  pub valid : IsValid a'
  pub mirrors : IsMirror c' a'
  pub strings : c'.strings ≡ c.strings
  pub keeps : (n id : ℕ) → is_free a n id ≡ true → is_free a' n id ≡ true
  pub only :
      (n id : ℕ)
      → is_free a' n id ≡ true
      → (is_free a n id ≡ true) ⊎ (unexpired time (c.strings (clip n id)) ≡ none)
  pub index : IsIndexed c c'

pub IsReclaimed-refl :
    {V : Type 0} (time : ℕ) (c : Contents V) (a : TieredAllocator)
    → IsValid a
    → IsMirror c a
    → IsReclaimed time c c a a
IsReclaimed-refl time c a v mirror = record {
  valid = v;
  mirrors = mirror;
  strings = refl;
  keeps = λ n id h. h;
  only = λ n id h. inl h;
  index = λ places. places;
}

pub IsReclaimed-trans :
    {V : Type 0} {time : ℕ} {c c' c'' : Contents V} {a a' a'' : TieredAllocator}
    → IsReclaimed time c c' a a'
    → IsReclaimed time c' c'' a' a''
    → IsReclaimed time c c'' a a''
IsReclaimed-trans {V} {time} e e' = record {
  valid = e'.valid;
  mirrors = e'.mirrors;
  strings = e'.strings ∙ e.strings;
  keeps = λ n id h. e'.keeps n id (e.keeps n id h);
  index = λ h. e'.index (e.index h);
  only = λ n id h. elim (e'.only n id h) [
    | inl before ↦ e.only n id before
    | inr missing ↦ inr (ap (λ f. unexpired time (f (clip n id))) (sym e.strings) ∙ missing)
  ];
}

-- All turns, and what they count.
pub record IsCounted (c c' : Counts) (turns : ℕ) : Type 0 where
  pub scanned : c'.scanned ≡ c.scanned + turns
  pub bound : c'.reclaimed + c'.cleaned + c.scanned ≤ c.reclaimed + c.cleaned + c'.scanned

pub IsCounted-count :
    (what : Reclaimed) (c c' : Counts) (turns : ℕ)
    → IsCounted (count what c) c' turns
    → IsCounted c c' (suc turns)
IsCounted-count freed c c' turns i = record {
  scanned = omega (arith, i.scanned);
  bound = omega (arith, i.bound);
}
IsCounted-count cleaned c c' turns i = record {
  scanned = omega (arith, i.scanned);
  bound = omega (arith, i.bound);
}
IsCounted-count kept c c' turns i = record {
  scanned = omega (arith, i.scanned);
  bound = omega (arith, i.bound);
}

-- A member of the index that names no room that is there, and one whose id is free.
abbrev pub IsGone : {V : Type 0} → ℕ → (Key → Option (Entry V)) → Member → Type 0
IsGone time strings (pair n id) = unexpired time (strings (clip n id)) ≡ none
IsGone time strings (number n) = Unit {0}
IsGone time strings (other text) = Unit {0}

abbrev pub IsFreeAt : TieredAllocator → Member → Type 0
IsFreeAt a (pair n id) = is_free a n id ≡ true
IsFreeAt a (number n) = Unit {0}
IsFreeAt a (other text) = Unit {0}

abbrev pub AreGone : {V : Type 0} → ℕ → (Key → Option (Entry V)) → List Member → Type 0
AreGone time strings [] = Unit {0}
AreGone time strings (m ∷ rest) = IsGone time strings m × AreGone time strings rest

abbrev pub AreFree : TieredAllocator → List Member → Type 0
AreFree a [] = Unit {0}
AreFree a (m ∷ rest) = IsFreeAt a m × AreFree a rest

-- If the room is gone, its member is taken out of the index, and its id is free.
pub record IsDropped {V : Type 0} (time : ℕ) (m : Member) (c c' : Contents V) (a' : TieredAllocator)
    : Type 0 where
  pub index : IsGone time c.strings m → c'.sets expiring ≡ zset_remove m (c.sets expiring)
  pub free : IsGone time c.strings m → IsFreeAt a' m
