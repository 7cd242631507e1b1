-- ===== src/Store/Redis/Refines/Drain.antt =====
-- clip_reclaim_expired.lua takes the first due members out of the expiry index, where their rooms are
-- gone, and leaves their ids free.
use scpy.Prelude.{
  ℕ, ◌-◌, ◌≤◌, ◌≡◌, refl, inl, inr, true, false, Option, arith, leb, ◌==◌, if◌then◌else◌,
  Bool-cases, List, [], ◌∷◌, length,
}
use scpy.Alloc.Tier.{TieredAllocator}
use scpy.Alloc.Tier.Invariant.{is_free}
use scpy.Store.Redis.Database.{Key, Member, number, pair, other, Entry, take, zset_up_to}
use scpy.Store.Redis.Refines.Reclaimed.{AreGone, AreFree}

-- The index without its first `k` due members.
unfoldable pub rest_after : ℕ → ℕ → List (ℕ × Member) → List (ℕ × Member)
rest_after k score [] = []
rest_after k score ((s, m) ∷ rest) =
    let later = rest_after (k - 1) score rest in
    if k == 0 then (s, m) ∷ rest else if leb s score then later else (s, m) ∷ rest

-- The scores do not go down, from a bound on.
abbrev pub InScoreOrder : ℕ → List (ℕ × Member) → Type 0
InScoreOrder low [] = Unit {0}
InScoreOrder low ((s, m) ∷ rest) = (low ≤ s) × InScoreOrder s rest

-- One step of `rest_after`, of `take` and of the range of scores.
pub rest_after_zero :
    (k score : ℕ) (list : List (ℕ × Member)) → (k == 0) ≡ true → rest_after k score list ≡ list
unfolding rest_after
rest_after_zero k score [] e = refl
rest_after_zero k score ((s, m) ∷ rest) e = rw (rest_after, e) refl

pub rest_after-cons :
    (k score s : ℕ) (m : Member) (rest : List (ℕ × Member))
    → (k == 0) ≡ false
    → leb s score ≡ true
    → rest_after k score ((s, m) ∷ rest) ≡ rest_after (k - 1) score rest
unfolding rest_after
rest_after-cons k score s m rest e h = rw (rest_after, e, h) refl

pub rest_after_late :
    (k score s : ℕ) (m : Member) (rest : List (ℕ × Member))
    → leb s score ≡ false
    → rest_after k score ((s, m) ∷ rest) ≡ (s, m) ∷ rest
unfolding rest_after
rest_after_late k score s m rest h = elim (Bool-cases (k == 0)) [
  | inl e ↦ rw (rest_after, e) refl
  | inr e ↦ rw (rest_after, e, h) refl
]

pub up_to-cons :
    (score s : ℕ) (m : Member) (rest : List (ℕ × Member))
    → leb s score ≡ true
    → zset_up_to score ((s, m) ∷ rest) ≡ m ∷ zset_up_to score rest
unfolding zset_up_to
up_to-cons score s m rest h = rw (zset_up_to, h) refl

pub up_to_late :
    (score s : ℕ) (m : Member) (rest : List (ℕ × Member))
    → leb s score ≡ false
    → zset_up_to score ((s, m) ∷ rest) ≡ []
unfolding zset_up_to
up_to_late score s m rest h = rw (zset_up_to, h) refl

pub take-cons :
    (k : ℕ) (m : Member) (rest : List Member)
    → (k == 0) ≡ false
    → take k (m ∷ rest) ≡ m ∷ take (k - 1) rest
unfolding take
take-cons k m rest e = rw (take, e) refl

pub take_zero : (k : ℕ) (list : List Member) → (k == 0) ≡ true → take k list ≡ []
unfolding take
take_zero k [] e = refl
take_zero k (m ∷ rest) e = rw (take, e) refl

InScoreOrder-weaken :
    (low s : ℕ) (list : List (ℕ × Member)) → low ≤ s → InScoreOrder s list → InScoreOrder low list
InScoreOrder-weaken low s [] h o = tt
InScoreOrder-weaken low s ((t, m) ∷ rest) h (o, os) = (omega (arith, o), os)

pub InScoreOrder-rest_after :
    (low k score : ℕ) (list : List (ℕ × Member))
    → InScoreOrder low list
    → InScoreOrder low (rest_after k score list)
unfolding rest_after
InScoreOrder-rest_after low k score [] o = tt
InScoreOrder-rest_after low k score ((s, m) ∷ rest) (h, o) = elim (Bool-cases (k == 0)) [
  | inl e ↦ rw (rest_after, e) (h, o)
  | inr e ↦ elim (Bool-cases (leb s score)) [
    | inl in_time ↦
        rw (rest_after, e, in_time)
          (InScoreOrder-weaken low s _ h (InScoreOrder-rest_after s (k - 1) score rest o))
    | inr late ↦ rw (rest_after, e, late) (h, o)
  ]
]

-- Nothing is due before the first score.
up_to_none :
    (low due : ℕ) (list : List (ℕ × Member))
    → leb low due ≡ false
    → InScoreOrder low list
    → zset_up_to due list ≡ []
unfolding zset_up_to
up_to_none low due [] h o = refl
up_to_none low due ((s, m) ∷ rest) h (o, os) =
    let late : leb s due ≡ false = ground arith in up_to_late due s m rest late

-- What is due after that is what was due, less `k`.
pub length-rest_after :
    (low k due score : ℕ) (list : List (ℕ × Member))
    → due ≤ score
    → InScoreOrder low list
    → length (zset_up_to due (rest_after k score list)) ≤ length (zset_up_to due list) - k
length-rest_after low k due score [] h o = unfold rest_after zset_up_to in omega arith
length-rest_after low k due score ((s, m) ∷ rest) h (l, o) = elim (Bool-cases (k == 0)) [
  | inl none_left ↦
      let e : k ≡ 0 = ground arith in
      rw (rest_after_zero k score ((s, m) ∷ rest) none_left, e) (omega arith)
  | inr more ↦ elim (Bool-cases (leb s due)) [
    | inl in_time ↦
        let ih = length-rest_after s (k - 1) due score rest h o in
        rw (rest_after-cons k score s m rest more (ground arith), up_to-cons due s m rest in_time)
          (ground (arith, ih))
    | inr late ↦
        let kept = InScoreOrder-rest_after s k score ((s, m) ∷ rest) (omega arith, o) in
        rw (up_to_none s due (rest_after k score ((s, m) ∷ rest)) late kept) (omega arith)
  ]
]

module _ {V : Type 0} (time : ℕ) (strings : Key → Option (Entry V)) where
  pub AreGone-take :
      (k score latest : ℕ) (list : List (ℕ × Member))
      → score ≤ latest
      → AreGone time strings (zset_up_to latest list)
      → AreGone time strings (take k (zset_up_to score list))
  AreGone-take k score latest [] h g = unfold take zset_up_to in tt
  AreGone-take k score latest ((s, m) ∷ rest) h g = elim (Bool-cases (leb s score)) [
    | inr late ↦ rw (up_to_late score s m rest late) (unfold take in tt)
    | inl in_time ↦ rw (up_to-cons score s m rest in_time) (elim (Bool-cases (k == 0)) [
      | inl e ↦ rw (take_zero k (m ∷ zset_up_to score rest) e) tt
      | inr e ↦
          let (here, later) = rw (up_to-cons latest s m rest (ground arith)) at g in
          rw (take-cons k m (zset_up_to score rest) e)
            (here, AreGone-take (k - 1) score latest rest h later)
    ])
  ]

  pub AreGone-rest_after :
      (k score latest : ℕ) (list : List (ℕ × Member))
      → score ≤ latest
      → AreGone time strings (zset_up_to latest list)
      → AreGone time strings (zset_up_to latest (rest_after k score list))
  AreGone-rest_after k score latest [] h g = unfold rest_after in g
  AreGone-rest_after k score latest ((s, m) ∷ rest) h g = elim (Bool-cases (k == 0)) [
    | inl e ↦ rw (rest_after_zero k score ((s, m) ∷ rest) e) g
    | inr e ↦ elim (Bool-cases (leb s score)) [
      | inl in_time ↦ rw (rest_after-cons k score s m rest e in_time) (
          AreGone-rest_after (k - 1) score latest rest h
            (rw (up_to-cons latest s m rest (ground arith)) at g).1)
      | inr late ↦ rw (rest_after_late k score s m rest late) g
    ]
  ]

pub AreFree-split :
    (a : TieredAllocator) (low k due score : ℕ) (list : List (ℕ × Member))
    → due ≤ score
    → InScoreOrder low list
    → AreFree a (take k (zset_up_to score list))
    → AreFree a (zset_up_to due (rest_after k score list))
    → AreFree a (zset_up_to due list)
AreFree-split a low k due score [] h o taken left = unfold zset_up_to in tt
AreFree-split a low k due score ((s, m) ∷ rest) h (l, o) taken left = elim (Bool-cases (k == 0)) [
  | inl e ↦ rw (rest_after_zero k score ((s, m) ∷ rest) e) at left
  | inr e ↦ elim (Bool-cases (leb s due)) [
    | inl in_time ↦
        let early : leb s score ≡ true = ground arith in
        let (here, later) =
          rw (up_to-cons score s m rest early, take-cons k m (zset_up_to score rest) e) at taken in
        rw (up_to-cons due s m rest in_time) (
          here,
          AreFree-split a s (k - 1) due score rest h o later
              (rw (rest_after-cons k score s m rest e early) at left),
        )
    | inr late ↦ rw (up_to_late due s m rest late) tt
  ]
]

pub AreFree-keeps :
    (a a' : TieredAllocator) (list : List Member)
    → ((n id : ℕ) → is_free a n id ≡ true → is_free a' n id ≡ true)
    → AreFree a list
    → AreFree a' list
AreFree-keeps a a' [] keeps f = tt
AreFree-keeps a a' (number n ∷ rest) keeps (f, fs) = (tt, AreFree-keeps a a' rest keeps fs)
AreFree-keeps a a' (other text ∷ rest) keeps (f, fs) = (tt, AreFree-keeps a a' rest keeps fs)
AreFree-keeps a a' (pair n id ∷ rest) keeps (f, fs) =
    (keeps n id f, AreFree-keeps a a' rest keeps fs)
