-- ===== src/Alloc/Walk/Inverse.antt =====
-- A walk by the inverse permutation retraces a walk by the permutation.
use scpy.Prelude.{
  ℕ, zero, suc, ◌+◌, ◌-◌, ◌≤◌, ◌<◌, ◌≡◌, refl, ◌∙◌, inl, inr, true, false, Option, some, arith, ltb,
  Bool-cases,
}
use scpy.Alloc.Walk.{walk}

-- Where a walk goes on from a value that it has come to.
abbrev resume : (ℕ → ℕ) → ℕ → ℕ → ℕ → Option ℕ
resume g domain m v = elim (ltb v domain) [
  | true ↦ some v
  | false ↦ walk (λ x. some (g x)) domain m v
]

walk-resume :
    (g : ℕ → ℕ) (domain m v : ℕ) → walk (λ x. some (g x)) domain (suc m) v ≡ resume g domain m (g v)
unfolding walk
walk-resume g domain m v = refl

resume_inside : (g : ℕ → ℕ) (domain m v : ℕ) → v < domain → resume g domain m v ≡ some v
resume_inside g domain m v h = ground arith

resume_outside :
    (g : ℕ → ℕ) (domain m v : ℕ)
    → ltb v domain ≡ false
    → resume g domain m v ≡ walk (λ x. some (g x)) domain m v
resume_outside g domain m v h = ground arith

module _ (f g : ℕ → ℕ) (domain size : ℕ) (f-lt : (v : ℕ) → v < size → f v < size)
    (g-f : (v : ℕ) → v < size → g (f v) ≡ v) where
  -- From `w` the inverse walk comes after `count` steps to `v`, and goes on there as from `v`.
  abbrev Retraces : ℕ → ℕ → ℕ → Type 0
  Retraces v w n =
      (count : ℕ) × (count ≤ n)
      × ((m : ℕ) → walk (λ x. some (g x)) domain (count + m) w ≡ resume g domain m v)

  retrace : (n v w : ℕ) → v < size → walk (λ x. some (f x)) domain n v ≡ some w → Retraces v w n
  retrace zero v w h e = absurd (unfold walk in cc)
  retrace (suc n) v w h e = elim (Bool-cases (ltb (f v) domain)) [
    | inl inside ↦
        let there : f v ≡ w = unfold walk in ground arith in
        (
          1,
          omega arith,
          λ m.
              let one : 1 + m ≡ suc m = omega arith in
              rw (one, walk-resume g domain m w, ← there, g-f v h) refl,
        )
    | inr outside ↦
        let later : walk (λ x. some (f x)) domain n (f v) ≡ some w = unfold walk in ground arith in
        let (count, le, go) = retrace n (f v) w (f-lt v h) later in
        (
          suc count,
          omega arith,
          λ m.
              let shift : suc count + m ≡ count + suc m = omega arith in
              rw shift (
                go (suc m)
                ∙ resume_outside g domain (suc m) (f v) outside
                ∙ walk-resume g domain m (f v)
                ∙ rw (g-f v h) refl),
        )
  ]

  -- Walking there and then back with the same fuel ends at the start.
  pub walk-inverse :
      (n v w : ℕ)
      → v < size
      → v < domain
      → walk (λ x. some (f x)) domain n v ≡ some w
      → walk (λ x. some (g x)) domain n w ≡ some v
  walk-inverse n v w h inside e =
      let (count, le, go) = retrace n v w h e in
      let all : count + (n - count) ≡ n = omega arith in
      rw all at (go (n - count) ∙ resume_inside g domain (n - count) v inside)
