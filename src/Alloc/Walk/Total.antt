-- ===== src/Alloc/Walk/Total.antt =====
-- A walk from inside the domain ends: its values are distinct until it comes back into the domain,
-- and there are only `size` of them.
use scpy.Prelude.{
  ℕ, zero, suc, ◌+◌, ◌≤◌, ◌<◌, ◌≡◌, refl, ◌∙◌, ◌≢◌, inl, inr, false, List, [], ◌∷◌, some, arith,
  ltb, ◌==◌, if◌then◌else◌, Bool-cases, length,
}
use scpy.Alloc.Walk.{walk}

abbrev Fresh : ℕ → List ℕ → Type 0
Fresh x [] = Unit {0}
Fresh x (y ∷ ys) = (x ≢ y) × Fresh x ys

abbrev Distinct : List ℕ → Type 0
Distinct [] = Unit {0}
Distinct (x ∷ xs) = Fresh x xs × Distinct xs

abbrev Below : ℕ → List ℕ → Type 0
Below n [] = Unit {0}
Below n (x ∷ xs) = (x < n) × Below n xs

without : ℕ → List ℕ → List ℕ
without n [] = []
without n (x ∷ xs) = if x == n then without n xs else x ∷ without n xs

length-without-Fresh : (n : ℕ) (xs : List ℕ) → Fresh n xs → length (without n xs) ≡ length xs
unfolding without
length-without-Fresh n [] h = refl
length-without-Fresh n (x ∷ xs) h = ground (arith, length-without-Fresh n xs h.1)

length-without : (n : ℕ) (xs : List ℕ) → Distinct xs → length xs ≤ suc (length (without n xs))
unfolding without
length-without n [] d = omega arith
length-without n (x ∷ xs) d = elim (Bool-cases (x == n)) [
  | inl same ↦
      let e : x ≡ n = ground arith in
      rw same (omega (arith, length-without-Fresh n xs (rw e at d.0)))
  | inr other ↦ rw other (omega (arith, length-without n xs d.1))
]

Fresh-without : (y n : ℕ) (xs : List ℕ) → Fresh y xs → Fresh y (without n xs)
unfolding without
Fresh-without y n [] h = tt
Fresh-without y n (x ∷ xs) h = elim (Bool-cases (x == n)) [
  | inl same ↦ rw same (Fresh-without y n xs h.1)
  | inr other ↦ rw other (h.0, Fresh-without y n xs h.1)
]

Distinct-without : (n : ℕ) (xs : List ℕ) → Distinct xs → Distinct (without n xs)
unfolding without
Distinct-without n [] d = tt
Distinct-without n (x ∷ xs) d = elim (Bool-cases (x == n)) [
  | inl same ↦ rw same (Distinct-without n xs d.1)
  | inr other ↦ rw other (Fresh-without x n xs d.0, Distinct-without n xs d.1)
]

Below-without : (n : ℕ) (xs : List ℕ) → Below (suc n) xs → Below n (without n xs)
unfolding without
Below-without n [] h = tt
Below-without n (x ∷ xs) h = elim (Bool-cases (x == n)) [
  | inl same ↦ rw same (Below-without n xs h.1)
  | inr other ↦ rw other (ground arith, Below-without n xs h.1)
]

-- The pigeonhole principle.
length_of_Distinct : (n : ℕ) (xs : List ℕ) → Distinct xs → Below n xs → length xs ≤ n
length_of_Distinct zero [] d b = omega arith
length_of_Distinct zero (x ∷ xs) d b = absurd (omega arith)
length_of_Distinct (suc n) xs d b =
    let rest =
      length_of_Distinct n (without n xs) (Distinct-without n xs d) (Below-without n xs b) in
    omega (arith, length-without n xs d)

module _ (f : ℕ → ℕ) (domain size : ℕ) (f-lt : (v : ℕ) → v < size → f v < size)
    (f_injective : (u v : ℕ) → u < size → v < size → f u ≡ f v → u ≡ v) where
  -- The values that a walk has passed, the latest first: each is `f` of the next, and the first one,
  -- alone, lies in the domain.
  abbrev Trail : ℕ → List ℕ → Type 0
  Trail v [] = v < domain
  Trail v (u ∷ us) = (v ≡ f u) × Trail u us

  -- A value outside the domain is in no trail on which only its predecessor may stand first.
  new_value :
      (c v : ℕ) (us : List ℕ)
      → c < size
      → Below size (v ∷ us)
      → ltb (f c) domain ≡ false
      → Trail v us
      → Fresh c us
      → Fresh (f c) (v ∷ us)
  new_value c v [] hc b out t fresh = (λ e. ground arith, tt)
  new_value c v (u ∷ us) hc b out t fresh =
      (λ e. fresh.0 (f_injective c u hc b.1.0 (e ∙ t.0)), new_value c u us hc b.1 out t.1 fresh.1)

  walk_from :
      (n c : ℕ) (us : List ℕ)
      → Below size (c ∷ us)
      → Distinct (c ∷ us)
      → Trail c us
      → size < length (c ∷ us) + n
      → (w : ℕ) × (walk (λ x. some (f x)) domain n c ≡ some w) × (w < domain)
  unfolding walk
  walk_from zero c us b d t enough = absurd (omega (arith, length_of_Distinct size (c ∷ us) d b))
  walk_from (suc n) c us b d t enough = elim (Bool-cases (ltb (f c) domain)) [
    | inl inside ↦ (f c, ground arith, ground arith)
    | inr outside ↦
        let (w, e, h) =
          walk_from n (f c) (c ∷ us) (f-lt c b.0, b) (new_value c c us b.0 b outside t d.0, d)
            (refl, t) (omega arith) in
        (w, ground arith, h)
  ]

  -- Fuel of `size` is enough for a walk from the domain.
  pub walk_total :
      (n c : ℕ)
      → size ≤ n
      → c < size
      → c < domain
      → (w : ℕ) × (walk (λ x. some (f x)) domain n c ≡ some w) × (w < domain)
  walk_total n c enough small inside = walk_from n c [] (small, tt) (tt, tt) inside (omega arith)
