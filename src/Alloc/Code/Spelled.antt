-- ===== src/Alloc/Code/Spelled.antt =====
-- The codes of a tier are all texts of its length over the alphabet, each the code of one id.
use std.Equiv.{Iso, iso_to_equiv, ◌≃◌}
use mathlib.Core.HLevel.{Σ_prop_path}
use native.Mathlib.Nat.{div-lt_iff_lt-mul, one-le-pow}
use native.Mathlib.Bridge.{le_prop}
use native.Mathlib.Nat.{ℕ_set}
use scpy.Prelude.{
  ℕ, zero, suc, ◌+◌, ◌*◌, ◌/◌, ◌%◌, ◌^◌, ◌<◌, ◌≡◌, refl, sym, ap, ◌∙◌, inl, inr, Bool, true, ◌&&◌,
  some, arith, Text, [], ◌∷◌, ◌++◌, length, ◌==◌, Bool-cases, some_inj, get_or,
}
use scpy.Alloc.Code.{
  base56_alphabet, contains, position, rank_bytes, tier_capacity, encode_local_id,
}
use scpy.Alloc.Code.Digits.{symbol, digits, length-digits, digits-rank_bytes}
use scpy.Alloc.Code.Permute.{
  tier_capacity-IsTier, permute_local_id_total, invert_permuted_local_id_total, permute-invert,
}
use scpy.Alloc.Code.RoundTrip.{encode_in_range, encode_local_id_injective}

-- Every byte is of an alphabet.
unfoldable pub is_over : Text → Text → Bool
is_over alphabet [] = true
is_over alphabet (byte ∷ rest) = contains alphabet byte && is_over alphabet rest

both : (a b : Bool) → (a && b) ≡ true → (a ≡ true) × (b ≡ true)
both a b h = ground arith

is_over-append :
    (alphabet xs ys : Text)
    → is_over alphabet (xs ++ ys) ≡ (is_over alphabet xs && is_over alphabet ys)
unfolding is_over
is_over-append alphabet [] ys = refl
is_over-append alphabet (x ∷ xs) ys = elim (Bool-cases (contains alphabet x)) [
  | inl e ↦ rw e (is_over-append alphabet xs ys)
  | inr e ↦ rw e refl
]

contains-get_or : (xs : Text) (i : ℕ) → i < length xs → contains xs (get_or xs i 0) ≡ true
contains-get_or [] i h = absurd (omega arith)
contains-get_or (x ∷ xs) zero h = ground arith
contains-get_or (x ∷ xs) (suc i) h = ground (arith, contains-get_or xs i)

is_over-digits : (n value : ℕ) → is_over base56_alphabet (digits n value) ≡ true
unfolding digits is_over
is_over-digits zero value = refl
is_over-digits (suc n) value =
    is_over-append base56_alphabet (digits n (value / 56)) (symbol (value % 56) ∷ [])
    ∙ rw (is_over-digits n (value / 56), contains-get_or base56_alphabet (value % 56) (omega arith))
        refl

position-contains :
    (byte : ℕ) (xs : Text) → contains xs byte ≡ true → (i : ℕ) × (position byte xs ≡ some i)
unfolding position
position-contains byte [] h = absurd (ground arith)
position-contains byte (x ∷ xs) h = elim (Bool-cases (x == byte)) [
  | inl same ↦ (0, rw same refl)
  | inr other ↦ let (i, e) = position-contains byte xs (ground arith) in (i + 1, rw (other, e) refl)
]

rank_bytes_total :
    (acc : ℕ) (bytes : Text)
    → is_over base56_alphabet bytes ≡ true
    → (rank : ℕ) × (rank_bytes acc bytes ≡ some rank)
unfolding rank_bytes is_over
rank_bytes_total acc [] h = (acc, refl)
rank_bytes_total acc (b ∷ bytes) h =
    let (here, later) = both (contains base56_alphabet b) (is_over base56_alphabet bytes) h in
    let (digit, e) = position-contains b base56_alphabet here in
    let (rank, r) = rank_bytes_total ((acc * 56 + digit) % 2 ^ 64) bytes later in (rank, rw e r)

-- The ids of a tier, and the texts that may be its codes.
abbrev pub LocalId : ℕ → Type 0
LocalId capacity = (id : ℕ) × (id < capacity)

-- A text of a length over the alphabet.
pub record IsSpelled (code_len : ℕ) (code : Text) : Type 0 where
  pub long : length code ≡ code_len
  pub over : is_over base56_alphabet code ≡ true

IsSpelled-prop : (n : ℕ) (code : Text) → IsProp (IsSpelled n code)
IsSpelled-prop n code = hlevel ℕ_set

abbrev pub Spelled : ℕ → Type 0
Spelled code_len = (code : Text) × IsSpelled code_len code

Spelled-ext : (n : ℕ) (a b : Spelled n) → a.0 ≡ b.0 → a ≡ b
Spelled-ext n a b h = Σ_prop_path (IsSpelled-prop n) h

LocalId-ext : (c : ℕ) (a b : LocalId c) → a.0 ≡ b.0 → a ≡ b
LocalId-ext c a b h = Σ_prop_path (λ id. le_prop) h

module _ (code_len capacity : ℕ) (valid : tier_capacity code_len ≡ some capacity) where
  code_of :
      (id : LocalId capacity)
      → (code : Spelled code_len) × (encode_local_id code_len id.0 ≡ some code.0)
  code_of (id, inside) =
      let (rank, forth, below) = permute_local_id_total code_len capacity valid id inside in
      (
        (
          digits code_len rank,
          record { long = length-digits code_len rank; over = is_over-digits code_len rank },
        ),
        encode_in_range code_len capacity valid id rank inside forth,
      )

  id_of :
      (code : Spelled code_len)
      → (id : LocalId capacity) × (encode_local_id code_len id.0 ≡ some code.0)
  id_of (code, h) =
      let long = h.long in
      let t = tier_capacity-IsTier code_len capacity valid in
      let (rank, read) = rank_bytes_total 0 code h.over in
      let (same, quotient) =
        digits-rank_bytes 0 code rank (rw long (omega (arith, t.power, t.wide, t.narrow))) read in
      let positive = one-le-pow code_len 56 (omega arith) in
      let high : rank / 56 ^ code_len ≡ 0 = rw long at quotient in
      let below = (div-lt_iff_lt-mul {x = rank} {y = 1} positive).0 (omega (arith, high)) in
      let inside : rank < capacity = omega (arith, t.power, below) in
      let (id, inverted, small) =
        invert_permuted_local_id_total code_len capacity valid rank inside in
      (
        (id, small),
        encode_in_range code_len capacity valid id rank small
              (permute-invert code_len capacity valid rank id inside inverted)
            ∙ ap some (rw long at same),
      )

  -- The bijection.
  pub LocalId-Iso-Spelled : Iso (LocalId capacity) (Spelled code_len)
  LocalId-Iso-Spelled = record {
    fun = λ id. (code_of id).0;
    inv = λ code. (id_of code).0;
    rinv = λ code.
        Spelled-ext code_len _ code (some_inj (sym (code_of (id_of code).0).1 ∙ (id_of code).1));
    linv = λ id.
        LocalId-ext capacity _ id
          (encode_local_id_injective code_len code_len _ _ _ (id_of (code_of id).0).1
            (code_of id).1).1;
  }

  -- For a tier, the type of its ids is equivalent to the type of the texts of its length over the
  -- alphabet, by an equivalence that is `encode_local_id`: every such text is the code of exactly
  -- one id.
  pub LocalId-Spelled_equiv :
      (e : LocalId capacity ≃ Spelled code_len) × ((id : LocalId capacity)
        → encode_local_id code_len id.0 ≡ some (e.0 id).0)
  unfolding LocalId-Iso-Spelled
  LocalId-Spelled_equiv = (iso_to_equiv LocalId-Iso-Spelled, λ id. (code_of id).1)
