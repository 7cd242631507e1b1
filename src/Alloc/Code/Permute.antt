-- ===== src/Alloc/Code/Permute.antt =====
-- The permutation of the ids of a tier: both walks end for every id, and undo one another.
use scpy.Prelude.{
  ℕ, ◌*◌, ◌^◌, ◌≤◌, ◌<◌, ◌≡◌, refl, sym, ap, ◌∙◌, fun_ext, ◌⊎◌, inl, inr, Option, some, false, leb,
  arith,
}
use scpy.Alloc.Feistel.{
  encrypt_word, decrypt_word, feistel_encrypt, feistel_decrypt, permutation_half_bits,
}
use scpy.Alloc.Feistel.Words.{
  encrypt_word-lt, decrypt_word-lt, decrypt-encrypt_word, encrypt-decrypt_word,
}
use scpy.Alloc.Walk.{walk}
use scpy.Alloc.Walk.Total.{walk_total}
use scpy.Alloc.Walk.Inverse.{walk-inverse}
use scpy.Alloc.Code.{tier_capacity, walk_fuel, permute_local_id, invert_permuted_local_id}

-- What the four tiers share: the capacity, and halves wide enough for it.
pub record IsTier (code_len capacity : ℕ) : Type 0 where
  pub half_bits : ℕ
  pub bits_lem : permutation_half_bits code_len ≡ some half_bits
  pub power : capacity ≡ 56 ^ code_len
  pub short : code_len ≤ 6
  pub wide : capacity ≤ 2 ^ half_bits * 2 ^ half_bits
  pub narrow : 2 ^ half_bits * 2 ^ half_bits ≤ walk_fuel

pub tier_cases :
    (code_len c : ℕ)
    → tier_capacity code_len ≡ some c
    → ((code_len ≡ 3) × (c ≡ 175616))
      ⊎ ((code_len ≡ 4) × (c ≡ 9834496))
      ⊎ ((code_len ≡ 5) × (c ≡ 550731776))
      ⊎ ((code_len ≡ 6) × (c ≡ 30840979456))
unfolding tier_capacity
tier_cases code_len c h = ground arith

-- The record for one length, all of whose numbers are written out.
tier_at :
    (half n c : ℕ) {code_len : ℕ}
    → code_len ≡ n
    → permutation_half_bits n ≡ some half
    → (c ≡ 56 ^ n) × (n ≤ 6) × (c ≤ 2 ^ half * 2 ^ half) × (2 ^ half * 2 ^ half ≤ walk_fuel)
    → IsTier code_len c
tier_at half n c e bits (power, short, wide, narrow) = rw e (record {
  half_bits = half;
  bits_lem = bits;
  power = power;
  short = short;
  wide = wide;
  narrow = narrow;
})

pub tier_capacity-IsTier : (code_len c : ℕ) → tier_capacity code_len ≡ some c → IsTier code_len c
unfolding permutation_half_bits
tier_capacity-IsTier code_len c h = elim (tier_cases code_len c h) [
  | inl (e, k) ↦ rw k (tier_at 9 3 175616 e refl (omega arith))
  | inr (inl (e, k)) ↦ rw k (tier_at 12 4 9834496 e refl (omega arith))
  | inr (inr (inl (e, k))) ↦ rw k (tier_at 15 5 550731776 e refl (omega arith))
  | inr (inr (inr (e, k))) ↦ rw k (tier_at 18 6 30840979456 e refl (omega arith))
]

module _ {code_len capacity : ℕ} (t : IsTier code_len capacity) where
  open t use {half_bits, bits_lem, wide, narrow}

  abbrev size : ℕ
  size = 2 ^ half_bits * 2 ^ half_bits

  small : size < 2 ^ 64
  small = omega arith

  encrypt_lem :
      ◌≡◌ {A = ℕ → Option ℕ}
        (λ value. feistel_encrypt value code_len)
        (λ v. some (encrypt_word code_len half_bits v))
  unfolding feistel_encrypt
  encrypt_lem = fun_ext (λ v. rw bits_lem refl)

  decrypt_lem :
      ◌≡◌ {A = ℕ → Option ℕ}
        (λ value. feistel_decrypt value code_len)
        (λ v. some (decrypt_word code_len half_bits v))
  unfolding feistel_decrypt
  decrypt_lem = fun_ext (λ v. rw bits_lem refl)

  encrypt_injective :
      (u v : ℕ)
      → u < size
      → v < size
      → encrypt_word code_len half_bits u ≡ encrypt_word code_len half_bits v
      → u ≡ v
  encrypt_injective u v hu hv e =
      sym (decrypt-encrypt_word half_bits small code_len u hu)
      ∙ ap (decrypt_word code_len half_bits) e
      ∙ decrypt-encrypt_word half_bits small code_len v hv

  decrypt_injective :
      (u v : ℕ)
      → u < size
      → v < size
      → decrypt_word code_len half_bits u ≡ decrypt_word code_len half_bits v
      → u ≡ v
  decrypt_injective u v hu hv e =
      sym (encrypt-decrypt_word half_bits small code_len u hu)
      ∙ ap (encrypt_word code_len half_bits) e
      ∙ encrypt-decrypt_word half_bits small code_len v hv

  abbrev forth : ℕ → Option ℕ
  forth v = some (encrypt_word code_len half_bits v)

  abbrev back : ℕ → Option ℕ
  back v = some (decrypt_word code_len half_bits v)

  fits : (v : ℕ) → v < capacity → v < size
  fits v h = omega arith

  walk-forth :
      (v : ℕ) → v < capacity → (w : ℕ) × (walk forth capacity walk_fuel v ≡ some w) × (w < capacity)
  walk-forth v h =
      walk_total _ capacity size (encrypt_word-lt half_bits small code_len) encrypt_injective
        walk_fuel v narrow (fits v h) h

  walk-back :
      (v : ℕ) → v < capacity → (w : ℕ) × (walk back capacity walk_fuel v ≡ some w) × (w < capacity)
  walk-back v h =
      walk_total _ capacity size (decrypt_word-lt half_bits small code_len) decrypt_injective
        walk_fuel v narrow (fits v h) h

  back-forth :
      (v w : ℕ)
      → v < capacity
      → walk forth capacity walk_fuel v ≡ some w
      → walk back capacity walk_fuel w ≡ some v
  back-forth v w h =
      walk-inverse _ _ capacity size (encrypt_word-lt half_bits small code_len)
        (decrypt-encrypt_word half_bits small code_len) walk_fuel v w (fits v h) h

  forth-back :
      (v w : ℕ)
      → v < capacity
      → walk back capacity walk_fuel v ≡ some w
      → walk forth capacity walk_fuel w ≡ some v
  forth-back v w h =
      walk-inverse _ _ capacity size (decrypt_word-lt half_bits small code_len)
        (encrypt-decrypt_word half_bits small code_len) walk_fuel v w (fits v h) h

module _ (code_len capacity : ℕ) (valid : tier_capacity code_len ≡ some capacity) where
  abbrev tier : IsTier code_len capacity
  tier = tier_capacity-IsTier code_len capacity valid

  permute_walk : (id : ℕ) → permute_local_id code_len id ≡ walk (forth tier) capacity walk_fuel id
  unfolding permute_local_id
  permute_walk id = rw (valid, encrypt_lem tier) refl

  invert_walk :
      (rank : ℕ)
      → rank < capacity
      → invert_permuted_local_id code_len rank ≡ walk (back tier) capacity walk_fuel rank
  unfolding invert_permuted_local_id
  invert_walk rank h =
      let inside : leb capacity rank ≡ false = ground arith in
      rw (valid, inside, decrypt_lem tier) refl

  -- The loop of `permute_local_id` ends for every id of a tier, with a rank of the tier.
  pub permute_local_id_total :
      (id : ℕ)
      → id < capacity
      → (rank : ℕ) × (permute_local_id code_len id ≡ some rank) × (rank < capacity)
  permute_local_id_total id h = rw (permute_walk id) (walk-forth tier id h)

  -- The loop of `invert_permuted_local_id` ends for every rank of a tier, with an id of the tier.
  pub invert_permuted_local_id_total :
      (rank : ℕ)
      → rank < capacity
      → (id : ℕ) × (invert_permuted_local_id code_len rank ≡ some id) × (id < capacity)
  invert_permuted_local_id_total rank h = rw (invert_walk rank h) (walk-back tier rank h)

  pub invert-permute :
      (id rank : ℕ)
      → id < capacity
      → rank < capacity
      → permute_local_id code_len id ≡ some rank
      → invert_permuted_local_id code_len rank ≡ some id
  invert-permute id rank h k e =
      rw (invert_walk rank k) (back-forth tier id rank h (rw (permute_walk id) at e))

  pub permute-invert :
      (rank id : ℕ)
      → rank < capacity
      → invert_permuted_local_id code_len rank ≡ some id
      → permute_local_id code_len id ≡ some rank
  permute-invert rank id h e =
      rw (permute_walk id) (forth-back tier rank id h (rw (invert_walk rank h) at e))
