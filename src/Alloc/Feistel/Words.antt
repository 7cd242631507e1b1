-- ===== src/Alloc/Feistel/Words.antt =====
-- From rounds on halves to whole words: `split` and `join` are inverse on words of `2 * k` bits, so
-- the permutation of words and its inverse are.
use native.Mathlib.Nat.{
  one-le-pow, mod-lt, mod-eq_of_lt, div-lt_iff_lt-mul, mul-lt-mul_of_pos_right, lt_trans,
  div-add-mod', mul-add-mod_self_right,
}
use scpy.Prelude.{ℕ, ◌-◌, ◌*◌, ◌^◌, ◌<◌, ◌≡◌, ◌+◌, refl, ◌∙◌, arith, bit_and}
use scpy.Bits.{shl, shr, and_mask, or_fields}
use scpy.Alloc.Feistel.{
  Halves, decrypt_rounds, low_mask, split, join, encrypt_word, decrypt_word, permutation_rounds,
}
use scpy.Alloc.Feistel.Inverse.{
  Fits, encrypt_rounds-Fits, decrypt_rounds-Fits, decrypt-encrypt_rounds, encrypt-decrypt_rounds,
}

module _ (k : ℕ) (small : 2 ^ k * 2 ^ k < 2 ^ 64) where
  pow_small : 2 ^ k < 2 ^ 64
  pow_small = grind (arith, one-le-pow k 2)

  low_mask_lem : low_mask k ≡ 2 ^ k - 1
  unfolding low_mask
  low_mask_lem = ground (arith, mod-eq_of_lt pow_small)

  split-Fits : (value : ℕ) → value < 2 ^ k * 2 ^ k → Fits k (split k value)
  unfolding split
  split-Fits value h =
      let positive = one-le-pow k 2 (omega arith) in
      ((div-lt_iff_lt-mul positive).1 h, rw (low_mask_lem, and_mask) (mod-lt _ positive))

  shl_exact : (left : ℕ) → left < 2 ^ k → shl left k ≡ left * 2 ^ k
  shl_exact left h =
      let below : left * 2 ^ k < 2 ^ k * 2 ^ k =
        mul-lt-mul_of_pos_right h (one-le-pow k 2 (omega arith)) in
      mod-eq_of_lt (lt_trans below small)

  join_lem : (h : Halves) → Fits k h → join k h ≡ h.left * 2 ^ k + h.right
  unfolding join
  join_lem h f = rw (shl_exact h.left f.0) (or_fields k h.left h.right f.1)

  join-lt : (h : Halves) → Fits k h → join k h < 2 ^ k * 2 ^ k
  join-lt h f = rw (join_lem h f) (grind arith)

  join-split : (value : ℕ) → value < 2 ^ k * 2 ^ k → join k (split k value) ≡ value
  unfolding split
  join-split value h =
      join_lem (split k value) (split-Fits value h)
      ∙ rw (low_mask_lem, and_mask) (div-add-mod' value (2 ^ k))

  split-join : (h : Halves) → Fits k h → split k (join k h) ≡ h
  unfolding split
  split-join h f = rw (join_lem h f) λ i. record { left = high i; right = low i }
    where
      high : shr (h.left * 2 ^ k + h.right) k ≡ h.left
      high = grind arith

      low : bit_and (h.left * 2 ^ k + h.right) (low_mask k) ≡ h.right
      low =
          rw (low_mask_lem, and_mask)
            (mul-add-mod_self_right h.left (2 ^ k) h.right ∙ mod-eq_of_lt f.1)

  module _ (code_len : ℕ) where
    pub encrypt_word-lt :
        (value : ℕ) → value < 2 ^ k * 2 ^ k → encrypt_word code_len k value < 2 ^ k * 2 ^ k
    unfolding encrypt_word
    encrypt_word-lt value h =
        rw low_mask_lem
          (join-lt _ (encrypt_rounds-Fits code_len k permutation_rounds 0 _ (split-Fits value h)))

    pub decrypt_word-lt :
        (value : ℕ) → value < 2 ^ k * 2 ^ k → decrypt_word code_len k value < 2 ^ k * 2 ^ k
    unfolding decrypt_word
    decrypt_word-lt value h =
        rw low_mask_lem
          (join-lt _ (decrypt_rounds-Fits code_len k permutation_rounds _ (split-Fits value h)))

    -- With two halves of k bits, where 2k bits are fewer than 64, the decryption of the encryption
    -- of a word of 2k bits is that word, whatever the code length.
    pub decrypt-encrypt_word :
        (value : ℕ)
        → value < 2 ^ k * 2 ^ k
        → decrypt_word code_len k (encrypt_word code_len k value) ≡ value
    unfolding encrypt_word decrypt_word
    decrypt-encrypt_word value h =
        let fits = split-Fits value h in
        rw
          (
            low_mask_lem,
            split-join _ (encrypt_rounds-Fits code_len k permutation_rounds 0 _ fits),
            decrypt-encrypt_rounds code_len k permutation_rounds 0 permutation_rounds _ refl fits,
          )
          (unfold decrypt_rounds in join-split value h)

    pub encrypt-decrypt_word :
        (value : ℕ)
        → value < 2 ^ k * 2 ^ k
        → encrypt_word code_len k (decrypt_word code_len k value) ≡ value
    unfolding encrypt_word decrypt_word
    encrypt-decrypt_word value h =
        let fits = split-Fits value h in
        rw
          (
            low_mask_lem,
            split-join _ (decrypt_rounds-Fits code_len k permutation_rounds _ fits),
            encrypt-decrypt_rounds code_len k permutation_rounds _ fits,
          )
          (join-split value h)
