-- ===== src/Alloc/Feistel.antt =====
-- src/allocator.rs: the keyed permutation of the words of `2 * half_bits` bits (`feistel_encrypt`,
-- `feistel_decrypt`, `round_function`, `splitmix64`). A u64 is a number below `2 ^ 64`.
pub mod Inverse
pub mod Words
use scpy.Prelude.{
  ℕ, zero, suc, ◌+◌, ◌-◌, ◌*◌, ◌%◌, ◌^◌, Option, none, some, bit_and, bit_or, bit_xor, ◌==◌,
  if◌then◌else◌, ◌>>=◌,
}
use scpy.Bits.{shl, shr}

abbrev pub permutation_rounds : ℕ
permutation_rounds = 8

abbrev pub permutation_key : ℕ
permutation_key = 0xa5c3_1f27_9bde_4401

unfoldable pub permutation_half_bits : ℕ → Option ℕ
permutation_half_bits code_len =
    if code_len == 3
    then some 9
    else if code_len == 4
    then some 12
    else if code_len == 5
    then some 15
    else if code_len == 6
    then some 18
    else none

abbrev wrapping_add : ℕ → ℕ → ℕ
wrapping_add a b = (a + b) % 2 ^ 64

abbrev wrapping_mul : ℕ → ℕ → ℕ
wrapping_mul a b = a * b % 2 ^ 64

unfoldable pub splitmix64 : ℕ → ℕ
splitmix64 value =
    let v1 = wrapping_add value 0x9e37_79b9_7f4a_7c15 in
    let v2 = wrapping_mul (bit_xor v1 (shr v1 30)) 0xbf58_476d_1ce4_e5b9 in
    let v3 = wrapping_mul (bit_xor v2 (shr v2 27)) 0x94d0_49bb_1331_11eb in bit_xor v3 (shr v3 31)

unfoldable pub round_function : ℕ → ℕ → ℕ → ℕ → ℕ
round_function code_len round value mask =
    let seed = bit_xor (bit_xor (bit_xor permutation_key (shl code_len 56)) (shl round 48)) value in
    bit_and (splitmix64 seed) mask

-- The two halves of a word.
pub record Halves : Type 0 where
  pub left : ℕ
  pub right : ℕ

module _ (code_len mask : ℕ) where
  unfoldable pub encrypt_round : ℕ → Halves → Halves
  encrypt_round round h = record {
    left = h.right;
    right = bit_xor h.left (round_function code_len round h.right mask);
  }

  unfoldable pub decrypt_round : ℕ → Halves → Halves
  decrypt_round round h = record {
    left = bit_xor h.right (round_function code_len round h.left mask);
    right = h.left;
  }

  -- `n` rounds from number `round` on.
  unfoldable pub encrypt_rounds : ℕ → ℕ → Halves → Halves
  encrypt_rounds zero round h = h
  encrypt_rounds (suc n) round h = encrypt_rounds n (round + 1) (encrypt_round round h)

  -- The rounds below number `round`, the last one first.
  unfoldable pub decrypt_rounds : ℕ → Halves → Halves
  decrypt_rounds zero h = h
  decrypt_rounds (suc round) h = decrypt_rounds round (decrypt_round round h)

unfoldable pub low_mask : ℕ → ℕ
low_mask half_bits = shl 1 half_bits - 1

unfoldable pub split : ℕ → ℕ → Halves
split half_bits value = record {
  left = shr value half_bits;
  right = bit_and value (low_mask half_bits);
}

unfoldable pub join : ℕ → Halves → ℕ
join half_bits h = bit_or (shl h.left half_bits) h.right

unfoldable pub encrypt_word : ℕ → ℕ → ℕ → ℕ
encrypt_word code_len half_bits value =
    join half_bits
      (encrypt_rounds code_len (low_mask half_bits) permutation_rounds 0 (split half_bits value))

unfoldable pub decrypt_word : ℕ → ℕ → ℕ → ℕ
decrypt_word code_len half_bits value =
    join half_bits
      (decrypt_rounds code_len (low_mask half_bits) permutation_rounds (split half_bits value))

unfoldable pub feistel_encrypt : ℕ → ℕ → Option ℕ
feistel_encrypt value code_len = do
  half_bits ← permutation_half_bits code_len
  some (encrypt_word code_len half_bits value)

unfoldable pub feistel_decrypt : ℕ → ℕ → Option ℕ
feistel_decrypt value code_len = do
  half_bits ← permutation_half_bits code_len
  some (decrypt_word code_len half_bits value)
