-- ===== src/Alloc/Feistel/Inverse.antt =====
-- The permutation and its inverse, and the range that both keep.
use native.Mathlib.Nat.{one-le-pow, mod-lt, add-zero, zero-add}
use native.Mathlib.Numerals.{add-one}
use scpy.Prelude.{ℕ, zero, suc, ◌+◌, ◌-◌, ◌^◌, ◌<◌, ◌≡◌, refl, ◌∙◌, arith}
use scpy.Bits.{xor-xor, xor-lt, and_mask}
use scpy.Alloc.Feistel.{
  Halves, round_function, encrypt_round, decrypt_round, encrypt_rounds, decrypt_rounds,
}

-- Both halves have `k` bits.
abbrev pub Fits : ℕ → Halves → Type 0
Fits k h = (h.left < 2 ^ k) × (h.right < 2 ^ k)

module _ (code_len k : ℕ) where
  abbrev pub mask : ℕ
  mask = 2 ^ k - 1

  round_function-lt : (round value : ℕ) → round_function code_len round value mask < 2 ^ k
  unfolding round_function
  round_function-lt round value = rw and_mask (mod-lt _ (one-le-pow k 2 (omega arith)))

  encrypt_round-Fits :
      (round : ℕ) (h : Halves) → Fits k h → Fits k (encrypt_round code_len mask round h)
  unfolding encrypt_round
  encrypt_round-Fits round h f = (f.1, xor-lt k h.left _ f.0 (round_function-lt round h.right))

  decrypt_round-Fits :
      (round : ℕ) (h : Halves) → Fits k h → Fits k (decrypt_round code_len mask round h)
  unfolding decrypt_round
  decrypt_round-Fits round h f = (xor-lt k h.right _ f.1 (round_function-lt round h.left), f.0)

  decrypt-encrypt_round :
      (round : ℕ) (h : Halves)
      → Fits k h
      → decrypt_round code_len mask round (encrypt_round code_len mask round h) ≡ h
  unfolding encrypt_round decrypt_round
  decrypt-encrypt_round round h f =
      let e = xor-xor k h.left _ f.0 (round_function-lt round h.right) in
      λ i. record { left = e i; right = h.right }

  encrypt-decrypt_round :
      (round : ℕ) (h : Halves)
      → Fits k h
      → encrypt_round code_len mask round (decrypt_round code_len mask round h) ≡ h
  unfolding encrypt_round decrypt_round
  encrypt-decrypt_round round h f =
      let e = xor-xor k h.right _ f.1 (round_function-lt round h.left) in
      λ i. record { left = h.left; right = e i }

  pub encrypt_rounds-Fits :
      (n round : ℕ) (h : Halves) → Fits k h → Fits k (encrypt_rounds code_len mask n round h)
  unfolding encrypt_rounds
  encrypt_rounds-Fits zero round h f = f
  encrypt_rounds-Fits (suc n) round h f =
      encrypt_rounds-Fits n (round + 1) _ (encrypt_round-Fits round h f)

  pub decrypt_rounds-Fits :
      (round : ℕ) (h : Halves) → Fits k h → Fits k (decrypt_rounds code_len mask round h)
  unfolding decrypt_rounds
  decrypt_rounds-Fits zero h f = f
  decrypt_rounds-Fits (suc round) h f = decrypt_rounds-Fits round _ (decrypt_round-Fits round h f)

  pub decrypt-encrypt_rounds :
      (n round last : ℕ) (h : Halves)
      → round + n ≡ last
      → Fits k h
      → decrypt_rounds code_len mask last (encrypt_rounds code_len mask n round h)
        ≡ decrypt_rounds code_len mask round h
  unfolding encrypt_rounds decrypt_rounds
  decrypt-encrypt_rounds zero round last h e f =
      let same : last ≡ round = omega arith in rw same refl
  decrypt-encrypt_rounds (suc n) round last h e f =
      decrypt-encrypt_rounds n (round + 1) last _ (omega arith) (encrypt_round-Fits round h f)
      ∙ rw (add-one, decrypt-encrypt_round round h f) refl

  encrypt_rounds-last :
      (n round : ℕ) (h : Halves)
      → encrypt_rounds code_len mask (suc n) round h
        ≡ encrypt_round code_len mask (round + n) (encrypt_rounds code_len mask n round h)
  unfolding encrypt_rounds
  encrypt_rounds-last zero round h = rw add-zero refl
  encrypt_rounds-last (suc n) round h =
      let e : round + 1 + n ≡ round + suc n = omega arith in
      encrypt_rounds-last n (round + 1) (encrypt_round code_len mask round h) ∙ rw e refl

  pub encrypt-decrypt_rounds :
      (n : ℕ) (h : Halves)
      → Fits k h
      → encrypt_rounds code_len mask n 0 (decrypt_rounds code_len mask n h) ≡ h
  unfolding decrypt_rounds
  encrypt-decrypt_rounds zero h f = unfold encrypt_rounds in refl
  encrypt-decrypt_rounds (suc n) h f =
      encrypt_rounds-last n 0 _
      ∙ rw (zero-add, encrypt-decrypt_rounds n _ (decrypt_round-Fits n h f))
          (encrypt-decrypt_round n h f)
