-- ===== src/Alloc/Code/RoundTrip.antt =====
-- Codes and ids determine one another: `decode_room_id` and `encode_local_id` are inverse.
use native.Mathlib.Nat.{div-lt_iff_lt-mul, one-le-pow}
use mathlib.Core.List.{append-nil}
use scpy.Prelude.{
  ℕ, ◌<◌, ◌≡◌, refl, sym, subst, ap, ◌∙◌, ◌↔◌, inl, inr, true, false, some, arith, leb, ltb, Text,
  [], ◌++◌, length, replicate, length-replicate, drop, drop-length, Bool-cases, Option-cases,
  some_inj,
}
use scpy.Alloc.Code.{
  CodeAllocation, tier_capacity, encode_local_id, decode_room_id, decode_public_rank,
  permute_local_id, invert_permuted_local_id, fill_slots, rank_bytes, u8_try_from,
}
use scpy.Alloc.Code.Digits.{
  digits, length-digits, fill_slots-digits, rank_bytes-digits, digits-rank_bytes,
}
use scpy.Alloc.Code.Permute.{
  tier_capacity-IsTier, permute_local_id_total, invert_permuted_local_id_total, invert-permute,
  permute-invert,
}

-- The slots of a fresh code, filled, are the digits of the rank.
fill_fresh : (n rank symbol : ℕ) → fill_slots n rank (replicate n symbol) ≡ digits n rank
fill_fresh n rank symbol =
    fill_slots-digits n rank (replicate n symbol) (rw length-replicate (omega arith))
    ∙ ap (λ tail. digits n rank ++ tail)
        (subst (λ m. drop m (replicate n symbol) ≡ []) (length-replicate n symbol)
          (drop-length (replicate n symbol)))
    ∙ append-nil _

module _ (code_len capacity : ℕ) (valid : tier_capacity code_len ≡ some capacity) where
  pub encode_in_range :
      (id rank : ℕ)
      → id < capacity
      → permute_local_id code_len id ≡ some rank
      → encode_local_id code_len id ≡ some (digits code_len rank)
  unfolding encode_local_id
  encode_in_range id rank h e =
      let inside : leb capacity id ≡ false = ground arith in rw (valid, inside, e, fill_fresh) refl

  decode_digits :
      (rank id : ℕ)
      → rank < capacity
      → invert_permuted_local_id code_len rank ≡ some id
      → decode_room_id (digits code_len rank)
        ≡ some (record { room_id = digits code_len rank; code_len = code_len; local_id = id })
  unfolding decode_room_id decode_public_rank u8_try_from
  decode_digits rank id h e =
      let t = tier_capacity-IsTier code_len capacity valid in
      let byte : ltb code_len 256 ≡ true = ground (arith, t.short) in
      let r = rank_bytes-digits code_len rank (rw t.power at h) (omega (arith, t.wide, t.narrow)) in
      rw (length-digits, byte, valid, r, e) refl

-- What a code tells about the id that it stands for.
encode_inv :
    (code_len id : ℕ) (code : Text)
    → encode_local_id code_len id ≡ some code
    → (capacity : ℕ) × (tier_capacity code_len ≡ some capacity) × (id < capacity)
unfolding encode_local_id
encode_inv code_len id code h = elim (Option-cases (tier_capacity code_len)) [
  | inl e ↦ absurd (ground arith)
  | inr (capacity, e) ↦ elim (Bool-cases (leb capacity id)) [
    | inl outside ↦ absurd (ground arith)
    | inr inside ↦ (capacity, e, ground arith)
  ]
]

-- What the parts of a successful decoding are.
record Decoded (code : Text) (a : CodeAllocation) : Type 0 where
  capacity : ℕ
  rank : ℕ
  room_lem : a.room_id ≡ code
  length_lem : a.code_len ≡ length code
  valid : tier_capacity (length code) ≡ some capacity
  read : rank_bytes 0 code ≡ some rank
  inverted : invert_permuted_local_id (length code) rank ≡ some a.local_id

decode_inv : (code : Text) (a : CodeAllocation) → decode_room_id code ≡ some a → Decoded code a
unfolding decode_room_id decode_public_rank u8_try_from
decode_inv code a h = elim (Bool-cases (ltb (length code) 256)) [
  | inr long ↦ absurd (ground arith)
  | inl short ↦ elim (Option-cases (tier_capacity (length code))) [
    | inl e ↦ absurd (ground arith)
    | inr (capacity, e) ↦ elim (Option-cases (rank_bytes 0 code)) [
      | inl r ↦ absurd (ground arith)
      | inr (rank, r) ↦ elim (Option-cases (invert_permuted_local_id (length code) rank)) [
        | inl i ↦ absurd (ground arith)
        | inr (id, i) ↦ record {
          capacity = capacity;
          rank = rank;
          room_lem = ground arith;
          length_lem = ground arith;
          valid = e;
          read = r;
          inverted = ground arith;
        }
      ]
    ]
  ]
]

pub decode-encode :
    (code_len id : ℕ) (code : Text)
    → encode_local_id code_len id ≡ some code
    → decode_room_id code ≡ some (record { room_id = code; code_len = code_len; local_id = id })
decode-encode code_len id code h =
    let (capacity, valid, inside) = encode_inv code_len id code h in
    let (rank, forth, below) = permute_local_id_total code_len capacity valid id inside in
    let back = invert-permute code_len capacity valid id rank inside below forth in
    let same : digits code_len rank ≡ code =
      some_inj (sym (encode_in_range code_len capacity valid id rank inside forth) ∙ h) in
    rw same at (decode_digits code_len capacity valid rank id below back)

-- The rank read from a code of a tier lies in the tier, and its digits are the code.
rank_in_tier :
    (code : Text) (a : CodeAllocation) (d : Decoded code a)
    → (d.rank < d.capacity) × (digits (length code) d.rank ≡ code)
rank_in_tier code a d =
    let t = tier_capacity-IsTier (length code) d.capacity d.valid in
    let (same, quotient) =
      digits-rank_bytes 0 code d.rank (omega (arith, t.power, t.wide, t.narrow)) d.read in
    let below =
      (div-lt_iff_lt-mul {x = d.rank} {y = 1} (one-le-pow (length code) 56 (omega arith))).0
        (omega arith) in
    (omega (arith, t.power, below), same)

pub encode-decode :
    (code : Text) (a : CodeAllocation)
    → decode_room_id code ≡ some a
    → encode_local_id a.code_len a.local_id ≡ some code
encode-decode code a h =
    let d = decode_inv code a h in
    let (below, same) = rank_in_tier code a d in
    let (id, inverted, inside) =
      invert_permuted_local_id_total (length code) d.capacity d.valid d.rank below in
    let e : id ≡ a.local_id = some_inj (sym inverted ∙ d.inverted) in
    rw (d.length_lem, ← e)
      (encode_in_range (length code) d.capacity d.valid id d.rank inside
          (permute-invert (length code) d.capacity d.valid d.rank id below inverted)
        ∙ ap some same)

-- A text is the code that `encode_local_id` gives for a length and an id exactly when
-- `decode_room_id` decodes the text to that length and that id.
pub encode-iff-decode :
    (code_len id : ℕ) (code : Text)
    → (encode_local_id code_len id ≡ some code)
      ↔ (decode_room_id code ≡ some (record { room_id = code; code_len = code_len; local_id = id }))
encode-iff-decode code_len id code = (decode-encode code_len id code, encode-decode code _)

-- Two ids that `encode_local_id` gives the same code are the same id of the same tier.
pub encode_local_id_injective :
    (n m id id' : ℕ) (code : Text)
    → encode_local_id n id ≡ some code
    → encode_local_id m id' ≡ some code
    → (n ≡ m) × (id ≡ id')
encode_local_id_injective n m id id' code h k =
    let e = some_inj (sym (decode-encode n id code h) ∙ decode-encode m id' code k) in
    (ap (λ (a : CodeAllocation). a.code_len) e, ap (λ (a : CodeAllocation). a.local_id) e)

-- `encode_local_id` has a code for every id below the capacity of a tier, and the code has the
-- tier's length.
pub encode_local_id_total :
    (code_len capacity id : ℕ)
    → tier_capacity code_len ≡ some capacity
    → id < capacity
    → (code : Text) × (encode_local_id code_len id ≡ some code) × (length code ≡ code_len)
encode_local_id_total code_len capacity id valid inside =
    let (rank, forth, below) = permute_local_id_total code_len capacity valid id inside in
    (
      digits code_len rank,
      encode_in_range code_len capacity valid id rank inside forth,
      length-digits code_len rank,
    )

pub encode_local_id_range :
    (code_len id : ℕ) (code : Text)
    → encode_local_id code_len id ≡ some code
    → (capacity : ℕ) × (tier_capacity code_len ≡ some capacity) × (id < capacity)
encode_local_id_range = encode_inv
