-- ===== src/Alloc/Code.antt =====
-- src/allocator.rs: the public code of an id (`encode_local_id`, `decode_room_id` and what they call).
-- A code is the list of its bytes.
pub mod Digits
pub mod Permute
pub mod RoundTrip
pub mod Spelled
use scpy.Prelude.{
  ℕ, zero, suc, ◌+◌, ◌*◌, ◌/◌, ◌%◌, ◌^◌, Bool, true, false, ◌||◌, Option, none, some, List, [], ◌∷◌,
  ltb, leb, ◌==◌, if◌then◌else◌, ◌>>=◌, Text, codes, length, get_or, set, replicate,
}
use scpy.Alloc.Feistel.{feistel_encrypt, feistel_decrypt}
use scpy.Alloc.Walk.{walk}

abbrev pub code_lengths : List ℕ
code_lengths = 3 ∷ 4 ∷ 5 ∷ 6 ∷ []

abbrev pub base56_alphabet : Text
base56_alphabet = codes "23456789ABCDEFGHJKLMNPQRSTUVWXYZabcdefghijkmnpqrstuvwxyz"

pub record CodeAllocation : Type 0 where
  pub room_id : Text
  pub code_len : ℕ
  pub local_id : ℕ

abbrev pub contains : List ℕ → ℕ → Bool
contains [] a = false
contains (x ∷ xs) a = x == a || contains xs a

unfoldable pub tier_capacity : ℕ → Option ℕ
tier_capacity code_len = if contains code_lengths code_len then some (56 ^ code_len) else none

-- Fuel for the walks: the number of words of the widest permutation, that of codes of length 6.
abbrev pub walk_fuel : ℕ
walk_fuel = 2 ^ 36

unfoldable pub permute_local_id : ℕ → ℕ → Option ℕ
permute_local_id code_len local_id = do
  domain ← tier_capacity code_len
  walk (λ value. feistel_encrypt value code_len) domain walk_fuel local_id

unfoldable pub invert_permuted_local_id : ℕ → ℕ → Option ℕ
invert_permuted_local_id code_len encoded_rank = do
  domain ← tier_capacity code_len
  if leb domain encoded_rank
      then none
      else walk (λ value. feistel_decrypt value code_len) domain walk_fuel encoded_rank

-- The loop over the slots, the last one first; `slot` slots are left.
unfoldable pub fill_slots : ℕ → ℕ → Text → Text
fill_slots zero value chars = chars
fill_slots (suc slot) value chars =
    fill_slots slot (value / 56) (set chars slot (get_or base56_alphabet (value % 56) 0))

unfoldable pub encode_local_id : ℕ → ℕ → Option Text
encode_local_id code_len local_id = do
  capacity ← tier_capacity code_len
  if leb capacity local_id then none else (do
    value ← permute_local_id code_len local_id
    some (fill_slots code_len value (replicate code_len (get_or base56_alphabet 0 0))))

-- `iter().position(..)`.
unfoldable pub position : ℕ → Text → Option ℕ
position byte [] = none
position byte (candidate ∷ rest) =
    if candidate == byte then some 0 else (do i ← position byte rest; some (i + 1))

-- The loop over the bytes; the rank is a u64.
unfoldable pub rank_bytes : ℕ → Text → Option ℕ
rank_bytes encoded_rank [] = some encoded_rank
rank_bytes encoded_rank (byte ∷ rest) = do
  digit ← position byte base56_alphabet
  rank_bytes ((encoded_rank * 56 + digit) % 2 ^ 64) rest

-- `u8::try_from`.
unfoldable pub u8_try_from : ℕ → Option ℕ
u8_try_from n = if ltb n 256 then some n else none

unfoldable pub decode_public_rank : Text → Option (ℕ × ℕ)
decode_public_rank room_id = do
  code_len ← u8_try_from (length room_id)
  capacity ← tier_capacity code_len
  encoded_rank ← rank_bytes 0 room_id
  some (code_len, encoded_rank)

unfoldable pub decode_room_id : Text → Option CodeAllocation
decode_room_id room_id = do
  (code_len, encoded_rank) ← decode_public_rank room_id
  local_id ← invert_permuted_local_id code_len encoded_rank
  some (record { room_id = room_id; code_len = code_len; local_id = local_id })
