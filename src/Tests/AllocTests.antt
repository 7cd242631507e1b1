-- ===== src/Tests/AllocTests.antt =====
-- src/allocator.rs: codes and allocations of a new allocator.
use std.Equiv.{◌≃◌}
use scpy.Prelude.{ℕ, ◌<◌, ◌↔◌, ◌≡◌, refl, ap, arith, Option, none, some, Text, [], ◌∷◌, codes}
use scpy.Alloc.Code.{
  CodeAllocation, tier_capacity, encode_local_id, decode_room_id, permute_local_id,
  invert_permuted_local_id, decode_public_rank,
}
use scpy.Alloc.Code.RoundTrip.{encode-iff-decode}
use scpy.Alloc.Code.Spelled.{LocalId, Spelled, LocalId-Spelled_equiv}
use scpy.Alloc.Code.Permute.{permute_local_id_total}
use scpy.Alloc.Feistel.{encrypt_word, decrypt_word}
use scpy.Alloc.Tier.{TieredAllocator, FreeOutcome, freed, already_free, allocate, free}
use scpy.Alloc.Tier.Invariant.{IsValid, IsFreed, free-IsFreed, is_free}
use scpy.Alloc.Tier.Invariant.Allocate.{Outcome, allocate-Outcome}
use scpy.Alloc.Tier.Invariant.Fresh.{full_tiers, new-IsValid, free-allocate}

abbrev first_code : CodeAllocation
first_code = record { room_id = codes "Cxm"; code_len = 3; local_id = 0 }

abbrev fifth_code : Text
fifth_code = codes "4xq"

encode_fifth : encode_local_id 3 5 ≡ some fifth_code
unfolding encode_local_id tier_capacity permute_local_id scpy.Alloc.Walk.walk
    scpy.Alloc.Feistel.feistel_encrypt scpy.Alloc.Feistel.permutation_half_bits encrypt_word
    scpy.Alloc.Feistel.join scpy.Alloc.Feistel.encrypt_rounds scpy.Alloc.Feistel.encrypt_round
    scpy.Alloc.Feistel.split scpy.Alloc.Feistel.round_function scpy.Alloc.Feistel.splitmix64
    scpy.Alloc.Feistel.low_mask scpy.Alloc.Code.fill_slots
encode_fifth = refl

-- A character that is not in the alphabet, and a length without a tier.
decode_bad : decode_room_id (codes "4x0") ≡ none
unfolding decode_room_id decode_public_rank scpy.Alloc.Code.u8_try_from tier_capacity
    scpy.Alloc.Code.rank_bytes scpy.Alloc.Code.position
decode_bad = refl

decode_long : decode_room_id (codes "Cxm4444") ≡ none
unfolding decode_room_id decode_public_rank scpy.Alloc.Code.u8_try_from tier_capacity
decode_long = refl

tier_three : tier_capacity 3 ≡ some 175616
unfolding tier_capacity
tier_three = refl

abbrev pub one_taken : TieredAllocator
one_taken = record {
  intervals =
      (3, (1, 175615) ∷ [])
      ∷ (4, (0, 9834495) ∷ [])
      ∷ (5, (0, 550731775) ∷ [])
      ∷ (6, (0, 30840979455) ∷ [])
      ∷ [];
}

pub allocate_full : allocate full_tiers ≡ (one_taken, some first_code)
unfolding allocate scpy.Alloc.Tier.allocate_from scpy.BTree.get scpy.BTree.first encode_local_id
    tier_capacity permute_local_id scpy.Alloc.Walk.walk scpy.Alloc.Feistel.feistel_encrypt
    scpy.Alloc.Feistel.permutation_half_bits encrypt_word scpy.Alloc.Feistel.join
    scpy.Alloc.Feistel.encrypt_rounds scpy.Alloc.Feistel.encrypt_round scpy.Alloc.Feistel.split
    scpy.Alloc.Feistel.round_function scpy.Alloc.Feistel.splitmix64 scpy.Alloc.Feistel.low_mask
    scpy.Alloc.Code.fill_slots scpy.Alloc.Tier.take_start scpy.BTree.insert scpy.BTree.remove
allocate_full = refl

allocate_first : (allocate full_tiers).1 ≡ some first_code
allocate_first = ap (λ (out : TieredAllocator × Option CodeAllocation). out.1) allocate_full

-- Freed twice, an id is told to be free the second time.
free_twice :
    let after = (allocate full_tiers).0 in (free (free after 3 0).0 3 0).1 ≡ some already_free
unfolding allocate free tier_capacity scpy.BTree.get scpy.Alloc.Tier.allocate_from scpy.BTree.first
    scpy.BTree.insert scpy.Alloc.Tier.free_in scpy.Alloc.Tier.covers scpy.BTree.last_up_to
    scpy.Alloc.Tier.take_start scpy.BTree.remove scpy.Alloc.Tier.merge scpy.Alloc.Tier.left_adjacent
    scpy.Alloc.Tier.right_adjacent
free_twice = refl

encode-iff-decode_example : (encode_local_id 3 5 ≡ some fifth_code) ↔ (
    decode_room_id fifth_code ≡ some (record { room_id = fifth_code; code_len = 3; local_id = 5 }))
encode-iff-decode_example = encode-iff-decode 3 5 fifth_code

permute_local_id_total_example : (rank : ℕ) × (permute_local_id 3 5 ≡ some rank) × (rank < 175616)
permute_local_id_total_example = permute_local_id_total 3 175616 tier_three 5 (omega arith)

allocate-Outcome_example : Outcome full_tiers (allocate full_tiers)
allocate-Outcome_example = allocate-Outcome full_tiers (new-IsValid.1)

free-IsFreed_example : IsFreed full_tiers 3 5 (free full_tiers 3 5)
free-IsFreed_example = free-IsFreed full_tiers (new-IsValid.1) 3 175616 5 tier_three (omega arith)

free-allocate_example :
    let freed_again = free (allocate full_tiers).0 3 0 in
    (freed_again.1 ≡ some freed)
    × IsValid freed_again.0
    × ((m j : ℕ) → is_free freed_again.0 m j ≡ is_free full_tiers m j)
free-allocate_example = free-allocate full_tiers first_code (new-IsValid.1) allocate_first

LocalId-Spelled_equiv_example :
    (e : LocalId 175616 ≃ Spelled 3) × ((id : LocalId 175616)
      → encode_local_id 3 id.0 ≡ some (e.0 id).0)
LocalId-Spelled_equiv_example = LocalId-Spelled_equiv 3 175616 tier_three
