-- ===== src/Alloc/Walk.antt =====
-- src/allocator.rs: the `loop` of `permute_local_id` and `invert_permuted_local_id`, which applies a
-- permutation until the value falls into the domain.
pub mod Total
pub mod Inverse
use scpy.Prelude.{ℕ, zero, suc, Option, none, some, true, false, ltb, ◌>>=◌}

-- The loop with fuel; `none` is the step's own `?`, or that the fuel ran out.
unfoldable pub walk : (ℕ → Option ℕ) → ℕ → ℕ → ℕ → Option ℕ
walk step domain zero value = none
walk step domain (suc fuel) value = do
  next ← step value
  elim (ltb next domain) [ true ↦ some next | false ↦ walk step domain fuel next ]
