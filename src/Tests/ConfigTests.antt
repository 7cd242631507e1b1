-- ===== src/Tests/ConfigTests.antt =====
-- src/main.rs: the settings of one environment.
use scpy.Prelude.{ℕ, ◌*◌, ◌≡◌, refl, none, some, List, [], ◌∷◌, codes, arith, decimal}
use scpy.HashMap.{lookup}
use scpy.Config.{
  Environment, unspecified, redis_with_reclaimer, parse, parse_digits, address, start,
}
use scpy.Config.RoundTrip.{absent, garbled, written, general, start-Reads}

abbrev env : Environment
env =
    (codes "PORT", codes "8080")
    ∷ (codes "SCPY_RECLAIM_INTERVAL_MILLIS", codes "1s")
    ∷ (codes "SCPY_RECLAIM_BATCH_LIMIT", codes "16")
    ∷ (codes "REDIS_URL", codes "redis://db")
    ∷ []

start-Reads_example :
    (address {A = ℕ} env 3000 ≡ unspecified 8080)
    × (start env ≡ redis_with_reclaimer (codes "redis://db") 86_400_000_000_000 1_000_000_000 16)
unfolding lookup scpy.Prelude.text_eq scpy.Prelude.decimal_digits parse parse_digits
start-Reads_example =
    start-Reads env 3000 (written 8080 refl (omega arith)) (absent refl)
      (garbled (codes "1s") refl refl) (written 16 refl (omega arith))
      (general (codes "redis://db") refl refl)

-- A plus sign is read, a number that is too large is not.
parse_signed : parse 65_535 (codes "+80") ≡ some 80
unfolding parse parse_digits
parse_signed = refl

parse_large : parse 65_535 (codes "65536") ≡ none
unfolding parse parse_digits
parse_large = refl
