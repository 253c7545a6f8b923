-- ===== src/Math.antt =====
-- Basis points (crates/protocol-math/src/lib.rs).
pub mod Split
use comebackhere_contracts.Prelude.{ℕ, Bool, Option, none, some, leb}
use comebackhere_contracts.Prelude.Int.{ℤ, checked_mul, checked_div, checked_sub}

abbrev pub bps_denominator : ℕ
bps_denominator = 10000

unfoldable pub is_valid_bps : ℕ → Bool
is_valid_bps bps = leb bps bps_denominator

abbrev divided : Option ℤ → Option ℤ
divided none = none
divided (some product) = checked_div product bps_denominator

unfoldable pub apply_bps : ℤ → ℕ → Option ℤ
apply_bps amount bps = divided (checked_mul amount bps)

abbrev with_remainder : ℤ → ℤ → Option ℤ → Option (ℤ × ℤ)
with_remainder amount first none = none
with_remainder amount first (some rest) = some (first, rest)

abbrev remainder : ℤ → Option ℤ → Option (ℤ × ℤ)
remainder amount none = none
remainder amount (some first) = with_remainder amount first (checked_sub amount first)

unfoldable pub split_bps : ℤ → ℕ → Option (ℤ × ℤ)
unfolding apply_bps
split_bps amount bps = remainder amount (apply_bps amount bps)
