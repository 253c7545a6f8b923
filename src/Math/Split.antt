-- ===== src/Math/Split.antt =====
-- Laws of `split_bps_i128` (crates/protocol-math/src/lib.rs).
use comebackhere_contracts.Prelude.{
  ℕ, ◌-◌, ◌*◌, ◌/◌, ◌^◌, ◌≤◌, ◌<◌, ◌≡◌, some, true, arith, Option-cases, inl, inr,
}
use comebackhere_contracts.Prelude.Int.{ℤ, pos, ◌+ℤ◌, ◌-ℤ◌, +ℤ_parts, -ℤ_parts, eq_of_parts}
use native.Mathlib.Nat.{mul-le-mul_left}
use comebackhere_contracts.Math.{is_valid_bps, apply_bps, split_bps}

sub_add : (a b : ℤ) → b +ℤ (a -ℤ b) ≡ a
sub_add a b = eq_of_parts (b +ℤ (a -ℤ b)) a (omega (arith, +ℤ_parts b (a -ℤ b), -ℤ_parts a b))

-- If a split succeeds, its two parts add up to the amount, whatever its sign and the ratio.
pub split_bps_exact :
    (amount : ℤ) (bps : ℕ) (first second : ℤ)
    → split_bps amount bps ≡ some (first, second)
    → first +ℤ second ≡ amount
unfolding split_bps
split_bps_exact amount bps first second h = elim (Option-cases (apply_bps amount bps)) [
  | inl failed ↦ ground arith
  | inr (x, applied) ↦ ground (arith, sub_add amount x)
]

scaled_le : (n bps : ℕ) → bps ≤ 10000 → n * bps / 10000 ≤ n
scaled_le n bps valid = omega (arith, mul-le-mul_left n valid)

sub_pos : (a b : ℕ) → b ≤ a → pos a -ℤ pos b ≡ pos (a - b)
unfolding ◌-ℤ◌
sub_pos a b h = ground arith

-- With a valid ratio, an amount that is not negative and whose scaled product fits `i128` is split
-- into the truncated share and the rest, and neither exceeds the amount.
pub split_bps_parts :
    (amount bps : ℕ)
    → is_valid_bps bps ≡ true
    → amount < 2 ^ 127
    → amount * bps < 2 ^ 127
    → (split_bps (pos amount) bps
        ≡ some (pos (amount * bps / 10000), pos (amount - amount * bps / 10000)))
      × (amount * bps / 10000 ≤ amount)
unfolding split_bps apply_bps is_valid_bps
split_bps_parts amount bps valid fits product =
    ground (arith, scaled_le amount bps, sub_pos amount (amount * bps / 10000))
