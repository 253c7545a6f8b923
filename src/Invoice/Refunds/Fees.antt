-- ===== src/Invoice/Refunds/Fees.antt =====
-- The fee arithmetic of contracts/invoice/src/refund.rs, which never forms the whole product.
use comebackhere_contracts.Prelude.{
  ℕ, ◌+◌, ◌-◌, ◌*◌, ◌/◌, ◌%◌, ◌^◌, ◌≤◌, ◌<◌, ◌≡◌, leb, if◌then◌else◌, arith, sym, ap, ◌∙◌,
}
use comebackhere_contracts.Prelude.Int.{pos, ◌-ℤ◌, ◌+ℤ◌}
use native.Mathlib.Nat.{mul-le-mul_left}
use comebackhere_contracts.Host.{ok}
use comebackhere_contracts.Invoice.Refunds.{calculate_net_refund_with_network_fee}

whole_le : (q bps : ℕ) → bps ≤ 10000 → q * bps ≤ q * 10000
whole_le q bps valid = omega (arith, mul-le-mul_left q valid)

rest_le : (r bps : ℕ) → r < 10000 → bps ≤ 10000 → r * bps ≤ r * 10000
rest_le r bps small valid = omega (arith, mul-le-mul_left r valid)

rest_lt : (n : ℕ) → n % 10000 < 10000
rest_lt n = omega arith

-- The two terms make up the truncated share of the whole amount.
decomposed : (q r bps : ℕ) → (q * 10000 + r) * bps / 10000 ≡ q * bps + r * bps / 10000
decomposed q r bps = omega arith

parts : (n : ℕ) → n / 10000 * 10000 + n % 10000 ≡ n
parts n = omega arith

share_le : (n bps : ℕ) → bps ≤ 10000 → n * bps / 10000 ≤ n
share_le n bps valid = omega (arith, mul-le-mul_left n valid)

share : (n bps : ℕ) → n / 10000 * bps + n % 10000 * bps / 10000 ≡ n * bps / 10000
share n bps =
    sym (ap (λ (m : ℕ). m * bps / 10000) (sym (parts n)) ∙ decomposed (n / 10000) (n % 10000) bps)

sub_pos : (a b : ℕ) → b ≤ a → pos a -ℤ pos b ≡ pos (a - b)
unfolding ◌-ℤ◌
sub_pos a b h = ground arith

add_pos : (a b : ℕ) → pos a +ℤ pos b ≡ pos (a + b)
unfolding ◌+ℤ◌
add_pos a b = ground arith

abbrev pub smaller : ℕ → ℕ → ℕ
smaller a b = if leb a b then a else b

module _ {S : Type 0} (gross bps network : ℕ) (s : S) where
  -- For every positive `i128` amount and every fee up to 100 percent the computation succeeds: no
  -- step overflows, the processing fee is the exact share rounded down, the network fee is capped at
  -- the amount, and what is left is paid, or 0 where the fees are more.
  pub net_refund_exact :
      0 < gross
      → gross < 2 ^ 127
      → bps ≤ 10000
      → calculate_net_refund_with_network_fee (pos gross) bps (pos network) s
        ≡ ok (
          record {
            gross_amount = pos gross;
            processing_fee = pos (gross * bps / 10000);
            network_fee = pos (smaller gross network);
            net_amount = pos (gross - gross * bps / 10000 - smaller gross network);
          },
          s,
        )
  unfolding calculate_net_refund_with_network_fee
  net_refund_exact positive fits valid = ground (
    arith,
    share gross bps,
    share_le gross bps,
    whole_le (gross / 10000) bps,
    rest_le (gross % 10000) bps,
    rest_lt gross,
    add_pos (gross / 10000 * bps) (gross % 10000 * bps / 10000),
    sub_pos gross (gross * bps / 10000),
    sub_pos (gross - gross * bps / 10000) (smaller gross network),
  )
