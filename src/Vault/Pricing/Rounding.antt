-- ===== src/Vault/Pricing/Rounding.antt =====
-- The two divisions of the vault, on nonnegative amounts.
use tezoro_yield_aggregator.Base.{ℕ, ◌+◌, ◌-◌, ◌*◌, ◌/◌, ◌≤◌, ◌<◌, ◌≡◌, ap, arith}
use tezoro_yield_aggregator.Base.Int.{ℤ, pos, pos-+ℤ, pos-*ℤ, pos-/ℤ}
use tezoro_yield_aggregator.Base.Outcome.{ok}
use tezoro_yield_aggregator.Base.Words
use tezoro_yield_aggregator.Vault.Assets.{pro_rata, mul_div}

-- `VIRTUAL_SHARES_OFFSET`
abbrev pub offset : ℕ
offset = 1_000_000

pub mul_div_exact :
    (a f d : ℕ) {r : ℤ} → mul_div (pos a) (pos f) (pos d) ≡ ok r → r ≡ pos (a * f / d)
unfolding mul_div Words.mul Words.div
mul_div_exact a f d e = ground (arith, pos-*ℤ a f, pos-/ℤ (a * f) d)

pub pro_rata_exact :
    (a n d : ℕ) {r : ℤ}
    → pro_rata (pos a) (pos n) (pos d) ≡ ok r
    → r ≡ pos (a * (n + offset) / (d + offset))
unfolding pro_rata Words.add Words.mul Words.div
pro_rata_exact a n d e = ground (
  arith,
  pos-+ℤ n offset,
  pos-+ℤ d offset,
  pos-*ℤ a (n + offset),
  pos-/ℤ (a * (n + offset)) (d + offset),
)

-- A quotient rounds down, by less than one.
pub div_bounds : (a d : ℕ) → 0 < d → (a / d * d ≤ a) × (a < (a / d + 1) * d)
div_bounds a d h = grind arith

pub mul_le : (a b c : ℕ) → a ≤ b → a * c ≤ b * c
mul_le a b c h =
    let split : b ≡ a + (b - a) = omega arith in omega (arith, ap (λ (t : ℕ). t * c) split)
