-- ===== src/Base/Words.antt =====
-- Checked machine arithmetic. The release profile of contracts/Cargo.toml sets
-- `overflow-checks = true`, so an operation that leaves its range traps.
use Prim.Native.Nat.{ℕ, ◌+◌, ◌*◌, ◌^◌}
use mathlib.Core.Path.{◌≡◌}
use mathlib.Core.Bool.{Bool, ◌&&◌}
use native.Mathlib.Omega.{arith}
use tezoro_yield_aggregator.Base.Tests.{ltb, leb, if◌then◌else◌}
use tezoro_yield_aggregator.Base.Int.{ℤ, pos, pos_part, neg_part, ◌+ℤ◌, ◌-ℤ◌, ◌*ℤ◌, ◌/ℤ◌, eqb_ℤ}
use tezoro_yield_aggregator.Base.Outcome.{Outcome, ok, trap}

abbrev pub i128_bound : ℕ
i128_bound = 2 ^ 127

abbrev pub u64_bound : ℕ
u64_bound = 2 ^ 64

abbrev pub u32_bound : ℕ
u32_bound = 2 ^ 32

-- -2^127 ≤ z < 2^127
abbrev pub in_i128 : ℤ → Bool
in_i128 z = ltb (pos_part z) i128_bound && leb (neg_part z) i128_bound

module _ {E : Type 0} where
  abbrev pub check_i128 : ℤ → Outcome E ℤ
  check_i128 z = if in_i128 z then ok z else trap

  unfoldable pub add : ℤ → ℤ → Outcome E ℤ
  add a b = check_i128 (a +ℤ b)

  unfoldable pub sub : ℤ → ℤ → Outcome E ℤ
  sub a b = check_i128 (a -ℤ b)

  unfoldable pub mul : ℤ → ℤ → Outcome E ℤ
  mul a b = check_i128 (a *ℤ b)

  unfoldable pub div : ℤ → ℤ → Outcome E ℤ
  div a b = if eqb_ℤ b (pos 0) then trap else check_i128 (a /ℤ b)

  unfoldable pub add_u64 : ℕ → ℕ → Outcome E ℕ
  add_u64 a b = if ltb (a + b) u64_bound then ok (a + b) else trap

  unfoldable pub add_u32 : ℕ → ℕ → Outcome E ℕ
  add_u32 a b = if ltb (a + b) u32_bound then ok (a + b) else trap

  unfoldable pub mul_u32 : ℕ → ℕ → Outcome E ℕ
  mul_u32 a b = if ltb (a * b) u32_bound then ok (a * b) else trap

  -- An operation that returns has computed the exact integer.
  pub add_exact : (a b c : ℤ) → add a b ≡ ok c → c ≡ a +ℤ b
  unfolding add
  add_exact a b c h = ground arith

  pub sub_exact : (a b c : ℤ) → sub a b ≡ ok c → c ≡ a -ℤ b
  unfolding sub
  sub_exact a b c h = ground arith

  pub mul_exact : (a b c : ℤ) → mul a b ≡ ok c → c ≡ a *ℤ b
  unfolding mul
  mul_exact a b c h = ground arith

  pub div_exact : (a b c : ℤ) → div a b ≡ ok c → c ≡ a /ℤ b
  unfolding div
  div_exact a b c h = ground arith
