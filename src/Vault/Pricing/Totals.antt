-- ===== src/Vault/Pricing/Totals.antt =====
-- `total_assets` of contracts/contracts/tezoro-vault/src/lib.rs returns, whatever the strategies.
use tezoro_yield_aggregator.Base.{ℕ, ◌+◌, ◌<◌, ◌≡◌, some, List, [], ◌∷◌, arith}
use tezoro_yield_aggregator.Base.Int.{ℤ, pos, pos_part, ◌≤ℤ◌, nonneg-eq-pos, pos-+ℤ}
use tezoro_yield_aggregator.Base.Map.{Address, Map, balance, IsNonneg, balance_nonneg}
use tezoro_yield_aggregator.Base.Outcome.{ok}
use tezoro_yield_aggregator.Base.Words
use tezoro_yield_aggregator.Base.Words.{i128_bound}
use tezoro_yield_aggregator.Common.{Chain}
use tezoro_yield_aggregator.Vault.State.{Storage, World}
use tezoro_yield_aggregator.Vault.Store.{get_strategies, get_bridged_balance}
use tezoro_yield_aggregator.Vault.Soundness.{IsTracked}
use tezoro_yield_aggregator.Vault.Assets.{
  total_assets, sum_tracked, effective_bridged_balance, idle_balance,
}

-- What the strategies hold together, by the vault's own record.
abbrev pub recorded_in : Map ℤ → List Address → ℕ
recorded_in tracked [] = 0
recorded_in tracked (s ∷ strategies) = pos_part (balance s tracked) + recorded_in tracked strategies

sum_tracked-returns :
    (s : Storage) (acc : ℕ) (strategies : List Address)
    → IsNonneg s.tracked_balance
    → acc + recorded_in s.tracked_balance strategies < i128_bound
    → sum_tracked s (pos acc) strategies ≡ ok (pos (acc + recorded_in s.tracked_balance strategies))
unfolding sum_tracked Words.add
sum_tracked-returns s acc [] n lt = ground arith
sum_tracked-returns s acc (x ∷ strategies) n lt =
    let b = pos_part (balance x s.tracked_balance) in
    ground (
      arith,
      nonneg-eq-pos (balance x s.tracked_balance) (balance_nonneg x s.tracked_balance n),
      pos-+ℤ acc b,
      sum_tracked-returns s (acc + b) strategies n,
    )

-- The attested balance that counts.
abbrev pub attested : Storage → ℕ → ℕ
attested s now = pos_part (effective_bridged_balance s now)

attested_exact :
    (s : Storage) (now : ℕ)
    → pos 0 ≤ℤ get_bridged_balance s
    → effective_bridged_balance s now ≡ pos (attested s now)
unfolding effective_bridged_balance
attested_exact s now n = ground (arith, nonneg-eq-pos (get_bridged_balance s) n)

abbrev pub elsewhere : Storage → ℕ → ℕ
elsewhere s now = recorded_in s.tracked_balance (get_strategies s) + attested s now

module _ {X : Type 0} (h : Chain X) where
  pub total_assets-returns :
      (w : World X) (asset : Address) (idle : ℕ)
      → IsTracked w.storage
      → w.storage.asset ≡ some asset
      → h.token.balance asset w.self w.chain ≡ pos idle
      → idle + elsewhere w.storage w.timestamp < i128_bound
      → total_assets h w ≡ ok (pos (idle + elsewhere w.storage w.timestamp))
  unfolding total_assets idle_balance Words.add
  total_assets-returns w asset idle t a held lt =
      let funds = recorded_in w.storage.tracked_balance (get_strategies w.storage) in
      let bridged = attested w.storage w.timestamp in
      ground (
        arith,
        a,
        held,
        sum_tracked-returns w.storage 0 (get_strategies w.storage) t.nonneg,
        attested_exact w.storage w.timestamp t.bridged_nonneg,
        pos-+ℤ idle funds,
        pos-+ℤ (idle + funds) bridged,
      )
