-- ===== src/Vault/Tests/HighWater.antt =====
-- The high-water mark over collections of fees, with many shares and with few.
use tezoro_yield_aggregator.Base.{ℕ, ◌≤◌, ◌≡◌, refl, some, [], ◌∷◌, arith}
use tezoro_yield_aggregator.Base.Int.{ℤ, pos, ◌≤ℤ◌}
use tezoro_yield_aggregator.Base.Map.{Map}
use tezoro_yield_aggregator.Base.Outcome.{ok}
use tezoro_yield_aggregator.Vault.State.{World}
use tezoro_yield_aggregator.Vault.Store.{
  get_total_supply, get_high_water_mark, get_performance_fee_bps,
}
use tezoro_yield_aggregator.Vault.Assets.{total_assets}
use tezoro_yield_aggregator.Vault.Shares.{deposit}
use tezoro_yield_aggregator.Vault.Admin.{max_performance_fee_bps}
use tezoro_yield_aggregator.Vault.Fees.{collect_fees}
use tezoro_yield_aggregator.Vault.Fees.HighWater.{collect_fees-rises}
use tezoro_yield_aggregator.Vault.Evaluation.{evaluation}
use tezoro_yield_aggregator.Vault.Fixture.{plain, running, world_of, after}

-- A vault with the largest fee, before any deposit.
abbrev costly : World (Map ℤ)
costly = world_of (record running { performance_fee_bps = some 3_000 }) ((10, pos 5_000_000) ∷ [])

-- What the vault holds is what the strategies or a donor have made it.
abbrev holding : ℕ → World (Map ℤ) → World (Map ℤ)
holding n w = record w { chain = (100, pos n) ∷ [] }

-- 2,000,000 shares, and 3,000,000 of the token in the vault.
abbrev grown : World (Map ℤ)
grown = holding 3_000_000 (after costly (deposit plain 10 (pos 2_000_000) costly))

abbrev collected : World (Map ℤ)
collected = after grown (collect_fees plain grown)

grown_total : total_assets plain grown ≡ ok (pos 3_000_000)
unfolding evaluation
grown_total = refl

grown_supply : get_total_supply grown.storage ≡ pos 2_000_000
unfolding evaluation
grown_supply = refl

grown_mark : get_high_water_mark grown.storage ≡ pos 10_000_000
unfolding evaluation
grown_mark = refl

grown_fee : get_performance_fee_bps grown.storage ≤ max_performance_fee_bps
unfolding evaluation
grown_fee = omega arith

collect_run : collect_fees plain grown ≡ ok (pos 225_000, collected)
unfolding evaluation
collect_run = refl

collect_fees-rises_example :
    get_high_water_mark grown.storage ≤ℤ get_high_water_mark collected.storage
collect_fees-rises_example =
    collect_fees-rises plain grown 3_000_000 2_000_000 10_000_000 225_000 grown_total grown_supply
      grown_mark (omega arith) grown_fee collect_run

-- With 1,000 shares, fewer than the virtual ones, the mark of the second collection is below that of
-- the first.
abbrev few : World (Map ℤ)
few = holding 1_000_000 (after costly (deposit plain 10 (pos 1_000) costly))

abbrev few_collected : World (Map ℤ)
few_collected = holding 1_100_000 (after few (collect_fees plain few))

abbrev few_collected_again : World (Map ℤ)
few_collected_again = after few_collected (collect_fees plain few_collected)

first_mark : get_high_water_mark few_collected.storage ≡ pos 66_225_604
unfolding evaluation
first_mark = refl

second_mark : get_high_water_mark few_collected_again.storage ≡ pos 65_694_782
unfolding evaluation
second_mark = refl
