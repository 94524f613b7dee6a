-- ===== src/Vault/Tests/Fees.antt =====
-- A collection of fees on a concrete chain.
use tezoro_yield_aggregator.Base.{◌+◌, ◌-◌, ◌*◌, ◌/◌, ◌≤◌, ◌<◌, ◌≡◌, refl, [], ◌∷◌}
use tezoro_yield_aggregator.Base.Int.{ℤ, pos}
use tezoro_yield_aggregator.Base.Map.{Map}
use tezoro_yield_aggregator.Base.Outcome.{ok, err}
use tezoro_yield_aggregator.Common.{max_bps}
use tezoro_yield_aggregator.Vault.State.{World, no_fees_to_collect}
use tezoro_yield_aggregator.Vault.Store.{
  get_total_supply, get_high_water_mark, get_performance_fee_bps,
}
use tezoro_yield_aggregator.Vault.Assets.{total_assets}
use tezoro_yield_aggregator.Vault.Shares.{deposit}
use tezoro_yield_aggregator.Vault.Fees.{collect_fees}
use tezoro_yield_aggregator.Vault.Fees.Marks.{
  precision, at_mark, collect_fees_bound, collect_fees-collect_fees,
}
use tezoro_yield_aggregator.Vault.Pricing.Rounding.{offset}
use tezoro_yield_aggregator.Vault.Evaluation.{evaluation}
use tezoro_yield_aggregator.Vault.Fixture.{plain, start, after}

-- 3,000 shares, and 5,000 of the token in the vault.
abbrev grown : World (Map ℤ)
grown = record (after start (deposit plain 10 (pos 3_000) start)) { chain = (100, pos 5_000) ∷ [] }

abbrev collected : World (Map ℤ)
collected = after grown (collect_fees plain grown)

grown_total : total_assets plain grown ≡ ok (pos 5_000)
unfolding evaluation
grown_total = refl

grown_supply : get_total_supply grown.storage ≡ pos 3_000
unfolding evaluation
grown_supply = refl

grown_mark : get_high_water_mark grown.storage ≡ pos 10_000_000
unfolding evaluation
grown_mark = refl

collect_run : collect_fees plain grown ≡ ok (pos 299, collected)
unfolding evaluation
collect_run = refl

collect_fees_bound_example :
    (10_000_000 < 5_000 * precision / 3_000)
    × (299 * (5_000 + offset) * max_bps
        ≤ (5_000 - at_mark 10_000_000 3_000)
          * get_performance_fee_bps grown.storage
          * (3_000 + offset))
    × (get_total_supply collected.storage ≡ pos (3_000 + 299))
    × (get_high_water_mark collected.storage ≡ pos (5_000 * precision / (3_000 + 299)))
collect_fees_bound_example =
    collect_fees_bound plain grown 5_000 3_000 10_000_000 299 grown_total grown_supply grown_mark
      collect_run

collect_fees-collect_fees_example : collect_fees plain collected ≡ err no_fees_to_collect
collect_fees-collect_fees_example = collect_fees-collect_fees plain grown collect_run
