-- ===== src/Vault/Tests/Refusals.antt =====
-- A deposit and a redemption that are refused.
use tezoro_yield_aggregator.Base.{◌≡◌, refl, true, some, [], ◌∷◌}
use tezoro_yield_aggregator.Base.Int.{ℤ, pos}
use tezoro_yield_aggregator.Base.Map.{Map}
use tezoro_yield_aggregator.Base.Outcome.{err}
use tezoro_yield_aggregator.Vault.State.{World, paused, insufficient_shares, idle_buffer_violation}
use tezoro_yield_aggregator.Vault.Shares.{deposit}
use tezoro_yield_aggregator.Vault.Redeem.{redeem}
use tezoro_yield_aggregator.Vault.Refusals.Deposits.{DepositRefused, deposit-Refused}
use tezoro_yield_aggregator.Vault.Refusals.Redemptions.{RedeemRefused, redeem-Refused}
use tezoro_yield_aggregator.Vault.Refusals.Allocations.{AllocateRefused, allocate-Refused}
use tezoro_yield_aggregator.Vault.Strategies.{allocate}
use tezoro_yield_aggregator.Vault.Evaluation.{evaluation}
use tezoro_yield_aggregator.Vault.Fixture.{plain, running, world_of}

-- A paused vault, in which the holder 10 has 3,000 shares.
abbrev halted : World (Map ℤ)
halted =
    world_of
      (record running {
        paused = some true;
        share_balance = (10, pos 3_000) ∷ [];
        total_supply = some (pos 3_000);
      })
      ((10, pos 5_000) ∷ (100, pos 3_000) ∷ [])

paused_run : deposit plain 10 (pos 500) halted ≡ err paused
unfolding evaluation
paused_run = refl

deposit-Refused_example : DepositRefused plain (pos 500) halted paused
deposit-Refused_example = deposit-Refused plain 10 (pos 500) halted paused_run

excess_run : redeem plain 10 (pos 4_000) halted ≡ err insufficient_shares
unfolding evaluation
excess_run = refl

redeem-Refused_example : RedeemRefused plain 10 (pos 4_000) halted insufficient_shares
redeem-Refused_example = redeem-Refused plain 10 (pos 4_000) halted excess_run

-- The keeper 2 would leave nothing idle.
abbrev listed : World (Map ℤ)
listed =
    world_of
      (record running {
        strategy_list = some (50 ∷ []);
        share_balance = (10, pos 3_000) ∷ [];
        total_supply = some (pos 3_000);
      })
      ((100, pos 3_000) ∷ [])

buffer_run : allocate plain 2 50 (pos 3_000) listed ≡ err idle_buffer_violation
unfolding evaluation
buffer_run = refl

allocate-Refused_example : AllocateRefused plain 2 50 (pos 3_000) listed idle_buffer_violation
allocate-Refused_example = allocate-Refused plain 2 50 (pos 3_000) listed buffer_run
