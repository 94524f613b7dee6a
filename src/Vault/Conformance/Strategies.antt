-- ===== src/Vault/Conformance/Strategies.antt =====
-- The tests of strategies, attestations and the idle buffer.
use tezoro_yield_aggregator.Base.{true, ◌==◌, ◌≡◌, refl, [], ◌∷◌}
use tezoro_yield_aggregator.Base.Int.{pos, negsuc, eqb_ℤ}
use tezoro_yield_aggregator.Base.Map.{Address}
use tezoro_yield_aggregator.Vault.Monad.{◌>>=◌, ◌>>◌, reads}
use tezoro_yield_aggregator.Vault.Views
use tezoro_yield_aggregator.Vault.Assets.{total_assets}
use tezoro_yield_aggregator.Vault.Shares.{deposit}
use tezoro_yield_aggregator.Vault.Strategies.{
  length, add_strategy, remove_strategy, allocate, attest_bridged_balance, update_tracked_balance,
}
use tezoro_yield_aggregator.Vault.Evaluation.{evaluation}
use tezoro_yield_aggregator.Vault.Fixture.{plain}
use tezoro_yield_aggregator.Vault.Conformance.{
  Test, fails, assert, mint, setup, init_vault, all_pass,
}

abbrev test_strategy_management : Test (Unit {0})
test_strategy_management = do
  p ← init_vault
  let strategy : Address = 50
  add_strategy p.admin strategy
  assert (length (← reads Views.get_strategies) == 1)
  update_tracked_balance p.keeper strategy (pos 500_0000000)
  assert (← fails (remove_strategy p.admin strategy))
  update_tracked_balance p.keeper strategy (pos 0)
  remove_strategy p.admin strategy
  assert (length (← reads Views.get_strategies) == 0)

abbrev test_bridged_balance : Test (Unit {0})
test_bridged_balance = do
  p ← init_vault
  _ ← deposit plain p.user (pos 1000_0000000)
  attest_bridged_balance p.keeper (pos 500_0000000)
  assert (eqb_ℤ (← reads (total_assets plain)) (pos 1500_0000000))

abbrev test_bridged_rejects_negative : Test (Unit {0})
test_bridged_rejects_negative = do
  p ← init_vault
  assert (← fails (attest_bridged_balance p.keeper (negsuc 99)))

abbrev test_negative_tracked_balance_rejected : Test (Unit {0})
test_negative_tracked_balance_rejected = do
  p ← init_vault
  let strategy : Address = 50
  add_strategy p.admin strategy
  assert (← fails (update_tracked_balance p.keeper strategy (negsuc 99)))

abbrev test_idle_buffer_enforcement : Test (Unit {0})
test_idle_buffer_enforcement = do
  p ← init_vault
  _ ← deposit plain p.user (pos 1000_0000000)
  let strategy : Address = 50
  add_strategy p.admin strategy
  assert (← fails (allocate plain p.keeper strategy (pos 980_0000000)))

strategies_run :
    all_pass (
      test_strategy_management ∷ test_bridged_balance ∷ test_bridged_rejects_negative
      ∷ test_negative_tracked_balance_rejected ∷ test_idle_buffer_enforcement ∷ [])
    ≡ true
unfolding evaluation mint setup init_vault
strategies_run = refl
