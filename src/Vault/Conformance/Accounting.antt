-- ===== src/Vault/Conformance/Accounting.antt =====
-- The tests of deposits, redemptions, transfers and fees.
use tezoro_yield_aggregator.Base.{ℕ, zero, suc, true, ◌≡◌, refl, [], ◌∷◌}
use tezoro_yield_aggregator.Base.Int.{ℤ, pos, eqb_ℤ, ltb_ℤ, ◌+ℤ◌, ◌-ℤ◌, ◌/ℤ◌}
use tezoro_yield_aggregator.Base.Map.{Address}
use tezoro_yield_aggregator.Vault.Monad.{◌>>=◌, ◌>>◌, pure, reads}
use tezoro_yield_aggregator.Vault.Store.{nav_precision}
use tezoro_yield_aggregator.Vault.Views
use tezoro_yield_aggregator.Vault.Shares.{deposit, transfer}
use tezoro_yield_aggregator.Vault.Redeem.{redeem}
use tezoro_yield_aggregator.Vault.Fees.{collect_fees}
use tezoro_yield_aggregator.Vault.Admin.{pause}
use tezoro_yield_aggregator.Vault.Evaluation.{evaluation}
use tezoro_yield_aggregator.Vault.Fixture.{plain}
use tezoro_yield_aggregator.Vault.Conformance.{
  Test, attempt, fails, assert, mint, token_balance, setup, init_vault, all_pass,
}

abbrev test_deposit_and_redeem : Test (Unit {0})
test_deposit_and_redeem = do
  p ← init_vault
  let deposit_amount = pos 1000_0000000
  shares ← deposit plain p.user deposit_amount
  assert (ltb_ℤ (pos 0) shares)
  assert (eqb_ℤ (← reads Views.total_supply) shares)
  assert (eqb_ℤ (← reads (Views.balance p.user)) shares)
  assert (eqb_ℤ (← token_balance p.contract_id) deposit_amount)
  withdrawn ← redeem plain p.user shares
  assert (eqb_ℤ withdrawn deposit_amount)
  assert (eqb_ℤ (← reads Views.total_supply) (pos 0))

abbrev test_multi_depositor_share_ratio : Test (Unit {0})
test_multi_depositor_share_ratio = do
  p ← init_vault
  let user2 : Address = 20
  mint user2 (pos 10_000_0000000)
  shares1 ← deposit plain p.user (pos 1000_0000000)
  shares2 ← deposit plain user2 (pos 2000_0000000)
  assert (ltb_ℤ shares1 shares2)
  assets1 ← redeem plain p.user shares1
  assets2 ← redeem plain user2 shares2
  assert (eqb_ℤ (assets1 +ℤ assets2) (pos 3000_0000000))

abbrev test_redeem_while_paused : Test (Unit {0})
test_redeem_while_paused = do
  p ← init_vault
  _ ← deposit plain p.user (pos 1000_0000000)
  shares ← reads (Views.balance p.user)
  pause p.guardian
  assert (← attempt (redeem plain p.user shares))

abbrev test_share_transfer : Test (Unit {0})
test_share_transfer = do
  p ← init_vault
  _ ← deposit plain p.user (pos 1000_0000000)
  shares ← reads (Views.balance p.user)
  let recipient : Address = 20
  transfer p.user recipient (shares /ℤ pos 2)
  assert (eqb_ℤ (← reads (Views.balance p.user)) (shares -ℤ shares /ℤ pos 2))
  assert (eqb_ℤ (← reads (Views.balance recipient)) (shares /ℤ pos 2))

abbrev test_collect_fees_on_yield : Test (Unit {0})
test_collect_fees_on_yield = do
  p ← init_vault
  _ ← deposit plain p.user (pos 1000_0000000)
  mint p.contract_id (pos 100_0000000)
  fee_shares ← collect_fees plain
  assert (ltb_ℤ (pos 0) fee_shares)
  assert (ltb_ℤ (pos 0) (← reads (Views.balance p.fee_recipient)))
  assert (ltb_ℤ nav_precision (← reads Views.high_water_mark))

abbrev test_no_fees_without_yield : Test (Unit {0})
test_no_fees_without_yield = do
  p ← init_vault
  _ ← deposit plain p.user (pos 1000_0000000)
  assert (← fails (collect_fees plain))

abbrev test_deposit_minimum_amount : Test (Unit {0})
test_deposit_minimum_amount = do
  p ← init_vault
  assert (← attempt (deposit plain p.user (pos 1)))
  assert (eqb_ℤ (← reads (Views.balance p.user)) (pos 1))

abbrev test_deposit_large_amount : Test (Unit {0})
test_deposit_large_amount = do
  p ← init_vault
  let big_amount = pos 1_000_000_000_0000000
  mint p.user big_amount
  shares ← deposit plain p.user big_amount
  assert (ltb_ℤ (pos 0) shares)
  returned ← redeem plain p.user shares
  assert (eqb_ℤ returned big_amount)

-- The loop of the next test, with the shares so far.
unfoldable deposit_each : Address → ℕ → ℤ → Test ℤ
deposit_each user zero total_shares = pure total_shares
deposit_each user (suc rounds) total_shares = do
  s ← deposit plain user (pos 100_0000000)
  deposit_each user rounds (total_shares +ℤ s)

abbrev test_many_small_deposits_and_redeems : Test (Unit {0})
unfolding deposit_each
test_many_small_deposits_and_redeems = do
  p ← init_vault
  total_shares ← deposit_each p.user 10 (pos 0)
  returned ← redeem plain p.user total_shares
  assert (eqb_ℤ returned (pos 1000_0000000))

accounting_run :
    all_pass (
      test_deposit_and_redeem ∷ test_multi_depositor_share_ratio ∷ test_redeem_while_paused
      ∷ test_share_transfer ∷ test_collect_fees_on_yield ∷ test_no_fees_without_yield
      ∷ test_deposit_minimum_amount ∷ test_deposit_large_amount
      ∷ test_many_small_deposits_and_redeems ∷ [])
    ≡ true
unfolding evaluation mint setup init_vault deposit_each
accounting_run = refl
