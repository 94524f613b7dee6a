-- ===== src/Vault/Invariant/Histories.antt =====
-- Every call keeps the storage sound, and so does every history.
use tezoro_yield_aggregator.Base.{◌≡◌, arith}
use tezoro_yield_aggregator.Base.Outcome.{ok}
use tezoro_yield_aggregator.Common.{Chain}
use tezoro_yield_aggregator.Vault.State.{World}
use tezoro_yield_aggregator.Vault.Soundness.{IsSound}
use tezoro_yield_aggregator.Vault.Calls.{Call, invoke, discard-ok, Step, Reach}
use tezoro_yield_aggregator.Vault.Shares
use tezoro_yield_aggregator.Vault.Redeem
use tezoro_yield_aggregator.Vault.Strategies
use tezoro_yield_aggregator.Vault.Fees
use tezoro_yield_aggregator.Vault.Admin
use tezoro_yield_aggregator.Vault.Upgrade
use tezoro_yield_aggregator.Vault.Invariant.Tokens.{
  transfer-IsSound, deposit-IsSound, redeem-IsSound, collect_fees-IsSound,
}
use tezoro_yield_aggregator.Vault.Invariant.Funds.{
  add_strategy-IsSound, remove_strategy-IsSound, allocate-IsSound, deallocate-IsSound,
  emergency_withdraw_strategy-IsSound, attest_bridged_balance-IsSound,
  update_tracked_balance-IsSound,
}

module _ {X : Type 0} (h : Chain X) where
  pub invoke-IsSound :
      (c : Call) (w : World X) {w' : World X}
      → IsSound w.storage
      → invoke h c w ≡ ok (tt, w')
      → IsSound w'.storage
  unfolding invoke Admin.initialize Admin.pause Admin.unpause Admin.accept_admin
      Admin.set_deposit_cap Admin.set_keeper Admin.set_guardian Admin.propose_admin
      Admin.set_bridged_max_age Upgrade.set_upgrade_delay Upgrade.schedule_upgrade
      Upgrade.execute_upgrade Upgrade.cancel_upgrade
  invoke-IsSound (Call.transfer from to amount) w s e = transfer-IsSound from to amount w s e
  invoke-IsSound (Call.deposit from assets) w s e =
      deposit-IsSound h from assets w s (discard-ok (Shares.deposit h from assets) w e).1
  invoke-IsSound (Call.redeem from shares) w s e =
      redeem-IsSound h from shares w s (discard-ok (Redeem.redeem h from shares) w e).1
  invoke-IsSound (Call.add_strategy caller strategy) w s e =
      add_strategy-IsSound caller strategy w s e
  invoke-IsSound (Call.remove_strategy caller strategy) w s e =
      remove_strategy-IsSound caller strategy w s e
  invoke-IsSound (Call.allocate keeper strategy amount) w s e =
      allocate-IsSound h keeper strategy amount w s e
  invoke-IsSound (Call.deallocate keeper strategy amount) w s e =
      deallocate-IsSound h keeper strategy amount w s
        (discard-ok (Strategies.deallocate h keeper strategy amount) w e).1
  invoke-IsSound (Call.emergency_withdraw_strategy caller strategy) w s e =
      emergency_withdraw_strategy-IsSound h caller strategy w s
        (discard-ok (Strategies.emergency_withdraw_strategy h caller strategy) w e).1
  invoke-IsSound (Call.attest_bridged_balance keeper amount) w s e =
      attest_bridged_balance-IsSound keeper amount w s e
  invoke-IsSound (Call.update_tracked_balance keeper strategy amount) w s e =
      update_tracked_balance-IsSound keeper strategy amount w s e
  invoke-IsSound Call.collect_fees w s e =
      collect_fees-IsSound h w s (discard-ok (Fees.collect_fees h) w e).1
  invoke-IsSound (Call.initialize admin c) w s e = record {
    backed = ground arith;
    tracked = ground arith;
    configured = ground arith;
    fresh = ground arith;
  }
  invoke-IsSound _ w s e = ground arith

  -- In every history of calls and outside changes from a sound storage the storage stays sound: the
  -- share balances are nonnegative and add up to the supply, the tracked balances and the attested
  -- balance are nonnegative, the list of strategies has no repetition and at most 20 entries, and
  -- the settings are within their limits.
  pub Reach-IsSound : {w w' : World X} → IsSound w.storage → Reach h w w' → IsSound w'.storage
  Reach-IsSound s Reach.here = s
  Reach-IsSound s (Reach.next r (Step.calls c e)) = invoke-IsSound c _ (Reach-IsSound s r) e
  Reach-IsSound s (Reach.next r (Step.passes x now authorized le)) = Reach-IsSound s r
