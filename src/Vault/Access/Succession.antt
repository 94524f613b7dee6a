-- ===== src/Vault/Access/Succession.antt =====
-- How the admin of the vault changes.
use tezoro_yield_aggregator.Base.{◌≡◌, ap, true, false, none, some, arith}
use tezoro_yield_aggregator.Base.Outcome.{ok}
use tezoro_yield_aggregator.Common.{Chain}
use tezoro_yield_aggregator.Vault.State.{World}
use tezoro_yield_aggregator.Vault.Store.{is_initialized}
use tezoro_yield_aggregator.Vault.Calls.{Call, invoke, discard-ok}
use tezoro_yield_aggregator.Vault.Shares
use tezoro_yield_aggregator.Vault.Redeem
use tezoro_yield_aggregator.Vault.Redeem.Effects.{redeem-storage}
use tezoro_yield_aggregator.Vault.Strategies
use tezoro_yield_aggregator.Vault.Fees
use tezoro_yield_aggregator.Vault.Admin
use tezoro_yield_aggregator.Vault.Upgrade

module _ {X : Type 0} where
  -- What a call may do to the admin and to the pending admin.
  abbrev pub Succeeds : Call → World X → World X → Type 0
  Succeeds (Call.initialize admin c) w w' =
      (is_initialized w.storage ≡ false)
      × (w'.storage.admin ≡ some admin)
      × (w'.storage.pending_admin ≡ w.storage.pending_admin)
  Succeeds (Call.propose_admin caller new_admin) w w' =
      (w.storage.admin ≡ some caller)
      × (w'.storage.admin ≡ w.storage.admin)
      × (w'.storage.pending_admin ≡ some new_admin)
  Succeeds (Call.accept_admin caller) w w' =
      (w.storage.pending_admin ≡ some caller)
      × (w.authorized caller ≡ true)
      × (w'.storage.admin ≡ some caller)
      × (w'.storage.pending_admin ≡ none)
  Succeeds _ w w' =
      (w'.storage.admin ≡ w.storage.admin) × (w'.storage.pending_admin ≡ w.storage.pending_admin)

module _ {X : Type 0} (h : Chain X) where
  -- The admin changes in two steps only: the admin in office proposes a successor, and the
  -- successor accepts; `initialize` names the first admin, and no other call touches the two.
  pub invoke-Succeeds :
      (c : Call) (w : World X) {w' : World X} → invoke h c w ≡ ok (tt, w') → Succeeds c w w'
  unfolding invoke Admin.initialize Admin.pause Admin.unpause Admin.accept_admin
      Admin.set_deposit_cap Admin.set_keeper Admin.set_guardian Admin.propose_admin
      Admin.set_bridged_max_age Upgrade.set_upgrade_delay Upgrade.schedule_upgrade
      Upgrade.execute_upgrade Upgrade.cancel_upgrade Shares.transfer Shares.deposit
      Strategies.add_strategy Strategies.remove_strategy Strategies.allocate Strategies.deallocate
      Redeem.untrack Strategies.emergency_withdraw_strategy Strategies.attest_bridged_balance
      Strategies.update_tracked_balance Fees.collect_fees
  invoke-Succeeds (Call.redeem from shares) w e =
      let eq = redeem-storage h from shares w (discard-ok (Redeem.redeem h from shares) w e).1 in
      (ap (λ s. s.admin) eq, ap (λ s. s.pending_admin) eq)
  invoke-Succeeds _ w e = ground arith
