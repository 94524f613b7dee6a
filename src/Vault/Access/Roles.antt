-- ===== src/Vault/Access/Roles.antt =====
-- Every call that returns was authorised by the holder of the role that it asks for.
use tezoro_yield_aggregator.Base.{◌≡◌, ◌⊎◌, true, some, arith}
use tezoro_yield_aggregator.Base.Map.{Address}
use tezoro_yield_aggregator.Base.Outcome.{ok}
use tezoro_yield_aggregator.Common.{Chain}
use tezoro_yield_aggregator.Vault.State.{World}
use tezoro_yield_aggregator.Vault.Calls.{Call, invoke}
use tezoro_yield_aggregator.Vault.Shares
use tezoro_yield_aggregator.Vault.Redeem
use tezoro_yield_aggregator.Vault.Strategies
use tezoro_yield_aggregator.Vault.Admin
use tezoro_yield_aggregator.Vault.Upgrade

module _ {X : Type 0} where
  abbrev ByAdmin : Address → World X → Type 0
  ByAdmin caller w = (w.authorized caller ≡ true) × (w.storage.admin ≡ some caller)

  abbrev ByKeeper : Address → World X → Type 0
  ByKeeper caller w = (w.authorized caller ≡ true) × (w.storage.keeper ≡ some caller)

  abbrev ByAdminOrGuardian : Address → World X → Type 0
  ByAdminOrGuardian caller w =
      (w.authorized caller ≡ true)
      × ((w.storage.admin ≡ some caller) ⊎ (w.storage.guardian ≡ some caller))

  -- Holders of shares and depositors act for themselves; `collect_fees` is open to everyone.
  abbrev pub IsPermitted : Call → World X → Type 0
  IsPermitted (Call.initialize admin c) w = w.authorized admin ≡ true
  IsPermitted (Call.transfer from to amount) w = w.authorized from ≡ true
  IsPermitted (Call.deposit from assets) w = w.authorized from ≡ true
  IsPermitted (Call.redeem from shares) w = w.authorized from ≡ true
  IsPermitted (Call.add_strategy caller strategy) w = ByAdmin caller w
  IsPermitted (Call.remove_strategy caller strategy) w = ByAdmin caller w
  IsPermitted (Call.allocate keeper strategy amount) w = ByKeeper keeper w
  IsPermitted (Call.deallocate keeper strategy amount) w = ByKeeper keeper w
  IsPermitted (Call.emergency_withdraw_strategy caller strategy) w = ByAdminOrGuardian caller w
  IsPermitted (Call.attest_bridged_balance keeper amount) w = ByKeeper keeper w
  IsPermitted (Call.update_tracked_balance keeper strategy amount) w = ByKeeper keeper w
  IsPermitted Call.collect_fees w = Unit
  IsPermitted (Call.pause caller) w = ByAdminOrGuardian caller w
  IsPermitted (Call.unpause caller) w = ByAdmin caller w
  IsPermitted (Call.accept_admin caller) w =
      (w.authorized caller ≡ true) × (w.storage.pending_admin ≡ some caller)
  IsPermitted (Call.set_deposit_cap caller limit) w = ByAdmin caller w
  IsPermitted (Call.set_keeper caller new_keeper) w = ByAdmin caller w
  IsPermitted (Call.set_guardian caller new_guardian) w = ByAdmin caller w
  IsPermitted (Call.propose_admin caller new_admin) w = ByAdmin caller w
  IsPermitted (Call.set_bridged_max_age caller max_age) w = ByAdmin caller w
  IsPermitted (Call.set_upgrade_delay caller delay) w = ByAdmin caller w
  IsPermitted (Call.schedule_upgrade caller hash) w = ByAdmin caller w
  IsPermitted (Call.execute_upgrade caller) w = ByAdmin caller w
  IsPermitted (Call.cancel_upgrade caller) w = ByAdmin caller w

module _ {X : Type 0} (h : Chain X) where
  -- Whatever the call, if it returns then its caller had authorised it and held the role that the
  -- method asks for.
  pub invoke-IsPermitted :
      (c : Call) (w : World X) {w' : World X} → invoke h c w ≡ ok (tt, w') → IsPermitted c w
  unfolding invoke Admin.initialize Admin.pause Admin.unpause Admin.accept_admin
      Admin.set_deposit_cap Admin.set_keeper Admin.set_guardian Admin.propose_admin
      Admin.set_bridged_max_age Upgrade.set_upgrade_delay Upgrade.schedule_upgrade
      Upgrade.execute_upgrade Upgrade.cancel_upgrade Shares.transfer Shares.deposit Redeem.redeem
      Strategies.add_strategy Strategies.remove_strategy Strategies.allocate Strategies.deallocate
      Strategies.emergency_withdraw_strategy Strategies.attest_bridged_balance
      Strategies.update_tracked_balance
  invoke-IsPermitted Call.collect_fees w e = tt
  invoke-IsPermitted _ w e = ground arith
