-- ===== src/Vault/Upgrade/Timelock.antt =====
-- The code of the vault changes only through the timelock, in every history.
use tezoro_yield_aggregator.Base.{◌≡◌, ◌≢◌, refl, ap, ℕ, ◌+◌, ◌≤◌, none, some, arith}
use tezoro_yield_aggregator.Base.Outcome.{ok, unwrap_or}
use tezoro_yield_aggregator.Base.Words
use tezoro_yield_aggregator.Common.{Chain}
use tezoro_yield_aggregator.Common.Timelock.{
  Lock, LockStep, Noticed, begin-Noticed, LockStep-Noticed,
}
use tezoro_yield_aggregator.Vault.State.{World}
use tezoro_yield_aggregator.Vault.Store.{get_upgrade_delay, get_scheduled_upgrade}
use tezoro_yield_aggregator.Vault.Soundness.{IsSound}
use tezoro_yield_aggregator.Vault.Calls.{Call, invoke, discard-ok, Step, Reach}
use tezoro_yield_aggregator.Vault.Shares
use tezoro_yield_aggregator.Vault.Redeem
use tezoro_yield_aggregator.Vault.Redeem.Effects.{redeem-storage, redeem-frame}
use tezoro_yield_aggregator.Vault.Strategies
use tezoro_yield_aggregator.Vault.Fees
use tezoro_yield_aggregator.Vault.Admin
use tezoro_yield_aggregator.Vault.Upgrade
use tezoro_yield_aggregator.Vault.Upgrade.{min_upgrade_delay}
use tezoro_yield_aggregator.Vault.Invariant.Histories.{Reach-IsSound}

module _ {X : Type 0} where
  -- What a call may do to the code and to the scheduled upgrade.
  abbrev pub Upgrades : Call → World X → World X → Type 0
  Upgrades (Call.schedule_upgrade caller hash) w w' =
      (w'.wasm ≡ w.wasm)
      × (w'.timestamp ≡ w.timestamp)
      × (get_scheduled_upgrade w'.storage ≡ some (hash, w.timestamp))
  Upgrades (Call.execute_upgrade caller) w w' =
      (w'.timestamp ≡ w.timestamp)
      × (get_scheduled_upgrade w'.storage ≡ none)
      × ((at : ℕ) × (get_scheduled_upgrade w.storage ≡ some (w'.wasm, at))
          × (at + get_upgrade_delay w.storage ≤ w.timestamp))
  Upgrades (Call.cancel_upgrade caller) w w' =
      (w'.wasm ≡ w.wasm) × (w'.timestamp ≡ w.timestamp) × (get_scheduled_upgrade w'.storage ≡ none)
  Upgrades _ w w' =
      (w'.wasm ≡ w.wasm)
      × (w'.timestamp ≡ w.timestamp)
      × (get_scheduled_upgrade w'.storage ≡ get_scheduled_upgrade w.storage)

module _ {X : Type 0} (h : Chain X) where
  -- Only `execute_upgrade` changes the code, to the hash that was scheduled, and not before the
  -- delay has passed; only the three timelock methods touch the scheduled upgrade.
  pub invoke-Upgrades :
      (c : Call) (w : World X) {w' : World X} → invoke h c w ≡ ok (tt, w') → Upgrades c w w'
  unfolding invoke Admin.initialize Admin.pause Admin.unpause Admin.accept_admin
      Admin.set_deposit_cap Admin.set_keeper Admin.set_guardian Admin.propose_admin
      Admin.set_bridged_max_age Upgrade.set_upgrade_delay Upgrade.schedule_upgrade
      Upgrade.execute_upgrade Upgrade.cancel_upgrade Shares.transfer Shares.deposit
      Strategies.add_strategy Strategies.remove_strategy Strategies.allocate Strategies.deallocate
      Redeem.untrack Strategies.emergency_withdraw_strategy Strategies.attest_bridged_balance
      Strategies.update_tracked_balance Fees.collect_fees Words.add_u64
  invoke-Upgrades (Call.redeem from shares) w e =
      let e' = (discard-ok (Redeem.redeem h from shares) w e).1 in
      let frame = redeem-frame h from shares w e' in
      (frame.0, frame.1, ap get_scheduled_upgrade (redeem-storage h from shares w e'))
  invoke-Upgrades (Call.execute_upgrade caller) w e = (
    ground arith,
    ground arith,
    (unwrap_or w.storage.scheduled_upgrade_at 0, ground arith, ground arith),
  )
  invoke-Upgrades _ w e = ground arith

module _ {X : Type 0} where
  abbrev lock : World X → Lock
  lock w = record {
    code = w.wasm;
    now = w.timestamp;
    scheduled = get_scheduled_upgrade w.storage;
    delay = get_upgrade_delay w.storage;
  }

  Upgrades-LockStep : (c : Call) (w w' : World X) → Upgrades c w w' → LockStep (lock w) (lock w')
  Upgrades-LockStep (Call.schedule_upgrade caller hash) w w' u = LockStep.schedules hash u.0 u.1 u.2
  Upgrades-LockStep (Call.cancel_upgrade caller) w w' u = LockStep.cancels u.0 u.1 u.2
  Upgrades-LockStep (Call.execute_upgrade caller) w w' u =
      LockStep.executes u.2.0 u.0 u.1 u.2.1 u.2.2
  Upgrades-LockStep _ w w' u = LockStep.waits u.0 (omega (arith, u.1)) u.2

module _ {X : Type 0} (h : Chain X) where
  Reach-Noticed :
      {w w' : World X}
      → IsSound w.storage
      → get_scheduled_upgrade w.storage ≡ none
      → Reach h w w'
      → Noticed min_upgrade_delay w.timestamp w.wasm (lock w')
  Reach-Noticed {w} s e Reach.here = begin-Noticed min_upgrade_delay (lock w) e
  Reach-Noticed {w} s e (Reach.next {u = u} r (Step.calls c ok_c)) =
      LockStep-Noticed min_upgrade_delay w.timestamp w.wasm (lock u) _
        (Upgrades-LockStep c u _ (invoke-Upgrades h c u ok_c))
        (Reach-IsSound h s r).configured.delay_bounded (Reach-Noticed s e r)
  Reach-Noticed {w} s e (Reach.next {u = u} r (Step.passes x now authorized le)) =
      LockStep-Noticed min_upgrade_delay w.timestamp w.wasm (lock u) _ (LockStep.waits refl le refl)
        (Reach-IsSound h s r).configured.delay_bounded (Reach-Noticed s e r)

  -- In every history from a sound storage with no upgrade scheduled, the code is still the same
  -- until `MIN_UPGRADE_DELAY` has passed.
  pub upgrade_notice :
      {w w' : World X}
      → IsSound w.storage
      → get_scheduled_upgrade w.storage ≡ none
      → Reach h w w'
      → w'.wasm ≢ w.wasm
      → w.timestamp + min_upgrade_delay ≤ w'.timestamp
  upgrade_notice s e r changed = ground (arith, (Reach-Noticed s e r).unchanged)
