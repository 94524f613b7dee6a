-- ===== src/Vault/Calls.antt =====
-- The vault as a contract: the methods of contracts/contracts/tezoro-vault/src/lib.rs that change
-- its state, and the histories of calls that return, with anything between them that the ledger
-- and other contracts may do. A call that fails is undone, so it is no step of a history.
use tezoro_yield_aggregator.Base.{ℕ, ◌≤◌, ◌≡◌, Bool, arith}
use tezoro_yield_aggregator.Base.Int.{ℤ}
use tezoro_yield_aggregator.Base.Map.{Address}
use tezoro_yield_aggregator.Base.Outcome.{Outcome, ok, err, trap}
use tezoro_yield_aggregator.Common.{Chain, Hash}
use tezoro_yield_aggregator.Vault.State.{World, VaultError}
use tezoro_yield_aggregator.Vault.Monad.{M, ◌>>=◌, pure}
use tezoro_yield_aggregator.Vault.Shares
use tezoro_yield_aggregator.Vault.Redeem
use tezoro_yield_aggregator.Vault.Strategies
use tezoro_yield_aggregator.Vault.Fees
use tezoro_yield_aggregator.Vault.Admin
use tezoro_yield_aggregator.Vault.Admin.{Config}
use tezoro_yield_aggregator.Vault.Upgrade

pub data Call : Type 0 where
  initialize : Address → Config → Call
  transfer : Address → Address → ℤ → Call
  deposit redeem : Address → ℤ → Call
  add_strategy remove_strategy : Address → Address → Call
  allocate deallocate : Address → Address → ℤ → Call
  emergency_withdraw_strategy : Address → Address → Call
  attest_bridged_balance : Address → ℤ → Call
  update_tracked_balance : Address → Address → ℤ → Call
  collect_fees : Call
  pause unpause accept_admin : Address → Call
  set_deposit_cap : Address → ℤ → Call
  set_keeper set_guardian propose_admin : Address → Address → Call
  set_bridged_max_age set_upgrade_delay : Address → ℕ → Call
  schedule_upgrade : Address → Hash → Call
  execute_upgrade cancel_upgrade : Address → Call

module _ {X : Type 0} where
  abbrev pub discard : {A : Type 0} → M X A → M X (Unit {0})
  discard m = m >>= λ _. pure tt

  pub discard-ok :
      {A : Type 0} (m : M X A) (w : World X) {w' : World X}
      → discard m w ≡ ok (tt, w')
      → (a : A) × (m w ≡ ok (a, w'))
  discard-ok {A} m w {w'} e = go (m w) e
    where
      go :
          (r : Outcome VaultError (A × World X))
          → ◌≡◌ {A = Outcome VaultError (Unit {0} × World X)}
              (elim r [ ok (a, v) ↦ ok (tt, v) | err x ↦ err x | trap ↦ trap ])
              (ok (tt, w'))
          → (a : A) × (r ≡ ok (a, w'))
      go (ok (a, v)) p = (a, ground arith)
      go (err x) p = cc
      go trap p = cc

module _ {X : Type 0} (h : Chain X) where
  unfoldable pub invoke : Call → M X (Unit {0})
  invoke (initialize admin c) = Admin.initialize admin c
  invoke (transfer from to amount) = Shares.transfer from to amount
  invoke (deposit from assets) = discard (Shares.deposit h from assets)
  invoke (redeem from shares) = discard (Redeem.redeem h from shares)
  invoke (add_strategy caller strategy) = Strategies.add_strategy caller strategy
  invoke (remove_strategy caller strategy) = Strategies.remove_strategy caller strategy
  invoke (allocate keeper strategy amount) = Strategies.allocate h keeper strategy amount
  invoke (deallocate keeper strategy amount) =
      discard (Strategies.deallocate h keeper strategy amount)
  invoke (emergency_withdraw_strategy caller strategy) =
      discard (Strategies.emergency_withdraw_strategy h caller strategy)
  invoke (attest_bridged_balance keeper balance) = Strategies.attest_bridged_balance keeper balance
  invoke (update_tracked_balance keeper strategy balance) =
      Strategies.update_tracked_balance keeper strategy balance
  invoke collect_fees = discard (Fees.collect_fees h)
  invoke (pause caller) = Admin.pause caller
  invoke (unpause caller) = Admin.unpause caller
  invoke (accept_admin caller) = Admin.accept_admin caller
  invoke (set_deposit_cap caller limit) = Admin.set_deposit_cap caller limit
  invoke (set_keeper caller new_keeper) = Admin.set_keeper caller new_keeper
  invoke (set_guardian caller new_guardian) = Admin.set_guardian caller new_guardian
  invoke (propose_admin caller new_admin) = Admin.propose_admin caller new_admin
  invoke (set_bridged_max_age caller max_age) = Admin.set_bridged_max_age caller max_age
  invoke (set_upgrade_delay caller delay) = Upgrade.set_upgrade_delay caller delay
  invoke (schedule_upgrade caller hash) = Upgrade.schedule_upgrade caller hash
  invoke (execute_upgrade caller) = Upgrade.execute_upgrade caller
  invoke (cancel_upgrade caller) = Upgrade.cancel_upgrade caller

  pub data Step (w : World X) : World X → Type 0 where
    calls : (c : Call) {w' : World X} → invoke c w ≡ ok (tt, w') → Step w w'
    passes :
        (x : X) (now : ℕ) (authorized : Address → Bool)
        → w.timestamp ≤ now
        → Step w (record w { chain = x; timestamp = now; authorized = authorized })

  pub data Reach (w : World X) : World X → Type 0 where
    here : Reach w w
    next : {u v : World X} → Reach w u → Step u v → Reach w v
