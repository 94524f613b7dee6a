-- ===== src/Vault/Upgrade.antt =====
-- The upgrade timelock of contracts/contracts/tezoro-vault/src/lib.rs.
pub mod Timelock
use tezoro_yield_aggregator.Base.{ℕ, Bool, true, false, leb, Option, none, some}
use tezoro_yield_aggregator.Base.Map.{Address}
use tezoro_yield_aggregator.Base.Outcome.{ok}
use tezoro_yield_aggregator.Base.Words
use tezoro_yield_aggregator.Common.{Hash}
use tezoro_yield_aggregator.Vault.State.{
  World, Event, invalid_balance, upgrade_not_scheduled, upgrade_too_early,
}
use tezoro_yield_aggregator.Vault.Monad.{
  M, ◌>>=◌, ◌>>◌, pure, fail, require, reads, lift, modify, publish, require_auth,
}
use tezoro_yield_aggregator.Vault.Store
use tezoro_yield_aggregator.Vault.Guards.{require_admin}

abbrev pub min_upgrade_delay : ℕ
min_upgrade_delay = 3_600

abbrev pub is_some {ℓ} : {A : Type ℓ} → Option A → Bool
is_some none = false
is_some (some a) = true

module _ {X : Type 0} where
  unfoldable pub set_upgrade_delay : Address → ℕ → M X (Unit {0})
  set_upgrade_delay caller delay = do
    require_auth caller
    require_admin caller
    require (leb min_upgrade_delay delay) invalid_balance
    modify (Store.set_upgrade_delay delay)

  unfoldable pub schedule_upgrade : Address → Hash → M X (Unit {0})
  schedule_upgrade caller new_wasm_hash = do
    require_auth caller
    require_admin caller
    now ← reads (λ w. ok w.timestamp)
    delay ← reads (λ w. ok (Store.get_upgrade_delay w.storage))
    execute_after ← lift (Words.add_u64 now delay)
    modify (Store.set_scheduled_upgrade new_wasm_hash now)
    publish (Event.upgrade_scheduled new_wasm_hash execute_after)

  -- `get_scheduled_upgrade(&e).ok_or(VaultError::UpgradeNotScheduled)?`
  abbrev pub ok_or_not_scheduled : Option (Hash × ℕ) → M X (Hash × ℕ)
  ok_or_not_scheduled none = fail upgrade_not_scheduled
  ok_or_not_scheduled (some s) = pure s

  -- `update_current_contract_wasm` replaces the code that the contract runs.
  unfoldable pub execute_upgrade : Address → M X (Unit {0})
  execute_upgrade caller = do
    require_auth caller
    require_admin caller
    scheduled ← reads (λ w. ok (Store.get_scheduled_upgrade w.storage))
    (wasm_hash, scheduled_at) ← ok_or_not_scheduled scheduled
    delay ← reads (λ w. ok (Store.get_upgrade_delay w.storage))
    now ← reads (λ w. ok w.timestamp)
    ready ← lift (Words.add_u64 scheduled_at delay)
    require (leb ready now) upgrade_too_early
    modify Store.clear_scheduled_upgrade
    λ w. ok (tt, record w { wasm = wasm_hash })
    publish (Event.upgrade wasm_hash)

  unfoldable pub cancel_upgrade : Address → M X (Unit {0})
  cancel_upgrade caller = do
    require_auth caller
    require_admin caller
    scheduled ← reads (λ w. ok (Store.get_scheduled_upgrade w.storage))
    require (is_some scheduled) upgrade_not_scheduled
    modify Store.clear_scheduled_upgrade
    publish Event.upgrade_cancelled
