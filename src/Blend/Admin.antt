-- ===== src/Blend/Admin.antt =====
-- The administration and the upgrade timelock of contracts/contracts/blend-strategy/src/lib.rs.
use tezoro_yield_aggregator.Base.{ℕ, Bool, true, false, leb, ◌==◌, Option, none, some}
use tezoro_yield_aggregator.Base.Map.{Address}
use tezoro_yield_aggregator.Base.Outcome.{Outcome, ok, err}
use tezoro_yield_aggregator.Base.Words
use tezoro_yield_aggregator.Common.{
  StrategyError, Hash, unauthorized, invalid_bps, upgrade_not_scheduled, upgrade_too_early, max_bps,
}
use tezoro_yield_aggregator.Strategy.{
  M, ◌>>=◌, ◌>>◌, require, reads, lift, modify, publish, require_auth,
}
use tezoro_yield_aggregator.Blend.State
use tezoro_yield_aggregator.Blend.State.{Storage, Event}
use tezoro_yield_aggregator.Blend.Methods.{require_admin}

-- `Some(addr) if addr == caller`
abbrev pub is_pending : Address → Option Address → Bool
is_pending caller none = false
is_pending caller (some addr) = addr == caller

-- `ok_or(StrategyError::UpgradeNotScheduled)?`
abbrev pub ok_or_not_scheduled : Option (Hash × ℕ) → Outcome StrategyError (Hash × ℕ)
ok_or_not_scheduled none = err upgrade_not_scheduled
ok_or_not_scheduled (some s) = ok s

abbrev pub is_some {ℓ} : {A : Type ℓ} → Option A → Bool
is_some none = false
is_some (some a) = true

module _ {X : Type 0} where
  unfoldable pub pause : Address → M Storage Event X (Unit {0})
  pause caller = do
    require_auth caller
    require_admin caller
    modify (State.set_paused true)
    publish (Event.pause caller)

  unfoldable pub unpause : Address → M Storage Event X (Unit {0})
  unpause caller = do
    require_auth caller
    require_admin caller
    modify (State.set_paused false)
    publish (Event.unpause caller)

  unfoldable pub propose_admin : Address → Address → M Storage Event X (Unit {0})
  propose_admin caller new_admin = do
    require_auth caller
    require_admin caller
    modify (State.set_pending_admin new_admin)

  unfoldable pub accept_admin : Address → M Storage Event X (Unit {0})
  accept_admin caller = do
    require_auth caller
    pending ← reads (λ w. ok (State.get_pending_admin w.storage))
    require (is_pending caller pending) unauthorized
    old_admin ← reads (λ w. State.get_admin w.storage)
    modify (State.set_admin caller)
    modify State.clear_pending_admin
    publish (Event.admin_changed old_admin caller)

  unfoldable pub set_vault : Address → Address → M Storage Event X (Unit {0})
  set_vault caller new_vault = do
    require_auth caller
    require_admin caller
    old_vault ← reads (λ w. State.get_vault w.storage)
    modify (State.set_vault new_vault)
    publish (Event.vault_changed old_vault new_vault)

  unfoldable pub set_max_utilization : Address → ℕ → M Storage Event X (Unit {0})
  set_max_utilization caller bps = do
    require_auth caller
    require_admin caller
    require (leb bps max_bps) invalid_bps
    modify (State.set_max_utilization_bps bps)
    publish (Event.config_update "max_util" bps)

  unfoldable pub set_min_backstop_coverage : Address → ℕ → M Storage Event X (Unit {0})
  set_min_backstop_coverage caller bps = do
    require_auth caller
    require_admin caller
    require (leb bps max_bps) invalid_bps
    modify (State.set_min_backstop_bps bps)
    publish (Event.config_update "min_backstop" bps)

  unfoldable pub set_approval_buffer : Address → ℕ → M Storage Event X (Unit {0})
  set_approval_buffer caller buffer = do
    require_auth caller
    require_admin caller
    modify (State.set_approval_buffer buffer)
    publish (Event.config_update "approval_buf" buffer)

  unfoldable pub set_upgrade_delay : Address → ℕ → M Storage Event X (Unit {0})
  set_upgrade_delay caller delay = do
    require_auth caller
    require_admin caller
    require (leb State.min_upgrade_delay delay) invalid_bps
    modify (State.set_upgrade_delay delay)

  unfoldable pub schedule_upgrade : Address → Hash → M Storage Event X (Unit {0})
  schedule_upgrade caller new_wasm_hash = do
    require_auth caller
    require_admin caller
    now ← reads (λ w. ok w.timestamp)
    modify (State.set_scheduled_upgrade new_wasm_hash now)

  unfoldable pub execute_upgrade : Address → M Storage Event X (Unit {0})
  execute_upgrade caller = do
    require_auth caller
    require_admin caller
    (wasm_hash, scheduled_at) ←
        reads (λ w. ok_or_not_scheduled (State.get_scheduled_upgrade w.storage))
    delay ← reads (λ w. ok (State.get_upgrade_delay w.storage))
    ready ← lift (Words.add_u64 scheduled_at delay)
    now ← reads (λ w. ok w.timestamp)
    require (leb ready now) upgrade_too_early
    modify State.clear_scheduled_upgrade
    λ w. ok (tt, record w { wasm = wasm_hash })
    publish (Event.upgrade wasm_hash)

  unfoldable pub cancel_upgrade : Address → M Storage Event X (Unit {0})
  cancel_upgrade caller = do
    require_auth caller
    require_admin caller
    scheduled ← reads (λ w. ok (State.get_scheduled_upgrade w.storage))
    require (is_some scheduled) upgrade_not_scheduled
    modify State.clear_scheduled_upgrade
