-- ===== src/Blend/Calls.antt =====
-- The adapter as a contract: the methods of contracts/contracts/blend-strategy/src/lib.rs that
-- change its state, and the histories of calls that return.
use tezoro_yield_aggregator.Base.{ℕ, ◌≤◌, ◌≡◌, Bool}
use tezoro_yield_aggregator.Base.Int.{ℤ}
use tezoro_yield_aggregator.Base.Map.{Address}
use tezoro_yield_aggregator.Base.Outcome.{ok}
use tezoro_yield_aggregator.Common.{Hash}
use tezoro_yield_aggregator.Strategy.{Contract, M, ◌>>=◌, pure}
use tezoro_yield_aggregator.Blend.State.{Storage, Event}
use tezoro_yield_aggregator.Blend.Pool.{Services}
use tezoro_yield_aggregator.Blend.Methods
use tezoro_yield_aggregator.Blend.Admin

pub data Call : Type 0 where
  initialize : Address → Address → Address → Address → Call
  deposit withdraw : Address → ℤ → Call
  emergency_withdraw harvest : Address → Call
  pause unpause accept_admin execute_upgrade cancel_upgrade : Address → Call
  propose_admin set_vault : Address → Address → Call
  set_max_utilization set_min_backstop_coverage set_approval_buffer : Address → ℕ → Call
  set_upgrade_delay : Address → ℕ → Call
  schedule_upgrade : Address → Hash → Call

module _ {X : Type 0} where
  abbrev discard : {A : Type 0} → M Storage Event X A → M Storage Event X (Unit {0})
  discard m = m >>= λ _. pure tt

module _ {X : Type 0} (s : Services X) where
  unfoldable pub run_call : Call → M Storage Event X (Unit {0})
  run_call (initialize admin vault asset blend_pool) =
      Methods.initialize admin vault asset blend_pool
  run_call (deposit caller amount) = Methods.deposit s caller amount
  run_call (withdraw caller amount) = discard (Methods.withdraw s caller amount)
  run_call (emergency_withdraw caller) = discard (Methods.emergency_withdraw s caller)
  run_call (harvest caller) = discard (Methods.harvest s caller)
  run_call (pause caller) = Admin.pause caller
  run_call (unpause caller) = Admin.unpause caller
  run_call (accept_admin caller) = Admin.accept_admin caller
  run_call (execute_upgrade caller) = Admin.execute_upgrade caller
  run_call (cancel_upgrade caller) = Admin.cancel_upgrade caller
  run_call (propose_admin caller new_admin) = Admin.propose_admin caller new_admin
  run_call (set_vault caller new_vault) = Admin.set_vault caller new_vault
  run_call (set_max_utilization caller bps) = Admin.set_max_utilization caller bps
  run_call (set_min_backstop_coverage caller bps) = Admin.set_min_backstop_coverage caller bps
  run_call (set_approval_buffer caller buffer) = Admin.set_approval_buffer caller buffer
  run_call (set_upgrade_delay caller delay) = Admin.set_upgrade_delay caller delay
  run_call (schedule_upgrade caller hash) = Admin.schedule_upgrade caller hash

  pub data Step (w : Contract Storage Event X) : Contract Storage Event X → Type 0 where
    calls : (c : Call) {w' : Contract Storage Event X} → run_call c w ≡ ok (tt, w') → Step w w'
    passes :
        (x : X) (now ledger : ℕ) (authorized : Address → Bool)
        → w.timestamp ≤ now
        → Step w
            (record w { chain = x; timestamp = now; sequence = ledger; authorized = authorized })

  pub data Runs (w : Contract Storage Event X) : Contract Storage Event X → Type 0 where
    here : Runs w w
    next : {u v : Contract Storage Event X} → Runs w u → Step u v → Runs w v
