-- ===== src/Blend/Timelock.antt =====
-- The code of the adapter changes only through its timelock, in every history.
use tezoro_yield_aggregator.Base.{◌≡◌, ◌≢◌, refl, ℕ, ◌+◌, ◌≤◌, none, some, arith}
use tezoro_yield_aggregator.Base.Outcome.{ok, unwrap_or}
use tezoro_yield_aggregator.Base.Words
use tezoro_yield_aggregator.Common.Timelock.{
  Lock, LockStep, Noticed, begin-Noticed, LockStep-Noticed,
}
use tezoro_yield_aggregator.Strategy.{Contract}
use tezoro_yield_aggregator.Blend.State.{
  Storage, Event, get_upgrade_delay, get_scheduled_upgrade, min_upgrade_delay,
}
use tezoro_yield_aggregator.Blend.Pool.{Services}
use tezoro_yield_aggregator.Blend.Methods
use tezoro_yield_aggregator.Blend.Admin
use tezoro_yield_aggregator.Blend.Calls.{Call, run_call, Step, Runs}
use tezoro_yield_aggregator.Blend.Invariant.{IsSound, Runs-IsSound}

module _ {X : Type 0} where
  -- What a call may do to the code and to the scheduled upgrade.
  abbrev Upgrades : Call → Contract Storage Event X → Contract Storage Event X → Type 0
  Upgrades (Call.schedule_upgrade caller hash) w w' =
      (w'.wasm ≡ w.wasm)
      × (w'.timestamp ≡ w.timestamp)
      × (get_scheduled_upgrade w'.storage ≡ some (hash, w.timestamp))
  Upgrades (Call.execute_upgrade caller) w w' =
      (w'.timestamp ≡ w.timestamp)
      × (get_scheduled_upgrade w'.storage ≡ none)
      × ((at : ℕ) × (get_scheduled_upgrade w.storage ≡ some (w'.wasm, at))
          × (at + get_upgrade_delay w.storage ≤ w.timestamp))
  Upgrades (Call.cancel_upgrade caller) w w' =
      (w'.wasm ≡ w.wasm) × (w'.timestamp ≡ w.timestamp) × (get_scheduled_upgrade w'.storage ≡ none)
  Upgrades _ w w' =
      (w'.wasm ≡ w.wasm)
      × (w'.timestamp ≡ w.timestamp)
      × (get_scheduled_upgrade w'.storage ≡ get_scheduled_upgrade w.storage)

module _ {X : Type 0} (s : Services X) where
  run_call-Upgrades :
      (c : Call) (w : Contract Storage Event X) {w' : Contract Storage Event X}
      → run_call s c w ≡ ok (tt, w')
      → Upgrades c w w'
  unfolding run_call Methods.initialize Methods.deposit Methods.withdraw Methods.pull
      Methods.emergency_withdraw Methods.pull_position Methods.forget_balance Methods.harvest
      Methods.claim_emissions Admin.pause Admin.unpause Admin.accept_admin Admin.execute_upgrade
      Admin.cancel_upgrade Admin.propose_admin Admin.set_vault Admin.set_max_utilization
      Admin.set_min_backstop_coverage Admin.set_approval_buffer Admin.set_upgrade_delay
      Admin.schedule_upgrade Words.add_u64
  run_call-Upgrades (Call.execute_upgrade caller) w e = (
    ground arith,
    ground arith,
    (unwrap_or w.storage.scheduled_upgrade_at 0, ground arith, ground arith),
  )
  run_call-Upgrades _ w e = ground arith

module _ {X : Type 0} where
  abbrev lock : Contract Storage Event X → Lock
  lock w = record {
    code = w.wasm;
    now = w.timestamp;
    scheduled = get_scheduled_upgrade w.storage;
    delay = get_upgrade_delay w.storage;
  }

  Upgrades-LockStep :
      (c : Call) (w w' : Contract Storage Event X) → Upgrades c w w' → LockStep (lock w) (lock w')
  Upgrades-LockStep (Call.schedule_upgrade caller hash) w w' u = LockStep.schedules hash u.0 u.1 u.2
  Upgrades-LockStep (Call.cancel_upgrade caller) w w' u = LockStep.cancels u.0 u.1 u.2
  Upgrades-LockStep (Call.execute_upgrade caller) w w' u =
      LockStep.executes u.2.0 u.0 u.1 u.2.1 u.2.2
  Upgrades-LockStep _ w w' u = LockStep.waits u.0 (omega (arith, u.1)) u.2

module _ {X : Type 0} (s : Services X) where
  Runs-Noticed :
      {w w' : Contract Storage Event X}
      → IsSound w.storage
      → get_scheduled_upgrade w.storage ≡ none
      → Runs s w w'
      → Noticed min_upgrade_delay w.timestamp w.wasm (lock w')
  Runs-Noticed {w} i e Runs.here = begin-Noticed min_upgrade_delay (lock w) e
  Runs-Noticed {w} i e (Runs.next {u = u} r (Step.calls c ok_c)) =
      LockStep-Noticed min_upgrade_delay w.timestamp w.wasm (lock u) _
        (Upgrades-LockStep c u _ (run_call-Upgrades s c u ok_c)) (Runs-IsSound s i r).delay_bounded
        (Runs-Noticed i e r)
  Runs-Noticed {w} i e (Runs.next {u = u} r (Step.passes x now ledger authorized le)) =
      LockStep-Noticed min_upgrade_delay w.timestamp w.wasm (lock u) _ (LockStep.waits refl le refl)
        (Runs-IsSound s i r).delay_bounded (Runs-Noticed i e r)

  -- In every history of the adapter from a sound storage with no upgrade scheduled, its code is
  -- still the same until `MIN_UPGRADE_DELAY` has passed.
  pub adapter_notice :
      {w w' : Contract Storage Event X}
      → IsSound w.storage
      → get_scheduled_upgrade w.storage ≡ none
      → Runs s w w'
      → w'.wasm ≢ w.wasm
      → w.timestamp + min_upgrade_delay ≤ w'.timestamp
  adapter_notice i e r changed = ground (arith, (Runs-Noticed i e r).unchanged)
