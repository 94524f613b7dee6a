-- ===== src/Blend/Invariant.antt =====
-- What every call of the adapter keeps, and who may make it.
use tezoro_yield_aggregator.Base.{◌≤◌, ◌≡◌, ◌⊎◌, true, some, arith}
use tezoro_yield_aggregator.Base.Int.{pos, ◌≤ℤ◌, +ℤ_parts, -ℤ_parts}
use tezoro_yield_aggregator.Base.Map.{Address}
use tezoro_yield_aggregator.Base.Outcome.{ok}
use tezoro_yield_aggregator.Base.Words
use tezoro_yield_aggregator.Common.{max_bps}
use tezoro_yield_aggregator.Strategy.{Contract}
use tezoro_yield_aggregator.Blend.State.{
  Storage, Event, get_tracked_balance, get_max_utilization_bps, get_min_backstop_bps,
  get_upgrade_delay, min_upgrade_delay,
}
use tezoro_yield_aggregator.Blend.Pool.{Services}
use tezoro_yield_aggregator.Blend.Methods
use tezoro_yield_aggregator.Blend.Admin
use tezoro_yield_aggregator.Blend.Calls.{Call, run_call, Step, Runs}

-- The position is not negative, and the settings are within their limits.
pub record IsSound (s : Storage) : Type 0 where
  pub tracked_nonneg : pos 0 ≤ℤ get_tracked_balance s
  pub utilization_bounded : get_max_utilization_bps s ≤ max_bps
  pub backstop_bounded : get_min_backstop_bps s ≤ max_bps
  pub delay_bounded : min_upgrade_delay ≤ get_upgrade_delay s

module _ {X : Type 0} (s : Services X) where
  pub run_call-IsSound :
      (c : Call) (w : Contract Storage Event X) {w' : Contract Storage Event X}
      → IsSound w.storage
      → run_call s c w ≡ ok (tt, w')
      → IsSound w'.storage
  unfolding run_call Methods.initialize Methods.deposit Methods.withdraw Methods.pull
      Methods.emergency_withdraw Methods.pull_position Methods.forget_balance Methods.harvest
      Methods.claim_emissions Admin.pause Admin.unpause Admin.accept_admin Admin.execute_upgrade
      Admin.cancel_upgrade Admin.propose_admin Admin.set_vault Admin.set_max_utilization
      Admin.set_min_backstop_coverage Admin.set_approval_buffer Admin.set_upgrade_delay
      Admin.schedule_upgrade Words.add Words.sub
  run_call-IsSound (Call.deposit caller amount) w i e =
      ground (arith, +ℤ_parts (get_tracked_balance w.storage) amount)
  run_call-IsSound (Call.withdraw caller amount) w i e =
      let tracked = get_tracked_balance w.storage in
      ground (arith, -ℤ_parts tracked amount, -ℤ_parts tracked tracked)
  run_call-IsSound _ w i e = ground arith

  -- In every history of calls and outside changes from a sound storage the storage stays sound: the
  -- tracked balance is not negative, the two ratios are at most 10,000 basis points, and the delay
  -- is at least `MIN_UPGRADE_DELAY`.
  pub Runs-IsSound :
      {w w' : Contract Storage Event X} → IsSound w.storage → Runs s w w' → IsSound w'.storage
  Runs-IsSound i Runs.here = i
  Runs-IsSound i (Runs.next r (Step.calls c e)) = run_call-IsSound c _ (Runs-IsSound i r) e
  Runs-IsSound i (Runs.next r (Step.passes x now ledger authorized le)) = Runs-IsSound i r

abbrev IsAdmin : Storage → Address → Type 0
IsAdmin s caller = s.admin ≡ some caller

abbrev IsVault : Storage → Address → Type 0
IsVault s caller = s.vault ≡ some caller

abbrev IsVaultOrAdmin : Storage → Address → Type 0
IsVaultOrAdmin s caller = IsVault s caller ⊎ IsAdmin s caller

abbrev IsPending : Storage → Address → Type 0
IsPending s caller = s.pending_admin ≡ some caller

module _ {X : Type 0} where
  abbrev By : (Storage → Address → Type 0) → Address → Contract Storage Event X → Type 0
  By role caller w = (w.authorized caller ≡ true) × role w.storage caller

  -- Funds enter and leave at the word of the vault, in an emergency also of the admin.
  abbrev pub IsPermitted : Call → Contract Storage Event X → Type 0
  IsPermitted (Call.initialize admin vault asset blend_pool) w = w.authorized admin ≡ true
  IsPermitted (Call.deposit caller amount) w = By IsVault caller w
  IsPermitted (Call.withdraw caller amount) w = By IsVault caller w
  IsPermitted (Call.emergency_withdraw caller) w = By IsVaultOrAdmin caller w
  IsPermitted (Call.harvest caller) w = By IsVaultOrAdmin caller w
  IsPermitted (Call.pause caller) w = By IsAdmin caller w
  IsPermitted (Call.unpause caller) w = By IsAdmin caller w
  IsPermitted (Call.accept_admin caller) w = By IsPending caller w
  IsPermitted (Call.execute_upgrade caller) w = By IsAdmin caller w
  IsPermitted (Call.cancel_upgrade caller) w = By IsAdmin caller w
  IsPermitted (Call.propose_admin caller new_admin) w = By IsAdmin caller w
  IsPermitted (Call.set_vault caller new_vault) w = By IsAdmin caller w
  IsPermitted (Call.set_max_utilization caller bps) w = By IsAdmin caller w
  IsPermitted (Call.set_min_backstop_coverage caller bps) w = By IsAdmin caller w
  IsPermitted (Call.set_approval_buffer caller buffer) w = By IsAdmin caller w
  IsPermitted (Call.set_upgrade_delay caller delay) w = By IsAdmin caller w
  IsPermitted (Call.schedule_upgrade caller hash) w = By IsAdmin caller w

module _ {X : Type 0} (s : Services X) where
  -- Whatever the call, if it returns then its caller had authorised it and held the role that the
  -- method asks for.
  pub run_call-IsPermitted :
      (c : Call) (w : Contract Storage Event X) {w' : Contract Storage Event X}
      → run_call s c w ≡ ok (tt, w')
      → IsPermitted c w
  unfolding run_call Methods.initialize Methods.deposit Methods.withdraw Methods.emergency_withdraw
      Methods.harvest Admin.pause Admin.unpause Admin.accept_admin Admin.execute_upgrade
      Admin.cancel_upgrade Admin.propose_admin Admin.set_vault Admin.set_max_utilization
      Admin.set_min_backstop_coverage Admin.set_approval_buffer Admin.set_upgrade_delay
      Admin.schedule_upgrade
  run_call-IsPermitted _ w e = ground arith
