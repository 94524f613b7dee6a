-- ===== src/Vault/Conformance/Administration.antt =====
-- The tests of `initialize`, the roles, the settings and the upgrade timelock.
use tezoro_yield_aggregator.Base.{true, false, not, ◌==◌, ◌≡◌, refl, none, some, [], ◌∷◌}
use tezoro_yield_aggregator.Base.Int.{pos, negsuc, eqb_ℤ}
use tezoro_yield_aggregator.Base.Outcome.{unwrap}
use tezoro_yield_aggregator.Base.Map.{Address}
use tezoro_yield_aggregator.Common.{Hash}
use tezoro_yield_aggregator.Vault.Monad.{◌>>=◌, ◌>>◌, reads, lift}
use tezoro_yield_aggregator.Vault.Store.{nav_precision}
use tezoro_yield_aggregator.Vault.Views
use tezoro_yield_aggregator.Vault.Shares.{deposit}
use tezoro_yield_aggregator.Vault.Admin.{
  Config, initialize, pause, unpause, propose_admin, accept_admin, set_deposit_cap,
}
use tezoro_yield_aggregator.Vault.Upgrade.{schedule_upgrade, execute_upgrade, cancel_upgrade}
use tezoro_yield_aggregator.Vault.Evaluation.{evaluation}
use tezoro_yield_aggregator.Vault.Fixture.{plain}
use tezoro_yield_aggregator.Vault.Conformance.{
  Test, attempt, fails, assert, mint, setup, init_vault, all_pass,
}

abbrev test_initialize : Test (Unit {0})
test_initialize = do
  p ← init_vault
  assert ((← reads Views.admin) == p.admin)
  assert ((← reads Views.keeper) == p.keeper)
  assert ((← reads Views.asset) == p.asset)
  assert (eqb_ℤ (← reads Views.total_supply) (pos 0))
  assert (not (← reads Views.is_paused))
  assert ((← reads Views.performance_fee_bps) == 1500)
  assert (eqb_ℤ (← reads Views.high_water_mark) nav_precision)

abbrev test_double_initialize_fails : Test (Unit {0})
test_double_initialize_fails = do
  p ← init_vault
  let again : Config = record {
    asset = p.asset;
    keeper = p.keeper;
    guardian = p.guardian;
    fee_recipient = p.fee_recipient;
    performance_fee_bps = 1500;
    idle_buffer_bps = 300;
    name = "x";
    symbol = "x";
  }
  assert (← fails (initialize p.admin again))

abbrev test_pause_unpause : Test (Unit {0})
test_pause_unpause = do
  p ← init_vault
  pause p.guardian
  assert (← reads Views.is_paused)
  assert (← fails (deposit plain p.user (pos 100_0000000)))
  unpause p.admin
  assert (← attempt (deposit plain p.user (pos 100_0000000)))

abbrev test_two_step_admin : Test (Unit {0})
test_two_step_admin = do
  p ← init_vault
  let new_admin : Address = 20
  propose_admin p.admin new_admin
  assert ((← reads Views.admin) == p.admin)
  accept_admin new_admin
  assert ((← reads Views.admin) == new_admin)
  assert (← fails (unpause p.admin))

abbrev test_accept_admin_without_proposal : Test (Unit {0})
test_accept_admin_without_proposal = do p ← init_vault; assert (← fails (accept_admin 20))

abbrev test_deposit_cap : Test (Unit {0})
test_deposit_cap = do
  p ← init_vault
  set_deposit_cap p.admin (pos 500_0000000)
  assert (← attempt (deposit plain p.user (pos 400_0000000)))
  assert (← fails (deposit plain p.user (pos 200_0000000)))

abbrev test_negative_deposit_cap_rejected : Test (Unit {0})
test_negative_deposit_cap_rejected = do
  p ← init_vault
  assert (← fails (set_deposit_cap p.admin (negsuc 0)))

abbrev test_upgrade_timelock_flow : Test (Unit {0})
test_upgrade_timelock_flow = do
  p ← init_vault
  let hash : Hash = 1
  schedule_upgrade p.admin hash
  scheduled ← lift (unwrap (← reads Views.scheduled_upgrade))
  assert (scheduled.0 == hash)
  assert (← fails (execute_upgrade p.admin))

abbrev test_cancel_upgrade : Test (Unit {0})
test_cancel_upgrade = do
  p ← init_vault
  let hash : Hash = 1
  schedule_upgrade p.admin hash
  cancel_upgrade p.admin
  scheduled ← reads Views.scheduled_upgrade
  assert (elim scheduled [ none ↦ true | some _ ↦ false ])

administration_run :
    all_pass (
      test_initialize ∷ test_double_initialize_fails ∷ test_pause_unpause ∷ test_two_step_admin
      ∷ test_accept_admin_without_proposal ∷ test_deposit_cap ∷ test_negative_deposit_cap_rejected
      ∷ test_upgrade_timelock_flow ∷ test_cancel_upgrade ∷ [])
    ≡ true
unfolding evaluation mint setup init_vault
administration_run = refl
