-- ===== src/Blend/Conformance.antt =====
-- The unit tests of contracts/contracts/blend-strategy/src/lib.rs as runs of the model, over the
-- token contract of Vault/Fixture and, as in these tests, no pool. The integration tests run the
-- Blend protocol itself, which is not in the repository.
use tezoro_yield_aggregator.Base.{true, not, none, ◌==◌, ◌≡◌, refl, [], ◌∷◌}
use tezoro_yield_aggregator.Base.Int.{ℤ, pos, eqb_ℤ, ◌+ℤ◌}
use tezoro_yield_aggregator.Base.Map.{Address, Map, lookup, insert}
use tezoro_yield_aggregator.Strategy.{M, Contract, ◌>>=◌, ◌>>◌, pure, reads}
use tezoro_yield_aggregator.Strategy.Conformance.{fails, assert, mint, contract_at, all_pass}
use tezoro_yield_aggregator.Vault.Fixture.{coin}
use tezoro_yield_aggregator.Blend.State.{Storage, Event}
use tezoro_yield_aggregator.Blend.Pool.{Services}
use tezoro_yield_aggregator.Blend.Methods
use tezoro_yield_aggregator.Blend.Quotes
use tezoro_yield_aggregator.Blend.Admin
use tezoro_yield_aggregator.Blend.Views

abbrev Test : Type 0 → Type 0
Test = M Storage Event (Map ℤ)

-- The addresses of a test.
record Parties : Type 0 where
  admin : Address
  vault : Address
  asset : Address
  blend_pool : Address

-- A call of an address with no contract fails.
abbrev no_pool : Services (Map ℤ)
no_pool = record {
  token = coin;
  pool = record {
    get_reserve = λ pool asset m. none;
    get_positions = λ pool account m. none;
    submit = λ pool from spender to requests m. none;
    submit_with_allowance = λ pool from spender to requests m. none;
    claim = λ pool from ids to m. none;
  };
}

-- 100,000 of the asset for the vault.
unfoldable setup : Test Parties
unfolding mint
setup = do
  mint 100 (pos 100_000_0000000)
  pure (record { admin = 1; vault = 100; asset = 9; blend_pool = 300 })

unfoldable init_strategy : Test Parties
unfolding setup Methods.initialize
init_strategy = do p ← setup; Methods.initialize p.admin p.vault p.asset p.blend_pool; pure p

abbrev test_initialize : Test (Unit {0})
test_initialize = do
  p ← init_strategy
  assert ((← reads Views.asset) == p.asset)
  assert ((← reads Views.vault) == p.vault)
  assert ((← reads Views.blend_pool) == p.blend_pool)
  assert (eqb_ℤ (← reads Methods.balance_of) (pos 0))
  assert (not (← reads Views.is_paused))

abbrev test_double_initialize_fails : Test (Unit {0})
test_double_initialize_fails = do
  p ← setup
  Methods.initialize p.admin p.vault p.asset p.blend_pool
  assert (← fails (Methods.initialize p.admin p.vault p.asset p.blend_pool))

abbrev test_unauthorized_deposit : Test (Unit {0})
test_unauthorized_deposit = do
  _ ← init_strategy
  let random : Address = 20
  assert (← fails (Methods.deposit no_pool random (pos 1000_0000000)))

abbrev test_pause_blocks_deposit : Test (Unit {0})
test_pause_blocks_deposit = do
  p ← init_strategy
  Admin.pause p.admin
  assert (← reads Views.is_paused)
  assert (← fails (Methods.deposit no_pool p.vault (pos 1000_0000000)))
  Admin.unpause p.admin
  assert (not (← reads Views.is_paused))

abbrev test_health_thresholds : Test (Unit {0})
test_health_thresholds = do
  p ← init_strategy
  Admin.set_max_utilization p.admin 8000
  Admin.set_min_backstop_coverage p.admin 1000
  assert (not (← reads (Quotes.is_healthy no_pool)))

abbrev test_invalid_bps_rejected : Test (Unit {0})
test_invalid_bps_rejected = do
  p ← init_strategy
  assert (← fails (Admin.set_max_utilization p.admin 15000))
  assert (← fails (Admin.set_min_backstop_coverage p.admin 15000))

abbrev test_two_step_admin : Test (Unit {0})
test_two_step_admin = do
  p ← init_strategy
  let new_admin : Address = 20
  Admin.propose_admin p.admin new_admin
  Admin.accept_admin new_admin
  assert (← fails (Admin.pause p.admin))
  Admin.pause new_admin
  assert (← reads Views.is_paused)

abbrev test_set_vault : Test (Unit {0})
test_set_vault = do
  p ← init_strategy
  let new_vault : Address = 20
  Admin.set_vault p.admin new_vault
  assert ((← reads Views.vault) == new_vault)

abbrev test_set_approval_buffer : Test (Unit {0})
test_set_approval_buffer = do p ← init_strategy; Admin.set_approval_buffer p.admin 500

-- The contract is registered and nothing is written.
abbrev blank : Contract Storage Event (Map ℤ)
blank = contract_at 200 (record {
  initialized = none;
  admin = none;
  pending_admin = none;
  vault = none;
  asset = none;
  blend_pool = none;
  paused = none;
  tracked_balance = none;
  max_utilization_bps = none;
  min_backstop_bps = none;
  approval_buffer = none;
  upgrade_delay = none;
  scheduled_upgrade_hash = none;
  scheduled_upgrade_at = none;
})

blend_run :
    all_pass blank (
      test_initialize ∷ test_double_initialize_fails ∷ test_unauthorized_deposit
      ∷ test_pause_blocks_deposit ∷ test_health_thresholds ∷ test_invalid_bps_rejected
      ∷ test_two_step_admin ∷ test_set_vault ∷ test_set_approval_buffer ∷ [])
    ≡ true
unfolding mint setup init_strategy Methods.initialize Methods.deposit Methods.balance_of
    Quotes.is_healthy Quotes.health_of Admin.pause Admin.unpause Admin.propose_admin
    Admin.accept_admin Admin.set_vault Admin.set_max_utilization Admin.set_min_backstop_coverage
    Admin.set_approval_buffer ◌+ℤ◌ lookup insert
blend_run = refl
