-- ===== src/Mock/Conformance.antt =====
-- The unit tests of contracts/contracts/mock-strategy/src/lib.rs as runs of the model, over the
-- token contract of Vault/Fixture. A generated address is a number that is used for nothing else.
use tezoro_yield_aggregator.Base.{true, false, not, none, ◌==◌, ◌≡◌, refl, [], ◌∷◌}
use tezoro_yield_aggregator.Base.Int.{ℤ, pos, eqb_ℤ, ◌+ℤ◌, ◌-ℤ◌}
use tezoro_yield_aggregator.Base.Map.{Address, Map, lookup, insert}
use tezoro_yield_aggregator.Base.Words
use tezoro_yield_aggregator.Strategy.{M, Contract, ◌>>=◌, ◌>>◌, pure, reads, runs}
use tezoro_yield_aggregator.Strategy.Conformance.{
  fails, assert, mint, token_balance, contract_at, all_pass,
}
use tezoro_yield_aggregator.Vault.Fixture.{coin, move}
use tezoro_yield_aggregator.Mock
use tezoro_yield_aggregator.Mock.{Storage, Event}

abbrev Test : Type 0 → Type 0
Test = M Storage Event (Map ℤ)

-- The addresses of a test.
record Parties : Type 0 where
  contract_id : Address
  admin : Address
  vault : Address
  asset : Address

abbrev parties : Parties
parties = record { contract_id = 50; admin = 1; vault = 100; asset = 9 }

unfoldable init_default : Test Parties
init_default = do Mock.initialize parties.admin parties.vault parties.asset; pure parties

abbrev test_deposit_withdraw_cycle : Test (Unit {0})
test_deposit_withdraw_cycle = do
  let p = parties
  mint p.vault (pos 10_000_0000000)
  Mock.initialize p.admin p.vault p.asset
  runs (coin.transfer p.asset p.vault p.contract_id (pos 1000_0000000))
  Mock.deposit p.vault (pos 1000_0000000)
  assert (eqb_ℤ (← reads Mock.balance_of) (pos 1000_0000000))
  assert (eqb_ℤ (← token_balance p.contract_id) (pos 1000_0000000))
  mint p.contract_id (pos 50_0000000)
  Mock.simulate_yield p.admin (pos 50_0000000)
  assert (eqb_ℤ (← reads Mock.balance_of) (pos 1050_0000000))
  assert (eqb_ℤ (← token_balance p.contract_id) (pos 1050_0000000))
  withdrawn ← Mock.withdraw coin p.vault (pos 1050_0000000)
  assert (eqb_ℤ withdrawn (pos 1050_0000000))
  assert (eqb_ℤ (← reads Mock.balance_of) (pos 0))

abbrev test_health_toggle : Test (Unit {0})
test_health_toggle = do
  let p = parties
  Mock.initialize p.admin p.vault p.asset
  assert (← reads Mock.is_healthy)
  Mock.set_healthy p.admin false
  assert (not (← reads Mock.is_healthy))

abbrev test_emergency_withdraw : Test (Unit {0})
test_emergency_withdraw = do
  let p = parties
  mint p.vault (pos 10_000_0000000)
  Mock.initialize p.admin p.vault p.asset
  runs (coin.transfer p.asset p.vault p.contract_id (pos 500_0000000))
  Mock.deposit p.vault (pos 500_0000000)
  withdrawn ← Mock.emergency_withdraw coin p.vault
  assert (eqb_ℤ withdrawn (pos 500_0000000))
  assert (eqb_ℤ (← reads Mock.balance_of) (pos 0))

abbrev test_double_initialize_rejected : Test (Unit {0})
test_double_initialize_rejected = do
  p ← init_default
  assert (← fails (Mock.initialize p.admin p.vault p.asset))

abbrev test_deposit_zero_amount_rejected : Test (Unit {0})
test_deposit_zero_amount_rejected = do
  p ← init_default
  assert (← fails (Mock.deposit p.vault (pos 0)))

abbrev test_withdraw_zero_amount_rejected : Test (Unit {0})
test_withdraw_zero_amount_rejected = do
  p ← init_default
  assert (← fails (Mock.withdraw coin p.vault (pos 0)))

abbrev test_withdraw_with_zero_balance_rejected : Test (Unit {0})
test_withdraw_with_zero_balance_rejected = do
  p ← init_default
  assert (← fails (Mock.withdraw coin p.vault (pos 100)))

abbrev test_emergency_withdraw_empty_returns_zero : Test (Unit {0})
test_emergency_withdraw_empty_returns_zero = do
  p ← init_default
  withdrawn ← Mock.emergency_withdraw coin p.vault
  assert (eqb_ℤ withdrawn (pos 0))

abbrev test_deposit_unauthorized_rejected : Test (Unit {0})
test_deposit_unauthorized_rejected = do
  _ ← init_default
  let stranger : Address = 20
  assert (← fails (Mock.deposit stranger (pos 100)))

abbrev test_simulate_yield_requires_admin : Test (Unit {0})
test_simulate_yield_requires_admin = do
  _ ← init_default
  let stranger : Address = 20
  assert (← fails (Mock.simulate_yield stranger (pos 100)))

abbrev test_view_getters : Test (Unit {0})
test_view_getters = do
  p ← init_default
  assert ((← reads Mock.asset) == p.asset)
  assert ((← reads Mock.vault) == p.vault)
  assert (eqb_ℤ (← reads Mock.available_liquidity) (pos 0))

-- The contract is registered and nothing is written.
abbrev blank : Contract Storage Event (Map ℤ)
blank = contract_at 50 (record {
  initialized = none;
  admin = none;
  vault = none;
  asset = none;
  balance = none;
  healthy = none;
})

mock_run :
    all_pass blank (
      test_deposit_withdraw_cycle ∷ test_health_toggle ∷ test_emergency_withdraw
      ∷ test_double_initialize_rejected ∷ test_deposit_zero_amount_rejected
      ∷ test_withdraw_zero_amount_rejected ∷ test_withdraw_with_zero_balance_rejected
      ∷ test_emergency_withdraw_empty_returns_zero ∷ test_deposit_unauthorized_rejected
      ∷ test_simulate_yield_requires_admin ∷ test_view_getters ∷ [])
    ≡ true
unfolding mint init_default Mock.initialize Mock.deposit Mock.withdraw Mock.emergency_withdraw
    Mock.pull_all Mock.simulate_yield Mock.set_healthy Mock.is_healthy Mock.balance_of
    Mock.available_liquidity Mock.asset Mock.vault Words.add Words.sub ◌+ℤ◌ ◌-ℤ◌ lookup insert move
mock_run = refl
