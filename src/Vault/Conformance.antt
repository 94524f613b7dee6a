-- ===== src/Vault/Conformance.antt =====
-- The unit tests of contracts/contracts/tezoro-vault/src/lib.rs as runs of the model. A test is a
-- method over the same state: a call of the client that must return is the method itself, a call
-- by `try_` is an attempt, and a failed assertion panics. The test environment authorises every
-- address, its token contract is the one of Vault/Fixture, and a generated address is a number
-- that is used for nothing else.
mod Accounting
mod Administration
mod Strategies
use tezoro_yield_aggregator.Base.{Bool, true, false, if◌then◌else◌, none, List, [], ◌∷◌}
use tezoro_yield_aggregator.Base.Int.{ℤ, pos, ◌+ℤ◌}
use tezoro_yield_aggregator.Base.Map.{Address, Map, insert}
use tezoro_yield_aggregator.Base.Map
use tezoro_yield_aggregator.Base.Outcome.{Outcome, ok, err, trap}
use tezoro_yield_aggregator.Vault.State.{World, VaultError}
use tezoro_yield_aggregator.Vault.Monad.{M, ◌>>=◌, ◌>>◌, pure, reads}
use tezoro_yield_aggregator.Vault.Admin.{initialize}
use tezoro_yield_aggregator.Vault.Fixture.{empty_storage, world_of}

-- A test over the token contract.
abbrev pub Test : Type 0 → Type 0
Test = M (Map ℤ)

-- `client.try_…(…).is_ok()`: a call that fails is undone.
abbrev pub attempt : {A : Type 0} → Test A → Test Bool
attempt m w = elim (m w) [
  | ok (_, w') ↦ ok (true, w')
  | err _ ↦ ok (false, w)
  | trap ↦ ok (false, w)
]

-- `client.try_…(…).is_err()`
abbrev pub fails : {A : Type 0} → Test A → Test Bool
fails m = attempt m >>= λ succeeded. pure (if succeeded then false else true)

-- `assert!`
abbrev pub assert : Bool → Test (Unit {0})
assert test w = if test then ok (tt, w) else trap

-- `StellarAssetClient::mint`
unfoldable pub mint : Address → ℤ → Test (Unit {0})
mint to amount w =
    ok (tt, record w { chain = insert to (Map.balance to w.chain +ℤ amount) w.chain })

-- `TokenClient::balance`
abbrev pub token_balance : Address → Test ℤ
token_balance id = reads (λ w. ok (Map.balance id w.chain))

-- The addresses of a test.
pub record Parties : Type 0 where
  pub contract_id : Address
  pub admin : Address
  pub keeper : Address
  pub guardian : Address
  pub fee_recipient : Address
  pub user : Address
  pub asset : Address

-- 10,000 of the asset for the user.
unfoldable pub setup : Test Parties
unfolding mint
setup = do
  mint 10 (pos 10_000_0000000)
  pure (record {
    contract_id = 100;
    admin = 1;
    keeper = 2;
    guardian = 3;
    fee_recipient = 4;
    user = 10;
    asset = 9;
  })

unfoldable pub init_vault : Test Parties
unfolding setup initialize
init_vault = do
  p ← setup
  initialize p.admin (record {
    asset = p.asset;
    keeper = p.keeper;
    guardian = p.guardian;
    fee_recipient = p.fee_recipient;
    performance_fee_bps = 1500;
    idle_buffer_bps = 300;
    name = "Tezoro USDC-A";
    symbol = "tUSDC-A";
  })
  pure p

-- Every test runs to its end, each from a contract that is registered and nothing more.
abbrev pub all_pass : List (Test (Unit {0})) → Bool
all_pass [] = true
all_pass (test ∷ tests) = elim (test (world_of empty_storage [])) [
  | ok _ ↦ all_pass tests
  | err _ ↦ false
  | trap ↦ false
]
