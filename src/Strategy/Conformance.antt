-- ===== src/Strategy/Conformance.antt =====
-- What the unit tests of the strategy contracts share. A test is a method over the same state: a
-- call of the client that must return is the method itself, a call by `try_` is an attempt, and a
-- failed assertion panics. The test environment authorises every address.
use tezoro_yield_aggregator.Base.{Bool, true, false, if◌then◌else◌, List, [], ◌∷◌}
use tezoro_yield_aggregator.Base.Int.{ℤ, ◌+ℤ◌}
use tezoro_yield_aggregator.Base.Map
use tezoro_yield_aggregator.Base.Map.{Address, Map, insert}
use tezoro_yield_aggregator.Base.Outcome.{ok, err, trap}
use tezoro_yield_aggregator.Strategy.{Contract, M, reads}

module _ {S E : Type 0} where
  -- `client.try_…(…).is_err()`: a call that fails is undone.
  abbrev pub fails : {A : Type 0} → M S E (Map ℤ) A → M S E (Map ℤ) Bool
  fails m w = elim (m w) [
    | ok (_, w') ↦ ok (false, w')
    | err _ ↦ ok (true, w)
    | trap ↦ ok (true, w)
  ]

  -- `assert!`
  abbrev pub assert : Bool → M S E (Map ℤ) (Unit {0})
  assert test w = if test then ok (tt, w) else trap

  -- `StellarAssetClient::mint`
  unfoldable pub mint : Address → ℤ → M S E (Map ℤ) (Unit {0})
  mint to amount w =
      ok (tt, record w { chain = insert to (Map.balance to w.chain +ℤ amount) w.chain })

  -- `TokenClient::balance`
  abbrev pub token_balance : Address → M S E (Map ℤ) ℤ
  token_balance id = reads (λ w. ok (Map.balance id w.chain))

  -- The contract at `id` with the storage `s`, and no tokens anywhere.
  abbrev pub contract_at : Address → S → Contract S E (Map ℤ)
  contract_at id s = record {
    storage = s;
    events = [];
    wasm = 7;
    chain = [];
    timestamp = 0;
    sequence = 0;
    self = id;
    authorized = λ a. true;
  }

  -- Every test runs to its end from the state.
  abbrev pub all_pass : Contract S E (Map ℤ) → List (M S E (Map ℤ) (Unit {0})) → Bool
  all_pass w [] = true
  all_pass w (test ∷ tests) = elim (test w) [
    | ok _ ↦ all_pass w tests
    | err _ ↦ false
    | trap ↦ false
  ]
