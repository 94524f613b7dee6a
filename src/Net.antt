-- ===== src/Net.antt =====
-- The vault together with deployed strategies over one token: several mock strategies of
-- contracts/contracts/mock-strategy, or several adapters of contracts/contracts/blend-strategy,
-- behind the interface that the vault calls.
pub mod Promises
pub mod Redemption
pub mod Funding
pub mod Pools
pub mod Lending
pub mod Adapters
mod Tests
use tezoro_yield_aggregator.Base.{ℕ, ◌==◌, Option, none, some, []}
use tezoro_yield_aggregator.Base.Map.{Address, Map, lookup, insert}
use tezoro_yield_aggregator.Base.Outcome.{Outcome, ok, err, trap, ◌>>=◌}
use tezoro_yield_aggregator.Common.{StrategyError, Token, StrategyInterface, Chain}
use tezoro_yield_aggregator.Strategy.{Contract, M}
use tezoro_yield_aggregator.Mock
use tezoro_yield_aggregator.Blend.State
use tezoro_yield_aggregator.Blend.Pool.{Services}
use tezoro_yield_aggregator.Blend.Quotes
use tezoro_yield_aggregator.Blend.Methods
use tezoro_yield_aggregator.Blend.Views

-- The state of the contracts outside, the storage of each deployed strategy, and the ledger.
pub record Net (S T : Type 0) : Type 0 where
  pub outside : T
  pub contracts : Map S
  pub timestamp : ℕ
  pub sequence : ℕ

module _ {S E T : Type 0} where
  -- A call of the strategy at `id` by the contract `invoker`, which is authorised for itself.
  abbrev pub context : Address → Address → S → Net S T → Contract S E T
  context invoker id st n = record {
    storage = st;
    events = [];
    wasm = 0;
    chain = n.outside;
    timestamp = n.timestamp;
    sequence = n.sequence;
    self = id;
    authorized = λ a. a == invoker;
  }

  -- At an address with no contract every call traps; a call that returns writes back the storage
  -- and the contracts outside.
  abbrev pub enter :
      {A : Type 0} → Address → Address → M S E T A → Net S T → Outcome StrategyError (A × Net S T)
  enter invoker id m n = elim (lookup id n.contracts) [
    | none ↦ trap
    | some st ↦ elim (m (context invoker id st n)) [
      | ok (a, c) ↦
          ok (a, record n { outside = c.chain; contracts = insert id c.storage n.contracts })
      | err e ↦ err e
      | trap ↦ trap
    ]
  ]

  abbrev pub view :
      {A : Type 0}
      → Address
      → (Contract S E T → Outcome StrategyError A)
      → Net S T
      → Outcome StrategyError A
  view id f n = elim (lookup id n.contracts) [ none ↦ trap | some st ↦ f (context id id st n) ]

module _ {S T : Type 0} (t : Token T) where
  abbrev pub net_token : Token (Net S T)
  net_token = record {
    balance = λ asset id n. t.balance asset id n.outside;
    transfer = λ asset from to amount n. elim (t.transfer asset from to amount n.outside) [
      | none ↦ none
      | some x ↦ some (record n { outside = x })
    ];
    approve = λ asset from spender amount until n.
        elim (t.approve asset from spender amount until n.outside) [
          | none ↦ none
          | some x ↦ some (record n { outside = x })
        ];
  }

module _ {T : Type 0} (t : Token T) where
  -- `StrategyClient::new(&e, &id)` of a mock, used by the contract at `invoker`.
  abbrev pub net_strategy : Address → Address → StrategyInterface (Net Mock.Storage T)
  net_strategy invoker id = record {
    deposit = λ caller amount n. enter invoker id (Mock.deposit caller amount) n >>= λ r. ok r.1;
    withdraw = λ caller amount n. enter invoker id (Mock.withdraw t caller amount) n;
    emergency_withdraw = λ caller n. enter invoker id (Mock.emergency_withdraw t caller) n;
    balance_of = view id Mock.balance_of;
    available_liquidity = view id Mock.available_liquidity;
    is_healthy = view id Mock.is_healthy;
    asset = view id Mock.asset;
  }

  -- What the vault at `vault` calls, if its strategies are mocks.
  abbrev pub net_chain : Address → Chain (Net Mock.Storage T)
  net_chain vault = record { token = net_token t; strategy = net_strategy vault }

module _ {T : Type 0} (s : Services T) where
  -- `StrategyClient::new(&e, &id)` of an adapter, used by the contract at `invoker`.
  abbrev pub adapter : Address → Address → StrategyInterface (Net State.Storage T)
  adapter invoker id = record {
    deposit =
        λ caller amount n. enter invoker id (Methods.deposit s caller amount) n >>= λ r. ok r.1;
    withdraw = λ caller amount n. enter invoker id (Methods.withdraw s caller amount) n;
    emergency_withdraw = λ caller n. enter invoker id (Methods.emergency_withdraw s caller) n;
    balance_of = view id Methods.balance_of;
    available_liquidity = view id (Quotes.available_liquidity s);
    is_healthy = view id (Quotes.is_healthy s);
    asset = view id Views.asset;
  }

  -- What the vault at `vault` calls, if its strategies are adapters.
  abbrev pub adapter_chain : Address → Chain (Net State.Storage T)
  adapter_chain vault = record { token = net_token s.token; strategy = adapter vault }
