-- ===== src/Lib.antt =====
-- Tezoro yield aggregator: a model of the Soroban contracts under contracts/contracts, with the
-- properties that make them correct.
--
-- The program has four crates. `tezoro-vault` is an ERC-4626 style vault: users deposit an asset
-- for shares and redeem them, a keeper moves idle funds into strategies and back, an admin and a
-- guardian administer it. `tezoro-common` declares the interface of a strategy, and its errors.
-- `blend-strategy` implements the interface over a Blend lending pool, `mock-strategy` over tokens
-- that it holds itself. The vault calls the token contract of its asset and the strategies; a
-- strategy calls the token and, for Blend, the pool.
--
-- The files are these.
-- Base: numbers, integers, maps of storage entries, outcomes of a call, checked arithmetic.
-- Common: tezoro-common/src/lib.rs and strategy.rs; the token as a parameter. Common/Timelock is
--   the upgrade timelock that the vault and the adapter have in common; Common/Lifetimes is
--   how long storage entries live.
-- Vault/State, Monad, Store: tezoro-vault/src/errors.rs, events.rs and storage.rs, the state of a
--   call, and the methods as state passing functions with errors.
-- Vault/Guards, Assets, Shares, Redeem, Strategies, Fees, Admin, Upgrade: the methods of
--   tezoro-vault/src/lib.rs under their own names; Vault/Calls has them as one type of calls.
-- Vault/Soundness and Vault/Invariant: the invariant and its preservation; Vault/Pricing: the
--   price of a share and the total assets; Vault/Access: who may call what; Vault/Upgrade/Timelock:
--   the timelock; Vault/Redeem/Liquidity, Waterfall, Payment and Liveness: redemptions that need
--   the strategies; Vault/Fees/Marks and HighWater: fees and the high-water mark;
--   Vault/Strategies/Registry: the list of strategies; Vault/Refusals: the errors of deposits,
--   redemptions and allocations; Vault/Shares/Liveness: deposits that succeed; Vault/Ledger: the
--   ledger of shares that the vault implements. Files named Effects or Frame say what a method
--   writes and what it leaves alone.
-- Strategy, Mock, Blend: the state of a strategy's call, mock-strategy/src/lib.rs, and
--   blend-strategy/src/lib.rs, storage.rs and events.rs. Blend/Pool is the pool as a parameter,
--   Blend/Calls has the methods as one type of calls; Blend/Invariant, Timelock, Funds, Supply,
--   Emergency, Health and Mock/Promises are about them.
-- Net: the vault together with deployed mock strategies, or with deployed Blend adapters, over one
--   token. Net/Promises, Redemption and Funding are about mocks; Net/Pools states what the
--   documentation of a Blend pool says, Net/Lending and Net/Adapters are about adapters over it.
-- Vault/Views and Blend/Views: the methods that return one storage entry.
-- Vault/Conformance, Mock/Conformance and Blend/Conformance: the unit tests at the end of the three
--   contracts' lib.rs, as runs of the model that pass; Strategy/Conformance has what they share.
-- Vault/Fixture and the files named Tests are concrete chains and runs.
--
-- How the code is modelled. A storage key is a field of a record of optional entries, a key with an
-- address an association list. A method takes the state of the call and returns `ok` with a result
-- and the new state, the contract's error, or a trap. A trap is a panic, a failed `unwrap`, a
-- refused `require_auth`, a failing call of another contract, or an overflow: `i128`, `u64` and
-- `u32` are integers and naturals whose operations check their range, since the release profile of
-- contracts/Cargo.toml sets `overflow-checks`. The host undoes the writes of a call that does not
-- return, so errors and traps carry no state. Division truncates and traps on zero. Loops over the
-- list of strategies are recursions on that list; nothing needs fuel. An address and a `BytesN<32>`
-- are numbers, since they are only compared and stored.
--
-- The other contracts are a state `X` with the functions of `Common.Token`,
-- `Common.StrategyInterface` and `Blend.Pool.Pool` over it. Reading a balance does not fail: the
-- asset is a deployed token. A called contract does not change the caller's storage, since the host
-- refuses reentrance. The code that `update_current_contract_wasm` installs is a field of the state.
--
-- Lifetimes of storage entries are modelled on their own, in Common/Lifetimes, with the host's
-- `extend_ttl` as a parameter; the methods are modelled without them, since they change no value.
--
-- Not modelled: the extension of a lifetime at each read and write of a method, the serialisation
-- of events and arguments, the tests that run the Blend protocol or several contracts on a test
-- ledger (that protocol is not in the repository), and the TypeScript keeper.
pub mod Base
pub mod Common
pub mod Vault
pub mod Strategy
pub mod Mock
pub mod Blend
pub mod Net
