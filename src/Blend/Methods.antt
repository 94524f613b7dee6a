-- ===== src/Blend/Methods.antt =====
-- The methods of contracts/contracts/blend-strategy/src/lib.rs that the vault calls, and `harvest`.
use tezoro_yield_aggregator.Base.{
  ℕ, false, not, ◌||◌, ◌==◌, if◌then◌else◌, Option, none, some, List, [], ◌∷◌,
}
use tezoro_yield_aggregator.Base.Int.{ℤ, pos, ltb_ℤ, eqb_ℤ}
use tezoro_yield_aggregator.Base.Map.{Address, balance}
use tezoro_yield_aggregator.Base.Outcome.{Outcome, ok}
use tezoro_yield_aggregator.Base.Words
use tezoro_yield_aggregator.Common.{
  StrategyError, already_initialized, unauthorized, insufficient_balance, zero_amount, paused,
}
use tezoro_yield_aggregator.Strategy.{
  Contract, M, ◌>>=◌, ◌>>◌, pure, require, reads, lift, modify, publish, require_auth, runs, calls,
}
use tezoro_yield_aggregator.Blend.State
use tezoro_yield_aggregator.Blend.State.{Storage, Event}
use tezoro_yield_aggregator.Blend.Pool.{Services, Request, Reserve}
use tezoro_yield_aggregator.Blend.Quotes.{query_pool_position}

abbrev pub request_supply_collateral : ℕ
request_supply_collateral = 2

abbrev pub request_withdraw_collateral : ℕ
request_withdraw_collateral = 3

module _ {X : Type 0} where
  abbrev pub require_vault : Address → M Storage Event X (Unit {0})
  require_vault caller = do
    vault ← reads (λ w. State.get_vault w.storage)
    require (caller == vault) unauthorized

  abbrev pub require_admin : Address → M Storage Event X (Unit {0})
  require_admin caller = do
    admin ← reads (λ w. State.get_admin w.storage)
    require (caller == admin) unauthorized

  -- `caller != vault && caller != admin`, in `emergency_withdraw` and `harvest`
  abbrev pub require_vault_or_admin : Address → M Storage Event X (Unit {0})
  require_vault_or_admin caller = do
    vault ← reads (λ w. State.get_vault w.storage)
    admin ← reads (λ w. State.get_admin w.storage)
    require (caller == vault || caller == admin) unauthorized

  abbrev pub require_not_paused : M Storage Event X (Unit {0})
  require_not_paused w = require (not (State.is_paused w.storage)) paused w

  unfoldable pub initialize : Address → Address → Address → Address → M Storage Event X (Unit {0})
  initialize admin vault asset blend_pool = do
    require_auth admin
    initialized ← reads (λ w. ok (State.is_initialized w.storage))
    require (not initialized) already_initialized
    modify State.set_initialized
    modify (State.set_admin admin)
    modify (State.set_vault vault)
    modify (State.set_asset asset)
    modify (State.set_blend_pool blend_pool)
    modify (State.set_paused false)
    modify (State.set_max_utilization_bps State.default_max_utilization_bps)
    modify (State.set_min_backstop_bps State.default_min_backstop_bps)
    modify (State.set_approval_buffer State.default_approval_buffer)
    modify (State.set_upgrade_delay State.default_upgrade_delay)
    modify (State.set_tracked_balance (pos 0))

  unfoldable pub balance_of : Contract Storage Event X → Outcome StrategyError ℤ
  balance_of w = ok (State.get_tracked_balance w.storage)

module _ {X : Type 0} (s : Services X) where
  -- `vec![&e, pool::Request { request_type, address, amount }]`
  abbrev pub one_request : ℕ → Address → ℤ → List Request
  one_request request_type asset amount =
      record { request_type = request_type; address = asset; amount = amount } ∷ []

  unfoldable pub deposit : Address → ℤ → M Storage Event X (Unit {0})
  deposit caller amount = do
    require_auth caller
    require_vault caller
    require_not_paused
    require (ltb_ℤ (pos 0) amount) zero_amount
    asset ← reads (λ w. State.get_asset w.storage)
    pool ← reads (λ w. State.get_blend_pool w.storage)
    self ← reads (λ w. ok w.self)
    approval_ledger ← reads (λ w. Words.add_u32 w.sequence (State.get_approval_buffer w.storage))
    runs (s.token.approve asset self pool amount approval_ledger)
    runs (
        s.pool.submit_with_allowance pool self self self
          (one_request request_supply_collateral asset amount))
    balance ← reads (λ w. ok (State.get_tracked_balance w.storage))
    raised ← lift (Words.add balance amount)
    modify (State.set_tracked_balance raised)
    publish (Event.deposit amount)

  -- `submit` of a single withdrawal request, and the transfer of the amount.
  unfoldable pub pull : Address → ℤ → M Storage Event X (Unit {0})
  pull to amount = do
    asset ← reads (λ w. State.get_asset w.storage)
    pool ← reads (λ w. State.get_blend_pool w.storage)
    self ← reads (λ w. ok w.self)
    runs (s.pool.submit pool self self self (one_request request_withdraw_collateral asset amount))
    runs (s.token.transfer asset self to amount)

  unfoldable pub withdraw : Address → ℤ → M Storage Event X ℤ
  withdraw caller amount = do
    require_auth caller
    require_vault caller
    require (ltb_ℤ (pos 0) amount) zero_amount
    balance ← reads (λ w. ok (State.get_tracked_balance w.storage))
    let withdraw_amount = if ltb_ℤ balance amount then balance else amount
    require (not (eqb_ℤ withdraw_amount (pos 0))) insufficient_balance
    pull caller withdraw_amount
    left ← lift (Words.sub balance withdraw_amount)
    modify (State.set_tracked_balance left)
    publish (Event.withdraw withdraw_amount amount)
    pure withdraw_amount

  -- The part of `emergency_withdraw` after its early return: the funds go to the vault.
  unfoldable pub pull_position : Address → ℤ → M Storage Event X ℤ
  pull_position caller amount = do
    vault ← reads (λ w. State.get_vault w.storage)
    pull vault amount
    modify (State.set_tracked_balance (pos 0))
    publish (Event.emergency_withdraw amount caller)
    pure amount

  -- With nothing in the pool only the tracked balance is reset.
  unfoldable pub forget_balance : M Storage Event X ℤ
  forget_balance = do modify (State.set_tracked_balance (pos 0)); pure (pos 0)

  unfoldable pub emergency_withdraw : Address → M Storage Event X ℤ
  emergency_withdraw caller = do
    require_auth caller
    require_vault_or_admin caller
    withdraw_amount ← reads (query_pool_position s)
    if eqb_ℤ withdraw_amount (pos 0) then forget_balance else pull_position caller withdraw_amount

  -- `pool_client.claim(&contract_addr, &vec![&e, reserve.config.index * 2], &contract_addr)`
  unfoldable pub claim_emissions : Address → Option Reserve → M Storage Event X ℤ
  claim_emissions pool none = pure (pos 0)
  claim_emissions pool (some reserve) = do
    self ← reads (λ w. ok w.self)
    token_id ← lift (Words.mul_u32 reserve.index 2)
    calls (s.pool.claim pool self (token_id ∷ []) self)

  unfoldable pub harvest : Address → M Storage Event X ℤ
  harvest caller = do
    require_auth caller
    require_vault_or_admin caller
    pool ← reads (λ w. State.get_blend_pool w.storage)
    asset ← reads (λ w. State.get_asset w.storage)
    reserve ← reads (λ w. ok (s.pool.get_reserve pool asset w.chain))
    claim_emissions pool reserve
