-- ===== src/Mock.antt =====
-- contracts/contracts/mock-strategy/src/lib.rs, the strategy of the vault's tests: it holds the
-- tokens itself.
pub mod Promises
mod Conformance
mod Tests
use tezoro_yield_aggregator.Base.{Bool, true, false, not, ◌==◌, if◌then◌else◌, Option, none, some}
use tezoro_yield_aggregator.Base.Int.{ℤ, pos, ltb_ℤ, eqb_ℤ}
use tezoro_yield_aggregator.Base.Map.{Address}
use tezoro_yield_aggregator.Base.Outcome.{Outcome, ok, unwrap, unwrap_or}
use tezoro_yield_aggregator.Base.Words
use tezoro_yield_aggregator.Common.{
  StrategyError, already_initialized, unauthorized, insufficient_balance, zero_amount, Token,
}
use tezoro_yield_aggregator.Strategy.{
  Contract, M, ◌>>=◌, ◌>>◌, pure, require, reads, lift, modify, publish, require_auth, runs,
}

-- An entry for each `DataKey`.
pub record Storage : Type 0 where
  pub initialized : Option Bool
  pub admin : Option Address
  pub vault : Option Address
  pub asset : Option Address
  pub balance : Option ℤ
  pub healthy : Option Bool

pub data Event : Type 0 where
  deposit_event withdraw_event emergency_withdraw_event : ℤ → Event

abbrev pub get_balance : Storage → ℤ
get_balance s = unwrap_or s.balance (pos 0)

abbrev pub set_balance : ℤ → Storage → Storage
set_balance b s = record s { balance = some b }

module _ {X : Type 0} where
  abbrev pub require_vault : Address → M Storage Event X (Unit {0})
  require_vault caller = do
    vault ← reads (λ w. unwrap w.storage.vault)
    require (caller == vault) unauthorized

  abbrev pub require_admin : Address → M Storage Event X (Unit {0})
  require_admin caller = do
    admin ← reads (λ w. unwrap w.storage.admin)
    require (caller == admin) unauthorized

  unfoldable pub initialize : Address → Address → Address → M Storage Event X (Unit {0})
  initialize admin vault asset = do
    initialized ← reads (λ w. ok (elim w.storage.initialized [ none ↦ false | some _ ↦ true ]))
    require (not initialized) already_initialized
    modify (λ s. record s { initialized = some true })
    modify (λ s. record s { admin = some admin })
    modify (λ s. record s { vault = some vault })
    modify (λ s. record s { asset = some asset })
    modify (λ s. record s { healthy = some true })
    modify (set_balance (pos 0))

  unfoldable pub deposit : Address → ℤ → M Storage Event X (Unit {0})
  deposit caller amount = do
    require_auth caller
    require_vault caller
    require (ltb_ℤ (pos 0) amount) zero_amount
    balance ← reads (λ w. ok (get_balance w.storage))
    raised ← lift (Words.add balance amount)
    modify (set_balance raised)
    publish (Event.deposit_event amount)

  unfoldable pub balance_of : Contract Storage Event X → Outcome StrategyError ℤ
  balance_of w = ok (get_balance w.storage)

  unfoldable pub available_liquidity : Contract Storage Event X → Outcome StrategyError ℤ
  unfolding balance_of
  available_liquidity w = balance_of w

  unfoldable pub is_healthy : Contract Storage Event X → Outcome StrategyError Bool
  is_healthy w = ok (unwrap_or w.storage.healthy true)

  unfoldable pub asset : Contract Storage Event X → Outcome StrategyError Address
  asset w = unwrap w.storage.asset

  unfoldable pub vault : Contract Storage Event X → Outcome StrategyError Address
  vault w = unwrap w.storage.vault

  unfoldable pub simulate_yield : Address → ℤ → M Storage Event X (Unit {0})
  simulate_yield caller amount = do
    require_auth caller
    require_admin caller
    balance ← reads (λ w. ok (get_balance w.storage))
    raised ← lift (Words.add balance amount)
    modify (set_balance raised)

  unfoldable pub set_healthy : Address → Bool → M Storage Event X (Unit {0})
  set_healthy caller healthy = do
    require_auth caller
    require_admin caller
    modify (λ s. record s { healthy = some healthy })

module _ {X : Type 0} (t : Token X) where
  -- `token::Client::new(&e, &asset).transfer(&e.current_contract_address(), to, amount)`
  abbrev pub pay : Address → ℤ → M Storage Event X (Unit {0})
  pay to amount = do
    asset ← reads (λ w. unwrap w.storage.asset)
    self ← reads (λ w. ok w.self)
    runs (t.transfer asset self to amount)

  unfoldable pub withdraw : Address → ℤ → M Storage Event X ℤ
  withdraw caller amount = do
    require_auth caller
    require_vault caller
    require (ltb_ℤ (pos 0) amount) zero_amount
    balance ← reads (λ w. ok (get_balance w.storage))
    let withdraw_amount = if ltb_ℤ balance amount then balance else amount
    require (not (eqb_ℤ withdraw_amount (pos 0))) insufficient_balance
    pay caller withdraw_amount
    left ← lift (Words.sub balance withdraw_amount)
    modify (set_balance left)
    publish (Event.withdraw_event withdraw_amount)
    pure withdraw_amount

  -- The end of `emergency_withdraw`, after its early return.
  unfoldable pub pull_all : Address → ℤ → M Storage Event X ℤ
  pull_all caller balance = do
    pay caller balance
    modify (set_balance (pos 0))
    publish (Event.emergency_withdraw_event balance)
    pure balance

  unfoldable pub emergency_withdraw : Address → M Storage Event X ℤ
  emergency_withdraw caller = do
    require_auth caller
    require_vault caller
    balance ← reads (λ w. ok (get_balance w.storage))
    if eqb_ℤ balance (pos 0) then pure (pos 0) else pull_all caller balance
