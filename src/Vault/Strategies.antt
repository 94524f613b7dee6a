-- ===== src/Vault/Strategies.antt =====
-- The list of strategies and the funds in them: `add_strategy`, `remove_strategy`, `allocate`,
-- `deallocate`, `emergency_withdraw_strategy`, `attest_bridged_balance` and
-- `update_tracked_balance` of contracts/contracts/tezoro-vault/src/lib.rs.
pub mod Lists
pub mod Registry
pub mod Effects
use tezoro_yield_aggregator.Base.{
  ℕ, suc, Bool, true, false, not, leb, ltb, if◌then◌else◌, ◌==◌, List, [], ◌∷◌, ◌++◌,
}
use tezoro_yield_aggregator.Base.Int.{ℤ, pos, ltb_ℤ, leb_ℤ}
use tezoro_yield_aggregator.Base.Map.{Address}
use tezoro_yield_aggregator.Base.Outcome.{Outcome, ok, called, map}
use tezoro_yield_aggregator.Base.Words
use tezoro_yield_aggregator.Common.{Chain, max_bps}
use tezoro_yield_aggregator.Vault.State.{
  World, Event, VaultError, zero_amount, max_strategies, strategy_already_active,
  strategy_not_active, strategy_has_balance, idle_buffer_violation, strategy_unhealthy,
  invalid_balance,
}
use tezoro_yield_aggregator.Vault.Monad.{
  M, ◌>>=◌, ◌>>◌, pure, require, reads, lift, modify, publish, require_auth, call,
}
use tezoro_yield_aggregator.Vault.Store.{
  get_tracked_balance, set_tracked_balance, remove_tracked_balance, get_strategies, set_strategies,
  strategy_exists, get_idle_buffer_bps, set_bridged_balance, set_bridged_timestamp,
}
use tezoro_yield_aggregator.Vault.Guards.{require_admin, require_keeper, require_admin_or_guardian}
use tezoro_yield_aggregator.Vault.Assets.{idle_balance, total_assets, mul_div}
use tezoro_yield_aggregator.Vault.Shares.{transfer_asset}
use tezoro_yield_aggregator.Vault.Redeem.{untrack, withdraw_from}

abbrev pub max_strategy_count : ℕ
max_strategy_count = 20

module _ {ℓ} {A : Type ℓ} where
  abbrev pub length : List A → ℕ
  length [] = 0
  length (x ∷ xs) = suc (length xs)

-- The loop of `remove_strategy`: the other strategies, and whether this one was met.
unfoldable pub without : Address → List Address → List Address × Bool
without strategy [] = ([], false)
without strategy (s ∷ strategies) =
    let rest = without strategy strategies in
    if s == strategy then (rest.0, true) else (s ∷ rest.0, rest.1)

module _ {X : Type 0} where
  unfoldable pub add_strategy : Address → Address → M X (Unit {0})
  add_strategy caller strategy = do
    require_auth caller
    require_admin caller
    strategies ← reads (λ w. ok (get_strategies w.storage))
    require (ltb (length strategies) max_strategy_count) max_strategies
    exists ← reads (λ w. ok (strategy_exists w.storage strategy))
    require (not exists) strategy_already_active
    modify (set_strategies (strategies ++ strategy ∷ []))
    modify (set_tracked_balance strategy (pos 0))
    publish (Event.strategy_add strategy)

  unfoldable pub remove_strategy : Address → Address → M X (Unit {0})
  remove_strategy caller strategy = do
    require_auth caller
    require_admin caller
    tracked ← reads (λ w. ok (get_tracked_balance w.storage strategy))
    require (leb_ℤ tracked (pos 0)) strategy_has_balance
    strategies ← reads (λ w. ok (get_strategies w.storage))
    let (new_strategies, found) = without strategy strategies
    require found strategy_not_active
    modify (set_strategies new_strategies)
    modify (remove_tracked_balance strategy)
    publish (Event.strategy_remove strategy)

  unfoldable pub attest_bridged_balance : Address → ℤ → M X (Unit {0})
  attest_bridged_balance keeper balance = do
    require_auth keeper
    require_keeper keeper
    require (leb_ℤ (pos 0) balance) invalid_balance
    timestamp ← reads (λ w. ok w.timestamp)
    modify (set_bridged_balance balance)
    modify (set_bridged_timestamp timestamp)
    publish (Event.bridged_update balance timestamp)

  unfoldable pub update_tracked_balance : Address → Address → ℤ → M X (Unit {0})
  update_tracked_balance keeper strategy balance = do
    require_auth keeper
    require_keeper keeper
    require (leb_ℤ (pos 0) balance) invalid_balance
    exists ← reads (λ w. ok (strategy_exists w.storage strategy))
    require exists strategy_not_active
    modify (set_tracked_balance strategy balance)
    publish (Event.tracked_update strategy balance)

module _ {X : Type 0} (h : Chain X) where
  -- `StrategyClient::deposit`, with the vault as the caller.
  abbrev pub deposit_into : Address → ℤ → M X (Unit {0})
  deposit_into strategy amount w =
      call (λ x. map (λ x'. (tt, x')) ((h.strategy strategy).deposit w.self amount x)) w

  unfoldable pub allocate : Address → Address → ℤ → M X (Unit {0})
  allocate keeper strategy amount = do
    require_auth keeper
    require_keeper keeper
    require (ltb_ℤ (pos 0) amount) zero_amount
    exists ← reads (λ w. ok (strategy_exists w.storage strategy))
    require exists strategy_not_active
    idle_before ← reads (idle_balance h)
    total ← reads (total_assets h)
    buffer_bps ← reads (λ w. ok (get_idle_buffer_bps w.storage))
    min_idle ← lift (mul_div total (pos buffer_bps) (pos max_bps))
    idle_after ← lift (Words.sub idle_before amount)
    require (leb_ℤ min_idle idle_after) idle_buffer_violation
    healthy ← reads (λ w. called ((h.strategy strategy).is_healthy w.chain))
    require healthy strategy_unhealthy
    vault ← reads (λ w. ok w.self)
    transfer_asset h vault strategy amount
    deposit_into strategy amount
    tracked ← reads (λ w. ok (get_tracked_balance w.storage strategy))
    raised ← lift (Words.add tracked amount)
    modify (set_tracked_balance strategy raised)
    publish (Event.allocate strategy amount)

  unfoldable pub deallocate : Address → Address → ℤ → M X ℤ
  deallocate keeper strategy amount = do
    require_auth keeper
    require_keeper keeper
    require (ltb_ℤ (pos 0) amount) zero_amount
    exists ← reads (λ w. ok (strategy_exists w.storage strategy))
    require exists strategy_not_active
    withdrawn ← withdraw_from h strategy amount
    untrack strategy withdrawn
    publish (Event.deallocate strategy withdrawn)
    pure withdrawn

  unfoldable pub emergency_withdraw_strategy : Address → Address → M X ℤ
  emergency_withdraw_strategy caller strategy = do
    require_auth caller
    require_admin_or_guardian caller
    exists ← reads (λ w. ok (strategy_exists w.storage strategy))
    require exists strategy_not_active
    withdrawn ← λ w. call ((h.strategy strategy).emergency_withdraw w.self) w
    modify (set_tracked_balance strategy (pos 0))
    publish (Event.deallocate strategy withdrawn)
    pure withdrawn
