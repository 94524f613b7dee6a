-- ===== src/Vault/Redeem.antt =====
-- The way out: `redeem` and its waterfall over the strategies, in
-- contracts/contracts/tezoro-vault/src/lib.rs.
pub mod Frame
pub mod Effects
pub mod Liquidity
pub mod Waterfall
pub mod Payment
pub mod Liveness
use tezoro_yield_aggregator.Base.{Bool, true, false, if◌then◌else◌, List, [], ◌∷◌}
use tezoro_yield_aggregator.Base.Int.{ℤ, pos, ltb_ℤ, leb_ℤ}
use tezoro_yield_aggregator.Base.Map.{Address}
use tezoro_yield_aggregator.Base.Outcome.{Outcome, ok, called}
use tezoro_yield_aggregator.Base.Words
use tezoro_yield_aggregator.Common.{Chain}
use tezoro_yield_aggregator.Vault.State.{
  World, Event, VaultError, zero_amount, insufficient_shares, insufficient_assets,
}
use tezoro_yield_aggregator.Vault.Monad.{
  M, ◌>>=◌, ◌>>◌, pure, require, when, reads, lift, modify, publish, require_auth, call,
}
use tezoro_yield_aggregator.Vault.Store.{
  get_share_balance, set_share_balance, get_total_supply, set_total_supply, get_tracked_balance,
  set_tracked_balance, get_strategies,
}
use tezoro_yield_aggregator.Vault.Guards.{require_initialized}
use tezoro_yield_aggregator.Vault.Assets.{idle_balance, convert_to_assets}
use tezoro_yield_aggregator.Vault.Shares.{transfer_asset, share_balance}

-- `if withdrawn > tracked { 0 } else { tracked - withdrawn }`
unfoldable pub tracked_after : ℤ → ℤ → Outcome VaultError ℤ
tracked_after tracked withdrawn =
    if ltb_ℤ tracked withdrawn then ok (pos 0) else Words.sub tracked withdrawn

-- `if withdrawn >= remaining { 0 } else { remaining - withdrawn }`
unfoldable pub remaining_after : ℤ → ℤ → Outcome VaultError ℤ
remaining_after remaining withdrawn =
    if leb_ℤ remaining withdrawn then ok (pos 0) else Words.sub remaining withdrawn

module _ {X : Type 0} where
  -- The update of `tracked_balance` after a withdrawal.
  unfoldable pub untrack : Address → ℤ → M X (Unit {0})
  untrack strategy withdrawn = do
    tracked ← reads (λ w. ok (get_tracked_balance w.storage strategy))
    new_tracked ← lift (tracked_after tracked withdrawn)
    modify (set_tracked_balance strategy new_tracked)

  -- The end of `redeem`: `share_balance` and `total_supply` fall by the shares.
  unfoldable pub burn : Address → ℤ → ℤ → M X (Unit {0})
  burn from current_shares shares = do
    left ← lift (Words.sub current_shares shares)
    modify (set_share_balance from left)
    supply ← reads (λ w. ok (get_total_supply w.storage))
    reduced ← lift (Words.sub supply shares)
    modify (set_total_supply reduced)

module _ {X : Type 0} (h : Chain X) where
  abbrev pub withdraw_from : Address → ℤ → M X ℤ
  withdraw_from strategy amount w = call ((h.strategy strategy).withdraw w.self amount) w

  -- The withdrawal in a round of the loop: what is still missing after it.
  unfoldable pub pull : Address → ℤ → ℤ → M X ℤ
  pull strategy remaining available = do
    let to_pull = if ltb_ℤ remaining available then remaining else available
    withdrawn ← withdraw_from strategy to_pull
    untrack strategy withdrawn
    lift (remaining_after remaining withdrawn)

  -- One round of the loop: a strategy with nothing available is passed over.
  unfoldable pub pull_from : Address → ℤ → M X ℤ
  pull_from strategy remaining = do
    available ← reads (λ w. called ((h.strategy strategy).available_liquidity w.chain))
    if leb_ℤ available (pos 0) then pure remaining else pull strategy remaining available

  unfoldable pub waterfall : List Address → ℤ → M X (Unit {0})
  waterfall [] remaining = pure tt
  waterfall (strategy ∷ strategies) remaining =
      when (ltb_ℤ (pos 0) remaining)
        do remaining' ← pull_from strategy remaining; waterfall strategies remaining'

  -- `if idle < assets { … }`
  unfoldable pub cover : ℤ → ℤ → M X (Unit {0})
  cover assets idle = when (ltb_ℤ idle assets) do
    remaining ← lift (Words.sub assets idle)
    strategies ← reads (λ w. ok (get_strategies w.storage))
    waterfall strategies remaining
    idle_after ← reads (idle_balance h)
    require (leb_ℤ assets idle_after) insufficient_assets

  unfoldable pub redeem : Address → ℤ → M X ℤ
  redeem from shares = do
    require_auth from
    require_initialized
    require (ltb_ℤ (pos 0) shares) zero_amount
    current_shares ← share_balance from
    require (leb_ℤ shares current_shares) insufficient_shares
    assets ← reads (convert_to_assets h shares)
    require (ltb_ℤ (pos 0) assets) zero_amount
    idle ← reads (idle_balance h)
    cover assets idle
    burn from current_shares shares
    vault ← reads (λ w. ok w.self)
    transfer_asset h vault from assets
    publish (Event.redeem from shares assets)
    pure assets
