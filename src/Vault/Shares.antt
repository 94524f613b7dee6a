-- ===== src/Vault/Shares.antt =====
-- The share token and the way in: `transfer` and `deposit` of
-- contracts/contracts/tezoro-vault/src/lib.rs.
pub mod Effects
pub mod Transfers
pub mod Liveness
use tezoro_yield_aggregator.Base.{Bool, false, not, if◌then◌else◌}
use tezoro_yield_aggregator.Base.Int.{ℤ, pos, ltb_ℤ, leb_ℤ}
use tezoro_yield_aggregator.Base.Map.{Address}
use tezoro_yield_aggregator.Base.Outcome.{Outcome, unwrap, ok}
use tezoro_yield_aggregator.Base.Outcome
use tezoro_yield_aggregator.Base.Words
use tezoro_yield_aggregator.Common.{Chain}
use tezoro_yield_aggregator.Vault.State.{
  World, Event, VaultError, zero_amount, insufficient_shares, deposit_cap_exceeded,
}
use tezoro_yield_aggregator.Vault.Monad.{
  M, ◌>>=◌, ◌>>◌, pure, require, reads, lift, modify, publish, require_auth,
}
use tezoro_yield_aggregator.Vault.Store.{
  get_share_balance, set_share_balance, get_total_supply, set_total_supply, get_deposit_cap,
  get_asset,
}
use tezoro_yield_aggregator.Vault.Guards.{require_initialized, require_not_paused}
use tezoro_yield_aggregator.Vault.Assets.{total_assets, pro_rata}

-- `cap > 0 && current_total + assets > cap`: the sum is formed only if there is a cap.
unfoldable pub cap_exceeded : ℤ → ℤ → ℤ → Outcome VaultError Bool
cap_exceeded cap current_total assets =
    if ltb_ℤ (pos 0) cap
    then Outcome.map (λ raised. ltb_ℤ cap raised) (Words.add current_total assets)
    else ok false

module _ {X : Type 0} where
  abbrev pub share_balance : Address → M X ℤ
  share_balance a = reads (λ w. ok (get_share_balance w.storage a))

  abbrev pub mint : Address → ℤ → M X (Unit {0})
  mint to shares = do
    current ← share_balance to
    credited ← lift (Words.add current shares)
    modify (set_share_balance to credited)

  unfoldable pub transfer : Address → Address → ℤ → M X (Unit {0})
  transfer from to amount = do
    require_auth from
    require (ltb_ℤ (pos 0) amount) zero_amount
    from_bal ← share_balance from
    require (leb_ℤ amount from_bal) insufficient_shares
    debited ← lift (Words.sub from_bal amount)
    modify (set_share_balance from debited)
    mint to amount
    publish (Event.transfer from to amount)

module _ {X : Type 0} (h : Chain X) where
  -- `token::Client::new(&e, &asset_addr).transfer(from, to, amount)`
  abbrev pub transfer_asset : Address → Address → ℤ → M X (Unit {0})
  transfer_asset from to amount = do
    asset ← reads (λ w. get_asset w.storage)
    chain' ← reads (λ w. unwrap (h.token.transfer asset from to amount w.chain))
    λ w. ok (tt, record w { chain = chain' })

  unfoldable pub deposit : Address → ℤ → M X ℤ
  deposit from assets = do
    require_auth from
    require_initialized
    require_not_paused
    require (ltb_ℤ (pos 0) assets) zero_amount
    current_total ← reads (total_assets h)
    cap ← reads (λ w. ok (get_deposit_cap w.storage))
    exceeded ← lift (cap_exceeded cap current_total assets)
    require (not exceeded) deposit_cap_exceeded
    total_supply ← reads (λ w. ok (get_total_supply w.storage))
    shares ← lift (pro_rata assets total_supply current_total)
    require (ltb_ℤ (pos 0) shares) zero_amount
    vault ← reads (λ w. ok w.self)
    transfer_asset from vault assets
    mint from shares
    supply ← lift (Words.add total_supply shares)
    modify (set_total_supply supply)
    publish (Event.deposit from assets shares)
    pure shares
