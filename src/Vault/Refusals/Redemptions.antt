-- ===== src/Vault/Refusals/Redemptions.antt =====
-- The errors of `redeem` of contracts/contracts/tezoro-vault/src/lib.rs. A redemption does not look
-- at the pause flag.
use tezoro_yield_aggregator.Base.{◌≡◌, ◌≢◌, ◌⊎◌, inl, refl, true, false, List, [], ◌∷◌, arith}
use tezoro_yield_aggregator.Base.Int.{ℤ, pos, ◌≤ℤ◌, ltb_ℤ, leb_ℤ}
use tezoro_yield_aggregator.Base.Map.{Address}
use tezoro_yield_aggregator.Base.Outcome.{err, value_or}
use tezoro_yield_aggregator.Base.Words
use tezoro_yield_aggregator.Common.{Chain}
use tezoro_yield_aggregator.Vault.State.{
  World, VaultError, not_initialized, zero_amount, insufficient_shares, insufficient_assets,
}
use tezoro_yield_aggregator.Vault.Store.{
  get_strategies, is_initialized, get_total_supply, get_share_balance,
}
use tezoro_yield_aggregator.Vault.Assets.{total_assets, convert_to_assets, idle_balance}
use tezoro_yield_aggregator.Vault.Shares.{transfer_asset}
use tezoro_yield_aggregator.Vault.Redeem.{
  redeem, cover, burn, waterfall, pull_from, pull, untrack, tracked_after, remaining_after,
}
use tezoro_yield_aggregator.Vault.Refusals.{
  Errs, Errs-err, Errs-require, Errs-require_auth, Errs-lift, Errs-reads, Errs-traps, Errs-bind,
  Errs-when, Errs-last,
}
use tezoro_yield_aggregator.Vault.Refusals.Deposits.{
  total_assets-no_err, pro_rata-no_err, transfer_asset-no_err,
}

pub sub-no_err : (a b : ℤ) (e : VaultError) → Words.sub a b ≢ err e
unfolding Words.sub
sub-no_err a b e r = ground arith

module _ {X : Type 0} (h : Chain X) where
  convert_to_assets-no_err :
      (shares : ℤ) (w : World X) (e : VaultError) → convert_to_assets h shares w ≢ err e
  unfolding convert_to_assets
  convert_to_assets-no_err shares w e r =
      let total = value_or (pos 0) (total_assets h w) in
      ground (
        arith,
        total_assets-no_err h w e,
        pro_rata-no_err shares total (get_total_supply w.storage) e,
      )

  pub idle_balance-no_err : (w : World X) (e : VaultError) → idle_balance h w ≢ err e
  unfolding idle_balance
  idle_balance-no_err w e r = ground arith

  burn-no_err :
      (from : Address) (current shares : ℤ) (w : World X) (e : VaultError)
      → burn from current shares w ≢ err e
  unfolding burn Words.sub
  burn-no_err from current shares w e r = ground arith

  pull_from-Errs :
      (strategy : Address) (remaining : ℤ) (w : World X)
      → Errs (pull_from h strategy remaining w) (λ _. ⊥)
  unfolding pull_from pull untrack tracked_after remaining_after Words.sub
  pull_from-Errs strategy remaining w = ground arith

  waterfall-Errs :
      (strategies : List Address) (remaining : ℤ) (w : World X)
      → Errs (waterfall h strategies remaining w) (λ _. ⊥)
  unfolding waterfall
  waterfall-Errs [] remaining w = tt
  waterfall-Errs (s ∷ strategies) remaining w =
      Errs-when (λ _. ⊥) (ltb_ℤ (pos 0) remaining) _ w
        λ _.
          Errs-bind (λ _. ⊥) (pull_from h s remaining) _ w (pull_from-Errs s remaining w)
            λ left w'. waterfall-Errs strategies left w'

  cover-Errs :
      (P : VaultError → Type 0) (assets idle : ℤ) (w : World X)
      → (ltb_ℤ idle assets ≡ true → P insufficient_assets)
      → Errs (cover h assets idle w) P
  unfolding cover
  cover-Errs P assets idle w p = Errs-when P (ltb_ℤ idle assets) _ w λ short.
      Errs-lift P (Words.sub assets idle) _ w (sub-no_err assets idle) λ remaining _.
        Errs-traps P (waterfall h (get_strategies w.storage) remaining) _ w
          (λ e r. Errs-err (λ _. ⊥) _ (waterfall-Errs (get_strategies w.storage) remaining w) r)
          λ _ w'. Errs-reads P (idle_balance h) _ w' (idle_balance-no_err w') λ idle_after _.
            Errs-last P (leb_ℤ assets idle_after) insufficient_assets w' (λ _. p short)

  -- Why `redeem` returns an error.
  abbrev pub RedeemRefused : Address → ℤ → World X → VaultError → Type 0
  RedeemRefused from shares w e =
      let assets = value_or (pos 1) (convert_to_assets h shares w) in
      ((e ≡ not_initialized) × (is_initialized w.storage ≡ false))
      ⊎ ((e ≡ zero_amount) × ((shares ≤ℤ pos 0) ⊎ (assets ≤ℤ pos 0)))
      ⊎ ((e ≡ insufficient_shares) × (ltb_ℤ (get_share_balance w.storage from) shares ≡ true))
      ⊎ ((e ≡ insufficient_assets) × (ltb_ℤ (value_or (pos 0) (idle_balance h w)) assets ≡ true))

  redeem-Errs :
      (from : Address) (shares : ℤ) (w : World X)
      → Errs (redeem h from shares w) (RedeemRefused from shares w)
  unfolding redeem
  redeem-Errs from shares w =
      let P = RedeemRefused from shares w in
      let owned = get_share_balance w.storage from in
      Errs-require_auth P from _ w λ auth.
        Errs-require P (is_initialized w.storage) not_initialized _ w (λ no. inl (refl, no))
          λ init.
            Errs-require P (ltb_ℤ (pos 0) shares) zero_amount _ w (λ no. ground arith)
              λ positive.
                Errs-require P (leb_ℤ shares owned) insufficient_shares _ w (λ no. ground arith)
                  λ enough.
                    Errs-reads P (convert_to_assets h shares) _ w
                      (convert_to_assets-no_err shares w)
                      λ assets a.
                        Errs-require P (ltb_ℤ (pos 0) assets) zero_amount _ w (λ no. ground arith)
                          λ worth.
                            Errs-reads P (idle_balance h) _ w (idle_balance-no_err w) λ idle i.
                              Errs-bind P (cover h assets idle) _ w
                                (cover-Errs P assets idle w (λ short. ground arith))
                                λ _ w1.
                                  Errs-traps P (burn from owned shares) _ w1
                                    (burn-no_err from owned shares w1)
                                    λ _ w2.
                                      Errs-traps P (transfer_asset h w2.self from assets) _ w2
                                        (transfer_asset-no_err h w2.self from assets w2) λ _ w3. tt

  -- If `redeem` returns an error then it is one of four, each for its reason: not initialised, a
  -- number of shares or assets that is not positive, more shares than the holder has, or more assets
  -- than are idle. None of them is the pause flag.
  pub redeem-Refused :
      (from : Address) (shares : ℤ) (w : World X) {e : VaultError}
      → redeem h from shares w ≡ err e
      → RedeemRefused from shares w e
  redeem-Refused from shares w =
      Errs-err (RedeemRefused from shares w) (redeem h from shares w) (redeem-Errs from shares w)
