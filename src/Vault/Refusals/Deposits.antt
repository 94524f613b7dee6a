-- ===== src/Vault/Refusals/Deposits.antt =====
-- The errors of `deposit` of contracts/contracts/tezoro-vault/src/lib.rs.
use tezoro_yield_aggregator.Base.{◌≡◌, ◌≢◌, ◌⊎◌, inl, refl, true, false, not, List, [], ◌∷◌, arith}
use tezoro_yield_aggregator.Base.Int.{ℤ, pos, ◌≤ℤ◌, ◌+ℤ◌, ltb_ℤ}
use tezoro_yield_aggregator.Base.Map.{Address, balance}
use tezoro_yield_aggregator.Base.Outcome.{ok, err, value_or}
use tezoro_yield_aggregator.Base.Words
use tezoro_yield_aggregator.Common.{Chain}
use tezoro_yield_aggregator.Vault.State.{
  Storage, World, VaultError, not_initialized, paused, zero_amount, deposit_cap_exceeded,
}
use tezoro_yield_aggregator.Vault.Store.{
  get_strategies, is_initialized, is_paused, get_total_supply, get_deposit_cap, get_share_balance,
}
use tezoro_yield_aggregator.Vault.Assets.{total_assets, pro_rata, idle_balance, sum_tracked}
use tezoro_yield_aggregator.Vault.Shares.{deposit, cap_exceeded, mint, transfer_asset}
use tezoro_yield_aggregator.Vault.Refusals.{
  Errs, Errs-err, Errs-require, Errs-require_auth, Errs-lift, Errs-reads, Errs-traps,
}

-- The computations trap, but return no error of their own.
pub pro_rata-no_err : (a n d : ℤ) (e : VaultError) → pro_rata a n d ≢ err e
unfolding pro_rata Words.add Words.mul Words.div
pro_rata-no_err a n d e r = ground arith

pub add-no_err : (a b : ℤ) (e : VaultError) → Words.add a b ≢ err e
unfolding Words.add
add-no_err a b e r = ground arith

cap_exceeded-no_err :
    (cap total assets : ℤ) (e : VaultError) → cap_exceeded cap total assets ≢ err e
unfolding cap_exceeded Words.add
cap_exceeded-no_err cap total assets e r = ground arith

cap_exceeded-true :
    (cap total assets : ℤ)
    → cap_exceeded cap total assets ≡ ok true
    → (pos 1 ≤ℤ cap) × (ltb_ℤ cap (total +ℤ assets) ≡ true)
unfolding cap_exceeded Words.add
cap_exceeded-true cap total assets r = ground arith

sum_tracked-no_err :
    (s : Storage) (acc : ℤ) (strategies : List Address) (e : VaultError)
    → sum_tracked s acc strategies ≢ err e
unfolding sum_tracked Words.add
sum_tracked-no_err s acc [] e r = ground arith
sum_tracked-no_err s acc (x ∷ strategies) e r =
    ground (arith, sum_tracked-no_err s (acc +ℤ balance x s.tracked_balance) strategies e)

mint-no_err :
    {X : Type 0} (to : Address) (shares : ℤ) (w : World X) (e : VaultError)
    → mint to shares w ≢ err e
mint-no_err to shares w e r = ground (arith, add-no_err (get_share_balance w.storage to) shares e)

module _ {X : Type 0} (h : Chain X) where
  pub total_assets-no_err : (w : World X) (e : VaultError) → total_assets h w ≢ err e
  unfolding total_assets idle_balance Words.add
  total_assets-no_err w e r =
      ground (arith, sum_tracked-no_err w.storage (pos 0) (get_strategies w.storage) e)

  pub transfer_asset-no_err :
      (from to : Address) (amount : ℤ) (w : World X) (e : VaultError)
      → transfer_asset h from to amount w ≢ err e
  transfer_asset-no_err from to amount w e r = ground arith

  -- Why `deposit` returns an error.
  abbrev pub DepositRefused : ℤ → World X → VaultError → Type 0
  DepositRefused assets w e =
      let total = value_or (pos 0) (total_assets h w) in
      let shares = value_or (pos 1) (pro_rata assets (get_total_supply w.storage) total) in
      ((e ≡ not_initialized) × (is_initialized w.storage ≡ false))
      ⊎ ((e ≡ paused) × (is_paused w.storage ≡ true))
      ⊎ ((e ≡ zero_amount) × ((assets ≤ℤ pos 0) ⊎ (shares ≤ℤ pos 0)))
      ⊎ ((e ≡ deposit_cap_exceeded)
          × (pos 1 ≤ℤ get_deposit_cap w.storage)
          × (ltb_ℤ (get_deposit_cap w.storage) (total +ℤ assets) ≡ true))

  deposit-Errs :
      (from : Address) (assets : ℤ) (w : World X)
      → Errs (deposit h from assets w) (DepositRefused assets w)
  unfolding deposit
  deposit-Errs from assets w =
      let P = DepositRefused assets w in
      let supply = get_total_supply w.storage in
      let cap = get_deposit_cap w.storage in
      Errs-require_auth P from _ w λ auth.
        Errs-require P (is_initialized w.storage) not_initialized _ w (λ no. inl (refl, no))
          λ init.
            Errs-require P (not (is_paused w.storage)) paused _ w (λ no. ground arith)
              λ running.
                Errs-require P (ltb_ℤ (pos 0) assets) zero_amount _ w (λ no. ground arith)
                  λ positive. Errs-reads P (total_assets h) _ w (total_assets-no_err w) λ total t.
                    Errs-lift P (cap_exceeded cap total assets) _ w
                      (cap_exceeded-no_err cap total assets)
                      λ exceeded c.
                        Errs-require P (not exceeded) deposit_cap_exceeded _ w
                          (λ no. ground (arith, cap_exceeded-true cap total assets))
                          λ fits.
                            Errs-lift P (pro_rata assets supply total) _ w
                              (pro_rata-no_err assets supply total)
                              λ shares s.
                                Errs-require P (ltb_ℤ (pos 0) shares) zero_amount _ w
                                  (λ no. ground arith)
                                  λ some_shares.
                                    Errs-traps P (transfer_asset h from w.self assets) _ w
                                      (transfer_asset-no_err from w.self assets w)
                                      λ _ w1.
                                        Errs-traps P (mint from shares) _ w1
                                          (mint-no_err from shares w1)
                                          λ _ w2.
                                            Errs-lift P (Words.add supply shares) _ w2
                                              (add-no_err supply shares) λ raised a. tt

  -- If `deposit` returns an error then it is one of four, each for its reason: not initialised,
  -- paused, an amount or a number of shares that is not positive, or a positive cap that the total
  -- assets would pass.
  pub deposit-Refused :
      (from : Address) (assets : ℤ) (w : World X) {e : VaultError}
      → deposit h from assets w ≡ err e
      → DepositRefused assets w e
  deposit-Refused from assets w =
      Errs-err (DepositRefused assets w) (deposit h from assets w) (deposit-Errs from assets w)
