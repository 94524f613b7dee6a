-- ===== src/Vault/Pricing/Price.antt =====
-- The price of a share, with the virtual offsets: no deposit and no redemption lowers it, and
-- nobody gains by going in and out.
use tezoro_yield_aggregator.Base.{ℕ, ◌+◌, ◌-◌, ◌*◌, ◌/◌, ◌≤◌, ◌<◌, ◌≡◌, ◌≢◌, arith, ◌∙◌, ap, some}
use tezoro_yield_aggregator.Base.Int.{ℤ, pos, ◌≤ℤ◌, pos-+ℤ, pos--ℤ, int_laws}
use tezoro_yield_aggregator.Base.Map.{Address}
use tezoro_yield_aggregator.Base.Outcome.{ok}
use tezoro_yield_aggregator.Common.{Chain}
use tezoro_yield_aggregator.Vault.State.{World}
use tezoro_yield_aggregator.Vault.Store.{get_total_supply, get_strategies}
use tezoro_yield_aggregator.Vault.Assets.{total_assets, convert_to_assets}
use tezoro_yield_aggregator.Vault.Shares.{deposit}
use tezoro_yield_aggregator.Vault.Shares.Effects.{deposit-storage, deposit-quote, deposit-moves}
use tezoro_yield_aggregator.Vault.Redeem.{redeem}
use tezoro_yield_aggregator.Vault.Redeem.Payment.{PaysOut, redeem-PaysOut}
use tezoro_yield_aggregator.Vault.Strategies.Lists.{IsDistinct}
use tezoro_yield_aggregator.Vault.Redeem.Effects.{redeem-storage, redeem-pays}
use tezoro_yield_aggregator.Vault.Pricing.Rounding.{offset, pro_rata_exact, div_bounds, mul_le}
use tezoro_yield_aggregator.Vault.Pricing.Assets.{TokenLaws, total_assets-deposit}
use tezoro_yield_aggregator.Vault.Pricing.Payouts.{WithdrawLaws, total_assets-redeem}

-- Minting the quotient leaves the price at least as high.
mint_price :
    (assets supply total : ℕ)
    → let minted = assets * (supply + offset) / (total + offset) in
      (total + offset) * (supply + minted + offset) ≤ (total + assets + offset) * (supply + offset)
mint_price assets supply total =
    let minted = assets * (supply + offset) / (total + offset) in
    let bound = (div_bounds (assets * (supply + offset)) (total + offset) (omega arith)).0 in
    omega (arith, bound)

le_of_mul_le : (q a d : ℕ) → 0 < d → q * d ≤ a * d → q ≤ a
le_of_mul_le q a d h m = grind arith

-- `a - p` against `b`, where `p * b ≤ s * a`.
sub_price : (a b s p : ℕ) → p ≤ a → s ≤ b → p * b ≤ s * a → a * (b - s) ≤ (a - p) * b
sub_price a b s p ha hb m =
    let left : b ≡ b - s + s = omega arith in
    let right : a ≡ a - p + p = omega arith in
    omega (arith, ap (λ (t : ℕ). a * t) left, ap (λ (t : ℕ). t * b) right)

-- Paying out the quotient leaves the price at least as high.
payout_price :
    (shares supply total : ℕ)
    → shares ≤ supply
    → let paid = shares * (total + offset) / (supply + offset) in
      (paid ≤ total + offset)
      × ((total + offset) * (supply + offset - shares)
          ≤ (total + offset - paid) * (supply + offset))
payout_price shares supply total h =
    let paid = shares * (total + offset) / (supply + offset) in
    let bound = (div_bounds (shares * (total + offset)) (supply + offset) (omega arith)).0 in
    let capped : shares * (total + offset) ≤ (total + offset) * (supply + offset) = grind arith in
    let fits = le_of_mul_le paid (total + offset) (supply + offset) (omega arith) (omega arith) in
    (fits, sub_price (total + offset) (supply + offset) shares paid fits (omega arith) bound)

-- What was minted converts back to at most what was paid in.
round_trip :
    (assets supply total : ℕ)
    → let minted = assets * (supply + offset) / (total + offset) in
      minted * (total + assets + offset) / (supply + minted + offset) ≤ assets
round_trip assets supply total =
    let minted = assets * (supply + offset) / (total + offset) in
    let bound = (div_bounds (assets * (supply + offset)) (total + offset) (omega arith)).0 in
    let d = supply + minted + offset in
    let back = (div_bounds (minted * (total + assets + offset)) d (omega arith)).0 in
    let value : minted * (total + assets + offset) ≤ assets * d = omega (arith, bound) in
    le_of_mul_le (minted * (total + assets + offset) / d) assets d (omega arith)
      (omega (arith, back, value))

module _ {X : Type 0} (h : Chain X) where
  -- Of nonnegative totals and supply: a deposit by someone other than the vault, where the token
  -- moves exactly what it is told to, mints the shares that the assets are worth, rounded down, and
  -- adds them to the supply and the assets to the total, and the price of a share does not fall.
  pub deposit_price :
      (from : Address) (assets supply total : ℕ) (w : World X) {shares total' : ℤ} {w' : World X}
      → TokenLaws h.token
      → from ≢ w.self
      → get_total_supply w.storage ≡ pos supply
      → total_assets h w ≡ ok (pos total)
      → deposit h from (pos assets) w ≡ ok (shares, w')
      → total_assets h w' ≡ ok total'
      → let minted = assets * (supply + offset) / (total + offset) in
        (shares ≡ pos minted)
        × (get_total_supply w'.storage ≡ pos (supply + minted))
        × (total' ≡ pos (total + assets))
        × ((total + offset) * (supply + minted + offset)
            ≤ (total + assets + offset) * (supply + offset))
  deposit_price from assets supply total w laws ne s t e t' =
      let minted = assets * (supply + offset) / (total + offset) in
      let quote = rw s at (deposit-quote h from (pos assets) w t e) in
      let shares_eq = pro_rata_exact assets supply total quote in
      (
        shares_eq,
        rw (deposit-storage h from (pos assets) w e, s, shares_eq) (pos-+ℤ supply minted),
        total_assets-deposit h from (pos assets) w laws ne t e t' ∙ pos-+ℤ total assets,
        mint_price assets supply total,
      )

  -- What the shares of a redemption are worth, and what it takes off the supply.
  redeem-quote :
      (from : Address) (shares supply total : ℕ) (w : World X) {assets : ℤ} {w' : World X}
      → shares ≤ supply
      → get_total_supply w.storage ≡ pos supply
      → total_assets h w ≡ ok (pos total)
      → redeem h from (pos shares) w ≡ ok (assets, w')
      → (assets ≡ pos (shares * (total + offset) / (supply + offset)))
        × (get_total_supply w'.storage ≡ pos (supply - shares))
  unfolding convert_to_assets
  redeem-quote from shares supply total w le s t e =
      let quote = rw (t, s) at (redeem-pays h from (pos shares) w e).0 in
      (
        pro_rata_exact shares total supply quote,
        rw (redeem-storage h from (pos shares) w e, s) (pos--ℤ supply shares le),
      )

  -- Of nonnegative totals and supply, where the token moves exactly what it is told to and the
  -- strategies, listed once each, pay the vault what they return: a redemption, by someone other
  -- than the vault, of no more shares than there are has the token transfer to the holder what the
  -- shares are worth, rounded down, and takes the shares off the holder and the supply; the total
  -- assets fall by no more than is paid, and the price of a share does not fall.
  pub redeem_price :
      (from asset : Address) (shares supply total total' : ℕ) (w : World X) {assets : ℤ}
      {w' : World X}
      → TokenLaws h.token
      → WithdrawLaws h asset w.self
      → IsDistinct (get_strategies w.storage)
      → from ≢ w.self
      → w.storage.asset ≡ some asset
      → shares ≤ supply
      → get_total_supply w.storage ≡ pos supply
      → total_assets h w ≡ ok (pos total)
      → redeem h from (pos shares) w ≡ ok (assets, w')
      → total_assets h w' ≡ ok (pos total')
      → let paid = shares * (total + offset) / (supply + offset) in
        (assets ≡ pos paid)
        × PaysOut h from (pos shares) (pos paid) w w'
        × (get_total_supply w'.storage ≡ pos (supply - shares))
        × (total ≤ total' + paid)
        × ((total + offset) * (supply - shares + offset) ≤ (total' + offset) * (supply + offset))
  redeem_price from asset shares supply total total' w token strategies distinct ne a le s t e t' =
      let paid = shares * (total + offset) / (supply + offset) in
      let quote = redeem-quote from shares supply total w le s t e in
      let runs = rw quote.0 at e in
      let kept =
        total_assets-redeem h from asset (pos shares) w token strategies distinct ne a t runs t' in
      let fell : total ≤ total' + paid = omega (arith, rw (pos-+ℤ total' paid) at kept) in
      let price = payout_price shares supply total le in
      let same : supply - shares + offset ≡ supply + offset - shares = omega (arith, le) in
      let least =
        mul_le (total + offset - paid) (total' + offset) (supply + offset) (omega (arith, fell)) in
      (
        quote.0,
        redeem-PaysOut h from (pos shares) w runs,
        quote.1,
        fell,
        rw same (omega (arith, price.1, least)),
      )

  -- Of nonnegative totals and supply, where the token moves exactly what it is told to and the
  -- strategies pay the vault what they return: the shares of a deposit by someone other than the
  -- vault, redeemed before anything else happens, pay at most the deposit. That is what the token
  -- transfers from the vault to the depositor, and the total assets are afterwards at least what
  -- they were before the deposit. The strategies are listed once each.
  pub deposit-redeem_le :
      (from asset : Address) (assets supply total : ℕ) (w : World X)
      {shares total' total'' paid : ℤ} {w' w'' : World X}
      → TokenLaws h.token
      → WithdrawLaws h asset w.self
      → IsDistinct (get_strategies w.storage)
      → from ≢ w.self
      → w.storage.asset ≡ some asset
      → get_total_supply w.storage ≡ pos supply
      → total_assets h w ≡ ok (pos total)
      → deposit h from (pos assets) w ≡ ok (shares, w')
      → total_assets h w' ≡ ok total'
      → redeem h from shares w' ≡ ok (paid, w'')
      → total_assets h w'' ≡ ok total''
      → (paid ≤ℤ pos assets) × PaysOut h from shares paid w' w'' × (pos total ≤ℤ total'')
  deposit-redeem_le from asset assets supply total w {shares} {total''} {paid} {w'} {w''} token
        strategies distinct ne a s t e t' e' t'' =
      let minted = assets * (supply + offset) / (total + offset) in
      let after = deposit_price from assets supply total w token ne s t e t' in
      let eq = deposit-storage h from (pos assets) w e in
      let (_, _, _, _, _, self, _) = deposit-moves h from (pos assets) w e in
      let back =
        redeem-quote from minted (supply + minted) (total + assets) w' (omega arith) after.1
          (rw after.2 at t') (rw after.0 at e') in
      let least : paid ≤ℤ pos assets = rw back.0 (omega (arith, round_trip assets supply total)) in
      let kept =
        total_assets-redeem h from asset shares w' token (rw self strategies) (rw eq distinct)
          (rw self ne) (rw eq a) (rw after.2 at t') e' t'' in
      (
        least,
        redeem-PaysOut h from shares w' e',
        grind (int_laws, kept, least, pos-+ℤ total assets),
      )
