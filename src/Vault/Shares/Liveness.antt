-- ===== src/Vault/Shares/Liveness.antt =====
-- A deposit succeeds when the vault is open and the amounts stay within `i128`.
use tezoro_yield_aggregator.Base.{
  ℕ, ◌+◌, ◌*◌, ◌/◌, ◌≤◌, ◌<◌, ◌≡◌, ◌⊎◌, true, false, some, ◌∷◌, arith,
}
use tezoro_yield_aggregator.Base.Int.{ℤ, pos, ◌≤ℤ◌, pos-+ℤ, pos-*ℤ, pos-/ℤ}
use tezoro_yield_aggregator.Base.Map.{Address}
use tezoro_yield_aggregator.Base.Outcome.{ok}
use tezoro_yield_aggregator.Base.Words
use tezoro_yield_aggregator.Base.Words.{i128_bound}
use tezoro_yield_aggregator.Common.{Chain}
use tezoro_yield_aggregator.Vault.State.{World, Event}
use tezoro_yield_aggregator.Vault.Store.{
  get_deposit_cap, get_share_balance, get_total_supply, is_initialized, is_paused, set_total_supply,
  set_share_balance,
}
use tezoro_yield_aggregator.Vault.Soundness.{IsTracked}
use tezoro_yield_aggregator.Vault.Assets.{pro_rata}
use tezoro_yield_aggregator.Vault.Pricing.Totals.{elsewhere, total_assets-returns}
use tezoro_yield_aggregator.Vault.Shares.{deposit, cap_exceeded}

le-div :
    (amount numerator denominator : ℕ)
    → amount * (numerator + 1_000_000) / (denominator + 1_000_000)
      ≤ amount * (numerator + 1_000_000)
le-div amount numerator denominator = grind arith

-- `pro_rata` on natural numbers that stay within `i128`.
pub pro_rata-returns :
    (amount numerator denominator : ℕ)
    → amount * (numerator + 1_000_000) < i128_bound
    → numerator + 1_000_000 < i128_bound
    → denominator + 1_000_000 < i128_bound
    → pro_rata (pos amount) (pos numerator) (pos denominator)
      ≡ ok (pos (amount * (numerator + 1_000_000) / (denominator + 1_000_000)))
unfolding pro_rata Words.add Words.mul Words.div
pro_rata-returns amount numerator denominator lt lt' lt'' = ground (
  arith,
  pos-+ℤ numerator 1_000_000,
  pos-+ℤ denominator 1_000_000,
  pos-*ℤ amount (numerator + 1_000_000),
  pos-/ℤ (amount * (numerator + 1_000_000)) (denominator + 1_000_000),
  le-div amount numerator denominator,
)

cap_exceeded-fits :
    (cap : ℤ) (total assets : ℕ)
    → total + assets < i128_bound
    → (cap ≡ pos 0) ⊎ (pos (total + assets) ≤ℤ cap)
    → cap_exceeded cap (pos total) (pos assets) ≡ ok false
unfolding cap_exceeded Words.add
cap_exceeded-fits cap total assets lt fits = ground (arith, pos-+ℤ total assets, fits)

module _ {X : Type 0} (h : Chain X) where
  -- A deposit that is authorised, positive, covered by the depositor's tokens and within the cap
  -- returns, with the shares that it is worth, in a vault that is initialised and not paused: for
  -- records that are not negative, amounts and products that stay within `i128`, and assets that
  -- are worth at least one share.
  pub deposit-returns :
      (from asset : Address) (assets idle supply owned shares : ℕ) (w : World X) {x : X}
      → IsTracked w.storage
      → w.authorized from ≡ true
      → is_initialized w.storage ≡ true
      → is_paused w.storage ≡ false
      → w.storage.asset ≡ some asset
      → h.token.balance asset w.self w.chain ≡ pos idle
      → get_total_supply w.storage ≡ pos supply
      → get_share_balance w.storage from ≡ pos owned
      → 0 < assets
      → idle + elsewhere w.storage w.timestamp + assets + 1_000_000 < i128_bound
      → assets * (supply + 1_000_000) < i128_bound
      → (get_deposit_cap w.storage ≡ pos 0)
        ⊎ (pos (idle + elsewhere w.storage w.timestamp + assets) ≤ℤ get_deposit_cap w.storage)
      → shares
        ≡ assets * (supply + 1_000_000) / (idle + elsewhere w.storage w.timestamp + 1_000_000)
      → 0 < shares
      → owned + shares < i128_bound
      → supply + shares < i128_bound
      → h.token.transfer asset from w.self (pos assets) w.chain ≡ some x
      → (w' : World X) × (deposit h from (pos assets) w ≡ ok (pos shares, w'))
  unfolding deposit Words.add
  deposit-returns from asset assets idle supply owned shares w {x} t auth init active a held sup own
        gt small product fits quote positive small' small'' sent =
      let total = idle + elsewhere w.storage w.timestamp in
      let worth = total_assets-returns h w asset idle t a held (omega (arith, small)) in
      let fits' =
        cap_exceeded-fits (get_deposit_cap w.storage) total assets (omega (arith, small)) fits in
      let priced =
        pro_rata-returns assets supply total product (grind arith) (omega (arith, small)) in
      (
        record w {
          storage =
              set_total_supply (pos (supply + shares))
                (set_share_balance from (pos (owned + shares)) w.storage);
          chain = x;
          events = Event.deposit from (pos assets) (pos shares) ∷ w.events;
        },
        ground (
          arith,
          worth,
          fits',
          priced,
          quote,
          a,
          sent,
          pos-+ℤ owned shares,
          pos-+ℤ supply shares,
        ),
      )
