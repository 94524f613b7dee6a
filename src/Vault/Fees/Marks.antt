-- ===== src/Vault/Fees/Marks.antt =====
-- The high-water mark and the fee of `collect_fees`.
use tezoro_yield_aggregator.Vault.Pricing.Rounding.{
  offset, mul_div_exact, pro_rata_exact, div_bounds, mul_le,
}
use tezoro_yield_aggregator.Base.{
  ℕ, ◌<◌, ◌+◌, ◌-◌, ◌≤◌, ◌*◌, ◌/◌, ◌≡◌, refl, ap, List, [], ◌∷◌, true, arith,
}
use tezoro_yield_aggregator.Base.Int.{ℤ, pos, ◌+ℤ◌, pos--ℤ, pos-+ℤ}
use tezoro_yield_aggregator.Base.Map.{Address, balance}
use tezoro_yield_aggregator.Base.Outcome.{ok, err, value_or, ◌>>=◌}
use tezoro_yield_aggregator.Base.Words
use tezoro_yield_aggregator.Common.{Chain, max_bps}
use tezoro_yield_aggregator.Vault.State.{Storage, World, no_fees_to_collect}
use tezoro_yield_aggregator.Vault.Store.{
  get_strategies, is_initialized, get_total_supply, get_high_water_mark, get_performance_fee_bps,
  nav_precision,
}
use tezoro_yield_aggregator.Vault.Assets.{
  total_assets, idle_balance, sum_tracked, effective_bridged_balance, mul_div,
}
use tezoro_yield_aggregator.Vault.Fees.{collect_fees}
use tezoro_yield_aggregator.Vault.Fees.Effects.{collect_fees-storage}

sum_tracked-agree :
    (s s' : Storage) (acc : ℤ) (strategies : List Address)
    → s'.tracked_balance ≡ s.tracked_balance
    → sum_tracked s' acc strategies ≡ sum_tracked s acc strategies
unfolding sum_tracked
sum_tracked-agree s s' acc [] e = refl
sum_tracked-agree s s' acc (x ∷ strategies) e = rw e (
    ap (λ next. ◌>>=◌ {B = ℤ} (Words.add acc (balance x s.tracked_balance)) next)
      (λ i acc'. sum_tracked-agree s s' acc' strategies e i))

module _ {X : Type 0} (h : Chain X) where
  -- What the fee is reckoned from.
  collect_fees-quote :
      (w : World X) {fee_shares : ℤ} {w' : World X}
      → collect_fees h w ≡ ok (fee_shares, w')
      → let total = value_or (pos 0) (total_assets h w) in
        let supply = get_total_supply w.storage in
        (total_assets h w ≡ ok total)
        × (mul_div total nav_precision (supply +ℤ fee_shares) ≡ ok (get_high_water_mark w'.storage))
        × (w'.chain ≡ w.chain)
        × (w'.timestamp ≡ w.timestamp)
        × (w'.self ≡ w.self)
        × (is_initialized w'.storage ≡ true)
  unfolding collect_fees Words.add
  collect_fees-quote w e = ground arith

  -- Minting fee shares moves no assets.
  collect_fees-total_assets :
      (w : World X) {fee_shares : ℤ} {w' : World X}
      → collect_fees h w ≡ ok (fee_shares, w')
      → total_assets h w' ≡ total_assets h w
  unfolding total_assets idle_balance effective_bridged_balance
  collect_fees-total_assets w {w' = w'} e =
      let eq = collect_fees-storage h w e in
      let (_, _, chain, time, self, _) = collect_fees-quote w e in
      let s = w.storage in
      let tracked : w'.storage.tracked_balance ≡ s.tracked_balance =
        ap (λ (st : Storage). st.tracked_balance) eq.2 in
      let sum = sum_tracked-agree s w'.storage (pos 0) (get_strategies w'.storage) tracked in
      rw (sum, eq.2, chain, time, self) refl

  -- After a collection another one, before anything else happens, finds no fees to collect.
  pub collect_fees-collect_fees :
      (w : World X) {fee_shares : ℤ} {w' : World X}
      → collect_fees h w ≡ ok (fee_shares, w')
      → collect_fees h w' ≡ err no_fees_to_collect
  unfolding collect_fees
  collect_fees-collect_fees w {w' = w'} e =
      let (total, marked, _, _, _, init) = collect_fees-quote w e in
      let same = collect_fees-total_assets w e in
      ground (arith, ap (λ (st : Storage). get_total_supply st) (collect_fees-storage h w e).2)

-- `NAV_PRECISION`
abbrev pub precision : ℕ
precision = 10_000_000

-- What the shares of supply `supply` are worth at the mark `mark`.
abbrev pub at_mark : ℕ → ℕ → ℕ
at_mark mark supply = mark * supply / precision

pub worth_at_mark :
    (total supply mark : ℕ) → mark < total * precision / supply → mark * supply ≤ total * precision
worth_at_mark total supply mark h = grind arith

pub mark_below :
    (total supply mark : ℕ) → mark < total * precision / supply → at_mark mark supply ≤ total
mark_below total supply mark h = let fits = worth_at_mark total supply mark h in grind arith

module _ {X : Type 0} (h : Chain X) where
  pub collect_fees-above_mark :
      (w : World X) (total supply mark : ℕ) {fee_shares : ℤ} {w' : World X}
      → total_assets h w ≡ ok (pos total)
      → get_total_supply w.storage ≡ pos supply
      → get_high_water_mark w.storage ≡ pos mark
      → collect_fees h w ≡ ok (fee_shares, w')
      → mark < total * precision / supply
  unfolding collect_fees
  collect_fees-above_mark w total supply mark t s m e =
      let nav : ℤ =
        value_or (pos 0) (mul_div (pos total) nav_precision (get_total_supply w.storage)) in
      ground (arith, mul_div_exact total precision supply {r = nav})

  pub collect_fees-fee :
      (w : World X) (total supply mark : ℕ) {fee_shares : ℤ} {w' : World X}
      → total_assets h w ≡ ok (pos total)
      → get_total_supply w.storage ≡ pos supply
      → get_high_water_mark w.storage ≡ pos mark
      → collect_fees h w ≡ ok (fee_shares, w')
      → at_mark mark supply ≤ total
      → fee_shares
        ≡ pos (
            (total - at_mark mark supply)
            * get_performance_fee_bps w.storage
            / max_bps
            * (supply + offset)
            / (total + offset))
  unfolding collect_fees Words.sub
  collect_fees-fee w total supply mark {fee_shares} t s m e le =
      let bps = get_performance_fee_bps w.storage in
      let yield = total - at_mark mark supply in
      let base : ℤ = value_or (pos 0) (mul_div (pos mark) (pos supply) nav_precision) in
      let fee : ℤ = value_or (pos 0) (mul_div (pos yield) (pos bps) (pos max_bps)) in
      ground (
        arith,
        mul_div_exact mark supply precision {r = base},
        pos--ℤ total (at_mark mark supply) le,
        mul_div_exact yield bps max_bps {r = fee},
        pro_rata_exact (yield * bps / max_bps) supply total {r = fee_shares},
      )

two_divisions : (a b m s t : ℕ) → 0 < m → 0 < t → a * b / m * s / t * t * m ≤ a * b * s
two_divisions a b m s t hm ht =
    let q = a * b / m in
    let outer = mul_le (q * s / t * t) (q * s) m (div_bounds (q * s) t ht).0 in
    let inner = mul_le (q * m) (a * b) s (div_bounds (a * b) m hm).0 in
    let swap : q * s * m ≡ q * m * s = omega arith in omega (arith, outer, inner, swap)

module _ {X : Type 0} (h : Chain X) where
  -- Of nonnegative total assets, supply and mark: fees are collected only if a share is worth more
  -- than the mark; the fee shares are worth, at the price before, at most the performance fee of
  -- what the assets exceed the mark's worth of the supply; they are added to the supply, and the
  -- new mark is what a share is worth afterwards.
  pub collect_fees_bound :
      (w : World X) (total supply mark fee_shares : ℕ) {w' : World X}
      → total_assets h w ≡ ok (pos total)
      → get_total_supply w.storage ≡ pos supply
      → get_high_water_mark w.storage ≡ pos mark
      → collect_fees h w ≡ ok (pos fee_shares, w')
      → (mark < total * precision / supply)
        × (fee_shares * (total + offset) * max_bps
            ≤ (total - at_mark mark supply) * get_performance_fee_bps w.storage * (supply + offset))
        × (get_total_supply w'.storage ≡ pos (supply + fee_shares))
        × (get_high_water_mark w'.storage ≡ pos (total * precision / (supply + fee_shares)))
  collect_fees_bound w total supply mark fee_shares {w' = w'} t s m e =
      let above = collect_fees-above_mark h w total supply mark t s m e in
      let fee =
        collect_fees-fee h w total supply mark t s m e (mark_below total supply mark above) in
      let minted = ap (λ (st : Storage). get_total_supply st) (collect_fees-storage h w e).2 in
      let quote = collect_fees-quote h w e in
      (
        above,
        grind (
          arith,
          two_divisions (total - at_mark mark supply) (get_performance_fee_bps w.storage) max_bps
              (supply + offset) (total + offset) (omega arith) (omega arith),
        ),
        ground (arith, minted, pos-+ℤ supply fee_shares),
        mul_div_exact total precision (supply + fee_shares)
            (ground (arith, quote.1, quote.0, pos-+ℤ supply fee_shares)),
      )
