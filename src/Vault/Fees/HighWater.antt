-- ===== src/Vault/Fees/HighWater.antt =====
-- The high-water mark of `collect_fees`, from one collection to the next.
use tezoro_yield_aggregator.Base.{ℕ, ◌<◌, ◌+◌, ◌-◌, ◌≤◌, ◌*◌, ◌/◌, ◌≡◌, arith}
use tezoro_yield_aggregator.Base.Int.{pos, ◌≤ℤ◌}
use tezoro_yield_aggregator.Base.Outcome.{ok}
use tezoro_yield_aggregator.Common.{Chain, max_bps}
use tezoro_yield_aggregator.Vault.State.{World}
use tezoro_yield_aggregator.Vault.Store.{
  get_total_supply, get_high_water_mark, get_performance_fee_bps,
}
use tezoro_yield_aggregator.Vault.Assets.{total_assets}
use tezoro_yield_aggregator.Vault.Admin.{max_performance_fee_bps}
use tezoro_yield_aggregator.Vault.Pricing.Rounding.{offset, div_bounds, mul_le}
use tezoro_yield_aggregator.Vault.Fees.{collect_fees}
use tezoro_yield_aggregator.Vault.Fees.Marks.{
  precision, at_mark, mark_below, worth_at_mark, collect_fees-fee, collect_fees_bound,
}

cancel : (a b c : ℕ) → 0 < c → a * c ≤ b * c → a ≤ b
cancel a b c pos_c h = grind arith

le_quotient : (a b c : ℕ) → 0 < c → a * c ≤ b → a ≤ b / c
le_quotient a b c pos_c h = grind arith

mul_le_both : (a b c d : ℕ) → a ≤ b → c ≤ d → a * c ≤ b * d
mul_le_both a b c d h k = omega (arith, mul_le a b c h, mul_le c d b k)

-- A fee of at most three tenths of the yield, at no more than twice the shares that the yield would
-- be worth at the mark, is worth no more at the mark than the assets over it.
fee_le_over :
    (total supply mark over fee yield bps : ℕ)
    → offset ≤ supply
    → bps ≤ max_performance_fee_bps
    → 4 ≤ yield
    → mark * supply + over ≡ total * precision
    → yield * precision ≤ over + precision
    → fee * (total + offset) * max_bps ≤ yield * bps * (supply + offset)
    → mark * fee ≤ over
fee_le_over total supply mark over fee yield bps many capped enough below yielded fee_le =
    let rate = mul_le_both yield yield bps 3_000 (omega arith) capped in
    let shares =
      mul_le_both (yield * bps) (yield * 3_000) (supply + offset) (2 * supply) rate
        (omega (arith, many)) in
    let at_most =
      mul_le (fee * (total + offset) * max_bps) (yield * 3_000 * (2 * supply)) mark
        (omega (arith, fee_le, shares)) in
    let worth = mul_le (mark * supply) (total * precision) yield (omega (arith, below)) in
    let margin =
      mul_le (3 * (yield * precision)) (4 * over) total (omega (arith, yielded, enough)) in
    cancel (mark * fee) over ((total + offset) * max_bps) (omega arith)
      (omega (arith, at_most, worth, margin))

yield_ge :
    (yield bps n d : ℕ)
    → bps ≤ max_performance_fee_bps
    → 0 < yield * bps / max_bps * n / d
    → 4 ≤ yield
yield_ge yield bps n d capped some_fee =
    let rate = mul_le_both yield yield bps 3_000 (omega arith) capped in grind (arith, rate)

yield_le :
    (total mark supply : ℕ)
    → mark * supply ≤ total * precision
    → at_mark mark supply ≤ total
    → (total - at_mark mark supply) * precision ≤ total * precision - mark * supply + precision
yield_le total mark supply below le =
    omega (arith, (div_bounds (mark * supply) precision (omega arith)).1, below, le)

module _ {X : Type 0} (h : Chain X) where
  collect_fees-positive :
      (w : World X) (fee_shares : ℕ) {w' : World X}
      → collect_fees h w ≡ ok (pos fee_shares, w')
      → 0 < fee_shares
  unfolding collect_fees
  collect_fees-positive w fee_shares e = ground arith

  -- Of nonnegative total assets, supply and mark: with a supply of at least the virtual shares, and a
  -- fee within the limit, a collection of fees never lowers the high-water mark, although it dilutes
  -- the shares.
  pub collect_fees-rises :
      (w : World X) (total supply mark fee_shares : ℕ) {w' : World X}
      → total_assets h w ≡ ok (pos total)
      → get_total_supply w.storage ≡ pos supply
      → get_high_water_mark w.storage ≡ pos mark
      → offset ≤ supply
      → get_performance_fee_bps w.storage ≤ max_performance_fee_bps
      → collect_fees h w ≡ ok (pos fee_shares, w')
      → get_high_water_mark w.storage ≤ℤ get_high_water_mark w'.storage
  collect_fees-rises w total supply mark fee_shares {w' = w'} t s m many capped e =
      let bps = get_performance_fee_bps w.storage in
      let over = total * precision - mark * supply in
      let (above, charged, _, marked) =
        collect_fees_bound h w total supply mark fee_shares t s m e in
      let le = mark_below total supply mark above in
      let fee = collect_fees-fee h w total supply mark t s m e le in
      let below : mark * supply ≤ total * precision = worth_at_mark total supply mark above in
      let enough : 4 ≤ total - at_mark mark supply =
        yield_ge (total - at_mark mark supply) bps (supply + offset) (total + offset) capped
          (ground (arith, fee, collect_fees-positive w fee_shares e)) in
      let worth =
        fee_le_over total supply mark over fee_shares (total - at_mark mark supply) bps many capped
          enough (omega (arith, below)) (yield_le total mark supply below le) charged in
      let fits =
        le_quotient mark (total * precision) (supply + fee_shares) (omega (arith, many))
          (omega (arith, worth, below)) in
      rw (m, marked) (omega (arith, fits))
