-- ===== src/Blend/Health.antt =====
-- What `is_healthy` of contracts/contracts/blend-strategy/src/lib.rs decides.
use tezoro_yield_aggregator.Base.{
  ℕ, ◌*◌, ◌/◌, ◌≤◌, ◌≡◌, ◌⊎◌, ◌↔◌, Bool, true, Option, none, some, arith,
}
use tezoro_yield_aggregator.Base.Int.{ℤ, pos, pos_part, ◌≤ℤ◌, pos-*ℤ, pos-/ℤ}
use tezoro_yield_aggregator.Base.Outcome.{ok, value_or}
use tezoro_yield_aggregator.Base.Words
use tezoro_yield_aggregator.Strategy.{Contract}
use tezoro_yield_aggregator.Blend.State.{
  Storage, Event, get_max_utilization_bps, get_min_backstop_bps,
}
use tezoro_yield_aggregator.Blend.Pool.{Services, Reserve}
use tezoro_yield_aggregator.Blend.Quotes.{
  is_healthy, health_of, reserve_healthy, utilization_ok, coverage_ok, ratio_bps,
}
use tezoro_yield_aggregator.Blend.Funds.{reserve_of}

-- The reserve has no bad debt; if bTokens are out, then the dTokens are no more than the permitted
-- share of their number and the backstop's credit is at least the share of their number that is asked
-- for. These are counts of tokens: what the tokens are worth, by the rates of the reserve, does not
-- enter.
abbrev pub IsHealthy : Storage → Option Reserve → ℕ → ℕ → Type 0
IsHealthy st none b_supply d_supply = ⊥
IsHealthy st (some r) b_supply d_supply =
    (pos 0 ≤ℤ r.backstop_credit)
    × ((b_supply ≡ 0)
        ⊎ ((d_supply * 10_000 / b_supply ≤ get_max_utilization_bps st)
            × (get_min_backstop_bps st ≤ pos_part r.backstop_credit * 10_000 / b_supply)))

ratio_bps-exact : (a b : ℕ) {q : ℤ} → ratio_bps (pos a) (pos b) ≡ ok q → q ≡ pos (a * 10_000 / b)
unfolding ratio_bps Words.mul Words.div
ratio_bps-exact a b e = ground (arith, pos-*ℤ a 10_000, pos-/ℤ (a * 10_000) b)

reserve_healthy-exact :
    (st : Storage) (r : Reserve) (b_supply d_supply : ℕ) {healthy : Bool}
    → r.b_supply ≡ pos b_supply
    → r.d_supply ≡ pos d_supply
    → reserve_healthy st r ≡ ok healthy
    → (healthy ≡ true) ↔ IsHealthy st (some r) b_supply d_supply
unfolding reserve_healthy utilization_ok coverage_ok
reserve_healthy-exact st r b_supply d_supply {healthy} b d e =
    let credit = r.backstop_credit in
    ground (
      arith,
      ratio_bps-exact d_supply b_supply {q = value_or (pos 0) (ratio_bps r.d_supply r.b_supply)},
      ratio_bps-exact (pos_part credit) b_supply
          {q = value_or (pos 0) (ratio_bps credit r.b_supply)},
    )

abbrev pub Supplies : Option Reserve → ℕ → ℕ → Type 0
Supplies none b_supply d_supply = Unit
Supplies (some r) b_supply d_supply = (r.b_supply ≡ pos b_supply) × (r.d_supply ≡ pos d_supply)

health_of-exact :
    (st : Storage) (read : Option Reserve) (b_supply d_supply : ℕ) {healthy : Bool}
    → Supplies read b_supply d_supply
    → health_of st read ≡ ok healthy
    → (healthy ≡ true) ↔ IsHealthy st read b_supply d_supply
unfolding health_of
health_of-exact st none b_supply d_supply reads e = ground arith
health_of-exact st (some r) b_supply d_supply reads e =
    reserve_healthy-exact st r b_supply d_supply reads.0 reads.1 e

module _ {X : Type 0} (s : Services X) where
  -- The adapter reports a pool as healthy exactly if the reserve can be read, has no bad debt and,
  -- if there are bTokens, the count of dTokens is at most the maximal utilization, and the backstop's
  -- credit at least the minimal coverage, of the count of bTokens, both in basis points rounded down.
  -- The counts are compared as they are, whatever the rates say that the two tokens are worth.
  pub is_healthy-exact :
      (w : Contract Storage Event X) (b_supply d_supply : ℕ) {healthy : Bool}
      → Supplies (reserve_of s w) b_supply d_supply
      → is_healthy s w ≡ ok healthy
      → (healthy ≡ true) ↔ IsHealthy w.storage (reserve_of s w) b_supply d_supply
  unfolding is_healthy
  is_healthy-exact w b_supply d_supply {healthy} reads e =
      health_of-exact w.storage (reserve_of s w) b_supply d_supply reads (ground arith)
