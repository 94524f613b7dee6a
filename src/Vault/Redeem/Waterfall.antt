-- ===== src/Vault/Redeem/Waterfall.antt =====
-- The loop of `redeem` over strategies that keep their promise of liquidity is the plain recursion.
use tezoro_yield_aggregator.Base.{
  ℕ, zero, suc, min, inl, inr, ◌-◌, ◌≤◌, ◌<◌, ◌≡◌, refl, ltb, if◌then◌else◌, List, [], ◌∷◌, arith,
}
use tezoro_yield_aggregator.Base.Int.{ℤ, pos, pos_part, pos--ℤ}
use tezoro_yield_aggregator.Base.Map.{Address, balance, lookup-insert}
use tezoro_yield_aggregator.Base.Outcome.{ok}
use tezoro_yield_aggregator.Base.Words
use tezoro_yield_aggregator.Base.Words.{i128_bound}
use tezoro_yield_aggregator.Common.{Chain}
use tezoro_yield_aggregator.Vault.State.{World}
use tezoro_yield_aggregator.Vault.Store.{get_tracked_balance}
use tezoro_yield_aggregator.Vault.Redeem.{
  tracked_after, remaining_after, untrack, pull, pull_from, waterfall,
}
use tezoro_yield_aggregator.Vault.Redeem.Liquidity.{
  LiquidityLaws, InRange, after_pull, drained, drained-nil, drained-passes, drained-pulls,
  drained-zero, zero_or_positive,
}

module _ {X : Type 0} {h : Chain X} {asset self : Address} {Ready : List Address → X → Type 0}
    (laws : LiquidityLaws h asset self Ready) where
  pull_from-pays :
      (s : Address) (ids : List Address) (remaining n : ℕ) (w : World X)
      → w.self ≡ self
      → Ready (s ∷ ids) w.chain
      → InRange w.storage.tracked_balance
      → remaining < i128_bound
      → 0 < n
      → n ≡ min remaining (laws.available s w.chain)
      → pull_from h s (pos remaining) w ≡ ok (pos (remaining - n), after_pull laws s n w)
  unfolding pull_from pull untrack tracked_after remaining_after Words.sub
  pull_from-pays s ids remaining n w eq ready range small lt least = ground (
    arith,
    range s,
    laws.quoted s ids w.chain ready,
    laws.honoured s ids n w.chain ready lt,
    pos--ℤ remaining n,
    pos--ℤ (pos_part (get_tracked_balance w.storage s)) n,
  )

  after_pull-InRange :
      (s : Address) (n : ℕ) (w : World X)
      → InRange w.storage.tracked_balance
      → InRange (after_pull laws s n w).storage.tracked_balance
  after_pull-InRange s n w range a =
      let tracked = w.storage.tracked_balance in
      let left =
        if ltb n (pos_part (balance s tracked))
        then pos (pos_part (balance s tracked) - n)
        else pos 0 in
      ground (arith, range a, range s, lookup-insert a s left tracked)

  pull_from-passes :
      (s : Address) (ids : List Address) (remaining : ℤ) (w : World X)
      → Ready (s ∷ ids) w.chain
      → laws.available s w.chain ≡ 0
      → pull_from h s remaining w ≡ ok (remaining, w)
  unfolding pull_from
  pull_from-passes s ids remaining w ready e = ground (arith, laws.quoted s ids w.chain ready)

  waterfall-pull_from :
      (s : Address) (strategies : List Address) (remaining : ℕ) (w : World X) {left : ℤ}
      {w' : World X}
      → 0 < remaining
      → pull_from h s (pos remaining) w ≡ ok (left, w')
      → waterfall h (s ∷ strategies) (pos remaining) w ≡ waterfall h strategies left w'
  unfolding waterfall
  waterfall-pull_from s strategies remaining w lt e = ground arith

  waterfall-zero :
      (strategies : List Address) (w : World X) → waterfall h strategies (pos 0) w ≡ ok (tt, w)
  unfolding waterfall
  waterfall-zero [] w = refl
  waterfall-zero (s ∷ strategies) w = refl

  -- The loop of `redeem`, with its early exits, returns, in the state of the plain recursion where
  -- each strategy in its turn gives the smaller of what is missing and what it has: for strategies
  -- that honour their quotes, and amounts within `i128`.
  pub waterfall-drained :
      (strategies : List Address) (missing : ℕ) (w : World X)
      → w.self ≡ self
      → Ready strategies w.chain
      → InRange w.storage.tracked_balance
      → missing < i128_bound
      → waterfall h strategies (pos missing) w ≡ ok (tt, drained laws strategies missing w)
  unfolding waterfall
  waterfall-drained [] missing w eq ready range small = cc (drained-nil laws missing w)
  waterfall-drained (s ∷ strategies) zero w eq ready range small =
      cc (waterfall-zero (s ∷ strategies) w, drained-zero laws (s ∷ strategies) w)
  waterfall-drained (s ∷ strategies) (suc r) w eq ready range small =
      elim (zero_or_positive (laws.available s w.chain)) [
        | inl none_there ↦ cc (
          waterfall-pull_from s strategies (suc r) w (omega arith)
              (pull_from-passes s strategies (pos (suc r)) w ready none_there),
          waterfall-drained strategies (suc r) w eq (laws.skips s strategies w.chain ready) range
              small,
          drained-passes laws s strategies (suc r) w (ground arith),
        )
        | inr some_there ↦
            (let there = laws.available s w.chain in
              let n = min (suc r) there in
              let positive : 0 < n = ground arith in
              let fits : n ≤ there = ground arith in
              let pulled =
                pull_from-pays s strategies (suc r) n w eq ready range small positive refl in
              cc (
                waterfall-pull_from s strategies (suc r) w (omega arith) pulled,
                waterfall-drained strategies (suc r - n) (after_pull laws s n w) eq
                    (laws.stays s strategies n w.chain ready positive fits)
                    (after_pull-InRange s n w range) (omega (arith, small)),
                drained-pulls laws s strategies (suc r) n w refl positive,
              ))
      ]
