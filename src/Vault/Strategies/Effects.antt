-- ===== src/Vault/Strategies/Effects.antt =====
-- What `allocate` says of its caller when it returns, and a `deallocate` that returns.
use tezoro_yield_aggregator.Base.{ℕ, ◌+◌, ◌<◌, ◌≡◌, true, some, ◌∷◌, arith}
use tezoro_yield_aggregator.Base.Int.{pos, pos-+ℤ, pos--ℤ}
use tezoro_yield_aggregator.Base.Map.{Address}
use tezoro_yield_aggregator.Base.Outcome.{ok}
use tezoro_yield_aggregator.Base.Words
use tezoro_yield_aggregator.Base.Words.{i128_bound}
use tezoro_yield_aggregator.Common.{Chain}
use tezoro_yield_aggregator.Vault.State.{World, Event}
use tezoro_yield_aggregator.Vault.Store.{
  contains, get_strategies, get_tracked_balance, set_tracked_balance,
}
use tezoro_yield_aggregator.Vault.Strategies.{allocate, deallocate}
use tezoro_yield_aggregator.Vault.Redeem.{untrack, tracked_after}

module _ {X : Type 0} (h : Chain X) where
  -- What an allocation that returned says of its caller and its amount.
  pub allocate-caller :
      (keeper strategy : Address) (amount tracked : ℕ) (w : World X) {w' : World X}
      → get_tracked_balance w.storage strategy ≡ pos tracked
      → allocate h keeper strategy (pos amount) w ≡ ok (tt, w')
      → (w'.authorized keeper ≡ true)
        × (w'.storage.keeper ≡ some keeper)
        × (0 < amount)
        × (tracked + amount < i128_bound)
  unfolding allocate Words.add
  allocate-caller keeper strategy amount tracked w e run = ground (arith, pos-+ℤ tracked amount)

  pub deallocate-runs :
      (keeper strategy : Address) (amount tracked : ℕ) (w : World X) {x : X}
      → w.authorized keeper ≡ true
      → w.storage.keeper ≡ some keeper
      → 0 < amount
      → contains strategy (get_strategies w.storage) ≡ true
      → (h.strategy strategy).withdraw w.self (pos amount) w.chain ≡ ok (pos amount, x)
      → get_tracked_balance w.storage strategy ≡ pos (tracked + amount)
      → tracked + amount < i128_bound
      → deallocate h keeper strategy (pos amount) w
        ≡ ok (
          pos amount,
          record w {
            storage = set_tracked_balance strategy (pos tracked) w.storage;
            chain = x;
            events = Event.deallocate strategy (pos amount) ∷ w.events;
          },
        )
  unfolding deallocate untrack tracked_after Words.sub
  deallocate-runs keeper strategy amount tracked w auth role gt listed paid old small =
      ground (arith, pos--ℤ (tracked + amount) amount)
