-- ===== src/Mock/Promises.antt =====
-- The mock strategy of contracts/contracts/mock-strategy/src/lib.rs keeps what the vault relies on.
use tezoro_yield_aggregator.Base.{ℕ, ◌-◌, ◌≤◌, ◌<◌, ◌≡◌, refl, true, some, ◌∷◌, arith}
use tezoro_yield_aggregator.Base.Int.{pos, pos--ℤ}
use tezoro_yield_aggregator.Base.Map.{Address}
use tezoro_yield_aggregator.Base.Outcome.{ok}
use tezoro_yield_aggregator.Base.Words
use tezoro_yield_aggregator.Base.Words.{i128_bound}
use tezoro_yield_aggregator.Common.{Token}
use tezoro_yield_aggregator.Strategy.{Contract}
use tezoro_yield_aggregator.Mock.{
  Storage, Event, set_balance, withdraw, available_liquidity, balance_of,
}

module _ {X : Type 0} (t : Token X) where
  -- To the vault the mock pays out in full any amount up to the liquidity that it quotes, if it has
  -- the tokens: one transfer, after which it quotes as much less.
  pub withdraw-available_liquidity :
      (caller asset : Address) (amount quoted : ℕ) (w : Contract Storage Event X) {x : X}
      → w.authorized caller ≡ true
      → w.storage.vault ≡ some caller
      → w.storage.asset ≡ some asset
      → available_liquidity w ≡ ok (pos quoted)
      → quoted < i128_bound
      → 0 < amount
      → amount ≤ quoted
      → t.transfer asset w.self caller (pos amount) w.chain ≡ some x
      → (w' : Contract Storage Event X) × (withdraw t caller (pos amount) w ≡ ok (pos amount, w'))
        × (w'.chain ≡ x)
        × (w'.storage ≡ record w.storage { balance = some (pos (quoted - amount)) })
        × (available_liquidity w' ≡ ok (pos (quoted - amount)))
  unfolding withdraw available_liquidity balance_of Words.sub
  withdraw-available_liquidity caller asset amount quoted w {x = x} auth vault a quote small gt le
        serves =
      (
        record w {
          storage = set_balance (pos (quoted - amount)) w.storage;
          chain = x;
          events = Event.withdraw_event (pos amount) ∷ w.events;
        },
        ground (arith, pos--ℤ quoted amount),
        refl,
        refl,
        refl,
      )
