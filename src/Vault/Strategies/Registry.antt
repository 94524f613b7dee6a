-- ===== src/Vault/Strategies/Registry.antt =====
-- `add_strategy` and `remove_strategy` undo each other.
use tezoro_yield_aggregator.Base.{◌≡◌, true, false, List, [], ◌∷◌, ◌++◌, arith}
use tezoro_yield_aggregator.Base.Int.{pos}
use tezoro_yield_aggregator.Base.Map.{Address, lookup-insert}
use tezoro_yield_aggregator.Base.Outcome.{ok}
use tezoro_yield_aggregator.Vault.State.{Event, World}
use tezoro_yield_aggregator.Vault.Store.{
  contains, get_strategies, set_strategies, strategy_exists, remove_tracked_balance,
  get_tracked_balance,
}
use tezoro_yield_aggregator.Vault.Strategies.Lists.{contains-append}
use tezoro_yield_aggregator.Vault.Strategies.{add_strategy, remove_strategy, without}

without-append :
    (s : Address) (xs : List Address)
    → contains s xs ≡ false
    → without s (xs ++ s ∷ []) ≡ (xs, true)
unfolding contains without
without-append s [] e = ground arith
without-append s (x ∷ xs) e = ground (arith, without-append s xs)

module _ {X : Type 0} where
  -- The state after the strategy is removed, with `strategies` left.
  abbrev pub unregistered : Address → List Address → World X → World X
  unregistered s strategies w = record w {
    storage = remove_tracked_balance s (set_strategies strategies w.storage);
    events = Event.strategy_remove s ∷ w.events;
  }

  -- A strategy that was just added is in the list, holds nothing by the record of the vault, and can
  -- be removed by the same caller, which restores the list.
  pub remove_strategy-add_strategy :
      (caller strategy : Address) (w : World X) {w' : World X}
      → add_strategy caller strategy w ≡ ok (tt, w')
      → (strategy_exists w'.storage strategy ≡ true)
        × (get_tracked_balance w'.storage strategy ≡ pos 0)
        × (remove_strategy caller strategy w'
            ≡ ok (tt, unregistered strategy (get_strategies w.storage) w'))
  unfolding add_strategy remove_strategy
  remove_strategy-add_strategy caller strategy w e =
      let strategies = get_strategies w.storage in
      ground (
        arith,
        contains-append strategy strategy strategies,
        without-append strategy strategies,
        lookup-insert strategy strategy (pos 0) w.storage.tracked_balance,
      )
