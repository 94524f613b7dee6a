-- ===== src/Vault/Invariant/Funds.antt =====
-- The methods on strategies and funds keep the storage sound.
use tezoro_yield_aggregator.Base.{◌≡◌, arith}
use tezoro_yield_aggregator.Base.Int.{ℤ, pos}
use tezoro_yield_aggregator.Base.Map.{
  Address, insert-IsNonneg, credit-IsNonneg, debit-IsNonneg, erase-IsNonneg,
}
use tezoro_yield_aggregator.Base.Outcome.{ok}
use tezoro_yield_aggregator.Base.Words
use tezoro_yield_aggregator.Common.{Chain}
use tezoro_yield_aggregator.Vault.State.{World}
use tezoro_yield_aggregator.Vault.Store.{get_strategies}
use tezoro_yield_aggregator.Vault.Soundness.{IsSound, IsTracked}
use tezoro_yield_aggregator.Vault.Redeem.{untrack, tracked_after}
use tezoro_yield_aggregator.Vault.Strategies.{
  add_strategy, remove_strategy, allocate, deallocate, emergency_withdraw_strategy,
  attest_bridged_balance, update_tracked_balance,
}
use tezoro_yield_aggregator.Vault.Strategies.Lists.{
  append-IsDistinct, length-append_one, without-IsDistinct, length-without,
}

module _ {X : Type 0} where
  add_strategy-IsTracked :
      (caller strategy : Address) (w : World X) {w' : World X}
      → IsTracked w.storage
      → add_strategy caller strategy w ≡ ok (tt, w')
      → IsTracked w'.storage
  unfolding add_strategy
  add_strategy-IsTracked caller strategy w t e = ground (
    arith,
    insert-IsNonneg strategy (pos 0) w.storage.tracked_balance,
    append-IsDistinct strategy (get_strategies w.storage),
    length-append_one strategy (get_strategies w.storage),
  )

  remove_strategy-IsTracked :
      (caller strategy : Address) (w : World X) {w' : World X}
      → IsTracked w.storage
      → remove_strategy caller strategy w ≡ ok (tt, w')
      → IsTracked w'.storage
  unfolding remove_strategy
  remove_strategy-IsTracked caller strategy w t e = ground (
    arith,
    erase-IsNonneg strategy w.storage.tracked_balance,
    without-IsDistinct strategy (get_strategies w.storage),
    length-without strategy (get_strategies w.storage),
  )

  pub add_strategy-IsSound :
      (caller strategy : Address) (w : World X) {w' : World X}
      → IsSound w.storage
      → add_strategy caller strategy w ≡ ok (tt, w')
      → IsSound w'.storage
  unfolding add_strategy
  add_strategy-IsSound caller strategy w s e = record {
    backed = ground arith;
    fresh = ground arith;
    tracked = add_strategy-IsTracked caller strategy w s.tracked e;
    configured = ground arith;
  }

  pub remove_strategy-IsSound :
      (caller strategy : Address) (w : World X) {w' : World X}
      → IsSound w.storage
      → remove_strategy caller strategy w ≡ ok (tt, w')
      → IsSound w'.storage
  unfolding remove_strategy
  remove_strategy-IsSound caller strategy w s e = record {
    backed = ground arith;
    fresh = ground arith;
    tracked = remove_strategy-IsTracked caller strategy w s.tracked e;
    configured = ground arith;
  }

  pub attest_bridged_balance-IsSound :
      (keeper : Address) (amount : ℤ) (w : World X) {w' : World X}
      → IsSound w.storage
      → attest_bridged_balance keeper amount w ≡ ok (tt, w')
      → IsSound w'.storage
  unfolding attest_bridged_balance
  attest_bridged_balance-IsSound keeper amount w s e = ground arith

  pub update_tracked_balance-IsSound :
      (keeper strategy : Address) (amount : ℤ) (w : World X) {w' : World X}
      → IsSound w.storage
      → update_tracked_balance keeper strategy amount w ≡ ok (tt, w')
      → IsSound w'.storage
  unfolding update_tracked_balance
  update_tracked_balance-IsSound keeper strategy amount w s e =
      ground (arith, insert-IsNonneg strategy amount w.storage.tracked_balance)

module _ {X : Type 0} (h : Chain X) where
  pub allocate-IsSound :
      (keeper strategy : Address) (amount : ℤ) (w : World X) {w' : World X}
      → IsSound w.storage
      → allocate h keeper strategy amount w ≡ ok (tt, w')
      → IsSound w'.storage
  unfolding allocate Words.add
  allocate-IsSound keeper strategy amount w s e =
      ground (arith, credit-IsNonneg strategy amount w.storage.tracked_balance)

  pub deallocate-IsSound :
      (keeper strategy : Address) (amount : ℤ) (w : World X) {withdrawn : ℤ} {w' : World X}
      → IsSound w.storage
      → deallocate h keeper strategy amount w ≡ ok (withdrawn, w')
      → IsSound w'.storage
  unfolding deallocate untrack tracked_after Words.sub
  deallocate-IsSound keeper strategy amount w {withdrawn} s e = ground (
    arith,
    insert-IsNonneg strategy (pos 0) w.storage.tracked_balance,
    debit-IsNonneg strategy withdrawn w.storage.tracked_balance,
  )

  pub emergency_withdraw_strategy-IsSound :
      (caller strategy : Address) (w : World X) {withdrawn : ℤ} {w' : World X}
      → IsSound w.storage
      → emergency_withdraw_strategy h caller strategy w ≡ ok (withdrawn, w')
      → IsSound w'.storage
  unfolding emergency_withdraw_strategy
  emergency_withdraw_strategy-IsSound caller strategy w s e =
      ground (arith, insert-IsNonneg strategy (pos 0) w.storage.tracked_balance)
