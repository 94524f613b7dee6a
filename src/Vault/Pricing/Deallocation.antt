-- ===== src/Vault/Pricing/Deallocation.antt =====
-- Moving funds out of a strategy: what `deallocate` and `emergency_withdraw_strategy` do to the
-- total assets.
use tezoro_yield_aggregator.Base.{◌≡◌, refl, true, some, if◌then◌else◌, arith}
use tezoro_yield_aggregator.Base.Int.{ℤ, pos, ◌+ℤ◌, ◌-ℤ◌, ltb_ℤ, int_laws}
use tezoro_yield_aggregator.Base.Map.{Address, insert}
use tezoro_yield_aggregator.Base.Outcome.{ok}
use tezoro_yield_aggregator.Base.Words
use tezoro_yield_aggregator.Common.{Chain}
use tezoro_yield_aggregator.Vault.State.{World}
use tezoro_yield_aggregator.Vault.Store.{contains, get_strategies, get_tracked_balance}
use tezoro_yield_aggregator.Vault.Assets.{total_assets, effective_bridged_balance}
use tezoro_yield_aggregator.Vault.Redeem.{untrack, tracked_after}
use tezoro_yield_aggregator.Vault.Strategies.{deallocate, emergency_withdraw_strategy}
use tezoro_yield_aggregator.Vault.Strategies.Lists.{IsDistinct}
use tezoro_yield_aggregator.Vault.Pricing.Assets.{tracked_total, invested, total_assets-exact}
use tezoro_yield_aggregator.Vault.Pricing.Allocation.{tracked_total-write}

-- The record of a strategy that paid `withdrawn` out.
abbrev pub left_after : ℤ → ℤ → ℤ
left_after tracked withdrawn = if ltb_ℤ tracked withdrawn then pos 0 else tracked -ℤ withdrawn

exchange :
    (held paid bridged t' t old new : ℤ)
    → t' +ℤ old ≡ t +ℤ new
    → held +ℤ paid +ℤ (t' +ℤ bridged) +ℤ old ≡ held +ℤ (t +ℤ bridged) +ℤ paid +ℤ new
exchange held paid bridged t' t old new e = grind int_laws

gained :
    (total total' tracked withdrawn : ℤ)
    → total' +ℤ tracked ≡ total +ℤ withdrawn +ℤ left_after tracked withdrawn
    → total' ≡ total +ℤ (if ltb_ℤ tracked withdrawn then withdrawn -ℤ tracked else pos 0)
gained total total' tracked withdrawn e = grind int_laws

replaced :
    (total total' tracked withdrawn : ℤ)
    → total' +ℤ tracked ≡ total +ℤ withdrawn +ℤ pos 0
    → total' ≡ total -ℤ tracked +ℤ withdrawn
replaced total total' tracked withdrawn e = grind int_laws

module _ {X : Type 0} (h : Chain X) where
  deallocate-moves :
      (keeper strategy : Address) (amount : ℤ) (w : World X) {withdrawn : ℤ} {w' : World X}
      → deallocate h keeper strategy amount w ≡ ok (withdrawn, w')
      → ((h.strategy strategy).withdraw w.self amount w.chain ≡ ok (withdrawn, w'.chain))
        × (w'.self ≡ w.self)
        × (w'.timestamp ≡ w.timestamp)
        × (contains strategy (get_strategies w.storage) ≡ true)
        × (w'.storage ≡ record w.storage {
          tracked_balance =
              insert strategy
                (left_after (get_tracked_balance w.storage strategy) withdrawn)
                w.storage.tracked_balance;
        })
  unfolding deallocate untrack tracked_after Words.sub
  deallocate-moves keeper strategy amount w e = ground arith

  emergency_withdraw_strategy-moves :
      (caller strategy : Address) (w : World X) {withdrawn : ℤ} {w' : World X}
      → emergency_withdraw_strategy h caller strategy w ≡ ok (withdrawn, w')
      → ((h.strategy strategy).emergency_withdraw w.self w.chain ≡ ok (withdrawn, w'.chain))
        × (w'.self ≡ w.self)
        × (w'.timestamp ≡ w.timestamp)
        × (contains strategy (get_strategies w.storage) ≡ true)
        × (w'.storage ≡ record w.storage {
          tracked_balance = insert strategy (pos 0) w.storage.tracked_balance;
        })
  unfolding emergency_withdraw_strategy
  emergency_withdraw_strategy-moves caller strategy w e = ground arith

  -- Funds that come back in exchange for a new record of the strategy.
  total_exchanged :
      (strategy asset : Address) (withdrawn left : ℤ) (w w' : World X) {total total' : ℤ}
      → IsDistinct (get_strategies w.storage)
      → contains strategy (get_strategies w.storage) ≡ true
      → w'.self ≡ w.self
      → w'.timestamp ≡ w.timestamp
      → w'.storage
        ≡ record w.storage { tracked_balance = insert strategy left w.storage.tracked_balance }
      → h.token.balance asset w.self w'.chain ≡ h.token.balance asset w.self w.chain +ℤ withdrawn
      → w.storage.asset ≡ some asset
      → total_assets h w ≡ ok total
      → total_assets h w' ≡ ok total'
      → total' +ℤ get_tracked_balance w.storage strategy ≡ total +ℤ withdrawn +ℤ left
  unfolding effective_bridged_balance
  total_exchanged strategy asset withdrawn left w w' {total} {total'} distinct listed self time eq
        paid a t t' =
      let before = total_assets-exact h w asset a t in
      let after = total_assets-exact h w' asset (rw eq a) t' in
      let strategies = get_strategies w.storage in
      let written =
        tracked_total-write strategy left w.storage.tracked_balance strategies distinct listed in
      let bridged = effective_bridged_balance w.storage w.timestamp in
      let tracked' = tracked_total (insert strategy left w.storage.tracked_balance) strategies in
      let changed : invested w'.storage w'.timestamp ≡ tracked' +ℤ bridged = rw (eq, time) refl in
      let held = h.token.balance asset w.self w.chain in
      let tracked = tracked_total w.storage.tracked_balance strategies in
      rw (after, self, changed, before, paid)
        (exchange held withdrawn bridged tracked' tracked (get_tracked_balance w.storage strategy)
          left written)

  -- If the strategy pays the vault what it returns, then a deallocation leaves the total assets as
  -- they are, unless it returns more than the vault's record of the strategy: then they rise by the
  -- excess.
  pub deallocate_total :
      (keeper strategy asset : Address) (amount : ℤ) (w : World X) {withdrawn total total' : ℤ}
      {w' : World X}
      → IsDistinct (get_strategies w.storage)
      → h.token.balance asset w.self w'.chain ≡ h.token.balance asset w.self w.chain +ℤ withdrawn
      → w.storage.asset ≡ some asset
      → total_assets h w ≡ ok total
      → deallocate h keeper strategy amount w ≡ ok (withdrawn, w')
      → total_assets h w' ≡ ok total'
      → (let tracked = get_tracked_balance w.storage strategy in
          total' ≡ total +ℤ (if ltb_ℤ tracked withdrawn then withdrawn -ℤ tracked else pos 0))
  deallocate_total keeper strategy asset amount w {withdrawn} {total} {total'} {w'} distinct paid a
        t e t' =
      let (_, self, time, listed, eq) = deallocate-moves keeper strategy amount w e in
      let tracked = get_tracked_balance w.storage strategy in
      let balanced =
        total_exchanged strategy asset withdrawn (left_after tracked withdrawn) w w' distinct listed
          self time eq paid a t t' in
      gained total total' tracked withdrawn balanced

  -- If the strategy pays the vault what it returns, then an emergency withdrawal replaces, in the
  -- total assets, the vault's record of the strategy by what came back: they fall by what is lost.
  pub emergency_withdraw_total :
      (caller strategy asset : Address) (w : World X) {withdrawn total total' : ℤ} {w' : World X}
      → IsDistinct (get_strategies w.storage)
      → h.token.balance asset w.self w'.chain ≡ h.token.balance asset w.self w.chain +ℤ withdrawn
      → w.storage.asset ≡ some asset
      → total_assets h w ≡ ok total
      → emergency_withdraw_strategy h caller strategy w ≡ ok (withdrawn, w')
      → total_assets h w' ≡ ok total'
      → total' ≡ total -ℤ get_tracked_balance w.storage strategy +ℤ withdrawn
  emergency_withdraw_total caller strategy asset w {withdrawn} {total} {total'} {w'} distinct paid a
        t e t' =
      let (_, self, time, listed, eq) = emergency_withdraw_strategy-moves caller strategy w e in
      let balanced =
        total_exchanged strategy asset withdrawn (pos 0) w w' distinct listed self time eq paid a t
          t' in
      replaced total total' (get_tracked_balance w.storage strategy) withdrawn balanced
