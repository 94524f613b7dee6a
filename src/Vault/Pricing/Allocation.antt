-- ===== src/Vault/Pricing/Allocation.antt =====
-- Moving funds into a strategy: `allocate` leaves the total assets as they are and keeps the idle
-- buffer.
use tezoro_yield_aggregator.Base.{
  ℕ, ◌*◌, ◌/◌, ◌≡◌, ◌≢◌, refl, ap, ◌∙◌, true, false, some, List, [], ◌∷◌, arith,
}
use tezoro_yield_aggregator.Base.Int.{ℤ, pos, ◌+ℤ◌, ◌-ℤ◌, ◌≤ℤ◌, int_laws}
use tezoro_yield_aggregator.Base.Map.{Address, Map, balance, insert, lookup-insert}
use tezoro_yield_aggregator.Base.Outcome.{ok, value_or, unwrap_or}
use tezoro_yield_aggregator.Base.Words
use tezoro_yield_aggregator.Common.{Chain, max_bps}
use tezoro_yield_aggregator.Vault.State.{World}
use tezoro_yield_aggregator.Vault.Store.{contains, get_strategies, get_idle_buffer_bps}
use tezoro_yield_aggregator.Vault.Assets.{
  total_assets, idle_balance, mul_div, effective_bridged_balance,
}
use tezoro_yield_aggregator.Vault.Strategies.{allocate}
use tezoro_yield_aggregator.Vault.Strategies.Lists.{IsDistinct}
use tezoro_yield_aggregator.Vault.Pricing.Rounding.{mul_div_exact}
use tezoro_yield_aggregator.Vault.Pricing.Assets.{
  TokenLaws, tracked_total, invested, total_assets-exact,
}

tracked_total-absent :
    (s : Address) (v : ℤ) (m : Map ℤ) (strategies : List Address)
    → contains s strategies ≡ false
    → tracked_total (insert s v m) strategies ≡ tracked_total m strategies
unfolding contains
tracked_total-absent s v m [] e = refl
tracked_total-absent s v m (x ∷ strategies) e =
    ground (arith, lookup-insert x s v m, tracked_total-absent s v m strategies)

-- A new value of one record takes the place of the old one in the total.
pub tracked_total-write :
    (s : Address) (v : ℤ) (m : Map ℤ) (strategies : List Address)
    → IsDistinct strategies
    → contains s strategies ≡ true
    → tracked_total (insert s v m) strategies +ℤ balance s m ≡ tracked_total m strategies +ℤ v
unfolding contains
tracked_total-write s v m [] d e = ground arith
tracked_total-write s v m (x ∷ strategies) d e = grind (
  int_laws,
  lookup-insert x s v m,
  tracked_total-write s v m strategies d.1,
  tracked_total-absent s v m strategies,
)

-- A rise of one record raises the total by as much.
tracked_total-raise :
    (s : Address) (v : ℤ) (m : Map ℤ) (strategies : List Address)
    → IsDistinct strategies
    → contains s strategies ≡ true
    → tracked_total (insert s (balance s m +ℤ v) m) strategies ≡ tracked_total m strategies +ℤ v
tracked_total-raise s v m strategies d e =
    grind (int_laws, tracked_total-write s (balance s m +ℤ v) m strategies d e)

shift : (b a t r : ℤ) → b -ℤ a +ℤ (t +ℤ a +ℤ r) ≡ b +ℤ (t +ℤ r)
shift b a t r = omega int_laws

module _ {X : Type 0} (h : Chain X) where
  -- What an allocation does when it returns.
  pub allocate-moves :
      (keeper strategy : Address) (amount : ℤ) (w : World X) {w' : World X} {asset : Address}
      → w.storage.asset ≡ some asset
      → allocate h keeper strategy amount w ≡ ok (tt, w')
      → let x = unwrap_or (h.token.transfer asset w.self strategy amount w.chain) w.chain in
        (h.token.transfer asset w.self strategy amount w.chain ≡ some x)
        × ((h.strategy strategy).deposit w.self amount x ≡ ok w'.chain)
        × (w'.self ≡ w.self)
        × (w'.timestamp ≡ w.timestamp)
        × (contains strategy (get_strategies w.storage) ≡ true)
        × (w'.storage ≡ record w.storage {
          tracked_balance =
              insert strategy
                (balance strategy w.storage.tracked_balance +ℤ amount)
                w.storage.tracked_balance;
        })
  unfolding allocate Words.add
  allocate-moves keeper strategy amount w a e = ground arith

  allocate-checks :
      (keeper strategy : Address) (amount : ℤ) (total : ℕ) (w : World X) {w' : World X}
      {asset : Address}
      → w.storage.asset ≡ some asset
      → total_assets h w ≡ ok (pos total)
      → allocate h keeper strategy amount w ≡ ok (tt, w')
      → pos (total * get_idle_buffer_bps w.storage / max_bps)
        ≤ℤ h.token.balance asset w.self w.chain -ℤ amount
  unfolding allocate Words.sub idle_balance
  allocate-checks keeper strategy amount total w a t e =
      let bps = get_idle_buffer_bps w.storage in
      let min_idle : ℤ = value_or (pos 0) (mul_div (pos total) (pos bps) (pos max_bps)) in
      ground (arith, mul_div_exact total bps max_bps {r = min_idle})

  -- Of nonnegative total assets: an allocation by the keeper to a strategy other than the vault,
  -- whose `deposit` does not touch the vault's balance of the asset, leaves the total assets as they
  -- are and at least the buffer's share of them idle, for a token that moves exactly what it is told
  -- to.
  pub allocate_total :
      (keeper strategy asset : Address) (amount : ℤ) (total : ℕ) (w : World X) {total' : ℤ}
      {w' : World X}
      → TokenLaws h.token
      → IsDistinct (get_strategies w.storage)
      → w.self ≢ strategy
      → ((x x' : X)
          → (h.strategy strategy).deposit w.self amount x ≡ ok x'
          → h.token.balance asset w.self x' ≡ h.token.balance asset w.self x)
      → w.storage.asset ≡ some asset
      → total_assets h w ≡ ok (pos total)
      → allocate h keeper strategy amount w ≡ ok (tt, w')
      → total_assets h w' ≡ ok total'
      → (total' ≡ pos total)
        × (pos (total * get_idle_buffer_bps w.storage / max_bps)
            ≤ℤ h.token.balance asset w.self w'.chain)
  unfolding effective_bridged_balance
  allocate_total keeper strategy asset amount total w {total'} {w' = w'} laws distinct ne apart a t
        e t' =
      let (moved, stored, self, time, listed, eq) = allocate-moves keeper strategy amount w a e in
      let x = unwrap_or (h.token.transfer asset w.self strategy amount w.chain) w.chain in
      let sent = (laws.transfer_exact asset w.self strategy amount w.chain x ne moved).1 in
      let idle : h.token.balance asset w.self w'.chain
          ≡ h.token.balance asset w.self w.chain -ℤ amount =
        apart x w'.chain stored ∙ sent in
      let before = total_assets-exact h w asset a t in
      let after = total_assets-exact h w' asset (rw eq a) t' in
      let raised =
        tracked_total-raise strategy amount w.storage.tracked_balance (get_strategies w.storage)
          distinct listed in
      let checked = allocate-checks keeper strategy amount total w a t e in
      let tracked = tracked_total w.storage.tracked_balance (get_strategies w.storage) in
      let bridged = effective_bridged_balance w.storage w.timestamp in
      let grown : invested w'.storage w'.timestamp ≡ tracked +ℤ amount +ℤ bridged =
        rw (eq, time) (ap (λ (t : ℤ). t +ℤ bridged) raised) in
      let held = h.token.balance asset w.self w.chain in
      (rw (after, self, idle, grown, before) (shift held amount tracked bridged), rw idle checked)
