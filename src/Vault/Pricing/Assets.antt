-- ===== src/Vault/Pricing/Assets.antt =====
-- `total_assets` is the exact sum of what the vault holds, what its strategies hold for it and the
-- attested balance that counts.
use tezoro_yield_aggregator.Base.{ℕ, ◌≡◌, refl, ◌≢◌, some, List, [], ◌∷◌, arith}
use tezoro_yield_aggregator.Base.Int.{ℤ, pos, ◌+ℤ◌, ◌-ℤ◌, int_laws, zero-+ℤ, +ℤ_assoc, +ℤ_swap}
use tezoro_yield_aggregator.Base.Map.{Address, Map, balance}
use tezoro_yield_aggregator.Base.Outcome.{ok, value_or}
use tezoro_yield_aggregator.Base.Words
use tezoro_yield_aggregator.Common.{Chain, Token}
use tezoro_yield_aggregator.Vault.State.{Storage, World}
use tezoro_yield_aggregator.Vault.Store.{get_strategies}
use tezoro_yield_aggregator.Vault.Shares.{deposit}
use tezoro_yield_aggregator.Vault.Shares.Effects.{deposit-moves, deposit-storage}
use tezoro_yield_aggregator.Vault.Assets.{
  total_assets, sum_tracked, effective_bridged_balance, idle_balance,
}

-- What the strategies hold, by the vault's own record.
abbrev pub tracked_total : Map ℤ → List Address → ℤ
tracked_total tracked [] = pos 0
tracked_total tracked (s ∷ strategies) = balance s tracked +ℤ tracked_total tracked strategies

sum_tracked-exact :
    (s : Storage) (acc : ℤ) (strategies : List Address) {t : ℤ}
    → sum_tracked s acc strategies ≡ ok t
    → t ≡ acc +ℤ tracked_total s.tracked_balance strategies
unfolding sum_tracked Words.add
sum_tracked-exact s acc [] e = grind int_laws
sum_tracked-exact s acc (x ∷ strategies) {t} e =
    grind (int_laws, sum_tracked-exact s (acc +ℤ balance x s.tracked_balance) strategies {t = t})

-- What the vault has elsewhere: in its strategies, and attested on other chains.
abbrev pub invested : Storage → ℕ → ℤ
invested s now =
    tracked_total s.tracked_balance (get_strategies s) +ℤ effective_bridged_balance s now

-- The documented behaviour of a SEP-41 token that the vault relies on.
pub record TokenLaws {X : Type 0} (t : Token X) : Type 0 where
  pub transfer_exact :
      (asset from to : Address) (amount : ℤ) (x x' : X)
      → from ≢ to
      → t.transfer asset from to amount x ≡ some x'
      → (t.balance asset to x' ≡ t.balance asset to x +ℤ amount)
        × (t.balance asset from x' ≡ t.balance asset from x -ℤ amount)

module _ {X : Type 0} (h : Chain X) where
  pub total_assets-exact :
      (w : World X) (asset : Address) {total : ℤ}
      → w.storage.asset ≡ some asset
      → total_assets h w ≡ ok total
      → total ≡ h.token.balance asset w.self w.chain +ℤ invested w.storage w.timestamp
  unfolding total_assets idle_balance Words.add
  total_assets-exact w asset a e =
      let s = w.storage in
      let strategies = get_strategies s in
      let tracked = tracked_total s.tracked_balance strategies in
      ground (
        arith,
        sum_tracked-exact s (pos 0) strategies
            {t = value_or (pos 0) (sum_tracked s (pos 0) strategies)},
        zero-+ℤ tracked,
        +ℤ_assoc (h.token.balance asset w.self w.chain) tracked
            (effective_bridged_balance s w.timestamp),
      )

  -- A deposit by someone else than the vault raises the total assets by exactly what is paid in.
  pub total_assets-deposit :
      (from : Address) (assets : ℤ) (w : World X) {total total' shares : ℤ} {w' : World X}
      → TokenLaws h.token
      → from ≢ w.self
      → total_assets h w ≡ ok total
      → deposit h from assets w ≡ ok (shares, w')
      → total_assets h w' ≡ ok total'
      → total' ≡ total +ℤ assets
  unfolding effective_bridged_balance
  total_assets-deposit from assets w {w' = w'} laws ne t e t' =
      let (asset, a, moved, _, _, self, time) = deposit-moves h from assets w e in
      let eq = deposit-storage h from assets w e in
      let paid = laws.transfer_exact asset from w.self assets w.chain w'.chain ne moved in
      let before = total_assets-exact w asset a t in
      let after = total_assets-exact w' asset (rw eq a) t' in
      let same : invested w'.storage w'.timestamp ≡ invested w.storage w.timestamp =
        rw (eq, time) refl in
      let idle : h.token.balance asset w'.self w'.chain
          ≡ h.token.balance asset w.self w.chain +ℤ assets =
        rw self paid.0 in
      rw (after, before, same, idle) (+ℤ_swap _ assets _)
