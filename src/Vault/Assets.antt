-- ===== src/Vault/Assets.antt =====
-- `total_assets` and the conversions of contracts/contracts/tezoro-vault/src/lib.rs.
use tezoro_yield_aggregator.Base.{ℕ, ◌-◌, ltb, ◌&&◌, if◌then◌else◌, List, [], ◌∷◌}
use tezoro_yield_aggregator.Base.Int.{ℤ, pos, eqb_ℤ}
use tezoro_yield_aggregator.Base.Map.{Address}
use tezoro_yield_aggregator.Base.Outcome.{Outcome, ok, ◌>>=◌}
use tezoro_yield_aggregator.Base.Words
use tezoro_yield_aggregator.Common.{Chain}
use tezoro_yield_aggregator.Vault.State.{Storage, World, VaultError}
use tezoro_yield_aggregator.Vault.Store.{
  get_asset, get_strategies, get_tracked_balance, get_bridged_balance, get_bridged_timestamp,
  get_bridged_max_age, get_total_supply,
}

abbrev pub virtual_shares_offset : ℤ
virtual_shares_offset = pos 1_000_000

-- An attestation counts until it is older than `bridged_max_age`. The subtraction cannot
-- underflow, since it is made only if `now > ts`.
unfoldable pub effective_bridged_balance : Storage → ℕ → ℤ
effective_bridged_balance s now =
    if eqb_ℤ (get_bridged_balance s) (pos 0)
    then pos 0
    else if ltb (get_bridged_timestamp s) now
        && ltb (get_bridged_max_age s) (now - get_bridged_timestamp s)
    then pos 0
    else get_bridged_balance s

-- The loop of `total_assets`.
unfoldable pub sum_tracked : Storage → ℤ → List Address → Outcome VaultError ℤ
sum_tracked s strategy_total [] = ok strategy_total
sum_tracked s strategy_total (strategy ∷ strategies) = do
  strategy_total' ← Words.add strategy_total (get_tracked_balance s strategy)
  sum_tracked s strategy_total' strategies

-- `amount * factor / divisor`, each step checked.
unfoldable pub mul_div : ℤ → ℤ → ℤ → Outcome VaultError ℤ
mul_div amount factor divisor = do scaled ← Words.mul amount factor; Words.div scaled divisor

-- `amount * (numerator + OFFSET) / (denominator + OFFSET)`
unfoldable pub pro_rata : ℤ → ℤ → ℤ → Outcome VaultError ℤ
pro_rata amount numerator denominator = do
  multiplier ← Words.add numerator virtual_shares_offset
  scaled ← Words.mul amount multiplier
  divisor ← Words.add denominator virtual_shares_offset
  Words.div scaled divisor

module _ {X : Type 0} (h : Chain X) where
  -- The vault's own balance of the asset.
  unfoldable pub idle_balance : World X → Outcome VaultError ℤ
  idle_balance w = do asset ← get_asset w.storage; ok (h.token.balance asset w.self w.chain)

  unfoldable pub total_assets : World X → Outcome VaultError ℤ
  total_assets w = do
    idle ← idle_balance w
    strategy_total ← sum_tracked w.storage (pos 0) (get_strategies w.storage)
    let bridged = effective_bridged_balance w.storage w.timestamp
    subtotal ← Words.add idle strategy_total
    Words.add subtotal bridged

  unfoldable pub convert_to_shares : ℤ → World X → Outcome VaultError ℤ
  convert_to_shares assets w = do
    total ← total_assets w
    pro_rata assets (get_total_supply w.storage) total

  -- `shares * (total_assets + OFFSET) / (total_supply + OFFSET)`
  unfoldable pub convert_to_assets : ℤ → World X → Outcome VaultError ℤ
  convert_to_assets shares w = do
    total ← total_assets w
    pro_rata shares total (get_total_supply w.storage)
