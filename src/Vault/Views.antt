-- ===== src/Vault/Views.antt =====
-- The methods of contracts/contracts/tezoro-vault/src/lib.rs that only read: the token's own, and
-- the view functions.
use tezoro_yield_aggregator.Base.{ℕ, Bool, Option, List, String}
use tezoro_yield_aggregator.Base.Int.{ℤ}
use tezoro_yield_aggregator.Base.Map.{Address}
use tezoro_yield_aggregator.Base.Outcome.{Outcome, ok}
use tezoro_yield_aggregator.Common.{Hash}
use tezoro_yield_aggregator.Vault.State.{World, VaultError}
use tezoro_yield_aggregator.Vault.Store

abbrev pub decimals_of_shares : ℕ
decimals_of_shares = 7

module _ {X : Type 0} where
  abbrev pub name : World X → Outcome VaultError String
  name w = ok (Store.get_vault_name w.storage)

  abbrev pub symbol : World X → Outcome VaultError String
  symbol w = ok (Store.get_vault_symbol w.storage)

  abbrev pub decimals : World X → Outcome VaultError ℕ
  decimals w = ok decimals_of_shares

  abbrev pub balance : Address → World X → Outcome VaultError ℤ
  balance id w = ok (Store.get_share_balance w.storage id)

  abbrev pub total_supply : World X → Outcome VaultError ℤ
  total_supply w = ok (Store.get_total_supply w.storage)

  abbrev pub get_strategies : World X → Outcome VaultError (List Address)
  get_strategies w = ok (Store.get_strategies w.storage)

  abbrev pub asset : World X → Outcome VaultError Address
  asset w = Store.get_asset w.storage

  abbrev pub admin : World X → Outcome VaultError Address
  admin w = Store.get_admin w.storage

  abbrev pub pending_admin : World X → Outcome VaultError (Option Address)
  pending_admin w = ok (Store.get_pending_admin w.storage)

  abbrev pub keeper : World X → Outcome VaultError Address
  keeper w = Store.get_keeper w.storage

  abbrev pub guardian : World X → Outcome VaultError Address
  guardian w = Store.get_guardian w.storage

  abbrev pub is_paused : World X → Outcome VaultError Bool
  is_paused w = ok (Store.is_paused w.storage)

  abbrev pub bridged_balance : World X → Outcome VaultError ℤ
  bridged_balance w = ok (Store.get_bridged_balance w.storage)

  abbrev pub bridged_timestamp : World X → Outcome VaultError ℕ
  bridged_timestamp w = ok (Store.get_bridged_timestamp w.storage)

  abbrev pub tracked_balance : Address → World X → Outcome VaultError ℤ
  tracked_balance strategy w = ok (Store.get_tracked_balance w.storage strategy)

  abbrev pub deposit_cap : World X → Outcome VaultError ℤ
  deposit_cap w = ok (Store.get_deposit_cap w.storage)

  abbrev pub performance_fee_bps : World X → Outcome VaultError ℕ
  performance_fee_bps w = ok (Store.get_performance_fee_bps w.storage)

  abbrev pub high_water_mark : World X → Outcome VaultError ℤ
  high_water_mark w = ok (Store.get_high_water_mark w.storage)

  abbrev pub upgrade_delay : World X → Outcome VaultError ℕ
  upgrade_delay w = ok (Store.get_upgrade_delay w.storage)

  abbrev pub scheduled_upgrade : World X → Outcome VaultError (Option (Hash × ℕ))
  scheduled_upgrade w = ok (Store.get_scheduled_upgrade w.storage)
