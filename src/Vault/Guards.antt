-- ===== src/Vault/Guards.antt =====
-- The checks that the methods of contracts/contracts/tezoro-vault/src/lib.rs begin with.
use tezoro_yield_aggregator.Base.{not, ◌==◌, ◌||◌}
use tezoro_yield_aggregator.Base.Map.{Address}
use tezoro_yield_aggregator.Vault.State.{unauthorized, paused, not_initialized}
use tezoro_yield_aggregator.Vault.Monad.{M, ◌>>=◌, reads, require}
use tezoro_yield_aggregator.Vault.Store.{
  get_admin, get_keeper, get_guardian, is_paused, is_initialized,
}

module _ {X : Type 0} where
  abbrev pub require_admin : Address → M X (Unit {0})
  require_admin caller = do
    admin ← reads (λ w. get_admin w.storage)
    require (caller == admin) unauthorized

  abbrev pub require_keeper : Address → M X (Unit {0})
  require_keeper caller = do
    keeper ← reads (λ w. get_keeper w.storage)
    require (caller == keeper) unauthorized

  -- `caller != admin && caller != guardian`, in `pause` and `emergency_withdraw_strategy`
  abbrev pub require_admin_or_guardian : Address → M X (Unit {0})
  require_admin_or_guardian caller = do
    admin ← reads (λ w. get_admin w.storage)
    guardian ← reads (λ w. get_guardian w.storage)
    require (caller == admin || caller == guardian) unauthorized

  abbrev pub require_not_paused : M X (Unit {0})
  require_not_paused w = require (not (is_paused w.storage)) paused w

  abbrev pub require_initialized : M X (Unit {0})
  require_initialized w = require (is_initialized w.storage) not_initialized w
