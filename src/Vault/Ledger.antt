-- ===== src/Vault/Ledger.antt =====
-- What the share token of contracts/contracts/tezoro-vault promises, with no storage and no
-- vault: a ledger of holdings with a supply, and four actions on it.
pub mod Refinement
use tezoro_yield_aggregator.Base.{Bool, true, ◌≡◌, ◌==◌, if◌then◌else◌}
use tezoro_yield_aggregator.Base.Int.{ℤ, pos, ◌+ℤ◌, ◌-ℤ◌, ◌≤ℤ◌}
use tezoro_yield_aggregator.Base.Map.{Address}
use tezoro_yield_aggregator.Common.{Chain}
use tezoro_yield_aggregator.Vault.State.{Storage, World}
use tezoro_yield_aggregator.Vault.Store.{get_share_balance, get_total_supply}
use tezoro_yield_aggregator.Vault.Calls.{Call, Step, Reach}

pub record Ledger : Type 0 where
  pub held : Address → ℤ
  pub supply : ℤ

pub data Action : Type 0 where
  idle : Action
  move : Address → Address → ℤ → Action
  issue retire : Address → ℤ → Action

-- `amount` at `owner`, and nothing elsewhere.
abbrev pub only_at : Address → ℤ → Address → ℤ
only_at owner amount a = if a == owner then amount else pos 0

abbrev pub act : Action → Ledger → Ledger
act Action.idle l = l
act (Action.move from to n) l = record l {
  held = λ a. l.held a -ℤ only_at from n a +ℤ only_at to n a;
}
act (Action.issue to n) l = record {
  held = λ a. l.held a +ℤ only_at to n a;
  supply = l.supply +ℤ n;
}
act (Action.retire from n) l = record {
  held = λ a. l.held a -ℤ only_at from n a;
  supply = l.supply -ℤ n;
}

-- An amount is positive, and whoever gives shares away has them.
abbrev pub Enabled : Action → Ledger → Type 0
Enabled Action.idle l = Unit {0}
Enabled (Action.move from to n) l = (pos 1 ≤ℤ n) × (n ≤ℤ l.held from)
Enabled (Action.issue to n) l = pos 1 ≤ℤ n
Enabled (Action.retire from n) l = (pos 1 ≤ℤ n) × (n ≤ℤ l.held from)

-- Whoever gives shares away has authorised it.
abbrev pub IsAuthorized : (Address → Bool) → Action → Type 0
IsAuthorized authorized (Action.move from to n) = authorized from ≡ true
IsAuthorized authorized (Action.retire from n) = authorized from ≡ true
IsAuthorized authorized _ = Unit {0}

-- The action that each call of the vault is for. How many shares a deposit or a collection issues
-- is for the pricing to say.
abbrev pub Means : Call → Action → Type 0
Means (Call.transfer from to n) action = action ≡ Action.move from to n
Means (Call.deposit from assets) action = (n : ℤ) × (action ≡ Action.issue from n)
Means (Call.redeem from n) action = action ≡ Action.retire from n
Means Call.collect_fees action = (to : Address) × ((n : ℤ) × (action ≡ Action.issue to n))
Means _ action = action ≡ Action.idle

-- The history of the ledger that goes with a history of the vault: each call of the vault is the
-- action that it is for, enabled, and authorised by whoever gives shares away; anything else that
-- happens leaves the ledger alone.
module _ {X : Type 0} (h : Chain X) where
  abbrev pub Acts : {w w' : World X} → Reach h w w' → Ledger → Ledger → Type 0
  Acts Reach.here l l' = l' ≡ l
  Acts (Reach.next {u = u} before (Step.calls c e)) l l' =
      (m : Ledger) × Acts before l m
      × ((action : Action) × Means c action
          × Enabled action m
          × IsAuthorized u.authorized action
          × (l' ≡ act action m))
  Acts (Reach.next before (Step.passes x now authorized le)) l l' = Acts before l l'

-- The storage represents the ledger: how its map is ordered is forgotten.
pub record Represents (s : Storage) (l : Ledger) : Type 0 where
  pub shares : (a : Address) → get_share_balance s a ≡ l.held a
  pub total : get_total_supply s ≡ l.supply
