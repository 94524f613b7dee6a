-- ===== src/Vault/Ledger/Refinement.antt =====
-- The vault implements the ledger of shares.
use tezoro_yield_aggregator.Base.{true, false, ◌≡◌, refl, ap, ◌∙◌, arith}
use tezoro_yield_aggregator.Base.Int.{ℤ, ◌+ℤ◌, ◌-ℤ◌, ◌≤ℤ◌, int_laws}
use tezoro_yield_aggregator.Base.Map.{Address, Map, balance, insert, lookup-insert}
use tezoro_yield_aggregator.Base.Outcome.{ok}
use tezoro_yield_aggregator.Common.{Chain}
use tezoro_yield_aggregator.Vault.State.{World}
use tezoro_yield_aggregator.Vault.Store.{get_share_balance, get_total_supply}
use tezoro_yield_aggregator.Vault.Calls.{Call, invoke, discard-ok, Step, Reach}
use tezoro_yield_aggregator.Vault.Shares
use tezoro_yield_aggregator.Vault.Shares.Effects.{deposit-storage, deposit-moves}
use tezoro_yield_aggregator.Vault.Shares.Transfers.{transfer_balances}
use tezoro_yield_aggregator.Vault.Redeem
use tezoro_yield_aggregator.Vault.Redeem.Effects.{redeem-storage, redeem-pays}
use tezoro_yield_aggregator.Vault.Strategies
use tezoro_yield_aggregator.Vault.Fees
use tezoro_yield_aggregator.Vault.Fees.Effects.{collect_fees-storage}
use tezoro_yield_aggregator.Vault.Admin
use tezoro_yield_aggregator.Vault.Upgrade
use tezoro_yield_aggregator.Vault.Soundness.{IsSound}
use tezoro_yield_aggregator.Vault.Invariant.Histories.{Reach-IsSound}
use tezoro_yield_aggregator.Vault.Access.Roles.{invoke-IsPermitted}
use tezoro_yield_aggregator.Vault.Ledger.{
  Ledger, Action, only_at, act, Enabled, IsAuthorized, Means, Acts, Represents,
}

-- One entry raised or lowered.
balance-credit :
    (a owner : Address) (n : ℤ) (m : Map ℤ)
    → balance a (insert owner (balance owner m +ℤ n) m) ≡ balance a m +ℤ only_at owner n a
balance-credit a owner n m = grind (int_laws, lookup-insert a owner (balance owner m +ℤ n) m)

balance-debit :
    (a owner : Address) (n : ℤ) (m : Map ℤ)
    → balance a (insert owner (balance owner m -ℤ n) m) ≡ balance a m -ℤ only_at owner n a
balance-debit a owner n m = grind (int_laws, lookup-insert a owner (balance owner m -ℤ n) m)

-- The call has the effect of the action on the ledger.
pub record Performs {X : Type 0} (c : Call) (w w' : World X) (l : Ledger) : Type 0 where
  pub action : Action
  pub meant : Means c action
  pub enabled : Enabled action l
  pub authorised : IsAuthorized w.authorized action
  pub represents : Represents w'.storage (act action l)

module _ {X : Type 0} (h : Chain X) where
  transfer-Performs :
      (from to : Address) (n : ℤ) (w : World X) (l : Ledger) {w' : World X}
      → Represents w.storage l
      → Shares.transfer from to n w ≡ ok (tt, w')
      → Performs (Call.transfer from to n) w w' l
  transfer-Performs from to n w l r e =
      let (auth, positive, owned, total, _) = transfer_balances from to from n w e in
      record {
        action = Action.move from to n;
        meant = refl;
        enabled = (positive, ground (arith, owned, r.shares from));
        authorised = auth;
        represents = record {
          shares = λ a.
              (let (_, _, _, _, moved) = transfer_balances from to a n w e in
                moved ∙ ap (λ b. b -ℤ only_at from n a +ℤ only_at to n a) (r.shares a));
          total = total ∙ r.total;
        };
      }

  deposit-Performs :
      (from : Address) (assets : ℤ) (w : World X) (l : Ledger) {n : ℤ} {w' : World X}
      → Represents w.storage l
      → Shares.deposit h from assets w ≡ ok (n, w')
      → Performs (Call.deposit from assets) w w' l
  deposit-Performs from assets w l {n} r e =
      let (_, _, _, _, positive, _, _) = deposit-moves h from assets w e in
      record {
        action = Action.issue from n;
        meant = (n, refl);
        enabled = positive;
        authorised = tt;
        represents = rw (deposit-storage h from assets w e) (record {
          shares = λ a.
              balance-credit a from n w.storage.share_balance
              ∙ ap (λ b. b +ℤ only_at from n a) (r.shares a);
          total = ap (λ t. t +ℤ n) r.total;
        });
      }

  redeem-Performs :
      (from : Address) (n : ℤ) (w : World X) (l : Ledger) {assets : ℤ} {w' : World X}
      → Represents w.storage l
      → Redeem.redeem h from n w ≡ ok (assets, w')
      → w.authorized from ≡ true
      → Performs (Call.redeem from n) w w' l
  redeem-Performs from n w l r e auth =
      let (_, positive, owned, _, _, _) = redeem-pays h from n w e in
      record {
        action = Action.retire from n;
        meant = refl;
        enabled = (positive, ground (arith, owned, r.shares from));
        authorised = auth;
        represents = rw (redeem-storage h from n w e) (record {
          shares = λ a.
              balance-debit a from n w.storage.share_balance
              ∙ ap (λ b. b -ℤ only_at from n a) (r.shares a);
          total = ap (λ t. t -ℤ n) r.total;
        });
      }

  collect_fees-Performs :
      (w : World X) (l : Ledger) {n : ℤ} {w' : World X}
      → Represents w.storage l
      → Fees.collect_fees h w ≡ ok (n, w')
      → Performs Call.collect_fees w w' l
  collect_fees-Performs w l {n} r e =
      let (to, _, eq, positive) = collect_fees-storage h w e in
      record {
        action = Action.issue to n;
        meant = (to, (n, refl));
        enabled = positive;
        authorised = tt;
        represents = rw eq (record {
          shares = λ a.
              balance-credit a to n w.storage.share_balance
              ∙ ap (λ b. b +ℤ only_at to n a) (r.shares a);
          total = ap (λ t. t +ℤ n) r.total;
        });
      }

  -- From a sound storage, every call that returns performs the action of the ledger that it is for: a transfer moves, a
  -- deposit and a collection of fees issue, a redemption retires, and any other call is idle. Its
  -- amount is positive, whoever gives shares away has them and has authorised the call, and the
  -- storage represents the ledger afterwards if it did before.
  pub invoke-Performs :
      (c : Call) (w : World X) (l : Ledger) {w' : World X}
      → IsSound w.storage
      → Represents w.storage l
      → invoke h c w ≡ ok (tt, w')
      → Performs c w w' l
  unfolding invoke Admin.initialize Admin.pause Admin.unpause Admin.accept_admin
      Admin.set_deposit_cap Admin.set_keeper Admin.set_guardian Admin.propose_admin
      Admin.set_bridged_max_age Upgrade.set_upgrade_delay Upgrade.schedule_upgrade
      Upgrade.execute_upgrade Upgrade.cancel_upgrade Strategies.add_strategy
      Strategies.remove_strategy Strategies.allocate Strategies.deallocate Redeem.untrack
      Strategies.emergency_withdraw_strategy Strategies.attest_bridged_balance
      Strategies.update_tracked_balance
  invoke-Performs (Call.transfer from to n) w l sound r e = transfer-Performs from to n w l r e
  invoke-Performs (Call.deposit from assets) w l sound r e =
      deposit-Performs from assets w l r (discard-ok (Shares.deposit h from assets) w e).1
  invoke-Performs (Call.redeem from n) w l sound r e =
      redeem-Performs from n w l r (discard-ok (Redeem.redeem h from n) w e).1
        (invoke-IsPermitted h (Call.redeem from n) w e)
  invoke-Performs Call.collect_fees w l sound r e =
      collect_fees-Performs w l r (discard-ok (Fees.collect_fees h) w e).1
  invoke-Performs (Call.initialize admin config) w l sound r e = record {
    action = Action.idle;
    meant = refl;
    enabled = tt;
    authorised = tt;
    represents = record {
      shares = λ a. ground (arith, r.shares a);
      total = ground (arith, r.total, sound.fresh);
    };
  }
  invoke-Performs _ w l sound r e = record {
    action = Action.idle;
    meant = refl;
    enabled = tt;
    authorised = tt;
    represents = record {
      shares = λ a. ground (arith, r.shares a);
      total = ground (arith, r.total);
    };
  }

  -- Every history of calls and outside changes from a sound storage is a history of the ledger of
  -- shares, call by call: if the storage represents a ledger at its start, it represents at its end
  -- the one that results when each transfer moves the amount that it names, each deposit and each
  -- collection of fees issues shares, each redemption retires the shares that it names, and any other
  -- call is idle. Each amount is positive, and whoever gives shares away has them and has authorised
  -- the call.
  pub Reach-Acts :
      {w w' : World X} (l : Ledger)
      → IsSound w.storage
      → Represents w.storage l
      → (r : Reach h w w') → (l' : Ledger) × (Acts h r l l' × Represents w'.storage l')
  Reach-Acts l sound r Reach.here = (l, (refl, r))
  Reach-Acts l sound r (Reach.next {u = u} before (Step.calls c e)) =
      let (m, (acts, represents)) = Reach-Acts l sound r before in
      let p = invoke-Performs c u m (Reach-IsSound h sound before) represents e in
      (
        act p.action m,
        ((m, acts, (p.action, p.meant, p.enabled, p.authorised, refl)), p.represents),
      )
  Reach-Acts l sound r (Reach.next before (Step.passes x now authorized le)) =
      Reach-Acts l sound r before

  -- From a sound storage, no call that a holder has not authorised takes shares from the holder,
  -- whatever the call.
  pub shares_kept :
      (c : Call) (a : Address) (w : World X) {w' : World X}
      → IsSound w.storage
      → invoke h c w ≡ ok (tt, w')
      → w.authorized a ≡ false
      → get_share_balance w.storage a ≤ℤ get_share_balance w'.storage a
  shares_kept c a w {w'} sound e denied =
      kept p.action p.enabled p.authorised (p.represents.shares a)
    where
      before : Ledger
      before = record { held = get_share_balance w.storage; supply = get_total_supply w.storage }

      p : Performs c w w' before
      p = invoke-Performs c w before sound (record { shares = λ b. refl; total = refl }) e

      kept :
          (action : Action)
          → Enabled action before
          → IsAuthorized w.authorized action
          → get_share_balance w'.storage a ≡ (act action before).held a
          → get_share_balance w.storage a ≤ℤ get_share_balance w'.storage a
      kept Action.idle enabled auth after = ground arith
      kept (Action.move from to n) enabled auth after = grind int_laws
      kept (Action.issue to n) enabled auth after = grind int_laws
      kept (Action.retire from n) enabled auth after = grind int_laws
