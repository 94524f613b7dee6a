-- ===== src/Vault/Invariant/Tokens.antt =====
-- The methods that move shares keep the storage sound.
use tezoro_yield_aggregator.Base.{◌≡◌, arith, ap, ◌∙◌}
use tezoro_yield_aggregator.Base.Int.{ℤ, int_laws, ◌+ℤ◌, ◌-ℤ◌}
use tezoro_yield_aggregator.Base.Map.{
  Address, sum-insert, sum-credit, credit-IsNonneg, sum-debit, debit-IsNonneg, insert-IsNonneg,
  balance_nonneg,
}
use tezoro_yield_aggregator.Base.Outcome.{ok}
use tezoro_yield_aggregator.Base.Words
use tezoro_yield_aggregator.Common.{Chain}
use tezoro_yield_aggregator.Vault.State.{World}
use tezoro_yield_aggregator.Vault.Soundness.{IsSound, IsBacked}
use tezoro_yield_aggregator.Vault.Redeem.{redeem}
use tezoro_yield_aggregator.Vault.Redeem.Effects.{
  redeem-storage, redeem-tracked-IsNonneg, redeem-pays, redeem-initialized,
}
use tezoro_yield_aggregator.Vault.Fees.{collect_fees}
use tezoro_yield_aggregator.Vault.Fees.Effects.{collect_fees-storage, collect_fees-initialized}
use tezoro_yield_aggregator.Vault.Shares.Effects.{deposit-storage, deposit-moves}
use tezoro_yield_aggregator.Vault.Shares.{transfer, deposit}

module _ {X : Type 0} where
  transfer-IsBacked :
      (from to : Address) (amount : ℤ) (w : World X) {w' : World X}
      → IsBacked w.storage
      → transfer from to amount w ≡ ok (tt, w')
      → IsBacked w'.storage
  unfolding transfer
  transfer-IsBacked from to amount w s e = grind (
    int_laws, Words.sub_exact, Words.add_exact, sum-insert, sum-credit, credit-IsNonneg, sum-debit,
    debit-IsNonneg, insert-IsNonneg, balance_nonneg,
  )

  pub transfer-IsSound :
      (from to : Address) (amount : ℤ) (w : World X) {w' : World X}
      → IsSound w.storage
      → transfer from to amount w ≡ ok (tt, w')
      → IsSound w'.storage
  unfolding transfer
  transfer-IsSound from to amount w s e = record {
    backed = transfer-IsBacked from to amount w s.backed e;
    tracked = ground arith;
    configured = ground arith;
    fresh = ground arith;
  }

module _ {X : Type 0} (h : Chain X) where
  pub deposit-IsSound :
      (from : Address) (assets : ℤ) (w : World X) {shares : ℤ} {w' : World X}
      → IsSound w.storage
      → deposit h from assets w ≡ ok (shares, w')
      → IsSound w'.storage
  unfolding deposit
  deposit-IsSound from assets w {shares} s e =
      let m = deposit-moves h from assets w e in
      record {
        backed = rw (deposit-storage h from assets w e) (record {
          nonneg =
              credit-IsNonneg from shares w.storage.share_balance (omega arith) s.backed.nonneg;
          backed =
              sum-credit from shares w.storage.share_balance
              ∙ ap (λ t. t +ℤ shares) s.backed.backed;
        });
        tracked = ground arith;
        configured = ground arith;
        fresh = rw (deposit-storage h from assets w e) (λ n. absurd (ground arith));
      }

  pub redeem-IsSound :
      (from : Address) (shares : ℤ) (w : World X) {assets : ℤ} {w' : World X}
      → IsSound w.storage
      → redeem h from shares w ≡ ok (assets, w')
      → IsSound w'.storage
  redeem-IsSound from shares w s e =
      let eq = redeem-storage h from shares w e in
      let pays = redeem-pays h from shares w e in
      record {
        backed = rw eq (record {
          nonneg = debit-IsNonneg from shares w.storage.share_balance pays.2 s.backed.nonneg;
          backed =
              sum-debit from shares w.storage.share_balance ∙ ap (λ t. t -ℤ shares) s.backed.backed;
        });
        tracked = rw eq (record {
          nonneg = redeem-tracked-IsNonneg h from shares w e s.tracked.nonneg;
          distinct = s.tracked.distinct;
          bounded = s.tracked.bounded;
          bridged_nonneg = s.tracked.bridged_nonneg;
        });
        configured = rw eq (ground arith);
        fresh = λ n. absurd (ground (arith, redeem-initialized h from shares w e, eq));
      }

  pub collect_fees-IsSound :
      (w : World X) {fee_shares : ℤ} {w' : World X}
      → IsSound w.storage
      → collect_fees h w ≡ ok (fee_shares, w')
      → IsSound w'.storage
  collect_fees-IsSound w {fee_shares} s e =
      let (recipient, _, eq, positive) = collect_fees-storage h w e in
      record {
        backed = rw eq (record {
          nonneg =
              credit-IsNonneg recipient fee_shares w.storage.share_balance (omega arith)
                s.backed.nonneg;
          backed =
              sum-credit recipient fee_shares w.storage.share_balance
              ∙ ap (λ t. t +ℤ fee_shares) s.backed.backed;
        });
        tracked = rw eq (ground arith);
        configured = rw eq (ground arith);
        fresh = λ n. absurd (ground (arith, collect_fees-initialized h w e, eq));
      }
