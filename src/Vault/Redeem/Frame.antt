-- ===== src/Vault/Redeem/Frame.antt =====
-- What the waterfall of `redeem` leaves alone: it writes tracked balances only, and keeps them
-- nonnegative.
use tezoro_yield_aggregator.Base.{◌≡◌, refl, ◌∙◌, List, [], ◌∷◌, arith}
use tezoro_yield_aggregator.Base.Int.{ℤ, pos, ◌≤ℤ◌, leb_ℤ, ltb_ℤ, int_laws}
use tezoro_yield_aggregator.Base.Map.{Address, IsNonneg, insert-IsNonneg, balance_nonneg}
use tezoro_yield_aggregator.Base.Outcome.{Outcome, ok, called}
use tezoro_yield_aggregator.Base.Words
use tezoro_yield_aggregator.Common.{Chain}
use tezoro_yield_aggregator.Vault.State.{World, VaultError, insufficient_assets}
use tezoro_yield_aggregator.Vault.Store.{get_strategies}
use tezoro_yield_aggregator.Vault.Assets.{idle_balance}
use tezoro_yield_aggregator.Vault.Monad.{reads}
use tezoro_yield_aggregator.Vault.Keeps.{
  IsPreorder, Keeps, Keeps-bind, Keeps-when, Keeps-reads, Keeps-lift, Keeps-require, Keeps-ok,
  Keeps-pure, Keeps-if,
}
use tezoro_yield_aggregator.Vault.Redeem.{
  tracked_after, untrack, withdraw_from, remaining_after, pull, pull_from, waterfall, cover,
}

pub record OnlyPulls {X : Type 0} (w w' : World X) : Type 0 where
  pub storage_eq : w'.storage ≡ record w.storage { tracked_balance = w'.storage.tracked_balance }
  pub self_eq : w'.self ≡ w.self
  pub timestamp_eq : w'.timestamp ≡ w.timestamp
  pub wasm_eq : w'.wasm ≡ w.wasm
  pub authorized_eq : w'.authorized ≡ w.authorized
  pub nonneg : IsNonneg w.storage.tracked_balance → IsNonneg w'.storage.tracked_balance

OnlyPulls-preorder : {X : Type 0} → IsPreorder (OnlyPulls {X = X})
OnlyPulls-preorder = record {
  self_related = λ w. record {
    storage_eq = refl;
    self_eq = refl;
    timestamp_eq = refl;
    wasm_eq = refl;
    authorized_eq = refl;
    nonneg = λ n. n;
  };
  trans = λ u v w p q. record {
    storage_eq = ground arith;
    self_eq = q.self_eq ∙ p.self_eq;
    timestamp_eq = q.timestamp_eq ∙ p.timestamp_eq;
    wasm_eq = q.wasm_eq ∙ p.wasm_eq;
    authorized_eq = q.authorized_eq ∙ p.authorized_eq;
    nonneg = λ n. q.nonneg (p.nonneg n);
  };
}

pub tracked_after_nonneg :
    (tracked withdrawn left : ℤ)
    → pos 0 ≤ℤ tracked
    → tracked_after tracked withdrawn ≡ ok left
    → pos 0 ≤ℤ left
unfolding tracked_after
tracked_after_nonneg tracked withdrawn left p e =
    grind (int_laws, Words.sub_exact tracked withdrawn left)

module _ {X : Type 0} where
  pub untrack-OnlyPulls :
      (strategy : Address) (withdrawn : ℤ) → Keeps (OnlyPulls {X = X}) (untrack strategy withdrawn)
  unfolding untrack tracked_after
  untrack-OnlyPulls strategy withdrawn = record {
    at = λ w. grind (int_laws, Words.sub_exact, insert-IsNonneg, balance_nonneg);
  }

module _ {X : Type 0} (h : Chain X) where
  withdraw_from-OnlyPulls :
      (strategy : Address) (amount : ℤ) → Keeps OnlyPulls (withdraw_from h strategy amount)
  withdraw_from-OnlyPulls strategy amount = record { at = λ w. ground arith }

  pull-OnlyPulls :
      (strategy : Address) (remaining available : ℤ)
      → Keeps OnlyPulls (pull h strategy remaining available)
  unfolding pull
  pull-OnlyPulls strategy remaining available =
      Keeps-bind OnlyPulls-preorder _ _ (withdraw_from-OnlyPulls strategy _) λ withdrawn.
        Keeps-bind OnlyPulls-preorder _ _ (untrack-OnlyPulls strategy withdrawn)
          λ _. Keeps-lift OnlyPulls-preorder (remaining_after remaining withdrawn)

  pull_from-OnlyPulls :
      (strategy : Address) (remaining : ℤ) → Keeps OnlyPulls (pull_from h strategy remaining)
  unfolding pull_from
  pull_from-OnlyPulls strategy remaining =
      Keeps-bind OnlyPulls-preorder (reads available_in) _
        (Keeps-reads OnlyPulls-preorder available_in)
        λ available.
          Keeps-if OnlyPulls-preorder (leb_ℤ available (pos 0)) _ _
            (Keeps-pure OnlyPulls-preorder remaining) (pull-OnlyPulls strategy remaining available)
    where
      available_in : World X → Outcome VaultError ℤ
      available_in w = called ((h.strategy strategy).available_liquidity w.chain)

  pub waterfall-OnlyPulls :
      (strategies : List Address) (remaining : ℤ)
      → Keeps OnlyPulls (waterfall h strategies remaining)
  unfolding waterfall
  waterfall-OnlyPulls [] remaining = Keeps-pure OnlyPulls-preorder tt
  waterfall-OnlyPulls (s ∷ strategies) remaining = Keeps-when OnlyPulls-preorder _ _ (
      Keeps-bind OnlyPulls-preorder _ _ (pull_from-OnlyPulls s remaining)
        (waterfall-OnlyPulls strategies))

  pub cover-OnlyPulls : (assets idle : ℤ) → Keeps OnlyPulls (cover h assets idle)
  unfolding cover
  cover-OnlyPulls assets idle = Keeps-when OnlyPulls-preorder (ltb_ℤ idle assets) _ (
      Keeps-bind OnlyPulls-preorder _ _ (Keeps-lift OnlyPulls-preorder (Words.sub assets idle))
        λ remaining.
          Keeps-bind OnlyPulls-preorder (reads listed) _ (Keeps-reads OnlyPulls-preorder listed)
            λ strategies.
              Keeps-bind OnlyPulls-preorder _ _ (waterfall-OnlyPulls strategies remaining) λ _.
                Keeps-bind OnlyPulls-preorder (reads (idle_balance h)) _
                  (Keeps-reads OnlyPulls-preorder (idle_balance h))
                  λ idle_after.
                    Keeps-require OnlyPulls-preorder (leb_ℤ assets idle_after) insufficient_assets)
    where
      listed : World X → Outcome VaultError (List Address)
      listed w = ok (get_strategies w.storage)

  pub cover-frame :
      (assets idle : ℤ) (w : World X) {w' : World X}
      → cover h assets idle w ≡ ok (tt, w')
      → OnlyPulls w w'
  cover-frame assets idle w e = Keeps-ok (cover-OnlyPulls assets idle) w e
