-- ===== src/Vault/Refusals/Allocations.antt =====
-- The errors of `allocate` of contracts/contracts/tezoro-vault/src/lib.rs.
use tezoro_yield_aggregator.Base.{
  ◌≡◌, ◌≢◌, ◌⊎◌, inl, refl, Bool, true, false, Option, none, some, ◌==◌, arith,
}
use tezoro_yield_aggregator.Base.Int.{ℤ, pos, ◌≤ℤ◌, ◌-ℤ◌, ltb_ℤ, leb_ℤ}
use tezoro_yield_aggregator.Base.Map.{Address}
use tezoro_yield_aggregator.Base.Outcome.{Outcome, ok, err, called, value_or, unwrap}
use tezoro_yield_aggregator.Base.Words
use tezoro_yield_aggregator.Common.{Chain, max_bps}
use tezoro_yield_aggregator.Vault.State.{
  World, VaultError, unauthorized, zero_amount, strategy_not_active, idle_buffer_violation,
  strategy_unhealthy,
}
use tezoro_yield_aggregator.Vault.Store.{
  get_keeper, strategy_exists, get_idle_buffer_bps, get_tracked_balance,
}
use tezoro_yield_aggregator.Vault.Monad
use tezoro_yield_aggregator.Vault.Monad.{M, lift, require}
use tezoro_yield_aggregator.Vault.Guards.{require_keeper}
use tezoro_yield_aggregator.Vault.Assets.{total_assets, idle_balance, mul_div}
use tezoro_yield_aggregator.Vault.Shares.{transfer_asset}
use tezoro_yield_aggregator.Vault.Strategies.{allocate, deposit_into}
use tezoro_yield_aggregator.Vault.Refusals.{
  Errs, Errs-err, Errs-require, Errs-require_auth, Errs-lift, Errs-reads, Errs-traps,
}
use tezoro_yield_aggregator.Vault.Refusals.Deposits.{
  add-no_err, total_assets-no_err, transfer_asset-no_err,
}
use tezoro_yield_aggregator.Vault.Refusals.Redemptions.{sub-no_err, idle_balance-no_err}

mul_div-no_err : (a f d : ℤ) (e : VaultError) → mul_div a f d ≢ err e
unfolding mul_div Words.mul Words.div
mul_div-no_err a f d e r = ground arith

get_keeper-no_err : {X : Type 0} (w : World X) (e : VaultError) → get_keeper w.storage ≢ err e
get_keeper-no_err w e r = ground arith

module _ {X : Type 0} (P : VaultError → Type 0) where
  Errs-require_keeper :
      {A : Type 0} (caller : Address) (f : Unit {0} → M X A) (w : World X)
      → (get_keeper w.storage ≢ ok caller → P unauthorized)
      → Errs (f tt w) P
      → Errs (Monad.◌>>=◌ (require_keeper caller) f w) P
  Errs-require_keeper {A} caller f w p q = step w.storage.keeper p
    where
      step :
          (k : Option Address)
          → (unwrap {E = VaultError} k ≢ ok caller → P unauthorized)
          → Errs
              (Monad.◌>>=◌
                (Monad.◌>>=◌ (lift (unwrap k)) (λ keeper. require (caller == keeper) unauthorized))
                f
                w)
              P
      step none p' = tt
      step (some k) p' = known (caller == k) (λ no. p' (λ e. ground arith))
        where
          known :
              (same : Bool)
              → (same ≡ false → P unauthorized)
              → Errs (Monad.◌>>=◌ (require same unauthorized) f w) P
          known true p'' = q
          known false p'' = p'' refl

module _ {X : Type 0} (h : Chain X) where
  -- Why `allocate` returns an error.
  abbrev pub AllocateRefused : Address → Address → ℤ → World X → VaultError → Type 0
  AllocateRefused keeper strategy amount w e =
      let idle = value_or (pos 0) (idle_balance h w) in
      let total = value_or (pos 0) (total_assets h w) in
      let buffer = pos (get_idle_buffer_bps w.storage) in
      let min_idle = value_or (pos 0) (mul_div total buffer (pos max_bps)) in
      ((e ≡ unauthorized) × (get_keeper w.storage ≢ ok keeper))
      ⊎ ((e ≡ zero_amount) × (amount ≤ℤ pos 0))
      ⊎ ((e ≡ strategy_not_active) × (strategy_exists w.storage strategy ≡ false))
      ⊎ ((e ≡ idle_buffer_violation) × (ltb_ℤ (idle -ℤ amount) min_idle ≡ true))
      ⊎ ((e ≡ strategy_unhealthy) × ((h.strategy strategy).is_healthy w.chain ≡ ok false))

  called-no_err :
      (strategy : Address) (w : World X) (e : VaultError)
      → called ((h.strategy strategy).is_healthy w.chain) ≢ err e
  called-no_err strategy w e r = ground arith

  called-false :
      (strategy : Address) (w : World X)
      → called {E = VaultError} ((h.strategy strategy).is_healthy w.chain) ≡ ok false
      → (h.strategy strategy).is_healthy w.chain ≡ ok false
  called-false strategy w r = ground arith

  deposit_into-no_err :
      (strategy : Address) (amount : ℤ) (w : World X) (e : VaultError)
      → deposit_into h strategy amount w ≢ err e
  deposit_into-no_err strategy amount w e r = ground arith

  allocate-Errs :
      (keeper strategy : Address) (amount : ℤ) (w : World X)
      → Errs (allocate h keeper strategy amount w) (AllocateRefused keeper strategy amount w)
  unfolding allocate
  allocate-Errs keeper strategy amount w =
      let P = AllocateRefused keeper strategy amount w in
      Errs-require_auth P keeper _ w λ auth.
        Errs-require_keeper P keeper _ w (λ no. inl (refl, no))
          (Errs-require P (ltb_ℤ (pos 0) amount) zero_amount _ w (λ no. ground arith)
            λ positive.
              Errs-require P (strategy_exists w.storage strategy) strategy_not_active _ w
                (λ no. ground arith)
                λ exists. Errs-reads P (idle_balance h) _ w (idle_balance-no_err h w) λ idle i.
                  Errs-reads P (total_assets h) _ w (total_assets-no_err h w) λ total t.
                    Errs-lift P (mul_div total buffer (pos max_bps)) _ w
                      (mul_div-no_err total buffer (pos max_bps))
                      λ min_idle m.
                        Errs-lift P (Words.sub idle amount) _ w (sub-no_err idle amount)
                          λ idle_after a.
                            Errs-require P (leb_ℤ min_idle idle_after) idle_buffer_violation _ w
                              (λ no. ground (arith, Words.sub_exact idle amount idle_after a))
                              λ buffered.
                                Errs-reads P healthy_now _ w (called-no_err strategy w) λ healthy c.
                                  Errs-require P healthy strategy_unhealthy _ w
                                    (λ no. ground (arith, called-false strategy w))
                                    λ _.
                                      Errs-traps P (transfer_asset h w.self strategy amount) _ w
                                        (transfer_asset-no_err h w.self strategy amount w)
                                        λ _ w1.
                                          Errs-traps P (deposit_into h strategy amount) _ w1
                                            (deposit_into-no_err strategy amount w1)
                                            λ _ w2.
                                              Errs-lift P (Words.add (tracked_in w2) amount) _ w2
                                                (add-no_err (tracked_in w2) amount) λ raised _. tt)
    where
      buffer : ℤ
      buffer = pos (get_idle_buffer_bps w.storage)

      healthy_now : World X → Outcome VaultError Bool
      healthy_now v = called ((h.strategy strategy).is_healthy v.chain)

      tracked_in : World X → ℤ
      tracked_in v = get_tracked_balance v.storage strategy

  -- If `allocate` returns an error then it is one of five, each for its reason: the caller is not
  -- the keeper, an amount that is not positive, a strategy that is not in the list, idle funds that
  -- would fall below the buffer, or a strategy that says that it is not healthy.
  pub allocate-Refused :
      (keeper strategy : Address) (amount : ℤ) (w : World X) {e : VaultError}
      → allocate h keeper strategy amount w ≡ err e
      → AllocateRefused keeper strategy amount w e
  allocate-Refused keeper strategy amount w =
      Errs-err (AllocateRefused keeper strategy amount w) (allocate h keeper strategy amount w)
        (allocate-Errs keeper strategy amount w)
