-- ===== src/Vault/Refusals.antt =====
-- The errors that a method returns: a method is followed guard by guard, as long as it leaves the
-- state alone.
pub mod Deposits
pub mod Redemptions
pub mod Allocations
use tezoro_yield_aggregator.Base.{◌≡◌, ◌≢◌, refl, Bool, true, false, arith}
use tezoro_yield_aggregator.Base.Map.{Address}
use tezoro_yield_aggregator.Base.Outcome.{Outcome, ok, err, trap}
use tezoro_yield_aggregator.Vault.State.{World, VaultError}
use tezoro_yield_aggregator.Vault.Monad
use tezoro_yield_aggregator.Vault.Monad.{M, require, when, reads, lift, require_auth}

-- `P` holds of the error, if there is one.
abbrev pub Errs : {X A : Type 0} → Outcome VaultError (A × World X) → (VaultError → Type 0) → Type 0
Errs (ok (a, w)) P = Unit
Errs (err e) P = P e
Errs trap P = Unit

pub Errs-err :
    {X A : Type 0} (P : VaultError → Type 0) (r : Outcome VaultError (A × World X)) {e : VaultError}
    → Errs r P
    → r ≡ err e
    → P e
Errs-err P (ok (a, w)) p q = cc
Errs-err P (err e) p q = ground arith
Errs-err P trap p q = cc

module _ {X : Type 0} (P : VaultError → Type 0) where
  pub Errs-require :
      {A : Type 0} (test : Bool) (e : VaultError) (f : Unit {0} → M X A) (w : World X)
      → (test ≡ false → P e)
      → (test ≡ true → Errs (f tt w) P)
      → Errs (Monad.◌>>=◌ (require test e) f w) P
  Errs-require true e f w p q = q refl
  Errs-require false e f w p q = p refl

  pub Errs-require_auth :
      {A : Type 0} (a : Address) (f : Unit {0} → M X A) (w : World X)
      → (w.authorized a ≡ true → Errs (f tt w) P)
      → Errs (Monad.◌>>=◌ (require_auth a) f w) P
  Errs-require_auth a f w q = step (w.authorized a) q
    where
      step :
          (b : Bool)
          → (b ≡ true → Errs (f tt w) P)
          → Errs (Monad.◌>>=◌ (λ v. elim b [ true ↦ ok (tt, v) | false ↦ trap ]) f w) P
      step true q' = q' refl
      step false q' = tt

  -- A computation that may trap, but returns no error.
  pub Errs-lift :
      {A B : Type 0} (o : Outcome VaultError A) (f : A → M X B) (w : World X)
      → ((e : VaultError) → o ≢ err e)
      → ((a : A) → o ≡ ok a → Errs (f a w) P)
      → Errs (Monad.◌>>=◌ (lift o) f w) P
  Errs-lift (ok a) f w n q = q a refl
  Errs-lift (err e) f w n q = absurd (n e refl)
  Errs-lift trap f w n q = tt

  pub Errs-reads :
      {A B : Type 0} (o : World X → Outcome VaultError A) (f : A → M X B) (w : World X)
      → ((e : VaultError) → o w ≢ err e)
      → ((a : A) → o w ≡ ok a → Errs (f a w) P)
      → Errs (Monad.◌>>=◌ (reads o) f w) P
  Errs-reads o f w n q = Errs-lift (o w) f w n q

  -- A method that may trap, but returns no error, may also change the state.
  pub Errs-traps :
      {A B : Type 0} (m : M X A) (f : A → M X B) (w : World X)
      → ((e : VaultError) → m w ≢ err e)
      → ((a : A) (w' : World X) → Errs (f a w') P)
      → Errs (Monad.◌>>=◌ m f w) P
  Errs-traps {A} {B} m f w n q = step (m w) n
    where
      step :
          (r : Outcome VaultError (A × World X))
          → ((e : VaultError) → r ≢ err e)
          → Errs (elim r [ ok (a, w') ↦ f a w' | err e ↦ err e | trap ↦ trap ]) P
      step (ok (a, w')) n' = q a w'
      step (err e) n' = absurd (n' e refl)
      step trap n' = tt

  pub Errs-bind :
      {A B : Type 0} (m : M X A) (f : A → M X B) (w : World X)
      → Errs (m w) P
      → ((a : A) (w' : World X) → Errs (f a w') P)
      → Errs (Monad.◌>>=◌ m f w) P
  Errs-bind {A} {B} m f w p q = step (m w) p
    where
      step :
          (r : Outcome VaultError (A × World X))
          → Errs r P
          → Errs (elim r [ ok (a, w') ↦ f a w' | err e ↦ err e | trap ↦ trap ]) P
      step (ok (a, w')) p' = q a w'
      step (err e) p' = p'
      step trap p' = tt

  pub Errs-when :
      (test : Bool) (m : M X (Unit {0})) (w : World X)
      → (test ≡ true → Errs (m w) P)
      → Errs (when test m w) P
  Errs-when true m w p = p refl
  Errs-when false m w p = tt

  pub Errs-last :
      (test : Bool) (e : VaultError) (w : World X)
      → (test ≡ false → P e)
      → Errs (require test e w) P
  Errs-last true e w p = tt
  Errs-last false e w p = p refl
