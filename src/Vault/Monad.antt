-- ===== src/Vault/Monad.antt =====
-- A method of the vault: state, errors and traps. Unless a method returns, the host undoes its
-- writes and those of the contracts that it called.
use tezoro_yield_aggregator.Base.{Bool, true, false, ◌∷◌}
use tezoro_yield_aggregator.Base.Map.{Address}
use tezoro_yield_aggregator.Base.Outcome.{Outcome, ok, err, trap}
use tezoro_yield_aggregator.Common.{StrategyError}
use tezoro_yield_aggregator.Vault.State.{VaultError, Storage, Event, World}

abbrev pub M : Type 0 → Type 0 → Type 0
M X A = World X → Outcome VaultError (A × World X)

module _ {X : Type 0} where
  infixl 5 ◌>>=◌ ◌>>◌
  abbrev pub ◌>>=◌ : {A B : Type 0} → M X A → (A → M X B) → M X B
  ◌>>=◌ m f w = elim (m w) [ ok (a, w') ↦ f a w' | err e ↦ err e | trap ↦ trap ]

  abbrev pub ◌>>◌ : {B : Type 0} → M X (Unit {0}) → M X B → M X B
  m >> k = m >>= λ _. k

  abbrev pub pure : {A : Type 0} → A → M X A
  pure a w = ok (a, w)

  abbrev pub fail : {A : Type 0} → VaultError → M X A
  fail e w = err e

  -- `if !test { return Err(e) }`
  abbrev pub require : Bool → VaultError → M X (Unit {0})
  require test e w = elim test [ true ↦ ok (tt, w) | false ↦ err e ]

  -- `if test { m }`
  abbrev pub when : Bool → M X (Unit {0}) → M X (Unit {0})
  when true m = m
  when false m = pure tt

  -- A computation that reads the state, and may fail.
  abbrev pub reads : {A : Type 0} → (World X → Outcome VaultError A) → M X A
  reads f w = elim (f w) [ ok a ↦ ok (a, w) | err e ↦ err e | trap ↦ trap ]

  abbrev pub lift : {A : Type 0} → Outcome VaultError A → M X A
  lift r w = elim r [ ok a ↦ ok (a, w) | err e ↦ err e | trap ↦ trap ]

  abbrev pub modify : (Storage → Storage) → M X (Unit {0})
  modify f w = ok (tt, record w { storage = f w.storage })

  abbrev pub publish : Event → M X (Unit {0})
  publish e w = ok (tt, record w { events = e ∷ w.events })

  -- `address.require_auth()`
  abbrev pub require_auth : Address → M X (Unit {0})
  require_auth a w = elim (w.authorized a) [ true ↦ ok (tt, w) | false ↦ trap ]

  -- A call of another contract that changes its state.
  abbrev pub call : {A : Type 0} → (X → Outcome StrategyError (A × X)) → M X A
  call f w = elim (f w.chain) [
    | ok (a, x) ↦ ok (a, record w { chain = x })
    | err e ↦ trap
    | trap ↦ trap
  ]

-- What holds of the result and the state if a method returns.
abbrev pub After :
    {X A : Type 0} → Outcome VaultError (A × World X) → (A → World X → Type 0) → Type 0
After (ok (a, w)) P = P a w
After (err e) P = Unit
After trap P = Unit

pub After-bind :
    {X A B : Type 0} (m : M X A) (f : A → M X B) (w : World X) (P : A → World X → Type 0)
    (Q : B → World X → Type 0)
    → After (m w) P
    → ((a : A) (w' : World X) → P a w' → After (f a w') Q)
    → After ((m >>= f) w) Q
After-bind {X} {A} m f w P Q p q = step (m w) p
  where
    step :
        (r : Outcome VaultError (A × World X))
        → After r P
        → After (elim r [ ok (a, w') ↦ f a w' | err e ↦ err e | trap ↦ trap ]) Q
    step (ok (a, w')) p' = q a w' p'
    step (err e) p' = tt
    step trap p' = tt

pub After-when :
    {X : Type 0} (test : Bool) (m : M X (Unit {0})) (w : World X) (Q : Unit {0} → World X → Type 0)
    → After (m w) Q
    → Q tt w
    → After (when test m w) Q
After-when true m w Q p q = p
After-when false m w Q p q = q

-- A postcondition may be weakened.
pub After-mono :
    {X A : Type 0} (r : Outcome VaultError (A × World X)) (P Q : A → World X → Type 0)
    → After r P
    → ((a : A) (w : World X) → P a w → Q a w)
    → After r Q
After-mono (ok (a, w)) P Q p k = k a w p
After-mono (err e) P Q p k = tt
After-mono trap P Q p k = tt
