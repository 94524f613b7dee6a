-- ===== src/Strategy.antt =====
-- What the strategy contracts have in common: the state of a call, and the methods over it. `S` is
-- a contract's storage, `E` its events, `X` the state of all other contracts.
pub mod Conformance
use tezoro_yield_aggregator.Base.{ℕ, Bool, true, false, Option, none, some, List, ◌∷◌}
use tezoro_yield_aggregator.Base.Map.{Address}
use tezoro_yield_aggregator.Base.Outcome.{Outcome, ok, err, trap}
use tezoro_yield_aggregator.Common.{StrategyError, Hash}

-- As for the vault, with the sequence number of the ledger.
pub record Contract (S E X : Type 0) : Type 0 where
  pub storage : S
  pub events : List E
  pub wasm : Hash
  pub chain : X
  pub timestamp : ℕ
  pub sequence : ℕ
  pub self : Address
  pub authorized : Address → Bool

abbrev pub M : Type 0 → Type 0 → Type 0 → Type 0 → Type 0
M S E X A = Contract S E X → Outcome StrategyError (A × Contract S E X)

module _ {S E X : Type 0} where
  infixl 5 ◌>>=◌ ◌>>◌
  abbrev pub ◌>>=◌ : {A B : Type 0} → M S E X A → (A → M S E X B) → M S E X B
  ◌>>=◌ m f w = elim (m w) [ ok (a, w') ↦ f a w' | err e ↦ err e | trap ↦ trap ]

  abbrev pub ◌>>◌ : {B : Type 0} → M S E X (Unit {0}) → M S E X B → M S E X B
  m >> k = m >>= λ _. k

  abbrev pub pure : {A : Type 0} → A → M S E X A
  pure a w = ok (a, w)

  abbrev pub require : Bool → StrategyError → M S E X (Unit {0})
  require test e w = elim test [ true ↦ ok (tt, w) | false ↦ err e ]

  abbrev pub reads : {A : Type 0} → (Contract S E X → Outcome StrategyError A) → M S E X A
  reads f w = elim (f w) [ ok a ↦ ok (a, w) | err e ↦ err e | trap ↦ trap ]

  abbrev pub lift : {A : Type 0} → Outcome StrategyError A → M S E X A
  lift r w = elim r [ ok a ↦ ok (a, w) | err e ↦ err e | trap ↦ trap ]

  abbrev pub modify : (S → S) → M S E X (Unit {0})
  modify f w = ok (tt, record w { storage = f w.storage })

  abbrev pub publish : E → M S E X (Unit {0})
  publish e w = ok (tt, record w { events = e ∷ w.events })

  abbrev pub require_auth : Address → M S E X (Unit {0})
  require_auth a w = elim (w.authorized a) [ true ↦ ok (tt, w) | false ↦ trap ]

  -- A call of another contract, which traps as a whole if that contract fails.
  abbrev pub calls : {A : Type 0} → (X → Option (A × X)) → M S E X A
  calls f w = elim (f w.chain) [ none ↦ trap | some (a, x) ↦ ok (a, record w { chain = x }) ]

  abbrev pub runs : (X → Option X) → M S E X (Unit {0})
  runs f w = elim (f w.chain) [ none ↦ trap | some x ↦ ok (tt, record w { chain = x }) ]
