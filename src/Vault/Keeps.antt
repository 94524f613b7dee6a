-- ===== src/Vault/Keeps.antt =====
-- Relations between the states before and after a method, such as "writes only this": a
-- reflexive and transitive relation holds for a composed method if it does for its parts.
use tezoro_yield_aggregator.Base.{Bool, true, false, ◌≡◌, refl, if◌then◌else◌}
use tezoro_yield_aggregator.Base.Outcome.{Outcome, ok, err, trap}
use tezoro_yield_aggregator.Vault.State.{VaultError, World}
use tezoro_yield_aggregator.Vault.Monad.{
  M, ◌>>=◌, require, when, reads, lift, pure, After, After-bind, After-mono,
}

pub record IsPreorder {X : Type 0} (R : World X → World X → Type 0) : Type 0 where
  pub self_related : (w : World X) → R w w
  pub trans : (u v w : World X) → R u v → R v w → R u w

-- Whenever the method returns, the states before and after are related.
pub record Keeps {X A : Type 0} (R : World X → World X → Type 0) (m : M X A) : Type 0 where
  pub at : (w : World X) → After (m w) (λ _ w'. R w w')

module _ {X : Type 0} {R : World X → World X → Type 0} (r : IsPreorder R) where
  pub Keeps-bind :
      {A B : Type 0} (m : M X A) (f : A → M X B)
      → Keeps R m
      → ((a : A) → Keeps R (f a))
      → Keeps R (m >>= f)
  Keeps-bind m f p q = record {
    at = λ w.
        After-bind m f w (λ _ v. R w v) (λ _ v. R w v) (p.at w)
          (λ a v s.
            After-mono (f a v) (λ _ u. R v u) (λ _ u. R w u) ((q a).at v)
              (λ _ u t. r.trans w v u s t));
  }

  pub Keeps-pure : {A : Type 0} (a : A) → Keeps R (pure a)
  Keeps-pure a = record { at = r.self_related }

  pub Keeps-when : (test : Bool) (m : M X (Unit {0})) → Keeps R m → Keeps R (when test m)
  Keeps-when true m p = p
  Keeps-when false m p = Keeps-pure tt

  pub Keeps-if :
      {A : Type 0} (test : Bool) (m n : M X A)
      → Keeps R m
      → Keeps R n
      → Keeps R (if test then m else n)
  Keeps-if true m n p q = p
  Keeps-if false m n p q = q

  After-lift :
      {A : Type 0} (o : Outcome VaultError A) (w : World X) → After (lift o w) (λ _ v. R w v)
  After-lift (ok a) w = r.self_related w
  After-lift (err e) w = tt
  After-lift trap w = tt

  pub Keeps-lift : {A : Type 0} (o : Outcome VaultError A) → Keeps R (lift o)
  Keeps-lift o = record { at = After-lift o }

  pub Keeps-reads : {A : Type 0} (f : World X → Outcome VaultError A) → Keeps R (reads f)
  Keeps-reads f = record { at = λ w. After-lift (f w) w }

  pub Keeps-require : (test : Bool) (e : VaultError) → Keeps R (require test e)
  Keeps-require true e = record { at = r.self_related }
  Keeps-require false e = record { at = λ w. tt }

-- For `m` that returns, with the equation.
pub Keeps-ok :
    {X A : Type 0} {R : World X → World X → Type 0} {m : M X A}
    → Keeps R m
    → (w : World X) {a : A} {w' : World X} → m w ≡ ok (a, w')
    → R w w'
Keeps-ok {R} k w e = rw e at (k.at w)

-- The other way round.
pub Keeps-intro :
    {X A : Type 0} {R : World X → World X → Type 0} (m : M X A)
    → ((w : World X) (a : A) (w' : World X) → m w ≡ ok (a, w') → R w w')
    → Keeps R m
Keeps-intro {X} {A} {R} m f = record { at = λ w. go w (m w) refl }
  where
    go : (w : World X) (o : Outcome VaultError (A × World X)) → m w ≡ o → After o (λ _ w'. R w w')
    go w (ok (a, w')) e = f w a w' e
    go w (err x) e = tt
    go w trap e = tt
