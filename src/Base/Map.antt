-- ===== src/Base/Map.antt =====
-- A family of storage entries under one kind of key, such as `ShareBalance(Address)`, as an
-- association list. An address is only compared, so it is a number.
use Prim.Native.Nat.{ℕ}
use mathlib.Core.Path.{◌≡◌, refl}
use mathlib.Core.Option.{Option, none, some}
use mathlib.Core.List.{List, [], ◌∷◌}
use native.Mathlib.Omega.{arith}
use tezoro_yield_aggregator.Base.Int.{ℤ, pos, ◌+ℤ◌, ◌-ℤ◌, ◌≤ℤ◌, int_laws}
use tezoro_yield_aggregator.Base.Tests.{◌==◌, if◌then◌else◌}

abbrev pub Address : Type 0
Address = ℕ

abbrev pub Map {ℓ} : Type ℓ → Type ℓ
Map V = List (Address × V)

module _ {ℓ} {V : Type ℓ} where
  unfoldable pub lookup : Address → Map V → Option V
  lookup k [] = none
  lookup k ((j, v) ∷ m) = if k == j then some v else lookup k m

  unfoldable pub insert : Address → V → Map V → Map V
  insert k v [] = (k, v) ∷ []
  insert k v (e ∷ m) = if k == e.0 then (k, v) ∷ m else e ∷ insert k v m

  unfoldable pub erase : Address → Map V → Map V
  erase k [] = []
  erase k (e ∷ m) = if k == e.0 then erase k m else e ∷ erase k m

  pub lookup-insert :
      (j k : Address) (v : V) (m : Map V)
      → lookup j (insert k v m) ≡ (if j == k then some v else lookup j m)
  unfolding lookup insert
  lookup-insert j k v [] = refl
  lookup-insert j k v (e ∷ m) = ground (arith, lookup-insert j k v m)

  pub lookup-erase :
      (j k : Address) (m : Map V) → lookup j (erase k m) ≡ (if j == k then none else lookup j m)
  unfolding lookup erase
  lookup-erase j k [] = ground arith
  lookup-erase j k (e ∷ m) = ground (arith, lookup-erase j k m)

-- The sum of the values, and a read with default zero.
abbrev pub sum : Map ℤ → ℤ
sum [] = pos 0
sum ((_, v) ∷ m) = v +ℤ sum m

abbrev pub balance : Address → Map ℤ → ℤ
balance k m = elim (lookup k m) [ none ↦ pos 0 | some v ↦ v ]

abbrev pub IsNonneg : Map ℤ → Type 0
IsNonneg [] = Unit {0}
IsNonneg ((_, v) ∷ m) = (pos 0 ≤ℤ v) × IsNonneg m

pub sum-insert : (k : Address) (v : ℤ) (m : Map ℤ) → sum (insert k v m) +ℤ balance k m ≡ sum m +ℤ v
unfolding lookup insert
sum-insert k v [] = omega int_laws
sum-insert k v (e ∷ m) = grind (int_laws, sum-insert k v m)

pub insert-IsNonneg :
    (k : Address) (v : ℤ) (m : Map ℤ) → pos 0 ≤ℤ v → IsNonneg m → IsNonneg (insert k v m)
unfolding insert
insert-IsNonneg k v [] p h = (p, tt)
insert-IsNonneg k v (e ∷ m) p h = ground (arith, insert-IsNonneg k v m p h.1)

pub balance_nonneg : (k : Address) (m : Map ℤ) → IsNonneg m → pos 0 ≤ℤ balance k m
unfolding lookup
balance_nonneg k [] h = omega arith
balance_nonneg k (e ∷ m) h = ground (arith, balance_nonneg k m h.1)

-- No balance exceeds the sum.
pub balance-le-sum : (k : Address) (m : Map ℤ) → IsNonneg m → balance k m ≤ℤ sum m
unfolding lookup
balance-le-sum k [] h = omega arith
balance-le-sum k (e ∷ m) h = grind (int_laws, balance-le-sum k m h.1, balance_nonneg k m h.1)

-- A credit to one entry raises the sum by its amount.
pub sum-credit :
    (k : Address) (v : ℤ) (m : Map ℤ) → sum (insert k (balance k m +ℤ v) m) ≡ sum m +ℤ v
sum-credit k v m = grind (int_laws, sum-insert k (balance k m +ℤ v) m)

-- A debit lowers it.
pub sum-debit : (k : Address) (v : ℤ) (m : Map ℤ) → sum (insert k (balance k m -ℤ v) m) ≡ sum m -ℤ v
sum-debit k v m = grind (int_laws, sum-insert k (balance k m -ℤ v) m)

pub credit-IsNonneg :
    (k : Address) (v : ℤ) (m : Map ℤ)
    → pos 0 ≤ℤ v
    → IsNonneg m
    → IsNonneg (insert k (balance k m +ℤ v) m)
credit-IsNonneg k v m p h =
    insert-IsNonneg k (balance k m +ℤ v) m (omega (int_laws, balance_nonneg k m h)) h

pub debit-IsNonneg :
    (k : Address) (v : ℤ) (m : Map ℤ)
    → v ≤ℤ balance k m
    → IsNonneg m
    → IsNonneg (insert k (balance k m -ℤ v) m)
debit-IsNonneg k v m p h = insert-IsNonneg k (balance k m -ℤ v) m (omega int_laws) h

pub erase-IsNonneg : (k : Address) (m : Map ℤ) → IsNonneg m → IsNonneg (erase k m)
unfolding erase
erase-IsNonneg k [] h = tt
erase-IsNonneg k (e ∷ m) h = ground (arith, erase-IsNonneg k m h.1)
