-- ===== src/Vault/Strategies/Lists.antt =====
-- Facts on the list of strategies: membership, distinctness and length.
use tezoro_yield_aggregator.Base.{
  suc, ◌≤◌, ◌≡◌, refl, false, ◌||◌, if◌then◌else◌, ◌==◌, List, [], ◌∷◌, ◌++◌, arith,
}
use tezoro_yield_aggregator.Base.Map.{Address}
use tezoro_yield_aggregator.Vault.Store.{contains}
use tezoro_yield_aggregator.Vault.Strategies.{length, without}

abbrev pub IsDistinct : List Address → Type 0
IsDistinct [] = Unit {0}
IsDistinct (x ∷ xs) = (contains x xs ≡ false) × IsDistinct xs

pub contains-append :
    (a b : Address) (xs : List Address) → contains a (xs ++ b ∷ []) ≡ (contains a xs || b == a)
unfolding contains
contains-append a b [] = ground arith
contains-append a b (x ∷ xs) = ground (arith, contains-append a b xs)

pub append-IsDistinct :
    (a : Address) (xs : List Address)
    → contains a xs ≡ false
    → IsDistinct xs
    → IsDistinct (xs ++ a ∷ [])
unfolding contains
append-IsDistinct a [] n d = (refl, tt)
append-IsDistinct a (x ∷ xs) n d = ground (arith, contains-append x a xs, append-IsDistinct a xs)

pub length-append_one : (a : Address) (xs : List Address) → length (xs ++ a ∷ []) ≡ suc (length xs)
length-append_one a [] = refl
length-append_one a (x ∷ xs) = omega (arith, length-append_one a xs)

pub contains-without :
    (a b : Address) (xs : List Address)
    → contains a (without b xs).0 ≡ (if a == b then false else contains a xs)
unfolding contains without
contains-without a b [] = ground arith
contains-without a b (x ∷ xs) = ground (arith, contains-without a b xs)

pub without-IsDistinct :
    (b : Address) (xs : List Address) → IsDistinct xs → IsDistinct (without b xs).0
unfolding without
without-IsDistinct b [] d = tt
without-IsDistinct b (x ∷ xs) d =
    ground (arith, without-IsDistinct b xs d.1, contains-without x b xs)

pub length-without : (b : Address) (xs : List Address) → length (without b xs).0 ≤ length xs
unfolding without
length-without b [] = omega arith
length-without b (x ∷ xs) = ground (arith, length-without b xs)

-- The loop reports `found` exactly if the strategy is in the list.
pub without-found : (b : Address) (xs : List Address) → (without b xs).1 ≡ contains b xs
unfolding contains without
without-found b [] = refl
without-found b (x ∷ xs) = ground (arith, without-found b xs)
