-- ===== src/Base/Outcome.antt =====
-- What a contract call ends in: a value, an error of the contract's own, or a trap (a panic, a
-- failed `unwrap`, an arithmetic overflow, a refused `require_auth`). The host undoes the call's
-- writes unless it returns a value, so a failed call carries no state.
use mathlib.Core.Path.{◌≡◌, refl}
use mathlib.Core.Bool.{Bool, true, false}
use mathlib.Core.Option.{Option, none, some}

pub data Outcome {ℓ} (E : Type 0) (A : Type ℓ) : Type ℓ where
  ok : A → Outcome E A
  err : E → Outcome E A
  trap : Outcome E A

infixl 5 ◌>>=◌ ◌>>◌
abbrev pub ◌>>=◌ {ℓ κ} :
    {A : Type ℓ} {E : Type 0} {B : Type κ} → Outcome E A → (A → Outcome E B) → Outcome E B
trap >>= next = trap
err reason >>= next = err reason
ok value >>= next = next value

abbrev pub ◌>>◌ {ℓ} : {E : Type 0} {B : Type ℓ} → Outcome E (Unit {0}) → Outcome E B → Outcome E B
first >> last = first >>= λ _. last

abbrev pub map {ℓ κ} : {E : Type 0} {A : Type ℓ} {B : Type κ} → (A → B) → Outcome E A → Outcome E B
map f (ok a) = ok (f a)
map f (err e) = err e
map f trap = trap

-- `if !test { return Err(e) }`
abbrev pub guard : {E : Type 0} → Bool → E → Outcome E (Unit {0})
guard false reason = err reason
guard true reason = ok tt

-- `unwrap`
abbrev pub unwrap {ℓ} : {E : Type 0} {A : Type ℓ} → Option A → Outcome E A
unwrap none = trap
unwrap (some a) = ok a

-- `unwrap_or`
abbrev pub unwrap_or {ℓ} : {A : Type ℓ} → Option A → A → A
unwrap_or none d = d
unwrap_or (some a) d = a

-- A call through a generated client panics when the callee returns an error.
abbrev pub called {ℓ} : {E F : Type 0} {A : Type ℓ} → Outcome F A → Outcome E A
called (ok a) = ok a
called (err _) = trap
called trap = trap

pub >>=-eq-ok {ℓ κ} :
    {A : Type ℓ} {E : Type 0} {B : Type κ} (first : Outcome E A) (next : A → Outcome E B)
    {result : B}
    → (first >>= next) ≡ ok result
    → (value : A) × (first ≡ ok value) × (next value ≡ ok result)
>>=-eq-ok trap next returned = cc
>>=-eq-ok (err reason) next returned = cc
>>=-eq-ok (ok value) next returned = (value, refl, returned)

-- The value that a computation returns, for use where it is known to return.
abbrev pub value_or {ℓ} : {E : Type 0} {A : Type ℓ} → A → Outcome E A → A
value_or d (ok a) = a
value_or d (err _) = d
value_or d trap = d
