-- ===== src/Common/Timelock.antt =====
-- The upgrade timelock that the vault and the Blend adapter have in common: the code of a contract,
-- a scheduled upgrade, and what the methods may do to them.
use tezoro_yield_aggregator.Base.{ℕ, ◌+◌, ◌≤◌, ◌≡◌, ◌⊎◌, inl, inr, refl, Option, none, some, arith}
use tezoro_yield_aggregator.Common.{Hash}

pub record Lock : Type 0 where
  pub code : Hash
  pub now : ℕ
  pub scheduled : Option (Hash × ℕ)
  pub delay : ℕ

pub data LockStep (l l' : Lock) : Type 0 where
  waits : l'.code ≡ l.code → l.now ≤ l'.now → l'.scheduled ≡ l.scheduled → LockStep l l'
  schedules :
      (hash : Hash)
      → l'.code ≡ l.code
      → l'.now ≡ l.now
      → l'.scheduled ≡ some (hash, l.now)
      → LockStep l l'
  cancels : l'.code ≡ l.code → l'.now ≡ l.now → l'.scheduled ≡ none → LockStep l l'
  executes :
      (at : ℕ)
      → l'.now ≡ l.now
      → l'.scheduled ≡ none
      → l.scheduled ≡ some (l'.code, at)
      → at + l.delay ≤ l.now
      → LockStep l l'

-- What is known in a history that began at the time `start`, with the code `code` and no upgrade
-- scheduled.
pub record Noticed (notice start : ℕ) (code : Hash) (l : Lock) : Type 0 where
  pub begun : start ≤ l.now
  pub scheduled_after : (hash : Hash) (at : ℕ) → l.scheduled ≡ some (hash, at) → start ≤ at
  pub unchanged : (l.code ≡ code) ⊎ (start + notice ≤ l.now)

pub begin-Noticed : (notice : ℕ) (l : Lock) → l.scheduled ≡ none → Noticed notice l.now l.code l
begin-Noticed notice l e = record {
  begun = omega arith;
  scheduled_after = λ hash at e'. ground arith;
  unchanged = inl refl;
}

pub LockStep-Noticed :
    (notice start : ℕ) (code : Hash) (l l' : Lock)
    → LockStep l l'
    → notice ≤ l.delay
    → Noticed notice start code l
    → Noticed notice start code l'
LockStep-Noticed notice start code l l' (LockStep.waits c t s) d n = record {
  begun = omega (arith, n.begun, t);
  scheduled_after = λ hash at e. n.scheduled_after hash at (ground (arith, s, e));
  unchanged = ground (arith, n.unchanged, c, t);
}
LockStep-Noticed notice start code l l' (LockStep.schedules hash c t s) d n = record {
  begun = omega (arith, n.begun, t);
  scheduled_after = λ hash' at e. ground (arith, n.begun, s, e);
  unchanged = ground (arith, n.unchanged, c, t);
}
LockStep-Noticed notice start code l l' (LockStep.cancels c t s) d n = record {
  begun = omega (arith, n.begun, t);
  scheduled_after = λ hash at e. ground (arith, s, e);
  unchanged = ground (arith, n.unchanged, c, t);
}
LockStep-Noticed notice start code l l' (LockStep.executes at t s was due) d n = record {
  begun = omega (arith, n.begun, t);
  scheduled_after = λ hash at' e. ground (arith, s, e);
  unchanged = inr (omega (arith, n.scheduled_after l'.code at was, due, t, d));
}
