-- ===== src/Vault/Redeem/Liquidity.antt =====
-- Strategies that keep their promise of liquidity, and what the loop of `redeem` is to pull from
-- them, as a plain recursion.
use tezoro_yield_aggregator.Base.{
  ℕ, zero, suc, min, ◌⊎◌, inl, inr, ◌∙◌, ◌+◌, ◌-◌, ◌≤◌, ◌<◌, ◌≡◌, refl, ltb, true, if◌then◌else◌,
  List, [], ◌∷◌, arith,
}
use tezoro_yield_aggregator.Base.Int.{ℤ, pos, pos_part}
use tezoro_yield_aggregator.Base.Map.{Address, Map, balance}
use tezoro_yield_aggregator.Base.Outcome.{ok}
use tezoro_yield_aggregator.Base.Words.{i128_bound}
use tezoro_yield_aggregator.Common.{Chain}
use tezoro_yield_aggregator.Vault.State.{World}
use tezoro_yield_aggregator.Vault.Store.{get_tracked_balance, set_tracked_balance}

-- A property of every strategy of a list.
abbrev pub All : (Address → Type 0) → List Address → Type 0
All P [] = Unit
All P (s ∷ strategies) = P s × All P strategies

-- What the vault at `self` relies on, in a state where the strategies of a list are `Ready`: the
-- first of them pays out, to the unit, any amount up to the liquidity that it quotes. This does not
-- change what the others have, and they stay ready.
pub record LiquidityLaws {X : Type 0} (h : Chain X) (asset self : Address)
    (Ready : List Address → X → Type 0) : Type 0 where
  pub available : Address → X → ℕ
  pub after : Address → ℕ → X → X
  pub held : X → ℕ
  pub held_exact :
      (ids : List Address) (x : X) → Ready ids x → h.token.balance asset self x ≡ pos (held x)
  pub skips : (s : Address) (ids : List Address) (x : X) → Ready (s ∷ ids) x → Ready ids x
  pub quoted :
      (s : Address) (ids : List Address) (x : X)
      → Ready (s ∷ ids) x
      → (h.strategy s).available_liquidity x ≡ ok (pos (available s x))
  pub honoured :
      (s : Address) (ids : List Address) (n : ℕ) (x : X)
      → Ready (s ∷ ids) x
      → 0 < n
      → n ≤ available s x
      → (h.strategy s).withdraw self (pos n) x ≡ ok (pos n, after s n x)
  pub paid :
      (s : Address) (ids : List Address) (n : ℕ) (x : X)
      → Ready (s ∷ ids) x
      → 0 < n
      → n ≤ available s x
      → held (after s n x) ≡ held x + n
  pub apart :
      (s : Address) (ids : List Address) (n : ℕ) (x : X)
      → Ready (s ∷ ids) x
      → 0 < n
      → n ≤ available s x
      → All (λ t. available t (after s n x) ≡ available t x) ids
  pub stays :
      (s : Address) (ids : List Address) (n : ℕ) (x : X)
      → Ready (s ∷ ids) x
      → 0 < n
      → n ≤ available s x
      → Ready ids (after s n x)

-- No tracked balance is above the range of `i128`.
abbrev pub InRange : Map ℤ → Type 0
InRange tracked = (a : Address) → pos_part (balance a tracked) < i128_bound

pub zero_or_positive : (n : ℕ) → (n ≡ 0) ⊎ (0 < n)
zero_or_positive zero = inl refl
zero_or_positive (suc n) = inr (omega arith)

module _ {X : Type 0} {h : Chain X} {asset self : Address} {Ready : List Address → X → Type 0}
    (laws : LiquidityLaws h asset self Ready) where
  -- What the strategies of the list have together.
  abbrev pub reachable : List Address → X → ℕ
  reachable [] x = 0
  reachable (s ∷ strategies) x = laws.available s x + reachable strategies x

  -- The state after `n` of the asset were pulled from the strategy.
  abbrev pub after_pull : Address → ℕ → World X → World X
  after_pull s n w =
      let tracked = get_tracked_balance w.storage s in
      let left = if ltb n (pos_part tracked) then pos (pos_part tracked - n) else pos 0 in
      record w { storage = set_tracked_balance s left w.storage; chain = laws.after s n w.chain }

  -- The loop of `redeem` as it is meant, with no early exit: each strategy in its turn gives the
  -- smaller of what is missing and what it has.
  pub drained : List Address → ℕ → World X → World X
  drained [] missing w = w
  drained (s ∷ strategies) missing w =
      let n = min missing (laws.available s w.chain) in
      let w' = if ltb 0 n then after_pull s n w else w in drained strategies (missing - n) w'

  -- Lists of equal parts have equal totals.
  reachable_same :
      (strategies : List Address) (x x' : X)
      → All (λ t. laws.available t x' ≡ laws.available t x) strategies
      → reachable strategies x' ≡ reachable strategies x
  reachable_same [] x x' same = refl
  reachable_same (s ∷ strategies) x x' same =
      ground (arith, reachable_same strategies x x' same.1, same.0)

  pub Ready-rest : (strategies : List Address) (x : X) → Ready strategies x → Ready [] x
  Ready-rest [] x ready = ready
  Ready-rest (s ∷ strategies) x ready = Ready-rest strategies x (laws.skips s strategies x ready)

  pub drained-nil : (missing : ℕ) (w : World X) → drained [] missing w ≡ w
  unfolding drained
  drained-nil missing w = refl

  pub drained-passes :
      (s : Address) (strategies : List Address) (missing : ℕ) (w : World X)
      → min missing (laws.available s w.chain) ≡ 0
      → drained (s ∷ strategies) missing w ≡ drained strategies missing w
  unfolding drained
  drained-passes s strategies missing w e =
      let same : missing - 0 ≡ missing = omega arith in rw (e, same) refl

  pub drained-pulls :
      (s : Address) (strategies : List Address) (missing n : ℕ) (w : World X)
      → n ≡ min missing (laws.available s w.chain)
      → 0 < n
      → drained (s ∷ strategies) missing w ≡ drained strategies (missing - n) (after_pull s n w)
  unfolding drained
  drained-pulls s strategies missing n w e lt =
      let taken : ltb 0 n ≡ true = ground arith in rw (← e, taken) refl

  pub drained-zero : (strategies : List Address) (w : World X) → drained strategies 0 w ≡ w
  unfolding drained
  drained-zero [] w = refl
  drained-zero (s ∷ strategies) w =
      drained-passes s strategies 0 w (ground arith) ∙ drained-zero strategies w

  -- The plain recursion brings in what is missing, or all that the strategies have.
  pub drained-held :
      (strategies : List Address) (missing : ℕ) (w : World X)
      → Ready strategies w.chain
      → (laws.held (drained strategies missing w).chain
          ≡ laws.held w.chain + min missing (reachable strategies w.chain))
        × Ready [] (drained strategies missing w).chain
  drained-held [] missing w ready = rw (drained-nil missing w) (ground arith, ready)
  drained-held (s ∷ strategies) missing w ready =
      elim (zero_or_positive (min missing (laws.available s w.chain))) [
        | inl nothing ↦ rw (drained-passes s strategies missing w nothing) (
            let (gained, rest) =
              drained-held strategies missing w (laws.skips s strategies w.chain ready) in
            (ground (arith, gained, nothing), rest))
        | inr something ↦
            (let n = min missing (laws.available s w.chain) in
              let fits : n ≤ laws.available s w.chain = ground arith in
              let w' = after_pull s n w in
              let (gained, rest) =
                drained-held strategies (missing - n) w'
                  (laws.stays s strategies n w.chain ready something fits) in
              let same =
                reachable_same strategies w.chain w'.chain
                  (laws.apart s strategies n w.chain ready something fits) in
              let paid = laws.paid s strategies n w.chain ready something fits in
              rw (drained-pulls s strategies missing n w refl something)
                (ground (arith, gained, same, paid), rest))
      ]
