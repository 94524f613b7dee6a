-- ===== src/Net/Promises.antt =====
-- Solvent mock strategies keep the promise of liquidity that the vault relies on, so a redemption
-- from the composed system returns.
use tezoro_yield_aggregator.Base.{
  ℕ, ◌-◌, ◌≤◌, ◌<◌, ◌≡◌, ◌≢◌, refl, ◌⊎◌, inl, inr, ap, none, some, ◌==◌, if◌then◌else◌, arith,
}
use tezoro_yield_aggregator.Base.Int.{pos, pos_part, ◌≤ℤ◌, nonneg-eq-pos, -ℤ_parts}
use tezoro_yield_aggregator.Base.Map.{Address, lookup, insert, lookup-insert}
use tezoro_yield_aggregator.Base.Outcome.{ok}
use tezoro_yield_aggregator.Base.Words.{i128_bound}
use tezoro_yield_aggregator.Common.{Token}
use tezoro_yield_aggregator.Vault.Pricing.Assets.{TokenLaws}
use tezoro_yield_aggregator.Mock
use tezoro_yield_aggregator.Mock.{Storage, get_balance, set_balance}
use tezoro_yield_aggregator.Mock.Promises.{withdraw-available_liquidity}
use tezoro_yield_aggregator.Net.{Net, net_token, context, net_strategy}

same_or_not : (a b : Address) → (a ≡ b) ⊎ (a ≢ b)
same_or_not a b = ground arith

-- What the documentation of a SEP-41 token says further: no balance is negative, an amount that is
-- covered can be transferred, and a transfer leaves all other balances alone.
pub record PayingToken {T : Type 0} (t : Token T) : Type 0 where
  pub exact : TokenLaws t
  pub nonneg : (asset id : Address) (x : T) → pos 0 ≤ℤ t.balance asset id x
  pub covered :
      (asset from to : Address) (n : ℕ) (x : T)
      → pos n ≤ℤ t.balance asset from x
      → (x' : T) × (t.transfer asset from to (pos n) x ≡ some x')
  pub others :
      (asset from to id : Address) (n : ℕ) (x x' : T)
      → id ≢ from
      → id ≢ to
      → t.transfer asset from to (pos n) x ≡ some x'
      → t.balance asset id x' ≡ t.balance asset id x

-- Whatever the strategies, the vault can pay out what it holds.
pub pay-out :
    {S T : Type 0} (t : Token T) (asset vault to : Address) (amount : ℕ) (n : Net S T)
    → PayingToken t
    → amount ≤ pos_part (t.balance asset vault n.outside)
    → (n' : Net S T) × ((net_token {S = S} t).transfer asset vault to (pos amount) n ≡ some n')
pay-out t asset vault to amount n pays le =
    let known =
      nonneg-eq-pos (t.balance asset vault n.outside) (pays.nonneg asset vault n.outside) in
    let (x, sent) = pays.covered asset vault to amount n.outside (ground (arith, known)) in
    (record n { outside = x }, rw sent refl)

-- A mock that serves the vault, and holds the tokens that it records.
pub record Serves {T : Type 0} (t : Token T) (asset vault id : Address) (n : Net Mock.Storage T)
    : Type 0 where
  pub state : Storage
  pub deployed : lookup id n.contracts ≡ some state
  pub for_vault : state.vault ≡ some vault
  pub of_asset : state.asset ≡ some asset
  pub recorded_nonneg : pos 0 ≤ℤ get_balance state
  pub recorded_small : pos_part (get_balance state) < i128_bound
  pub solvent : get_balance state ≤ℤ t.balance asset id n.outside

module _ {T : Type 0} (t : Token T) (asset vault : Address) where
  -- What the mock at `id` records.
  abbrev pub recorded : Address → Net Mock.Storage T → ℕ
  recorded id n = elim (lookup id n.contracts) [ none ↦ 0 | some st ↦ pos_part (get_balance st) ]

  -- The state after the mock at `id` paid out.
  abbrev pub paid_out : Address → ℕ → Net Mock.Storage T → Net Mock.Storage T
  paid_out id amount n = elim (lookup id n.contracts) [
    | none ↦ n
    | some st ↦ elim (t.transfer asset id vault (pos amount) n.outside) [
      | none ↦ n
      | some x ↦ record n {
        outside = x;
        contracts =
            insert id (set_balance (pos (pos_part (get_balance st) - amount)) st) n.contracts;
      }
    ]
  ]

  pub withdraw-paid_out :
      (id : Address) (amount : ℕ) (n : Net Mock.Storage T)
      → PayingToken t
      → Serves t asset vault id n
      → 0 < amount
      → amount ≤ recorded id n
      → (net_strategy t vault id).withdraw vault (pos amount) n
        ≡ ok (pos amount, paid_out id amount n)
  unfolding Mock.available_liquidity Mock.balance_of
  withdraw-paid_out id amount n pays s gt le =
      let st = s.state in
      let balance = nonneg-eq-pos (get_balance st) s.recorded_nonneg in
      let fits : amount ≤ pos_part (get_balance st) = ground (arith, s.deployed) in
      let (x, sent) =
        pays.covered asset id vault amount n.outside (ground (arith, s.solvent, balance, fits)) in
      let (c, runs, chain, store, _) =
        withdraw-available_liquidity t vault asset amount (pos_part (get_balance st))
          (context vault id st n) (ground arith) s.for_vault s.of_asset (ap ok balance)
          s.recorded_small gt fits sent in
      ground (arith, s.deployed, sent, runs, chain, store)

  abbrev pub holds : Net Mock.Storage T → ℕ
  holds n = pos_part (t.balance asset vault n.outside)

  -- The transfer that is behind `paid_out`.
  pub paid_out-sends :
      (id : Address) (amount : ℕ) (n : Net Mock.Storage T)
      → PayingToken t
      → Serves t asset vault id n
      → amount ≤ recorded id n
      → (x : T) × (t.transfer asset id vault (pos amount) n.outside ≡ some x)
        × ((paid_out id amount n).outside ≡ x)
        × ((j : Address)
            → lookup j (paid_out id amount n).contracts ≡ (
                if j == id
                then elim (lookup id n.contracts) [
                  | none ↦ none
                  | some st ↦ some (set_balance (pos (pos_part (get_balance st) - amount)) st)
                ]
                else lookup j n.contracts))
  paid_out-sends id amount n pays s le =
      let st = s.state in
      let fits : amount ≤ pos_part (get_balance st) = ground (arith, s.deployed) in
      let balance = nonneg-eq-pos (get_balance st) s.recorded_nonneg in
      let (x, sent) =
        pays.covered asset id vault amount n.outside (ground (arith, s.solvent, balance, fits)) in
      let spent = set_balance (pos (pos_part (get_balance st) - amount)) st in
      (
        x,
        sent,
        ground (arith, s.deployed, sent),
        λ j. ground (arith, s.deployed, sent, lookup-insert j id spent n.contracts),
      )

  pub paid_out-Serves :
      (id j : Address) (amount : ℕ) (n : Net Mock.Storage T)
      → PayingToken t
      → Serves t asset vault id n
      → Serves t asset vault j n
      → id ≢ vault
      → j ≢ vault
      → amount ≤ recorded id n
      → Serves t asset vault j (paid_out id amount n)
  paid_out-Serves id j amount n pays s u ne ne' le =
      let (x, sent, tokens, mocks) = paid_out-sends id amount n pays s le in
      let (gained, lost) =
        pays.exact.transfer_exact asset id vault (pos amount) n.outside x ne sent in
      elim (same_or_not j id) [
        | inl same ↦ record {
          state = set_balance (pos (pos_part (get_balance s.state) - amount)) s.state;
          deployed = ground (arith, mocks j, s.deployed, same);
          for_vault = s.for_vault;
          of_asset = s.of_asset;
          recorded_nonneg = omega arith;
          recorded_small = omega (arith, s.recorded_small);
          solvent = ground (
            arith,
            same,
            tokens,
            lost,
            s.solvent,
            s.deployed,
            s.recorded_nonneg,
            le,
            -ℤ_parts (t.balance asset id n.outside) (pos amount),
          );
        }
        | inr other ↦ record {
          state = u.state;
          deployed = ground (arith, mocks j, u.deployed, other);
          for_vault = u.for_vault;
          of_asset = u.of_asset;
          recorded_nonneg = u.recorded_nonneg;
          recorded_small = u.recorded_small;
          solvent = ground (
            arith,
            tokens,
            u.solvent,
            pays.others asset id vault j amount n.outside x other ne' sent,
          );
        }
      ]
