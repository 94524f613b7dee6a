-- ===== src/Net/Funding.antt =====
-- Funds that the keeper moves into a mock strategy and back.
use tezoro_yield_aggregator.Base.{
  ℕ, ◌+◌, ◌≤◌, ◌<◌, ◌≡◌, ◌≢◌, refl, sym, ap, ◌∙◌, true, Option, none, some, arith,
}
use tezoro_yield_aggregator.Base.Int.{
  ℤ, pos, pos_part, ◌≤ℤ◌, ◌+ℤ◌, ◌-ℤ◌, int_laws, +ℤ_parts, nonneg-eq-pos, pos-+ℤ,
}
use tezoro_yield_aggregator.Base.Map.{Address, lookup, lookup-insert, balance}
use tezoro_yield_aggregator.Base.Outcome.{ok}
use tezoro_yield_aggregator.Base.Words
use tezoro_yield_aggregator.Base.Words.{i128_bound}
use tezoro_yield_aggregator.Common.{Token}
use tezoro_yield_aggregator.Mock
use tezoro_yield_aggregator.Mock.{get_balance, set_balance}
use tezoro_yield_aggregator.Net.{Net, net_chain, net_strategy}
use tezoro_yield_aggregator.Net.Promises.{
  PayingToken, Serves, recorded, paid_out, withdraw-paid_out, paid_out-sends,
}
use tezoro_yield_aggregator.Vault.{World}
use tezoro_yield_aggregator.Vault.Store.{contains, get_strategies, get_tracked_balance}
use tezoro_yield_aggregator.Vault.Strategies.{allocate, deallocate}
use tezoro_yield_aggregator.Vault.Strategies.Effects.{allocate-caller, deallocate-runs}
use tezoro_yield_aggregator.Vault.Pricing.Allocation.{allocate-moves}

covers-raised :
    (recorded held : ℤ) (amount : ℕ)
    → pos 0 ≤ℤ recorded
    → recorded ≤ℤ held
    → pos (pos_part recorded + amount) ≤ℤ held +ℤ pos amount
covers-raised recorded held amount nonneg le = ground (arith, +ℤ_parts held (pos amount))

-- Adding and taking away again.
taken_back : (held : ℤ) (amount : ℕ) → held -ℤ pos amount +ℤ pos amount ≡ held
taken_back held amount = grind int_laws

module _ {T : Type 0} (t : Token T) (asset vault : Address) where
  -- A deposit that the mock accepts is added to its record, and moves no tokens.
  deposit-records :
      (id : Address) (amount : ℕ) (n : Net Mock.Storage T) (st : Mock.Storage)
      {n' : Net Mock.Storage T}
      → lookup id n.contracts ≡ some st
      → pos 0 ≤ℤ get_balance st
      → (net_strategy t vault id).deposit vault (pos amount) n ≡ ok n'
      → (n'.outside ≡ n.outside)
        × (lookup id n'.contracts
            ≡ some (set_balance (pos (pos_part (get_balance st) + amount)) st))
        × (pos_part (get_balance st) + amount < i128_bound)
  unfolding Mock.deposit Words.add
  deposit-records id amount n st deployed nonneg e = ground (
    arith,
    nonneg-eq-pos (get_balance st) nonneg,
    pos-+ℤ (pos_part (get_balance st)) amount,
    lookup-insert id id (set_balance (get_balance st +ℤ pos amount) st) n.contracts,
  )

  -- A mock that was sent the amount that it then accepts still holds what it records.
  deposit-Serves :
      (id : Address) (amount : ℕ) (n : Net Mock.Storage T) (x : T) {n' : Net Mock.Storage T}
      → PayingToken t
      → vault ≢ id
      → Serves t asset vault id n
      → t.transfer asset vault id (pos amount) n.outside ≡ some x
      → (net_strategy t vault id).deposit vault (pos amount) (record n { outside = x }) ≡ ok n'
      → Serves t asset vault id n'
        × (recorded t asset vault id n' ≡ recorded t asset vault id n + amount)
        × (n'.outside ≡ x)
  deposit-Serves id amount n x pays ne s sent e =
      let (tokens, deployed, small) =
        deposit-records id amount (record n { outside = x }) s.state s.deployed s.recorded_nonneg
          e in
      let (gained, _) = pays.exact.transfer_exact asset vault id (pos amount) n.outside x ne sent in
      (
        record {
          state = set_balance (pos (pos_part (get_balance s.state) + amount)) s.state;
          deployed = deployed;
          for_vault = s.for_vault;
          of_asset = s.of_asset;
          recorded_nonneg = omega arith;
          recorded_small = small;
          solvent =
              rw (tokens, gained)
                (covers-raised (get_balance s.state) (t.balance asset id n.outside) amount
                  s.recorded_nonneg s.solvent);
        },
        ground (arith, deployed, s.deployed),
        tokens,
      )

  net-transfer :
      (from to : Address) (amount : ℕ) (n : Net Mock.Storage T) {m : Net Mock.Storage T}
      → (net_chain t vault).token.transfer asset from to (pos amount) n ≡ some m
      → (x : T) × (t.transfer asset from to (pos amount) n.outside ≡ some x)
        × (m ≡ record n { outside = x })
  net-transfer from to amount n {m} e = step (t.transfer asset from to (pos amount) n.outside) e
    where
      step :
          (r : Option T)
          → elim r [ none ↦ none | some x ↦ some (record n { outside = x }) ] ≡ some m
          → (x : T) × (r ≡ some x) × (m ≡ record n { outside = x })
      step none p = cc
      step (some x) p = (x, refl, ground arith)

  allocate-deposits :
      (keeper strategy : Address) (amount : ℕ) (w : World (Net Mock.Storage T))
      {w' : World (Net Mock.Storage T)}
      → w.self ≡ vault
      → w.storage.asset ≡ some asset
      → allocate (net_chain t vault) keeper strategy (pos amount) w ≡ ok (tt, w')
      → (x : T) × (t.transfer asset vault strategy (pos amount) w.chain.outside ≡ some x)
        × ((net_strategy t vault strategy).deposit vault
              (pos amount)
              (record w.chain { outside = x })
            ≡ ok w'.chain)
        × (w'.self ≡ vault)
        × (contains strategy (get_strategies w'.storage) ≡ true)
        × (get_tracked_balance w'.storage strategy
            ≡ get_tracked_balance w.storage strategy +ℤ pos amount)
  allocate-deposits keeper strategy amount w self a e =
      let h = net_chain t vault in
      let (moved, stored, self', _, listed, eq) =
        allocate-moves h keeper strategy (pos amount) w a e in
      let (x, sent, same) = net-transfer vault strategy amount w.chain (rw self at moved) in
      let raised = balance strategy w.storage.tracked_balance +ℤ pos amount in
      (
        x,
        sent,
        rw (self, same) at stored,
        self' ∙ self,
        rw eq listed,
        rw eq (ground (arith, lookup-insert strategy strategy raised w.storage.tracked_balance)),
      )

  -- What the keeper allocates to a mock that serves the vault can be taken back at once, to the
  -- unit: `deallocate` returns, and then the vault holds what it held, and both its record and the
  -- mock's own are what they were, for a record that is not negative and a token that moves exactly
  -- what it is told to and serves what is covered.
  pub deallocate-allocate :
      (keeper strategy : Address) (amount : ℕ) (w : World (Net Mock.Storage T))
      {w' : World (Net Mock.Storage T)}
      → PayingToken t
      → w.self ≡ vault
      → vault ≢ strategy
      → w.storage.asset ≡ some asset
      → Serves t asset vault strategy w.chain
      → pos 0 ≤ℤ get_tracked_balance w.storage strategy
      → allocate (net_chain t vault) keeper strategy (pos amount) w ≡ ok (tt, w')
      → (w'' : World (Net Mock.Storage T)) × (deallocate
            (net_chain t vault)
            keeper
            strategy
            (pos amount)
            w'
          ≡ ok (pos amount, w''))
        × (t.balance asset vault w''.chain.outside ≡ t.balance asset vault w.chain.outside)
        × (get_tracked_balance w''.storage strategy ≡ get_tracked_balance w.storage strategy)
        × (recorded t asset vault strategy w''.chain ≡ recorded t asset vault strategy w.chain)
  deallocate-allocate keeper strategy amount w {w'} pays self ne a s nonneg e =
      let h = net_chain t vault in
      let k = pos_part (get_tracked_balance w.storage strategy) in
      let known = nonneg-eq-pos (get_tracked_balance w.storage strategy) nonneg in
      let (x, sent, stored, self', listed, raised) =
        allocate-deposits keeper strategy amount w self a e in
      let (auth, role, gt, small) = allocate-caller h keeper strategy amount k w known e in
      let (s', more, tokens) = deposit-Serves strategy amount w.chain x pays ne s sent stored in
      let fits : amount ≤ recorded t asset vault strategy w'.chain = omega (arith, more) in
      let paid = withdraw-paid_out t asset vault strategy amount w'.chain pays s' gt fits in
      let old : get_tracked_balance w'.storage strategy ≡ pos (k + amount) =
        raised ∙ ap (λ b. b +ℤ pos amount) known ∙ pos-+ℤ k amount in
      let runs =
        deallocate-runs h keeper strategy amount k w'
          {x = paid_out t asset vault strategy amount w'.chain} auth role gt listed (rw self' paid)
          old small in
      let (y, back, tokens', mocks) =
        paid_out-sends t asset vault strategy amount w'.chain pays s' fits in
      let (_, spent) =
        pays.exact.transfer_exact asset vault strategy (pos amount) w.chain.outside x ne sent in
      let (gained, _) =
        pays.exact.transfer_exact asset strategy vault (pos amount) w'.chain.outside y
          (λ q. ne (sym q)) back in
      (
        _,
        runs,
        ap (t.balance asset vault) tokens'
            ∙ gained
            ∙ ap (λ z. t.balance asset vault z +ℤ pos amount) tokens
            ∙ ap (λ b. b +ℤ pos amount) spent
            ∙ taken_back (t.balance asset vault w.chain.outside) amount,
        ground (arith, lookup-insert strategy strategy (pos k) w'.storage.tracked_balance, known),
        ground (arith, mocks strategy, more),
      )
