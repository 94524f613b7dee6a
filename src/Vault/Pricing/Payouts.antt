-- ===== src/Vault/Pricing/Payouts.antt =====
-- What a redemption does to the total assets, with the withdrawals from the strategies.
use tezoro_yield_aggregator.Base.{
  true, ◌≡◌, ◌≢◌, ◌⊎◌, inl, inr, Bool-cases, refl, sym, ◌∙◌, ap, some, if◌then◌else◌, List, [], ◌∷◌,
  arith,
}
use tezoro_yield_aggregator.Base.Int.{ℤ, pos, ◌+ℤ◌, ◌-ℤ◌, ◌≤ℤ◌, ltb_ℤ, leb_ℤ, int_laws, +ℤ_assoc}
use tezoro_yield_aggregator.Base.Map.{Address, insert}
use tezoro_yield_aggregator.Base.Outcome.{Outcome, ok, called, value_or}
use tezoro_yield_aggregator.Base.Words
use tezoro_yield_aggregator.Common.{Chain}
use tezoro_yield_aggregator.Vault.State.{Storage, World, VaultError}
use tezoro_yield_aggregator.Vault.Store.{contains, get_strategies, get_tracked_balance}
use tezoro_yield_aggregator.Vault.Assets.{total_assets, effective_bridged_balance}
use tezoro_yield_aggregator.Vault.Monad.{reads}
use tezoro_yield_aggregator.Vault.Keeps.{
  IsPreorder, Keeps, Keeps-intro, Keeps-bind, Keeps-when, Keeps-reads, Keeps-pure, Keeps-if,
  Keeps-ok,
}
use tezoro_yield_aggregator.Vault.Redeem.{
  untrack, tracked_after, pull, pull_from, waterfall, cover, redeem,
}
use tezoro_yield_aggregator.Vault.Redeem.Payment.{redeem-PaysOut}
use tezoro_yield_aggregator.Vault.Redeem.Effects.{redeem-storage, redeem-pays}
use tezoro_yield_aggregator.Vault.Strategies.Lists.{IsDistinct}
use tezoro_yield_aggregator.Vault.Pricing.Assets.{TokenLaws, tracked_total, total_assets-exact}
use tezoro_yield_aggregator.Vault.Pricing.Allocation.{tracked_total-write}
use tezoro_yield_aggregator.Vault.Pricing.Deallocation.{left_after}

-- The documented behaviour of a strategy's `withdraw`: it pays the caller what it returns.
pub record WithdrawLaws {X : Type 0} (h : Chain X) (asset self : Address) : Type 0 where
  pub withdraw_exact :
      (strategy : Address) (amount withdrawn : ℤ) (x x' : X)
      → (h.strategy strategy).withdraw self amount x ≡ ok (withdrawn, x')
      → h.token.balance asset self x' ≡ h.token.balance asset self x +ℤ withdrawn

traded :
    (held t t' old withdrawn : ℤ)
    → t' +ℤ old ≡ t +ℤ left_after old withdrawn
    → held +ℤ t ≤ℤ held +ℤ withdrawn +ℤ t'
traded held t t' old withdrawn e = grind int_laws

listed_first : (s : Address) (ids : List Address) → contains s (s ∷ ids) ≡ true
unfolding contains
listed_first s ids = ground arith

listed_later :
    (t s : Address) (ids : List Address) → contains t ids ≡ true → contains t (s ∷ ids) ≡ true
unfolding contains
listed_later t s ids e = ground arith

module _ {X : Type 0} (h : Chain X) (asset self : Address) (ids : List Address) where
  -- What the vault holds and what it has in the strategies.
  abbrev assets_of : World X → ℤ
  assets_of w = h.token.balance asset self w.chain +ℤ tracked_total w.storage.tracked_balance ids

  -- If `w` is a state of the vault then so is `w'`, with no fewer assets.
  record Gains (w w' : World X) : Type 0 where
    pub gains : w.self ≡ self → (w'.self ≡ self) × (assets_of w ≤ℤ assets_of w')

  Gains-preorder : IsPreorder Gains
  Gains-preorder = record {
    self_related = λ w. record { gains = λ e. (e, omega int_laws) };
    trans = λ u v w p q. record {
      gains = λ e. (let a = p.gains e in let b = q.gains a.0 in (b.0, omega (int_laws, a.1, b.1)));
    };
  }

  pull-moves :
      (s : Address) (remaining available : ℤ) (w : World X) {left : ℤ} {w' : World X}
      → pull h s remaining available w ≡ ok (left, w')
      → let to_pull = if ltb_ℤ remaining available then remaining else available in
        let r = value_or (pos 0, w.chain) ((h.strategy s).withdraw w.self to_pull w.chain) in
        ((h.strategy s).withdraw w.self to_pull w.chain ≡ ok (r.0, w'.chain))
        × (w'.self ≡ w.self)
        × (w'.storage.tracked_balance
            ≡ insert s (left_after (get_tracked_balance w.storage s) r.0) w.storage.tracked_balance)
  unfolding pull untrack tracked_after Words.sub
  pull-moves s remaining available w e = ground arith

  pull-Gains :
      WithdrawLaws h asset self
      → IsDistinct ids
      → (s : Address) (remaining available : ℤ) → contains s ids ≡ true
      → Keeps Gains (pull h s remaining available)
  pull-Gains laws distinct s remaining available listed =
      Keeps-intro (pull h s remaining available) λ w left w' e.
        (let to_pull = if ltb_ℤ remaining available then remaining else available in
          let (withdrew, same_self, records) = pull-moves s remaining available w e in
          let r = value_or (pos 0, w.chain) ((h.strategy s).withdraw w.self to_pull w.chain) in
          let m = w.storage.tracked_balance in
          let kept = left_after (get_tracked_balance w.storage s) r.0 in
          record {
            gains = λ at_self.
                (let paid =
                    laws.withdraw_exact s to_pull r.0 w.chain w'.chain (rw (← at_self) withdrew) in
                  (
                    same_self ∙ at_self,
                    rw (paid, records)
                        (traded (h.token.balance asset self w.chain) (tracked_total m ids)
                          (tracked_total (insert s kept m) ids) (get_tracked_balance w.storage s)
                          r.0 (tracked_total-write s kept m ids distinct listed)),
                  ));
          })

  pull_from-Gains :
      WithdrawLaws h asset self
      → IsDistinct ids
      → (s : Address) (remaining : ℤ) → contains s ids ≡ true
      → Keeps Gains (pull_from h s remaining)
  unfolding pull_from
  pull_from-Gains laws distinct s remaining listed =
      Keeps-bind Gains-preorder (reads available_in) _ (Keeps-reads Gains-preorder available_in)
        λ available.
          Keeps-if Gains-preorder (leb_ℤ available (pos 0)) _ _
            (Keeps-pure Gains-preorder remaining)
            (pull-Gains laws distinct s remaining available listed)
    where
      available_in : World X → Outcome VaultError ℤ
      available_in w = called ((h.strategy s).available_liquidity w.chain)

  waterfall-Gains :
      WithdrawLaws h asset self
      → IsDistinct ids
      → (strategies : List Address) (remaining : ℤ)
      → ((s : Address) → contains s strategies ≡ true → contains s ids ≡ true)
      → Keeps Gains (waterfall h strategies remaining)
  unfolding waterfall
  waterfall-Gains laws distinct [] remaining within = Keeps-pure Gains-preorder tt
  waterfall-Gains laws distinct (s ∷ strategies) remaining within = Keeps-when Gains-preorder _ _ (
      Keeps-bind Gains-preorder _ _
        (pull_from-Gains laws distinct s remaining (within s (listed_first s strategies)))
        λ left.
          waterfall-Gains laws distinct strategies left
            (λ t e. within t (listed_later t s strategies e)))

  cover-runs :
      (assets idle : ℤ) (w : World X) {w' : World X}
      → cover h assets idle w ≡ ok (tt, w')
      → (w' ≡ w)
        ⊎ ((remaining : ℤ) × (waterfall h (get_strategies w.storage) remaining w ≡ ok (tt, w')))
  unfolding cover Words.sub
  cover-runs assets idle w e = elim (Bool-cases (ltb_ℤ idle assets)) [
    | inl short ↦ inr (assets -ℤ idle, ground arith)
    | inr enough ↦ inl (ground arith)
  ]

  cover-Gains :
      WithdrawLaws h asset self
      → IsDistinct ids
      → (assets idle : ℤ) (w : World X) {w' : World X} → get_strategies w.storage ≡ ids
      → cover h assets idle w ≡ ok (tt, w')
      → Gains w w'
  cover-Gains laws distinct assets idle w {w'} listed e = elim (cover-runs assets idle w e) [
    | inl same ↦ rw same (Gains-preorder.self_related w)
    | inr (remaining, ran) ↦
        Keeps-ok (waterfall-Gains laws distinct ids remaining (λ s i. i)) w (rw listed at ran)
  ]

-- The payment is taken off what the vault holds.
settled_total :
    (before held after paid t' bridged : ℤ)
    → before ≤ℤ held +ℤ t'
    → after ≡ held -ℤ paid
    → before +ℤ bridged ≤ℤ after +ℤ (t' +ℤ bridged) +ℤ paid
settled_total before held after paid t' bridged gain e = grind int_laws

module _ {X : Type 0} (h : Chain X) where
  -- Where the token moves exactly what it is told to and the strategies, listed once each, pay the
  -- vault what they return, a redemption by someone other than the vault lowers the total assets by
  -- no more than it returns.
  pub total_assets-redeem :
      (from asset : Address) (shares : ℤ) (w : World X) {assets total total' : ℤ} {w' : World X}
      → TokenLaws h.token
      → WithdrawLaws h asset w.self
      → IsDistinct (get_strategies w.storage)
      → from ≢ w.self
      → w.storage.asset ≡ some asset
      → total_assets h w ≡ ok total
      → redeem h from shares w ≡ ok (assets, w')
      → total_assets h w' ≡ ok total'
      → total ≤ℤ total' +ℤ assets
  unfolding effective_bridged_balance
  total_assets-redeem from asset shares w {assets} {total} {total'} {w'} token laws distinct ne a t
        e t' =
      let p = redeem-PaysOut h from shares w e in
      let ids = get_strategies w.storage in
      let eq = redeem-storage h from shares w e in
      let (_, _, _, _, self, time) = redeem-pays h from shares w e in
      let before = total_assets-exact h w asset a t in
      let after = total_assets-exact h w' asset (ap (λ (st : Storage). st.asset) eq ∙ a) t' in
      let gain =
        (cover-Gains h asset w.self ids laws distinct assets p.idle w refl p.covers).gains refl in
      let sent : h.token.transfer asset w.self from assets p.covered.chain ≡ some w'.chain =
        ground (arith, p.of_asset, p.sent) in
      let paid =
        token.transfer_exact asset w.self from assets p.covered.chain w'.chain (λ q. ne (sym q))
          sent in
      let bridged = effective_bridged_balance w.storage w.timestamp in
      let listed : get_strategies w'.storage ≡ ids = ap (λ (st : Storage). get_strategies st) eq in
      let same : effective_bridged_balance w'.storage w'.timestamp ≡ bridged =
        ap (λ (st : Storage). effective_bridged_balance st w'.timestamp) eq
        ∙ ap (λ n. effective_bridged_balance w.storage n) time in
      let now = h.token.balance asset w.self w'.chain in
      let t' = tracked_total p.covered.storage.tracked_balance ids in
      let total_after : total' ≡ now +ℤ (t' +ℤ bridged) =
        rw (after, self, listed, same, p.tracked) refl in
      let total_before : total
          ≡ h.token.balance asset w.self w.chain
            +ℤ tracked_total w.storage.tracked_balance ids
            +ℤ bridged =
        before ∙ sym (+ℤ_assoc _ _ bridged) in
      rw (total_before, total_after)
        (settled_total _ (h.token.balance asset w.self p.covered.chain) now assets t' bridged gain.1
          paid.1)
