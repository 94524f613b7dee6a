-- ===== src/Vault/Redeem/Liveness.antt =====
-- A redemption succeeds, in one transaction, when the vault and its strategies have the assets.
use tezoro_yield_aggregator.Base.{
  ℕ, ◌+◌, ◌-◌, ◌≤◌, ◌<◌, ◌≡◌, ◌⊎◌, inl, inr, ap, ◌∙◌, true, some, List, [], ◌∷◌, arith,
}
use tezoro_yield_aggregator.Base.Int.{ℤ, pos, pos--ℤ}
use tezoro_yield_aggregator.Base.Map.{Address, balance-le-sum}
use tezoro_yield_aggregator.Base.Outcome.{ok, value_or}
use tezoro_yield_aggregator.Base.Words
use tezoro_yield_aggregator.Base.Words.{i128_bound}
use tezoro_yield_aggregator.Common.{Chain}
use tezoro_yield_aggregator.Vault.State.{Storage, World, Event}
use tezoro_yield_aggregator.Vault.Store.{
  set_total_supply, set_share_balance, get_strategies, get_total_supply, get_share_balance,
  is_initialized,
}
use tezoro_yield_aggregator.Vault.Assets.{idle_balance, convert_to_assets, pro_rata, total_assets}
use tezoro_yield_aggregator.Vault.Keeps.{Keeps-ok}
use tezoro_yield_aggregator.Vault.Soundness.{IsSound}
use tezoro_yield_aggregator.Vault.Redeem.{cover, redeem, burn}
use tezoro_yield_aggregator.Vault.Redeem.Payment.{PaysOut, redeem-PaysOut}
use tezoro_yield_aggregator.Vault.Redeem.Frame.{waterfall-OnlyPulls, cover-frame}
use tezoro_yield_aggregator.Vault.Redeem.Liquidity.{
  LiquidityLaws, InRange, reachable, drained, drained-held, Ready-rest,
}
use tezoro_yield_aggregator.Vault.Redeem.Waterfall.{waterfall-drained}

pro_rata-small : (a n d : ℤ) (r : ℕ) → pro_rata a n d ≡ ok (pos r) → r < i128_bound
unfolding pro_rata Words.div
pro_rata-small a n d r e = ground arith

le_or_lt : (a b : ℕ) → (a ≤ b) ⊎ (b < a)
le_or_lt a b = ground arith

module _ {X : Type 0} {h : Chain X} {asset self : Address} {Ready : List Address → X → Type 0}
    (laws : LiquidityLaws h asset self Ready) where
  idle_balance-held :
      (ids : List Address) (w : World X)
      → w.self ≡ self
      → w.storage.asset ≡ some asset
      → Ready ids w.chain
      → idle_balance h w ≡ ok (pos (laws.held w.chain))
  unfolding idle_balance
  idle_balance-held ids w s a ready = rw (a, s) (ap ok (laws.held_exact ids w.chain ready))

  -- What is missing is pulled from the strategies.
  cover-pays :
      (assets : ℕ) (w : World X)
      → w.self ≡ self
      → w.storage.asset ≡ some asset
      → Ready (get_strategies w.storage) w.chain
      → InRange w.storage.tracked_balance
      → assets < i128_bound
      → assets ≤ laws.held w.chain + reachable laws (get_strategies w.storage) w.chain
      → (w' : World X) × (cover h (pos assets) (pos (laws.held w.chain)) w ≡ ok (tt, w'))
        × (assets ≤ laws.held w'.chain)
        × Ready [] w'.chain
  unfolding cover Words.sub
  cover-pays assets w s a ready range small le =
      let idle = laws.held w.chain in
      elim (le_or_lt assets idle) [
        | inl covered ↦
            (w, ground arith, covered, Ready-rest laws (get_strategies w.storage) w.chain ready)
        | inr short ↦
            (let strategies = get_strategies w.storage in
              let w' = drained laws strategies (assets - idle) w in
              let runs =
                waterfall-drained laws strategies (assets - idle) w s ready range
                  (omega (arith, small)) in
              let (gained, rest) = drained-held laws strategies (assets - idle) w ready in
              let frame =
                Keeps-ok (waterfall-OnlyPulls h strategies (pos (assets - idle))) w runs in
              let idle_after =
                idle_balance-held [] w' (frame.self_eq ∙ s)
                  (ap (λ (st : Storage). st.asset) frame.storage_eq ∙ a) rest in
              (
                w',
                ground (arith, pos--ℤ assets idle, runs, idle_after, gained),
                ground (arith, gained),
                rest,
              ))
      ]

  -- The state after the shares are burnt and the assets paid out.
  abbrev settled : Address → ℤ → ℤ → ℤ → ℤ → X → World X → World X
  settled from shares assets left supply x w = record w {
    storage = set_total_supply supply (set_share_balance from left w.storage);
    chain = x;
    events = Event.redeem from shares assets ∷ w.events;
  }

  burn-runs :
      (from : Address) (held shares supply : ℕ) (w : World X)
      → get_total_supply w.storage ≡ pos supply
      → shares ≤ held
      → shares ≤ supply
      → held < i128_bound
      → supply < i128_bound
      → burn from (pos held) (pos shares) w
        ≡ ok (
          tt,
          record w {
            storage =
                set_total_supply
                  (pos (supply - shares))
                  (set_share_balance from (pos (held - shares)) w.storage);
          },
        )
  unfolding burn Words.sub
  burn-runs from held shares supply w s le le' small small' =
      ground (arith, pos--ℤ held shares, pos--ℤ supply shares)

  convert_to_assets-small :
      (shares assets : ℕ) (w : World X)
      → convert_to_assets h (pos shares) w ≡ ok (pos assets)
      → assets < i128_bound
  unfolding convert_to_assets
  convert_to_assets-small shares assets w e = ground (
    arith,
    pro_rata-small (pos shares) (value_or (pos 0) (total_assets h w)) (get_total_supply w.storage)
        assets,
  )

  -- A holder's redemption returns, with what the shares are worth transferred by the token from
  -- the vault to the holder, as the last call of another contract, and the shares taken off the
  -- holder and the supply, whatever the pause flag, if the assets are among the idle funds and the
  -- liquidity that the strategies quote: for a sound storage whose amounts are within `i128`,
  -- strategies that are ready to honour their quotes, and a token that transfers any amount that
  -- the vault holds.
  pub redeem-returns :
      (from : Address) (shares owned supply assets : ℕ) (w : World X)
      → IsSound w.storage
      → InRange w.storage.tracked_balance
      → Ready (get_strategies w.storage) w.chain
      → w.self ≡ self
      → w.storage.asset ≡ some asset
      → w.authorized from ≡ true
      → is_initialized w.storage ≡ true
      → get_share_balance w.storage from ≡ pos owned
      → get_total_supply w.storage ≡ pos supply
      → owned < i128_bound
      → supply < i128_bound
      → 0 < shares
      → shares ≤ owned
      → convert_to_assets h (pos shares) w ≡ ok (pos assets)
      → 0 < assets
      → assets ≤ laws.held w.chain + reachable laws (get_strategies w.storage) w.chain
      → ((x : X)
          → Ready [] x
          → assets ≤ laws.held x
          → (x' : X) × (h.token.transfer asset self from (pos assets) x ≡ some x'))
      → (w' : World X) × (redeem h from (pos shares) w ≡ ok (pos assets, w'))
        × PaysOut h from (pos shares) (pos assets) w w'
  unfolding redeem
  redeem-returns from shares owned supply assets w sound range ready s a auth init own total small
        small' lt le worth gt enough pays =
      let (v, covered, has, rest) =
        cover-pays assets w s a ready range (convert_to_assets-small shares assets w worth)
          enough in
      let frame = cover-frame h (pos assets) (pos (laws.held w.chain)) w covered in
      let backed = balance-le-sum from w.storage.share_balance sound.backed.nonneg in
      let total' : get_total_supply v.storage ≡ pos supply =
        ap (λ (st : Storage). get_total_supply st) frame.storage_eq ∙ total in
      let le' : shares ≤ supply = ground (arith, backed, sound.backed.backed) in
      let burnt = burn-runs from owned shares supply v total' le le' small small' in
      let a' : v.storage.asset ≡ some asset =
        ap (λ (st : Storage). st.asset) frame.storage_eq ∙ a in
      let (x, paid) = pays v.chain rest has in
      let w' =
        settled from (pos shares) (pos assets) (pos (owned - shares)) (pos (supply - shares)) x v in
      let runs : redeem h from (pos shares) w ≡ ok (pos assets, w') = ground (
        arith,
        idle_balance-held (get_strategies w.storage) w s a ready,
        covered,
        burnt,
        paid,
        a',
        frame.self_eq,
      ) in
      (w', runs, redeem-PaysOut h from (pos shares) w runs)
