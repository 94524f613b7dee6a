-- ===== src/Vault/Tests/Totals.antt =====
-- The total of a vault with strategies and an attestation, and a deposit into it.
use tezoro_yield_aggregator.Base.{◌≡◌, inl, refl, some, [], ◌∷◌, arith}
use tezoro_yield_aggregator.Base.Int.{ℤ, pos}
use tezoro_yield_aggregator.Base.Map.{Map, lookup}
use tezoro_yield_aggregator.Base.Outcome.{ok}
use tezoro_yield_aggregator.Vault.State.{World, Storage}
use tezoro_yield_aggregator.Vault.Soundness.{IsTracked}
use tezoro_yield_aggregator.Vault.Assets.{effective_bridged_balance}
use tezoro_yield_aggregator.Vault.Shares.{deposit}
use tezoro_yield_aggregator.Vault.Shares.Liveness.{deposit-returns}
use tezoro_yield_aggregator.Vault.Evaluation.{evaluation}
use tezoro_yield_aggregator.Vault.Fixture.{plain, running, world_of, move}

-- 1,000 idle, 2,000 and 300 in strategies, 700 attested; 4,000 shares.
abbrev full : Storage
full = record running {
  strategy_list = some (50 ∷ 51 ∷ []);
  tracked_balance = (50, pos 2_000) ∷ (51, pos 300) ∷ [];
  bridged_balance = some (pos 700);
  bridged_timestamp = some 900;
  share_balance = (11, pos 4_000) ∷ [];
  total_supply = some (pos 4_000);
}

abbrev full_world : World (Map ℤ)
full_world = world_of full ((100, pos 1_000) ∷ (10, pos 5_000) ∷ [])

full-IsTracked : IsTracked full
unfolding evaluation
full-IsTracked = ground arith

deposit-returns_example :
    (w' : World (Map ℤ)) × (deposit plain 10 (pos 500) full_world ≡ ok (pos 500, w'))
unfolding lookup effective_bridged_balance move
deposit-returns_example =
    deposit-returns plain 10 9 500 1_000 4_000 0 500 full_world full-IsTracked refl refl refl refl
      refl refl refl (omega arith) (omega arith) (omega arith) (inl refl) refl (omega arith)
      (omega arith) (omega arith) refl
