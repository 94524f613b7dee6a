-- ===== src/Vault/Tests/Shares.antt =====
-- The share ledger behind a history.
use tezoro_yield_aggregator.Base.{◌≤◌, ◌≡◌, ◌==◌, refl, [], ◌∷◌, arith}
use tezoro_yield_aggregator.Base.Int.{ℤ, pos, ◌≤ℤ◌}
use tezoro_yield_aggregator.Base.Map.{Map, lookup}
use tezoro_yield_aggregator.Base.Outcome.{ok}
use tezoro_yield_aggregator.Vault.State.{World}
use tezoro_yield_aggregator.Vault.Store.{get_share_balance}
use tezoro_yield_aggregator.Vault.Soundness.{IsSound}
use tezoro_yield_aggregator.Vault.Calls.{Call, invoke, Step, Reach}
use tezoro_yield_aggregator.Vault.Ledger.{Ledger, Acts, Represents}
use tezoro_yield_aggregator.Vault.Ledger.Refinement.{Reach-Acts, shares_kept}
use tezoro_yield_aggregator.Vault.Evaluation.{evaluation}
use tezoro_yield_aggregator.Vault.Fixture.{plain, start, after}

fresh-IsSound : IsSound start.storage
fresh-IsSound = ground arith

abbrev blank : Ledger
blank = record { held = λ a. pos 0; supply = pos 0 }

fresh-Represents : Represents start.storage blank
unfolding lookup
fresh-Represents = record { shares = λ a. refl; total = refl }

abbrev issued : World (Map ℤ)
issued = after start (invoke plain (Call.deposit 10 (pos 3_000)) start)

issue_call : invoke plain (Call.deposit 10 (pos 3_000)) start ≡ ok (tt, issued)
unfolding evaluation
issue_call = refl

-- The holder passes 1,000 shares on, and the receiver, who is the one to authorise it, redeems 400.
abbrev passed_on : World (Map ℤ)
passed_on = after issued (invoke plain (Call.transfer 10 12 (pos 1_000)) issued)

pass_call : invoke plain (Call.transfer 10 12 (pos 1_000)) issued ≡ ok (tt, passed_on)
unfolding evaluation
pass_call = refl

abbrev receiver_acts : World (Map ℤ)
receiver_acts = record passed_on {
  chain = passed_on.chain;
  timestamp = 1_200;
  authorized = λ a. a == 12;
}

abbrev retired : World (Map ℤ)
retired = after receiver_acts (invoke plain (Call.redeem 12 (pos 400)) receiver_acts)

retire_call : invoke plain (Call.redeem 12 (pos 400)) receiver_acts ≡ ok (tt, retired)
unfolding evaluation
retire_call = refl

later : passed_on.timestamp ≤ 1_200
unfolding evaluation
later = omega arith

abbrev history : Reach plain start retired
history =
    Reach.next
      (Reach.next
        (Reach.next (Reach.next Reach.here (Step.calls (Call.deposit 10 (pos 3_000)) issue_call))
          (Step.calls (Call.transfer 10 12 (pos 1_000)) pass_call))
        (Step.passes passed_on.chain 1_200 (λ a. a == 12) later))
      (Step.calls (Call.redeem 12 (pos 400)) retire_call)

Reach-Acts_example : (l : Ledger) × (Acts plain history blank l × Represents retired.storage l)
Reach-Acts_example = Reach-Acts plain blank fresh-IsSound fresh-Represents history

-- A second deposit that the first depositor has not authorised.
abbrev only_second : World (Map ℤ)
only_second = record start {
  chain = (10, pos 5_000) ∷ (11, pos 700) ∷ [];
  authorized = λ a. a == 11;
}

abbrev second : World (Map ℤ)
second = after only_second (invoke plain (Call.deposit 11 (pos 700)) only_second)

second_call : invoke plain (Call.deposit 11 (pos 700)) only_second ≡ ok (tt, second)
unfolding evaluation
second_call = refl

shares_kept_example :
    get_share_balance only_second.storage 10 ≤ℤ get_share_balance second.storage 10
shares_kept_example =
    shares_kept plain (Call.deposit 11 (pos 700)) 10 only_second fresh-IsSound second_call refl
