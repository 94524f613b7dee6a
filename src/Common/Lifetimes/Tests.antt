-- ===== src/Common/Lifetimes/Tests.antt =====
-- A host as its documentation has it, and an entry that is used again within thirty days.
use native.Mathlib.Decide.{ℕ_discrete}
use tezoro_yield_aggregator.Base.{ℕ, ◌+◌, ◌≤◌, ltb, if◌then◌else◌, arith}
use tezoro_yield_aggregator.Common.Lifetimes.{
  Host, HostLaws, Lifetimes, Entry, Used, Used-live, live_until, bump, bump_persistent, wait,
}

abbrev host : Host
host = record {
  extend_ttl = λ threshold extend_to sequence until.
      if ltb until (sequence + threshold) then sequence + extend_to else until;
  max_entry_ttl = 3_110_400;
}

host_laws : HostLaws host
host_laws = record {
  extended = λ threshold extend_to sequence until _ _ short. ground arith;
  left_alone = λ threshold extend_to sequence until long. ground arith;
}

-- The entry was just written; the host gave it twenty ledgers.
abbrev written : Lifetimes ℕ
written = record { sequence = 100; instance_until = 90_000; persistent_until = λ _. 120 }

abbrev share : Entry ℕ
share = Entry.persistent_entry 4

abbrev kept : Lifetimes ℕ
kept = wait 500_000 (bump host ℕ_discrete share written)

abbrev used : Lifetimes ℕ
used =
    wait 518_400 (bump host ℕ_discrete share (bump host ℕ_discrete (Entry.persistent_entry 5) kept))

used_again : Used host ℕ_discrete share 500_100 used
unfolding bump_persistent
used_again =
    Used.waits 518_400
      (Used.bumps (
        Used.bumps_other (Entry.persistent_entry 5)
          (Used.waits 500_000 (Used.begins written (omega arith)) (omega arith))
          (λ q. ground (arith, q))))
      (omega arith)

Used-live_example : used.sequence ≤ live_until share used
Used-live_example = Used-live host ℕ_discrete host_laws (omega arith) share used_again
