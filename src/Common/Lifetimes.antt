-- ===== src/Common/Lifetimes.antt =====
-- How long storage entries live: the constants of contracts/contracts/tezoro-common/src/lib.rs,
-- `bump_instance` and `bump_persistent`. A ledger closes about every five seconds, and an entry is
-- archived once the number of the ledger is past the one that it lives until.
mod Tests
use Prim.{Discrete}
use mathlib.Core.Logic.{ite}
use tezoro_yield_aggregator.Base.{ℕ, ◌+◌, ◌*◌, ◌≤◌, ◌<◌, ◌≡◌, ◌≢◌, refl, ap, arith}

abbrev pub ledgers_per_day : ℕ
ledgers_per_day = 17_280

abbrev pub instance_lifetime_threshold : ℕ
instance_lifetime_threshold = ledgers_per_day * 30

abbrev pub instance_bump_amount : ℕ
instance_bump_amount = ledgers_per_day * 120

abbrev pub persistent_lifetime_threshold : ℕ
persistent_lifetime_threshold = ledgers_per_day * 30

abbrev pub persistent_bump_amount : ℕ
persistent_bump_amount = ledgers_per_day * 120

ite_yes {ℓ} : {P : Type ℓ} (d : Dec P) (x y : ℕ) → P → ite d x y ≡ x
ite_yes (yes _) x y p = refl
ite_yes (no n) x y p = absurd (n p)

ite_no {ℓ} : {P : Type ℓ} (d : Dec P) (x y : ℕ) → ¬ P → ite d x y ≡ y
ite_no (yes p) x y n = absurd (n p)
ite_no (no _) x y n = refl

-- `extend_ttl` of the Soroban host, as a function of the threshold, the lifetime to extend to, the
-- number of the ledger, and the last ledger that the entry lives in; and what is documented of it.
-- An entry that has less than the threshold left is extended, another one is left as it is.
pub record Host : Type 0 where
  pub extend_ttl : ℕ → ℕ → ℕ → ℕ → ℕ
  pub max_entry_ttl : ℕ

pub record HostLaws (h : Host) : Type 0 where
  pub extended :
      (threshold extend_to sequence until : ℕ)
      → extend_to ≤ h.max_entry_ttl
      → sequence ≤ until
      → until < sequence + threshold
      → h.extend_ttl threshold extend_to sequence until ≡ sequence + extend_to
  pub left_alone :
      (threshold extend_to sequence until : ℕ)
      → sequence + threshold ≤ until
      → h.extend_ttl threshold extend_to sequence until ≡ until

-- The ledger's number, and the last ledger of the instance entry and of each persistent one.
pub record Lifetimes (K : Type 0) : Type 0 where
  pub sequence : ℕ
  pub instance_until : ℕ
  pub persistent_until : K → ℕ

pub data Entry (K : Type 0) : Type 0 where
  instance_entry : Entry K
  persistent_entry : K → Entry K

module _ {K : Type 0} where
  abbrev pub live_until : Entry K → Lifetimes K → ℕ
  live_until Entry.instance_entry l = l.instance_until
  live_until (Entry.persistent_entry key) l = l.persistent_until key

  abbrev pub wait : ℕ → Lifetimes K → Lifetimes K
  wait n l = record l { sequence = l.sequence + n }

  live_until-wait :
      (e : Entry K) (n : ℕ) (l : Lifetimes K) → live_until e (wait n l) ≡ live_until e l
  live_until-wait Entry.instance_entry n l = refl
  live_until-wait (Entry.persistent_entry key) n l = refl

module _ {K : Type 0} (h : Host) (same : Discrete K) where
  unfoldable pub bump_instance : Lifetimes K → Lifetimes K
  bump_instance l = record l {
    instance_until =
        h.extend_ttl instance_lifetime_threshold instance_bump_amount l.sequence l.instance_until;
  }

  unfoldable pub bump_persistent : K → Lifetimes K → Lifetimes K
  bump_persistent key l = record l {
    persistent_until = λ k.
        ite (same k key)
          (h.extend_ttl persistent_lifetime_threshold persistent_bump_amount l.sequence
            (l.persistent_until key))
          (l.persistent_until k);
  }

  abbrev pub bump : Entry K → Lifetimes K → Lifetimes K
  bump Entry.instance_entry = bump_instance
  bump (Entry.persistent_entry key) = bump_persistent key

  -- Histories that bump the entry `e`, first while it lives and last in the ledger `last`, and in
  -- between let at most the threshold of thirty days pass. Other entries may be bumped at any time.
  pub data Used (e : Entry K) : ℕ → Lifetimes K → Type 0 where
    begins : (l : Lifetimes K) → l.sequence ≤ live_until e l → Used e l.sequence (bump e l)
    waits :
        {last : ℕ} {l : Lifetimes K} (n : ℕ)
        → Used e last l
        → l.sequence + n ≤ last + ledgers_per_day * 30
        → Used e last (wait n l)
    bumps : {last : ℕ} {l : Lifetimes K} → Used e last l → Used e l.sequence (bump e l)
    bumps_other :
        {last : ℕ} {l : Lifetimes K} (other : Entry K)
        → Used e last l
        → e ≢ other
        → Used e last (bump other l)

  bump_sequence : (e : Entry K) (l : Lifetimes K) → (bump e l).sequence ≡ l.sequence
  unfolding bump_instance bump_persistent
  bump_sequence Entry.instance_entry l = refl
  bump_sequence (Entry.persistent_entry key) l = refl

module _ {K : Type 0} (h : Host) (same : Discrete K) (laws : HostLaws h)
    (fits : persistent_bump_amount ≤ h.max_entry_ttl) where
  extend_ttl_le :
      (sequence until : ℕ)
      → sequence ≤ until
      → sequence + ledgers_per_day * 30
        ≤ h.extend_ttl (ledgers_per_day * 30) (ledgers_per_day * 120) sequence until
  extend_ttl_le sequence until i =
      let month = ledgers_per_day * 30 in
      let long = laws.extended month persistent_bump_amount sequence until fits i in
      let same_end = laws.left_alone month persistent_bump_amount sequence until in
      ground (arith, long, same_end)

  bump_le :
      (e : Entry K) (l : Lifetimes K)
      → l.sequence ≤ live_until e l
      → l.sequence + ledgers_per_day * 30 ≤ live_until e (bump h same e l)
  unfolding bump_instance bump_persistent
  bump_le Entry.instance_entry l i = extend_ttl_le l.sequence l.instance_until i
  bump_le (Entry.persistent_entry key) l i = omega (
    arith,
    ite_yes (same key key) _ (l.persistent_until key) refl,
    extend_ttl_le l.sequence (l.persistent_until key) i,
  )

  live_until-bump :
      (e other : Entry K) (l : Lifetimes K)
      → e ≢ other
      → live_until e (bump h same other l) ≡ live_until e l
  unfolding bump_instance bump_persistent
  live_until-bump Entry.instance_entry Entry.instance_entry l d = absurd (d refl)
  live_until-bump Entry.instance_entry (Entry.persistent_entry key) l d = refl
  live_until-bump (Entry.persistent_entry key) Entry.instance_entry l d = refl
  live_until-bump (Entry.persistent_entry k) (Entry.persistent_entry key) l d =
      ite_no (same k key) _ _ (λ q. d (ap Entry.persistent_entry q))

  Used-bounds :
      (e : Entry K) {last : ℕ} {l : Lifetimes K}
      → Used h same e last l
      → (l.sequence ≤ last + ledgers_per_day * 30) × (last + ledgers_per_day * 30 ≤ live_until e l)
  Used-bounds e (Used.begins l i) = (omega (arith, bump_sequence h same e l), bump_le e l i)
  Used-bounds e (Used.waits {l = l} n u i) =
      (i, omega (arith, live_until-wait e n l, (Used-bounds e u).1))
  Used-bounds e (Used.bumps {l = l} u) =
      let b = Used-bounds e u in
      (omega (arith, bump_sequence h same e l), bump_le e l (omega (arith, b.0, b.1)))
  Used-bounds e (Used.bumps_other {l = l} other u d) =
      let b = Used-bounds e u in
      (
        omega (arith, bump_sequence h same other l, b.0),
        omega (arith, live_until-bump e other l d, b.1),
      )

  -- On a host that extends entries as documented and allows the constants' lifetime, an entry of the
  -- instance storage or under a persistent key that is bumped while it lives, and then again whenever
  -- thirty days of ledgers have passed at most, is never archived, whatever other entries are bumped
  -- in between.
  pub Used-live :
      (e : Entry K) {last : ℕ} {l : Lifetimes K}
      → Used h same e last l
      → l.sequence ≤ live_until e l
  Used-live e u = let b = Used-bounds e u in omega (arith, b.0, b.1)
