-- ===== src/Vault/Shares/Transfers.antt =====
-- What a transfer of shares does to the balances.
use tezoro_yield_aggregator.Base.{◌≡◌, refl, true, ◌==◌, if◌then◌else◌, arith}
use tezoro_yield_aggregator.Base.Int.{ℤ, pos, ◌+ℤ◌, ◌-ℤ◌, ◌≤ℤ◌, int_laws}
use tezoro_yield_aggregator.Base.Map.{Address, Map, balance, insert, lookup-insert}
use tezoro_yield_aggregator.Base.Outcome.{ok}
use tezoro_yield_aggregator.Base.Words
use tezoro_yield_aggregator.Vault.State.{World}
use tezoro_yield_aggregator.Vault.Store.{get_share_balance, get_total_supply}
use tezoro_yield_aggregator.Vault.Shares.{transfer}

-- A debit and then a credit, which may be of the same holder.
abbrev moved : Address → Address → ℤ → Map ℤ → Map ℤ
moved from to amount m =
    let debited = insert from (balance from m -ℤ amount) m in
    insert to (balance to debited +ℤ amount) debited

balance-moved :
    (a from to : Address) (amount : ℤ) (m : Map ℤ)
    → balance a (moved from to amount m)
      ≡ balance a m -ℤ (if a == from then amount else pos 0) +ℤ (if a == to then amount else pos 0)
balance-moved a from to amount m =
    let debited = insert from (balance from m -ℤ amount) m in
    grind (
      int_laws,
      lookup-insert a to (balance to debited +ℤ amount) debited,
      lookup-insert a from (balance from m -ℤ amount) m,
      lookup-insert to from (balance from m -ℤ amount) m,
    )

module _ {X : Type 0} where
  transfer-storage :
      (from to : Address) (amount : ℤ) (w : World X) {w' : World X}
      → transfer from to amount w ≡ ok (tt, w')
      → (w.authorized from ≡ true)
        × (pos 1 ≤ℤ amount)
        × (amount ≤ℤ get_share_balance w.storage from)
        × (w'.storage
            ≡ record w.storage { share_balance = moved from to amount w.storage.share_balance })
  unfolding transfer Words.add Words.sub
  transfer-storage from to amount w e = ground arith

  -- A transfer that returns was authorised by the holder, who had the positive amount: it debits the
  -- holder and credits the receiver with exactly the amount, changes nothing if the two are the
  -- same, and leaves all other balances and the supply as they are.
  pub transfer_balances :
      (from to a : Address) (amount : ℤ) (w : World X) {w' : World X}
      → transfer from to amount w ≡ ok (tt, w')
      → (w.authorized from ≡ true)
        × (pos 1 ≤ℤ amount)
        × (amount ≤ℤ get_share_balance w.storage from)
        × (get_total_supply w'.storage ≡ get_total_supply w.storage)
        × (get_share_balance w'.storage a
            ≡ get_share_balance w.storage a
              -ℤ (if a == from then amount else pos 0)
              +ℤ (if a == to then amount else pos 0))
  transfer_balances from to a amount w {w' = w'} e =
      let (auth, positive, owned, eq) = transfer-storage from to amount w e in
      let moves = balance-moved a from to amount w.storage.share_balance in
      (auth, positive, owned, rw eq refl, rw eq moves)
