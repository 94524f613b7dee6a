-- ===== src/Net/Tests/Bank.antt =====
-- A small bank of two pools, with its token.
use tezoro_yield_aggregator.Base.{
  ℕ, ◌-◌, ◌*◌, ◌/◌, ◌≡◌, ◌≢◌, ◌≤◌, refl, none, some, leb, ◌==◌, ◌&&◌, if◌then◌else◌, Option, List,
  [], ◌∷◌, arith,
}
use tezoro_yield_aggregator.Base.Int.{pos, pos_part, leb_ℤ, ◌+ℤ◌, ◌-ℤ◌}
use tezoro_yield_aggregator.Base.Map.{Address}
use tezoro_yield_aggregator.Common.{Token}
use tezoro_yield_aggregator.Blend.Pool.{Services, Reserve, Request}
use tezoro_yield_aggregator.Blend.Funds.{Holds, scalar}
use tezoro_yield_aggregator.Net.Promises.{PayingToken}
use tezoro_yield_aggregator.Net.Pools.{LendingPools, asks}
use tezoro_yield_aggregator.Net.Tests.{Purse, spend}
use tezoro_yield_aggregator.Vault.Pricing.Assets.{TokenLaws}

-- The tokens, what each pool was supplied with, and the positions in it. All rates are one.
pub record Bank : Type 0 where
  pub tokens : Purse
  pub supply : Address → ℕ
  pub position : Address → Address → ℕ

-- What each pool has lent out.
abbrev lent_by : Address → ℕ
lent_by pool = if pool == 300 then 600 else 200

abbrev pub bank_token : Token Bank
bank_token = record {
  balance = λ asset id x. pos (x.tokens id);
  transfer = λ asset from to amount x.
      if leb_ℤ (pos 0) amount && leb (pos_part amount) (x.tokens from)
      then some (record x { tokens = spend from to (pos_part amount) x.tokens })
      else none;
  approve = λ asset from spender amount until x. some x;
}

abbrev taken_out : Address → Address → ℕ → Bank → Bank
taken_out pool account n x = record {
  tokens = spend pool account n x.tokens;
  supply = λ p. if p == pool then x.supply p - n else x.supply p;
  position = λ p c. if p == pool && c == account then x.position p c - n else x.position p c;
}

abbrev serve : Address → Address → List Request → Bank → Option Bank
serve pool account [] x = some x
serve pool account (r ∷ requests) x =
    let n = pos_part r.amount in
    if leb n (x.position pool account) && leb n (x.supply pool - lent_by pool)
    then some (taken_out pool account n x)
    else none

abbrev pub reserve_in : Address → Bank → Reserve
reserve_in pool x = record {
  index = 1;
  b_rate = pos scalar;
  d_rate = pos scalar;
  b_supply = pos (x.supply pool);
  d_supply = pos (lent_by pool);
  backstop_credit = pos 900;
}

abbrev pub bank : Services Bank
bank = record {
  token = bank_token;
  pool = record {
    get_reserve = λ pool asset x. some (reserve_in pool x);
    get_positions = λ pool account x. some ((1, pos (x.position pool account)) ∷ []);
    submit = λ pool from spender to requests x. serve pool from requests x;
    submit_with_allowance = λ pool from spender to requests x. none;
    claim = λ pool from ids to x. none;
  };
}

bank-laws : TokenLaws bank_token
unfolding ◌+ℤ◌ ◌-ℤ◌
bank-laws = record {
  transfer_exact = λ asset from to amount x x' ne e. (ground arith, ground arith);
}

pub bank_pays : PayingToken bank_token
bank_pays = record {
  exact = bank-laws;
  nonneg = λ asset id x. omega arith;
  covered = λ asset from to n x le. (record x { tokens = spend from to n x.tokens }, ground arith);
  others = λ asset from to id n x x' ne ne' e. ground arith;
}

unit_rate : (n : ℕ) → n * scalar / scalar ≡ n
unit_rate n = grind arith

pub bank_gives :
    (pool account n : ℕ) (x : Bank) (r : Reserve) (b_supply b_rate d_supply d_rate : ℕ)
    → some (reserve_in pool x) ≡ some r
    → Holds r b_supply b_rate d_supply d_rate
    → n ≤ x.position pool account
    → n ≤ b_supply * b_rate / scalar - d_supply * d_rate / scalar
    → asks bank 9 pool account n x ≡ some (taken_out pool account n x)
bank_gives pool account n x r b_supply b_rate d_supply d_rate e holds owned free =
    ground (arith, unit_rate b_supply, unit_rate d_supply, e, holds, owned, free)

bank_took :
    (pool account n : ℕ) (x x' : Bank)
    → asks bank 9 pool account n x ≡ some x'
    → taken_out pool account n x ≡ x'
bank_took pool account n x x' e = ground arith

pub bank_moves :
    (pool account n : ℕ) (x x' : Bank)
    → pool ≢ account
    → asks bank 9 pool account n x ≡ some x'
    → pos (x'.tokens account) ≡ pos (x.tokens account) +ℤ pos n
unfolding ◌+ℤ◌
bank_moves pool account n x x' ne e = rw (← bank_took pool account n x x' e) (ground arith)

pub bank_others :
    (pool account n id : ℕ) (x x' : Bank)
    → id ≢ pool
    → id ≢ account
    → asks bank 9 pool account n x ≡ some x'
    → pos (x'.tokens id) ≡ pos (x.tokens id)
bank_others pool account n id x x' ne ne' e = rw (← bank_took pool account n x x' e) (ground arith)

pub bank_apart :
    (pool account n other : ℕ) (x x' : Bank)
    → other ≢ pool
    → asks bank 9 pool account n x ≡ some x'
    → (bank.pool.get_reserve other 9 x' ≡ bank.pool.get_reserve other 9 x)
      × ((holder : Address) → x'.position other holder ≡ x.position other holder)
bank_apart pool account n other x x' ne e =
    rw (← bank_took pool account n x x' e) (ground arith, λ holder. ground arith)

pub bank_unmoved :
    (pool from to n : ℕ) (x x' : Bank)
    → bank_token.transfer 9 from to (pos n) x ≡ some x'
    → (bank.pool.get_reserve pool 9 x' ≡ bank.pool.get_reserve pool 9 x)
      × ((holder : Address) → x'.position pool holder ≡ x.position pool holder)
bank_unmoved pool from to n x x' e =
    let sent : record x { tokens = spend from to n x.tokens } ≡ x' = ground arith in
    rw (← sent) (refl, λ holder. refl)

abbrev pub bank_pools : LendingPools bank 9
bank_pools = record {
  claim = λ pool account x. x.position pool account;
  pays = λ pool account n x r b_supply b_rate d_supply d_rate e holds gt owned free. (
    taken_out pool account n x,
    bank_gives pool account n x r b_supply b_rate d_supply d_rate e holds owned free,
  );
  moves = bank_moves;
  others = bank_others;
  apart = bank_apart;
  unmoved = bank_unmoved;
}
