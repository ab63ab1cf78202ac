-- ===== src/ConnPool/Tests.antt =====
-- A pool of which one connection is open, and the first connections of a new pool.
use alarm.Base.{ℕ, ◌≡◌, refl, arith, Bool, true, false, List, [], ◌∷◌, ◌++◌, none, some, ◌==◌}
use alarm.ConnPool.{conn_init, PooledConn, Pool, conn_new, conn_close}
use alarm.ConnPool.Obtaining.{IsPool}
use alarm.ConnPool.Ownership.{
  opening, closing, OnlyOpened, conn_new_lem, conn_new_fails, conn_close_lem, initial-IsPool,
}
use alarm.ConnPool.Stack.{conn_init_lem}

abbrev blank : PooledConn
blank = record {
  sfd = 0;
  id = 0;
  rlen = 9;
  wlen = 9;
  is_verify = false;
  thread = 0;
  is_login = true;
  is_online = true;
  dev_id = [];
}

abbrev initial : Pool
initial = record { free = conn_init; allocated = 0; conns = λ x. blank; freed = [] }

abbrev closed : ℕ → Bool
closed x = false

conn_new_lem_example :
    (c : ℕ) × (p' : Pool) × (ys : List ℕ) × (conn_new true 7 1 0 initial ≡ some (some c, p'))
    × (closed c ≡ false)
    × IsPool p' ys (opening c closed)
    × OnlyOpened c 7 1 0 initial p'
conn_new_lem_example = conn_new_lem initial [] closed 7 1 0 (initial-IsPool (λ x. blank))

conn_new_fails_example :
    (c : ℕ) × (p' : Pool) × (ys : List ℕ) × (conn_new false 7 1 0 initial ≡ some (none, p'))
    × (closed c ≡ false)
    × IsPool p' (ys ++ (c ∷ [])) closed
    × OnlyOpened c 7 1 0 initial p'
conn_new_fails_example = conn_new_fails initial [] closed 7 1 0 (initial-IsPool (λ x. blank))

abbrev one_open : Pool
one_open = record { free = conn_init; allocated = 1; conns = λ x. blank; freed = [] }

abbrev only_first : ℕ → Bool
only_first x = x == 0

one_open-IsPool : IsPool one_open [] only_first
one_open-IsPool = record {
  stack = conn_init_lem;
  distinct = tt;
  idle = tt;
  below = λ c e. ground arith;
}

conn_close_lem_example :
    (p' : Pool) × (conn_close 0 one_open ≡ some (tt, p'))
    × IsPool p' (0 ∷ []) (closing 0 only_first)
    × (p'.conns ≡ one_open.conns)
    × (p'.freed ≡ one_open.freed)
conn_close_lem_example = conn_close_lem one_open [] only_first 0 one_open-IsPool refl
