-- ===== src/ConnPool/Tests.antt =====
-- Runs of a small pool, and the theorems about the pool at those runs.
use mathlib.Core.List.{Perm}
use linux_cpp_learn.Prelude.{
  ◌≢◌, ℕ, ◌+◌, ◌-◌, ◌*◌, ◌<◌, Bool, true, false, List, [], ◌∷◌, ◌++◌, some, arith, ◌≡◌, refl,
  length, replicate,
}
use linux_cpp_learn.Prelude.Int.{pos}
use linux_cpp_learn.ConnPool.{
  Conn, ConnPool, took, give_back, get_conn, recycle_conn, recycle_loop, create,
}
use linux_cpp_learn.ConnPool.JsonConf.{Root, parsed}
use linux_cpp_learn.ConnPool.Recycle.{Recycled, recycle_conn-Recycled}
use linux_cpp_learn.ConnPool.Client.{Turn, Insert, op2, rows, numbers, conns, idle, op2_takes_turns}
use linux_cpp_learn.ConnPool.System.{Sys, Action, gets, returns, produces, recycles, run}
use linux_cpp_learn.ConnPool.Limits.{
  grant, get_conn_lem, lent_beyond_max_size, produce_until, produce_until_waits,
}
use linux_cpp_learn.ConnPool.Ownership.{ids, below, opened, run-IsOwned_of_create}

abbrev conf : Root
conf = record {
  is_object = true;
  ip = [];
  port = pos 3306;
  user_name = [];
  password = [];
  db_name = [];
  min_size = pos 2;
  max_size = pos 1;
  max_idle_time = pos 5000;
  timeout = pos 1000;
}

-- Connections are made a second apart, and each `connect` succeeds.
abbrev answers : ℕ → ℕ × Bool
answers n = (n * 1_000_000_000, true)

abbrev first : Conn
first = record { id = 0; connected = true; alive_time = 0 }

abbrev second : Conn
second = record { id = 1; connected = true; alive_time = 1_000_000_000 }

abbrev pool : ConnPool
pool = record { config = parsed conf; queue = first ∷ second ∷ []; made = 2 }

create-conf : create conf answers ≡ some pool
unfolding create
create-conf = refl

-- At six seconds a pool of three gives up its oldest connection, of which the time has come.
abbrev crowded : ConnPool
crowded = record pool { queue = first ∷ first ∷ second ∷ [] }

recycle-crowded : (recycle_conn crowded 6_000_000_000).0.queue ≡ first ∷ second ∷ []
unfolding recycle_conn recycle_loop parsed
recycle-crowded = refl

crowd_thinned :
    Recycled crowded.min_size crowded.max_idle_time 6_000_000_000 crowded.queue
      (recycle_conn crowded 6_000_000_000).0.queue
      (recycle_conn crowded 6_000_000_000).1
crowd_thinned = recycle_conn-Recycled crowded 6_000_000_000

get_conn_lem_example : get_conn 2 pool 7 false ≡ grant pool 7 false pool.queue
get_conn_lem_example = get_conn_lem 2 pool 7 false (omega arith)

-- All of the connections are lent.
abbrev busy : Sys
busy = record { pool = record pool { queue = [] }; lent = second ∷ first ∷ []; deleted = [] }

get_when_none_connects :
    get_conn 2 busy.pool 7 false
    ≡ took (record { id = 2; connected = false; alive_time = 7 }) (record busy.pool { made = 3 })
unfolding get_conn parsed
get_when_none_connects = refl

one_at_most : 0 < busy.pool.max_size
unfolding parsed
one_at_most = omega arith

-- Five connections are lent where the upper limit is one.
third_lent : length (run (replicate 3 (gets 7 true)) busy).lent ≡ 5
third_lent = lent_beyond_max_size 3 busy 7 true one_at_most refl

enough_rounds : busy.pool.min_size - length busy.pool.queue < 3
unfolding parsed
enough_rounds = omega arith

produce_until_waits_example :
    ((produce_until 3 busy.pool answers).1 ≡ true)
    × (length (produce_until 3 busy.pool answers).0.queue
        ≡ length busy.pool.queue + (busy.pool.min_size - length busy.pool.queue))
produce_until_waits_example = produce_until_waits 3 busy.pool answers enough_rounds

abbrev day : List Action
day =
    gets 1 true
    ∷ gets 2 true
    ∷ gets 3 false
    ∷ returns 1 4
    ∷ produces 5 true
    ∷ recycles 9_000_000_000
    ∷ []

run-IsOwned_of_create_example :
    let s = run day (opened pool) in
    Perm (ids s.pool.queue ++ (ids s.lent ++ ids s.deleted)) (below s.pool.made)
run-IsOwned_of_create_example = run-IsOwned_of_create conf answers pool day create-conf

-- A second for each round of op2.
abbrev turns : ℕ → Turn
turns i = record { now = i * 1_000_000_000; ok = true; returned = i * 1_000_000_000 + 1 }

pool-idle : pool.queue ≢ []
pool-idle = cc

turns_taken :
    (sent : List Insert) × (p : ConnPool) × (op2 pool 0 5 turns ≡ some (sent, p))
    × (rows sent ≡ numbers 0 5)
    × (conns sent ++ idle p.queue ≡ idle pool.queue ++ conns sent)
    × (p.made ≡ 2)
turns_taken = op2_takes_turns pool 0 5 turns pool-idle

-- The two connections of the pool, in turn.
op2_in_turn :
    (sent : List Insert) × (p : ConnPool) × (op2 pool 0 5 turns ≡ some (sent, p))
    × (conns sent ≡ 0 ∷ 1 ∷ 0 ∷ 1 ∷ 0 ∷ [])
unfolding op2 conns get_conn give_back parsed
op2_in_turn = (_, _, refl, refl)
