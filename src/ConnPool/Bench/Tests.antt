-- ===== src/ConnPool/Bench/Tests.antt =====
-- Two threads on a small pool, and the theorems at their run.
use linux_cpp_learn.Prelude.{
  ℕ, zero, suc, ◌*◌, ◌-◌, ◌<◌, ◌++◌, some, get_elem?, ◌+◌, ◌≤◌, ◌≡◌, refl, true, List, [], ◌∷◌,
  arith, All, length, range, count, total,
}
use linux_cpp_learn.Prelude.Int.{pos}
use linux_cpp_learn.ConnPool.{ConnPool, get_conn, produce_conn}
use linux_cpp_learn.ConnPool.JsonConf.{Root, parsed}
use linux_cpp_learn.ConnPool.Client.{rows}
use linux_cpp_learn.ConnPool.Bench.{
  Client, Move, client, produces, recycles, run, thread, test2, start,
}
use linux_cpp_learn.ConnPool.Bench.Rows.{IsThrough, run_sends}
use linux_cpp_learn.ConnPool.Bench.Finish.{turns, run_completes}
use linux_cpp_learn.ConnPool.Bench.Bound.{held, run_few_connections}

abbrev conf : Root
conf = record {
  is_object = true;
  ip = [];
  port = pos 3306;
  user_name = [];
  password = [];
  db_name = [];
  min_size = pos 1;
  max_size = pos 1;
  max_idle_time = pos 5000;
  timeout = pos 1000;
}

-- A pool with one idle connection.
abbrev pool : ConnPool
pool = record {
  config = parsed conf;
  queue = record { id = 0; connected = true; alive_time = 0 } ∷ [];
  made = 1;
}

-- Two rows for the first thread and one for the second, which both insert the row 1.
abbrev clients : List Client
clients = thread 0 2 ∷ thread 1 2 ∷ []

abbrev moves : List Move
moves =
    client 0 1 true
    ∷ client 1 2 true
    ∷ client 1 3 true
    ∷ produces 3 true
    ∷ client 0 4 true
    ∷ client 0 5 true
    ∷ client 0 6 true
    ∷ client 0 7 true
    ∷ client 1 8 true
    ∷ recycles 9
    ∷ client 0 10 true
    ∷ []

moves-IsThrough : All IsThrough (run moves (start pool clients)).clients
unfolding run get_conn parsed produce_conn
moves-IsThrough = (
  record { outside = refl; over = omega arith },
  (record { outside = refl; over = omega arith }, tt),
)

run_sends_example :
    count 1 (rows (run moves (start pool clients)).statements)
    ≡ total (λ t. range 1 t.i t.last) clients
run_sends_example = run_sends pool clients moves (refl, (refl, tt)) moves-IsThrough 1

row_one_twice : total (λ t. range 1 t.i t.last) clients ≡ 2
unfolding total range
row_one_twice = refl

parsed_lower : pool.min_size ≤ 1
unfolding parsed
parsed_lower = omega arith

run_few_connections_example :
    let s = run moves (start pool test2) in
    length s.pool.queue + total held s.clients ≤ 1 + length test2
run_few_connections_example =
    run_few_connections 1 pool test2 moves (omega arith) parsed_lower
      (refl, (refl, (refl, (refl, (refl, tt)))))

parsed_upper : 0 < pool.max_size
unfolding parsed
parsed_upper = omega arith

abbrev both : ℕ → List Move
both n = client 0 n true ∷ client 1 n true ∷ []

-- Six turns for each thread.
abbrev enough_moves : List Move
enough_moves = both 1 ++ (both 2 ++ (both 3 ++ (both 4 ++ (both 5 ++ both 6))))

enough_turns :
    (k : ℕ) (t : Client) → get_elem? clients k ≡ some t → 3 * (t.last - t.i) ≤ turns k enough_moves
unfolding turns
enough_turns zero t e = ground (arith, e)
enough_turns (suc zero) t e = ground (arith, e)
enough_turns (suc (suc k)) t e = cc

run_completes_example : All IsThrough (run enough_moves (start pool clients)).clients
run_completes_example =
    run_completes pool clients enough_moves parsed_upper (refl, (refl, tt)) enough_turns
