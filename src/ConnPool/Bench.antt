-- ===== src/ConnPool/Bench.antt =====
-- connection_pool/main.cpp: test2, whose threads run op2 on one pool, beside the pool's own threads.
-- A step is what one thread does next: a call of getConn, an update, or the end of a round, at which
-- the connection goes back.
pub mod Rows
pub mod Bound
pub mod Finish
mod Tests
use linux_cpp_learn.Prelude.{
  ℕ, suc, ◌+◌, Bool, List, [], ◌∷◌, ◌++◌, Option, none, some, ltb, if◌then◌else◌, get_elem?, set,
}
use linux_cpp_learn.ConnPool.{
  Conn, ConnPool, Got, took, waits, out_of_fuel, undefined_front, get_conn, give_back, produce_conn,
  recycle_conn,
}
use linux_cpp_learn.ConnPool.System.{passes}
use linux_cpp_learn.ConnPool.Client.{Insert}

-- Where a thread stands in a round of op2.
pub data Phase : Type 0 where
  at_top : Phase
  has : Conn → Phase
  sent : Conn → Phase

-- A thread in op2: `i`, `end` and the connection of its round.
pub record Client : Type 0 where
  pub i : ℕ
  pub last : ℕ
  pub phase : Phase

-- A thread that waits in getConn stays at the top.
unfoldable pub after_get_conn : Client → ConnPool → Got → Client × ConnPool × List Insert
after_get_conn t pool (took c p) = (record t { phase = has c }, p, [])
after_get_conn t pool waits = (t, pool, [])
after_get_conn t pool out_of_fuel = (t, pool, [])
after_get_conn t pool undefined_front = (t, pool, [])

-- The next step of op2, at the time `now` and with the server's answer if it connects.
unfoldable pub op2_step : Phase → Client → ConnPool → ℕ → Bool → Client × ConnPool × List Insert
unfolding after_get_conn give_back
op2_step at_top t pool now ok =
    if ltb t.i t.last then after_get_conn t pool (get_conn passes pool now ok) else (t, pool, [])
op2_step (has c) t pool now ok =
    (record t { phase = sent c }, pool, record { conn = c.id; id = t.i; age = 19 } ∷ [])
op2_step (sent c) t pool now ok =
    (record t { i = suc t.i; phase = at_top }, give_back pool c now, [])

-- The pool, the threads and the INSERT statements sent, the last first: op2 looks neither at what update
-- answers nor at whether the connection is connected, so a statement sent need not be a row inserted.
pub record Bench : Type 0 where
  pub pool : ConnPool
  pub clients : List Client
  pub statements : List Insert

-- A step of the k-th thread, and a round of produceConn and of recycleConn.
pub data Move : Type 0 where
  client : ℕ → ℕ → Bool → Move
  produces : ℕ → Bool → Move
  recycles : ℕ → Move

unfoldable pub client_step : ℕ → Option Client → ℕ → Bool → Bench → Bench
unfolding op2_step
client_step k none now ok s = s
client_step k (some t) now ok s =
    let (t', p, new) = op2_step t.phase t s.pool now ok in
    record { pool = p; clients = set s.clients k t'; statements = new ++ s.statements }

unfoldable pub after_produce : Bench → Option ConnPool → Bench
after_produce s none = s
after_produce s (some p) = record s { pool = p }

unfoldable pub step : Move → Bench → Bench
unfolding client_step after_produce
step (client k now ok) s = client_step k (get_elem? s.clients k) now ok s
step (produces now ok) s = after_produce s (produce_conn s.pool now ok)
step (recycles now) s = record s { pool = (recycle_conn s.pool now).0 }

unfoldable pub run : List Move → Bench → Bench
unfolding step
run [] s = s
run (a ∷ rest) s = run rest (step a s)

-- A thread before its first round.
abbrev pub thread : ℕ → ℕ → Client
thread begin end = record { i = begin; last = end; phase = at_top }

-- The threads of test2.
abbrev pub test2 : List Client
test2 =
    thread 0 1000 ∷ thread 1000 2000 ∷ thread 2000 3000 ∷ thread 3000 4000 ∷ thread 4000 5000 ∷ []

abbrev pub start : ConnPool → List Client → Bench
start pool clients = record { pool = pool; clients = clients; statements = [] }
