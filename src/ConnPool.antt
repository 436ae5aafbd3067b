-- ===== src/ConnPool.antt =====
-- connection_pool/connPool.h and connPool.cpp. A MysqlConn is known by the number of its `new`;
-- what the server and the clock answer are arguments of each call: whether `connect` succeeds, and
-- the time in nanoseconds. The mutex makes each call here one step.
pub mod JsonConf
pub mod Recycle
pub mod System
pub mod Ownership
pub mod Limits
pub mod Client
pub mod Bench
mod Tests
use mathlib.Core.Option
use linux_cpp_learn.Prelude.{
  ℕ, zero, suc, ◌+◌, ◌-◌, ◌/◌, Bool, true, false, List, [], ◌∷◌, ◌++◌, Option, none, some, ltb, leb,
  if◌then◌else◌, is_empty, length,
}
use linux_cpp_learn.Prelude.Int.{ℤ, at_least}
use JsonConf.{Config, Root, parse_json_file}

-- What the pool reads of a MysqlConn.
pub record Conn : Type 0 where
  pub id : ℕ
  pub connected : Bool
  pub alive_time : ℕ

-- `made` counts the connections that were ever made.
pub record ConnPool : Type 0 where
  pub config : Config
  pub open config use *
  pub queue : List Conn
  pub made : ℕ

-- MysqlConn::getAliveTime, in milliseconds; the clock is steady, so `now` is not before.
unfoldable pub get_alive_time : ℕ → Conn → ℕ
get_alive_time now c = (now - c.alive_time) / 1_000_000

-- The result of `connect` is not looked at.
unfoldable pub add_conn : ConnPool → ℕ → Bool → ConnPool
add_conn p now ok = record p {
  queue = p.queue ++ record { id = p.made; connected = ok; alive_time = now } ∷ [];
  made = suc p.made;
}

-- How a call of getConn stands: it has its connection, it waits on the condition variable, it ran
-- out of the model's fuel, or it reads the front of an empty queue.
pub data Got : Type 0 where
  took : Conn → ConnPool → Got
  waits out_of_fuel undefined_front : Got

unfoldable pub take_front : ConnPool → Got
take_front p = elim p.queue [ [] ↦ undefined_front | c ∷ rest ↦ took c (record p { queue = rest }) ]

-- getConn up to the next wait.
unfoldable pub get_conn : ℕ → ConnPool → ℕ → Bool → Got
unfolding add_conn take_front
get_conn zero p now ok = out_of_fuel
get_conn (suc fuel) p now ok =
    let again = get_conn fuel (add_conn p now ok) now ok in
    if is_empty p.queue
    then (if leb (length p.queue + 1) p.max_size then again else waits)
    else take_front p

-- The deleter of the shared_ptr.
unfoldable pub give_back : ConnPool → Conn → ℕ → ConnPool
give_back p c now = record p { queue = p.queue ++ record c { alive_time = now } ∷ [] }

-- One round of produceConn: the pool after addConn, or `none` for the wait.
unfoldable pub produce_conn : ConnPool → ℕ → Bool → Option ConnPool
unfolding add_conn
produce_conn p now ok = if leb p.min_size (length p.queue) then none else some (add_conn p now ok)

-- The inner loop of recycleConn: what stays in the queue, and what is deleted.
unfoldable pub recycle_loop : ℕ → ℤ → ℕ → List Conn → List Conn × List Conn
unfolding get_alive_time
recycle_loop min idle now [] = ([], [])
recycle_loop min idle now (c ∷ cs) =
    let (kept, gone) = recycle_loop min idle now cs in
    if ltb min (length (c ∷ cs))
    then (if at_least (get_alive_time now c) idle then (kept, c ∷ gone) else (c ∷ cs, []))
    else (c ∷ cs, [])

unfoldable pub recycle_conn : ConnPool → ℕ → ConnPool × List Conn
recycle_conn p now =
    let (kept, gone) = recycle_loop p.min_size p.max_idle_time now p.queue in
    (record p { queue = kept }, gone)

-- The constructor's loop; `env` has the time and the server's answer for each connection.
unfoldable pub fill : ℕ → ConnPool → (ℕ → ℕ × Bool) → ConnPool
unfolding add_conn
fill zero p env = p
fill (suc n) p env = fill n (add_conn p (env p.made).0 (env p.made).1) env

-- The constructor. Where the file cannot be read it returns early, and the object has no
-- configuration and no threads: `none`.
unfoldable pub create : Root → (ℕ → ℕ × Bool) → Option ConnPool
unfolding parse_json_file fill
create r env =
    Option.map (λ (c : Config). fill c.min_size (record { config = c; queue = []; made = 0 }) env)
      (parse_json_file r)

-- The destructor deletes what is idle.
unfoldable pub destroy : ConnPool → ConnPool × List Conn
destroy p = (record p { queue = [] }, p.queue)
