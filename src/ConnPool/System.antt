-- ===== src/ConnPool/System.antt =====
-- The pool with its clients and its two threads: a step for each call that holds the mutex.
use linux_cpp_learn.Prelude.{ℕ, zero, suc, Bool, List, [], ◌∷◌, ◌++◌, Option, none, some}
use linux_cpp_learn.ConnPool.{
  Conn, ConnPool, Got, took, waits, out_of_fuel, undefined_front, get_conn, give_back, produce_conn,
  recycle_conn,
}

-- `lent` are the connections that clients hold, newest first, and `deleted` those deleted.
pub record Sys : Type 0 where
  pub pool : ConnPool
  pub lent : List Conn
  pub deleted : List Conn

-- A call of getConn, the end of the i-th lent connection's last shared_ptr, a round of produceConn
-- and one of recycleConn, each with the time and, where a connection may be made, the answer of
-- `connect`.
pub data Action : Type 0 where
  gets : ℕ → Bool → Action
  returns : ℕ → ℕ → Action
  produces : ℕ → Bool → Action
  recycles : ℕ → Action

-- The i-th of a list and the others.
unfoldable pub pick : ℕ → List Conn → Option (Conn × List Conn)
pick i [] = none
pick zero (c ∷ cs) = some (c, cs)
pick (suc i) (c ∷ cs) = elim (pick i cs) [ none ↦ none | some (d, rest) ↦ some (d, c ∷ rest) ]

-- Two passes of getConn's loop are enough: see `Limits`.
abbrev pub passes : ℕ
passes = 2

unfoldable pub after_get : Sys → Got → Sys
after_get s (took c p) = record s { pool = p; lent = c ∷ s.lent }
after_get s waits = s
after_get s out_of_fuel = s
after_get s undefined_front = s

unfoldable pub after_pick : Sys → ℕ → Option (Conn × List Conn) → Sys
after_pick s now none = s
after_pick s now (some (c, rest)) = record s { pool = give_back s.pool c now; lent = rest }

unfoldable pub after_produce : Sys → Option ConnPool → Sys
after_produce s none = s
after_produce s (some p) = record s { pool = p }

unfoldable pub step : Action → Sys → Sys
unfolding after_get after_pick after_produce
step (gets now ok) s = after_get s (get_conn passes s.pool now ok)
step (returns i now) s = after_pick s now (pick i s.lent)
step (produces now ok) s = after_produce s (produce_conn s.pool now ok)
step (recycles now) s =
    let (p, gone) = recycle_conn s.pool now in record s { pool = p; deleted = gone ++ s.deleted }

unfoldable pub run : List Action → Sys → Sys
unfolding step
run [] s = s
run (a ∷ rest) s = run rest (step a s)
