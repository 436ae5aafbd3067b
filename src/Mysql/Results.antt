-- ===== src/Mysql/Results.antt =====
-- No result set leaks, and what value() reads.
use linux_cpp_learn.Prelude.{ℕ, ◌<◌, true, List, [], ◌∷◌, Option, none, some, arith, ◌≡◌, refl}
use linux_cpp_learn.Prelude.Int.{pos}
use linux_cpp_learn.Mysql.{
  Text, Mysql, Result, Cursor, MysqlConn, fault, create, destroy, value, query, Call, connects,
  nexts, transactions, commits, rollbacks, updates, queries, step, run,
}

abbrev pub held : Option Result → ℕ
held none = 0
held (some r) = 1

-- The result sets not freed are the one that the connection holds, if it holds one; the current
-- row and the current result set are of result sets that were stored.
abbrev pub Known : ℕ → Option Result → Option Cursor → Type 0
Known n none none = Unit
Known n none (some c) = c.owner < n
Known n (some r) none = r.id < n
Known n (some r) (some c) = (r.id < n) × (c.owner < n)

module _ {D : Type 0} where
  pub record Inv (s : MysqlConn D) : Type 0 where
    pub balanced : s.open_results ≡ held s.m_result
    pub known : Known s.made s.m_result s.m_row

  create-Inv : (d : D) → Inv (create d)
  unfolding create
  create-Inv d = record { balanced = refl; known = tt }

module _ {D : Type 0} (lib : Mysql D) where
  step-Inv : (c : Call) (s : MysqlConn D) → Inv s → Inv (step lib c s)
  unfolding step
  step-Inv connects s v = record { balanced = v.balanced; known = v.known }
  step-Inv nexts s v = ground arith
  step-Inv transactions s v = record { balanced = v.balanced; known = v.known }
  step-Inv commits s v = record { balanced = v.balanced; known = v.known }
  step-Inv rollbacks s v = record { balanced = v.balanced; known = v.known }
  step-Inv (updates sql) s v = record { balanced = v.balanced; known = v.known }
  step-Inv (queries sql) s v = ground arith

  run-Inv : (calls : List Call) (s : MysqlConn D) → Inv s → Inv (run lib calls s)
  unfolding run
  run-Inv [] s v = v
  run-Inv (c ∷ rest) s v = run-Inv rest (step lib c s) (step-Inv c s v)

  -- Whatever calls are made on a connection and whatever the server answers, every result set that
  -- was stored has been freed when the destructor is done.
  pub destroy_frees_all :
      (d : D) (calls : List Call) → (destroy (run lib calls (create d))).open_results ≡ 0
  unfolding destroy
  destroy_frees_all d calls =
      let v = run-Inv calls (create d) (create-Inv d) in ground (arith, v.balanced)

  -- After any calls, a query that succeeds and stores a result set leaves no row to read: until
  -- next() is called, value() at the number of any of its columns reads through a null pointer or
  -- in a result set that was freed.
  pub value-query_fault :
      (d : D) (calls : List Call) (sql : Text) (r : Result) (i : ℕ)
      → (query lib (run lib calls (create d)) sql).1 ≡ true
      → (query lib (run lib calls (create d)) sql).0.m_result ≡ some r
      → i < r.num_fields
      → value (query lib (run lib calls (create d)) sql).0 (pos i) ≡ fault
  unfolding query value
  value-query_fault d calls sql r i ok e h =
      let s = run lib calls (create d) in
      let v = run-Inv calls (create d) (create-Inv d) in ground (arith, v.known, v.balanced)
