-- ===== src/Mysql.antt =====
-- connection_pool/MysqlConn.h and MysqlConn.cpp. The MySQL client library is a parameter: what its
-- calls answer, over its own state of the connection. A result set carries a number, so that a row
-- pointer into a result set that was freed can be told apart.
pub mod Rows
pub mod Results
pub mod Program
mod Tests
use linux_cpp_learn.Prelude.{
  ℕ, zero, suc, ◌+◌, ◌-◌, Bool, true, false, not, List, [], ◌∷◌, Option, none, some, ◌==◌,
  if◌then◌else◌, get_elem?, leb,
}
use linux_cpp_learn.Prelude.Int.{ℤ, pos, negsuc}

abbrev pub Text : Type 0
Text = List ℕ

-- A row as the library hands it out: `none` is a NULL field.
abbrev pub Row : Type 0
Row = List (Option Text)

-- What a call that stores a result gives: the number of columns and the rows.
pub record Table : Type 0 where
  pub num_fields : ℕ
  pub rows : List Row

-- The client library over its state D: `mysql_query` answers 0 on success, and the last three
-- answer true on failure.
pub record Mysql (D : Type 0) : Type 0 where
  pub mysql_real_connect : D → Bool × D
  pub mysql_query : D → Text → ℕ × D
  pub mysql_store_result : D → Option Table × D
  pub mysql_autocommit : D → Bool → Bool × D
  pub mysql_commit : D → Bool × D
  pub mysql_rollback : D → Bool × D

-- A MYSQL_RES: the rows not yet fetched.
pub record Result : Type 0 where
  pub id : ℕ
  pub num_fields : ℕ
  pub rest : List Row

-- A MYSQL_ROW, and the result set whose memory it points into.
pub record Cursor : Type 0 where
  pub owner : ℕ
  pub fields : Row

-- `made` counts the result sets that were stored, `open_results` those not freed.
pub record MysqlConn (D : Type 0) : Type 0 where
  pub server : D
  pub m_result : Option Result
  pub m_row : Option Cursor
  pub made : ℕ
  pub open_results : ℕ

-- A read of freed memory or through a null pointer is a fault.
pub data Read : Type 0 where
  text : Text → Read
  fault : Read

-- `string(val, length)`, where a NULL field has a null pointer and the length 0.
unfoldable pub to_text : Option (Option Text) → Read
to_text none = fault
to_text (some none) = text []
to_text (some (some t)) = text t

unfoldable pub read_field : Result → Option Cursor → ℕ → Read
unfolding to_text
read_field r none i = fault
read_field r (some c) i = if c.owner == r.id then to_text (get_elem? c.fields i) else fault

unfoldable pub value_of : Option Result → Option Cursor → ℤ → Read
unfolding read_field
value_of none c index = fault
value_of (some r) c (negsuc i) = text []
value_of (some r) c (pos i) = if leb r.num_fields i then text [] else read_field r c i

module _ {D : Type 0} where
  unfoldable pub create : D → MysqlConn D
  create d = record { server = d; m_result = none; m_row = none; made = 0; open_results = 0 }

  unfoldable pub free_held : MysqlConn D → Option Result → MysqlConn D
  free_held s none = s
  free_held s (some r) = record s { m_result = none; open_results = s.open_results - 1 }

  unfoldable pub free_result : MysqlConn D → MysqlConn D
  unfolding free_held
  free_result s = free_held s s.m_result

  -- The destructor, of which the pool of result sets is what matters here.
  unfoldable pub destroy : MysqlConn D → MysqlConn D
  unfolding free_result
  destroy s = free_result s

  -- The library's answer to mysql_store_result.
  unfoldable pub stored : MysqlConn D → Option Table → MysqlConn D
  stored s none = record s { m_result = none }
  stored s (some t) = record s {
    m_result = some (record { id = s.made; num_fields = t.num_fields; rest = t.rows });
    made = suc s.made;
    open_results = s.open_results + 1;
  }

  unfoldable pub fetch : MysqlConn D → Option Result → MysqlConn D × Bool
  fetch s none = (s, false)
  fetch s (some r) = elim r.rest [
    | [] ↦ (record s { m_row = none }, false)
    | row ∷ rows ↦ (
      record s {
        m_result = some (record r { rest = rows });
        m_row = some (record { owner = r.id; fields = row });
      },
      true,
    )
  ]

  unfoldable pub next : MysqlConn D → MysqlConn D × Bool
  unfolding fetch
  next s = fetch s s.m_result

  unfoldable pub value : MysqlConn D → ℤ → Read
  unfolding value_of
  value s index = value_of s.m_result s.m_row index

module _ {D : Type 0} (lib : Mysql D) where
  unfoldable pub connect : MysqlConn D → MysqlConn D × Bool
  connect s = let (ok, d) = lib.mysql_real_connect s.server in (record s { server = d }, ok)

  unfoldable pub update : MysqlConn D → Text → MysqlConn D × Bool
  update s sql =
      let (code, d) = lib.mysql_query s.server sql in (record s { server = d }, code == 0)

  unfoldable pub query : MysqlConn D → Text → MysqlConn D × Bool
  unfolding free_result stored
  query s sql =
      let freed = free_result s in
      let (code, d) = lib.mysql_query freed.server sql in
      let (table, d') = lib.mysql_store_result d in
      if code == 0
      then (stored (record freed { server = d' }) table, true)
      else (record freed { server = d }, false)

  unfoldable pub transaction : MysqlConn D → MysqlConn D × Bool
  transaction s = let (r, d) = lib.mysql_autocommit s.server false in (record s { server = d }, r)

  unfoldable pub commit : MysqlConn D → MysqlConn D × Bool
  commit s = let (r, d) = lib.mysql_commit s.server in (record s { server = d }, r)

  unfoldable pub rollback : MysqlConn D → MysqlConn D × Bool
  rollback s = let (r, d) = lib.mysql_rollback s.server in (record s { server = d }, r)

-- The calls that change the connection.
pub data Call : Type 0 where
  connects nexts transactions commits rollbacks : Call
  updates queries : Text → Call

module _ {D : Type 0} (lib : Mysql D) where
  unfoldable pub step : Call → MysqlConn D → MysqlConn D
  unfolding connect next transaction commit rollback update query
  step connects s = (connect lib s).0
  step nexts s = (next s).0
  step transactions s = (transaction lib s).0
  step commits s = (commit lib s).0
  step rollbacks s = (rollback lib s).0
  step (updates sql) s = (update lib s sql).0
  step (queries sql) s = (query lib s sql).0

  unfoldable pub run : List Call → MysqlConn D → MysqlConn D
  unfolding step
  run [] s = s
  run (c ∷ rest) s = run rest (step c s)
