-- ===== src/Mysql/Rows.antt =====
-- The loop over a result set, as query() of connection_pool/main.cpp has it.
use linux_cpp_learn.Prelude.{
  ℕ, zero, suc, ◌<◌, Bool, true, false, List, [], ◌∷◌, some, arith, ◌≡◌, refl, map, length,
  get_elem?, leb, if◌then◌else◌, ap₂,
}
use linux_cpp_learn.Prelude.Int.{ℤ, pos, negsuc}
use linux_cpp_learn.Mysql.{
  Text, Row, Table, Mysql, Result, MysqlConn, Read, text, to_text, next, value, query, free_result,
}

module _ {D : Type 0} where
  -- `while (conn.next()) cout << conn.value(…) …`: what is read of each row, and whether the loop
  -- ended by its test within the fuel.
  unfoldable pub show_rows : ℕ → List ℤ → MysqlConn D → List (List Read) × Bool
  show_rows zero cols s = ([], false)
  show_rows (suc fuel) cols s =
      let (s', more) = next s in
      let (rest, ended) = show_rows fuel cols s' in
      if more then (map (value s') cols ∷ rest, ended) else ([], true)

-- A field by its column: the empty text outside the columns.
unfoldable pub cell : ℕ → Row → ℤ → Read
cell n row (negsuc i) = text []
cell n row (pos i) = if leb n i then text [] else to_text (get_elem? row i)

value-cell :
    {D : Type 0} (s : MysqlConn D) (r : Result) (row : Row) (index : ℤ)
    → s.m_result ≡ some r
    → s.m_row ≡ some (record { owner = r.id; fields = row })
    → value s index ≡ cell r.num_fields row index
unfolding value cell
value-cell s r row (negsuc i) e f = ground arith
value-cell s r row (pos i) e f = ground arith

module _ {D : Type 0} where
  values-cells :
      (s : MysqlConn D) (r : Result) (row : Row) (cols : List ℤ)
      → s.m_result ≡ some r
      → s.m_row ≡ some (record { owner = r.id; fields = row })
      → map (value s) cols ≡ map (cell r.num_fields row) cols
  values-cells s r row [] e f = refl
  values-cells s r row (c ∷ cols) e f =
      ap₂ ◌∷◌ (value-cell s r row c e f) (values-cells s r row cols e f)

  -- The connection after next() found a row.
  abbrev at_row : MysqlConn D → Result → Row → List Row → MysqlConn D
  at_row s r row rows = record s {
    m_result = some (record r { rest = rows });
    m_row = some (record { owner = r.id; fields = row });
  }

  next-cons :
      (s : MysqlConn D) (r : Result) (row : Row) (rows : List Row)
      → s.m_result ≡ some r
      → r.rest ≡ row ∷ rows
      → next s ≡ (at_row s r row rows, true)
  unfolding next
  next-cons s r row rows e f = ground arith

  next-nil : (s : MysqlConn D) (r : Result) → s.m_result ≡ some r → r.rest ≡ [] → (next s).1 ≡ false
  unfolding next
  next-nil s r e f = ground arith

  show_rows-from :
      (fuel : ℕ) (cols : List ℤ) (s : MysqlConn D) (r : Result) (rows : List Row)
      → s.m_result ≡ some r
      → r.rest ≡ rows
      → length rows < fuel
      → show_rows fuel cols s ≡ (map (λ row. map (cell r.num_fields row) cols) rows, true)
  unfolding show_rows
  show_rows-from zero cols s r rows e f h = absurd (omega arith)
  show_rows-from (suc fuel) cols s r [] e f h = rw (next-nil s r e f) refl
  show_rows-from (suc fuel) cols s r (row ∷ rows) e f h =
      let s' = at_row s r row rows in
      let seen = values-cells s' (record r { rest = rows }) row cols refl refl in
      let later =
        show_rows-from fuel cols s' (record r { rest = rows }) rows refl refl (omega arith) in
      rw (next-cons s r row rows e f) (rw later (rw seen refl))

module _ {D : Type 0} (lib : Mysql D) where
  abbrev result_of : MysqlConn D → Table → Result
  result_of s t = record { id = (free_result s).made; num_fields = t.num_fields; rest = t.rows }

  query_result :
      (s : MysqlConn D) (sql : Text) (t : Table)
      → (lib.mysql_query (free_result s).server sql).0 ≡ 0
      → (lib.mysql_store_result (lib.mysql_query (free_result s).server sql).1).0 ≡ some t
      → (query lib s sql).0.m_result ≡ some (result_of s t)
  unfolding query
  query_result s sql t ok e = ground arith

  -- After a query that succeeds, where the library stores the table t: with fuel for one pass more
  -- than there are rows, the loop sees every row of t once and in order, reading of each the fields
  -- of the given columns and the empty text outside the columns, and ends by its test.
  pub show_rows-query :
      (s : MysqlConn D) (sql : Text) (t : Table) (fuel : ℕ) (cols : List ℤ)
      → (lib.mysql_query (free_result s).server sql).0 ≡ 0
      → (lib.mysql_store_result (lib.mysql_query (free_result s).server sql).1).0 ≡ some t
      → length t.rows < fuel
      → show_rows fuel cols (query lib s sql).0
        ≡ (map (λ row. map (cell t.num_fields row) cols) t.rows, true)
  show_rows-query s sql t fuel cols ok e h =
      show_rows-from fuel cols (query lib s sql).0 (result_of s t) t.rows
        (query_result s sql t ok e) refl h
