-- ===== src/Mysql/Program.antt =====
-- connection_pool/main.cpp: op1, which opens a connection for each row that it inserts, and query().
-- Their statements' texts are arguments.
use linux_cpp_learn.Prelude.{
  ℕ, zero, suc, ◌<◌, ◌==◌, Bool, false, List, [], ◌∷◌, Option, none, some, arith, ◌≡◌, ◌⊎◌, refl,
  map, length, ap, if◌then◌else◌, Bool-cases, inl, inr,
}
use linux_cpp_learn.Prelude.Int.{ℤ, pos, negsuc}
use linux_cpp_learn.Mysql.{
  Text, Row, Table, Mysql, MysqlConn, Read, create, destroy, connect, update, query, next,
  free_result,
}
use linux_cpp_learn.Mysql.Rows.{show_rows, cell, show_rows-query}

-- What query() returns and prints: whether the row was inserted, and the rows of the table.
pub record Output : Type 0 where
  pub code : ℤ
  pub inserted : Option Bool
  pub shown : List (List Read)

-- The columns that query() prints.
abbrev pub columns : List ℤ
columns = pos 0 ∷ pos 1 ∷ pos 2 ∷ pos 3 ∷ []

module _ {D : Type 0} (lib : Mysql D) where
  -- The rounds of op1 from `begin` on: the library's state after each, and whether update succeeded,
  -- which is not looked at. `servers` are the states that mysql_init gives.
  unfoldable pub op1 : (ℕ → D) → (ℕ → Text) → (begin count : ℕ) → List (D × Bool)
  unfolding create connect update destroy
  op1 servers sql begin zero = []
  op1 servers sql begin (suc count) =
      let s = (connect lib (create (servers begin))).0 in
      let (s', ok) = update lib s (sql begin) in
      ((destroy s').server, ok) ∷ op1 servers sql (suc begin) count

  -- `query()`; the fuel is for its loop.
  unfoldable pub query_all : ℕ → (insert select : Text) → D → Output
  unfolding create connect update query show_rows
  query_all fuel insert select d =
      let (s, ok) = connect lib (create d) in
      let (s', flag) = update lib s insert in
      let all = (query lib s' select).0 in
      if ok
      then record { code = pos 0; inserted = some flag; shown = (show_rows fuel columns all).0 }
      else record { code = negsuc 0; inserted = none; shown = [] }

  -- What a SELECT brings: nothing if it fails or stores nothing.
  abbrev pub selected : ℕ → Option Table → List Row
  selected code none = []
  selected code (some t) = if code == 0 then t.rows else []

  abbrev pub width : Option Table → ℕ
  width none = 0
  width (some t) = t.num_fields

  no_rows :
      (s : MysqlConn D) (fuel : ℕ)
      → s.m_result ≡ none
      → 0 < fuel
      → (show_rows fuel columns s).0 ≡ []
  unfolding show_rows next
  no_rows s zero e h = absurd (omega arith)
  no_rows s (suc fuel) e h = ground (arith, e)

  query-m_result :
      (s : MysqlConn D) (sql : Text)
      → s.m_result ≡ none
      → let (code, d) = lib.mysql_query s.server sql in
        ((code == 0) ≡ false) ⊎ ((lib.mysql_store_result d).0 ≡ none)
        → (query lib s sql).0.m_result ≡ none
  unfolding query free_result
  query-m_result s sql e (inl failed) = ground (arith, e, failed)
  query-m_result s sql e (inr stored_none) = ground (arith, e, stored_none)

  no_result : (s : MysqlConn D) → s.m_result ≡ none → free_result s ≡ s
  unfolding free_result
  no_result s e = ground (arith, e)

  shown_lem :
      (s : MysqlConn D) (sql : Text) (fuel : ℕ) (table : Option Table)
      → s.m_result ≡ none
      → (lib.mysql_store_result (lib.mysql_query s.server sql).1).0 ≡ table
      → let rows = selected (lib.mysql_query s.server sql).0 table in
        length rows < fuel
        → (show_rows fuel columns (query lib s sql).0).0
          ≡ map (λ row. map (cell (width table) row) columns) rows
  shown_lem s sql fuel none e f h =
      no_rows (query lib s sql).0 fuel (query-m_result s sql e (inr f)) h
  shown_lem s sql fuel (some t) e f h = elim (Bool-cases ((lib.mysql_query s.server sql).0 == 0)) [
    | inr failed ↦
        let nothing : selected (lib.mysql_query s.server sql).0 (some t) ≡ [] =
          ground (arith, failed) in
        rw nothing (
          no_rows (query lib s sql).0 fuel (query-m_result s sql e (inl failed))
            (omega (arith, h, ap length nothing)))
    | inl ok ↦
        let all : selected (lib.mysql_query s.server sql).0 (some t) ≡ t.rows =
          ground (arith, ok) in
        let same = no_result s e in
        let zero_code : (lib.mysql_query (free_result s).server sql).0 ≡ 0 =
          rw same (ground (arith, ok)) in
        let found : (lib.mysql_store_result (lib.mysql_query (free_result s).server sql).1).0
            ≡ some t =
          rw same f in
        let seen =
          show_rows-query lib s sql t fuel columns zero_code found
            (omega (arith, h, ap length all)) in
        rw all (ap (λ r. r.0) seen)
  ]

  -- query(), over any library, with fuel for one pass more than there are rows: if the connection
  -- fails it returns -1, and inserts and prints nothing; otherwise it returns 0, tells whether the
  -- INSERT succeeded, and prints the first four columns of each row that the SELECT stored, in order,
  -- with the empty text outside the columns, and none if the SELECT failed or stored nothing.
  pub query_all_lem :
      (fuel : ℕ) (insert select : Text) (d : D)
      → let (ok, d1) = lib.mysql_real_connect d in
        let (code1, d2) = lib.mysql_query d1 insert in
        let (code2, d3) = lib.mysql_query d2 select in
        let table = (lib.mysql_store_result d3).0 in
        length (selected code2 table) < fuel
        → query_all fuel insert select d ≡ (
            if ok
            then record {
              code = pos 0;
              inserted = some (code1 == 0);
              shown = map (λ row. map (cell (width table) row) columns) (selected code2 table);
            }
            else record { code = negsuc 0; inserted = none; shown = [] })
  unfolding query_all
  query_all_lem fuel insert select d h =
      let (ok, d1) = lib.mysql_real_connect d in
      let s : MysqlConn D = record (create d) { server = (lib.mysql_query d1 insert).1 } in
      let table = (lib.mysql_store_result (lib.mysql_query s.server select).1).0 in
      let seen = shown_lem s select fuel table refl refl h in
      ap
        (λ rows.
          if ok
          then record {
            code = pos 0;
            inserted = some ((lib.mysql_query d1 insert).0 == 0);
            shown = rows;
          }
          else record { code = negsuc 0; inserted = none; shown = [] })
        seen
