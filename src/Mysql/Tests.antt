-- ===== src/Mysql/Tests.antt =====
-- A connection to a small fake server, and the theorems at its runs.
use linux_cpp_learn.Prelude.{ℕ, true, false, List, [], ◌∷◌, none, some, arith, ◌≡◌, refl, map, ◌+◌}
use linux_cpp_learn.Prelude.Int.{pos, negsuc}
use linux_cpp_learn.Mysql.{
  Read, Table, Mysql, Result, text, create, destroy, free_result, value, query, next, Call, nexts,
  queries, commits, run,
}
use linux_cpp_learn.Mysql.Results.{destroy_frees_all}
use linux_cpp_learn.Mysql.Rows.{show_rows, cell, show_rows-query}
use linux_cpp_learn.Mysql.Program.{columns, op1, query_all, query_all_lem}

abbrev people : Table
people = record {
  num_fields = 2;
  rows = (some (1 ∷ []) ∷ some (97 ∷ []) ∷ []) ∷ (some (2 ∷ []) ∷ none ∷ []) ∷ [];
}

-- A server whose every query succeeds with the same two rows; its state counts the queries.
abbrev fake : Mysql ℕ
fake = record {
  mysql_real_connect = λ d. (true, d);
  mysql_query = λ d sql. (0, d + 1);
  mysql_store_result = λ d. (some people, d);
  mysql_autocommit = λ d b. (false, d);
  mysql_commit = λ d. (false, d);
  mysql_rollback = λ d. (false, d);
}

abbrev session : List Call
session = queries [] ∷ nexts ∷ commits ∷ []

rows_seen :
    (show_rows 3 (pos 1 ∷ pos 7 ∷ negsuc 0 ∷ []) (query fake (create 0) []).0).0
    ≡ (text (97 ∷ []) ∷ text [] ∷ text [] ∷ []) ∷ (text [] ∷ text [] ∷ text [] ∷ []) ∷ []
unfolding show_rows next value query create
rows_seen = refl

zero_code : (fake.mysql_query (free_result (create {D = ℕ} 0)).server []).0 ≡ 0
zero_code = refl

table_shown :
    show_rows 3 (pos 0 ∷ []) (query fake (create 0) []).0
    ≡ (map (λ row. map (cell 2 row) (pos 0 ∷ [])) people.rows, true)
table_shown = show_rows-query fake (create 0) [] people 3 (pos 0 ∷ []) zero_code refl (omega arith)

destroy_frees_all_example : (destroy (run fake session (create 0))).open_results ≡ 0
destroy_frees_all_example = destroy_frees_all fake 0 session

abbrev second_result : Result
second_result = record { id = 1; num_fields = 2; rest = people.rows }

session_succeeds : (query fake (run fake session (create 0)) []).1 ≡ true
unfolding query
session_succeeds = refl

session_result : (query fake (run fake session (create 0)) []).0.m_result ≡ some second_result
unfolding query run create
session_result = refl

abbrev shown_people : List (List Read)
shown_people = map (λ row. map (cell 2 row) columns) people.rows

query_all_lem_example :
    query_all fake 3 [] [] 0 ≡ record { code = pos 0; inserted = some true; shown = shown_people }
query_all_lem_example = query_all_lem fake 3 [] [] 0 (omega arith)

-- A server that refuses the connection.
refused :
    (query_all (record fake { mysql_real_connect = λ d. (false, d) }) 3 [] [] 0).code ≡ negsuc 0
unfolding query_all
refused = refl

op1_three : map (λ r. r.0) (op1 fake (λ i. i) (λ i. []) 0 3) ≡ 1 ∷ 2 ∷ 3 ∷ []
unfolding op1
op1_three = refl
