-- ===== src/DeadlockCheck/Search.antt =====
-- deadlock_check/deadlock_check.c: the search for a cycle. `none` is an access outside an array, or
-- that the fuel ran out. `path[0]` to `path[k - 1]` is the list `path`, the last one first.
pub mod Walks
pub mod Ends
pub mod Complete
pub mod Sound
use linux_cpp_learn.Prelude.{
  ℕ, zero, suc, ◌-◌, Bool, true, false, List, [], ◌∷◌, ◌++◌, Option, none, some, ◌>>=◌,
  if◌then◌else◌, length, get_elem?, update, ltb, ◌==◌, ◌+◌,
}
use mathlib.Core.List.{reverse}
use linux_cpp_learn.DeadlockCheck.{Graph, Vertex, Pair, search_vertex, max}

-- The fields of task_graph that the search writes, and the paths that print_deadlock was called for.
pub record Check : Type 0 where
  pub visited : ℕ → Bool
  pub path : List ℕ
  pub deadlock : Bool
  pub printed : List (List ℕ)

-- `path[k++] = idx`; the array has MAX + 1 places.
unfoldable pub push : ℕ → Check → Option Check
push idx s = if ltb (length s.path) (suc max) then some (record s { path = idx ∷ s.path }) else none

-- `k--`
unfoldable pub pop : Check → Check
pop s = elim s.path [ [] ↦ s | i ∷ rest ↦ record s { path = rest } ]

-- print_deadlock: the path, from its start.
unfoldable pub print_deadlock : Check → Check
print_deadlock s = record s { printed = s.printed ++ reverse s.path ∷ [] }

-- The loop over a vertex's list of edges in DFS.
unfoldable pub visit_all : (ℕ → Check → Option Check) → Graph → List Pair → Check → Option Check
unfolding pop
visit_all visit g [] s = some s
visit_all visit g (p ∷ ps) s = do j ← search_vertex g p; t ← visit j s; visit_all visit g ps (pop t)

-- A vertex that was visited before closes the path.
unfoldable pub revisit : ℕ → Check → Option Check
unfolding push print_deadlock
revisit idx s = do t ← push idx s; some (record (print_deadlock t) { deadlock = true })

-- `visited[idx] = 1; path[k++] = idx;`
unfoldable pub enter : ℕ → Check → Option Check
unfolding push
enter idx s = push idx (record s { visited = update s.visited idx true })

unfoldable pub dfs : ℕ → Graph → ℕ → Check → Option Check
unfolding revisit enter visit_all
dfs zero g idx s = none
dfs (suc fuel) g idx s = elim (s.visited idx) [
  | true ↦ (do ver ← get_elem? g idx; revisit idx s)
  | false ↦ (do ver ← get_elem? g idx; t ← enter idx s; visit_all (dfs fuel g) g ver.next t)
]

-- `visited[i] = 0` for i < vertex_num but idx, and the path cut to its first place.
unfoldable pub reset : Graph → ℕ → Check → Check
reset g idx s = record s {
  visited = λ i. if i == idx then s.visited i else if ltb i (length g) then false else s.visited i;
  path = idx ∷ [];
}

unfoldable pub search_all :
    (ℕ → Check → Option Check) → Graph → ℕ → List Pair → Check → Option Check
unfolding reset
search_all visit g idx [] s = some s
search_all visit g idx (p ∷ ps) s = do
  j ← search_vertex g p
  t ← visit j (reset g idx s)
  search_all visit g idx ps t

-- Enough for the depth of the search: one more than there are vertices.
abbrev pub depth : Graph → ℕ
depth g = suc (length g)

unfoldable pub search_for_cycle : Graph → ℕ → Check → Option Check
unfolding dfs search_all
search_for_cycle g idx s = do
  ver ← get_elem? g idx
  search_all (dfs (depth g) g) g idx ver.next
      (record s { visited = update s.visited idx true; path = idx ∷ [] })

-- The loop of check_dead_lock from i on, with n rounds left.
unfoldable pub check_from : ℕ → Graph → ℕ → Check → Option Check
unfolding search_for_cycle
check_from zero g i s = some s
check_from (suc n) g i s = elim s.deadlock [
  | true ↦ some s
  | false ↦ (do t ← search_for_cycle g i s; check_from n g (suc i) t)
]

unfoldable pub check_dead_lock : Graph → Check → Option Check
unfolding check_from
check_dead_lock g s = check_from (length g) g 0 (record s { deadlock = false })
