-- ===== src/DeadlockCheck/Tests.antt =====
-- Programs of a few threads under the hooks, and the check at their end.
use linux_cpp_learn.Prelude.{
  ℕ, zero, suc, true, false, List, [], ◌∷◌, some, ◌≡◌, ◌↔◌, refl, arith, get_elem?, inl,
}
use linux_cpp_learn.Prelude.Int.{ℤ, pos}
use linux_cpp_learn.DeadlockCheck.{
  Graph, Vertex, Pair, search_vertex, add_vertex, add_edge, verify_edge, remove_edge,
}
use linux_cpp_learn.DeadlockCheck.Edges.{remove_edge-add_edge}
use linux_cpp_learn.DeadlockCheck.Links.{IsLinked}
use linux_cpp_learn.DeadlockCheck.Locks.{
  TaskGraph, LockInfo, thread, start_check, search_lock, lock_before,
}
use linux_cpp_learn.DeadlockCheck.Search.{Check, check_dead_lock}
use linux_cpp_learn.DeadlockCheck.Search.Walks.{IsClosed, Cycle, edge, then_edge}
use linux_cpp_learn.DeadlockCheck.Search.Sound.{
  IsSingle, check_dead_lock_finds, check_dead_lock_decides,
}
use linux_cpp_learn.DeadlockCheck.Program.{
  Hook, before_lock, after_lock, after_unlock, run, step, run-Closed, start_check-Closed,
  check_after_run,
}
use linux_cpp_learn.DeadlockCheck.Entries.{HasEntry}
use linux_cpp_learn.DeadlockCheck.Races.{entry_wiped, own_lock_unseen, edge_left}

abbrev zeros : ℕ → ℤ
zeros i = pos 0

abbrev vertex : ℕ → List Pair → Vertex
vertex t ps = record { pair = thread t; next = ps }

abbrev entry : ℕ → ℕ → ℕ → LockInfo
entry t l n = record { th_id = t; lock_id = l; degress = pos n }

abbrev graph_of : Graph → List LockInfo → TaskGraph
graph_of g ls = record { vertex_list = g; lock_list = ls; uninit = zeros }

-- Thread 1 has the lock 10 and asks for 20, thread 2 the other way round.
abbrev ring_hooks : List Hook
ring_hooks = after_lock 1 10 ∷ after_lock 2 20 ∷ before_lock 1 20 ∷ before_lock 2 10 ∷ []

abbrev ring : Graph
ring = vertex 1 (thread 2 ∷ []) ∷ vertex 2 (thread 1 ∷ []) ∷ []

abbrev ring_graph : TaskGraph
ring_graph = graph_of ring (entry 1 10 1 ∷ entry 2 20 1 ∷ [])

ring-run : run ring_hooks (start_check zeros) ≡ some ring_graph
unfolding run step start_check search_vertex
ring-run = refl

ring-IsClosed : IsClosed ring
ring-IsClosed =
    run-Closed ring_hooks (start_check zeros) ring_graph (start_check-Closed zeros) ring-run

ring-IsSingle : IsSingle ring
ring-IsSingle zero ver e = ground arith
ring-IsSingle (suc zero) ver e = ground arith
ring-IsSingle (suc (suc i)) ver e = cc

ring-Cycle : Cycle ring 0
unfolding search_vertex
ring-Cycle = then_edge (edge (_, refl, inl refl)) (vertex 2 (thread 1 ∷ []), refl, inl refl)

abbrev blank : Check
blank = record { visited = λ i. false; path = []; deadlock = false; printed = [] }

-- The path printed is the ring, from vertex 0 back to it.
ring_printed :
    (t : Check) × (check_dead_lock ring blank ≡ some t) × (t.printed ≡ (0 ∷ 1 ∷ 0 ∷ []) ∷ [])
unfolding check_dead_lock search_vertex
ring_printed = (_, refl, refl)

check_dead_lock_finds_example :
    (t : Check) × (check_dead_lock ring blank ≡ some t) × (t.deadlock ≡ true)
check_dead_lock_finds_example = check_dead_lock_finds ring blank 0 ring-IsClosed ring-Cycle

check_dead_lock_decides_example :
    (t : Check) × (check_dead_lock ring blank ≡ some t)
    × ((t.deadlock ≡ true) ↔ ((i : ℕ) × Cycle ring i))
check_dead_lock_decides_example = check_dead_lock_decides ring blank ring-IsClosed ring-IsSingle

-- A thread that waits for two others, which both wait for a fourth, is no cycle, but the search from
-- the thread before it comes to the fourth twice.
abbrev diamond : Graph
diamond =
    vertex 1 (thread 2 ∷ [])
    ∷ vertex 2 (thread 3 ∷ thread 4 ∷ [])
    ∷ vertex 3 (thread 5 ∷ [])
    ∷ vertex 4 (thread 5 ∷ [])
    ∷ vertex 5 []
    ∷ []

diamond_flagged : (t : Check) × (check_dead_lock diamond blank ≡ some t) × (t.deadlock ≡ true)
unfolding check_dead_lock search_vertex
diamond_flagged = (_, refl, refl)

check_after_run_example : (t : Check) × (check_dead_lock ring blank ≡ some t)
check_after_run_example = check_after_run zeros ring_hooks ring_graph blank ring-run

abbrev pair_of : Graph
pair_of = vertex 1 [] ∷ vertex 2 [] ∷ []

added_removed :
    (g' : Graph) × (add_edge pair_of (thread 1) (thread 2) ≡ some g')
    × (verify_edge g' (thread 1) (thread 2) ≡ true)
    × (remove_edge g' (thread 1) (thread 2) ≡ pair_of)
unfolding search_vertex verify_edge
added_removed = remove_edge-add_edge pair_of (thread 1) (thread 2) 0 1 refl refl refl

-- Thread 1 has the lock 10.
abbrev held : TaskGraph
held = graph_of [] (entry 1 10 0 ∷ [])

held_HasEntry : HasEntry held.lock_list 10 0 (entry 1 10 0)
unfolding search_lock
held_HasEntry = record { found = refl; at = refl }

abbrev wiped : TaskGraph
wiped =
    graph_of (vertex 2 [] ∷ vertex 1 [] ∷ [])
      (record { th_id = 0; lock_id = 0; degress = pos 0 } ∷ [])

wiped-run : run (before_lock 2 10 ∷ after_lock 2 10 ∷ after_unlock 1 10 ∷ []) held ≡ some wiped
unfolding run step search_vertex
wiped-run = refl

wiped_entry :
    get_elem? wiped.lock_list 0 ≡ some (record { th_id = 0; lock_id = 0; degress = pos 0 })
wiped_entry = entry_wiped held wiped 1 2 10 0 (entry 1 10 0) held_HasEntry refl wiped-run

abbrev own : TaskGraph
own = graph_of (vertex 1 [] ∷ []) (entry 1 10 1 ∷ [])

own_before : lock_before 1 10 held ≡ some own
unfolding lock_before search_vertex
own_before = refl

own_lock_added : add_vertex [] (thread 1) ≡ some own.vertex_list
own_lock_added = own_lock_unseen held own 10 0 (entry 1 10 0) held_HasEntry own_before

abbrev left_over : TaskGraph
left_over = graph_of (vertex 2 (thread 1 ∷ []) ∷ vertex 1 [] ∷ vertex 3 [] ∷ []) (entry 2 10 0 ∷ [])

left_over-run :
    run (before_lock 2 10 ∷ before_lock 3 10 ∷ after_lock 3 10 ∷ after_lock 2 10 ∷ []) held
    ≡ some left_over
unfolding run step search_vertex
left_over-run = refl

edge_left_example : IsLinked left_over.vertex_list (thread 2) (thread 1)
edge_left_example =
    edge_left held left_over 1 2 3 10 0 (entry 1 10 0) held_HasEntry refl (λ e. ground arith)
      (λ e. ground arith) left_over-run
