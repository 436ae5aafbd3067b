-- ===== src/DeadlockCheck/Locks.antt =====
-- deadlock_check/deadlock_check.c: the list of held locks and the three hooks, each of which runs
-- under the graph's own mutex. `none` is an access outside an array.
use linux_cpp_learn.Prelude.{
  ℕ, zero, suc, Bool, false, List, [], ◌∷◌, ◌++◌, Option, none, some, ◌>>=◌, ◌==◌, ltb,
  if◌then◌else◌, get_elem?, set,
}
use linux_cpp_learn.Prelude.Int.{ℤ, pos, negsuc}
use linux_cpp_learn.DeadlockCheck.{
  Graph, Pair, process, max, add_vertex, add_edge, verify_edge, remove_edge,
}

-- An entry of lock_list; its type is never set or read.
pub record LockInfo : Type 0 where
  pub th_id : ℕ
  pub lock_id : ℕ
  pub degress : ℤ

-- `lock_list` up to `lock_num`; `uninit` is what malloc left in the degress of each place behind it,
-- which lock_after does not set.
pub record TaskGraph : Type 0 where
  pub vertex_list : Graph
  pub lock_list : List LockInfo
  pub uninit : ℕ → ℤ

-- `degress++` and `degress--`
abbrev pub plus_one : ℤ → ℤ
plus_one (pos n) = pos (suc n)
plus_one (negsuc zero) = pos 0
plus_one (negsuc (suc n)) = negsuc n

abbrev pub minus_one : ℤ → ℤ
minus_one (pos zero) = negsuc 0
minus_one (pos (suc n)) = pos n
minus_one (negsuc n) = negsuc (suc n)

-- start_check, whose thread is DeadlockCheck/Search.
unfoldable pub start_check : (ℕ → ℤ) → TaskGraph
start_check uninit = record { vertex_list = []; lock_list = []; uninit = uninit }

-- `none` is -1.
unfoldable pub search_lock : List LockInfo → ℕ → Option ℕ
search_lock [] lock = none
search_lock (x ∷ xs) lock =
    if x.lock_id == lock then some 0 else (do i ← search_lock xs lock; some (suc i))

-- The first entry with no lock, or the place behind the list.
unfoldable pub search_empty_lock : List LockInfo → ℕ
search_empty_lock [] = 0
search_empty_lock (x ∷ xs) = if x.lock_id == 0 then 0 else suc (search_empty_lock xs)

abbrev pub thread : ℕ → Pair
thread t = record { th_id = t; th_type = process }

-- The waiting thread's edge to the thread that has the lock.
unfoldable pub wait_for : Graph → Pair → Pair → Option Graph
unfolding add_vertex verify_edge add_edge
wait_for g u v = do
  g1 ← add_vertex g u
  g2 ← add_vertex g1 v
  if verify_edge g2 u v then some g2 else add_edge g2 u v

unfoldable pub lock_before : ℕ → ℕ → TaskGraph → Option TaskGraph
unfolding search_lock wait_for
lock_before thread_id lock tg = elim (search_lock tg.lock_list lock) [
  | none ↦ some tg
  | some idx ↦ (do
    x ← get_elem? tg.lock_list idx
    g ← wait_for tg.vertex_list (thread thread_id) (thread x.th_id)
    some (record tg {
      vertex_list = g;
      lock_list = set tg.lock_list idx (record x { degress = plus_one x.degress });
    }))
]

-- The place `idx` of lock_list set for a new lock, at the list's end with `lock_num` raised.
unfoldable pub claim : TaskGraph → ℕ → ℕ → ℕ → Option TaskGraph
claim tg idx thread_id lock = elim (get_elem? tg.lock_list idx) [
  | some x ↦ some (record tg {
    lock_list = set tg.lock_list idx (record x { th_id = thread_id; lock_id = lock });
  })
  | none ↦
      if ltb idx max
      then some (record tg {
        lock_list =
            tg.lock_list
            ++ record { th_id = thread_id; lock_id = lock; degress = tg.uninit idx } ∷ [];
      })
      else none
]

unfoldable pub lock_after : ℕ → ℕ → TaskGraph → Option TaskGraph
unfolding search_lock search_empty_lock claim verify_edge remove_edge
lock_after thread_id lock tg = elim (search_lock tg.lock_list lock) [
  | none ↦ claim tg (search_empty_lock tg.lock_list) thread_id lock
  | some idx ↦ (do
    x ← get_elem? tg.lock_list idx
    some (record tg {
      vertex_list =
          if verify_edge tg.vertex_list (thread thread_id) (thread x.th_id)
          then remove_edge tg.vertex_list (thread thread_id) (thread x.th_id)
          else tg.vertex_list;
      lock_list =
          set tg.lock_list idx
            (record { th_id = thread_id; lock_id = x.lock_id; degress = minus_one x.degress });
    }))
]

abbrev pub is_zero : ℤ → Bool
is_zero (pos n) = n == 0
is_zero (negsuc n) = false

-- With no entry for the lock, `lock_list[-1]` is read.
unfoldable pub unlock_after : ℕ → ℕ → TaskGraph → Option TaskGraph
unfolding search_lock
unlock_after thread_id lock tg = do
  idx ← search_lock tg.lock_list lock
  x ← get_elem? tg.lock_list idx
  some (
      if is_zero x.degress
      then record tg { lock_list = set tg.lock_list idx (record x { th_id = 0; lock_id = 0 }) }
      else tg)
