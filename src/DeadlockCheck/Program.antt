-- ===== src/DeadlockCheck/Program.antt =====
-- The threads of a program under the hooks of deadlock_check/deadlock_check.c: a sequence of the
-- hooks' calls, in the order in which they get the graph's mutex.
use linux_cpp_learn.Prelude.{
  ℕ, List, [], ◌∷◌, some, ◌≡◌, arith, Option-cases, Option, inl, inr, ◌>>=◌, >>=-eq-some, if_keeps,
  if◌then◌else◌, get_elem?,
}
use linux_cpp_learn.Prelude.Int.{ℤ}
use linux_cpp_learn.DeadlockCheck.{verify_edge, remove_edge}
use linux_cpp_learn.DeadlockCheck.Search.{Check, check_dead_lock}
use linux_cpp_learn.DeadlockCheck.Search.Walks.{IsClosed}
use linux_cpp_learn.DeadlockCheck.Search.Ends.{check_dead_lock_ends}
use linux_cpp_learn.DeadlockCheck.Locks.{
  TaskGraph, start_check, thread, wait_for, lock_before, lock_after, unlock_after, search_lock,
  claim, search_empty_lock,
}
use linux_cpp_learn.DeadlockCheck.Closed.{wait_for-IsClosed, remove_edge-IsClosed}

-- The three hooks, each with its thread and its lock.
pub data Hook : Type 0 where
  before_lock after_lock after_unlock : ℕ → ℕ → Hook

unfoldable pub step : Hook → TaskGraph → Option TaskGraph
unfolding lock_before lock_after unlock_after
step (before_lock t l) tg = lock_before t l tg
step (after_lock t l) tg = lock_after t l tg
step (after_unlock t l) tg = unlock_after t l tg

unfoldable pub run : List Hook → TaskGraph → Option TaskGraph
unfolding step
run [] tg = some tg
run (h ∷ hs) tg = do u ← step h tg; run hs u

abbrev pub Closed : TaskGraph → Type 0
Closed tg = IsClosed tg.vertex_list

pub lock_before-Closed :
    (t l : ℕ) (tg u : TaskGraph) → Closed tg → lock_before t l tg ≡ some u → Closed u
unfolding lock_before
lock_before-Closed t l tg u c e = elim (Option-cases (search_lock tg.lock_list l)) [
  | inl f ↦ let same : tg ≡ u = ground (arith, e, f) in rw (← same) c
  | inr (idx, f) ↦ elim (Option-cases (get_elem? tg.lock_list idx)) [
    | inl out ↦ absurd (ground (arith, e, f, out))
    | inr (x, at) ↦ elim (Option-cases (wait_for tg.vertex_list (thread t) (thread x.th_id))) [
      | inl full ↦ absurd (ground (arith, e, f, at, full))
      | inr (g, w) ↦
          let same : g ≡ u.vertex_list = ground (arith, e, f, at, w) in
          rw (← same) (wait_for-IsClosed tg.vertex_list g (thread t) (thread x.th_id) c w)
    ]
  ]
]

claim-vertex_list :
    (tg u : TaskGraph) (idx t l : ℕ) → claim tg idx t l ≡ some u → u.vertex_list ≡ tg.vertex_list
unfolding claim
claim-vertex_list tg u idx t l e = ground (arith, e)

lock_after-Closed : (t l : ℕ) (tg u : TaskGraph) → Closed tg → lock_after t l tg ≡ some u → Closed u
unfolding lock_after
lock_after-Closed t l tg u c e = elim (Option-cases (search_lock tg.lock_list l)) [
  | inl f ↦
      let same =
        claim-vertex_list tg u (search_empty_lock tg.lock_list) t l (ground (arith, e, f)) in
      rw same c
  | inr (idx, f) ↦ elim (Option-cases (get_elem? tg.lock_list idx)) [
    | inl out ↦ absurd (ground (arith, e, f, out))
    | inr (x, at) ↦
        let g = tg.vertex_list in
        let linked = verify_edge g (thread t) (thread x.th_id) in
        let same : (if linked then remove_edge g (thread t) (thread x.th_id) else g)
            ≡ u.vertex_list =
          ground (arith, e, f, at) in
        rw (← same)
          (if_keeps IsClosed linked (remove_edge-IsClosed g (thread t) (thread x.th_id) c) c)
  ]
]

unlock_after-Closed :
    (t l : ℕ) (tg u : TaskGraph) → Closed tg → unlock_after t l tg ≡ some u → Closed u
unfolding unlock_after
unlock_after-Closed t l tg u c e =
    let same : u.vertex_list ≡ tg.vertex_list = ground (arith, e) in rw same c

step-Closed : (h : Hook) (tg u : TaskGraph) → Closed tg → step h tg ≡ some u → Closed u
unfolding step
step-Closed (before_lock t l) = lock_before-Closed t l
step-Closed (after_lock t l) = lock_after-Closed t l
step-Closed (after_unlock t l) = unlock_after-Closed t l

pub run-Closed : (hs : List Hook) (tg u : TaskGraph) → Closed tg → run hs tg ≡ some u → Closed u
unfolding run
run-Closed [] tg u c e = let same : tg ≡ u = ground (arith, e) in rw (← same) c
run-Closed (h ∷ hs) tg u c e =
    let (v, f, r) = >>=-eq-some (step h tg) _ e in run-Closed hs v u (step-Closed h tg v c f) r

pub start_check-Closed : (uninit : ℕ → ℤ) → Closed (start_check uninit)
unfolding start_check
start_check-Closed uninit = record { resolves = λ i ver e. cc; room = omega arith }

-- After any sequence of the hooks' calls that stayed within the arrays, whatever malloc left in
-- them: the search for a cycle ends, within its arrays and a depth of one more than the vertices.
pub check_after_run :
    (uninit : ℕ → ℤ) (hs : List Hook) (tg : TaskGraph) (s : Check)
    → run hs (start_check uninit) ≡ some tg
    → (t : Check) × (check_dead_lock tg.vertex_list s ≡ some t)
check_after_run uninit hs tg s e =
    check_dead_lock_ends tg.vertex_list s
      (run-Closed hs (start_check uninit) tg (start_check-Closed uninit) e)
