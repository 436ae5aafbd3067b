-- ===== src/DeadlockCheck/Circle/Found.antt =====
-- deadlock_check/test.c's threads behind the sleep: the check of deadlock_check/deadlock_check.c finds
-- the circle.
use linux_cpp_learn.Prelude.{ℕ, Bool, true, List, some, ◌≡◌, ◌≢◌, sym}
use mathlib.Core.Path.{subst}
use linux_cpp_learn.Prelude.Int.{ℤ}
use linux_cpp_learn.DeadlockCheck.{Graph, search_vertex}
use linux_cpp_learn.DeadlockCheck.Search.{Check, check_dead_lock}
use linux_cpp_learn.DeadlockCheck.Search.Walks.{IsClosed, Edge, Cycle, edge, then_edge}
use linux_cpp_learn.DeadlockCheck.Search.Sound.{check_dead_lock_finds}
use linux_cpp_learn.DeadlockCheck.Links.{IsLinked, IsLinked-at}
use linux_cpp_learn.DeadlockCheck.Locks.{TaskGraph, thread, start_check}
use linux_cpp_learn.DeadlockCheck.Program.{start_check-Closed}
use linux_cpp_learn.DeadlockCheck.Circle.{
  Routine, one, two, three, four, next_routine, Stage, asks_first, waits_first, got_first,
  asks_second, waits_second, got_second, gives_second, gave_second, gives_first, gave_first,
  through, routine_step, Circle, circle_run, circle_start,
}
use linux_cpp_learn.DeadlockCheck.Circle.Held.{circle_run-Held, circle_start-Held}
use linux_cpp_learn.DeadlockCheck.Circle.Asleep.{sleepers}
use linux_cpp_learn.DeadlockCheck.Circle.Typed.{IsTyped, IsLinked-Edge}
use linux_cpp_learn.DeadlockCheck.Circle.Standstill.{IsStuck}
use linux_cpp_learn.DeadlockCheck.Circle.Waiting.{Asked, run-Waiting}

module _ (self address : Routine → ℕ)
    (distinct : (r : Routine) → self r ≢ self (next_routine r)) where
  Asked-stuck :
      (r : Routine) (st : Stage) (b1 b2 : Bool) (tg : TaskGraph)
      → Asked self address r st tg
      → (routine_step st b1 b2).0 ≡ st
      → IsLinked tg.vertex_list (thread (self r)) (thread (self (next_routine r)))
  unfolding routine_step
  Asked-stuck r asks_second b1 b2 tg h e = cc
  Asked-stuck r waits_second b1 b2 tg h e = h
  Asked-stuck r asks_first b1 b2 tg h e = absurd h
  Asked-stuck r waits_first b1 b2 tg h e = absurd h
  Asked-stuck r got_first b1 b2 tg h e = absurd h
  Asked-stuck r got_second b1 b2 tg h e = absurd h
  Asked-stuck r gives_second b1 b2 tg h e = absurd h
  Asked-stuck r gave_second b1 b2 tg h e = absurd h
  Asked-stuck r gives_first b1 b2 tg h e = absurd h
  Asked-stuck r gave_first b1 b2 tg h e = absurd h
  Asked-stuck r through b1 b2 tg h e = absurd h

  -- Four threads, each linked to the next, are a cycle.
  linked_circle :
      (g : Graph)
      → IsTyped g
      → ((r : Routine) → IsLinked g (thread (self r)) (thread (self (next_routine r))))
      → (i : ℕ) × Cycle g i
  unfolding next_routine
  linked_circle g typed l =
      let at : (r : Routine) → (i : ℕ) × (search_vertex g (thread (self r)) ≡ some i) = λ r.
        let (i, x, e, _, _) =
          IsLinked-at g (thread (self r)) (thread (self (next_routine r))) (l r) in
        (i, e) in
      let link : (r : Routine) → Edge g (at r).0 (at (next_routine r)).0 = λ r.
        IsLinked-Edge g (self r) (self (next_routine r)) (at r).0 (at (next_routine r)).0 typed
          (distinct r) (at r).1 (at (next_routine r)).1 (l r) in
      (
        (at one).0,
        then_edge (then_edge (then_edge (edge (link one)) (link two)) (link three)) (link four),
      )

  -- The threads of test.c, each with a number of its own beside the next one's and each mutex at an
  -- address of its own that is not 0, under the hooks, in steps that stay within their arrays, and
  -- whatever malloc left in them. If all four lock their first mutex and are behind the sleep before
  -- one of them asks for its second, then from there on, in any order of their steps: when none can
  -- get any further, check_dead_lock ends and raises the flag.
  pub circle_found :
      ((r q : Routine) → r ≢ q → address r ≢ address q)
      → ((r : Routine) → address r ≢ 0)
      → (uninit : ℕ → ℤ) (before behind : List Routine) (c d : Circle) (s : Check)
      → circle_run self address before (circle_start (start_check uninit)) ≡ some c
      → ((r : Routine) → c.stage r ≡ asks_second)
      → circle_run self address behind c ≡ some d
      → IsStuck d
      → (t : Check) × (check_dead_lock d.tg.vertex_list s ≡ some t) × (t.deadlock ≡ true)
  unfolding start_check
  circle_found apart nonzero uninit before behind c d s e1 asleep e2 stuck =
      let begin = circle_start (start_check uninit) in
      let (empty, owned) = sleepers self address apart nonzero uninit before c e1 asleep in
      let w = run-Waiting self address behind c d e2 (record {
        held =
            circle_run-Held self address before begin c e1 (circle_start-Held (start_check uninit));
        closed = subst IsClosed (sym empty) (start_check-Closed uninit);
        typed = subst IsTyped (sym empty) tt;
        owned = owned;
        asked = λ r. subst (λ st. Asked self address r st c.tg) (sym (asleep r)) tt;
      }) in
      let (i, cycle) = linked_circle d.tg.vertex_list w.typed (λ r.
        Asked-stuck r (d.stage r) (d.locked r) (d.locked (next_routine r)) d.tg (w.asked r)
          (stuck r)) in
      check_dead_lock_finds d.tg.vertex_list s i w.closed cycle
