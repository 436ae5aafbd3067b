-- ===== src/TaskPool/EchoLimits.antt =====
-- What is particular to the pool of the echo server: its limit, and that `addTask` does not look at
-- the stop.
use linux_cpp_learn.Prelude.{
  ℕ, zero, suc, ◌≤◌, ◌<◌, true, false, List, [], ◌∷◌, ◌++◌, Option, none, some, arith, ◌≡◌, refl,
  All, All-get_elem?, length, length-append, get_elem?, if_keeps, map, ap,
}
use linux_cpp_learn.TaskPool.{
  Task, Added, queued, full, stopped, Poll, sleep, leave, undefined_front, took,
}
use linux_cpp_learn.TaskPool.System.{
  Worker, ready, about_to_wait, waiting, exited, running, Sys, Action, adds, turn, deliver,
  spurious, stops, broadcasts, after_add, after_poll, after_call, turn_of, deliver_to, wake_one,
  wake, act, step, add, any_waiting, run, run_keeps, start, mutex_free,
}
use linux_cpp_learn.TaskPool.Echo
use linux_cpp_learn.TaskPool.Echo.{m_max_tasks}

module _ {T : Type 0} where
  abbrev IsBounded : Sys T → Type 0
  IsBounded s = length s.shared.m_tasks ≤ m_max_tasks

  add-IsBounded :
      (s : Sys T) (t : Task T) (r : Added T)
      → Echo.add_task s.shared t ≡ r
      → IsBounded s
      → IsBounded (after_add s t r)
  unfolding after_add Echo.add_task
  add-IsBounded s t (queued sh) e h = ground (arith, length-append s.shared.m_tasks (t ∷ []))
  add-IsBounded s t full e h = h
  add-IsBounded s t stopped e h = h

  after_poll-IsBounded :
      (s : Sys T) (i : ℕ) (r : Poll T)
      → Echo.code.poll s.shared ≡ r
      → IsBounded s
      → IsBounded (after_poll s i r)
  unfolding after_poll
  after_poll-IsBounded s i sleep e h = h
  after_poll-IsBounded s i leave e h = h
  after_poll-IsBounded s i undefined_front e h = h
  after_poll-IsBounded s i (took t sh) e h =
      omega (arith, ap length (Echo.code.poll-took s.shared t sh e).0)

  turn-IsBounded :
      (s : Sys T) (i : ℕ) (w : Option (Worker T))
      → IsBounded s
      → IsBounded (turn_of Echo.code s i w)
  unfolding turn_of after_call
  turn-IsBounded s i none h = h
  turn-IsBounded s i (some ready) h =
      if_keeps IsBounded (mutex_free s.workers)
        (after_poll-IsBounded s i (Echo.code.poll s.shared) refl h) h
  turn-IsBounded s i (some about_to_wait) h = h
  turn-IsBounded s i (some waiting) h = h
  turn-IsBounded s i (some exited) h = h
  turn-IsBounded s i (some (running t)) h = ground arith

  deliver-IsBounded :
      (s : Sys T) (n i : ℕ) (w : Option (Worker T)) → IsBounded s → IsBounded (deliver_to s n i w)
  unfolding deliver_to
  deliver-IsBounded s zero i w h = h
  deliver-IsBounded s (suc n) i w h = ground arith

  act-IsBounded : (a : Action T) (s : Sys T) → IsBounded s → IsBounded (act Echo.code a s)
  unfolding act Echo.code wake_one Echo.request_stop
  act-IsBounded (adds t) s h =
      if_keeps IsBounded (mutex_free s.workers)
        (add-IsBounded s t (Echo.add_task s.shared t) refl h) h
  act-IsBounded (turn i) s h = turn-IsBounded s i (get_elem? s.workers i) h
  act-IsBounded (deliver i) s h = deliver-IsBounded s s.signals i (get_elem? s.workers i) h
  act-IsBounded (spurious i) s h = ground arith
  act-IsBounded stops s h = h
  act-IsBounded broadcasts s h = h

  -- Whatever the threads do, the echo server's queue never holds more than `m_max_tasks` tasks.
  pub echo_queue_bounded :
      (n : ℕ) (acts : List (Action T))
      → length (run Echo.code acts (start Echo.code Echo.create n)).shared.m_tasks ≤ m_max_tasks
  unfolding start Echo.create
  echo_queue_bounded n acts =
      run_keeps Echo.code IsBounded act-IsBounded acts (start Echo.code Echo.create n) (omega arith)

  -- All workers have left, and so much was started.
  abbrev HasLeft : List (Task T) → Sys T → Type 0
  HasLeft done s = All (λ w. w ≡ exited) s.workers × (s.started ≡ done)

  turn-HasLeft :
      (done : List (Task T)) (s : Sys T) (i : ℕ) (w : Option (Worker T))
      → get_elem? s.workers i ≡ w
      → HasLeft done s
      → HasLeft done (turn_of Echo.code s i w)
  unfolding turn_of
  turn-HasLeft done s i none e h = h
  turn-HasLeft done s i (some exited) e h = h
  turn-HasLeft done s i (some w) e h =
      let left : w ≡ exited = All-get_elem? (λ v. v ≡ exited) s.workers i w h.0 e in cc

  deliver-HasLeft :
      (done : List (Task T)) (s : Sys T) (n i : ℕ) (w : Option (Worker T))
      → get_elem? s.workers i ≡ w
      → HasLeft done s
      → HasLeft done (deliver_to s n i w)
  unfolding deliver_to
  deliver-HasLeft done s zero i w e h = h
  deliver-HasLeft done s (suc n) i (some waiting) e h =
      let left : waiting ≡ exited = All-get_elem? (λ v. v ≡ exited) s.workers i waiting h.0 e in cc
  deliver-HasLeft done s (suc n) i w e h = if_keeps (HasLeft done) (any_waiting s.workers) h h

  wake_one-HasLeft :
      (done : List (Task T)) (s : Sys T) (i : ℕ) (w : Option (Worker T))
      → get_elem? s.workers i ≡ w
      → HasLeft done s
      → HasLeft done (wake_one s i w)
  unfolding wake_one
  wake_one-HasLeft done s i (some waiting) e h =
      let left : waiting ≡ exited = All-get_elem? (λ v. v ≡ exited) s.workers i waiting h.0 e in cc
  wake_one-HasLeft done s i w e h = h

  add-HasLeft :
      (done : List (Task T)) (s : Sys T) (t : Task T) (r : Added T)
      → HasLeft done s
      → HasLeft done (after_add s t r)
  unfolding after_add
  add-HasLeft done s t (queued sh) h = h
  add-HasLeft done s t full h = h
  add-HasLeft done s t stopped h = h

  wake-exited :
      (ws : List (Worker T)) → All (λ w. w ≡ exited) ws → All (λ w. w ≡ exited) (map wake ws)
  wake-exited [] h = h
  wake-exited (w ∷ ws) h = (rw h.0 refl, wake-exited ws h.1)

  act-HasLeft :
      (done : List (Task T)) (a : Action T) (s : Sys T)
      → HasLeft done s
      → HasLeft done (act Echo.code a s)
  unfolding act
  act-HasLeft done (adds t) s h =
      if_keeps (HasLeft done) (mutex_free s.workers)
        (add-HasLeft done s t (Echo.code.add_task s.shared t) h) h
  act-HasLeft done (turn i) s h = turn-HasLeft done s i (get_elem? s.workers i) refl h
  act-HasLeft done (deliver i) s h =
      deliver-HasLeft done s s.signals i (get_elem? s.workers i) refl h
  act-HasLeft done (spurious i) s h = wake_one-HasLeft done s i (get_elem? s.workers i) refl h
  act-HasLeft done stops s h = h
  act-HasLeft done broadcasts s h = (wake-exited s.workers h.0, h.1)

  mutex_free-exited : (ws : List (Worker T)) → All (λ w. w ≡ exited) ws → mutex_free ws ≡ true
  mutex_free-exited [] h = refl
  mutex_free-exited (w ∷ ws) h = rw h.0 (mutex_free-exited ws h.1)

  -- In the echo server's pool, once all workers have left and the queue has room: a call of
  -- `addTask` is still accepted, and no schedule that follows starts a task.
  pub echo_late_task_never_starts :
      (s : Sys T) (t : Task T) (acts : List (Action T))
      → s.aborted ≡ false
      → length s.shared.m_tasks < m_max_tasks
      → All (λ w. w ≡ exited) s.workers
      → ((run Echo.code (adds t ∷ []) s).accepted ≡ s.accepted ++ t ∷ [])
        × ((run Echo.code acts (run Echo.code (adds t ∷ []) s)).started ≡ s.started)
  unfolding run step act add after_add Echo.code Echo.add_task
  echo_late_task_never_starts s t acts live room left = (
    ground (arith, mutex_free-exited s.workers left),
    (run_keeps Echo.code (HasLeft s.started) (act-HasLeft s.started) (adds t ∷ acts) s
        (left, refl)).1,
  )
