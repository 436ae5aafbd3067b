-- ===== src/TaskPool/System/History.antt =====
-- What the threads of a pool did with the tasks that `addTask` accepted.
use linux_cpp_learn.Prelude.{
  ℕ, zero, suc, List, [], ◌∷◌, ◌++◌, Option, none, some, arith, append_assoc, get_elem?, ◌≡◌, refl,
}
use linux_cpp_learn.TaskPool.{
  Task, Added, queued, full, stopped, Poll, sleep, leave, undefined_front, took, Ran, called,
  skipped, bad_call, Code,
}
use linux_cpp_learn.TaskPool.System.{
  Worker, ready, about_to_wait, waiting, exited, running, Sys, Action, adds, turn, deliver,
  spurious, stops, broadcasts, after_add, after_poll, after_call, turn_of, deliver_to, wake_one,
  act, run, run_keeps,
}

module _ {T : Type 0} where
  -- The tasks that were taken, in the order of taking, and then those in the queue are all that
  -- was accepted.
  abbrev pub IsFifo : Sys T → Type 0
  IsFifo s = s.accepted ≡ s.started ++ s.shared.m_tasks

module _ {T : Type 0} (c : Code T) where
  after_add-IsFifo :
      (s : Sys T) (t : Task T) (r : Added T)
      → c.add_task s.shared t ≡ r
      → IsFifo s
      → IsFifo (after_add s t r)
  unfolding after_add
  after_add-IsFifo s t (queued sh) e h =
      ground
        (arith, c.add_task-queued s.shared t sh e, append_assoc s.started s.shared.m_tasks (t ∷ []))
  after_add-IsFifo s t full e h = h
  after_add-IsFifo s t stopped e h = h

  after_poll-IsFifo :
      (s : Sys T) (i : ℕ) (r : Poll T) → c.poll s.shared ≡ r → IsFifo s → IsFifo (after_poll s i r)
  unfolding after_poll
  after_poll-IsFifo s i sleep e h = h
  after_poll-IsFifo s i leave e h = h
  after_poll-IsFifo s i undefined_front e h = h
  after_poll-IsFifo s i (took t sh) e h =
      ground (arith, c.poll-took s.shared t sh e, append_assoc s.started (t ∷ []) sh.m_tasks)

  after_call-IsFifo :
      (s : Sys T) (i : ℕ) (t : Task T) (r : Ran T) → IsFifo s → IsFifo (after_call s i t r)
  unfolding after_call
  after_call-IsFifo s i t (called f) h = h
  after_call-IsFifo s i t skipped h = h
  after_call-IsFifo s i t bad_call h = h

  turn_of-IsFifo : (s : Sys T) (i : ℕ) (w : Option (Worker T)) → IsFifo s → IsFifo (turn_of c s i w)
  unfolding turn_of
  turn_of-IsFifo s i none h = h
  turn_of-IsFifo s i (some ready) h = ground (arith, after_poll-IsFifo s i (c.poll s.shared) refl h)
  turn_of-IsFifo s i (some about_to_wait) h = h
  turn_of-IsFifo s i (some waiting) h = h
  turn_of-IsFifo s i (some exited) h = h
  turn_of-IsFifo s i (some (running t)) h = after_call-IsFifo s i t (c.call t) h

  deliver_to-IsFifo :
      (s : Sys T) (n i : ℕ) (w : Option (Worker T)) → IsFifo s → IsFifo (deliver_to s n i w)
  unfolding deliver_to
  deliver_to-IsFifo s zero i w h = h
  deliver_to-IsFifo s (suc n) i w h = ground arith

  wake_one-IsFifo : (s : Sys T) (i : ℕ) (w : Option (Worker T)) → IsFifo s → IsFifo (wake_one s i w)
  unfolding wake_one
  wake_one-IsFifo s i w h = ground arith

  act-IsFifo : (a : Action T) (s : Sys T) → IsFifo s → IsFifo (act c a s)
  unfolding act
  act-IsFifo (adds t) s h = ground (arith, after_add-IsFifo s t (c.add_task s.shared t) refl h)
  act-IsFifo (turn i) s h = turn_of-IsFifo s i (get_elem? s.workers i) h
  act-IsFifo (deliver i) s h = deliver_to-IsFifo s s.signals i (get_elem? s.workers i) h
  act-IsFifo (spurious i) s h = wake_one-IsFifo s i (get_elem? s.workers i) h
  act-IsFifo stops s h = ground (arith, c.request_stop_lem s.shared)
  act-IsFifo broadcasts s h = h

  pub run-IsFifo : (acts : List (Action T)) (s : Sys T) → IsFifo s → IsFifo (run c acts s)
  run-IsFifo = run_keeps c IsFifo act-IsFifo
