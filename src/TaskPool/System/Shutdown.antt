-- ===== src/TaskPool/System/Shutdown.antt =====
-- Pools whose `addTask` refuses once they are stopped: what the queue holds when a worker sleeps or
-- leaves, and that nothing is left behind.
use linux_cpp_learn.Prelude.{
  ℕ, zero, suc, true, false, List, [], ◌∷◌, Option, none, some, arith, set, get_elem?, ◌≡◌, refl,
  map, Bool-cases, inl, inr, All, All-set,
}
use linux_cpp_learn.TaskPool.{
  Task, Shared, Added, queued, full, stopped, Poll, sleep, leave, undefined_front, took, Ran,
  called, skipped, bad_call, Code,
}
use linux_cpp_learn.TaskPool.System.{
  Worker, ready, about_to_wait, waiting, exited, running, Sys, Action, adds, turn, deliver,
  spurious, stops, broadcasts, after_add, after_poll, after_call, turn_of, deliver_to, wake_one,
  wake, act, run, run_keeps, mutex_free, any_waiting,
}

-- `addTask` accepts nothing after the stop.
abbrev pub Guards : {T : Type 0} → Code T → Type 0
Guards {T} c = (s : Shared T) (t : Task T) → s.m_stop ≡ true → c.add_task s t ≡ stopped

module _ {T : Type 0} where
  -- A worker that holds the mutex on its way to sleep saw an empty queue, and nobody can have added
  -- to it since; one that left saw the stop too.
  abbrev pub Knows : Shared T → Worker T → Type 0
  Knows sh about_to_wait = sh.m_tasks ≡ []
  Knows sh exited = (sh.m_tasks ≡ []) × (sh.m_stop ≡ true)
  Knows sh ready = Unit
  Knows sh waiting = Unit
  Knows sh (running t) = Unit

  abbrev pub IsSound : Sys T → Type 0
  IsSound s = All (Knows s.shared) s.workers

  Knows-add :
      (sh sh' : Shared T) (ws : List (Worker T))
      → mutex_free ws ≡ true
      → sh.m_stop ≡ false
      → All (Knows sh) ws
      → All (Knows sh') ws
  Knows-add sh sh' [] free on h = h
  Knows-add sh sh' (ready ∷ ws) free on h = (tt, Knows-add sh sh' ws free on h.1)
  Knows-add sh sh' (waiting ∷ ws) free on h = (tt, Knows-add sh sh' ws free on h.1)
  Knows-add sh sh' (running t ∷ ws) free on h = (tt, Knows-add sh sh' ws free on h.1)
  Knows-add sh sh' (about_to_wait ∷ ws) free on h = cc
  Knows-add sh sh' (exited ∷ ws) free on h = ground arith

  -- A worker that takes a task finds the queue filled, so nobody knows it to be empty.
  Knows-take :
      (sh sh' : Shared T) (t : Task T) (ws : List (Worker T))
      → sh.m_tasks ≡ t ∷ sh'.m_tasks
      → All (Knows sh) ws
      → All (Knows sh') ws
  Knows-take sh sh' t [] e h = h
  Knows-take sh sh' t (ready ∷ ws) e h = (tt, Knows-take sh sh' t ws e h.1)
  Knows-take sh sh' t (waiting ∷ ws) e h = (tt, Knows-take sh sh' t ws e h.1)
  Knows-take sh sh' t (running u ∷ ws) e h = (tt, Knows-take sh sh' t ws e h.1)
  Knows-take sh sh' t (about_to_wait ∷ ws) e h = ground arith
  Knows-take sh sh' t (exited ∷ ws) e h = ground arith

  Knows-stop :
      (sh sh' : Shared T) (ws : List (Worker T))
      → sh'.m_tasks ≡ sh.m_tasks
      → sh'.m_stop ≡ true
      → All (Knows sh) ws
      → All (Knows sh') ws
  Knows-stop sh sh' [] e on h = h
  Knows-stop sh sh' (ready ∷ ws) e on h = (tt, Knows-stop sh sh' ws e on h.1)
  Knows-stop sh sh' (waiting ∷ ws) e on h = (tt, Knows-stop sh sh' ws e on h.1)
  Knows-stop sh sh' (running u ∷ ws) e on h = (tt, Knows-stop sh sh' ws e on h.1)
  Knows-stop sh sh' (about_to_wait ∷ ws) e on h = (ground arith, Knows-stop sh sh' ws e on h.1)
  Knows-stop sh sh' (exited ∷ ws) e on h = ((ground arith, on), Knows-stop sh sh' ws e on h.1)

  Knows-wake :
      (sh : Shared T) (ws : List (Worker T)) → All (Knows sh) ws → All (Knows sh) (map wake ws)
  Knows-wake sh [] h = h
  Knows-wake sh (ready ∷ ws) h = (tt, Knows-wake sh ws h.1)
  Knows-wake sh (waiting ∷ ws) h = (tt, Knows-wake sh ws h.1)
  Knows-wake sh (running u ∷ ws) h = (tt, Knows-wake sh ws h.1)
  Knows-wake sh (about_to_wait ∷ ws) h = (h.0, Knows-wake sh ws h.1)
  Knows-wake sh (exited ∷ ws) h = (h.0, Knows-wake sh ws h.1)

module _ {T : Type 0} (c : Code T) (guards : Guards c) where
  after_add-IsSound :
      (s : Sys T) (t : Task T) (r : Added T)
      → c.add_task s.shared t ≡ r
      → mutex_free s.workers ≡ true
      → IsSound s
      → IsSound (after_add s t r)
  unfolding after_add
  after_add-IsSound s t (queued sh) e free h = elim (Bool-cases s.shared.m_stop) [
    | inl off ↦ ground (arith, guards s.shared t off)
    | inr on ↦ Knows-add s.shared sh s.workers free on h
  ]
  after_add-IsSound s t full e free h = h
  after_add-IsSound s t stopped e free h = h

  after_poll-IsSound :
      (s : Sys T) (i : ℕ) (r : Poll T)
      → c.poll s.shared ≡ r
      → IsSound s
      → IsSound (after_poll s i r)
  unfolding after_poll
  after_poll-IsSound s i sleep e h =
      All-set (Knows s.shared) s.workers i about_to_wait h (c.poll-sleep s.shared e).0
  after_poll-IsSound s i leave e h =
      All-set (Knows s.shared) s.workers i exited h (c.poll-leave s.shared e)
  after_poll-IsSound s i undefined_front e h = h
  after_poll-IsSound s i (took t sh) e h =
      All-set (Knows sh) s.workers i (running t)
        (Knows-take s.shared sh t s.workers (c.poll-took s.shared t sh e).0 h) tt

  to_quiet :
      (s : Sys T) (i : ℕ) (w : Worker T)
      → Knows s.shared w
      → IsSound s
      → All (Knows s.shared) (set s.workers i w)
  to_quiet s i w k h = All-set (Knows s.shared) s.workers i w h k

  after_call-IsSound :
      (s : Sys T) (i : ℕ) (t : Task T) (r : Ran T) → IsSound s → IsSound (after_call s i t r)
  unfolding after_call
  after_call-IsSound s i t (called f) h = to_quiet s i ready tt h
  after_call-IsSound s i t skipped h = to_quiet s i ready tt h
  after_call-IsSound s i t bad_call h = h

  turn_of-IsSound :
      (s : Sys T) (i : ℕ) (w : Option (Worker T)) → IsSound s → IsSound (turn_of c s i w)
  unfolding turn_of
  turn_of-IsSound s i none h = h
  turn_of-IsSound s i (some ready) h = elim (Bool-cases (mutex_free s.workers)) [
    | inl free ↦ rw free (after_poll-IsSound s i (c.poll s.shared) refl h)
    | inr held ↦ rw held h
  ]
  turn_of-IsSound s i (some about_to_wait) h = to_quiet s i waiting tt h
  turn_of-IsSound s i (some waiting) h = h
  turn_of-IsSound s i (some exited) h = h
  turn_of-IsSound s i (some (running t)) h = after_call-IsSound s i t (c.call t) h

  deliver_to-IsSound :
      (s : Sys T) (n i : ℕ) (w : Option (Worker T)) → IsSound s → IsSound (deliver_to s n i w)
  unfolding deliver_to
  deliver_to-IsSound s zero i w h = h
  deliver_to-IsSound s (suc n) i (some waiting) h = to_quiet s i ready tt h
  deliver_to-IsSound s (suc n) i w h = elim (Bool-cases (any_waiting s.workers)) [
    | inl more ↦ rw more h
    | inr lost ↦ rw lost h
  ]

  wake_one-IsSound :
      (s : Sys T) (i : ℕ) (w : Option (Worker T)) → IsSound s → IsSound (wake_one s i w)
  unfolding wake_one
  wake_one-IsSound s i (some waiting) h = to_quiet s i ready tt h
  wake_one-IsSound s i w h = h

  pub act-IsSound : (a : Action T) (s : Sys T) → IsSound s → IsSound (act c a s)
  unfolding act
  act-IsSound (adds t) s h = elim (Bool-cases (mutex_free s.workers)) [
    | inl free ↦ rw free (after_add-IsSound s t (c.add_task s.shared t) refl free h)
    | inr held ↦ rw held h
  ]
  act-IsSound (turn i) s h = turn_of-IsSound s i (get_elem? s.workers i) h
  act-IsSound (deliver i) s h = deliver_to-IsSound s s.signals i (get_elem? s.workers i) h
  act-IsSound (spurious i) s h = wake_one-IsSound s i (get_elem? s.workers i) h
  act-IsSound stops s h =
      let (same, on) = c.request_stop_lem s.shared in
      Knows-stop s.shared (c.request_stop s.shared) s.workers same on h
  act-IsSound broadcasts s h = Knows-wake s.shared s.workers h

  pub run-IsSound : (acts : List (Action T)) (s : Sys T) → IsSound s → IsSound (run c acts s)
  run-IsSound = run_keeps c IsSound act-IsSound
