-- ===== src/TaskPool/System.antt =====
-- The threads of a pool: its workers, the clients that call `addTask`, and the destructor, as one
-- state and a step for each thing that can happen next. A worker's critical section is one step,
-- except that it may still hold the mutex, having tested the loop's condition, before it sleeps.
pub mod History
pub mod Jobs
pub mod Workers
pub mod Complete
pub mod Awake
pub mod LostWakeup
pub mod Shutdown
use linux_cpp_learn.Prelude.{
  ℕ, zero, suc, ◌+◌, Bool, true, false, List, [], ◌∷◌, ◌++◌, Option, none, some, map, if◌then◌else◌,
  if_keeps, get_elem?, set, replicate,
}
use linux_cpp_learn.TaskPool.{
  Task, Shared, Added, queued, full, stopped, Poll, sleep, leave, undefined_front, took, Ran,
  called, skipped, bad_call, Code,
}

-- Where a worker stands: before the lock, with the mutex and about to wait, inside the wait, in a
-- job, or out of the loop.
pub data Worker (T : Type 0) : Type 0 where
  ready about_to_wait waiting exited : Worker T
  running : Task T → Worker T

-- `signals` counts the wake-ups that `addTask` still owes; the three lists are the history of the
-- tasks that were accepted, taken out of the queue, and done.
pub record Sys (T : Type 0) : Type 0 where
  pub shared : Shared T
  pub workers : List (Worker T)
  pub signals : ℕ
  pub accepted : List (Task T)
  pub started : List (Task T)
  pub finished : List (Task T)
  pub aborted : Bool

-- A call of `addTask`, the next step of worker i, a wake-up delivered to worker i, a spurious
-- wake-up, and the destructor's store and broadcast.
pub data Action (T : Type 0) : Type 0 where
  adds : Task T → Action T
  turn deliver spurious : ℕ → Action T
  stops broadcasts : Action T

module _ {T : Type 0} where
  -- The mutex is free unless a worker holds it on its way into the wait.
  abbrev pub mutex_free : List (Worker T) → Bool
  mutex_free [] = true
  mutex_free (about_to_wait ∷ ws) = false
  mutex_free (w ∷ ws) = mutex_free ws

  abbrev pub wake : Worker T → Worker T
  wake waiting = ready
  wake w = w

  abbrev pub is_waiting : Worker T → Bool
  is_waiting waiting = true
  is_waiting w = false

  abbrev pub any_waiting : List (Worker T) → Bool
  any_waiting [] = false
  any_waiting (w ∷ ws) = if is_waiting w then true else any_waiting ws

  unfoldable pub place : Sys T → ℕ → Worker T → Sys T
  place s i w = record s { workers = set s.workers i w }

  unfoldable pub wake_one : Sys T → ℕ → Option (Worker T) → Sys T
  unfolding place
  wake_one s i (some waiting) = place s i ready
  wake_one s i w = s

  unfoldable pub after_add : Sys T → Task T → Added T → Sys T
  after_add s t (queued sh) = record s {
    shared = sh;
    accepted = s.accepted ++ t ∷ [];
    signals = s.signals + 1;
  }
  after_add s t full = s
  after_add s t stopped = s

  unfoldable pub after_poll : Sys T → ℕ → Poll T → Sys T
  unfolding place
  after_poll s i sleep = place s i about_to_wait
  after_poll s i leave = place s i exited
  after_poll s i undefined_front = record s { aborted = true }
  after_poll s i (took t sh) =
      place (record s { shared = sh; started = s.started ++ t ∷ [] }) i (running t)

  unfoldable pub after_call : Sys T → ℕ → Task T → Ran T → Sys T
  unfolding place
  after_call s i t bad_call = record s { aborted = true }
  after_call s i t (called f) = place (record s { finished = s.finished ++ t ∷ [] }) i ready
  after_call s i t skipped = place (record s { finished = s.finished ++ t ∷ [] }) i ready

  -- A wake-up goes to some waiting worker, and is lost if there is none.
  unfoldable pub deliver_to : Sys T → ℕ → ℕ → Option (Worker T) → Sys T
  unfolding place
  deliver_to s zero i w = s
  deliver_to s (suc n) i (some waiting) = place (record s { signals = n }) i ready
  deliver_to s (suc n) i w = if any_waiting s.workers then s else record s { signals = n }

module _ {T : Type 0} (c : Code T) where
  unfoldable pub add : Sys T → Task T → Sys T
  unfolding after_add
  add s t = after_add s t (c.add_task s.shared t)

  -- A worker's pass through the critical section.
  unfoldable pub enter : Sys T → ℕ → Sys T
  unfolding after_poll
  enter s i = after_poll s i (c.poll s.shared)

  -- The job of worker i.
  unfoldable pub perform : Sys T → ℕ → Task T → Sys T
  unfolding after_call
  perform s i t = after_call s i t (c.call t)

  unfoldable pub turn_of : Sys T → ℕ → Option (Worker T) → Sys T
  unfolding enter perform place
  turn_of s i none = s
  turn_of s i (some ready) = if mutex_free s.workers then enter s i else s
  turn_of s i (some about_to_wait) = place s i waiting
  turn_of s i (some waiting) = s
  turn_of s i (some exited) = s
  turn_of s i (some (running t)) = perform s i t

  unfoldable pub act : Action T → Sys T → Sys T
  unfolding add turn_of deliver_to wake_one
  act (adds t) s = if mutex_free s.workers then add s t else s
  act (turn i) s = turn_of s i (get_elem? s.workers i)
  act (deliver i) s = deliver_to s s.signals i (get_elem? s.workers i)
  act (spurious i) s = wake_one s i (get_elem? s.workers i)
  act stops s = record s { shared = c.request_stop s.shared }
  act broadcasts s = record s { workers = map wake s.workers }

  -- Nothing happens after std::terminate.
  unfoldable pub step : Action T → Sys T → Sys T
  unfolding act
  step a s = if s.aborted then s else act a s

  unfoldable pub run : List (Action T) → Sys T → Sys T
  unfolding step
  run [] s = s
  run (a ∷ rest) s = run rest (step a s)

  -- What every action keeps, every schedule keeps.
  pub run_keeps {ℓ} :
      (P : Sys T → Type ℓ)
      → ((a : Action T) (s : Sys T) → P s → P (act a s))
      → (acts : List (Action T)) (s : Sys T) → P s
      → P (run acts s)
  unfolding run step
  run_keeps P keep [] s h = h
  run_keeps P keep (a ∷ rest) s h =
      run_keeps P keep rest (step a s) (if_keeps P s.aborted h (keep a s h))

  -- The constructor: n workers at the head of their loops.
  unfoldable pub start : Shared T → ℕ → Sys T
  start sh n = record {
    shared = sh;
    workers = replicate n ready;
    signals = 0;
    accepted = [];
    started = [];
    finished = [];
    aborted = false;
  }
