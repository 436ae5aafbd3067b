-- ===== src/TaskPool/System/Workers.antt =====
-- What the actions do to the list of workers.
use linux_cpp_learn.Prelude.{
  ℕ, zero, suc, List, Option, none, some, arith, ◌≡◌, refl, map, length, length-set, get_elem?,
  if_keeps, [], ◌∷◌, ap, ◌∙◌,
}
use linux_cpp_learn.TaskPool.{
  Task, Added, queued, full, stopped, Poll, sleep, leave, undefined_front, took, Ran, called,
  skipped, bad_call, Code,
}
use linux_cpp_learn.TaskPool.System.{
  Worker, ready, about_to_wait, waiting, exited, running, Sys, Action, adds, turn, deliver,
  spurious, stops, broadcasts, after_add, after_poll, after_call, turn_of, deliver_to, wake_one,
  wake, act, run, run_keeps, mutex_free,
}

module _ {T : Type 0} where
  length-after_add : (s : Sys T) (t : Task T) (r : Added T) → (after_add s t r).workers ≡ s.workers
  unfolding after_add
  length-after_add s t (queued sh) = refl
  length-after_add s t full = refl
  length-after_add s t stopped = refl

  length-after_poll :
      (s : Sys T) (i : ℕ) (r : Poll T) → length (after_poll s i r).workers ≡ length s.workers
  unfolding after_poll
  length-after_poll s i sleep = length-set s.workers i about_to_wait
  length-after_poll s i leave = length-set s.workers i exited
  length-after_poll s i undefined_front = refl
  length-after_poll s i (took t sh) = length-set s.workers i (running t)

  length-after_call :
      (s : Sys T) (i : ℕ) (t : Task T) (r : Ran T)
      → length (after_call s i t r).workers ≡ length s.workers
  unfolding after_call
  length-after_call s i t (called f) = length-set s.workers i ready
  length-after_call s i t skipped = length-set s.workers i ready
  length-after_call s i t bad_call = refl

  length-deliver_to :
      (s : Sys T) (n i : ℕ) (w : Option (Worker T))
      → length (deliver_to s n i w).workers ≡ length s.workers
  unfolding deliver_to
  length-deliver_to s zero i w = refl
  length-deliver_to s (suc n) i (some waiting) = length-set s.workers i ready
  length-deliver_to s (suc n) i w = ground arith

  length-wake_one :
      (s : Sys T) (i : ℕ) (w : Option (Worker T))
      → length (wake_one s i w).workers ≡ length s.workers
  unfolding wake_one
  length-wake_one s i (some waiting) = length-set s.workers i ready
  length-wake_one s i w = refl

  length-wake : (ws : List (Worker T)) → length (map wake ws) ≡ length ws
  length-wake [] = refl
  length-wake (w ∷ ws) = ap suc (length-wake ws)

module _ {T : Type 0} (c : Code T) where
  length-turn_of :
      (s : Sys T) (i : ℕ) (w : Option (Worker T))
      → length (turn_of c s i w).workers ≡ length s.workers
  unfolding turn_of
  length-turn_of s i none = refl
  length-turn_of s i (some ready) =
      if_keeps (λ (r : Sys T). length r.workers ≡ length s.workers) (mutex_free s.workers)
        (length-after_poll s i (c.poll s.shared)) refl
  length-turn_of s i (some about_to_wait) = length-set s.workers i waiting
  length-turn_of s i (some waiting) = refl
  length-turn_of s i (some exited) = refl
  length-turn_of s i (some (running t)) = length-after_call s i t (c.call t)

  pub length-act : (a : Action T) (s : Sys T) → length (act c a s).workers ≡ length s.workers
  unfolding act
  length-act (adds t) s =
      if_keeps (λ (r : Sys T). length r.workers ≡ length s.workers) (mutex_free s.workers)
        (ap length (length-after_add s t (c.add_task s.shared t))) refl
  length-act (turn i) s = length-turn_of s i (get_elem? s.workers i)
  length-act (deliver i) s = length-deliver_to s s.signals i (get_elem? s.workers i)
  length-act (spurious i) s = length-wake_one s i (get_elem? s.workers i)
  length-act stops s = refl
  length-act broadcasts s = length-wake s.workers

  -- No action makes or ends a thread.
  pub run-length :
      (acts : List (Action T)) (s : Sys T) → length (run c acts s).workers ≡ length s.workers
  run-length acts s =
      run_keeps c (λ (r : Sys T). length r.workers ≡ length s.workers) (λ a r h. length-act a r ∙ h)
        acts s refl
