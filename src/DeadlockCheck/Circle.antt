-- ===== src/DeadlockCheck/Circle.antt =====
-- deadlock_check/test.c: four threads, each of which locks a mutex of its own and then that of the
-- next thread, under the hooks of deadlock_check/deadlock_check.c. A step is what one thread does
-- next: a hook, or a call of the library's own lock or unlock, at which it may have to wait.
pub mod Held
pub mod Standstill
pub mod Routines
pub mod Entered
pub mod Asleep
pub mod Typed
pub mod Waiting
pub mod Found
mod Tests
use linux_cpp_learn.Prelude.{
  ℕ, Bool, true, false, List, [], ◌∷◌, Option, none, some, ◌>>=◌, if◌then◌else◌,
}
use linux_cpp_learn.DeadlockCheck.Locks.{TaskGraph}
use linux_cpp_learn.DeadlockCheck.Program.{Hook, before_lock, after_lock, after_unlock, step}

-- thread_rountine_1 to thread_rountine_4, and also mutex_1 to mutex_4.
pub data Routine : Type 0 where
  one two three four : Routine

-- The routine whose first mutex is this one's second.
unfoldable pub next_routine : Routine → Routine
next_routine one = two
next_routine two = three
next_routine three = four
next_routine four = one

-- Where a thread stands. Each lock is lock_before, the library's lock and lock_after, and each unlock
-- the library's unlock and unlock_after; `asks_second` is behind the sleep.
pub data Stage : Type 0 where
  asks_first waits_first got_first : Stage
  asks_second waits_second got_second : Stage
  gives_second gave_second gives_first gave_first through : Stage

-- The step on the thread's stage, on whether its first mutex is locked and on whether its second is.
unfoldable pub routine_step : Stage → Bool → Bool → Stage × Bool × Bool
routine_step asks_first b1 b2 = (waits_first, b1, b2)
routine_step waits_first b1 b2 = if b1 then (waits_first, b1, b2) else (got_first, true, b2)
routine_step got_first b1 b2 = (asks_second, b1, b2)
routine_step asks_second b1 b2 = (waits_second, b1, b2)
routine_step waits_second b1 b2 = if b2 then (waits_second, b1, b2) else (got_second, b1, true)
routine_step got_second b1 b2 = (gives_second, b1, b2)
routine_step gives_second b1 b2 = (gave_second, b1, false)
routine_step gave_second b1 b2 = (gives_first, b1, b2)
routine_step gives_first b1 b2 = (gave_first, false, b2)
routine_step gave_first b1 b2 = (through, b1, b2)
routine_step through b1 b2 = (through, b1, b2)

-- The hook that runs at a stage, for the thread's number and its mutexes' addresses.
unfoldable pub hook_at : Stage → (self first second : ℕ) → Option Hook
hook_at asks_first self first second = some (before_lock self first)
hook_at waits_first self first second = none
hook_at got_first self first second = some (after_lock self first)
hook_at asks_second self first second = some (before_lock self second)
hook_at waits_second self first second = none
hook_at got_second self first second = some (after_lock self second)
hook_at gives_second self first second = none
hook_at gave_second self first second = some (after_unlock self second)
hook_at gives_first self first second = none
hook_at gave_first self first second = some (after_unlock self first)
hook_at through self first second = none

unfoldable pub apply_hook : Option Hook → TaskGraph → Option TaskGraph
apply_hook none tg = some tg
apply_hook (some h) tg = step h tg

abbrev pub same_routine : Routine → Routine → Bool
same_routine one one = true
same_routine two two = true
same_routine three three = true
same_routine four four = true
same_routine r q = false

abbrev pub changed {ℓ} : {A : Type ℓ} → (Routine → A) → Routine → A → Routine → A
changed f r x q = if same_routine r q then x else f q

-- The stage of each thread, which mutexes are locked, and the hooks' graph.
pub record Circle : Type 0 where
  pub stage : Routine → Stage
  pub locked : Routine → Bool
  pub tg : TaskGraph

-- A thread's step, with the graph behind its hook.
unfoldable pub move_on : Routine → Circle → TaskGraph → Circle
unfolding next_routine routine_step
move_on r c tg =
    let (now, b1, b2) = routine_step (c.stage r) (c.locked r) (c.locked (next_routine r)) in
    record {
      stage = changed c.stage r now;
      locked = changed (changed c.locked r b1) (next_routine r) b2;
      tg = tg;
    }

-- What pthread_self gives in each thread, and the address of each mutex.
module _ (self address : Routine → ℕ) where
  unfoldable pub hook_of : Routine → Circle → Option Hook
  unfolding hook_at next_routine
  hook_of r c = hook_at (c.stage r) (self r) (address r) (address (next_routine r))

  -- `none` is an access outside an array in a hook.
  unfoldable pub circle_step : Routine → Circle → Option Circle
  unfolding hook_of apply_hook move_on
  circle_step r c = do tg ← apply_hook (hook_of r c) c.tg; some (move_on r c tg)

  unfoldable pub circle_run : List Routine → Circle → Option Circle
  unfolding circle_step
  circle_run [] c = some c
  circle_run (r ∷ rs) c = do d ← circle_step r c; circle_run rs d

-- `main` behind the calls of pthread_create.
unfoldable pub circle_start : TaskGraph → Circle
circle_start tg = record { stage = λ r. asks_first; locked = λ r. false; tg = tg }
