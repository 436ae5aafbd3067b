-- ===== src/DeadlockCheck/Circle/Held.antt =====
-- Which mutexes deadlock_check/test.c's threads have.
use linux_cpp_learn.Prelude.{
  ℕ, ◌+◌, Bool, true, false, List, [], ◌∷◌, some, ◌≡◌, refl, arith, >>=-eq-some,
}
use mathlib.Core.Path.{subst}
use linux_cpp_learn.DeadlockCheck.Locks.{TaskGraph}
use linux_cpp_learn.DeadlockCheck.Circle.{
  Routine, one, two, three, four, next_routine, Stage, asks_first, waits_first, got_first,
  asks_second, waits_second, got_second, gives_second, gave_second, gives_first, gave_first,
  through, routine_step, move_on, hook_of, apply_hook, Circle, circle_step, circle_run,
  circle_start,
}

-- Whether a thread at a stage has its first mutex, and its second.
abbrev pub firsts : Stage → ℕ
firsts asks_first = 0
firsts waits_first = 0
firsts gave_first = 0
firsts through = 0
firsts st = 1

abbrev pub seconds : Stage → ℕ
seconds got_second = 1
seconds gives_second = 1
seconds st = 0

abbrev pub bit : Bool → ℕ
bit true = 1
bit false = 0

-- The step changes a mutex as it changes what the thread has.
routine_step-firsts :
    (st : Stage) (b1 b2 : Bool) (k : ℕ)
    → bit b1 ≡ firsts st + k
    → let (now, b, _) = routine_step st b1 b2 in bit b ≡ firsts now + k
unfolding routine_step
routine_step-firsts asks_first b1 b2 k h = h
routine_step-firsts waits_first true b2 k h = h
routine_step-firsts waits_first false b2 k h = omega (arith, h)
routine_step-firsts got_first b1 b2 k h = h
routine_step-firsts asks_second b1 b2 k h = h
routine_step-firsts waits_second b1 true k h = h
routine_step-firsts waits_second b1 false k h = h
routine_step-firsts got_second b1 b2 k h = h
routine_step-firsts gives_second b1 b2 k h = h
routine_step-firsts gave_second b1 b2 k h = h
routine_step-firsts gives_first true b2 k h = omega (arith, h)
routine_step-firsts gives_first false b2 k h = omega (arith, h)
routine_step-firsts gave_first b1 b2 k h = h
routine_step-firsts through b1 b2 k h = h

routine_step-seconds :
    (st : Stage) (b1 b2 : Bool) (k : ℕ)
    → bit b2 ≡ k + seconds st
    → let (now, _, b) = routine_step st b1 b2 in bit b ≡ k + seconds now
unfolding routine_step
routine_step-seconds asks_first b1 b2 k h = h
routine_step-seconds waits_first true b2 k h = h
routine_step-seconds waits_first false b2 k h = h
routine_step-seconds got_first b1 b2 k h = h
routine_step-seconds asks_second b1 b2 k h = h
routine_step-seconds waits_second b1 true k h = h
routine_step-seconds waits_second b1 false k h = omega (arith, h)
routine_step-seconds got_second b1 b2 k h = h
routine_step-seconds gives_second b1 true k h = omega (arith, h)
routine_step-seconds gives_second b1 false k h = omega (arith, h)
routine_step-seconds gave_second b1 b2 k h = h
routine_step-seconds gives_first b1 b2 k h = h
routine_step-seconds gave_first b1 b2 k h = h
routine_step-seconds through b1 b2 k h = h

abbrev pub previous : Routine → Routine
previous one = four
previous two = one
previous three = two
previous four = three

-- A mutex is locked exactly where one of the two threads that use it has it, and then only one has.
abbrev pub Held : Circle → Type 0
Held c = (r : Routine) → bit (c.locked r) ≡ firsts (c.stage r) + seconds (c.stage (previous r))

Held-move_on : (r : Routine) (c : Circle) (tg : TaskGraph) → Held c → Held (move_on r c tg)
unfolding move_on next_routine
Held-move_on one c tg h one =
    routine_step-firsts (c.stage one) (c.locked one) (c.locked two) _ (h one)
Held-move_on one c tg h two =
    routine_step-seconds (c.stage one) (c.locked one) (c.locked two) _ (h two)
Held-move_on one c tg h three = h three
Held-move_on one c tg h four = h four
Held-move_on two c tg h two =
    routine_step-firsts (c.stage two) (c.locked two) (c.locked three) _ (h two)
Held-move_on two c tg h three =
    routine_step-seconds (c.stage two) (c.locked two) (c.locked three) _ (h three)
Held-move_on two c tg h one = h one
Held-move_on two c tg h four = h four
Held-move_on three c tg h three =
    routine_step-firsts (c.stage three) (c.locked three) (c.locked four) _ (h three)
Held-move_on three c tg h four =
    routine_step-seconds (c.stage three) (c.locked three) (c.locked four) _ (h four)
Held-move_on three c tg h one = h one
Held-move_on three c tg h two = h two
Held-move_on four c tg h four =
    routine_step-firsts (c.stage four) (c.locked four) (c.locked one) _ (h four)
Held-move_on four c tg h one =
    routine_step-seconds (c.stage four) (c.locked four) (c.locked one) _ (h one)
Held-move_on four c tg h two = h two
Held-move_on four c tg h three = h three

module _ (self address : Routine → ℕ) where
  -- What a step comes to that stays within the hooks' arrays.
  pub circle_step-move_on :
      (r : Routine) (c d : Circle)
      → circle_step self address r c ≡ some d
      → (tg : TaskGraph) × (apply_hook (hook_of self address r c) c.tg ≡ some tg)
        × (move_on r c tg ≡ d)
  unfolding circle_step
  circle_step-move_on r c d e =
      let (tg, e1, e2) = >>=-eq-some (apply_hook (hook_of self address r c) c.tg) _ e in
      (tg, e1, ground (arith, e2))

  pub circle_step-Held :
      (r : Routine) (c d : Circle) → circle_step self address r c ≡ some d → Held c → Held d
  unfolding circle_step
  circle_step-Held r c d e h =
      let (tg, e1, same) = circle_step-move_on r c d e in subst Held same (Held-move_on r c tg h)

  pub circle_run-Held :
      (rs : List Routine) (c d : Circle) → circle_run self address rs c ≡ some d → Held c → Held d
  unfolding circle_run
  circle_run-Held [] c d e h = let same : c ≡ d = ground (arith, e) in subst Held same h
  circle_run-Held (r ∷ rs) c d e h =
      let (b, e1, e2) = >>=-eq-some (circle_step self address r c) _ e in
      circle_run-Held rs b d e2 (circle_step-Held r c b e1 h)

pub circle_start-Held : (tg : TaskGraph) → Held (circle_start tg)
unfolding circle_start
circle_start-Held tg one = refl
circle_start-Held tg two = refl
circle_start-Held tg three = refl
circle_start-Held tg four = refl
