-- ===== src/DeadlockCheck/Circle/Tests.antt =====
-- The threads of deadlock_check/test.c in a few orders.
use linux_cpp_learn.Prelude.{
  ℕ, true, false, List, [], ◌∷◌, ◌++◌, Option, none, some, ◌≡◌, ◌≢◌, ◌⊎◌, ◌↔◌, refl, arith,
}
use linux_cpp_learn.Prelude.Int.{ℤ, pos}
use linux_cpp_learn.DeadlockCheck.{search_vertex}
use linux_cpp_learn.DeadlockCheck.Search.{Check, check_dead_lock}
use linux_cpp_learn.DeadlockCheck.Locks.{start_check}
use linux_cpp_learn.DeadlockCheck.Program.{step}
use linux_cpp_learn.DeadlockCheck.Circle.{
  Routine, one, two, three, four, asks_second, waits_second, through, Circle, circle_run,
  circle_start, routine_step, next_routine,
}
use linux_cpp_learn.DeadlockCheck.Circle.Standstill.{IsStuck, circle_standstill}
use linux_cpp_learn.DeadlockCheck.Circle.Found.{circle_found}

abbrev self : Routine → ℕ
self one = 11
self two = 12
self three = 13
self four = 14

abbrev address : Routine → ℕ
address one = 8
address two = 16
address three = 24
address four = 32

abbrev zeros : ℕ → ℤ
zeros i = pos 0

abbrev round : List Routine
round = one ∷ two ∷ three ∷ four ∷ []

-- Each thread gets its first mutex and sleeps.
abbrev before : List Routine
before = round ++ (round ++ round)

abbrev or_else : Option Circle → Circle → Circle
or_else none c = c
or_else (some d) c = d

unfoldable begin : Circle
unfolding circle_start start_check
begin = circle_start (start_check zeros)

unfoldable asleep : Circle
unfolding circle_run step search_vertex begin
asleep = or_else (circle_run self address before begin) begin

unfoldable stuck : Circle
unfolding circle_run step search_vertex asleep
stuck = or_else (circle_run self address round asleep) asleep

asleep-run : circle_run self address before (circle_start (start_check zeros)) ≡ some asleep
unfolding asleep
asleep-run = refl

stuck-run : circle_run self address round asleep ≡ some stuck
unfolding stuck
stuck-run = refl

all_asleep : (r : Routine) → asleep.stage r ≡ asks_second
unfolding asleep
all_asleep one = refl
all_asleep two = refl
all_asleep three = refl
all_asleep four = refl

stuck-IsStuck : IsStuck stuck
unfolding stuck routine_step next_routine
stuck-IsStuck one = refl
stuck-IsStuck two = refl
stuck-IsStuck three = refl
stuck-IsStuck four = refl

abbrev blank : Check
blank = record { visited = λ i. false; path = []; deadlock = false; printed = [] }

distinct : (r : Routine) → self r ≢ self (next_routine r)
unfolding next_routine
distinct one e = ground arith
distinct two e = ground arith
distinct three e = ground arith
distinct four e = ground arith

apart : (r q : Routine) → r ≢ q → address r ≢ address q
apart one one ne e = absurd (ne refl)
apart two two ne e = absurd (ne refl)
apart three three ne e = absurd (ne refl)
apart four four ne e = absurd (ne refl)
apart one two ne e = ground arith
apart one three ne e = ground arith
apart one four ne e = ground arith
apart two one ne e = ground arith
apart two three ne e = ground arith
apart two four ne e = ground arith
apart three one ne e = ground arith
apart three two ne e = ground arith
apart three four ne e = ground arith
apart four one ne e = ground arith
apart four two ne e = ground arith
apart four three ne e = ground arith

nonzero : (r : Routine) → address r ≢ 0
nonzero one e = ground arith
nonzero two e = ground arith
nonzero three e = ground arith
nonzero four e = ground arith

circle_found_example :
    (t : Check) × (check_dead_lock stuck.tg.vertex_list blank ≡ some t) × (t.deadlock ≡ true)
circle_found_example =
    circle_found self address distinct apart nonzero zeros before round asleep stuck blank
      asleep-run all_asleep stuck-run stuck-IsStuck

whole-run : circle_run self address (before ++ round) begin ≡ some stuck
unfolding stuck
whole-run = refl

circle_standstill_example :
    IsStuck stuck
    ↔ (((r : Routine) → stuck.stage r ≡ waits_second) ⊎ ((r : Routine) → stuck.stage r ≡ through))
unfolding begin
circle_standstill_example =
    circle_standstill self address (start_check zeros) (before ++ round) stuck whole-run

-- The first thread asks for the second mutex when the second thread has it and has not entered it.
abbrev too_soon : List Routine
too_soon =
    two ∷ two ∷ one ∷ one ∷ one ∷ one ∷ two ∷ three ∷ three ∷ three ∷ four ∷ four ∷ four ∷ two
    ∷ three ∷ four ∷ []

unfoldable missed : Circle
unfolding circle_run step search_vertex begin
missed = or_else (circle_run self address too_soon begin) begin

missed-IsStuck : IsStuck missed
unfolding missed routine_step next_routine
missed-IsStuck one = refl
missed-IsStuck two = refl
missed-IsStuck three = refl
missed-IsStuck four = refl

missed_unseen :
    (t : Check) × (check_dead_lock missed.tg.vertex_list blank ≡ some t) × (t.deadlock ≡ false)
unfolding missed check_dead_lock
missed_unseen = (_, refl, refl)

-- The first thread has the second mutex and gives it back; the second thread, which has asked for it,
-- gets it and enters itself before the first thread's unlock_after, which then empties the entry. When
-- the second thread gives the mutex back, unlock_after finds no entry.
abbrev wiped : List Routine
wiped =
    (one ∷ one ∷ one ∷ one ∷ one ∷ one ∷ [])
    ++ (two ∷ one ∷ two ∷ two ∷ one ∷ [])
    ++ (two ∷ two ∷ two ∷ two ∷ two ∷ two ∷ two ∷ [])

wiped_faults : circle_run self address wiped begin ≡ none
unfolding circle_run step search_vertex begin
wiped_faults = refl
