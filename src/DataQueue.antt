-- ===== src/DataQueue.antt =====
-- bagu/thread.cpp: one producer and one consumer at a queue behind a mutex and a condition variable.
-- A pass through a critical section is one step, since all that it touches is behind the mutex; a
-- schedule is a list of steps, and theorems range over all schedules.
pub mod Values
pub mod Order
pub mod Finish
mod Tests
use linux_cpp_learn.Prelude.{ℕ, suc, ◌+◌, Bool, List, [], ◌∷◌, ◌++◌, ◌==◌, ltb, if◌then◌else◌}

-- Before its critical section, in the wait, or after its loop.
pub data Consumer : Type 0 where
  ready waiting left : Consumer

-- `data_queue`, the producer's i, and the consumer with the values it has taken.
pub record Sys : Type 0 where
  pub data_queue : List ℕ
  pub i : ℕ
  pub consumer : Consumer
  pub consumed : List ℕ

-- The number of rounds of the producer's loop, and the value after which the consumer leaves.
abbrev pub rounds : ℕ
rounds = 5

abbrev pub last_value : ℕ
last_value = 4

-- `notify_one`; the consumer is the only thread that waits.
unfoldable pub notify_one : Consumer → Consumer
notify_one ready = ready
notify_one waiting = ready
notify_one left = left

-- A round of `producer`; after its loop it does nothing.
unfoldable pub produce : Sys → Sys
unfolding notify_one
produce s =
    if ltb s.i rounds
    then record s {
      data_queue = s.data_queue ++ s.i ∷ [];
      i = suc s.i;
      consumer = notify_one s.consumer;
    }
    else s

-- The consumer with the mutex: the wait's predicate, then front, pop, and the test of the value.
unfoldable pub take : Sys → List ℕ → Sys
take s [] = record s { consumer = waiting }
take s (value ∷ rest) = record s {
  data_queue = rest;
  consumer = if value == last_value then left else ready;
  consumed = s.consumed ++ value ∷ [];
}

-- A round of `consumer`, which does nothing while it waits and after its loop.
unfoldable pub consume : Sys → Sys
unfolding take
consume s = elim s.consumer [ ready ↦ take s s.data_queue | waiting ↦ s | left ↦ s ]

-- What happens next: a round of a thread, or a wake-up that nobody sent.
pub data Action : Type 0 where
  produces consumes wakes : Action

unfoldable pub step : Action → Sys → Sys
unfolding produce consume notify_one
step produces s = produce s
step consumes s = consume s
step wakes s = record s { consumer = notify_one s.consumer }

unfoldable pub run : List Action → Sys → Sys
unfolding step
run [] s = s
run (a ∷ rest) s = run rest (step a s)

abbrev pub start : Sys
start = record { data_queue = []; i = 0; consumer = ready; consumed = [] }
