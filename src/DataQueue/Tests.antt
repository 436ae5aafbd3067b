-- ===== src/DataQueue/Tests.antt =====
-- Schedules of the producer and the consumer.
use linux_cpp_learn.Prelude.{List, [], ◌∷◌, ◌++◌, ◌≡◌, ◌≤◌, refl, replicate}
use linux_cpp_learn.DataQueue.{
  left, Action, produces, consumes, wakes, run, step, start, produce, consume, take, notify_one,
  rounds,
}
use linux_cpp_learn.DataQueue.Values.{below}
use linux_cpp_learn.DataQueue.Finish.{run_order, run_finishes}

-- The consumer waits first, and again in between.
abbrev some_acts : List Action
some_acts = consumes ∷ produces ∷ produces ∷ consumes ∷ wakes ∷ consumes ∷ consumes ∷ []

some_acts_consumed : (run some_acts start).consumed ≡ 0 ∷ 1 ∷ []
unfolding run step produce consume take notify_one
some_acts_consumed = refl

run_order_example :
    let s = run some_acts start in (s.consumed ++ s.data_queue ≡ below s.i) × (s.i ≤ rounds)
run_order_example = run_order some_acts

abbrev all_acts : List Action
all_acts = some_acts ++ replicate 3 produces ++ replicate 3 consumes

all_acts_left : (run all_acts start).consumer ≡ left
unfolding run step produce consume take notify_one
all_acts_left = refl

run_finishes_example :
    (run (some_acts ++ replicate rounds produces ++ replicate rounds consumes) start).consumer
    ≡ left
run_finishes_example = run_finishes some_acts
