-- ===== src/Counters/Tests.antt =====
-- Schedules of the two counting threads.
use linux_cpp_learn.Prelude.{List, [], ◌∷◌, ◌+◌, ◌*◌, ◌≤◌, ◌<◌, ◌^◌, ◌≡◌, refl, arith}
use linux_cpp_learn.Counters.{Turn, first, second, load_or_store, fetch_add, turn, run, start}
use linux_cpp_learn.Counters.Totals.{atomic_counts_all, normal_counts_at_most}

abbrev turns : List Turn
turns = first ∷ second ∷ second ∷ first ∷ second ∷ []

turns_done1 : (run fetch_add turns (start 0 2)).t1.left ≡ 0
unfolding run turn fetch_add
turns_done1 = refl

turns_done2 : (run fetch_add turns (start 0 2)).t2.left ≡ 0
unfolding run turn fetch_add
turns_done2 = refl

atomic_counts_all_example : ((run fetch_add turns (start 0 2)).counter ≡ 2 * 2) × (2 * 2 < 2 ^ 31)
atomic_counts_all_example = atomic_counts_all 2 turns (omega arith) turns_done1 turns_done2

two_rounds_counted :
    let s = run load_or_store turns (start 0 2) in
    (s.counter + (s.t1.left + s.t2.left) ≤ 2 * 2) × (s.counter < 2 ^ 31)
two_rounds_counted = normal_counts_at_most 2 turns (omega arith)
