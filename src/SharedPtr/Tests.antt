-- ===== src/SharedPtr/Tests.antt =====
-- The run of main() in simpleShared_ptr.cpp.
use mathlib.Core.Option
use linux_cpp_learn.Prelude.{ℕ, List, [], ◌∷◌, some, ◌≡◌, refl, ltb}
use linux_cpp_learn.SharedPtr.{Handle, use_count}
use linux_cpp_learn.SharedPtr.System.{Sys, Action, makes, copies, drops, run, empty_sys}
use linux_cpp_learn.SharedPtr.Counts.{sharers, tally, run_without_fault}

-- ptr1, then ptr2 and ptr3, which go first.
abbrev main_run : List Action
main_run = makes ∷ copies 0 ∷ copies 0 ∷ drops 0 ∷ drops 0 ∷ []

abbrev ptr1 : Handle
ptr1 = record { ptr = 0; count = 0 }

use_count_inner :
    Option.bind (run (makes ∷ copies 0 ∷ copies 0 ∷ []) empty_sys) (λ s. use_count s.heap ptr1)
    ≡ some 3
unfolding Option.bind run use_count
use_count_inner = refl

use_count_outer : Option.bind (run main_run empty_sys) (λ s. use_count s.heap ptr1) ≡ some 1
unfolding Option.bind run use_count
use_count_outer = refl

run_without_fault_example :
    (t : Sys) × (run main_run empty_sys ≡ some t)
    × ((k : ℕ) → t.heap.counts k ≡ tally (sharers k t.handles))
    × ((k : ℕ) → t.heap.alive k ≡ ltb 0 (sharers k t.handles))
run_without_fault_example = run_without_fault main_run
