-- ===== src/LeakCheck/Tests.antt =====
-- The program of memoryleak_check, and a few others, under the hooks.
use linux_cpp_learn.Prelude.{ℕ, ◌≤◌, ◌≡◌, refl, List, [], ◌∷◌, true, some, none, arith, count}
use linux_cpp_learn.LeakCheck.{Hooks, Request, file_of}
use linux_cpp_learn.LeakCheck.Files.{has}
use linux_cpp_learn.LeakCheck.Macro.{Place, HookCall}
use linux_cpp_learn.LeakCheck.Program.{
  Call, mallocs, frees, leaked, is_fair, released, count_mallocs,
}
use linux_cpp_learn.LeakCheck.Leaks.{run, start, run_lists_leaks, run_macro, empty_log}
use linux_cpp_learn.LeakCheck.Faults.{
  report_ends_hook, run_out_of_files, given, run_macro_stops_doubles,
}

-- A call from the address 20480 in code that lies at 16384.
abbrev request : ℕ → ℕ → Request
request bytes p = record { bytes = bytes; caller = 20480; address = p; l_addr = 16384 }

-- `main` of dlsym_hook.c, where malloc gives p1, p2 and p3
abbrev main_calls : (p1 p2 p3 : ℕ) → List (Call Request)
main_calls p1 p2 p3 =
    mallocs (request 10 p1)
    ∷ mallocs (request 15 p2)
    ∷ mallocs (request 20 p3)
    ∷ frees p2
    ∷ frees p3
    ∷ []

-- fopen's own calls of malloc.
abbrev inner : List Request
inner = request 472 900 ∷ request 4096 1000 ∷ []

main_leaks :
    leaked file_of (main_calls 100 200 300) ≡ record { name = 100; place = 4096; size = 10 } ∷ []
unfolding leaked file_of
main_leaks = refl

run_lists_leaks_example :
    (s : Hooks) × (run 1020 inner (main_calls 100 200 300) start ≡ some s)
    × (s.files ≡ leaked file_of (main_calls 100 200 300))
    × (s.freed ≡ released (main_calls 100 200 300) [])
    × (s.reported ≡ [])
unfolding is_fair file_of count_mallocs
run_lists_leaks_example = run_lists_leaks 1020 inner (main_calls 100 200 300) refl (omega arith)

-- After free(NULL), a block is taken and freed twice.
report_ends_hook_example :
    (s : Hooks) × (run 1020 inner
        (frees 0 ∷ mallocs (request 10 100) ∷ frees 100 ∷ frees 100 ∷ [])
        start
      ≡ some s)
    × (s.freed ≡ released (mallocs (request 10 100) ∷ frees 100 ∷ frees 100 ∷ []) [])
    × (s.reported ≡ 0 ∷ [])
    × ((q : ℕ) → has q start.files ≡ true → has q s.files ≡ true)
unfolding has count_mallocs
report_ends_hook_example =
    report_ends_hook 1020 inner 0 (mallocs (request 10 100) ∷ frees 100 ∷ frees 100 ∷ []) start refl
      refl refl (omega arith)

-- Two files can be opened.
third_file_refused : run 2 inner (main_calls 100 200 300) start ≡ none
unfolding count_mallocs
third_file_refused =
    run_out_of_files 2 inner (main_calls 100 200 300) start refl (omega arith) (omega arith)

abbrev call_place : Place
call_place = record { file = 97 ∷ []; func = 98 ∷ []; line = 44 }

abbrev twice : List (Call HookCall)
twice =
    mallocs (record { bytes = 10; place = call_place; address = 100 }) ∷ frees 100 ∷ frees 100 ∷ []

run_macro_stops_doubles_example : count 100 (run_macro twice empty_log).freed ≤ given 100 twice
run_macro_stops_doubles_example = run_macro_stops_doubles twice 100
