-- ===== src/LeakCheck/Leaks.antt =====
-- What is left in the directory by programs under the hooks of memoryleak_check.
use linux_cpp_learn.Prelude.{
  ℕ, suc, ◌+◌, ◌≤◌, ◌≡◌, refl, ap, ◌∙◌, List, [], ◌∷◌, Bool, true, false, Option, some, ◌>>=◌,
  arith, update,
}
use linux_cpp_learn.LeakCheck.{Hooks, Request, file_of, inner_calls, record_block, malloc, free}
use linux_cpp_learn.LeakCheck.Files.{has, without, write_file, unlink}
use linux_cpp_learn.LeakCheck.Macro.{HookCall, Log, hook_file, malloc_hook, free_hook}
use linux_cpp_learn.LeakCheck.Program.{
  Call, mallocs, frees, leaked, kept, is_fair, released, count_mallocs, files_after, Uses,
  Uses-write_file, Uses-without, files_after-leaked,
}

-- The calls under dlsym_hook.c, with malloc calls two deep.
unfoldable pub run : (limit : ℕ) → List Request → List (Call Request) → Hooks → Option Hooks
unfolding malloc free
run limit inner [] s = some s
run limit inner (mallocs r ∷ cs) s = do s' ← malloc limit inner 2 s r; run limit inner cs s'
run limit inner (frees p ∷ cs) s = run limit inner cs (free s p)

abbrev pub start : Hooks
start = record {
  enable_malloc_hook = true;
  enable_free_hook = true;
  files = [];
  opened = 0;
  freed = [];
  reported = [];
}

pub inner_calls_off :
    (limit : ℕ) (inner : List Request) (fuel : ℕ) (rs : List Request) (s : Hooks)
    → s.enable_malloc_hook ≡ false
    → inner_calls (malloc limit inner (suc fuel)) rs s ≡ some s
unfolding inner_calls malloc
inner_calls_off limit inner fuel [] s off = refl
inner_calls_off limit inner fuel (r ∷ rs) s off =
    ground (arith, off, inner_calls_off limit inner fuel rs s off)

-- malloc with a file free to be opened.
pub malloc_lem :
    (limit : ℕ) (inner : List Request) (s : Hooks) (r : Request)
    → s.enable_malloc_hook ≡ true
    → suc s.opened ≤ limit
    → malloc limit inner 2 s r
      ≡ some (record s { files = write_file (file_of r) s.files; opened = suc s.opened })
unfolding malloc record_block
malloc_lem limit inner s r on space =
    let off = inner_calls_off limit inner 0 inner (record s { enable_malloc_hook = false }) refl in
    ground (arith, on, off, space)

free_lem :
    (s : Hooks) (p : ℕ)
    → s.enable_free_hook ≡ true
    → has p s.files ≡ true
    → free s p ≡ record s { files = without p s.files; freed = p ∷ s.freed }
unfolding free unlink
free_lem s p on there = ground (arith, on, there)

run-files_after :
    (limit : ℕ) (inner : List Request) (used : ℕ → Bool) (cs : List (Call Request)) (s : Hooks)
    → is_fair file_of used cs ≡ true
    → Uses file_of used s.files
    → s.enable_malloc_hook ≡ true
    → s.enable_free_hook ≡ true
    → s.opened + count_mallocs cs ≤ limit
    → (s' : Hooks) × (run limit inner cs s ≡ some s')
      × (s'.files ≡ files_after file_of s.files cs)
      × (s'.freed ≡ released cs s.freed)
      × (s'.reported ≡ s.reported)
unfolding run files_after released count_mallocs is_fair Uses
run-files_after limit inner used [] s e u on_m on_f space = (s, refl, refl, refl, refl)
run-files_after limit inner used (mallocs r ∷ cs) s e u on_m on_f space =
    let s1 : Hooks = record s { files = write_file (file_of r) s.files; opened = suc s.opened } in
    let step = malloc_lem limit inner s r on_m (omega (arith, space)) in
    let (s', f, files, freed, reported) =
      run-files_after limit inner (update used r.address true) cs s1 (ground (arith, e))
        (Uses-write_file file_of used s.files r u) on_m on_f (omega (arith, space)) in
    (s', ground (arith, step, f), files, freed, reported)
run-files_after limit inner used (frees p ∷ cs) s e u on_m on_f space =
    let s1 : Hooks = record s { files = without p s.files; freed = p ∷ s.freed } in
    let there : has p s.files ≡ true = ground (arith, e, u p) in
    let step : free s p ≡ s1 = free_lem s p on_f there in
    let (s', f, files, freed, reported) =
      run-files_after limit inner (update used p false) cs s1 (ground (arith, e))
        (Uses-without file_of used s.files p u) on_m on_f space in
    (s', ap (λ t. run limit inner cs t) step ∙ f, files, freed, reported)

-- A program that frees only what is in use, where malloc never gives an address in use, and fopen
-- succeeds `limit` times at least, which is no less than the program's calls of malloc, whatever calls
-- of malloc fopen makes itself: all calls return, each free reaches the library, nothing is reported,
-- and the files are those of the blocks never freed, each with the size and the place of its call.
pub run_lists_leaks :
    (limit : ℕ) (inner : List Request) (cs : List (Call Request))
    → is_fair file_of (λ p. false) cs ≡ true
    → count_mallocs cs ≤ limit
    → (s : Hooks) × (run limit inner cs start ≡ some s)
      × (s.files ≡ leaked file_of cs)
      × (s.freed ≡ released cs [])
      × (s.reported ≡ [])
unfolding Uses has kept
run_lists_leaks limit inner cs e space =
    let (s, f, files, freed, reported) =
      run-files_after limit inner (λ p. false) cs start e (λ p. refl) refl refl
        (omega (arith, space)) in
    (s, f, files ∙ files_after-leaked file_of (λ p. false) [] cs e (λ p. refl), freed, reported)

-- The calls under macro_hook.c.
unfoldable pub run_macro : List (Call HookCall) → Log → Log
unfolding malloc_hook free_hook
run_macro [] s = s
run_macro (mallocs r ∷ cs) s = run_macro cs (malloc_hook s r)
run_macro (frees p ∷ cs) s = run_macro cs (free_hook s p)

abbrev pub empty_log : Log
empty_log = record { files = []; freed = []; reported = [] }

free_hook_lem :
    (s : Log) (p : ℕ)
    → has p s.files ≡ true
    → free_hook s p ≡ record s { files = without p s.files; freed = p ∷ s.freed }
unfolding free_hook unlink
free_hook_lem s p there = ground (arith, there)

run_macro-files_after :
    (used : ℕ → Bool) (cs : List (Call HookCall)) (s : Log)
    → is_fair hook_file used cs ≡ true
    → Uses hook_file used s.files
    → ((run_macro cs s).files ≡ files_after hook_file s.files cs)
      × ((run_macro cs s).freed ≡ released cs s.freed)
      × ((run_macro cs s).reported ≡ s.reported)
unfolding run_macro malloc_hook files_after released is_fair Uses
run_macro-files_after used [] s e u = (refl, refl, refl)
run_macro-files_after used (mallocs r ∷ cs) s e u =
    run_macro-files_after (update used r.address true) cs (malloc_hook s r) (ground (arith, e))
      (Uses-write_file hook_file used s.files r u)
run_macro-files_after used (frees p ∷ cs) s e u =
    let s1 : Log = record s { files = without p s.files; freed = p ∷ s.freed } in
    let there : has p s.files ≡ true = ground (arith, e, u p) in
    let step : free_hook s p ≡ s1 = free_hook_lem s p there in
    rw (run_macro, step)
      (run_macro-files_after (update used p false) cs s1 (ground (arith, e))
        (Uses-without hook_file used s.files p u))

-- The same of the macros, whatever the number of calls.
pub run_macro_lists_leaks :
    (cs : List (Call HookCall))
    → is_fair hook_file (λ p. false) cs ≡ true
    → ((run_macro cs empty_log).files ≡ leaked hook_file cs)
      × ((run_macro cs empty_log).freed ≡ released cs [])
      × ((run_macro cs empty_log).reported ≡ [])
unfolding Uses has kept
run_macro_lists_leaks cs e =
    let (files, freed, reported) = run_macro-files_after (λ p. false) cs empty_log e (λ p. refl) in
    (files ∙ files_after-leaked hook_file (λ p. false) [] cs e (λ p. refl), freed, reported)
