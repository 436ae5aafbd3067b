-- ===== src/LeakCheck/Faults.antt =====
-- Double frees and many calls under the hooks of memoryleak_check.
use linux_cpp_learn.Prelude.{
  ltb→lt, count, hit, ℕ, suc, ◌+◌, ◌≤◌, ◌<◌, ◌≡◌, refl, ap, ◌∙◌, List, [], ◌∷◌, true, false, none,
  some, ltb, if◌then◌else◌, arith, Bool-cases, Option-cases, inl, inr, ◌==◌,
}
use linux_cpp_learn.LeakCheck.{Hooks, Request, file_of, record_block, malloc, free}
use linux_cpp_learn.LeakCheck.Files.{
  File, has, without, write_file, unlink, has-write_file, has-without,
}
use linux_cpp_learn.LeakCheck.Macro.{Place, HookCall, Log, hook_file, malloc_hook, free_hook}
use linux_cpp_learn.LeakCheck.Program.{Call, mallocs, frees, released, count_mallocs}
use linux_cpp_learn.LeakCheck.Leaks.{run, inner_calls_off, malloc_lem, run_macro, empty_log}

run_hook_off :
    (limit : ℕ) (inner : List Request) (cs : List (Call Request)) (s : Hooks)
    → s.enable_malloc_hook ≡ true
    → s.enable_free_hook ≡ false
    → s.opened + count_mallocs cs ≤ limit
    → (s' : Hooks) × (run limit inner cs s ≡ some s')
      × (s'.freed ≡ released cs s.freed)
      × (s'.reported ≡ s.reported)
      × ((p : ℕ) → has p s.files ≡ true → has p s'.files ≡ true)
unfolding run free released count_mallocs
run_hook_off limit inner [] s on off space = (s, refl, refl, refl, λ p there. there)
run_hook_off limit inner (mallocs r ∷ cs) s on off space =
    let fs = write_file (file_of r) s.files in
    let s1 : Hooks = record s { files = fs; opened = suc s.opened } in
    let step = malloc_lem limit inner s r on (omega (arith, space)) in
    let (s', f, freed, reported, stays) =
      run_hook_off limit inner cs s1 on off (omega (arith, space)) in
    (
      s',
      ground (arith, step, f),
      freed,
      reported,
      λ p there. stays p (ground (arith, there, has-write_file p (file_of r) s.files)),
    )
run_hook_off limit inner (frees p ∷ cs) s on off space =
    let s1 : Hooks = record s { freed = p ∷ s.freed } in
    let step : free s p ≡ s1 = ground (arith, off) in
    let (s', f, freed, reported, stays) = run_hook_off limit inner cs s1 on off space in
    (s', ap (λ t. run limit inner cs t) step ∙ f, freed, reported, stays)

-- A free of an address with no file, such as NULL, is printed as a double free and leaves the free
-- hook off. From then on, whatever calls follow, where fopen succeeds often enough for their calls of
-- malloc: every address reaches the library's free, double frees too, none is printed, and no file is
-- removed, also those of blocks that are freed.
pub report_ends_hook :
    (limit : ℕ) (inner : List Request) (p : ℕ) (cs : List (Call Request)) (s : Hooks)
    → s.enable_malloc_hook ≡ true
    → s.enable_free_hook ≡ true
    → has p s.files ≡ false
    → s.opened + count_mallocs cs ≤ limit
    → (s' : Hooks) × (run limit inner (frees p ∷ cs) s ≡ some s')
      × (s'.freed ≡ released cs s.freed)
      × (s'.reported ≡ p ∷ s.reported)
      × ((q : ℕ) → has q s.files ≡ true → has q s'.files ≡ true)
unfolding run free unlink
report_ends_hook limit inner p cs s on_m on_f absent space =
    let s1 : Hooks = record s { enable_free_hook = false; reported = p ∷ s.reported } in
    let step : free s p ≡ s1 = ground (arith, on_f, absent) in
    let (s', f, freed, reported, stays) = run_hook_off limit inner cs s1 on_m refl space in
    (s', ap (λ t. run limit inner cs t) step ∙ f, freed, reported, stays)

free-opened :
    (s : Hooks) (p : ℕ)
    → ((free s p).opened ≡ s.opened) × ((free s p).enable_malloc_hook ≡ s.enable_malloc_hook)
unfolding free
free-opened s p = elim (Bool-cases s.enable_free_hook) [
  | inl on ↦ elim (Option-cases (unlink p s.files)) [
    | inl e ↦ (ground (arith, on, e), ground (arith, on, e))
    | inr (fs, e) ↦ (ground (arith, on, e), ground (arith, on, e))
  ]
  | inr off ↦ (ground (arith, off), ground (arith, off))
]

-- The directory's files stay open: where fopen succeeds `limit` times, a program that calls malloc
-- more often does not get through, whatever it frees in between.
pub run_out_of_files :
    (limit : ℕ) (inner : List Request) (cs : List (Call Request)) (s : Hooks)
    → s.enable_malloc_hook ≡ true
    → limit < s.opened + count_mallocs cs
    → s.opened ≤ limit
    → run limit inner cs s ≡ none
unfolding run malloc count_mallocs record_block
run_out_of_files limit inner [] s on over fits = absurd (omega (arith, over, fits))
run_out_of_files limit inner (mallocs r ∷ cs) s on over fits =
    elim (Bool-cases (ltb s.opened limit)) [
      | inl space ↦
          let s1 : Hooks = record s {
            files = write_file (file_of r) s.files;
            opened = suc s.opened;
          } in
          let step = malloc_lem limit inner s r on (ltb→lt s.opened limit space) in
          let ih =
            run_out_of_files limit inner cs s1 on (omega (arith, over))
              (ltb→lt s.opened limit space) in
          ground (arith, step, ih)
      | inr full ↦
          let off =
            inner_calls_off limit inner 0 inner (record s { enable_malloc_hook = false }) refl in
          ground (arith, on, off, full)
    ]
run_out_of_files limit inner (frees p ∷ cs) s on over fits =
    let (same, on') = free-opened s p in
    run_out_of_files limit inner cs (free s p) (on' ∙ on) (omega (arith, over, same))
      (omega (arith, fits, same))

-- How often malloc gave the address a.
unfoldable pub given : ℕ → List (Call HookCall) → ℕ
unfolding hit
given a [] = 0
given a (mallocs r ∷ cs) = hit a r.address + given a cs
given a (frees p ∷ cs) = given a cs

unlink-some :
    (p : ℕ) (fs gs : List (File Place))
    → unlink p fs ≡ some gs
    → (has p fs ≡ true) × (gs ≡ without p fs)
unfolding unlink
unlink-some p fs gs e = (ground (arith, e), ground (arith, e))

run_macro-bound :
    (a : ℕ) (cs : List (Call HookCall)) (s : Log)
    → count a (run_macro cs s).freed
      ≤ count a s.freed + (if has a s.files then 1 else 0) + given a cs
unfolding run_macro given count hit malloc_hook free_hook
run_macro-bound a [] s = omega arith
run_macro-bound a (mallocs r ∷ cs) s =
    let ih = run_macro-bound a cs (malloc_hook s r) in
    let now = has-write_file a (hook_file r) s.files in ground (arith, ih, now)
run_macro-bound a (frees p ∷ cs) s = elim (Option-cases (unlink p s.files)) [
  | inl e ↦
      let s1 : Log = record s { reported = p ∷ s.reported } in
      let step : free_hook s p ≡ s1 = ground (arith, e) in
      let same = ap (λ t. count a (run_macro cs t).freed) step in
      omega (arith, same, run_macro-bound a cs s1)
  | inr (fs, e) ↦
      let s1 : Log = record s { files = fs; freed = p ∷ s.freed } in
      let step : free_hook s p ≡ s1 = ground (arith, e) in
      let same = ap (λ t. count a (run_macro cs t).freed) step in
      let (there, gone) = unlink-some p s.files fs e in
      let still : has a fs ≡ (if a == p then false else has a s.files) =
        ap (has a) gone ∙ has-without a p s.files in
      let ih = run_macro-bound a cs s1 in
      elim (Bool-cases (a == p)) [
        | inl this ↦ ground (arith, this, still, there, same, ih)
        | inr other ↦ ground (arith, other, still, same, ih)
      ]
]

-- Under the macros, whatever a program calls, its own double frees too: no address reaches free more
-- often than malloc gave it.
pub run_macro_stops_doubles :
    (cs : List (Call HookCall)) (a : ℕ) → count a (run_macro cs empty_log).freed ≤ given a cs
unfolding has count
run_macro_stops_doubles cs a = omega (arith, run_macro-bound a cs empty_log)
