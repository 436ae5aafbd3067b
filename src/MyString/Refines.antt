-- ===== src/MyString/Refines.antt =====
-- Programs over the strings of bagu/simpleString.cpp against the same operations on values.
use linux_cpp_learn.Prelude.{
  ℕ, List, none, some, length, ◌≡◌, ◌≤◌, get_elem?, refl, arith, ==_iff, Option-cases, inl, inr,
}
use linux_cpp_learn.MyString.{Store, construct_from, char_at}
use linux_cpp_learn.MyString.Memory.{read_string-get_elem?, terminated}
use linux_cpp_learn.MyString.Represents.{Strings, Represents}
use linux_cpp_learn.MyString.Operations.{
  construct-Represents, construct_from-Represents, construct_copy-Represents, destroy-Represents,
}
use linux_cpp_learn.MyString.Assignments.{assign-Represents, assign_from-Represents}
use linux_cpp_learn.MyString.PlusAssign.{append-other, append-same}
use linux_cpp_learn.MyString.System.{
  Action, step, run, resolve, Does, does_make, does_make_null, does_make_from, does_make_copy,
  does_destroy, does_assign, does_assign_from, does_append, does_append_self, Runs, done, does,
  empty_store,
}

-- No object lives.
abbrev pub no_strings : Strings
no_strings i = none

empty_store-Represents : Represents no_strings empty_store
empty_store-Represents = record {
  held = λ i w e. cc;
  absent = λ i e. refl;
  apart = λ i j b p q. cc;
  owned = λ b cells e. cc;
}

step_refines :
    (v v' : Strings) (s : Store) (a : Action)
    → Represents v s
    → Does v a v'
    → (t : Store) × (step a s ≡ some t) × Represents v' t
unfolding step construct_from resolve
step_refines v v' s a h (does_make {i = i} new) = construct-Represents v s h i new
step_refines v v' s a h (does_make_null {i = i} new) = construct-Represents v s h i new
step_refines v v' s a h (does_make_from {i = i} {src = src} {w = w} new says small) =
    construct_from-Represents v s h i src w new says small
step_refines v v' s a h (does_make_copy {i = i} {j = j} {w = w} new e) =
    construct_copy-Represents v s h i j w new e
step_refines v v' s a h (does_destroy {i = i} {w = w} e) = destroy-Represents v s h i w e
step_refines v v' s a h (does_assign {i = i} {j = j} {u = u} {w = w} e f) =
    assign-Represents v s h i u (h.held i u e) j w f
step_refines v v' s a h
      (does_assign_from {i = i} {src = src} {u = u} {w = w} e foreign says small) =
    assign_from-Represents v s h i u (h.held i u e) src w foreign says small
step_refines v v' s a h (does_append {i = i} {j = j} {u = u} {w = w} differ e f small) =
    append-other v s h i j u w (h.held i u e) (h.held j w f) differ small
step_refines v v' s a h (does_append_self {i = i} {u = u} e small) =
    append-same v s h i i u u (h.held i u e) (h.held i u e) ((==_iff i i).1 refl) (omega arith)

run_refines_of_Represents :
    (acts : List Action) (v v' : Strings) (s : Store)
    → Represents v s
    → Runs v acts v'
    → (t : Store) × (run acts s ≡ some t) × Represents v' t
unfolding run
run_refines_of_Represents acts v v' s h done = (s, refl, h)
run_refines_of_Represents acts v v' s h (does {u = u} {a = a} {rest = rest} p q) =
    let (t, e, r) = step_refines v u s a h p in
    let (z, f, g) = run_refines_of_Represents rest u v' t r q in (z, ground (arith, e, f), g)

-- A program that starts with no objects, and does with them what C++ and the sizes of unsigned
-- allow (no use of an object before its construction or after its end, no assignment of a text that
-- points into the assigned object, no `+=` whose new block is 2 ^ 32 long or more), runs without a
-- fault, and at its end the store holds exactly the strings that the same operations on values give.
pub run_refines :
    (acts : List Action) (v : Strings)
    → Runs no_strings acts v
    → (t : Store) × (run acts empty_store ≡ some t) × Represents v t
run_refines acts v r =
    run_refines_of_Represents acts no_strings v empty_store empty_store-Represents r

-- If such a program has ended the life of every object, then it ran without a fault and every block
-- was deleted.
pub run_frees_all :
    (acts : List Action) (v : Strings)
    → Runs no_strings acts v
    → ((i : ℕ) → v i ≡ none)
    → (t : Store) × (run acts empty_store ≡ some t) × ((b : ℕ) → t.block b ≡ none)
run_frees_all acts v r gone =
    let (t, e, h) = run_refines acts v r in
    (
      t,
      e,
      λ b. elim (Option-cases (t.block b)) [
        | inl f ↦ f
        | inr (cells, f) ↦
            let (i, (n, g)) = h.owned b cells f in absurd (ground (arith, h.absent i (gone i)))
      ],
    )

-- In a store that holds given strings, `operator[]` on an object finds the characters of its string
-- and the 0 behind them.
pub char_at_lem :
    (v : Strings) (s : Store) (i k : ℕ) (w : List ℕ)
    → Represents v s
    → v i ≡ some w
    → k ≤ length w
    → char_at s i k ≡ get_elem? (terminated w) k
unfolding char_at
char_at_lem v s i k w h e le =
    let x = h.held i w e in
    ground (arith, x.fields, x.stored, read_string-get_elem? x.cells w k x.reads le)
