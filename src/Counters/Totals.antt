-- ===== src/Counters/Totals.antt =====
-- What the counters come to.
use linux_cpp_learn.Prelude.{
  ℕ, zero, suc, ◌+◌, ◌*◌, ◌≤◌, ◌<◌, List, [], ◌∷◌, some, ◌≡◌, refl, arith, ap, ◌∙◌, ◌^◌,
  Option-cases, inl, inr,
}
use linux_cpp_learn.Counters.{
  Worker, Sys, Turn, first, second, load_or_store, fetch_add, turn, run, start, rounds,
}

abbrev total : Sys → ℕ
total s = s.counter + (s.t1.left + s.t2.left)

turn-total : (a : Turn) (s : Sys) → total s < 2 ^ 31 → total (turn fetch_add a s) ≡ total s
unfolding turn fetch_add
turn-total first s h = ground (arith, h)
turn-total second s h = ground (arith, h)

run-total : (acts : List Turn) (s : Sys) → total s < 2 ^ 31 → total (run fetch_add acts s) ≡ total s
unfolding run
run-total [] s h = refl
run-total (a ∷ rest) s h =
    let same = turn-total a s h in
    run-total rest (turn fetch_add a s) (omega (arith, same, h)) ∙ same

-- With the atomic counter and two threads of n rounds each, where n is at most the source's million:
-- after any schedule at whose end both threads are done, the counter, which wraps around at 2 ^ 32, is
-- the number of all rounds, and that is within an int.
pub atomic_counts_all :
    (n : ℕ) (acts : List Turn)
    → n ≤ rounds
    → (run fetch_add acts (start 0 n)).t1.left ≡ 0
    → (run fetch_add acts (start 0 n)).t2.left ≡ 0
    → ((run fetch_add acts (start 0 n)).counter ≡ 2 * n) × (2 * n < 2 ^ 31)
atomic_counts_all n acts few e f =
    let all = run-total acts (start 0 n) (omega (arith, few)) in
    (omega (arith, all, e, f), omega (arith, few))

-- A value that a thread loaded leaves room for the thread's round.
abbrev Fits : ℕ → ℕ → Worker → Type 0
Fits all others w =
    (value : ℕ) → w.loaded ≡ some value → (value + (w.left + others) ≤ all) × (0 < w.left)

record Bounded (all : ℕ) (s : Sys) : Type 0 where
  counted : total s ≤ all
  fits1 : Fits all s.t2.left s.t1
  fits2 : Fits all s.t1.left s.t2

-- A step of the worker w beside the worker o.
module _ (all counter : ℕ) (w o : Worker) (counted : counter + (w.left + o.left) ≤ all)
    (own : Fits all o.left w) (others : Fits all w.left o) where
  load_or_store-counted :
      (load_or_store counter w).0 + ((load_or_store counter w).1.left + o.left) ≤ all
  unfolding load_or_store
  load_or_store-counted = elim (Option-cases w.loaded) [
    | inl e ↦ ground arith
    | inr (value, e) ↦ ground (arith, own value e)
  ]

  load_or_store-own : Fits all o.left (load_or_store counter w).1
  unfolding load_or_store
  load_or_store-own = λ v f. elim (Option-cases w.loaded) [
    | inl e ↦ ground arith
    | inr (value, e) ↦ absurd (ground arith)
  ]

  load_or_store-others : Fits all (load_or_store counter w).1.left o
  unfolding load_or_store
  load_or_store-others = λ v f. elim (Option-cases w.loaded) [
    | inl e ↦ ground (arith, others v f)
    | inr (value, e) ↦ ground (arith, others v f)
  ]

turn-Bounded : (all : ℕ) (a : Turn) (s : Sys) → Bounded all s → Bounded all (turn load_or_store a s)
unfolding turn
turn-Bounded all first s b = record {
  counted = load_or_store-counted all s.counter s.t1 s.t2 b.counted b.fits1 b.fits2;
  fits1 = load_or_store-own all s.counter s.t1 s.t2 b.counted b.fits1 b.fits2;
  fits2 = load_or_store-others all s.counter s.t1 s.t2 b.counted b.fits1 b.fits2;
}
turn-Bounded all second s b =
    let c : s.counter + (s.t2.left + s.t1.left) ≤ all = omega (arith, b.counted) in
    record {
      counted = omega (arith, load_or_store-counted all s.counter s.t2 s.t1 c b.fits2 b.fits1);
      fits1 = load_or_store-others all s.counter s.t2 s.t1 c b.fits2 b.fits1;
      fits2 = load_or_store-own all s.counter s.t2 s.t1 c b.fits2 b.fits1;
    }

run-Bounded :
    (all : ℕ) (acts : List Turn) (s : Sys) → Bounded all s → Bounded all (run load_or_store acts s)
unfolding run
run-Bounded all [] s b = b
run-Bounded all (a ∷ rest) s b =
    run-Bounded all rest (turn load_or_store a s) (turn-Bounded all a s b)

-- With the plain counter and two threads of n rounds each, where n is at most the source's million:
-- after any schedule, the counter is at most the number of all rounds, less those that the two
-- threads have left, and it has not overflowed an int.
pub normal_counts_at_most :
    (n : ℕ) (acts : List Turn)
    → n ≤ rounds
    → let s = run load_or_store acts (start 0 n) in
      (s.counter + (s.t1.left + s.t2.left) ≤ 2 * n) × (s.counter < 2 ^ 31)
normal_counts_at_most n acts h =
    let b =
      run-Bounded (2 * n) acts (start 0 n)
        (record { counted = omega arith; fits1 = λ v e. cc; fits2 = λ v e. cc }) in
    (b.counted, omega (arith, b.counted))

-- Each thread loads, then each stores, n times.
abbrev pub lockstep : ℕ → List Turn
lockstep zero = []
lockstep (suc n) = first ∷ second ∷ first ∷ second ∷ lockstep n

-- With the plain counter, two threads with n rounds each that take turns step by step are done after
-- n of these turns, and the counter has grown by n, half of their rounds.
pub normal_loses_half :
    (n counter : ℕ) → run load_or_store (lockstep n) (start counter n) ≡ start (counter + n) 0
unfolding run turn load_or_store
normal_loses_half zero counter = ap (λ (c : ℕ). start c 0) (omega arith)
normal_loses_half (suc n) counter =
    ap (λ (k : ℕ). run load_or_store (lockstep n) (start (counter + 1) k)) (omega arith)
    ∙ normal_loses_half n (counter + 1)
    ∙ ap (λ (c : ℕ). start c 0) (omega arith)
