-- ===== src/Counters.antt =====
-- bagu/atmoic.cpp: two threads that count up a plain int, or an atomic one. An increment of the
-- atomic int is one step; one of the plain int is a load and a store, as a compiler translates it
-- (the language gives such a race no meaning). A schedule says whose turn it is.
pub mod Totals
mod Tests
use linux_cpp_learn.Prelude.{ℕ, zero, suc, ◌+◌, ◌-◌, ◌%◌, ◌^◌, List, [], ◌∷◌, Option, none, some}

-- The rounds that a thread has left, and the value that it loaded and has not stored yet.
pub record Worker : Type 0 where
  pub left : ℕ
  pub loaded : Option ℕ

pub record Sys : Type 0 where
  pub counter : ℕ
  pub t1 : Worker
  pub t2 : Worker

pub data Turn : Type 0 where
  first second : Turn

-- The next step of `work_normal` from the counter's value.
unfoldable pub load_or_store : ℕ → Worker → ℕ × Worker
load_or_store counter w = elim w.loaded [
  | some value ↦ (value + 1, record { left = w.left - 1; loaded = none })
  | none ↦ elim w.left [
    | zero ↦ (counter, w)
    | suc n ↦ (counter, record w { loaded = some counter })
  ]
]

-- A round of `work_atomic`; the atomic int wraps around, and stands here for its bits.
unfoldable pub fetch_add : ℕ → Worker → ℕ × Worker
fetch_add counter w = elim w.left [
  | zero ↦ (counter, w)
  | suc n ↦ ((counter + 1) % 2 ^ 32, record w { left = n })
]

-- One of the two threads makes the step.
unfoldable pub turn : (ℕ → Worker → ℕ × Worker) → Turn → Sys → Sys
turn work first s = let (counter, w) = work s.counter s.t1 in record s { counter = counter; t1 = w }
turn work second s =
    let (counter, w) = work s.counter s.t2 in record s { counter = counter; t2 = w }

unfoldable pub run : (ℕ → Worker → ℕ × Worker) → List Turn → Sys → Sys
unfolding turn
run work [] s = s
run work (a ∷ rest) s = run work rest (turn work a s)

-- Two threads with n rounds each at a counter.
abbrev pub start : ℕ → ℕ → Sys
start counter n = record {
  counter = counter;
  t1 = record { left = n; loaded = none };
  t2 = record { left = n; loaded = none };
}

-- The number of rounds in the source.
abbrev pub rounds : ℕ
rounds = 1000000
