-- ===== src/SharedPtr/System.antt =====
-- A program that makes, copies and drops counted pointers.
use linux_cpp_learn.Prelude.{ℕ, zero, suc, Bool, List, [], ◌∷◌, Option, none, some}
use linux_cpp_learn.SharedPtr.{Heap, Handle, make, copy, release}

-- `handles` are the counted pointers in scope, newest first.
pub record Sys : Type 0 where
  pub heap : Heap
  pub handles : List Handle

-- A new object, a copy of the i-th handle, and the end of the i-th handle's life.
pub data Action : Type 0 where
  makes : Action
  copies drops : ℕ → Action

unfoldable pub pick : ℕ → List Handle → Option (Handle × List Handle)
pick i [] = none
pick zero (x ∷ xs) = some (x, xs)
pick (suc i) (x ∷ xs) = elim (pick i xs) [ none ↦ none | some (y, rest) ↦ some (y, x ∷ rest) ]

unfoldable pub copy_picked : Sys → Option (Handle × List Handle) → Option Sys
copy_picked s none = some s
copy_picked s (some (x, rest)) = elim (copy s.heap x) [
  | none ↦ none
  | some (heap, y) ↦ some (record { heap = heap; handles = y ∷ s.handles })
]

unfoldable pub drop_picked : Sys → Option (Handle × List Handle) → Option Sys
drop_picked s none = some s
drop_picked s (some (x, rest)) = elim (release s.heap x) [
  | none ↦ none
  | some heap ↦ some (record { heap = heap; handles = rest })
]

-- `none` is a fault; an action on a handle that is not there does nothing.
unfoldable pub step : Action → Sys → Option Sys
unfolding pick copy_picked drop_picked make copy release
step makes s = let (heap, x) = make s.heap in some (record { heap = heap; handles = x ∷ s.handles })
step (copies i) s = copy_picked s (pick i s.handles)
step (drops i) s = drop_picked s (pick i s.handles)

unfoldable pub run : List Action → Sys → Option Sys
unfolding step
run [] s = some s
run (a ∷ rest) s = elim (step a s) [ none ↦ none | some t ↦ run rest t ]

abbrev pub empty_sys : Sys
empty_sys = record {
  heap = record { counts = λ _. none; alive = λ _. Bool.false; next = 0 };
  handles = [];
}
