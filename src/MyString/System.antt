-- ===== src/MyString/System.antt =====
-- A program over string objects, and what it should do to their strings.
use linux_cpp_learn.Prelude.{
  update, ℕ, ◌+◌, ◌*◌, ◌≤◌, ◌<◌, ◌^◌, List, [], ◌∷◌, ◌++◌, Option, none, some, ◌==◌, length, ◌≡◌,
  false,
}
use linux_cpp_learn.MyString.{
  Store, Source, null, outside, inside, construct, construct_from, construct_copy, destroy, assign,
  assign_from, append,
}
use linux_cpp_learn.MyString.Memory.{Cell, read_string, drop}
use linux_cpp_learn.MyString.Represents.{Strings}

-- A `const char *` as a program writes it: null, an array of its own, or `c_str()` of the object j
-- and an offset.
pub data Text : Type 0 where
  nullptr : Text
  array : List Cell → Text
  c_str : ℕ → ℕ → Text

unfoldable pub resolve : Store → Text → Source
resolve s nullptr = null
resolve s (array cells) = outside cells
resolve s (c_str j k) = elim (s.object j) [
  | none ↦ null
  | some x ↦ elim x.data_block [ none ↦ null | some b ↦ inside b k ]
]

pub data Action : Type 0 where
  makes destroys : ℕ → Action
  makes_from assigns_from : ℕ → Text → Action
  makes_copy assigns appends : ℕ → ℕ → Action

unfoldable pub step : Action → Store → Option Store
unfolding resolve construct construct_from construct_copy destroy assign assign_from append
step (makes i) s = construct s i
step (destroys i) s = destroy s i
step (makes_from i src) s = construct_from s i (resolve s src)
step (assigns_from i src) s = assign_from s i (resolve s src)
step (makes_copy i j) s = construct_copy s i j
step (assigns i j) s = assign s i j
step (appends i j) s = append s i j

unfoldable pub run : List Action → Store → Option Store
unfolding step
run [] s = some s
run (a ∷ rest) s = elim (step a s) [ none ↦ none | some t ↦ run rest t ]

-- What a `const char *` says, where it says something.
pub data Says (v : Strings) : Text → List ℕ → Type 0 where
  array_says :
      {cells : List Cell} {w : List ℕ} → read_string cells ≡ some w → Says v (array cells) w
  c_str_says : {j k : ℕ} {w : List ℕ} → v j ≡ some w → k ≤ length w → Says v (c_str j k) (drop k w)

-- The text does not point into the object i.
abbrev pub IsForeign : ℕ → Text → Type 0
IsForeign i nullptr = Unit
IsForeign i (array cells) = Unit
IsForeign i (c_str j k) = (i == j) ≡ false

-- A string that an unsigned length can count with its terminator.
abbrev pub IsSmall : List ℕ → Type 0
IsSmall w = length w + 1 < 2 ^ 32

-- What an action does to the strings, by value: what it asks of the program, and the outcome.
pub data Does (v : Strings) : Action → Strings → Type 0 where
  does_make : {i : ℕ} → v i ≡ none → Does v (makes i) (update v i (some []))
  does_make_null : {i : ℕ} → v i ≡ none → Does v (makes_from i nullptr) (update v i (some []))
  does_make_from :
      {i : ℕ} {src : Text} {w : List ℕ}
      → v i ≡ none
      → Says v src w
      → IsSmall w
      → Does v (makes_from i src) (update v i (some w))
  does_make_copy :
      {i j : ℕ} {w : List ℕ}
      → v i ≡ none
      → v j ≡ some w
      → Does v (makes_copy i j) (update v i (some w))
  does_destroy : {i : ℕ} {w : List ℕ} → v i ≡ some w → Does v (destroys i) (update v i none)
  does_assign :
      {i j : ℕ} {u w : List ℕ}
      → v i ≡ some u
      → v j ≡ some w
      → Does v (assigns i j) (update v i (some w))
  does_assign_from :
      {i : ℕ} {src : Text} {u w : List ℕ}
      → v i ≡ some u
      → IsForeign i src
      → Says v src w
      → IsSmall w
      → Does v (assigns_from i src) (update v i (some w))
  does_append :
      {i j : ℕ} {u w : List ℕ}
      → (i == j) ≡ false
      → v i ≡ some u
      → v j ≡ some w
      → length u + 2 * length w + 1 < 2 ^ 32
      → Does v (appends i j) (update v i (some (u ++ w)))
  does_append_self :
      {i : ℕ} {u : List ℕ}
      → v i ≡ some u
      → 4 * length u + 1 < 2 ^ 32
      → Does v (appends i i) (update v i (some (u ++ u)))

pub data Runs : Strings → List Action → Strings → Type 0 where
  done : {v : Strings} → Runs v [] v
  does :
      {v u w : Strings} {a : Action} {rest : List Action}
      → Does v a u
      → Runs u rest w
      → Runs v (a ∷ rest) w

abbrev pub empty_store : Store
empty_store = record { block = λ b. none; next = 0; object = λ i. none }
