-- ===== src/MyString/Memory.antt =====
-- Arrays of characters, and what the C string functions that bagu/simpleString.cpp calls do to them.
-- A character that nothing was written to is `none`.
use linux_cpp_learn.Prelude.{
  ℕ, zero, suc, ◌+◌, ◌<◌, ◌≤◌, List, [], ◌∷◌, ◌++◌, Option, none, some, ◌==◌, if◌then◌else◌, map,
  length, get_elem?, All, ◌≡◌, ◌≢◌, refl, ap, arith, Option-cases, inl, inr,
}

abbrev pub Cell : Type 0
Cell = Option ℕ

-- strlen's and strcpy's view: the characters before the first 0, which must exist.
unfoldable pub read_string : List Cell → Option (List ℕ)
read_string [] = none
read_string (none ∷ cs) = none
read_string (some b ∷ cs) =
    let rest = read_string cs in
    if b == 0 then some [] else elim rest [ none ↦ none | some w ↦ some (b ∷ w) ]

unfoldable pub drop {ℓ} : {A : Type ℓ} → ℕ → List A → List A
drop zero xs = xs
drop (suc k) [] = []
drop (suc k) (x ∷ xs) = drop k xs

-- The characters that strcpy and strcat write.
unfoldable pub terminated : List ℕ → List Cell
terminated w = map some w ++ some 0 ∷ []

-- The array with `vs` written from index k on.
unfoldable pub write_at : ℕ → List Cell → List Cell → Option (List Cell)
write_at zero [] cs = some cs
write_at zero (v ∷ vs) [] = none
write_at zero (v ∷ vs) (c ∷ cs) = elim (write_at zero vs cs) [
  | none ↦ none
  | some ds ↦ some (v ∷ ds)
]
write_at (suc k) vs [] = none
write_at (suc k) vs (c ∷ cs) = elim (write_at k vs cs) [ none ↦ none | some ds ↦ some (c ∷ ds) ]

-- The characters of a string are not 0.
abbrev pub IsText : List ℕ → Type 0
IsText w = All (λ b. b ≢ 0) w

pub read_string-IsText : (cs : List Cell) (w : List ℕ) → read_string cs ≡ some w → IsText w
unfolding read_string
read_string-IsText [] w h = cc
read_string-IsText (none ∷ cs) w h = cc
read_string-IsText (some b ∷ cs) [] h = tt
read_string-IsText (some b ∷ cs) (x ∷ w) h = elim (Option-cases (read_string cs)) [
  | inl e ↦ absurd (ground arith)
  | inr (v, e) ↦ ground (arith, read_string-IsText cs v e)
]

pub read_string-fits :
    (cs : List Cell) (w : List ℕ) → read_string cs ≡ some w → length w < length cs
unfolding read_string
read_string-fits [] w h = cc
read_string-fits (none ∷ cs) w h = cc
read_string-fits (some b ∷ cs) [] h = ground arith
read_string-fits (some b ∷ cs) (x ∷ w) h = elim (Option-cases (read_string cs)) [
  | inl e ↦ absurd (ground arith)
  | inr (v, e) ↦ ground (arith, read_string-fits cs v e)
]

-- What strcpy writes reads back, if there is room for it and its terminator.
pub write_at-terminated :
    (w : List ℕ) (cs : List Cell)
    → IsText w
    → length w < length cs
    → (ds : List Cell) × (write_at 0 (terminated w) cs ≡ some ds) × (read_string ds ≡ some w)
unfolding write_at terminated read_string
write_at-terminated [] [] t h = absurd (omega arith)
write_at-terminated [] (c ∷ cs) t h = (_, refl, refl)
write_at-terminated (b ∷ w) [] t h = absurd (omega arith)
write_at-terminated (b ∷ w) (c ∷ cs) t h =
    let (ds, e, r) = write_at-terminated w cs t.1 (omega arith) in
    (some b ∷ ds, ground (arith, e), ground (arith, r, t.0))

-- What strcat writes behind a string reads back as the two strings one after the other.
pub write_at-appended :
    (d w : List ℕ) (cs : List Cell)
    → read_string cs ≡ some d
    → IsText w
    → length d + length w < length cs
    → (ds : List Cell) × (write_at (length d) (terminated w) cs ≡ some ds)
      × (read_string ds ≡ some (d ++ w))
unfolding write_at read_string
write_at-appended [] w cs r t h = write_at-terminated w cs t (omega arith)
write_at-appended (b ∷ d) w [] r t h = cc
write_at-appended (b ∷ d) w (none ∷ cs) r t h = cc
write_at-appended (b ∷ d) w (some c ∷ cs) r t h = elim (Option-cases (read_string cs)) [
  | inl e ↦ absurd (ground arith)
  | inr (v, e) ↦
      let (ds, f, g) = write_at-appended d w cs (ground arith) t (omega arith) in
      (some c ∷ ds, ground (arith, f), ground (arith, g))
]

-- A write past the end is a fault.
pub write_at-overruns :
    (k : ℕ) (vs cs : List Cell) → length cs < k + length vs → write_at k vs cs ≡ none
unfolding write_at
write_at-overruns zero [] cs h = absurd (omega arith)
write_at-overruns zero (v ∷ vs) [] h = refl
write_at-overruns zero (v ∷ vs) (c ∷ cs) h =
    ground (arith, write_at-overruns zero vs cs (omega arith))
write_at-overruns (suc k) vs [] h = refl
write_at-overruns (suc k) vs (c ∷ cs) h = ground (arith, write_at-overruns k vs cs (omega arith))

pub length-write_at :
    (k : ℕ) (vs cs ds : List Cell) → write_at k vs cs ≡ some ds → length ds ≡ length cs
unfolding write_at
length-write_at zero [] cs ds h = ground arith
length-write_at zero (v ∷ vs) [] ds h = cc
length-write_at zero (v ∷ vs) (c ∷ cs) ds h = elim (Option-cases (write_at zero vs cs)) [
  | inl e ↦ absurd (ground arith)
  | inr (u, e) ↦ ground (arith, length-write_at zero vs cs u e)
]
length-write_at (suc k) vs [] ds h = cc
length-write_at (suc k) vs (c ∷ cs) ds h = elim (Option-cases (write_at k vs cs)) [
  | inl e ↦ absurd (ground arith)
  | inr (u, e) ↦ ground (arith, length-write_at k vs cs u e)
]

pub length-terminated : (w : List ℕ) → length (terminated w) ≡ suc (length w)
unfolding terminated
length-terminated [] = refl
length-terminated (b ∷ w) = ap suc (length-terminated w)

-- A pointer into a string reads the rest of it.
pub read_string-drop :
    (k : ℕ) (cs : List Cell) (w : List ℕ)
    → read_string cs ≡ some w
    → k ≤ length w
    → read_string (drop k cs) ≡ some (drop k w)
unfolding read_string drop
read_string-drop zero cs w r h = r
read_string-drop (suc k) cs [] r h = absurd (omega arith)
read_string-drop (suc k) [] (x ∷ w) r h = cc
read_string-drop (suc k) (none ∷ cs) (x ∷ w) r h = cc
read_string-drop (suc k) (some c ∷ cs) (x ∷ w) r h = elim (Option-cases (read_string cs)) [
  | inl e ↦ absurd (ground arith)
  | inr (v, e) ↦ read_string-drop k cs w (ground arith) (omega arith)
]

-- The characters of the string and the 0 behind them are at their indices.
pub read_string-get_elem? :
    (cs : List Cell) (w : List ℕ) (k : ℕ)
    → read_string cs ≡ some w
    → k ≤ length w
    → get_elem? cs k ≡ get_elem? (terminated w) k
unfolding read_string terminated
read_string-get_elem? [] w k r h = cc
read_string-get_elem? (none ∷ cs) w k r h = cc
read_string-get_elem? (some c ∷ cs) [] zero r h = elim (Option-cases (read_string cs)) [
  | inl e ↦ ground arith
  | inr (v, e) ↦ ground arith
]
read_string-get_elem? (some c ∷ cs) [] (suc k) r h = absurd (omega arith)
read_string-get_elem? (some c ∷ cs) (x ∷ w) zero r h = elim (Option-cases (read_string cs)) [
  | inl e ↦ ground arith
  | inr (v, e) ↦ ground arith
]
read_string-get_elem? (some c ∷ cs) (x ∷ w) (suc k) r h = elim (Option-cases (read_string cs)) [
  | inl e ↦ absurd (ground arith)
  | inr (v, e) ↦ read_string-get_elem? cs w k (ground arith) (omega arith)
]

pub read_string-terminated : (w : List ℕ) → IsText w → read_string (terminated w) ≡ some w
unfolding read_string terminated
read_string-terminated [] t = refl
read_string-terminated (b ∷ w) t = ground (arith, t.0, read_string-terminated w t.1)
