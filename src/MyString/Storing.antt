-- ===== src/MyString/Storing.antt =====
-- What the common end of the constructors and assignments stores: a new block with the string.
use linux_cpp_learn.Prelude.{
  update, ℕ, suc, ◌+◌, ◌<◌, ◌^◌, List, [], none, some, ◌==◌, if◌then◌else◌, length, replicate,
  length-replicate, ◌≡◌, ◌≢◌, refl, arith, Bool-cases, Option-cases, inl, inr,
}
use linux_cpp_learn.MyString.{
  MyString, Store, uint, Source, null, outside, inside, string_at, new_chars, write, strcpy,
  store_copy, put, put_cells, construct, store_string,
}
use linux_cpp_learn.MyString.Memory.{
  Cell, read_string, terminated, IsText, read_string-IsText, write_at-terminated, drop,
}

-- t is s with the string w stored in a new block as the object i.
pub record Stored (s : Store) (i : ℕ) (w : List ℕ) (t : Store) : Type 0 where
  pub cells : List Cell
  pub object_t :
      (j : ℕ)
      → t.object j ≡ (
          if i == j then some (record { data_block = some s.next; len = length w }) else s.object j)
  pub block_t : (b : ℕ) → t.block b ≡ (if s.next == b then some cells else s.block b)
  pub next_t : t.next ≡ suc s.next
  pub reads_t : read_string cells ≡ some w

pub uint-small : (n : ℕ) → n < 2 ^ 32 → uint n ≡ n
uint-small n h = omega arith

pub string_at-IsText : (s : Store) (src : Source) (w : List ℕ) → string_at s src ≡ some w → IsText w
unfolding string_at
string_at-IsText s null w h = cc
string_at-IsText s (outside cells) w h = read_string-IsText cells w h
string_at-IsText s (inside b k) w h = elim (Option-cases (s.block b)) [
  | inl e ↦ absurd (ground arith)
  | inr (cells, e) ↦ read_string-IsText (drop k cells) w (ground arith)
]

-- A string that can be read is still there when a block was added.
pub string_at-added :
    (s t : Store) (src : Source) (w : List ℕ)
    → s.block s.next ≡ none
    → ((b : ℕ) → b ≢ s.next → t.block b ≡ s.block b)
    → string_at s src ≡ some w
    → string_at t src ≡ some w
unfolding string_at
string_at-added s t null w fresh same h = h
string_at-added s t (outside cells) w fresh same h = h
string_at-added s t (inside b k) w fresh same h = elim (Bool-cases (b == s.next)) [
  | inl e ↦ absurd (ground arith)
  | inr e ↦ ground (arith, same b (ground arith))
]

module _ (s : Store) (i : ℕ) (fresh : s.block s.next ≡ none) where
  pub write-Stored :
      (w : List ℕ) (n : ℕ)
      → IsText w
      → length w < n
      → (t : Store) × (write
            (put (new_chars s n) i (record { data_block = some s.next; len = length w }))
            s.next
            0
            (terminated w)
          ≡ some t)
        × Stored s i w t
  unfolding new_chars write put_cells
  write-Stored w n text h =
      let blank : Cell = none in
      let room : length w < length (replicate n blank) = ground (arith, length-replicate n blank) in
      let (ds, e, r) = write_at-terminated w (replicate n blank) text room in
      let a = put (new_chars s n) i (record { data_block = some s.next; len = length w }) in
      let t : Store = record a { block = update a.block s.next (some ds) } in
      (
        t,
        ground (arith, e),
        record {
          cells = ds;
          object_t = λ j. refl;
          block_t = λ b. ground arith;
          next_t = refl;
          reads_t = r;
        },
      )

  string_at-new_chars :
      (n : ℕ) (x : MyString) (src : Source) (w : List ℕ)
      → string_at s src ≡ some w
      → string_at (put (new_chars s n) i x) src ≡ some w
  unfolding new_chars
  string_at-new_chars n x src w e =
      string_at-added s (put (new_chars s n) i x) src w fresh (λ b ne. ground arith) e

  pub store_copy-Stored :
      (src : Source) (w : List ℕ)
      → string_at s src ≡ some w
      → length w + 1 < 2 ^ 32
      → (t : Store) × (store_copy s i (length w) src ≡ some t) × Stored s i w t
  unfolding store_copy strcpy
  store_copy-Stored src w e h =
      let big = uint-small (length w + 1) h in
      let x : MyString = record { data_block = some s.next; len = length w } in
      let (t, f, st) =
        write-Stored w (uint (length w + 1)) (string_at-IsText s src w e) (omega (arith, big)) in
      let g = string_at-new_chars (uint (length w + 1)) x src w e in (t, ground (arith, g, f), st)

  pub store_string-Stored :
      (src : Source) (w : List ℕ)
      → string_at s src ≡ some w
      → length w + 1 < 2 ^ 32
      → (t : Store) × (store_string s i src ≡ some t) × Stored s i w t
  unfolding store_string
  store_string-Stored src w e h =
      let (t, f, st) = store_copy-Stored src w e h in
      (t, ground (arith, f, uint-small (length w) (omega arith)), st)

  pub construct-Stored : (t : Store) × (construct s i ≡ some t) × Stored s i [] t
  unfolding construct terminated
  construct-Stored = write-Stored [] 1 tt (omega arith)
