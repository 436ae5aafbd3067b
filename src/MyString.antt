-- ===== src/MyString.antt =====
-- bagu/simpleString.cpp: the string class over an explicit heap of character blocks. `none` is a
-- fault: a read or write past the end of a block, a read of a character that nothing was written
-- to, or a use of a block that was deleted. An unsigned int is a number below 2 ^ 32.
pub mod Memory
pub mod Represents
pub mod Storing
pub mod System
pub mod Operations
pub mod Assignments
pub mod Appending
pub mod PlusAssign
pub mod Refines
pub mod Faults
mod Tests
use linux_cpp_learn.Prelude.{
  update, ℕ, suc, ◌+◌, ◌%◌, ◌^◌, Bool, true, false, List, [], ◌∷◌, Option, none, some, ◌==◌,
  if◌then◌else◌, length, replicate, get_elem?,
}
use linux_cpp_learn.MyString.Memory.{Cell, read_string, write_at, terminated, drop}

-- The fields; `data` is null after the destructor.
pub record MyString : Type 0 where
  pub data_block : Option ℕ
  pub len : ℕ

-- Blocks are numbered by `new` and never reused; objects are numbered by the client.
pub record Store : Type 0 where
  pub block : ℕ → Option (List Cell)
  pub next : ℕ
  pub object : ℕ → Option MyString

-- The conversion to unsigned int.
abbrev pub uint : ℕ → ℕ
uint n = n % 2 ^ 32

-- A `const char *`: null, an array outside the heap, or a place in a block.
pub data Source : Type 0 where
  null : Source
  outside : List Cell → Source
  inside : ℕ → ℕ → Source

abbrev pub data_source : Option ℕ → Source
data_source none = null
data_source (some b) = inside b 0

unfoldable pub string_at : Store → Source → Option (List ℕ)
unfolding read_string drop
string_at s null = none
string_at s (outside cells) = read_string cells
string_at s (inside b k) = elim (s.block b) [
  | none ↦ none
  | some cells ↦ read_string (drop k cells)
]

-- `new char[n]` gives the block `s.next`.
unfoldable pub new_chars : Store → ℕ → Store
new_chars s n = record s {
  block = update s.block s.next (some (replicate n none));
  next = suc s.next;
}

unfoldable pub delete_chars : Store → Option ℕ → Option Store
delete_chars s none = some s
delete_chars s (some b) = elim (s.block b) [
  | none ↦ none
  | some cells ↦ some (record s { block = update s.block b none })
]

unfoldable pub put_cells : Store → ℕ → Option (List Cell) → Option Store
put_cells s b none = none
put_cells s b (some cells) = some (record s { block = update s.block b (some cells) })

unfoldable pub write : Store → ℕ → ℕ → List Cell → Option Store
unfolding write_at put_cells
write s b k vs = elim (s.block b) [ none ↦ none | some cells ↦ put_cells s b (write_at k vs cells) ]

unfoldable pub strcpy : Store → ℕ → Source → Option Store
unfolding string_at terminated write
strcpy s b src = elim (string_at s src) [ none ↦ none | some w ↦ write s b 0 (terminated w) ]

unfoldable pub strcat : Store → ℕ → Source → Option Store
unfolding string_at terminated write
strcat s b src = elim (string_at s (inside b 0)) [
  | none ↦ none
  | some d ↦ elim (string_at s src) [ none ↦ none | some w ↦ write s b (length d) (terminated w) ]
]

abbrev pub put : Store → ℕ → MyString → Store
put s i x = record s { object = update s.object i (some x) }

-- `length = n; data = new char[length + 1]; strcpy(data, src);`
unfoldable pub store_copy : Store → ℕ → ℕ → Source → Option Store
unfolding new_chars strcpy
store_copy s i n src =
    strcpy (put (new_chars s (uint (n + 1))) i (record { data_block = some s.next; len = n }))
      s.next src

unfoldable pub construct : Store → ℕ → Option Store
unfolding new_chars write
construct s i =
    write (put (new_chars s 1) i (record { data_block = some s.next; len = 0 })) s.next 0
      (some 0 ∷ [])

unfoldable pub store_string : Store → ℕ → Source → Option Store
unfolding string_at store_copy
store_string s i src = elim (string_at s src) [
  | none ↦ none
  | some w ↦ store_copy s i (uint (length w)) src
]

unfoldable pub construct_from : Store → ℕ → Source → Option Store
unfolding construct store_string
construct_from s i null = construct s i
construct_from s i (outside cells) = store_string s i (outside cells)
construct_from s i (inside b k) = store_string s i (inside b k)

unfoldable pub construct_copy : Store → ℕ → ℕ → Option Store
unfolding store_copy
construct_copy s i j = elim (s.object j) [
  | none ↦ none
  | some y ↦ store_copy s i y.len (data_source y.data_block)
]

-- The destructor; the object is gone after it.
unfoldable pub destroy : Store → ℕ → Option Store
unfolding delete_chars
destroy s i = elim (s.object i) [
  | none ↦ none
  | some x ↦ elim (delete_chars s x.data_block) [
    | none ↦ none
    | some t ↦ some (record t { object = update t.object i none })
  ]
]

-- `operator=(const myString &)`
unfoldable pub assign : Store → ℕ → ℕ → Option Store
unfolding delete_chars store_copy
assign s i j = if i == j then some s else elim (s.object i) [
  | none ↦ none
  | some x ↦ elim (s.object j) [
    | none ↦ none
    | some y ↦ elim (delete_chars s x.data_block) [
      | none ↦ none
      | some t ↦ store_copy t i y.len (data_source y.data_block)
    ]
  ]
]

-- `operator=(const char *)`
unfoldable pub assign_from : Store → ℕ → Source → Option Store
unfolding delete_chars store_string
assign_from s i src = elim (s.object i) [
  | none ↦ none
  | some x ↦ elim (delete_chars s x.data_block) [ none ↦ none | some t ↦ store_string t i src ]
]

-- The end of `operator+=`: `delete[] data; data = tmp;`
unfoldable pub replace_data : Store → ℕ → MyString → Option ℕ → Option Store
unfolding delete_chars
replace_data s i x old = elim (delete_chars s old) [ none ↦ none | some t ↦ some (put t i x) ]

-- `operator+=` after `length` was increased to n, where str.length is now m: `str` may be the
-- object itself.
unfoldable pub append_data : Store → ℕ → ℕ → ℕ → Option ℕ → Option ℕ → Option Store
unfolding new_chars strcpy strcat replace_data
append_data s i n m old str =
    elim (strcpy (new_chars s (uint (n + m + 1))) s.next (data_source old)) [
      | none ↦ none
      | some t ↦ elim (strcat t s.next (data_source str)) [
        | none ↦ none
        | some u ↦ replace_data u i (record { data_block = some s.next; len = n }) old
      ]
    ]

unfoldable pub append : Store → ℕ → ℕ → Option Store
unfolding append_data
append s i j = elim (s.object i) [
  | none ↦ none
  | some x ↦ elim (s.object j) [
    | none ↦ none
    | some y ↦
        let n = uint (x.len + y.len) in
        let m = if i == j then n else y.len in
        append_data (put s i (record x { len = n })) i n m x.data_block y.data_block
  ]
]

-- The character that `operator[]` refers to, for an index that is not negative.
unfoldable pub char_at : Store → ℕ → ℕ → Option Cell
char_at s i k = elim (s.object i) [
  | none ↦ none
  | some x ↦ elim x.data_block [
    | none ↦ none
    | some b ↦ elim (s.block b) [ none ↦ none | some cells ↦ get_elem? cells k ]
  ]
]
