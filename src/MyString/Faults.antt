-- ===== src/MyString/Faults.antt =====
-- Faults of the string class of bagu/simpleString.cpp.
use linux_cpp_learn.Prelude.{
  ℕ, ◌+◌, ◌*◌, ◌<◌, ◌≤◌, ◌^◌, false, List, none, some, ◌==◌, length, ◌≡◌, arith, Bool-cases, inl,
  inr, ltb, replicate, length-replicate,
}
use linux_cpp_learn.MyString.{
  Store, uint, inside, string_at, new_chars, delete_chars, strcpy, strcat, write, put_cells, put,
  append_data, append, assign_from, store_string,
}
use linux_cpp_learn.MyString.Memory.{Cell, drop, terminated, write_at-overruns, length-terminated}
use linux_cpp_learn.MyString.Represents.{Strings, Represents}
use linux_cpp_learn.MyString.Storing.{string_at-added, uint-small}
use linux_cpp_learn.MyString.Operations.{next-fresh}
use linux_cpp_learn.MyString.Appending.{Added, strcpy-new}
use linux_cpp_learn.MyString.PlusAssign.{data-string_at_long}
use linux_cpp_learn.MyString.System.{c_str, resolve}

-- In a store that holds given strings, the assignment of a text that points into the assigned
-- object's own string, such as `s = s.c_str()`, reads the block that it has just deleted.
pub assign_from_own_text :
    (v : Strings) (s : Store) (i k : ℕ) (w : List ℕ)
    → Represents v s
    → v i ≡ some w
    → assign_from s i (resolve s (c_str i k)) ≡ none
unfolding assign_from resolve delete_chars store_string string_at
assign_from_own_text v s i k w h e = let x = h.held i w e in ground (arith, x.fields, x.stored)

module _ (s : Store) (a b : ℕ) (u w : List ℕ) (fresh : s.block s.next ≡ none)
    (at_a : string_at s (inside a 0) ≡ some u) (at_b : string_at s (inside b 0) ≡ some w) where
  strcpy-overruns :
      (size : ℕ) → size ≤ length u → strcpy (new_chars s size) s.next (inside a 0) ≡ none
  unfolding strcpy new_chars write put_cells
  strcpy-overruns size h =
      let blank : Cell = none in
      let e =
        write_at-overruns 0 (terminated u) (replicate size blank)
          (omega (arith, length-terminated u, length-replicate size blank)) in
      let f =
        string_at-added s (new_chars s size) (inside a 0) u fresh (λ k ne. ground arith) at_a in
      ground (arith, e, f)

  strcat-overruns :
      (t : Store) (size : ℕ)
      → Added s size u t
      → size ≤ length u + length w
      → strcat t s.next (inside b 0) ≡ none
  unfolding strcat string_at write put_cells drop
  strcat-overruns t size ad h =
      let other =
        string_at-added s t (inside b 0) w fresh (λ k ne. ground (arith, ad.block_t k)) at_b in
      let here : t.block s.next ≡ some ad.ds = ground (arith, ad.block_t s.next) in
      let e =
        write_at-overruns (length u) (terminated w) ad.ds
          (omega (arith, length-terminated w, ad.sized)) in
      ground (arith, here, ad.reads, e, other)

  append_data-overruns :
      (i n m : ℕ)
      → uint (n + m + 1) ≤ length u + length w
      → append_data s i n m (some a) (some b) ≡ none
  unfolding append_data
  append_data-overruns i n m h = elim (Bool-cases (ltb (length u) (uint (n + m + 1)))) [
    | inr small ↦ ground (arith, strcpy-overruns (uint (n + m + 1)) (ground arith))
    | inl room ↦
        let (t, e, ad) = strcpy-new s a b u w fresh at_a at_b (uint (n + m + 1)) (ground arith) in
        ground (arith, e, strcat-overruns t (uint (n + m + 1)) ad h)
  ]

-- In a store that holds the string u as the object i and w as another object j, where the two
-- strings with their terminator are shorter than 2 ^ 32 but u with twice w and the terminator is
-- not: the size of `+=`'s new block wraps around, and it writes past the end of the block.
pub append_overruns :
    (v : Strings) (s : Store) (i j : ℕ) (u w : List ℕ)
    → Represents v s
    → (i == j) ≡ false
    → v i ≡ some u
    → v j ≡ some w
    → length u + length w + 1 < 2 ^ 32
    → 2 ^ 32 ≤ length u + 2 * length w + 1
    → append s i j ≡ none
unfolding append
append_overruns v s i j u w h differ e f small big =
    let x = h.held i u e in
    let y = h.held j w f in
    let n = uint-small (length u + length w) (omega arith) in
    let long = put s i (record { data_block = some x.place; len = uint (length u + length w) }) in
    let fails : append_data long i (uint (length u + length w)) (length w) (some x.place)
          (some y.place)
        ≡ none =
      append_data-overruns long x.place y.place u w (next-fresh v s h)
        (data-string_at_long v s h i j u w x y (uint (length u + length w)) i u x)
        (data-string_at_long v s h i j u w x y (uint (length u + length w)) j w y) i
        (uint (length u + length w)) (length w) (omega (arith, n)) in
    ground (arith, x.fields, y.fields, fails)
