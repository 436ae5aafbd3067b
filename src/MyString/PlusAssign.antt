-- ===== src/MyString/PlusAssign.antt =====
-- `operator+=` of bagu/simpleString.cpp on a store that holds given strings.
use linux_cpp_learn.Prelude.{
  update, ℕ, ◌+◌, ◌*◌, ◌<◌, ◌^◌, true, false, List, ◌++◌, some, ◌==◌, length, length-append, ◌≡◌,
  arith, sym, ◌∙◌,
}
use linux_cpp_learn.MyString.{Store, uint, inside, string_at, put, append_data, append}
use linux_cpp_learn.MyString.Memory.{drop}
use linux_cpp_learn.MyString.Represents.{Strings, Held, Represents, Represents-stored}
use linux_cpp_learn.MyString.Storing.{uint-small}
use linux_cpp_learn.MyString.Operations.{next-fresh}
use linux_cpp_learn.MyString.Appending.{Appended, append_data-Appended}

-- The object after `length += str.length`.
abbrev lengthened : Store → ℕ → ℕ → ℕ → Store
lengthened s i a n = put s i (record { data_block = some a; len = n })

module _ (v : Strings) (s : Store) (h : Represents v s) (i j : ℕ) (u w : List ℕ) (x : Held s i u)
    (y : Held s j w) where
  Represents_of_Appended :
      (n : ℕ) (t : Store)
      → n ≡ length (u ++ w)
      → n + 1 < 2 ^ 32
      → Appended (lengthened s i x.place n) i n x.place (u ++ w) t
      → Represents (update v i (some (u ++ w))) t
  Represents_of_Appended n t e small ap' =
      Represents-stored v s h t i ap'.cells (u ++ w) (λ k. ground (arith, ap'.object_t k, e))
        (λ k. ground (arith, ap'.block_t k, x.fields)) ap'.next_t ap'.reads (ground (arith, e))

  pub data-string_at_long :
      (n k : ℕ) (z : List ℕ) (q : Held s k z)
      → string_at (lengthened s i x.place n) (inside q.place 0) ≡ some z
  unfolding string_at drop
  data-string_at_long n k z q = ground (arith, q.stored, q.reads)

  append_data-Represents :
      (n m : ℕ)
      → n ≡ length u + length w
      → n + m + 1 < 2 ^ 32
      → (t : Store) × (append_data (lengthened s i x.place n) i n m (some x.place) (some y.place)
          ≡ some t)
        × Represents (update v i (some (u ++ w))) t
  append_data-Represents n m e small =
      let long = lengthened s i x.place n in
      let big = uint-small (n + m + 1) small in
      let (t, f, done) =
        append_data-Appended long x.place y.place u w (next-fresh v s h)
          (data-string_at_long n i u x) (data-string_at_long n j w y) i n m x.cells x.stored
          (omega (arith, big)) in
      (t, f, Represents_of_Appended n t (e ∙ sym (length-append u w)) (omega arith) done)

  pub append-other :
      (i == j) ≡ false
      → length u + 2 * length w + 1 < 2 ^ 32
      → (t : Store) × (append s i j ≡ some t) × Represents (update v i (some (u ++ w))) t
  unfolding append
  append-other differ small =
      let n = uint-small (length u + length w) (omega arith) in
      let (t, e, r) =
        append_data-Represents (uint (length u + length w)) (length w) n (omega (arith, n)) in
      (t, ground (arith, x.fields, y.fields, e), r)

  pub append-same :
      (i == j) ≡ true
      → 2 * (length u + length w) + 1 < 2 ^ 32
      → (t : Store) × (append s i j ≡ some t) × Represents (update v i (some (u ++ w))) t
  unfolding append
  append-same same small =
      let n = uint-small (length u + length w) (omega arith) in
      let (t, e, r) =
        append_data-Represents (uint (length u + length w)) (uint (length u + length w)) n
          (omega (arith, n)) in
      (t, ground (arith, x.fields, y.fields, e), r)
