-- ===== src/MyString/Assignments.antt =====
-- The two assignments of bagu/simpleString.cpp on a store that holds given strings.
use linux_cpp_learn.Prelude.{
  update, ℕ, ◌+◌, ◌<◌, ◌^◌, false, List, none, some, ◌==◌, length, ◌≡◌, ◌≢◌, arith, Bool-cases, inl,
  inr,
}
use linux_cpp_learn.MyString.{Store, inside, string_at, delete_chars, assign, assign_from}
use linux_cpp_learn.MyString.Memory.{drop, read_string-drop}
use linux_cpp_learn.MyString.Represents.{
  Strings, Held, Represents, Represents-stored, Represents-pointwise,
}
use linux_cpp_learn.MyString.Storing.{Stored, store_copy-Stored, store_string-Stored}
use linux_cpp_learn.MyString.System.{Text, resolve, Says, array_says, c_str_says, IsForeign}
use linux_cpp_learn.MyString.Operations.{next-fresh}

-- The store after the block b was deleted.
abbrev pub deleted : Store → ℕ → Store
deleted s b = record s { block = update s.block b none }

module _ (v : Strings) (s : Store) (h : Represents v s) (i : ℕ) (u : List ℕ) (x : Held s i u) where
  delete_chars-deleted : delete_chars s (some x.place) ≡ some (deleted s x.place)
  unfolding delete_chars
  delete_chars-deleted = ground (arith, x.stored)

  deleted-fresh : (deleted s x.place).block s.next ≡ none
  deleted-fresh = ground (arith, next-fresh v s h)

  pub Represents_of_deleted :
      (w : List ℕ) (t : Store)
      → length w + 1 < 2 ^ 32
      → Stored (deleted s x.place) i w t
      → Represents (update v i (some w)) t
  Represents_of_deleted w t small st =
      Represents-stored v s h t i st.cells w st.object_t
        (λ b. ground (arith, st.block_t b, x.fields)) st.next_t st.reads_t small

  place-other : (j : ℕ) (w : List ℕ) (y : Held s j w) → (i == j) ≡ false → x.place ≢ y.place
  place-other j w y differ same =
      ground (arith, h.apart i j x.place (length u, x.fields) (length w, ground (arith, y.fields)))

  data-deleted :
      (j : ℕ) (w : List ℕ) (y : Held s j w)
      → (i == j) ≡ false
      → string_at (deleted s x.place) (inside y.place 0) ≡ some w
  unfolding string_at drop
  data-deleted j w y differ = ground (arith, y.stored, y.reads, place-other j w y differ)

  Says-deleted :
      (src : Text) (w : List ℕ)
      → IsForeign i src
      → Says v src w
      → string_at (deleted s x.place) (resolve s src) ≡ some w
  unfolding string_at resolve
  Says-deleted src w foreign (array_says e) = e
  Says-deleted src w foreign (c_str_says {j = j} {k = k} {w = z} e le) =
      let y = h.held j z e in
      ground (
        arith,
        y.fields,
        y.stored,
        place-other j z y foreign,
        read_string-drop k y.cells z y.reads le,
      )

  pub assign_from-Represents :
      (src : Text) (w : List ℕ)
      → IsForeign i src
      → Says v src w
      → length w + 1 < 2 ^ 32
      → (t : Store) × (assign_from s i (resolve s src) ≡ some t)
        × Represents (update v i (some w)) t
  unfolding assign_from
  assign_from-Represents src w foreign says small =
      let e = Says-deleted src w foreign says in
      let (t, f, st) =
        store_string-Stored (deleted s x.place) i deleted-fresh (resolve s src) w e small in
      (t, ground (arith, x.fields, delete_chars-deleted, f), Represents_of_deleted w t small st)

  assign-other :
      (j : ℕ) (w : List ℕ)
      → v j ≡ some w
      → (i == j) ≡ false
      → (t : Store) × (assign s i j ≡ some t) × Represents (update v i (some w)) t
  unfolding assign
  assign-other j w e differ =
      let y = h.held j w e in
      let (t, f, st) =
        store_copy-Stored (deleted s x.place) i deleted-fresh (inside y.place 0) w
          (data-deleted j w y differ) y.small in
      (
        t,
        ground (arith, x.fields, y.fields, delete_chars-deleted, f),
        Represents_of_deleted w t y.small st,
      )

  pub assign-Represents :
      (j : ℕ) (w : List ℕ)
      → v j ≡ some w
      → (t : Store) × (assign s i j ≡ some t) × Represents (update v i (some w)) t
  unfolding assign
  assign-Represents j w e = elim (Bool-cases (i == j)) [
    | inr differ ↦ assign-other j w e differ
    | inl same ↦
        (s, ground arith, Represents-pointwise v (update v i (some w)) s (λ k. ground arith) h)
  ]
