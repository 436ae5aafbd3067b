-- ===== src/MyString/Operations.antt =====
-- The constructors and the destructor of bagu/simpleString.cpp on a store that holds given strings.
use linux_cpp_learn.Prelude.{
  update, ℕ, ◌+◌, ◌<◌, ◌^◌, List, [], none, some, length, ◌≡◌, refl, arith, Option-cases, inl, inr,
  ◌∙◌,
}
use linux_cpp_learn.MyString.{
  Store, Source, null, outside, inside, string_at, delete_chars, construct, construct_from,
  construct_copy, destroy, store_string,
}
use linux_cpp_learn.MyString.Memory.{drop, read_string-drop}
use linux_cpp_learn.MyString.Represents.{
  Strings, Held, Represents, Has-old, Represents-stored, Represents-destroyed,
}
use linux_cpp_learn.MyString.Storing.{
  Stored, store_copy-Stored, store_string-Stored, construct-Stored,
}
use linux_cpp_learn.MyString.System.{Text, resolve, Says, array_says, c_str_says}

construct_from-some :
    (s : Store) (i : ℕ) (src : Source) (w : List ℕ)
    → string_at s src ≡ some w
    → construct_from s i src ≡ store_string s i src
unfolding construct_from string_at
construct_from-some s i null w e = cc
construct_from-some s i (outside cells) w e = refl
construct_from-some s i (inside b k) w e = refl

module _ (v : Strings) (s : Store) (h : Represents v s) where
  pub next-fresh : s.block s.next ≡ none
  next-fresh = elim (Option-cases (s.block s.next)) [
    | inl e ↦ e
    | inr (cells, e) ↦
        let (i, p) = h.owned s.next cells e in absurd (omega (arith, Has-old v s h i s.next p))
  ]

  pub Represents_of_new :
      (i : ℕ) (w : List ℕ) (t : Store)
      → v i ≡ none
      → length w + 1 < 2 ^ 32
      → Stored s i w t
      → Represents (update v i (some w)) t
  Represents_of_new i w t new small st =
      Represents-stored v s h t i st.cells w st.object_t
        (λ b. ground (arith, st.block_t b, h.absent i new)) st.next_t st.reads_t small

  pub Says-string_at :
      (src : Text) (w : List ℕ) → Says v src w → string_at s (resolve s src) ≡ some w
  unfolding string_at resolve
  Says-string_at src w (array_says e) = e
  Says-string_at src w (c_str_says {j = j} {k = k} {w = u} e le) =
      let x = h.held j u e in
      ground (arith, x.fields, x.stored, read_string-drop k x.cells u x.reads le)

  pub destroy-Represents :
      (i : ℕ) (w : List ℕ)
      → v i ≡ some w
      → (t : Store) × (destroy s i ≡ some t) × Represents (update v i none) t
  unfolding destroy delete_chars
  destroy-Represents i w e =
      let x = h.held i w e in
      let t : Store = record s {
        block = update s.block x.place none;
        object = update s.object i none;
      } in
      (
        t,
        ground (arith, x.fields, x.stored),
        Represents-destroyed v s h t i (λ j. refl) (λ b. ground (arith, x.fields)) refl,
      )

  pub construct-Represents :
      (i : ℕ)
      → v i ≡ none
      → (t : Store) × (construct s i ≡ some t) × Represents (update v i (some [])) t
  construct-Represents i new =
      let (t, e, st) = construct-Stored s i next-fresh in
      (t, e, Represents_of_new i [] t new (omega arith) st)

  pub construct_from-Represents :
      (i : ℕ) (src : Text) (w : List ℕ)
      → v i ≡ none
      → Says v src w
      → length w + 1 < 2 ^ 32
      → (t : Store) × (construct_from s i (resolve s src) ≡ some t)
        × Represents (update v i (some w)) t
  construct_from-Represents i src w new says small =
      let e = Says-string_at src w says in
      let (t, f, st) = store_string-Stored s i next-fresh (resolve s src) w e small in
      (t, construct_from-some s i (resolve s src) w e ∙ f, Represents_of_new i w t new small st)

  -- What `str.data` reads.
  pub data-string_at :
      (j : ℕ) (w : List ℕ) (x : Held s j w) → string_at s (inside x.place 0) ≡ some w
  unfolding string_at drop
  data-string_at j w x = ground (arith, x.stored, x.reads)

  pub construct_copy-Represents :
      (i j : ℕ) (w : List ℕ)
      → v i ≡ none
      → v j ≡ some w
      → (t : Store) × (construct_copy s i j ≡ some t) × Represents (update v i (some w)) t
  unfolding construct_copy
  construct_copy-Represents i j w new e =
      let x = h.held j w e in
      let (t, f, st) =
        store_copy-Stored s i next-fresh (inside x.place 0) w (data-string_at j w x) x.small in
      (t, ground (arith, x.fields, f), Represents_of_new i w t new x.small st)
