-- ===== src/MyString/Appending.antt =====
-- `operator+=` of bagu/simpleString.cpp: the new block and what is copied into it.
use linux_cpp_learn.Prelude.{
  update, ℕ, suc, ◌+◌, ◌<◌, List, ◌++◌, none, some, ◌==◌, if◌then◌else◌, length, ◌≡◌, ◌≢◌, refl,
  arith, ◌∙◌, replicate, length-replicate,
}
use linux_cpp_learn.MyString.{
  Store, uint, inside, string_at, new_chars, delete_chars, strcpy, strcat, write, put_cells,
  replace_data, append_data,
}
use linux_cpp_learn.MyString.Memory.{
  Cell, read_string, drop, terminated, write_at-terminated, write_at-appended, length-write_at,
}
use linux_cpp_learn.MyString.Storing.{string_at-IsText, string_at-added}

-- t is s with a new block that holds the array ds with the string z.
pub record Added (s : Store) (size : ℕ) (z : List ℕ) (t : Store) : Type 0 where
  pub ds : List Cell
  pub block_t : (k : ℕ) → t.block k ≡ (if s.next == k then some ds else s.block k)
  pub next_t : t.next ≡ suc s.next
  pub object_t : (k : ℕ) → t.object k ≡ s.object k
  pub reads : read_string ds ≡ some z
  pub sized : length ds ≡ size

-- What `tmp` and the end of `+=` leave.
pub record Appended (s : Store) (i n a : ℕ) (z : List ℕ) (t : Store) : Type 0 where
  pub cells : List Cell
  pub object_t :
      (k : ℕ)
      → t.object k
        ≡ (if i == k then some (record { data_block = some s.next; len = n }) else s.object k)
  pub block_t :
      (k : ℕ) → t.block k ≡ (if s.next == k then some cells else if a == k then none else s.block k)
  pub next_t : t.next ≡ suc s.next
  pub reads : read_string cells ≡ some z

module _ (s : Store) (a b : ℕ) (u w : List ℕ) (fresh : s.block s.next ≡ none)
    (at_a : string_at s (inside a 0) ≡ some u) (at_b : string_at s (inside b 0) ≡ some w) where
  -- The store after `new char[size]` and then with ds in the new block.
  with_new : List Cell → Store
  with_new ds = record s { block = update s.block s.next (some ds); next = suc s.next }

  at_new :
      (src : ℕ) (z : List ℕ) (ds : List Cell)
      → string_at s (inside src 0) ≡ some z
      → string_at (with_new ds) (inside src 0) ≡ some z
  unfolding with_new
  at_new src z ds e =
      string_at-added s (with_new ds) (inside src 0) z fresh (λ k ne. ground arith) e

  pub strcpy-new :
      (size : ℕ)
      → length u < size
      → (t : Store) × (strcpy (new_chars s size) s.next (inside a 0) ≡ some t) × Added s size u t
  unfolding strcpy new_chars write put_cells with_new
  strcpy-new size h =
      let blank : Cell = none in
      let room : length u < length (replicate size blank) =
        ground (arith, length-replicate size blank) in
      let text = string_at-IsText s (inside a 0) u at_a in
      let (ds, e, r) = write_at-terminated u (replicate size blank) text room in
      let f = at_new a u (replicate size blank) at_a in
      let t : Store = record s {
        block = update (update s.block s.next (some (replicate size blank))) s.next (some ds);
        next = suc s.next;
      } in
      (
        t,
        ground (arith, e, f),
        record {
          ds = ds;
          block_t = λ k. ground arith;
          next_t = refl;
          object_t = λ k. refl;
          reads = r;
          sized =
              length-write_at 0 (terminated u) (replicate size blank) ds e
              ∙ length-replicate size blank;
        },
      )

  strcat-new :
      (t : Store) (size : ℕ)
      → Added s size u t
      → length u + length w < size
      → (t' : Store) × (strcat t s.next (inside b 0) ≡ some t') × Added s size (u ++ w) t'
  unfolding strcat string_at write put_cells drop
  strcat-new t size ad h =
      let text = string_at-IsText s (inside b 0) w at_b in
      let other =
        string_at-added s t (inside b 0) w fresh (λ k ne. ground (arith, ad.block_t k)) at_b in
      let here : t.block s.next ≡ some ad.ds = ground (arith, ad.block_t s.next) in
      let (es, e, r) = write_at-appended u w ad.ds ad.reads text (ground (arith, ad.sized)) in
      let t' : Store = record t { block = update t.block s.next (some es) } in
      (
        t',
        ground (arith, here, ad.reads, e, other),
        record {
          ds = es;
          block_t = λ k. ground (arith, ad.block_t k);
          next_t = ad.next_t;
          object_t = ad.object_t;
          reads = r;
          sized = length-write_at (length u) (terminated w) ad.ds es e ∙ ad.sized;
        },
      )

  pub append_data-Appended :
      (i n m : ℕ) (cells : List Cell)
      → s.block a ≡ some cells
      → length u + length w < uint (n + m + 1)
      → (t : Store) × (append_data s i n m (some a) (some b) ≡ some t) × Appended s i n a (u ++ w) t
  unfolding append_data replace_data delete_chars
  append_data-Appended i n m cells stored h =
      let (t, e, ad) = strcpy-new (uint (n + m + 1)) (omega arith) in
      let (t', f, bd) = strcat-new t (uint (n + m + 1)) ad h in
      let apart : s.next ≢ a = λ same. ground arith in
      let there : t'.block a ≡ some cells = ground (arith, bd.block_t a, stored) in
      let r : Store = record t' {
        block = update t'.block a none;
        object = update t'.object i (some (record { data_block = some s.next; len = n }));
      } in
      (
        r,
        ground (arith, e, f, there),
        record {
          cells = bd.ds;
          object_t = λ k. ground (arith, bd.object_t k);
          block_t = λ k. ground (arith, bd.block_t k, apart);
          next_t = bd.next_t;
          reads = bd.reads;
        },
      )
