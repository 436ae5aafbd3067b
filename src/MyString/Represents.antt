-- ===== src/MyString/Represents.antt =====
-- When a store holds given strings: each object has a block of its own with its string in it, and
-- there is no other block.
use linux_cpp_learn.Prelude.{
  update, ◌∙◌, ℕ, suc, ◌+◌, ◌<◌, ◌^◌, Bool, false, List, Option, none, some, ◌==◌, if◌then◌else◌,
  length, ◌≡◌, arith, Bool-cases, Option-cases, inl, inr,
}
use linux_cpp_learn.MyString.{MyString, Store}
use linux_cpp_learn.MyString.Memory.{Cell, read_string}

-- The objects that live, with their strings.
abbrev pub Strings : Type 0
Strings = ℕ → Option (List ℕ)

-- The object i holds the string w in the block b.
pub record Held (s : Store) (i : ℕ) (w : List ℕ) : Type 0 where
  pub place : ℕ
  pub cells : List Cell
  pub fields : s.object i ≡ some (record { data_block = some place; len = length w })
  pub stored : s.block place ≡ some cells
  pub reads : read_string cells ≡ some w
  pub old : place < s.next
  pub small : length w + 1 < 2 ^ 32

-- The object i has the block b.
abbrev pub Has : Store → ℕ → ℕ → Type 0
Has s i b = (n : ℕ) × (s.object i ≡ some (record { data_block = some b; len = n }))

pub record Represents (v : Strings) (s : Store) : Type 0 where
  pub held : (i : ℕ) (w : List ℕ) → v i ≡ some w → Held s i w
  pub absent : (i : ℕ) → v i ≡ none → s.object i ≡ none
  pub apart : (i j b : ℕ) → Has s i b → Has s j b → i ≡ j
  pub owned : (b : ℕ) (cells : List Cell) → s.block b ≡ some cells → (i : ℕ) × Has s i b

pub Represents-pointwise :
    (v u : Strings) (s : Store) → ((i : ℕ) → v i ≡ u i) → Represents v s → Represents u s
Represents-pointwise v u s same h = record {
  held = λ i w e. h.held i w (same i ∙ e);
  absent = λ i e. h.absent i (same i ∙ e);
  apart = h.apart;
  owned = h.owned;
}

abbrev pub has_block : Option MyString → ℕ → Bool
has_block none b = false
has_block (some x) b = elim x.data_block [ none ↦ false | some a ↦ a == b ]

module _ (v : Strings) (s : Store) (h : Represents v s) where
  pub Has-old : (j b : ℕ) → Has s j b → b < s.next
  Has-old j b (n, e) = elim (Option-cases (v j)) [
    | inl gone ↦ absurd (ground (arith, h.absent j gone))
    | inr (w, there) ↦ let k = h.held j w there in ground (arith, k.fields, k.old)
  ]

  -- A block of another object is not this object's.
  pub has_block-other :
      (i j b n : ℕ)
      → s.object j ≡ some (record { data_block = some b; len = n })
      → (i == j) ≡ false
      → has_block (s.object i) b ≡ false
  has_block-other i j b n e d = elim (Option-cases (s.object i)) [
    | inl none_there ↦ ground arith
    | inr (x, f) ↦ elim (Option-cases x.data_block) [
      | inl no_data ↦ ground arith
      | inr (a, g) ↦ elim (Bool-cases (a == b)) [
        | inr differ ↦ ground arith
        | inl same ↦ absurd (ground (arith, h.apart i j b (x.len, ground arith) (n, e)))
      ]
    ]
  ]

  module _ (t : Store) (i : ℕ) (cells : List Cell) (w : List ℕ)
      (object_t : (j : ℕ)
        → t.object j ≡ (
            if i == j
            then some (record { data_block = some s.next; len = length w })
            else s.object j))
      (block_t : (b : ℕ)
        → t.block b ≡ (
            if s.next == b
            then some cells
            else if has_block (s.object i) b
            then none
            else s.block b))
      (next_t : t.next ≡ suc s.next) (reads_t : read_string cells ≡ some w)
      (small_t : length w + 1 < 2 ^ 32) where
    held_t : (j : ℕ) (u : List ℕ) → update v i (some w) j ≡ some u → Held t j u
    held_t j u e = elim (Bool-cases (i == j)) [
      | inl same ↦ record {
        place = s.next;
        cells = cells;
        fields = ground (arith, object_t j);
        stored = ground (arith, block_t s.next);
        reads = ground arith;
        old = ground arith;
        small = ground arith;
      }
      | inr differ ↦
          let k = h.held j u (ground arith) in
          let other = has_block-other i j k.place (length u) k.fields differ in
          let older = k.old in
          record {
            place = k.place;
            cells = k.cells;
            fields = ground (arith, object_t j, k.fields);
            stored = ground (arith, block_t k.place, k.stored, other, older);
            reads = k.reads;
            old = ground (arith, older);
            small = k.small;
          }
    ]

    absent_t : (j : ℕ) → update v i (some w) j ≡ none → t.object j ≡ none
    absent_t j e = ground (arith, object_t j, h.absent j)

    apart_t : (j k b : ℕ) → Has t j b → Has t k b → j ≡ k
    apart_t j k b (m, e) (n, f) = elim (Bool-cases (i == j)) [
      | inl j_new ↦ elim (Bool-cases (i == k)) [
        | inl k_new ↦ ground arith
        | inr k_old ↦
            absurd
              (ground (arith, object_t j, object_t k, Has-old k b (n, ground (arith, object_t k))))
      ]
      | inr j_old ↦ elim (Bool-cases (i == k)) [
        | inl k_new ↦
            absurd
              (ground (arith, object_t j, object_t k, Has-old j b (m, ground (arith, object_t j))))
        | inr k_old ↦ h.apart j k b (m, ground (arith, object_t j)) (n, ground (arith, object_t k))
      ]
    ]

    owned_t : (b : ℕ) (ds : List Cell) → t.block b ≡ some ds → (j : ℕ) × Has t j b
    owned_t b ds e = elim (Bool-cases (s.next == b)) [
      | inl same ↦ (i, (length w, ground (arith, object_t i)))
      | inr differ ↦
          let free : has_block (s.object i) b ≡ false = ground (arith, block_t b) in
          let (j, (n, f)) = h.owned b ds (ground (arith, block_t b)) in
          (j, (n, ground (arith, object_t j, f, free)))
    ]

    pub Represents-stored : Represents (update v i (some w)) t
    Represents-stored = record {
      held = held_t;
      absent = absent_t;
      apart = apart_t;
      owned = owned_t;
    }

  module _ (t : Store) (i : ℕ)
      (object_t : (j : ℕ) → t.object j ≡ (if i == j then none else s.object j))
      (block_t : (b : ℕ) → t.block b ≡ (if has_block (s.object i) b then none else s.block b))
      (next_t : t.next ≡ s.next) where
    held_d : (j : ℕ) (u : List ℕ) → update v i none j ≡ some u → Held t j u
    held_d j u e =
        let differ : (i == j) ≡ false = ground arith in
        let k = h.held j u (ground arith) in
        let other = has_block-other i j k.place (length u) k.fields differ in
        record {
          place = k.place;
          cells = k.cells;
          fields = ground (arith, object_t j, k.fields);
          stored = ground (arith, block_t k.place, k.stored, other);
          reads = k.reads;
          old = ground (arith, k.old);
          small = k.small;
        }

    absent_d : (j : ℕ) → update v i none j ≡ none → t.object j ≡ none
    absent_d j e = ground (arith, object_t j, h.absent j)

    apart_d : (j k b : ℕ) → Has t j b → Has t k b → j ≡ k
    apart_d j k b (m, e) (n, f) =
        h.apart j k b (m, ground (arith, object_t j)) (n, ground (arith, object_t k))

    owned_d : (b : ℕ) (ds : List Cell) → t.block b ≡ some ds → (j : ℕ) × Has t j b
    owned_d b ds e =
        let free : has_block (s.object i) b ≡ false = ground (arith, block_t b) in
        let (j, (n, f)) = h.owned b ds (ground (arith, block_t b)) in
        (j, (n, ground (arith, object_t j, f, free)))

    pub Represents-destroyed : Represents (update v i none) t
    Represents-destroyed = record {
      held = held_d;
      absent = absent_d;
      apart = apart_d;
      owned = owned_d;
    }
