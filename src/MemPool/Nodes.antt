-- ===== src/MemPool/Nodes.antt =====
-- mem_pool/mempool.c: the nodes of the pool, from each of which memory is cut off at `last`.
use linux_cpp_learn.Prelude.{
  ℕ, suc, ◌+◌, ◌-◌, ◌*◌, ◌/◌, ◌%◌, ◌^◌, List, [], ◌∷◌, Option, none, some, ◌>>=◌, leb, ltb,
  if◌then◌else◌, is_empty,
}

-- `MP_ALIGNMENT`, `sizeof(struct mp_pool_s)` and `sizeof(struct mp_node_s)`
abbrev pub alignment : ℕ
alignment = 32

abbrev pub pool_bytes : ℕ
pool_bytes = 24

abbrev pub node_bytes : ℕ
node_bytes = 32

-- `struct mp_node_s` at the address `base`; `limit` is its field end.
pub record Node : Type 0 where
  pub base : ℕ
  pub last : ℕ
  pub limit : ℕ
  pub failed : ℕ

-- `mp_align_ptr(p, MP_ALIGNMENT)`: the low five bits of the sum are cleared.
abbrev pub mp_align_ptr : ℕ → ℕ
mp_align_ptr p = (p + 31) % 2 ^ 64 / 32 * 32

-- `(size_t)(p->end - m)`
abbrev pub room : ℕ → ℕ → ℕ
room limit m = (limit + 2 ^ 64 - m) % 2 ^ 64

-- The loop of mp_alloc: the first node with room hands out memory.
unfoldable pub place : ℕ → List Node → Option (ℕ × List Node)
place size [] = none
place size (n ∷ ns) =
    let rest = place size ns in
    if leb size (room n.limit (mp_align_ptr n.last))
    then some (mp_align_ptr n.last, record n { last = mp_align_ptr n.last + size } ∷ ns)
    else (do (m, ms) ← rest; some (m, n ∷ ms))

-- The loop of mp_alloc_block: each node but the last failed once more, and `current` is behind the
-- last one of them that had failed more than four times.
unfoldable pub pass : List Node → List Node × List Node
pass [] = ([], [])
pass (n ∷ []) = ([], n ∷ [])
pass (n ∷ k ∷ ns) =
    let n' = record n { failed = suc n.failed } in
    let (skipped, kept) = pass (k ∷ ns) in
    if is_empty skipped
    then (if ltb 4 n.failed then (n' ∷ [], kept) else ([], n' ∷ kept))
    else (n' ∷ skipped, kept)
