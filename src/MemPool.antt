-- ===== src/MemPool.antt =====
-- mem_pool/mempool.c: the memory pool, with addresses as numbers below 2 ^ 64 and 0 for NULL, and the
-- sizes of the structs on a machine with 64-bit pointers. `none` is a read through a pointer that was
-- never set, the write of an entry for a large block outside the nodes' blocks, or that the fuel ran
-- out. The contents of the memory are looked at in Calloc only.
pub mod Nodes
pub mod Release
pub mod Bounds
pub mod Fuel
pub mod Counts
pub mod Balance
pub mod Kept
pub mod Snug
pub mod Inside
pub mod Attached
pub mod Destroyed
pub mod Session
pub mod Overlap
pub mod Regions
pub mod Small
pub mod Disjoint
pub mod Calloc
mod Tests
use linux_cpp_learn.Prelude.{
  ℕ, zero, suc, ◌+◌, ◌-◌, ◌*◌, ◌/◌, ◌%◌, ◌^◌, Bool, true, false, List, [], ◌∷◌, ◌++◌, Option, none,
  some, ◌>>=◌, ◌==◌, leb, ltb, if◌then◌else◌, map, ◌&&◌, ◌||◌,
}
use linux_cpp_learn.MemPool.Nodes.{
  Node, alignment, pool_bytes, node_bytes, mp_align_ptr, place, pass,
}

-- `MP_MAX_ALLOC_FROM_POOL`
abbrev pub max_alloc : ℕ
max_alloc = 4095

-- `sizeof(struct mp_large_s)`
abbrev pub large_bytes : ℕ
large_bytes = 16

-- `struct mp_large_s`, with its own address.
pub record Large : Type 0 where
  pub place : ℕ
  pub alloc : ℕ

-- `struct mp_pool_s`. `passed` are the nodes before `current`, and `active` those from it on. `tail`
-- is the pointer `next` of the last node: 0, or what was in the memory if it was never set.
pub record Pool : Type 0 where
  pub address : ℕ
  pub max : ℕ
  pub passed : List Node
  pub active : List Node
  pub tail : ℕ
  pub large : List Large

-- What posix_memalign and malloc will answer (0 for a failure), and the calls made: the addresses that
-- they gave, and those given to `free`.
pub record Os : Type 0 where
  pub answers : List ℕ
  pub given : List ℕ
  pub freed : List ℕ

abbrev pub answer : Os → ℕ
answer os = elim os.answers [ [] ↦ 0 | a ∷ rest ↦ a ]

-- After a request for memory.
unfoldable pub ask : Os → Os
ask os = elim os.answers [
  | [] ↦ os
  | a ∷ rest ↦ record os { answers = rest; given = if a == 0 then os.given else a ∷ os.given }
]

-- `free`, which does nothing at NULL.
unfoldable pub free : ℕ → Os → Os
free p os = if p == 0 then os else record os { freed = p ∷ os.freed }

-- `mp_create_pool`; NULL is `none`, and `uninit` what is in the memory where head->next lies.
unfoldable pub mp_create_pool : (uninit size : ℕ) → Os → Option Pool × Os
unfolding ask
mp_create_pool uninit size os = (
  if answer os == 0
      then none
      else some (record {
        address = answer os;
        max = if ltb size max_alloc then size else max_alloc;
        passed = [];
        active =
            record {
              base = answer os + pool_bytes;
              last = answer os + pool_bytes + node_bytes;
              limit = answer os + pool_bytes + node_bytes + size;
              failed = 0;
            }
            ∷ [];
        tail = uninit;
        large = [];
      }),
  ask os,
)

-- The size of the head's block from the head on: `psize`.
unfoldable pub psize : List Node → ℕ
psize [] = 0
psize (h ∷ ns) = h.limit - h.base

-- The new node behind the last one, and the new `current`.
unfoldable pub link_node : Pool → Node → Pool
unfolding pass
link_node pool n =
    let (skipped, kept) = pass pool.active in
    record pool { passed = pool.passed ++ skipped; active = kept ++ n ∷ [] }

-- `mp_alloc_block`
unfoldable pub mp_alloc_block : Pool → ℕ → Os → ℕ × Pool × Os
unfolding ask psize link_node
mp_alloc_block pool size os =
    if answer os == 0
    then (0, pool, ask os)
    else let m = mp_align_ptr (answer os + node_bytes) in
      let new_node : Node = record {
        base = answer os;
        last = m + size;
        limit = answer os + psize (pool.passed ++ pool.active);
        failed = 0;
      } in
      (m, link_node pool new_node, ask os)

-- `mp_alloc` for a size up to `max`.
unfoldable pub alloc_small : Pool → ℕ → Os → Option (ℕ × Pool × Os)
unfolding place mp_alloc_block
alloc_small pool size os = elim (place size pool.active) [
  | some (m, nodes) ↦ some (m, record pool { active = nodes }, os)
  | none ↦ if pool.tail == 0 then some (mp_alloc_block pool size os) else none
]

-- The first of the entries from the n-th to the fourth that is empty takes p.
unfoldable pub reuse : ℕ → ℕ → List Large → Option (List Large)
reuse n p [] = none
reuse n p (l ∷ ls) =
    let rest = reuse (suc n) p ls in
    if l.alloc == 0
    then some (record l { alloc = p } ∷ ls)
    else if ltb 3 n
    then none
    else (do ks ← rest; some (l ∷ ks))

-- Whether the size bytes from q on lie in the block of a node, behind its struct.
unfoldable pub is_inside : (q size : ℕ) → List Node → Bool
is_inside q size [] = false
is_inside q size (n ∷ ns) =
    (leb (n.base + node_bytes) q && leb (q + size) n.limit) || is_inside q size ns

-- The entry for p, which lies in the pool at the address q; `none` where it would be written outside
-- the nodes' blocks, or over a node's struct.
unfoldable pub attach : ℕ → ℕ × Pool × Os → Option (ℕ × Pool × Os)
unfolding free is_inside
attach p (q, pool, os) =
    if q == 0
    then some (0, pool, free p os)
    else if is_inside q large_bytes (pool.passed ++ pool.active)
    then some (p, record pool { large = record { place = q; alloc = p } ∷ pool.large }, os)
    else none

-- `mp_alloc_large`, with `mp_alloc` given.
unfoldable pub mp_alloc_large :
    (Pool → ℕ → Os → Option (ℕ × Pool × Os)) → Pool → ℕ → Os → Option (ℕ × Pool × Os)
unfolding ask reuse attach
mp_alloc_large alloc pool size os =
    if answer os == 0 then some (0, pool, ask os) else elim (reuse 0 (answer os) pool.large) [
      | some ls ↦ some (answer os, record pool { large = ls }, ask os)
      | none ↦ (do r ← alloc pool large_bytes (ask os); attach (answer os) r)
    ]

-- `mp_alloc` and `mp_alloc_large` call one another; the fuel bounds the calls of `mp_alloc`.
unfoldable pub mp_alloc : ℕ → Pool → ℕ → Os → Option (ℕ × Pool × Os)
unfolding alloc_small mp_alloc_large
mp_alloc zero pool size os = none
mp_alloc (suc fuel) pool size os = elim (leb size pool.max) [
  | true ↦ alloc_small pool size os
  | false ↦ mp_alloc_large (mp_alloc fuel) pool size os
]

-- `mp_memalign`
unfoldable pub mp_memalign : ℕ → Pool → Os → Option (ℕ × Pool × Os)
unfolding ask mp_alloc attach
mp_memalign fuel pool os =
    if answer os == 0
    then some (0, pool, ask os)
    else (do r ← mp_alloc fuel pool large_bytes (ask os); attach (answer os) r)
