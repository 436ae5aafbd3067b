-- ===== src/MemPool/Release.antt =====
-- mem_pool/mempool.c: what gives memory back, which is mp_free, mp_reset_pool and mp_destory_pool.
use linux_cpp_learn.Prelude.{
  ℕ, ◌+◌, List, [], ◌∷◌, ◌++◌, Option, none, some, ◌>>=◌, ◌==◌, if◌then◌else◌,
}
use linux_cpp_learn.MemPool.Nodes.{Node, node_bytes}
use linux_cpp_learn.MemPool.{Large, Pool, Os, free}

-- The entries after the first with p was emptied, and whether there was one.
unfoldable pub clear : ℕ → List Large → Option (List Large)
clear p [] = none
clear p (l ∷ ls) =
    if l.alloc == p then some (record l { alloc = 0 } ∷ ls) else (do ks ← clear p ls; some (l ∷ ks))

unfoldable pub mp_free : Pool → ℕ → Os → Pool × Os
unfolding clear free
mp_free pool p os = elim (clear p pool.large) [
  | none ↦ (pool, os)
  | some ls ↦ (record pool { large = ls }, free p os)
]

-- The loop that frees the large blocks.
unfoldable pub free_large : List Large → Os → Os
unfolding free
free_large [] os = os
free_large (l ∷ ls) os = free_large ls (free l.alloc os)

unfoldable pub reset_nodes : List Node → List Node
reset_nodes [] = []
reset_nodes (n ∷ ns) = record n { last = n.base + node_bytes } ∷ reset_nodes ns

-- `mp_reset_pool`; `current` and the counts of failures stay.
unfoldable pub mp_reset_pool : Pool → Os → Option (Pool × Os)
unfolding free_large reset_nodes
mp_reset_pool pool os =
    if pool.tail == 0
    then some (
      record pool {
        large = [];
        passed = reset_nodes pool.passed;
        active = reset_nodes pool.active;
      },
      free_large pool.large os,
    )
    else none

-- The loop that frees the nodes behind the head.
unfoldable pub free_nodes : List Node → Os → Os
unfolding free
free_nodes [] os = os
free_nodes (n ∷ ns) os = free_nodes ns (free n.base os)

unfoldable pub free_rest : List Node → Os → Os
unfolding free_nodes
free_rest [] os = os
free_rest (h ∷ ns) os = free_nodes ns os

-- `mp_destory_pool`
unfoldable pub mp_destory_pool : Pool → Os → Option Os
unfolding free free_large free_rest
mp_destory_pool pool os =
    if pool.tail == 0
    then some
        (free pool.address (free_rest (pool.passed ++ pool.active) (free_large pool.large os)))
    else none
