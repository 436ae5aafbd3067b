-- ===== src/MemPool/Destroyed.antt =====
-- mem_pool/mempool.c: mp_destory_pool frees all that a balanced pool holds.
use linux_cpp_learn.Prelude.{count, ℕ, ◌≡◌, ◌≢◌, refl, ap, List, [], ◌∷◌, ◌++◌, some, arith}
use linux_cpp_learn.MemPool.{Pool, Os, free}
use linux_cpp_learn.MemPool.Release.{mp_destory_pool, free_large, free_rest}
use linux_cpp_learn.MemPool.Nodes.{Node}
use linux_cpp_learn.MemPool.Counts.{
  bases, Frees, Frees-then, Frees-free, Frees-free_large, Frees-free_nodes,
}
use linux_cpp_learn.MemPool.Balance.{behind, Balanced}

free_rest_lem :
    (a : ℕ) (ns : List Node) (os : Os)
    → a ≢ 0
    → Frees a (count a (behind (bases ns))) os (free_rest ns os)
unfolding free_rest behind bases count
free_rest_lem a [] os v = record { more = omega arith; same_given = refl; same_answers = refl }
free_rest_lem a (n ∷ ns) os v = Frees-free_nodes a ns os v

pub mp_destory_pool_lem :
    (pool : Pool) (os : Os)
    → Balanced pool os []
    → (os' : Os) × (mp_destory_pool pool os ≡ some os')
      × ((a : ℕ) → a ≢ 0 → count a os'.given ≡ count a os'.freed)
unfolding mp_destory_pool count
mp_destory_pool_lem pool os b =
    let ns = pool.passed ++ pool.active in
    let os1 = free_large pool.large os in
    let os2 = free_rest ns os1 in
    let os3 = free pool.address os2 in
    (
      os3,
      ground (arith, b.ended),
      λ a v.
          let f =
            Frees-then (Frees-free_large a pool.large os v)
              (Frees-then (free_rest_lem a ns os1 v) (Frees-free a pool.address os2 v)) in
          omega (arith, b.even a v, f.more, ap (count a) f.same_given),
    )
