-- ===== src/MemPool/Session.antt =====
-- A program that makes a pool of mem_pool/mempool.c, uses it and destroys it.
use linux_cpp_learn.Prelude.{◌<◌, ◌⊎◌, ℕ, List, [], ◌∷◌, Option, some, ◌>>=◌}
use linux_cpp_learn.MemPool.{Pool, Os, max_alloc, mp_create_pool, mp_alloc, mp_memalign}
use linux_cpp_learn.MemPool.Release.{mp_free, mp_reset_pool, mp_destory_pool}
use linux_cpp_learn.MemPool.Inside.{Inside}
use linux_cpp_learn.MemPool.Snug.{IsEven}

-- A call of the program, which is given the addresses that it frees.
pub data Call : Type 0 where
  alloc : ℕ → Call
  memalign : Call
  frees_block : ℕ → Call
  reset_all : Call

-- A call of mp_alloc, with two calls of it at most, and so on.
unfoldable pub apply : Call → Pool → Os → Option (Pool × Os)
unfolding mp_alloc mp_memalign mp_free mp_reset_pool
apply (alloc size) pool os = do (m, pool', os') ← mp_alloc 2 pool size os; some (pool', os')
apply memalign pool os = do (m, pool', os') ← mp_memalign 2 pool os; some (pool', os')
apply (frees_block p) pool os = some (mp_free pool p os)
apply reset_all pool os = mp_reset_pool pool os

unfoldable pub apply_all : List Call → Pool → Os → Option (Pool × Os)
unfolding apply
apply_all [] pool os = some (pool, os)
apply_all (c ∷ cs) pool os = do (pool', os') ← apply c pool os; apply_all cs pool' os'

-- mp_create_pool, the calls, mp_destory_pool.
unfoldable pub session : (uninit size : ℕ) → List Call → Os → Option Os
unfolding mp_create_pool apply_all mp_destory_pool
session uninit size calls os = do
  pool ← (mp_create_pool uninit size os).0
  (pool', os') ← apply_all calls pool (mp_create_pool uninit size os).1
  mp_destory_pool pool' os'

-- A request that is not for a small size, or for one whose remainder by 32 is 0, or 16 or more.
abbrev pub IsFit : Call → Type 0
IsFit (alloc size) = IsEven size ⊎ (max_alloc < size)
IsFit memalign = Unit
IsFit (frees_block p) = Unit
IsFit reset_all = Unit

-- The system at the start, with the answers that it will give.
abbrev pub fresh : List ℕ → Os
fresh answers = record { answers = answers; given = []; freed = [] }
