-- ===== src/MemPool/Tests.antt =====
-- Pools of a few sizes, and programs that use them.
use linux_cpp_learn.Prelude.{
  false, range, ◌<◌, ◌+◌, ◌≤◌, All, ℕ, ◌≡◌, ◌≢◌, ◌⊎◌, refl, List, [], ◌∷◌, some, none, arith,
}
use linux_cpp_learn.MemPool.{max_alloc, Pool, Os, answer, mp_create_pool, mp_alloc, psize}
use linux_cpp_learn.MemPool.Nodes.{place}
use linux_cpp_learn.MemPool.Bounds.{
  IsSized, Cut, NewBlock, pool_at, os_at, alloc_within, default_pool_overruns,
}
use linux_cpp_learn.MemPool.Fuel.{mp_alloc_recurs}
use linux_cpp_learn.MemPool.Overlap.{taken, spans}
use linux_cpp_learn.MemPool.Calloc.{in_structs, mp_calloc, mp_calloc_keeps}
use linux_cpp_learn.MemPool.Regions.{Sound, handed, Region, covered, blocks, take_all, IsAligned}
use linux_cpp_learn.MemPool.Disjoint.{take_all_disjoint}
use linux_cpp_learn.MemPool.Session.{Call, alloc, memalign, frees_block, reset_all, fresh, session}

-- A pool of 4096 bytes at the address 4096, as it is new.
abbrev new_pool : Pool
new_pool = pool_at 4096 4152

new_pool-IsSized : IsSized new_pool
unfolding psize
new_pool-IsSized = record {
  roomy = (record { aligned_in = omega arith; no_wrap = omega arith; low = omega arith }, tt);
  sized = omega arith;
}

small_alloc :
    (◌≡◌ {A = ℕ} 4160 0)
    ⊎ (Cut new_pool.active (pool_at 4096 4260).active 4160 100
        ⊎ NewBlock new_pool (answer (fresh (8192 ∷ []))) 4160 100)
unfolding mp_alloc place psize
small_alloc =
    alloc_within 1 100 4160 new_pool (pool_at 4096 4260) (fresh (8192 ∷ [])) (fresh (8192 ∷ []))
      new_pool-IsSized (omega arith) (omega arith) (omega arith) refl

default_pool_overruns_example :
    (pool : Pool) × (pool1 : Pool) × (pool2 : Pool) × (os : Os) × (mp_create_pool 0 4096
        (os_at (4096 ∷ []) [])
      ≡ (some pool, os))
    × (mp_alloc 2 pool 4080 os ≡ some (4160, pool1, os))
    × (mp_alloc 2 pool1 100 os ≡ some (8256, pool2, os))
default_pool_overruns_example =
    default_pool_overruns 4096 4080 100 [] refl (omega arith) (omega arith) (omega arith)
      (omega arith) (omega arith)

-- Two blocks that follow the pool.
later_IsAligned : All (IsAligned 4128) (16384 ∷ 32768 ∷ [])
later_IsAligned = (
  record { aligned = refl; low = omega arith },
  (record { aligned = refl; low = omega arith }, tt),
)

take_all_disjoint_example :
    (pool : Pool) × (os : Os) × (rs : List Region) × (pool' : Pool) × (os' : Os) × (mp_create_pool 0
        4096
        (fresh (4096 ∷ 16384 ∷ 32768 ∷ []))
      ≡ (some pool, os))
    × (take_all (2048 ∷ 1024 ∷ 2048 ∷ 3200 ∷ []) [] pool os ≡ some (rs, pool', os'))
    × ((x : ℕ) → covered x rs ≤ range x 4096 8248 + blocks x 4128 (16384 ∷ 32768 ∷ []))
take_all_disjoint_example =
    take_all_disjoint 4096 4096 (2048 ∷ 1024 ∷ 2048 ∷ 3200 ∷ []) (16384 ∷ 32768 ∷ []) (omega arith)
      (omega arith) refl (omega arith) later_IsAligned
      ((refl, omega arith), ((refl, omega arith), ((refl, omega arith), ((refl, omega arith), tt))))

-- A pool for sizes of up to 8 bytes.
abbrev tiny_pool : Pool
tiny_pool = record new_pool { max = 8 }

tiny_pool_recurs : mp_alloc 3 tiny_pool 100 (fresh (8192 ∷ 12288 ∷ 16384 ∷ [])) ≡ none
tiny_pool_recurs =
    mp_alloc_recurs 3 tiny_pool 100 (fresh (8192 ∷ 12288 ∷ 16384 ∷ [])) (omega arith) (omega arith)
      refl (omega arith, (omega arith, (omega arith, tt))) (omega arith)

-- Two large blocks, one of which is freed, blocks of the pool, and a reset.
abbrev calls : List Call
calls =
    alloc 5000
    ∷ alloc 6000
    ∷ frees_block 8192
    ∷ alloc 4000
    ∷ alloc 216
    ∷ memalign
    ∷ reset_all
    ∷ alloc 9000
    ∷ []

abbrev session_answers : List ℕ
session_answers = 8192 ∷ 16384 ∷ 32768 ∷ 65536 ∷ 131072 ∷ []

-- The system gave six blocks.
session_given :
    (os : Os) × (session 0 4104 calls (fresh (4096 ∷ session_answers)) ≡ some os)
    × (os.given ≡ 131072 ∷ 65536 ∷ 32768 ∷ 16384 ∷ 8192 ∷ 4096 ∷ [])
unfolding session place
session_given = (_, refl, refl)

-- In a pool for 4096 bytes, 4080 bytes and then a large block: the entry would lie outside the block.
entry_outside : session 0 4096 (alloc 4080 ∷ alloc 8192 ∷ []) (fresh (4096 ∷ 16384 ∷ [])) ≡ none
unfolding session place
entry_outside = refl

-- The pool after 64 bytes were handed out.
abbrev used_pool : Pool
used_pool = pool_at 4096 4224

abbrev used_region : List Region
used_region = record { first = 4160; size = 64 } ∷ []

used_pool-Sound : Sound 4128 max_alloc (λ x. range x 4096 8248) used_pool (fresh []) used_region
unfolding psize covered taken spans blocks range
used_pool-Sound = record {
  passed_tidy = tt;
  active_tidy = (
    record {
      above = omega arith;
      below = omega arith;
      aligned_below = omega arith;
      low = omega arith;
    },
    tt,
  );
  width = refl;
  same_max = refl;
  sized = omega arith;
  ended = refl;
  fit = tt;
  used = λ x. ground arith;
  apart = λ x. ground arith;
}

range_once : (x lo hi : ℕ) → range x lo hi ≤ 1
unfolding range
range_once x lo hi = ground arith

mp_calloc_keeps_example :
    (p : ℕ) × (pool' : Pool) × (os' : Os) × (mem' : ℕ → ℕ) × (mp_calloc 2
        (λ x. 255)
        used_pool
        32
        (fresh [])
        (λ x. 7)
      ≡ some (p, pool', os', mem'))
    × Sound 4128 max_alloc (λ x. range x 4096 8248) pool' os' (handed p 32 used_region)
    × ((x : ℕ) → p ≢ 0 → p ≤ x → x < p + 32 → mem' x ≡ 0)
    × ((x : ℕ) → 0 < covered x used_region → mem' x ≡ 7)
    × ((x : ℕ) → 0 < covered x (handed p 32 used_region) → in_structs pool' x ≡ false)
mp_calloc_keeps_example =
    mp_calloc_keeps (λ x. 255) used_pool (fresh []) (λ x. 7) 32 used_pool-Sound
      (λ x. range_once x 4096 8248) refl (omega arith)
