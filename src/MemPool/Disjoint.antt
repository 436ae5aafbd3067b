-- ===== src/MemPool/Disjoint.antt =====
-- The memory handed out by mem_pool/mempool.c for small sizes: no byte twice.
use linux_cpp_learn.Prelude.{
  range, ℕ, ◌+◌, ◌%◌, ◌^◌, ◌≤◌, ◌<◌, ◌≡◌, ◌≢◌, refl, ap, sym, List, [], ◌∷◌, ◌++◌, some, ltb,
  if◌then◌else◌, arith, All, All-append,
}
use mathlib.Core.Path.{subst}
use linux_cpp_learn.MemPool.{Pool, Os, ask, max_alloc, mp_create_pool, psize}
use linux_cpp_learn.MemPool.Nodes.{Node, pool_bytes, node_bytes, room}
use linux_cpp_learn.MemPool.Session.{fresh}
use linux_cpp_learn.MemPool.Overlap.{spans, IsTidy, taken-spans}
use linux_cpp_learn.MemPool.Regions.{Region, covered, blocks, take_all, IsAligned, Sound, handed}
use linux_cpp_learn.MemPool.Small.{Sound-mp_alloc}

Sound-take_all :
    {w max : ℕ} {total : ℕ → ℕ} (sizes : List ℕ) (rs : List Region) (pool : Pool) (os : Os)
    → Sound w max total pool os rs
    → All (λ size. (size % 32 ≡ 0) × (size ≤ max)) sizes
    → (rs' : List Region) × (pool' : Pool) × (os' : Os) × (take_all sizes rs pool os
        ≡ some (rs', pool', os'))
      × Sound w max total pool' os' rs'
unfolding take_all
Sound-take_all [] rs pool os s ok = (rs, pool, os, refl, s)
Sound-take_all (size ∷ sizes) rs pool os s ((whole, small), ok) =
    let (m, pool1, os1, e, s1) = Sound-mp_alloc pool os size s whole small in
    let (rs2, pool2, os2, f, s2) = Sound-take_all sizes (handed m size rs) pool1 os1 s1 ok in
    (rs2, pool2, os2, ground (arith, e, f), s2)

pub Sound-covered :
    {w max : ℕ} {total : ℕ → ℕ} {rs : List Region} (pool : Pool) (os : Os) (x : ℕ)
    → Sound w max total pool os rs
    → covered x rs ≤ total x
Sound-covered pool os x s =
    let tidy = All-append IsTidy pool.passed pool.active s.passed_tidy s.active_tidy in
    omega (arith, s.used x, taken-spans x (pool.passed ++ pool.active) tidy, s.apart x)

-- The head of a new pool of this size at p.
abbrev pub head_of : (p size : ℕ) → Node
head_of p size = record {
  base = p + pool_bytes;
  last = p + pool_bytes + node_bytes;
  limit = p + pool_bytes + node_bytes + size;
  failed = 0;
}

-- The largest size that mp_alloc takes from the nodes.
abbrev pub largest : ℕ → ℕ
largest size = if ltb size max_alloc then size else max_alloc

abbrev pub pool_of : (p size : ℕ) → Pool
pool_of p size = record {
  address = p;
  max = largest size;
  passed = [];
  active = head_of p size ∷ [];
  tail = 0;
  large = [];
}

pub Sound-pool_of :
    (size p : ℕ) (answers : List ℕ) (os : Os)
    → 8 ≤ size
    → p % 32 ≡ 0
    → p + size + 87 < 2 ^ 64
    → os.answers ≡ answers
    → All (IsAligned (size + node_bytes)) answers
    → Sound
        (size + node_bytes)
        (largest size)
        (λ x. range x p (p + 56 + size) + blocks x (size + node_bytes) answers)
        (pool_of p size)
        os
        []
unfolding psize covered spans range
Sound-pool_of size p answers os room aligned low e fit = record {
  passed_tidy = tt;
  active_tidy = (
    record {
      above = omega arith;
      below = omega arith;
      aligned_below = omega (arith, room, aligned, low);
      low = omega (arith, low);
    },
    tt,
  );
  width = omega arith;
  same_max = refl;
  sized = ground arith;
  ended = refl;
  fit = subst (All (IsAligned (size + node_bytes))) (sym e) fit;
  used = λ x. omega arith;
  apart = λ x. let same = ap (blocks x (size + node_bytes)) e in ground (arith, same);
}

-- A pool of `size` bytes, 8 at least, at an aligned address p, the memory for whose head's pointer
-- next happens to hold NULL; posix_memalign later answers NULL or the aligned address of a new block,
-- and no block wraps around. For any sequence of sizes that are multiples of 32 and at most the
-- pool's max: all calls of mp_alloc return, and each byte is in no more of the regions handed out than
-- there are blocks of the system's with it. So if the blocks do not overlap, the regions lie in them
-- and do not overlap.
pub take_all_disjoint :
    (size p : ℕ) (sizes answers : List ℕ)
    → 8 ≤ size
    → p ≢ 0
    → p % 32 ≡ 0
    → p + size + 87 < 2 ^ 64
    → All (IsAligned (size + node_bytes)) answers
    → All (λ s. (s % 32 ≡ 0) × (s ≤ largest size)) sizes
    → (pool : Pool) × (os : Os) × (rs : List Region) × (pool' : Pool) × (os' : Os) × (mp_create_pool
          0 size
          (fresh (p ∷ answers))
        ≡ (some pool, os))
      × (take_all sizes [] pool os ≡ some (rs, pool', os'))
      × ((x : ℕ) → covered x rs ≤ range x p (p + 56 + size) + blocks x (size + node_bytes) answers)
unfolding mp_create_pool ask
take_all_disjoint size p sizes answers room got aligned low fit ok =
    let os : Os = record { answers = answers; given = p ∷ []; freed = [] } in
    let s = Sound-pool_of size p answers os room aligned low refl fit in
    let (rs, pool', os', f, s') = Sound-take_all sizes [] (pool_of p size) os s ok in
    (pool_of p size, os, rs, pool', os', ground (arith, got), f, λ x. Sound-covered pool' os' x s')
