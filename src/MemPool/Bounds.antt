-- ===== src/MemPool/Bounds.antt =====
-- Where the memory handed out by mem_pool/mempool.c lies.
use linux_cpp_learn.Prelude.{
  ℕ, suc, ◌+◌, ◌%◌, ◌^◌, ◌≤◌, ◌<◌, ◌≡◌, ◌≢◌, ◌⊎◌, inl, inr, refl, ap, List, [], ◌∷◌, ◌++◌, some,
  leb, if◌then◌else◌, get_elem?, set, All, arith, Bool-cases, Option-cases, ◌==◌,
}
use linux_cpp_learn.MemPool.{
  Pool, Os, answer, max_alloc, mp_create_pool, psize, mp_alloc_block, alloc_small, mp_alloc,
}
use linux_cpp_learn.MemPool.Nodes.{Node, pool_bytes, node_bytes, mp_align_ptr, room, place}

-- The next aligned address of the node is within its block.
pub record IsRoomy (n : Node) : Type 0 where
  pub aligned_in : mp_align_ptr n.last ≤ n.limit
  pub no_wrap : n.last + 31 < 2 ^ 64
  pub low : n.limit < 2 ^ 64

-- The memory from m on is cut off a node of ns, and ns' is ns with this recorded.
pub record Cut (ns ns' : List Node) (m size : ℕ) : Type 0 where
  pub index : ℕ
  pub node : Node
  pub there : get_elem? ns index ≡ some node
  pub unused : node.last ≤ m
  pub aligned : m % 32 ≡ 0
  pub within : m + size ≤ node.limit
  pub recorded : ns' ≡ set ns index (record node { last = m + size })

place-here :
    (size : ℕ) (n : Node) (ns : List Node)
    → IsRoomy n
    → size ≤ room n.limit (mp_align_ptr n.last)
    → Cut (n ∷ ns) (record n { last = mp_align_ptr n.last + size } ∷ ns) (mp_align_ptr n.last) size
place-here size n ns r fits = record {
  index = 0;
  node = n;
  there = refl;
  unused = omega (arith, r.no_wrap);
  aligned = omega arith;
  within = omega (arith, r.aligned_in, r.low);
  recorded = refl;
}

place-Cut :
    (size : ℕ) (ns : List Node) (m : ℕ) (ns' : List Node)
    → All IsRoomy ns
    → place size ns ≡ some (m, ns')
    → Cut ns ns' m size
unfolding place
place-Cut size [] m ns' r e = cc
place-Cut size (n ∷ ns) m ns' (r, rs) e =
    elim (Bool-cases (leb size (room n.limit (mp_align_ptr n.last)))) [
      | inl fits ↦
          let at : mp_align_ptr n.last ≡ m = ground (arith, e, fits) in
          let out : record n { last = mp_align_ptr n.last + size } ∷ ns ≡ ns' =
            ground (arith, e, fits) in
          rw (← at, ← out) (place-here size n ns r (ground (arith, fits)))
      | inr full ↦ elim (Option-cases (place size ns)) [
        | inl f ↦ absurd (ground (arith, e, full, f))
        | inr ((k, ms), f) ↦
            let c = place-Cut size ns k ms rs f in
            let at : k ≡ m = ground (arith, e, full, f) in
            let out : n ∷ ms ≡ ns' = ground (arith, e, full, f) in
            rw (← at, ← out)
              (record {
                index = suc c.index;
                node = c.node;
                there = c.there;
                unused = c.unused;
                aligned = c.aligned;
                within = c.within;
                recorded = ap (λ (xs : List Node). n ∷ xs) c.recorded;
              })
      ]
    ]

-- The pool's blocks have room for the largest small size.
pub record IsSized (pool : Pool) : Type 0 where
  pub roomy : All IsRoomy pool.active
  pub sized : pool.max + node_bytes ≤ psize (pool.passed ++ pool.active)

-- The memory from m on is the start of a new block of the size of the head's.
pub record NewBlock (pool : Pool) (a m size : ℕ) : Type 0 where
  pub given : a ≢ 0
  pub behind : m ≡ a + node_bytes
  pub aligned : m % 32 ≡ 0
  pub within : m + size ≤ a + psize (pool.passed ++ pool.active)

mp_alloc_block-address :
    (pool : Pool) (size : ℕ) (os : Os)
    → (mp_alloc_block pool size os).0
      ≡ (if answer os == 0 then 0 else mp_align_ptr (answer os + node_bytes))
unfolding mp_alloc_block
mp_alloc_block-address pool size os = ground arith

-- A size of at most `max`, in a pool of which each active node's next aligned address is within its
-- block, and whose blocks are large enough, where posix_memalign answers NULL or an aligned address of
-- a block that does not wrap around: `mp_alloc` hands out NULL, or aligned memory within the unused
-- part of a node, which the node then counts as used, or aligned memory within a new block.
pub alloc_within :
    (fuel size m : ℕ) (pool pool' : Pool) (os os' : Os)
    → IsSized pool
    → size ≤ pool.max
    → answer os % 32 ≡ 0
    → answer os + psize (pool.passed ++ pool.active) < 2 ^ 64
    → mp_alloc (suc fuel) pool size os ≡ some (m, pool', os')
    → (m ≡ 0) ⊎ (Cut pool.active pool'.active m size ⊎ NewBlock pool (answer os) m size)
unfolding mp_alloc alloc_small
alloc_within fuel size m pool pool' os os' v small aligned low e =
    elim (Option-cases (place size pool.active)) [
      | inr ((k, ns), f) ↦
          let at : k ≡ m = ground (arith, e, f) in
          let out : ns ≡ pool'.active = ground (arith, e, f) in
          inr (inl (rw (← at, ← out) (place-Cut size pool.active k ns v.roomy f)))
      | inl f ↦ elim (Bool-cases (answer os == 0)) [
        | inl out ↦ inl (ground (arith, e, f, mp_alloc_block-address pool size os, out))
        | inr got ↦
            let at : m ≡ answer os + node_bytes =
              ground
                (arith, e, f, mp_alloc_block-address pool size os, got, aligned, low, v.sized) in
            inr (
              inr (record {
                given = ground arith;
                behind = at;
                aligned = omega (arith, at, aligned);
                within = omega (arith, at, v.sized, small);
              }))
      ]
    ]

-- A pool of 4096 bytes from the aligned address p.
abbrev pub head_at : ℕ → ℕ → Node
head_at p last = record { base = p + pool_bytes; last = last; limit = p + 56 + 4096; failed = 0 }

abbrev pub pool_at : ℕ → ℕ → Pool
pool_at p last = record {
  address = p;
  max = max_alloc;
  passed = [];
  active = head_at p last ∷ [];
  tail = 0;
  large = [];
}

abbrev pub os_at : List ℕ → List ℕ → Os
os_at answers given = record { answers = answers; given = given; freed = [] }

-- In a pool of 4096 bytes, which ends 4152 bytes behind its address p: after an allocation of more
-- than 4064 and at most 4088 bytes, the next of at most 4095 bytes gets the memory from 4160 bytes
-- behind p on, which is outside the pool, with no further memory from posix_memalign.
pub default_pool_overruns :
    (p size1 size2 : ℕ) (rest : List ℕ)
    → p % 32 ≡ 0
    → 0 < p
    → p + 16384 < 2 ^ 64
    → 4064 < size1
    → size1 ≤ 4088
    → size2 ≤ max_alloc
    → (pool : Pool) × (pool1 : Pool) × (pool2 : Pool) × (os : Os) × (mp_create_pool 0 4096
          (os_at (p ∷ rest) [])
        ≡ (some pool, os))
      × (mp_alloc 2 pool size1 os ≡ some (p + 64, pool1, os))
      × (mp_alloc 2 pool1 size2 os ≡ some (p + 4160, pool2, os))
unfolding mp_create_pool mp_alloc
default_pool_overruns p size1 size2 rest a pos low s1 s1' s2 = (
  pool_at p (p + 56),
  pool_at p (p + 64 + size1),
  pool_at p (p + 4160 + size2),
  os_at rest (p ∷ []),
  ground (arith, pos),
  ground arith,
  ground arith,
)
