-- ===== src/MemPool/Calloc.antt =====
-- mem_pool/mempool.c: mp_calloc, on a memory that is a function from addresses to bytes.
use linux_cpp_learn.Prelude.{
  range, ℕ, ◌+◌, ◌%◌, ◌≤◌, ◌<◌, ◌≡◌, ◌≢◌, ap, ◌∙◌, false, ◌&&◌, ◌||◌, Bool, [], ◌∷◌, ◌++◌,
  All-append, refl, List, Option, some, ◌>>=◌, leb, ltb, if◌then◌else◌, ◌==◌, arith, Bool-cases,
  inl, inr,
}
use linux_cpp_learn.MemPool.{Large, large_bytes, Pool, Os, mp_alloc}
use linux_cpp_learn.MemPool.Nodes.{Node, node_bytes, pool_bytes}
use linux_cpp_learn.MemPool.Overlap.{heads, IsTidy, taken-spans}
use linux_cpp_learn.MemPool.Regions.{Region, covered, Sound, handed}
use linux_cpp_learn.MemPool.Small.{Sound-mp_alloc}
use linux_cpp_learn.MemPool.Disjoint.{Sound-covered}

-- `memset(p, 0, size)`
unfoldable pub memset_zero : (p size : ℕ) → (ℕ → ℕ) → ℕ → ℕ
memset_zero p size mem x = if leb p x && ltb x (p + size) then 0 else mem x

-- Whether x lies in the struct of the pool or in that of one of its nodes.
unfoldable pub in_heads : ℕ → List Node → Bool
in_heads x [] = false
in_heads x (n ∷ ns) = (leb n.base x && ltb x (n.base + node_bytes)) || in_heads x ns

unfoldable pub in_structs : Pool → ℕ → Bool
unfolding in_heads
in_structs pool x =
    (leb pool.address x && ltb x (pool.address + pool_bytes))
    || in_heads x (pool.passed ++ pool.active)

-- What mp_alloc writes for any size: the fields of the pool and of its nodes (last, end, next,
-- failed, current), which have the bytes of `image` behind it.
unfoldable pub write_structs : (image : ℕ → ℕ) → Pool → (ℕ → ℕ) → ℕ → ℕ
unfolding in_structs
write_structs image pool mem x = if in_structs pool x then image x else mem x

-- Whether x lies in the entry of a large block.
unfoldable pub in_entries : ℕ → List Large → Bool
in_entries x [] = false
in_entries x (l ∷ ls) = (leb l.place x && ltb x (l.place + large_bytes)) || in_entries x ls

-- What mp_alloc_large writes, for a size that is not small: the fields of entries.
unfoldable pub write_entries : (image : ℕ → ℕ) (size : ℕ) → Pool → (ℕ → ℕ) → ℕ → ℕ
unfolding in_entries
write_entries image size pool mem x =
    if leb size pool.max then mem x else if in_entries x pool.large then image x else mem x

-- `mp_calloc`
unfoldable pub mp_calloc :
    ℕ → (image : ℕ → ℕ) → Pool → ℕ → Os → (ℕ → ℕ) → Option (ℕ × Pool × Os × (ℕ → ℕ))
unfolding mp_alloc memset_zero write_structs write_entries
mp_calloc fuel image pool size os mem = do
  (p, pool', os') ← mp_alloc fuel pool size os
  let written = write_structs image pool' (write_entries image size pool' mem) in
      some (p, pool', os', if p == 0 then written else memset_zero p size written)

-- The memory after mp_calloc handed out p.
abbrev cleared : (p size : ℕ) → (ℕ → ℕ) → ℕ → ℕ
cleared p size mem = if p == 0 then mem else memset_zero p size mem

cleared-in :
    (p size : ℕ) (mem : ℕ → ℕ) (x : ℕ) → p ≢ 0 → p ≤ x → x < p + size → cleared p size mem x ≡ 0
unfolding memset_zero
cleared-in p size mem x got lo hi =
    let e : (p == 0) ≡ false = ground arith in
    ap (λ b. (if b then mem else memset_zero p size mem) x) e ∙ ground (arith, lo, hi)

cleared-out :
    (p size : ℕ) (mem : ℕ → ℕ) (x : ℕ) (rs : List Region)
    → covered x (handed p size rs) ≤ 1
    → 0 < covered x rs
    → cleared p size mem x ≡ mem x
unfolding memset_zero covered range
cleared-out p size mem x rs once there = elim (Bool-cases (p == 0)) [
  | inl e ↦ ap (λ b. (if b then mem else memset_zero p size mem) x) e
  | inr e ↦
      ap (λ b. (if b then mem else memset_zero p size mem) x) e ∙ ground (arith, once, there, e)
]

heads-in_heads : (x : ℕ) (ns : List Node) → heads x ns ≡ 0 → in_heads x ns ≡ false
unfolding heads in_heads range
heads-in_heads x [] e = refl
heads-in_heads x (n ∷ ns) e = ground (arith, e, heads-in_heads x ns (omega (arith, e)))

range_out : (x lo hi : ℕ) → range x lo hi ≡ 0 → (leb lo x && ltb x hi) ≡ false
unfolding range
range_out x lo hi e = ground (arith, e)

handed-covered : (x m size : ℕ) (rs : List Region) → covered x rs ≤ covered x (handed m size rs)
unfolding covered
handed-covered x m size rs = ground arith

-- Where no byte is in two blocks, a byte that was handed out is in no struct.
handed-out :
    {w max : ℕ} {total : ℕ → ℕ} {rs : List Region} (pool : Pool) (os : Os) (x : ℕ)
    → Sound w max total pool os rs
    → total x ≤ 1
    → 0 < covered x rs
    → in_structs pool x ≡ false
unfolding in_structs
handed-out pool os x s once there =
    let ns = pool.passed ++ pool.active in
    let tidy = All-append IsTidy pool.passed pool.active s.passed_tidy s.active_tidy in
    let few = taken-spans x ns tidy in
    let none : heads x ns ≡ 0 = omega (arith, s.used x, s.apart x, few, once, there) in
    let out : range x pool.address (pool.address + pool_bytes) ≡ 0 =
      omega (arith, s.used x, s.apart x, few, once, there) in
    let own : (leb pool.address x && ltb x (pool.address + pool_bytes)) ≡ false =
      range_out x pool.address (pool.address + pool_bytes) out in
    rw (own, heads-in_heads x ns none) refl

unentered :
    (image : ℕ → ℕ) (size : ℕ) (pool : Pool) (mem : ℕ → ℕ) (x : ℕ)
    → size ≤ pool.max
    → write_entries image size pool mem x ≡ mem x
unfolding write_entries
unentered image size pool mem x small = ground (arith, small)

-- In a sound state whose blocks do not overlap, for a small size that is a multiple of 32, and
-- whatever mp_alloc writes into the structs of the pool and of its nodes: mp_calloc returns, the state
-- is sound again, the memory that it hands out is zero, and the bytes of the regions handed out before
-- are as they were; none of the bytes handed out lies in a struct.
pub mp_calloc_keeps :
    {w max : ℕ} {total : ℕ → ℕ} {rs : List Region} (image : ℕ → ℕ) (pool : Pool) (os : Os)
    (mem : ℕ → ℕ) (size : ℕ)
    → Sound w max total pool os rs
    → ((x : ℕ) → total x ≤ 1)
    → size % 32 ≡ 0
    → size ≤ max
    → (p : ℕ) × (pool' : Pool) × (os' : Os) × (mem' : ℕ → ℕ) × (mp_calloc 2 image pool size os mem
        ≡ some (p, pool', os', mem'))
      × Sound w max total pool' os' (handed p size rs)
      × ((x : ℕ) → p ≢ 0 → p ≤ x → x < p + size → mem' x ≡ 0)
      × ((x : ℕ) → 0 < covered x rs → mem' x ≡ mem x)
      × ((x : ℕ) → 0 < covered x (handed p size rs) → in_structs pool' x ≡ false)
unfolding mp_calloc write_structs
mp_calloc_keeps {w} {max} {total} {rs} image pool os mem size s once whole small =
    let (p, pool', os', e, s') = Sound-mp_alloc pool os size s whole small in
    let entered = write_entries image size pool' mem in
    let written = write_structs image pool' entered in
    (
      p,
      pool',
      os',
      cleared p size written,
      ground (arith, e),
      s',
      λ x got lo hi. cleared-in p size written x got lo hi,
      λ x there.
          cleared-out p size written x rs (omega (arith, Sound-covered pool' os' x s', once x))
            there
          ∙ ap (λ b. if b then image x else entered x)
              (handed-out pool' os' x s' (once x)
                (omega (arith, there, handed-covered x p size rs)))
          ∙ unentered image size pool' mem x (omega (arith, small, s'.same_max)),
      λ x there. handed-out pool' os' x s' (once x) there,
    )
