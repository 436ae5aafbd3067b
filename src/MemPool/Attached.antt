-- ===== src/MemPool/Attached.antt =====
-- mem_pool/mempool.c: the entries for the large blocks of a pool lie in its nodes' blocks.
use linux_cpp_learn.Prelude.{
  ℕ, ◌+◌, ◌≤◌, ◌<◌, ◌≡◌, inl, inr, refl, List, [], ◌∷◌, ◌++◌, some, leb, arith, Bool-cases,
  Option-cases, ◌==◌, ◌⊎◌, ap, sym, ◌∙◌,
}
use linux_cpp_learn.MemPool.{
  Large, psize, Pool, Os, answer, ask, free, large_bytes, reuse, attach, mp_alloc, mp_alloc_large,
  mp_memalign,
}
use linux_cpp_learn.MemPool.Release.{clear, mp_free, free_large, reset_nodes}
use linux_cpp_learn.MemPool.Inside.{Inside, Inside-ask, Hands, Hands-alloc_small}
use linux_cpp_learn.MemPool.Snug.{IsEven, reset_nodes-IsSnug}
use linux_cpp_learn.MemPool.Nodes.{Node, node_bytes}

-- The list of large blocks plays no part.
Inside-large :
    {w : ℕ} (pool : Pool) (os : Os) (ls : List Large)
    → Inside w pool os
    → Inside w (record pool { large = ls }) os
Inside-large pool os ls s = record {
  passed_snug = s.passed_snug;
  active_snug = s.active_snug;
  width = s.width;
  small = s.small;
  low = s.low;
  rest = s.rest;
  ended = s.ended;
  fit = s.fit;
}

-- Only the answers of the system play a part.
Inside-os :
    {w : ℕ} (pool : Pool) (os os' : Os)
    → os'.answers ≡ os.answers
    → Inside w pool os
    → Inside w pool os'
Inside-os {w} pool os os' e s = record {
  passed_snug = s.passed_snug;
  active_snug = s.active_snug;
  width = s.width;
  small = s.small;
  low = s.low;
  rest = s.rest;
  ended = s.ended;
  fit = rw e s.fit;
}

free-answers : (p : ℕ) (os : Os) → (free p os).answers ≡ os.answers
unfolding free
free-answers p os = ground arith

-- An entry has its place in a block.
Inside-attach :
    {w : ℕ} (p : ℕ) (r : ℕ × Pool × Os)
    → Hands w large_bytes r
    → (r' : ℕ × Pool × Os) × (attach p r ≡ some r') × Inside w r'.1 r'.2
unfolding attach
Inside-attach p (q, pool, os) h = elim (Bool-cases (q == 0)) [
  | inl null ↦ (
    (0, pool, free p os),
    ground (arith, null),
    Inside-os pool os (free p os) (free-answers p os) h.still,
  )
  | inr at ↦
      let ls = record { place = q; alloc = p } ∷ pool.large in
      (
        (p, record pool { large = ls }, os),
        ground (arith, at, h.within (ground (arith, at))),
        Inside-large pool os ls h.still,
      )
]

large_returns :
    {w : ℕ} (pool : Pool) (size : ℕ) (os : Os)
    → Inside w pool os
    → large_bytes ≤ pool.max
    → pool.max < size
    → (r : ℕ × Pool × Os) × (mp_alloc 2 pool size os ≡ some r) × Inside w r.1 r.2
unfolding mp_alloc mp_alloc_large
large_returns {w} pool size os s roomy big = elim (Bool-cases (answer os == 0)) [
  | inl out ↦ ((0, pool, ask os), ground (arith, big, out), Inside-ask pool os s)
  | inr got ↦ elim (Option-cases (reuse 0 (answer os) pool.large)) [
    | inr (ls, f) ↦ (
      (answer os, record pool { large = ls }, ask os),
      ground (arith, big, got, f),
      Inside-large pool (ask os) ls (Inside-ask pool os s),
    )
    | inl f ↦
        let (r, e, h) =
          Hands-alloc_small pool large_bytes (ask os) (Inside-ask pool os s) (omega arith) roomy in
        let (r', g, s') = Inside-attach (answer os) r h in
        (r', ground (arith, big, got, f, e, g, roomy), s')
  ]
]

-- In such a pool, with small sizes of 16 bytes or more, mp_alloc returns for a size that is not small
-- or has a remainder by 32 of 0, or 16 or more: two calls of it are enough, and no entry lies outside.
pub Inside-mp_alloc :
    {w : ℕ} (pool : Pool) (size : ℕ) (os : Os)
    → Inside w pool os
    → large_bytes ≤ pool.max
    → IsEven size ⊎ (pool.max < size)
    → (r : ℕ × Pool × Os) × (mp_alloc 2 pool size os ≡ some r) × Inside w r.1 r.2
unfolding mp_alloc mp_alloc_large
Inside-mp_alloc {w} pool size os s roomy (inl even) = elim (Bool-cases (leb size pool.max)) [
  | inl small ↦
      let (r, e, h) = Hands-alloc_small pool size os s even (ground (arith, small)) in
      (r, ground (arith, e, small), h.still)
  | inr big ↦ large_returns pool size os s roomy (ground (arith, big))
]
Inside-mp_alloc {w} pool size os s roomy (inr big) = large_returns pool size os s roomy big

pub Inside-mp_memalign :
    {w : ℕ} (pool : Pool) (os : Os)
    → Inside w pool os
    → large_bytes ≤ pool.max
    → (r : ℕ × Pool × Os) × (mp_memalign 2 pool os ≡ some r) × Inside w r.1 r.2
unfolding mp_memalign mp_alloc
Inside-mp_memalign pool os s roomy = elim (Bool-cases (answer os == 0)) [
  | inl out ↦ ((0, pool, ask os), ground (arith, out), Inside-ask pool os s)
  | inr got ↦
      let (r, e, h) =
        Hands-alloc_small pool large_bytes (ask os) (Inside-ask pool os s) (omega arith) roomy in
      let (r', g, s') = Inside-attach (answer os) r h in (r', ground (arith, got, e, g, roomy), s')
]

pub Inside-mp_free :
    {w : ℕ} (pool : Pool) (p : ℕ) (os : Os)
    → Inside w pool os
    → Inside w (mp_free pool p os).0 (mp_free pool p os).1
unfolding mp_free
Inside-mp_free pool p os s = elim (Option-cases (clear p pool.large)) [
  | inl e ↦ let out : mp_free pool p os ≡ (pool, os) = ground (arith, e) in rw out s
  | inr (ls, e) ↦
      let out : mp_free pool p os ≡ (record pool { large = ls }, free p os) = ground (arith, e) in
      rw out (
        Inside-os (record pool { large = ls }) os (free p os) (free-answers p os)
          (Inside-large pool os ls s))
]

free_large-answers : (ls : List Large) (os : Os) → (free_large ls os).answers ≡ os.answers
unfolding free_large
free_large-answers [] os = refl
free_large-answers (l ∷ ls) os = free_large-answers ls (free l.alloc os) ∙ free-answers l.alloc os

reset_nodes-++ : (ns ks : List Node) → reset_nodes (ns ++ ks) ≡ reset_nodes ns ++ reset_nodes ks
unfolding reset_nodes
reset_nodes-++ [] ks = refl
reset_nodes-++ (n ∷ ns) ks =
    ap (λ xs. record n { last = n.base + node_bytes } ∷ xs) (reset_nodes-++ ns ks)

psize-reset_nodes : (ns : List Node) → psize (reset_nodes ns) ≡ psize ns
unfolding reset_nodes psize
psize-reset_nodes [] = refl
psize-reset_nodes (n ∷ ns) = refl

pub Inside-reset :
    {w : ℕ} (pool : Pool) (os : Os)
    → Inside w pool os
    → Inside w
        (record pool {
          large = [];
          passed = reset_nodes pool.passed;
          active = reset_nodes pool.active;
        })
        (free_large pool.large os)
Inside-reset pool os s = record {
  passed_snug = reset_nodes-IsSnug pool.passed s.passed_snug;
  active_snug = reset_nodes-IsSnug pool.active s.active_snug;
  width =
      ap psize (sym (reset_nodes-++ pool.passed pool.active))
      ∙ (psize-reset_nodes (pool.passed ++ pool.active) ∙ s.width);
  small = s.small;
  low = s.low;
  rest = s.rest;
  ended = s.ended;
  fit = rw (free_large-answers pool.large os) s.fit;
}
