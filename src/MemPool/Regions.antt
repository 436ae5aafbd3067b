-- ===== src/MemPool/Regions.antt =====
-- The memory that mem_pool/mempool.c hands out for small sizes, against the blocks that it lies in.
use linux_cpp_learn.Prelude.{
  range, ℕ, ◌+◌, ◌%◌, ◌^◌, ◌≤◌, ◌<◌, ◌≡◌, inl, inr, ap, sym, ◌∙◌, List, [], ◌∷◌, ◌++◌, Option, some,
  ◌>>=◌, if◌then◌else◌, arith, List-cases, ◌==◌, All,
}
use mathlib.Core.Path.{subst}
use linux_cpp_learn.MemPool.{Pool, Os, answer, ask, psize, mp_alloc}
use linux_cpp_learn.MemPool.Nodes.{Node, node_bytes, pool_bytes, place}
use linux_cpp_learn.MemPool.Overlap.{
  taken, spans, taken-++, spans-++, IsTidy, place-Takes, psize-++,
}

-- Memory that was handed out.
pub record Region : Type 0 where
  pub first : ℕ
  pub size : ℕ

-- In how many of the regions the byte x lies.
unfoldable pub covered : ℕ → List Region → ℕ
unfolding range
covered x [] = 0
covered x (r ∷ rs) = range x r.first (r.first + r.size) + covered x rs

-- In how many of the blocks of w bytes at these addresses it lies; 0 is no block.
unfoldable pub blocks : (x w : ℕ) → List ℕ → ℕ
unfolding range
blocks x w [] = 0
blocks x w (a ∷ rest) = (if a == 0 then 0 else range x a (a + w)) + blocks x w rest

-- The calls of mp_alloc with these sizes, and what they hand out beside rs; NULL is left out.
unfoldable pub take_all : List ℕ → List Region → Pool → Os → Option (List Region × Pool × Os)
unfolding mp_alloc
take_all [] rs pool os = some (rs, pool, os)
take_all (size ∷ sizes) rs pool os = do
  (m, pool', os') ← mp_alloc 2 pool size os
  take_all sizes (if m == 0 then rs else record { first = m; size = size } ∷ rs) pool' os'

-- An answer of posix_memalign for w bytes.
pub record IsAligned (w a : ℕ) : Type 0 where
  pub aligned : a % 32 ≡ 0
  pub low : a + w + 31 < 2 ^ 64

-- A state in which rs was handed out; no byte is in more blocks, of the pool's, of its struct and those
-- to come, than `total` says.
pub record Sound (w max : ℕ) (total : ℕ → ℕ) (pool : Pool) (os : Os) (rs : List Region)
    : Type 0 where
  pub passed_tidy : All IsTidy pool.passed
  pub active_tidy : All IsTidy pool.active
  pub width : psize (pool.passed ++ pool.active) ≡ w
  pub same_max : pool.max ≡ max
  pub sized : max + node_bytes ≤ w
  pub ended : pool.tail ≡ 0
  pub fit : All (IsAligned w) os.answers
  pub used : (x : ℕ) → covered x rs ≤ taken x (pool.passed ++ pool.active)
  pub apart :
      (x : ℕ)
      → range x pool.address (pool.address + pool_bytes)
          + (spans x (pool.passed ++ pool.active) + blocks x w os.answers)
        ≤ total x

-- The region that starts at m, if it is not NULL.
abbrev pub handed : (m size : ℕ) → List Region → List Region
handed m size rs = if m == 0 then rs else record { first = m; size = size } ∷ rs

pub covered-handed :
    (x m size : ℕ) (rs : List Region)
    → covered x (handed m size rs) ≤ covered x rs + range x m (m + size)
unfolding covered
covered-handed x m size rs = ground arith

pub Sound-place :
    {w max : ℕ} {total : ℕ → ℕ} {rs : List Region} (pool : Pool) (os : Os) (size m : ℕ)
    (ns : List Node)
    → Sound w max total pool os rs
    → size % 32 ≡ 0
    → place size pool.active ≡ some (m, ns)
    → Sound w max total (record pool { active = ns }) os (handed m size rs)
Sound-place {w} {max} {total} {rs} pool os size m ns s whole e =
    let t = place-Takes size pool.active m ns s.active_tidy whole e in
    record {
      passed_tidy = s.passed_tidy;
      active_tidy = t.still_tidy;
      width = psize-++ pool.passed pool.active ns t.same_psize ∙ s.width;
      same_max = s.same_max;
      sized = s.sized;
      ended = s.ended;
      fit = s.fit;
      used = λ x. omega (
        arith,
        s.used x,
        covered-handed x m size rs,
        taken-++ x pool.passed ns,
        taken-++ x pool.passed pool.active,
        t.counted x,
      );
      apart = λ x. omega (
        arith,
        s.apart x,
        spans-++ x pool.passed ns,
        spans-++ x pool.passed pool.active,
        t.same_spans x,
      );
    }

pub Sound-ask_none :
    {w max : ℕ} {total : ℕ → ℕ} {rs : List Region} (pool : Pool) (os : Os)
    → Sound w max total pool os rs
    → answer os ≡ 0
    → Sound w max total pool (ask os) rs
unfolding ask blocks
Sound-ask_none {w} {max} {total} {rs} pool os s out = elim (List-cases os.answers) [
  | inl e ↦ let same : ask os ≡ os = ground (arith, e) in rw same s
  | inr (a, rest, e) ↦
      let first : a ≡ 0 = ground (arith, e, out) in
      let asked : (ask os).answers ≡ rest = ground (arith, e) in
      let fit : All (IsAligned w) (a ∷ rest) = subst (All (IsAligned w)) e s.fit in
      record {
        passed_tidy = s.passed_tidy;
        active_tidy = s.active_tidy;
        width = s.width;
        same_max = s.same_max;
        sized = s.sized;
        ended = s.ended;
        fit = subst (All (IsAligned w)) (sym asked) fit.1;
        used = s.used;
        apart = λ x.
            let before = ap (blocks x w) e in
            let after = ap (blocks x w) asked in
            let all = s.apart x in omega (arith, all, before, after);
      }
]
