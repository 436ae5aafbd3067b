-- ===== src/MemPool/Small.antt =====
-- A call of mp_alloc in mem_pool/mempool.c for a small size, and the bytes that it takes.
use linux_cpp_learn.Prelude.{
  range, ℕ, ◌+◌, ◌%◌, ◌≤◌, ◌≡◌, ◌≢◌, inl, inr, ap, sym, ◌∙◌, List, [], ◌∷◌, ◌++◌, some, arith,
  Bool-cases, Option-cases, List-cases, ◌==◌, All, All-append, append_assoc, ap₂,
}
use mathlib.Core.Path.{subst}
use linux_cpp_learn.MemPool.{
  Pool, Os, answer, ask, psize, link_node, mp_alloc_block, alloc_small, mp_alloc,
}
use linux_cpp_learn.MemPool.Nodes.{Node, node_bytes, mp_align_ptr, place, pass}
use linux_cpp_learn.MemPool.Overlap.{
  taken, spans, taken-++, spans-++, IsTidy, psize-++, psize-before, pass_lem,
}
use linux_cpp_learn.MemPool.Regions.{
  Region, blocks, IsAligned, Sound, handed, covered-handed, Sound-place, Sound-ask_none,
}

-- The new node of mp_alloc_block at the address a.
abbrev new_node : (a size w : ℕ) → Node
new_node a size w = record { base = a; last = a + node_bytes + size; limit = a + w; failed = 0 }

new_node-IsTidy :
    (a size w : ℕ)
    → IsAligned w a
    → size % 32 ≡ 0
    → size + node_bytes ≤ w
    → IsTidy (new_node a size w)
new_node-IsTidy a size w h whole fits =
    let aligned : mp_align_ptr (a + node_bytes + size) ≡ a + node_bytes + size =
      omega (arith, h.aligned, h.low, whole, fits) in
    record {
      above = omega arith;
      below = omega (arith, fits);
      aligned_below = omega (arith, aligned, fits);
      low = h.low;
    }

Sound-link_node :
    {w max : ℕ} {total : ℕ → ℕ} {rs : List Region} (pool : Pool) (os os' : Os) (a size : ℕ)
    → Sound w max total pool os rs
    → a ≢ 0
    → os.answers ≡ a ∷ os'.answers
    → size % 32 ≡ 0
    → size ≤ max
    → Sound w max total (link_node pool (new_node a size w)) os' (handed (a + node_bytes) size rs)
unfolding link_node taken spans blocks range
Sound-link_node {w} {max} {total} {rs} pool os os' a size s got e whole small =
    let n = new_node a size w in
    let skipped = (pass pool.active).0 in
    let kept = (pass pool.active).1 in
    let ps = pass_lem pool.active s.active_tidy in
    let fit : All (IsAligned w) (a ∷ os'.answers) = subst (All (IsAligned w)) e s.fit in
    let t = new_node-IsTidy a size w fit.0 whole (omega (arith, s.sized, small)) in
    let whole_list : (pool.passed ++ skipped) ++ (kept ++ n ∷ [])
        ≡ (pool.passed ++ (skipped ++ kept)) ++ n ∷ [] =
      append_assoc pool.passed skipped (kept ++ n ∷ [])
      ∙ ap (λ ns. pool.passed ++ ns) (sym (append_assoc skipped kept (n ∷ [])))
      ∙ sym (append_assoc pool.passed (skipped ++ kept) (n ∷ [])) in
    let inner_width = psize-++ pool.passed pool.active (skipped ++ kept) ps.same_psize ∙ s.width in
    record {
      passed_tidy = All-append IsTidy pool.passed skipped s.passed_tidy ps.skipped_tidy;
      active_tidy = All-append IsTidy kept (n ∷ []) ps.kept_tidy (t, tt);
      width =
          ap psize whole_list
          ∙ psize-before (pool.passed ++ (skipped ++ kept)) n (omega (arith, inner_width, s.sized))
          ∙ inner_width;
      same_max = s.same_max;
      sized = s.sized;
      ended = s.ended;
      fit = fit.1;
      used = λ x.
          let all = ap (taken x) whole_list in
          let part : range x (a + node_bytes) (a + node_bytes + size)
              ≤ range x (a + node_bytes) (a + node_bytes + size) =
            ground arith in
          omega (
            arith,
            s.used x,
            covered-handed x (a + node_bytes) size rs,
            all,
            taken-++ x (pool.passed ++ (skipped ++ kept)) (n ∷ []),
            taken-++ x pool.passed (skipped ++ kept),
            taken-++ x pool.passed pool.active,
            ps.same_taken x,
            part,
          );
      apart = λ x.
          let all = ap (spans x) whole_list in
          let before : blocks x w os.answers ≡ range x a (a + w) + blocks x w os'.answers =
            ap (blocks x w) e ∙ ground (arith, got) in
          omega (
            arith,
            s.apart x,
            all,
            spans-++ x (pool.passed ++ (skipped ++ kept)) (n ∷ []),
            spans-++ x pool.passed (skipped ++ kept),
            spans-++ x pool.passed pool.active,
            ps.same_spans x,
            before,
          );
    }

answers_listed : (os : Os) → answer os ≢ 0 → os.answers ≡ answer os ∷ (ask os).answers
unfolding ask
answers_listed os got = elim (List-cases os.answers) [
  | inl e ↦ absurd (ground (arith, got, e))
  | inr (a, rest, e) ↦
      let first : answer os ≡ a = ground (arith, e) in
      let asked : (ask os).answers ≡ rest = ground (arith, e) in rw (first, asked) e
]

mp_alloc_block-new_node :
    (pool : Pool) (size w : ℕ) (os : Os)
    → answer os ≢ 0
    → mp_align_ptr (answer os + node_bytes) ≡ answer os + node_bytes
    → psize (pool.passed ++ pool.active) ≡ w
    → mp_alloc_block pool size os
      ≡ (answer os + node_bytes, link_node pool (new_node (answer os) size w), ask os)
unfolding mp_alloc_block
mp_alloc_block-new_node pool size w os got at width =
    let made : ℕ → ℕ → ℕ × Pool × Os = λ m v. (
      m,
      link_node pool
          (record { base = answer os; last = m + size; limit = answer os + v; failed = 0 }),
      ask os,
    ) in
    let first : mp_alloc_block pool size os
        ≡ made (mp_align_ptr (answer os + node_bytes)) (psize (pool.passed ++ pool.active)) =
      ground (arith, got) in
    first ∙ ap₂ made at width

-- A small size that is a multiple of 32: mp_alloc returns, and the state is sound again.
pub Sound-mp_alloc :
    {w max : ℕ} {total : ℕ → ℕ} {rs : List Region} (pool : Pool) (os : Os) (size : ℕ)
    → Sound w max total pool os rs
    → size % 32 ≡ 0
    → size ≤ max
    → (m : ℕ) × (pool' : Pool) × (os' : Os) × (mp_alloc 2 pool size os ≡ some (m, pool', os'))
      × Sound w max total pool' os' (handed m size rs)
unfolding mp_alloc alloc_small
Sound-mp_alloc {w} {max} {total} {rs} pool os size s whole small =
    let small' : size ≤ pool.max = omega (arith, small, s.same_max) in
    elim (Option-cases (place size pool.active)) [
      | inr ((m, ns), f) ↦ (
        m,
        record pool { active = ns },
        os,
        ground (arith, f, small'),
        Sound-place pool os size m ns s whole f,
      )
      | inl f ↦ elim (Bool-cases (answer os == 0)) [
        | inl out ↦
            let none_left : mp_alloc_block pool size os ≡ (0, pool, ask os) = ground (arith, out) in
            (
              0,
              pool,
              ask os,
              ground (arith, f, small', s.ended, none_left),
              Sound-ask_none pool os s (ground (arith, out)),
            )
        | inr got ↦
            let listed = answers_listed os (ground (arith, got)) in
            let fit : All (IsAligned w) (answer os ∷ (ask os).answers) =
              subst (All (IsAligned w)) listed s.fit in
            let at : mp_align_ptr (answer os + node_bytes) ≡ answer os + node_bytes =
              omega (arith, fit.0.aligned, fit.0.low, s.sized) in
            let pool' = link_node pool (new_node (answer os) size w) in
            let block = mp_alloc_block-new_node pool size w os (ground (arith, got)) at s.width in
            (
              answer os + node_bytes,
              pool',
              ask os,
              ground (arith, f, small', s.ended, block),
              Sound-link_node pool os (ask os) (answer os) size s (ground (arith, got)) listed whole
                  small,
            )
      ]
    ]
