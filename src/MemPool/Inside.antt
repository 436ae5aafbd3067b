-- ===== src/MemPool/Inside.antt =====
-- mem_pool/mempool.c: pools whose calls for small sizes hand out bytes of the nodes' blocks only.
use linux_cpp_learn.Prelude.{
  ℕ, ◌+◌, ◌%◌, ◌≤◌, ◌<◌, ◌≡◌, ◌≢◌, inl, inr, refl, ap, sym, ◌∙◌, true, [], ◌∷◌, ◌++◌, some, arith,
  Bool-cases, Option-cases, List-cases, All, All-append, append_assoc, ◌==◌,
}
use mathlib.Core.Path.{subst}
use linux_cpp_learn.MemPool.{
  max_alloc, Pool, Os, answer, ask, psize, link_node, mp_alloc_block, alloc_small, is_inside,
}
use linux_cpp_learn.MemPool.Nodes.{Node, node_bytes, mp_align_ptr, place, pass}
use linux_cpp_learn.MemPool.Overlap.{psize-++, psize-before}
use linux_cpp_learn.MemPool.Snug.{
  IsSnug, IsEven, IsRoomAt, is_inside-right, place-Cuts, pass-IsSnug, psize-pass,
}

-- A pool for sizes up to `size`: its nodes, the size of the blocks that it asks for, its limit for
-- small sizes, and where the system's next blocks lie.
pub record Inside (size : ℕ) (pool : Pool) (os : Os) : Type 0 where
  pub passed_snug : All IsSnug pool.passed
  pub active_snug : All IsSnug pool.active
  pub width : psize (pool.passed ++ pool.active) ≡ size + node_bytes
  pub small : pool.max ≤ size
  pub low : pool.max ≤ max_alloc
  pub rest : size % 32 < 16
  pub ended : pool.tail ≡ 0
  pub fit : All (IsRoomAt size) os.answers

pub Inside-ask :
    {size : ℕ} (pool : Pool) (os : Os) → Inside size pool os → Inside size pool (ask os)
unfolding ask
Inside-ask {size} pool os s = elim (List-cases os.answers) [
  | inl e ↦ let same : ask os ≡ os = ground (arith, e) in rw same s
  | inr (a, rest, e) ↦
      let left : (ask os).answers ≡ rest = ground (arith, e) in
      let fit : All (IsRoomAt size) (a ∷ rest) = subst (All (IsRoomAt size)) e s.fit in
      record {
        passed_snug = s.passed_snug;
        active_snug = s.active_snug;
        width = s.width;
        small = s.small;
        low = s.low;
        rest = s.rest;
        ended = s.ended;
        fit = rw left fit.1;
      }
]

-- The answer has room for a block, or is NULL.
answer-IsRoomAt :
    (size : ℕ) (os : Os)
    → answer os ≢ 0
    → All (IsRoomAt size) os.answers
    → IsRoomAt size (answer os)
answer-IsRoomAt size os got all = elim (List-cases os.answers) [
  | inl e ↦ absurd (ground (arith, got, e))
  | inr (a, rest, e) ↦
      let fit : All (IsRoomAt size) (a ∷ rest) = subst (All (IsRoomAt size)) e all in
      let first : answer os ≡ a = ground (arith, e) in rw first fit.0
]

-- The new node of mp_alloc_block.
abbrev new_node : (a size w : ℕ) → Node
new_node a size w = record {
  base = a;
  last = mp_align_ptr (a + node_bytes) + size;
  limit = a + w;
  failed = 0;
}

new_node-IsSnug :
    (a size w : ℕ)
    → IsRoomAt w a
    → IsEven size
    → size ≤ w
    → w % 32 < 16
    → IsSnug (new_node a size (w + node_bytes))
new_node-IsSnug a size w (aligned, low) even fits rest = record {
  above = omega (arith, aligned, low);
  up_to = omega (arith, aligned, low, fits);
  below = omega (arith, aligned, low, fits, even, rest);
  roomy = omega arith;
  below_empty = omega (arith, aligned, low);
  short = omega (arith, aligned, rest);
  low = omega (arith, low);
}

-- What a call of mp_alloc for a small size leaves.
pub record Hands (w size : ℕ) (r : ℕ × Pool × Os) : Type 0 where
  pub still : Inside w r.1 r.2
  pub within : r.0 ≢ 0 → is_inside r.0 size (r.1.passed ++ r.1.active) ≡ true

Hands-link_node :
    {w : ℕ} (pool : Pool) (os : Os) (size : ℕ)
    → Inside w pool os
    → answer os ≢ 0
    → IsEven size
    → size ≤ w
    → Hands w size (
      mp_align_ptr (answer os + node_bytes),
      link_node pool (new_node (answer os) size (w + node_bytes)),
      ask os,
    )
unfolding link_node is_inside
Hands-link_node {w} pool os size s got even small =
    let a = answer os in
    let n = new_node a size (w + node_bytes) in
    let skipped = (pass pool.active).0 in
    let kept = (pass pool.active).1 in
    let ps = pass-IsSnug pool.active s.active_snug in
    let room_at = answer-IsRoomAt w os got s.fit in
    let t = new_node-IsSnug a size w room_at even small s.rest in
    let whole_list : (pool.passed ++ skipped) ++ (kept ++ n ∷ [])
        ≡ (pool.passed ++ (skipped ++ kept)) ++ n ∷ [] =
      append_assoc pool.passed skipped (kept ++ n ∷ [])
      ∙ ap (λ ns. pool.passed ++ ns) (sym (append_assoc skipped kept (n ∷ [])))
      ∙ sym (append_assoc pool.passed (skipped ++ kept) (n ∷ [])) in
    let inner =
      psize-++ pool.passed pool.active (skipped ++ kept) (psize-pass pool.active) ∙ s.width in
    let m = mp_align_ptr (a + node_bytes) in
    let behind : a + node_bytes ≤ m = omega (arith, room_at.0, room_at.1) in
    let before : m + size ≤ a + (w + node_bytes) = t.up_to in
    let alone : is_inside m size (n ∷ []) ≡ true = ground (arith, behind, before) in
    record {
      still = record {
        passed_snug = All-append IsSnug pool.passed skipped s.passed_snug ps.0;
        active_snug = All-append IsSnug kept (n ∷ []) ps.1 (t, tt);
        width =
            ap psize whole_list
            ∙ psize-before (pool.passed ++ (skipped ++ kept)) n (omega (arith, inner))
            ∙ inner;
        small = s.small;
        low = s.low;
        rest = s.rest;
        ended = s.ended;
        fit = (Inside-ask pool os s).fit;
      };
      within = λ v.
          is_inside-right m size (pool.passed ++ skipped) (kept ++ n ∷ [])
            (is_inside-right m size kept (n ∷ []) alone);
    }

pub Hands-alloc_small :
    {w : ℕ} (pool : Pool) (size : ℕ) (os : Os)
    → Inside w pool os
    → IsEven size
    → size ≤ pool.max
    → (r : ℕ × Pool × Os) × (alloc_small pool size os ≡ some r) × Hands w size r
unfolding alloc_small mp_alloc_block
Hands-alloc_small {w} pool size os s even fits = elim (Option-cases (place size pool.active)) [
  | inr ((m, ns), f) ↦
      let c = place-Cuts size pool.active m ns s.active_snug even f in
      (
        (m, record pool { active = ns }, os),
        ground (arith, f),
        record {
          still = record {
            passed_snug = s.passed_snug;
            active_snug = c.snug;
            width = psize-++ pool.passed pool.active ns c.same_psize ∙ s.width;
            small = s.small;
            low = s.low;
            rest = s.rest;
            ended = s.ended;
            fit = s.fit;
          };
          within = λ v. is_inside-right m size pool.passed ns c.within;
        },
      )
  | inl f ↦ elim (Bool-cases (answer os == 0)) [
    | inl out ↦ (
      (0, pool, ask os),
      ground (arith, f, s.ended, out),
      record { still = Inside-ask pool os s; within = λ v. absurd (v refl) },
    )
    | inr got ↦
        let made : ℕ → ℕ × Pool × Os = λ v. (
          mp_align_ptr (answer os + node_bytes),
          link_node pool (new_node (answer os) size v),
          ask os,
        ) in
        let block : mp_alloc_block pool size os ≡ made (psize (pool.passed ++ pool.active)) =
          ground (arith, got) in
        let sized = block ∙ ap made s.width in
        (
          made (w + node_bytes),
          ground (arith, f, s.ended, sized),
          Hands-link_node pool os size s (ground (arith, got)) even (omega (arith, fits, s.small)),
        )
  ]
]
