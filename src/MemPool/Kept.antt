-- ===== src/MemPool/Kept.antt =====
-- The calls of mem_pool/mempool.c on a pool whose memory is balanced.
use linux_cpp_learn.Prelude.{
  count, count-++, ℕ, zero, suc, ◌+◌, ◌≡◌, inl, inr, refl, ap, sym, ◌∙◌, List, [], ◌∷◌, ◌++◌,
  append_assoc, some, ◌>>=◌, >>=-eq-some, leb, arith, Bool-cases, Option-cases, ◌==◌,
}
use linux_cpp_learn.MemPool.{
  Pool, Os, answer, ask, free, large_bytes, link_node, mp_alloc_block, psize, alloc_small, reuse,
  attach, mp_alloc_large, mp_alloc, mp_memalign,
}
use linux_cpp_learn.MemPool.Release.{clear, mp_free, reset_nodes, mp_reset_pool, free_large}
use linux_cpp_learn.MemPool.Nodes.{Node, node_bytes, mp_align_ptr, place, pass}
use linux_cpp_learn.MemPool.Counts.{
  bases, bases-++, allocs, bases-place, bases-pass, bases-reset_nodes, count-reuse, count-clear,
  Frees-free_large,
}
use linux_cpp_learn.MemPool.Balance.{
  behind, node_bases, Balanced, Balanced-ask, Balanced-ask_none, Balanced-nodes, Balanced-free,
  Balanced-attach,
}

node_bases-link_node :
    (pool : Pool) (n : Node) → node_bases (link_node pool n) ≡ node_bases pool ++ n.base ∷ []
unfolding link_node bases
node_bases-link_node pool n =
    let skipped = (pass pool.active).0 in
    let kept = (pass pool.active).1 in
    let end : List Node = n ∷ [] in
    let inner : bases (kept ++ end) ≡ bases kept ++ n.base ∷ [] = bases-++ kept end in
    let both : bases skipped ++ bases kept ≡ bases pool.active =
      sym (bases-++ skipped kept) ∙ bases-pass pool.active in
    rw
      (
        bases-++ (pool.passed ++ skipped) (kept ++ end),
        inner,
        bases-++ pool.passed skipped,
        append_assoc (bases pool.passed) (bases skipped) (bases kept ++ n.base ∷ []),
        ← append_assoc (bases skipped) (bases kept) (n.base ∷ []),
        both,
        bases-++ pool.passed pool.active,
        append_assoc (bases pool.passed) (bases pool.active) (n.base ∷ []),
      )
      refl

-- The node on hand is linked.
Balanced-link_node :
    (pool : Pool) (n : Node) {os : Os} {loose : List ℕ}
    → Balanced pool os (n.base ∷ loose)
    → Balanced (link_node pool n) os loose
unfolding link_node behind count
Balanced-link_node pool n {os} {loose} b =
    let (h, hs, e) = b.headed in
    let all : node_bases (link_node pool n) ≡ h ∷ (hs ++ n.base ∷ []) =
      node_bases-link_node pool n ∙ ap (λ xs. xs ++ n.base ∷ []) e in
    let before : behind (node_bases pool) ≡ hs = ap behind e in
    let after : behind (node_bases (link_node pool n)) ≡ hs ++ n.base ∷ [] = ap behind all in
    record {
      even = λ a v.
          let more = count-++ a hs (n.base ∷ []) in
          omega (arith, b.even a v, ap (count a) before, ap (count a) after, more);
      headed = (h, hs ++ n.base ∷ [], all);
      ended = b.ended;
      roomy = b.roomy;
    }

Balanced-mp_alloc_block :
    (pool : Pool) (size : ℕ) (os : Os) {loose : List ℕ}
    → Balanced pool os loose
    → Balanced (mp_alloc_block pool size os).1 (mp_alloc_block pool size os).2 loose
unfolding mp_alloc_block
Balanced-mp_alloc_block pool size os {loose} b = elim (Bool-cases (answer os == 0)) [
  | inl out ↦
      let same : mp_alloc_block pool size os ≡ (0, pool, ask os) = ground (arith, out) in
      rw same (Balanced-ask_none b (ground (arith, out)))
  | inr got ↦
      let m = mp_align_ptr (answer os + node_bytes) in
      let n : Node = record {
        base = answer os;
        last = m + size;
        limit = answer os + psize (pool.passed ++ pool.active);
        failed = 0;
      } in
      let same : mp_alloc_block pool size os ≡ (m, link_node pool n, ask os) =
        ground (arith, got) in
      rw same (Balanced-link_node pool n (Balanced-ask b (ground (arith, got))))
]

Balanced-alloc_small :
    (pool : Pool) (size : ℕ) (os : Os) (r : ℕ × Pool × Os) {loose : List ℕ}
    → Balanced pool os loose
    → alloc_small pool size os ≡ some r
    → Balanced r.1 r.2 loose
unfolding alloc_small
Balanced-alloc_small pool size os r {loose} b e = elim (Option-cases (place size pool.active)) [
  | inl f ↦
      let out : mp_alloc_block pool size os ≡ r = ground (arith, e, f, b.ended) in
      rw (← out) (Balanced-mp_alloc_block pool size os b)
  | inr ((m, ns), f) ↦
      let pool' : Pool = record pool { active = ns } in
      let out : (m, pool', os) ≡ r = ground (arith, e, f) in
      let same : node_bases pool' ≡ node_bases pool =
        bases-++ pool.passed ns
        ∙ ap (λ xs. bases pool.passed ++ xs) (bases-place size pool.active m ns f)
        ∙ sym (bases-++ pool.passed pool.active) in
      rw (← out) (Balanced-nodes b refl same refl refl refl)
]

-- `mp_alloc` keeps the balance, however deep it calls itself.
pub Balanced-mp_alloc :
    (fuel : ℕ) (pool : Pool) (size : ℕ) (os : Os) (r : ℕ × Pool × Os) {loose : List ℕ}
    → Balanced pool os loose
    → mp_alloc fuel pool size os ≡ some r
    → Balanced r.1 r.2 loose
unfolding mp_alloc mp_alloc_large count
Balanced-mp_alloc zero pool size os r b e = cc
Balanced-mp_alloc (suc fuel) pool size os r {loose} b e = elim (Bool-cases (leb size pool.max)) [
  | inl small ↦ Balanced-alloc_small pool size os r b (ground (arith, e, small))
  | inr big ↦ elim (Bool-cases (answer os == 0)) [
    | inl out ↦
        let at : (0, pool, ask os) ≡ r = ground (arith, e, big, out) in
        rw (← at) (Balanced-ask_none b (ground (arith, out)))
    | inr got ↦
        let c = Balanced-ask b (ground (arith, got)) in
        elim (Option-cases (reuse 0 (answer os) pool.large)) [
          | inr (ls, f) ↦
              let at : (answer os, record pool { large = ls }, ask os) ≡ r =
                ground (arith, e, big, got, f) in
              rw (← at) (record {
                even =
                    λ a v. omega (arith, c.even a v, count-reuse a 0 (answer os) pool.large ls v f);
                headed = c.headed;
                ended = c.ended;
                roomy = c.roomy;
              })
          | inl f ↦
              let chain : (mp_alloc fuel pool large_bytes (ask os) >>= λ q. attach (answer os) q)
                  ≡ some r =
                ground (arith, e, big, got, f) in
              let (q, g, at) = >>=-eq-some (mp_alloc fuel pool large_bytes (ask os)) _ chain in
              let at' : attach (answer os) q ≡ some r = cc in
              Balanced-attach (answer os) q r
                (Balanced-mp_alloc fuel pool large_bytes (ask os) q c g) at'
        ]
  ]
]

pub Balanced-mp_memalign :
    (fuel : ℕ) (pool : Pool) (os : Os) (r : ℕ × Pool × Os) {loose : List ℕ}
    → Balanced pool os loose
    → mp_memalign fuel pool os ≡ some r
    → Balanced r.1 r.2 loose
unfolding mp_memalign
Balanced-mp_memalign fuel pool os r {loose} b e = elim (Bool-cases (answer os == 0)) [
  | inl out ↦
      let at : (0, pool, ask os) ≡ r = ground (arith, e, out) in
      rw (← at) (Balanced-ask_none b (ground (arith, out)))
  | inr got ↦
      let chain : (mp_alloc fuel pool large_bytes (ask os) >>= λ q. attach (answer os) q) ≡ some r =
        ground (arith, e, got) in
      let (q, g, at) = >>=-eq-some (mp_alloc fuel pool large_bytes (ask os)) _ chain in
      let at' : attach (answer os) q ≡ some r = cc in
      let c = Balanced-ask b (ground (arith, got)) in
      Balanced-attach (answer os) q r (Balanced-mp_alloc fuel pool large_bytes (ask os) q c g) at'
]

pub Balanced-mp_free :
    (pool : Pool) (p : ℕ) (os : Os) {loose : List ℕ}
    → Balanced pool os loose
    → Balanced (mp_free pool p os).0 (mp_free pool p os).1 loose
unfolding mp_free count
Balanced-mp_free pool p os {loose} b = elim (Option-cases (clear p pool.large)) [
  | inl f ↦ let same : mp_free pool p os ≡ (pool, os) = ground (arith, f) in rw same b
  | inr (ls, f) ↦
      let same : mp_free pool p os ≡ (record pool { large = ls }, free p os) = ground (arith, f) in
      rw same (
        Balanced-free {os = os} {p = p} (record {
          even = λ a v. omega (arith, b.even a v, count-clear a p pool.large ls v f);
          headed = b.headed;
          ended = b.ended;
          roomy = b.roomy;
        }))
]

pub Balanced-mp_reset_pool :
    (pool : Pool) (os : Os) (r : Pool × Os) {loose : List ℕ}
    → Balanced pool os loose
    → mp_reset_pool pool os ≡ some r
    → Balanced r.0 r.1 loose
unfolding mp_reset_pool count allocs
Balanced-mp_reset_pool pool os r {loose} b e =
    let pool' : Pool = record pool {
      large = [];
      passed = reset_nodes pool.passed;
      active = reset_nodes pool.active;
    } in
    let at : (pool', free_large pool.large os) ≡ r = ground (arith, e, b.ended) in
    let same : node_bases pool' ≡ node_bases pool =
      rw
        (
          bases-++ (reset_nodes pool.passed) (reset_nodes pool.active),
          bases-reset_nodes pool.passed,
          bases-reset_nodes pool.active,
          bases-++ pool.passed pool.active,
        )
        refl in
    rw (← at) (record {
      even = λ a v.
          let f = Frees-free_large a pool.large os v in
          let behind_same = ap (λ bs. count a (behind bs)) same in
          omega (arith, b.even a v, f.more, ap (count a) f.same_given, behind_same);
      headed = rw same b.headed;
      ended = b.ended;
      roomy = b.roomy;
    })
