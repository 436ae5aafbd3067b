-- ===== src/MemPool/Balance.antt =====
-- The memory that the pool of mem_pool/mempool.c has asked for, against the memory that it has given
-- back and the memory that it still holds.
use linux_cpp_learn.Prelude.{
  some, ◌++◌, hit, count, ℕ, ◌+◌, ◌≤◌, ◌≡◌, ◌≢◌, inl, inr, ap, sym, ◌∙◌, List, [], ◌∷◌, ◌++◌, arith,
  Bool-cases, List-cases, ◌==◌,
}
use linux_cpp_learn.MemPool.{Pool, Os, answer, ask, free, large_bytes, attach, is_inside}
use linux_cpp_learn.MemPool.Counts.{bases, allocs, Frees-free}

unfoldable pub behind : List ℕ → List ℕ
behind [] = []
behind (b ∷ bs) = bs

-- The addresses of the pool's nodes.
abbrev pub node_bases : Pool → List ℕ
node_bases pool = bases (pool.passed ++ pool.active)

-- How often the pool holds the address: for itself, a node behind the head, or a large block.
abbrev pub held : ℕ → Pool → ℕ
held a pool = hit a pool.address + count a (behind (node_bases pool)) + count a (allocs pool.large)

-- Each address was given as often as it was freed, is held by the pool or is in `loose`; and the pool
-- has a head, an end, and room for the entries of large blocks.
pub record Balanced (pool : Pool) (os : Os) (loose : List ℕ) : Type 0 where
  pub even : (a : ℕ) → a ≢ 0 → count a os.given ≡ count a os.freed + held a pool + count a loose
  pub headed : (b : ℕ) × (bs : List ℕ) × (node_bases pool ≡ b ∷ bs)
  pub ended : pool.tail ≡ 0
  pub roomy : large_bytes ≤ pool.max

pub Balanced-ask :
    {pool : Pool} {os : Os} {loose : List ℕ}
    → Balanced pool os loose
    → answer os ≢ 0
    → Balanced pool (ask os) (answer os ∷ loose)
unfolding ask count hit
Balanced-ask {pool} {os} {loose} b got = elim (List-cases os.answers) [
  | inl e ↦ absurd (ground (arith, got, e))
  | inr (p, rest, e) ↦
      let asked : ask os ≡ record os { answers = rest; given = p ∷ os.given } =
        ground (arith, e, got) in
      let first : answer os ≡ p = ground (arith, e) in
      rw (asked, first)
        (record {
          even = λ a v. omega (arith, b.even a v);
          headed = b.headed;
          ended = b.ended;
          roomy = b.roomy;
        })
]

pub Balanced-ask_none :
    {pool : Pool} {os : Os} {loose : List ℕ}
    → Balanced pool os loose
    → answer os ≡ 0
    → Balanced pool (ask os) loose
unfolding ask
Balanced-ask_none {pool} {os} {loose} b out =
    let same_given : (ask os).given ≡ os.given = elim (List-cases os.answers) [
      | inl e ↦ ground (arith, e)
      | inr (p, rest, e) ↦ ground (arith, e, out)
    ] in
    let same_freed : (ask os).freed ≡ os.freed = elim (List-cases os.answers) [
      | inl e ↦ ground (arith, e)
      | inr (p, rest, e) ↦ ground (arith, e, out)
    ] in
    record {
      even = λ a v.
          ap (count a) same_given
          ∙ b.even a v
          ∙ ap (λ xs. count a xs + held a pool + count a loose) (sym same_freed);
      headed = b.headed;
      ended = b.ended;
      roomy = b.roomy;
    }

-- The pool's nodes are other nodes, at the same addresses.
pub Balanced-nodes :
    {pool pool' : Pool} {os : Os} {loose : List ℕ}
    → Balanced pool os loose
    → pool'.address ≡ pool.address
    → node_bases pool' ≡ node_bases pool
    → pool'.large ≡ pool.large
    → pool'.tail ≡ pool.tail
    → pool'.max ≡ pool.max
    → Balanced pool' os loose
Balanced-nodes {pool} {pool'} {os} {loose} b same_address same_bases same_large same_tail same_max =
    record {
      even = λ a v. rw (same_address, same_bases, same_large) (b.even a v);
      headed = rw same_bases b.headed;
      ended = same_tail ∙ b.ended;
      roomy = rw same_max b.roomy;
    }

pub Balanced-free :
    {pool : Pool} {os : Os} {loose : List ℕ} {p : ℕ}
    → Balanced pool os (p ∷ loose)
    → Balanced pool (free p os) loose
unfolding count
Balanced-free {pool} {os} {loose} {p} b = record {
  even = λ a v.
      let f = Frees-free a p os v in
      let same = ap (count a) f.same_given in omega (arith, b.even a v, f.more, same);
  headed = b.headed;
  ended = b.ended;
  roomy = b.roomy;
}

pub Balanced-attach :
    (p : ℕ) (r r' : ℕ × Pool × Os) {loose : List ℕ}
    → Balanced r.1 r.2 (p ∷ loose)
    → attach p r ≡ some r'
    → Balanced r'.1 r'.2 loose
unfolding attach allocs count
Balanced-attach p (q, pool, os) r' {loose} b e = elim (Bool-cases (q == 0)) [
  | inl null ↦
      let out : (0, pool, free p os) ≡ r' = ground (arith, e, null) in rw (← out) (Balanced-free b)
  | inr at ↦ elim (Bool-cases (is_inside q large_bytes (pool.passed ++ pool.active))) [
    | inr outside ↦ absurd (ground (arith, e, at, outside))
    | inl inside ↦
        let pool' : Pool = record pool { large = record { place = q; alloc = p } ∷ pool.large } in
        let out : (p, pool', os) ≡ r' = ground (arith, e, at, inside) in
        rw (← out) (record {
          even = λ a v. omega (arith, b.even a v);
          headed = b.headed;
          ended = b.ended;
          roomy = b.roomy;
        })
  ]
]
