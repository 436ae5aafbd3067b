-- ===== src/MemPool/Counts.antt =====
-- Addresses counted in the lists of a pool of mem_pool/mempool.c: its nodes and its large blocks.
use linux_cpp_learn.Prelude.{
  hit, count, ℕ, suc, ◌+◌, ◌≡◌, ◌≢◌, inl, inr, refl, ap, sym, ◌∙◌, List, [], ◌∷◌, ◌++◌, some, leb,
  ltb, arith, Bool-cases, Option-cases, List-cases, ◌==◌,
}
use linux_cpp_learn.MemPool.{Large, Os, free, reuse}
use linux_cpp_learn.MemPool.Release.{clear, free_large, free_nodes, reset_nodes}
use linux_cpp_learn.MemPool.Nodes.{Node, mp_align_ptr, room, place, pass}

unfoldable pub bases : List Node → List ℕ
bases [] = []
bases (n ∷ ns) = n.base ∷ bases ns

pub bases-++ : (ns ks : List Node) → bases (ns ++ ks) ≡ bases ns ++ bases ks
unfolding bases
bases-++ [] ks = refl
bases-++ (n ∷ ns) ks = ap (λ xs. n.base ∷ xs) (bases-++ ns ks)

unfoldable pub allocs : List Large → List ℕ
allocs [] = []
allocs (l ∷ ls) = l.alloc ∷ allocs ls

pub bases-place :
    (size : ℕ) (ns : List Node) (m : ℕ) (ns' : List Node)
    → place size ns ≡ some (m, ns')
    → bases ns' ≡ bases ns
unfolding place bases
bases-place size [] m ns' e = cc
bases-place size (n ∷ ns) m ns' e =
    elim (Bool-cases (leb size (room n.limit (mp_align_ptr n.last)))) [
      | inl fits ↦
          let out : record n { last = mp_align_ptr n.last + size } ∷ ns ≡ ns' =
            ground (arith, e, fits) in
          ap bases (sym out)
      | inr full ↦ elim (Option-cases (place size ns)) [
        | inl f ↦ absurd (ground (arith, e, full, f))
        | inr ((k, ms), f) ↦
            let out : n ∷ ms ≡ ns' = ground (arith, e, full, f) in
            ap bases (sym out) ∙ ap (λ xs. n.base ∷ xs) (bases-place size ns k ms f)
      ]
    ]

pub bases-pass : (ns : List Node) → bases ((pass ns).0 ++ (pass ns).1) ≡ bases ns
unfolding pass bases
bases-pass [] = refl
bases-pass (n ∷ []) = refl
bases-pass (n ∷ k ∷ ns) =
    let ih = bases-pass (k ∷ ns) in
    elim (List-cases (pass (k ∷ ns)).0) [
      | inl e ↦ elim (Bool-cases (ltb 4 n.failed)) [
        | inl over ↦ ground (arith, e, over, ih)
        | inr few ↦ ground (arith, e, few, ih)
      ]
      | inr (h, hs, e) ↦ ground (arith, e, ih)
    ]

pub bases-reset_nodes : (ns : List Node) → bases (reset_nodes ns) ≡ bases ns
unfolding bases reset_nodes
bases-reset_nodes [] = refl
bases-reset_nodes (n ∷ ns) = ap (λ xs. n.base ∷ xs) (bases-reset_nodes ns)

pub count-reuse :
    (a n p : ℕ) (ls ls' : List Large)
    → a ≢ 0
    → reuse n p ls ≡ some ls'
    → count a (allocs ls') ≡ hit a p + count a (allocs ls)
unfolding reuse count allocs hit
count-reuse a n p [] ls' v e = cc
count-reuse a n p (l ∷ ls) ls' v e = elim (Bool-cases (l.alloc == 0)) [
  | inl empty ↦
      let out : record l { alloc = p } ∷ ls ≡ ls' = ground (arith, e, empty) in
      rw (← out) (ground (arith, empty))
  | inr taken ↦ elim (Option-cases (reuse (suc n) p ls)) [
    | inl f ↦ absurd (ground (arith, e, taken, f))
    | inr (ks, f) ↦
        let out : l ∷ ks ≡ ls' = ground (arith, e, taken, f) in
        rw (← out) (omega (arith, count-reuse a (suc n) p ls ks v f))
  ]
]

pub count-clear :
    (a p : ℕ) (ls ls' : List Large)
    → a ≢ 0
    → clear p ls ≡ some ls'
    → count a (allocs ls) ≡ hit a p + count a (allocs ls')
unfolding clear count allocs hit
count-clear a p [] ls' v e = cc
count-clear a p (l ∷ ls) ls' v e = elim (Bool-cases (l.alloc == p)) [
  | inl here ↦
      let out : record l { alloc = 0 } ∷ ls ≡ ls' = ground (arith, e, here) in
      rw (← out) (ground (arith, here))
  | inr other ↦ elim (Option-cases (clear p ls)) [
    | inl f ↦ absurd (ground (arith, e, other, f))
    | inr (ks, f) ↦
        let out : l ∷ ks ≡ ls' = ground (arith, e, other, f) in
        rw (← out) (omega (arith, count-clear a p ls ks v f))
  ]
]

-- The address a goes to `free` k times more, and no memory is asked for.
pub record Frees (a k : ℕ) (os os' : Os) : Type 0 where
  pub more : count a os'.freed ≡ count a os.freed + k
  pub same_given : os'.given ≡ os.given
  pub same_answers : os'.answers ≡ os.answers

pub Frees-then :
    {a k n : ℕ} {os os1 os2 : Os} → Frees a k os os1 → Frees a n os1 os2 → Frees a (k + n) os os2
Frees-then f g = record {
  more = omega (arith, f.more, g.more);
  same_given = g.same_given ∙ f.same_given;
  same_answers = g.same_answers ∙ f.same_answers;
}

pub Frees-free : (a p : ℕ) (os : Os) → a ≢ 0 → Frees a (hit a p) os (free p os)
unfolding free count hit
Frees-free a p os v = elim (Bool-cases (p == 0)) [
  | inl null ↦ record {
    more = ground (arith, null);
    same_given = ground (arith, null);
    same_answers = ground (arith, null);
  }
  | inr at ↦ record {
    more = ground (arith, at);
    same_given = ground (arith, at);
    same_answers = ground (arith, at);
  }
]

pub Frees-free_large :
    (a : ℕ) (ls : List Large) (os : Os)
    → a ≢ 0
    → Frees a (count a (allocs ls)) os (free_large ls os)
unfolding free_large count allocs
Frees-free_large a [] os v = record { more = omega arith; same_given = refl; same_answers = refl }
Frees-free_large a (l ∷ ls) os v =
    Frees-then (Frees-free a l.alloc os v) (Frees-free_large a ls (free l.alloc os) v)

pub Frees-free_nodes :
    (a : ℕ) (ns : List Node) (os : Os) → a ≢ 0 → Frees a (count a (bases ns)) os (free_nodes ns os)
unfolding free_nodes count bases
Frees-free_nodes a [] os v = record { more = omega arith; same_given = refl; same_answers = refl }
Frees-free_nodes a (n ∷ ns) os v =
    Frees-then (Frees-free a n.base os v) (Frees-free_nodes a ns (free n.base os) v)
