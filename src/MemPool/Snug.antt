-- ===== src/MemPool/Snug.antt =====
-- The nodes of mem_pool/mempool.c in which the next aligned address never lies behind the end.
use linux_cpp_learn.Prelude.{
  ℕ, suc, ◌+◌, ◌%◌, ◌^◌, ◌≤◌, ◌<◌, ◌≡◌, inl, inr, refl, true, List, [], ◌∷◌, ◌++◌, some, leb, ltb,
  arith, Bool-cases, Option-cases, List-cases, All,
}
use linux_cpp_learn.MemPool.{psize, is_inside}
use linux_cpp_learn.MemPool.Nodes.{Node, node_bytes, mp_align_ptr, room, place, pass}
use linux_cpp_learn.MemPool.Release.{reset_nodes}

-- The node's bounds are in order, also behind the next aligned address, now and after a reset; and
-- less than 16 bytes are left behind the last aligned address in it.
pub record IsSnug (n : Node) : Type 0 where
  pub above : n.base + node_bytes ≤ n.last
  pub up_to : n.last ≤ n.limit
  pub below : mp_align_ptr n.last ≤ n.limit
  pub roomy : n.base + node_bytes ≤ n.limit
  pub below_empty : mp_align_ptr (n.base + node_bytes) ≤ n.limit
  pub short : n.limit % 32 < 16
  pub low : n.limit + 31 < 2 ^ 64

-- Sizes whose remainder by 32 is 0, or 16 or more.
abbrev pub IsEven : ℕ → Type 0
IsEven size = 15 ≤ (size + 31) % 32

-- An aligned address, behind which a block for a pool of the size has its place.
abbrev pub IsRoomAt : (size a : ℕ) → Type 0
IsRoomAt size a = (a % 32 ≡ 0) × (a + size + 128 ≤ 2 ^ 64)

pub is_inside-right :
    (q size : ℕ) (ks ns : List Node)
    → is_inside q size ns ≡ true
    → is_inside q size (ks ++ ns) ≡ true
unfolding is_inside
is_inside-right q size [] ns e = e
is_inside-right q size (k ∷ ks) ns e = ground (arith, is_inside-right q size ks ns e)

cut-IsSnug :
    (n : Node) (size : ℕ)
    → IsSnug n
    → IsEven size
    → mp_align_ptr n.last + size ≤ n.limit
    → IsSnug (record n { last = mp_align_ptr n.last + size })
cut-IsSnug n size s even fits = record {
  above = omega (arith, s.above, s.up_to, s.low, fits);
  up_to = fits;
  roomy = s.roomy;
  below = omega (arith, fits, even, s.short, s.low);
  below_empty = s.below_empty;
  short = s.short;
  low = s.low;
}

-- After memory was cut off: it lies in a block, and the nodes are as they should be.
pub record Cuts (ns ns' : List Node) (m size : ℕ) : Type 0 where
  pub snug : All IsSnug ns'
  pub same_psize : psize ns' ≡ psize ns
  pub within : is_inside m size ns' ≡ true

place-here :
    (size : ℕ) (n : Node) (ns : List Node)
    → IsSnug n
    → All IsSnug ns
    → IsEven size
    → size ≤ room n.limit (mp_align_ptr n.last)
    → Cuts (n ∷ ns) (record n { last = mp_align_ptr n.last + size } ∷ ns) (mp_align_ptr n.last) size
unfolding psize is_inside
place-here size n ns s ss even fits =
    let m = mp_align_ptr n.last in
    let inside : m + size ≤ n.limit = omega (arith, s.below, s.low, fits) in
    let behind : n.base + node_bytes ≤ m = omega (arith, s.above, s.up_to, s.low) in
    record {
      snug = (cut-IsSnug n size s even inside, ss);
      same_psize = refl;
      within = ground (arith, inside, behind);
    }

pub place-Cuts :
    (size : ℕ) (ns : List Node) (m : ℕ) (ns' : List Node)
    → All IsSnug ns
    → IsEven size
    → place size ns ≡ some (m, ns')
    → Cuts ns ns' m size
unfolding place psize is_inside
place-Cuts size [] m ns' ss even e = cc
place-Cuts size (n ∷ ns) m ns' (s, ss) even e =
    elim (Bool-cases (leb size (room n.limit (mp_align_ptr n.last)))) [
      | inl fits ↦
          let at : mp_align_ptr n.last ≡ m = ground (arith, e, fits) in
          let out : record n { last = mp_align_ptr n.last + size } ∷ ns ≡ ns' =
            ground (arith, e, fits) in
          rw (← at, ← out) (place-here size n ns s ss even (ground (arith, fits)))
      | inr full ↦ elim (Option-cases (place size ns)) [
        | inl f ↦ absurd (ground (arith, e, full, f))
        | inr ((k, ms), f) ↦
            let c = place-Cuts size ns k ms ss even f in
            let at : k ≡ m = ground (arith, e, full, f) in
            let out : n ∷ ms ≡ ns' = ground (arith, e, full, f) in
            rw (← at, ← out)
              (record {
                snug = (s, c.snug);
                same_psize = refl;
                within = is_inside-right k size (n ∷ []) ms c.within;
              })
      ]
    ]

-- The loop of mp_alloc_block changes no bounds.
pub pass-IsSnug : (ns : List Node) → All IsSnug ns → All IsSnug (pass ns).0 × All IsSnug (pass ns).1
unfolding pass
pass-IsSnug [] ss = (tt, tt)
pass-IsSnug (n ∷ []) ss = (tt, ss)
pass-IsSnug (n ∷ k ∷ ns) (s, ss) =
    let (a, b) = pass-IsSnug (k ∷ ns) ss in
    let n' : Node = record n { failed = suc n.failed } in
    let s' : IsSnug n' = record {
      above = s.above;
      up_to = s.up_to;
      below = s.below;
      roomy = s.roomy;
      below_empty = s.below_empty;
      short = s.short;
      low = s.low;
    } in
    elim (List-cases (pass (k ∷ ns)).0) [
      | inl e ↦ elim (Bool-cases (ltb 4 n.failed)) [
        | inl over ↦
            let out : pass (n ∷ k ∷ ns) ≡ (n' ∷ [], (pass (k ∷ ns)).1) = ground (arith, e, over) in
            rw out ((s', tt), b)
        | inr few ↦
            let out : pass (n ∷ k ∷ ns) ≡ ([], n' ∷ (pass (k ∷ ns)).1) = ground (arith, e, few) in
            rw out (tt, (s', b))
      ]
      | inr (h, hs, e) ↦
          let out : pass (n ∷ k ∷ ns) ≡ (n' ∷ (pass (k ∷ ns)).0, (pass (k ∷ ns)).1) =
            ground (arith, e) in
          rw out ((s', a), b)
    ]

pub psize-pass : (ns : List Node) → psize ((pass ns).0 ++ (pass ns).1) ≡ psize ns
unfolding pass psize
psize-pass [] = refl
psize-pass (n ∷ []) = refl
psize-pass (n ∷ k ∷ ns) = elim (List-cases (pass (k ∷ ns)).0) [
  | inl e ↦ elim (Bool-cases (ltb 4 n.failed)) [
    | inl over ↦ ground (arith, e, over)
    | inr few ↦ ground (arith, e, few)
  ]
  | inr (h, hs, e) ↦ ground (arith, e)
]

pub reset_nodes-IsSnug : (ns : List Node) → All IsSnug ns → All IsSnug (reset_nodes ns)
unfolding reset_nodes
reset_nodes-IsSnug [] ss = tt
reset_nodes-IsSnug (n ∷ ns) (s, ss) = (
  record {
    above = omega arith;
    up_to = s.roomy;
    below = s.below_empty;
    roomy = s.roomy;
    below_empty = s.below_empty;
    short = s.short;
    low = s.low;
  },
  reset_nodes-IsSnug ns ss,
)
