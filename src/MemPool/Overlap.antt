-- ===== src/MemPool/Overlap.antt =====
-- The bytes of the nodes of mem_pool/mempool.c: those handed out and those of the whole blocks.
use linux_cpp_learn.Prelude.{
  range, ℕ, suc, ◌+◌, ◌%◌, ◌^◌, ◌≤◌, ◌<◌, ◌≡◌, inl, inr, refl, ap, sym, ◌∙◌, List, [], ◌∷◌, ◌++◌,
  some, leb, ltb, arith, Bool-cases, Option-cases, List-cases, All,
}
use linux_cpp_learn.MemPool.{psize}
use linux_cpp_learn.MemPool.Nodes.{node_bytes, Node, mp_align_ptr, room, place, pass}

-- How many nodes have cut off the byte x, have it in their struct, or have it in their block.
unfoldable pub taken : ℕ → List Node → ℕ
unfolding range
taken x [] = 0
taken x (n ∷ ns) = range x (n.base + node_bytes) n.last + taken x ns

unfoldable pub heads : ℕ → List Node → ℕ
unfolding range
heads x [] = 0
heads x (n ∷ ns) = range x n.base (n.base + node_bytes) + heads x ns

unfoldable pub spans : ℕ → List Node → ℕ
unfolding range
spans x [] = 0
spans x (n ∷ ns) = range x n.base n.limit + spans x ns

pub taken-++ : (x : ℕ) (ns ks : List Node) → taken x (ns ++ ks) ≡ taken x ns + taken x ks
unfolding taken
taken-++ x [] ks = omega arith
taken-++ x (n ∷ ns) ks = omega (arith, taken-++ x ns ks)

pub spans-++ : (x : ℕ) (ns ks : List Node) → spans x (ns ++ ks) ≡ spans x ns + spans x ks
unfolding spans
spans-++ x [] ks = omega arith
spans-++ x (n ∷ ns) ks = omega (arith, spans-++ x ns ks)

-- The node's bounds are in order, also behind the next aligned address.
pub record IsTidy (n : Node) : Type 0 where
  pub above : n.base + node_bytes ≤ n.last
  pub below : n.last ≤ n.limit
  pub aligned_below : mp_align_ptr n.last ≤ n.limit
  pub low : n.limit + 31 < 2 ^ 64

-- A node's struct and what it has cut off lie beside one another in its block.
pub taken-spans : (x : ℕ) (ns : List Node) → All IsTidy ns → heads x ns + taken x ns ≤ spans x ns
unfolding taken heads spans range
taken-spans x [] a = omega arith
taken-spans x (n ∷ ns) (t, a) =
    let ih = taken-spans x ns a in
    let le = t.below in let up = t.above in ground (arith, ih, le, up)

-- After the memory from m on was cut off: the bytes are counted, and the blocks are the same.
pub record Takes (ns ns' : List Node) (m size : ℕ) : Type 0 where
  pub counted : (x : ℕ) → taken x ns + range x m (m + size) ≤ taken x ns'
  pub same_spans : (x : ℕ) → spans x ns' ≡ spans x ns
  pub still_tidy : All IsTidy ns'
  pub same_psize : psize ns' ≡ psize ns

range_split :
    (x lo l m hi : ℕ) → l ≤ m → m ≤ hi → lo ≤ l → range x lo l + range x m hi ≤ range x lo hi
unfolding range
range_split x lo l m hi a b c = ground (arith, a, b, c)

place-here :
    (size : ℕ) (n : Node) (ns : List Node)
    → IsTidy n
    → All IsTidy ns
    → size % 32 ≡ 0
    → size ≤ room n.limit (mp_align_ptr n.last)
    → Takes
        (n ∷ ns)
        (record n { last = mp_align_ptr n.last + size } ∷ ns)
        (mp_align_ptr n.last)
        size
unfolding taken spans psize
place-here size n ns t ts whole fits =
    let m = mp_align_ptr n.last in
    let up : n.last ≤ m = omega (arith, t.below, t.low) in
    let inside : m + size ≤ n.limit = omega (arith, t.aligned_below, t.low, fits) in
    let aligned : mp_align_ptr (m + size) ≡ m + size = omega (arith, inside, t.low, whole) in
    record {
      counted = λ x.
          omega (
            arith,
            range_split x (n.base + node_bytes) n.last m (m + size) up (omega arith) t.above,
          );
      same_spans = λ x. refl;
      still_tidy = (
        record {
          above = omega (arith, t.above, up);
          below = inside;
          aligned_below = omega (arith, aligned, inside);
          low = t.low;
        },
        ts,
      );
      same_psize = refl;
    }

pub place-Takes :
    (size : ℕ) (ns : List Node) (m : ℕ) (ns' : List Node)
    → All IsTidy ns
    → size % 32 ≡ 0
    → place size ns ≡ some (m, ns')
    → Takes ns ns' m size
unfolding place taken spans psize
place-Takes size [] m ns' ts whole e = cc
place-Takes size (n ∷ ns) m ns' (t, ts) whole e =
    elim (Bool-cases (leb size (room n.limit (mp_align_ptr n.last)))) [
      | inl fits ↦
          let at : mp_align_ptr n.last ≡ m = ground (arith, e, fits) in
          let out : record n { last = mp_align_ptr n.last + size } ∷ ns ≡ ns' =
            ground (arith, e, fits) in
          rw (← at, ← out) (place-here size n ns t ts whole (ground (arith, fits)))
      | inr full ↦ elim (Option-cases (place size ns)) [
        | inl f ↦ absurd (ground (arith, e, full, f))
        | inr ((k, ms), f) ↦
            let c = place-Takes size ns k ms ts whole f in
            let at : k ≡ m = ground (arith, e, full, f) in
            let out : n ∷ ms ≡ ns' = ground (arith, e, full, f) in
            rw (← at, ← out)
              (record {
                counted = λ x. omega (arith, c.counted x);
                same_spans = λ x. ap (λ k. range x n.base n.limit + k) (c.same_spans x);
                still_tidy = (t, c.still_tidy);
                same_psize = refl;
              })
      ]
    ]

pub psize-++ : (ks ns ns' : List Node) → psize ns' ≡ psize ns → psize (ks ++ ns') ≡ psize (ks ++ ns)
unfolding psize
psize-++ [] ns ns' e = e
psize-++ (k ∷ ks) ns ns' e = refl

pub psize-before : (ks : List Node) (n : Node) → 0 < psize ks → psize (ks ++ n ∷ []) ≡ psize ks
unfolding psize
psize-before [] n pos = absurd (omega (arith, pos))
psize-before (k ∷ ks) n pos = refl

-- The loop of mp_alloc_block changes no bounds.
pub record Passes (ns skipped kept : List Node) : Type 0 where
  pub same_taken : (x : ℕ) → taken x (skipped ++ kept) ≡ taken x ns
  pub same_spans : (x : ℕ) → spans x (skipped ++ kept) ≡ spans x ns
  pub same_psize : psize (skipped ++ kept) ≡ psize ns
  pub skipped_tidy : All IsTidy skipped
  pub kept_tidy : All IsTidy kept

pub pass_lem : (ns : List Node) → All IsTidy ns → Passes ns (pass ns).0 (pass ns).1
unfolding pass taken spans psize
pass_lem [] ts = record {
  same_taken = λ x. refl;
  same_spans = λ x. refl;
  same_psize = refl;
  skipped_tidy = tt;
  kept_tidy = tt;
}
pass_lem (n ∷ []) ts = record {
  same_taken = λ x. refl;
  same_spans = λ x. refl;
  same_psize = refl;
  skipped_tidy = tt;
  kept_tidy = ts;
}
pass_lem (n ∷ k ∷ ns) (t, ts) =
    let ih = pass_lem (k ∷ ns) ts in
    let n' : Node = record n { failed = suc n.failed } in
    let t' : IsTidy n' = record {
      above = t.above;
      below = t.below;
      aligned_below = t.aligned_below;
      low = t.low;
    } in
    let skipped = (pass (k ∷ ns)).0 in
    let kept = (pass (k ∷ ns)).1 in
    let add : (s' k' : List Node)
        → s' ++ k' ≡ n' ∷ (skipped ++ kept)
        → All IsTidy s'
        → All IsTidy k'
        → Passes (n ∷ k ∷ ns) s' k' =
      λ s' k' same a b. record {
        same_taken = λ x.
            ap (taken x) same
            ∙ ap (λ w. range x (n.base + node_bytes) n.last + w) (ih.same_taken x);
        same_spans =
            λ x. ap (spans x) same ∙ ap (λ w. range x n.base n.limit + w) (ih.same_spans x);
        same_psize = ap psize same;
        skipped_tidy = a;
        kept_tidy = b;
      } in
    elim (List-cases skipped) [
      | inl e ↦ elim (Bool-cases (ltb 4 n.failed)) [
        | inl over ↦
            let out : pass (n ∷ k ∷ ns) ≡ (n' ∷ [], kept) = ground (arith, e, over) in
            rw out (add (n' ∷ []) kept (ap (λ s. n' ∷ (s ++ kept)) (sym e)) (t', tt) ih.kept_tidy)
        | inr few ↦
            let out : pass (n ∷ k ∷ ns) ≡ ([], n' ∷ kept) = ground (arith, e, few) in
            rw out (add [] (n' ∷ kept) (ap (λ s. n' ∷ (s ++ kept)) (sym e)) tt (t', ih.kept_tidy))
      ]
      | inr (h, hs, e) ↦
          let out : pass (n ∷ k ∷ ns) ≡ (n' ∷ skipped, kept) = ground (arith, e) in
          rw out (add (n' ∷ skipped) kept refl (t', ih.skipped_tidy) ih.kept_tidy)
    ]
