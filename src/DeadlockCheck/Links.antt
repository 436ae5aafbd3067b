-- ===== src/DeadlockCheck/Links.antt =====
-- When deadlock_check/deadlock_check.c's graph has an edge, and which operations leave it.
use linux_cpp_learn.Prelude.{
  ℕ, zero, suc, true, List, [], ◌∷◌, ◌++◌, some, length, get_elem?, ◌≡◌, ◌≢◌, arith, Option-cases,
  inl, inr, >>=-eq-some, Bool-cases, ltb, ◌==◌, ◌∙◌, ◌⊎◌,
}
use linux_cpp_learn.DeadlockCheck.{
  Graph, Vertex, Pair, search_vertex, add_vertex, change_next, add_edge, leads_to, verify_edge,
  remove_first, remove_edge, max,
}
use linux_cpp_learn.DeadlockCheck.Edges.{
  search_vertex-change_next, get_elem?-change_next, leads_to-append, search_vertex-get_elem?,
  verify_edge-at, remove_edge-add_edge,
}
use linux_cpp_learn.DeadlockCheck.Closed.{search_vertex-append, search_vertex-added, Resolves}
use linux_cpp_learn.DeadlockCheck.Locks.{wait_for}

abbrev pub IsLinked : Graph → Pair → Pair → Type 0
IsLinked g u v = verify_edge g u v ≡ true

pub add_vertex-Resolves : (g h : Graph) (p : Pair) → add_vertex g p ≡ some h → Resolves h p
unfolding add_vertex
add_vertex-Resolves g h p e = elim (Option-cases (search_vertex g p)) [
  | inr (j, f) ↦ (j, ground (arith, e, f))
  | inl f ↦
      let (j, k) = search_vertex-added g p in
      elim (Bool-cases (ltb (length g) max)) [
        | inr full ↦ absurd (ground (arith, e, f, full))
        | inl room ↦ (j, ground (arith, e, f, k, room))
      ]
]

add_vertex-keeps :
    (g h : Graph) (p q : Pair) (j : ℕ)
    → add_vertex g p ≡ some h
    → search_vertex g q ≡ some j
    → search_vertex h q ≡ some j
unfolding add_vertex
add_vertex-keeps g h p q j e f = elim (Option-cases (search_vertex g p)) [
  | inr (k, there) ↦ ground (arith, e, f, there)
  | inl new ↦
      ground (arith, e, new, search_vertex-append g (record { pair = p; next = [] } ∷ []) q j f)
]

-- What `verify_edge` found.
pub IsLinked-at :
    (g : Graph) (u v : Pair)
    → IsLinked g u v
    → (i : ℕ) × (x : Vertex) × (search_vertex g u ≡ some i)
      × (get_elem? g i ≡ some x)
      × (leads_to (x.pair ∷ x.next) v.th_id ≡ true)
unfolding verify_edge
IsLinked-at g u v h = elim (Option-cases (search_vertex g u)) [
  | inl e ↦ absurd (ground (arith, h, e))
  | inr (i, e) ↦
      let (x, f, _) = search_vertex-get_elem? g u i e in (i, x, e, f, ground (arith, h, e, f))
]

pub get_elem?-append {ℓ} :
    {A : Type ℓ} (xs ys : List A) (i : ℕ) (x : A)
    → get_elem? xs i ≡ some x
    → get_elem? (xs ++ ys) i ≡ some x
get_elem?-append [] ys i x e = cc
get_elem?-append (y ∷ xs) ys zero x e = e
get_elem?-append (y ∷ xs) ys (suc i) x e = get_elem?-append xs ys i x e

pub add_vertex-IsLinked :
    (g h : Graph) (p u v : Pair) → add_vertex g p ≡ some h → IsLinked g u v → IsLinked h u v
unfolding add_vertex
add_vertex-IsLinked g h p u v e l = elim (Option-cases (search_vertex g p)) [
  | inr (j, f) ↦ ground (arith, e, f)
  | inl f ↦ elim (Bool-cases (ltb (length g) max)) [
    | inr full ↦ absurd (ground (arith, e, f, full))
    | inl room ↦
        let new : Graph = record { pair = p; next = [] } ∷ [] in
        let (i, x, at, got, led) = IsLinked-at g u v l in
        let same : g ++ new ≡ h = ground (arith, e, f, room) in
        rw (← same) (
          verify_edge-at (g ++ new) u v i x (search_vertex-append g new u i at)
            (get_elem?-append g new i x got)
          ∙ led)
  ]
]

-- A change of the edges of the vertex j leaves an edge from another, and one that f leaves.
change_next-IsLinked :
    (f : List Pair → List Pair) (g : Graph) (j : ℕ) (u v : Pair)
    → ((i : ℕ) (x : Vertex)
        → search_vertex g u ≡ some i
        → i ≡ j
        → leads_to x.next v.th_id ≡ true
        → leads_to (f x.next) v.th_id ≡ true)
    → IsLinked g u v
    → IsLinked (change_next f g j) u v
unfolding leads_to
change_next-IsLinked f g j u v keeps l =
    let (i, x, at, got, led) = IsLinked-at g u v l in
    let at' = search_vertex-change_next f g j u ∙ at in
    elim (Bool-cases (j == i)) [
      | inr differ ↦
          verify_edge-at (change_next f g j) u v i x at'
            (ground (arith, get_elem?-change_next f g j i, got, differ))
          ∙ led
      | inl same ↦
          let x' : Vertex = record x { next = f x.next } in
          verify_edge-at (change_next f g j) u v i x' at'
            (ground (arith, get_elem?-change_next f g j i, got, same))
          ∙ ground (arith, led, keeps i x at (ground arith))
    ]

leads_to-remove_first :
    (s t : ℕ) (ps : List Pair)
    → s ≢ t
    → leads_to ps t ≡ true
    → leads_to (remove_first s ps) t ≡ true
unfolding leads_to remove_first
leads_to-remove_first s t [] ne h = h
leads_to-remove_first s t (p ∷ ps) ne h = ground (arith, leads_to-remove_first s t ps ne)

-- `remove_edge` leaves the edges from other threads, and those to other threads.
pub remove_edge-IsLinked :
    (g : Graph) (p q u v : Pair)
    → (p.th_id ≢ u.th_id) ⊎ (q.th_id ≢ v.th_id)
    → IsLinked g u v
    → IsLinked (remove_edge g p q) u v
unfolding remove_edge
remove_edge-IsLinked g p q u v other l = elim (Option-cases (search_vertex g p)) [
  | inl e ↦ let same : remove_edge g p q ≡ g = ground (arith, e) in rw same l
  | inr (j, e) ↦ elim (Option-cases (search_vertex g q)) [
    | inl f ↦ let same : remove_edge g p q ≡ g = ground (arith, e, f) in rw same l
    | inr (k, f) ↦
        let same : remove_edge g p q ≡ change_next (remove_first q.th_id) g j =
          ground (arith, e, f) in
        rw same (
          change_next-IsLinked (remove_first q.th_id) g j u v
            (λ i x at here led. elim other [
              | inr ne ↦ leads_to-remove_first q.th_id v.th_id x.next ne led
              | inl ne ↦
                  let (y, got, t) = search_vertex-get_elem? g p j e in
                  let (z, got', t') = search_vertex-get_elem? g u i at in
                  absurd (ne (ground (arith, got, got', t, t', here)))
            ])
            l)
  ]
]

add_edge-IsLinked :
    (g h : Graph) (p q u v : Pair) → add_edge g p q ≡ some h → IsLinked g u v → IsLinked h u v
unfolding add_edge
add_edge-IsLinked g h p q u v e l =
    let (g1, e1, r1) = >>=-eq-some (add_vertex g p) _ e in
    let (g2, e2, r2) = >>=-eq-some (add_vertex g1 q) _ r1 in
    let (i, e3, r3) = >>=-eq-some (search_vertex g2 p) _ r2 in
    let app : List Pair → List Pair = λ ps. ps ++ q ∷ [] in
    let same : change_next app g2 i ≡ h = ground (arith, r3) in
    let l2 = add_vertex-IsLinked g1 g2 q u v e2 (add_vertex-IsLinked g g1 p u v e1 l) in
    rw (← same) (
      change_next-IsLinked app g2 i u v
        (λ j x at here led. ground (arith, leads_to-append x.next (q ∷ []) v.th_id, led)) l2)

-- `lock_before`'s change of the graph leaves every edge.
pub wait_for-IsLinked :
    (g h : Graph) (p q u v : Pair) → wait_for g p q ≡ some h → IsLinked g u v → IsLinked h u v
unfolding wait_for
wait_for-IsLinked g h p q u v e l =
    let (g1, e1, r1) = >>=-eq-some (add_vertex g p) _ e in
    let (g2, e2, r2) = >>=-eq-some (add_vertex g1 q) _ r1 in
    let l2 = add_vertex-IsLinked g1 g2 q u v e2 (add_vertex-IsLinked g g1 p u v e1 l) in
    elim (Bool-cases (verify_edge g2 p q)) [
      | inl there ↦ let same : g2 ≡ h = ground (arith, r2, there) in rw (← same) l2
      | inr missing ↦ add_edge-IsLinked g2 h p q u v (ground (arith, r2, missing)) l2
    ]

-- It makes the edge of the waiting thread.
pub wait_for-links : (g h : Graph) (u v : Pair) → wait_for g u v ≡ some h → IsLinked h u v
unfolding wait_for
wait_for-links g h u v e =
    let (g1, e1, r1) = >>=-eq-some (add_vertex g u) _ e in
    let (g2, e2, r2) = >>=-eq-some (add_vertex g1 v) _ r1 in
    elim (Bool-cases (verify_edge g2 u v)) [
      | inl there ↦ ground (arith, r2, there)
      | inr missing ↦
          let (i, eu) = add_vertex-Resolves g g1 u e1 in
          let (j, ev) = add_vertex-Resolves g1 g2 v e2 in
          let (z, k, l, _) =
            remove_edge-add_edge g2 u v i j (add_vertex-keeps g1 g2 v u i e2 eu) ev missing in
          let same : z ≡ h = ground (arith, r2, missing, k) in rw (← same) l
    ]
