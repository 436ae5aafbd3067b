-- ===== src/DeadlockCheck/Edges.antt =====
-- The edges of deadlock_check/deadlock_check.c's graph under its operations.
use linux_cpp_learn.Prelude.{
  ℕ, zero, suc, true, false, ◌||◌, List, [], ◌∷◌, ◌++◌, some, none, length, get_elem?, ◌≡◌, refl,
  arith, Option-cases, inl, inr, if◌then◌else◌, Bool-cases, ◌==◌, ap, ◌∙◌,
}
use linux_cpp_learn.DeadlockCheck.{
  Graph, Vertex, Pair, same_pair, search_vertex, add_vertex, change_next, add_edge, leads_to,
  verify_edge, remove_first, remove_edge,
}

pub search_vertex-change_next :
    (f : List Pair → List Pair) (g : Graph) (i : ℕ) (p : Pair)
    → search_vertex (change_next f g i) p ≡ search_vertex g p
unfolding search_vertex change_next
search_vertex-change_next f [] i p = refl
search_vertex-change_next f (v ∷ g) zero p = refl
search_vertex-change_next f (v ∷ g) (suc i) p = ground (arith, search_vertex-change_next f g i p)

pub get_elem?-change_next :
    (f : List Pair → List Pair) (g : Graph) (i j : ℕ)
    → get_elem? (change_next f g i) j ≡ (elim (get_elem? g j) [
      | none ↦ none
      | some v ↦ some (if i == j then record v { next = f v.next } else v)
    ])
unfolding change_next
get_elem?-change_next f [] i j = refl
get_elem?-change_next f (v ∷ g) zero zero = refl
get_elem?-change_next f (v ∷ g) zero (suc j) = ground arith
get_elem?-change_next f (v ∷ g) (suc i) zero = ground arith
get_elem?-change_next f (v ∷ g) (suc i) (suc j) = ground (arith, get_elem?-change_next f g i j)

pub length-change_next :
    (f : List Pair → List Pair) (g : Graph) (i : ℕ) → length (change_next f g i) ≡ length g
unfolding change_next
length-change_next f [] i = refl
length-change_next f (v ∷ g) zero = refl
length-change_next f (v ∷ g) (suc i) = ap suc (length-change_next f g i)

-- What undoes f on one list of edges undoes it in the graph.
change_next-undone :
    (f h : List Pair → List Pair) (g : Graph) (i : ℕ) (v : Vertex)
    → get_elem? g i ≡ some v
    → h (f v.next) ≡ v.next
    → change_next h (change_next f g i) i ≡ g
unfolding change_next
change_next-undone f h [] i v e u = refl
change_next-undone f h (x ∷ g) zero v e u = ground arith
change_next-undone f h (x ∷ g) (suc i) v e u =
    ap (λ (r : Graph). x ∷ r) (change_next-undone f h g i v e u)

remove_first-appended :
    (ps : List Pair) (v : Pair)
    → leads_to ps v.th_id ≡ false
    → remove_first v.th_id (ps ++ v ∷ []) ≡ ps
unfolding leads_to remove_first
remove_first-appended [] v h = ground arith
remove_first-appended (p ∷ ps) v h = ground (arith, remove_first-appended ps v)

pub leads_to-append :
    (ps qs : List Pair) (t : ℕ) → leads_to (ps ++ qs) t ≡ (leads_to ps t || leads_to qs t)
unfolding leads_to
leads_to-append [] qs t = refl
leads_to-append (p ∷ ps) qs t = ground (arith, leads_to-append ps qs t)

-- A vertex that is found is there, with the pair's thread.
pub search_vertex-get_elem? :
    (g : Graph) (p : Pair) (i : ℕ)
    → search_vertex g p ≡ some i
    → (x : Vertex) × (get_elem? g i ≡ some x) × (x.pair.th_id ≡ p.th_id)
unfolding search_vertex
search_vertex-get_elem? [] p i h = cc
search_vertex-get_elem? (v ∷ g) p i h = elim (Bool-cases (same_pair v.pair p)) [
  | inl same ↦ (v, ground (arith, h, same), ground (arith, same))
  | inr differ ↦ elim (Option-cases (search_vertex g p)) [
    | inl e ↦ absurd (ground (arith, h, e, differ))
    | inr (j, e) ↦
        let (x, f, t) = search_vertex-get_elem? g p j e in (x, ground (arith, h, e, f, differ), t)
  ]
]

pub verify_edge-at :
    (g : Graph) (u v : Pair) (i : ℕ) (x : Vertex)
    → search_vertex g u ≡ some i
    → get_elem? g i ≡ some x
    → verify_edge g u v ≡ leads_to (x.pair ∷ x.next) v.th_id
unfolding verify_edge
verify_edge-at g u v i x e f = ground (arith, e, f)

pub add_vertex-found :
    (g : Graph) (p : Pair) (i : ℕ) → search_vertex g p ≡ some i → add_vertex g p ≡ some g
unfolding add_vertex
add_vertex-found g p i e = ground (arith, e)

-- Between two vertices with no edge, `add_edge` makes the edge, and `remove_edge` then gives the
-- graph back.
pub remove_edge-add_edge :
    (g : Graph) (u v : Pair) (i j : ℕ)
    → search_vertex g u ≡ some i
    → search_vertex g v ≡ some j
    → verify_edge g u v ≡ false
    → (g' : Graph) × (add_edge g u v ≡ some g')
      × (verify_edge g' u v ≡ true)
      × (remove_edge g' u v ≡ g)
unfolding add_edge remove_edge leads_to
remove_edge-add_edge g u v i j eu ev unlinked =
    let app : List Pair → List Pair = λ ps. ps ++ v ∷ [] in
    let (x, at_i, _) = search_vertex-get_elem? g u i eu in
    let x' : Vertex = record x { next = x.next ++ v ∷ [] } in
    let eu' = search_vertex-change_next app g i u ∙ eu in
    let ev' = search_vertex-change_next app g i v ∙ ev in
    let at_i' : get_elem? (change_next app g i) i ≡ some x' =
      ground (arith, get_elem?-change_next app g i i, at_i) in
    let apart : leads_to x.next v.th_id ≡ false =
      ground (arith, verify_edge-at g u v i x eu at_i, unlinked) in
    (
      change_next app g i,
      ground (arith, add_vertex-found g u i eu, add_vertex-found g v j ev, eu),
      ground (
        arith,
        verify_edge-at (change_next app g i) u v i x' eu' at_i',
        leads_to-append x.next (v ∷ []) v.th_id,
      ),
      ground (
        arith,
        eu',
        ev',
        change_next-undone app (remove_first v.th_id) g i x at_i
            (remove_first-appended x.next v apart),
      ),
    )
