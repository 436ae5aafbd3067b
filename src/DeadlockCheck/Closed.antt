-- ===== src/DeadlockCheck/Closed.antt =====
-- The edges of deadlock_check/deadlock_check.c's graph lead to its vertices, under every operation.
use linux_cpp_learn.Prelude.{
  ℕ, zero, suc, ◌<◌, true, List, [], ◌∷◌, ◌++◌, some, length, length-append, get_elem?, ◌≡◌, arith,
  Option-cases, inl, inr, >>=-eq-some, Bool-cases, ltb, ◌==◌, ◌∙◌, ◌⊎◌, All, All-append, if_keeps,
}
use linux_cpp_learn.DeadlockCheck.{
  Graph, Vertex, Pair, same_pair, search_vertex, add_vertex, change_next, add_edge, verify_edge,
  remove_first, remove_edge, max,
}
use linux_cpp_learn.DeadlockCheck.Edges.{
  search_vertex-change_next, get_elem?-change_next, length-change_next,
}
use linux_cpp_learn.DeadlockCheck.Search.Walks.{IsClosed}
use linux_cpp_learn.DeadlockCheck.Locks.{wait_for}

abbrev pub Resolves : Graph → Pair → Type 0
Resolves g p = (j : ℕ) × (search_vertex g p ≡ some j)

All-mono {ℓ κ μ} :
    {A : Type ℓ} (P : A → Type κ) (Q : A → Type μ) (xs : List A)
    → ((x : A) → P x → Q x)
    → All P xs
    → All Q xs
All-mono P Q [] f h = tt
All-mono P Q (x ∷ xs) f h = (f x h.0, All-mono P Q xs f h.1)

pub search_vertex-append :
    (g h : Graph) (p : Pair) (j : ℕ)
    → search_vertex g p ≡ some j
    → search_vertex (g ++ h) p ≡ some j
unfolding search_vertex
search_vertex-append [] h p j e = cc
search_vertex-append (v ∷ g) h p j e = elim (Option-cases (search_vertex g p)) [
  | inl f ↦ ground (arith, e, f)
  | inr (i, f) ↦ ground (arith, e, f, search_vertex-append g h p i f)
]

same_pair_self : (p : Pair) → same_pair p p ≡ true
same_pair_self p = ground arith

pub search_vertex-added :
    (g : Graph) (p : Pair) → Resolves (g ++ record { pair = p; next = [] } ∷ []) p
unfolding search_vertex
search_vertex-added [] p = (0, ground (arith, same_pair_self p))
search_vertex-added (v ∷ g) p = elim (Bool-cases (same_pair v.pair p)) [
  | inl same ↦ (0, ground (arith, same))
  | inr differ ↦ let (j, e) = search_vertex-added g p in (suc j, ground (arith, differ, e))
]

get_elem?-snoc {ℓ} :
    {A : Type ℓ} (xs : List A) (x y : A) (i : ℕ)
    → get_elem? (xs ++ x ∷ []) i ≡ some y
    → (get_elem? xs i ≡ some y) ⊎ (y ≡ x)
get_elem?-snoc [] x y zero e = inr (ground (arith, e))
get_elem?-snoc [] x y (suc i) e = cc
get_elem?-snoc (z ∷ xs) x y zero e = inl e
get_elem?-snoc (z ∷ xs) x y (suc i) e = get_elem?-snoc xs x y i e

-- h has the vertices of g, at their places.
abbrev Extends : Graph → Graph → Type 0
Extends g h = (p : Pair) (j : ℕ) → search_vertex g p ≡ some j → search_vertex h p ≡ some j

added-IsClosed :
    (g : Graph) (p : Pair)
    → IsClosed g
    → length g < max
    → IsClosed (g ++ record { pair = p; next = [] } ∷ [])
added-IsClosed g p c lt = record {
  resolves = λ i ver e. elim (get_elem?-snoc g (record { pair = p; next = [] }) ver i e) [
    | inl old ↦
        All-mono (Resolves g) (Resolves (g ++ record { pair = p; next = [] } ∷ [])) ver.next
          (λ q (k, r). (k, search_vertex-append g (record { pair = p; next = [] } ∷ []) q k r))
          (c.resolves i ver old)
    | inr new ↦ rw new tt
  ];
  room = omega (arith, length-append g (record { pair = p; next = [] } ∷ []));
}

pub add_vertex-IsClosed :
    (g h : Graph) (p : Pair)
    → IsClosed g
    → add_vertex g p ≡ some h
    → IsClosed h × Resolves h p × Extends g h
unfolding add_vertex
add_vertex-IsClosed g h p c e = elim (Option-cases (search_vertex g p)) [
  | inr (j, f) ↦ let same : g ≡ h = ground (arith, e, f) in rw (← same) (c, (j, f), λ q k r. r)
  | inl f ↦ elim (Bool-cases (ltb (length g) max)) [
    | inr full ↦ absurd (ground (arith, e, f, full))
    | inl room ↦
        let same : g ++ record { pair = p; next = [] } ∷ [] ≡ h = ground (arith, e, f, room) in
        rw (← same) (
          added-IsClosed g p c (ground (arith, room)),
          search_vertex-added g p,
          λ q k r. search_vertex-append g _ q k r,
        )
  ]
]

changed-Resolves :
    (f : List Pair → List Pair) (g : Graph) (i : ℕ)
    → ((ps : List Pair) → All (Resolves g) ps → All (Resolves g) (f ps))
    → IsClosed g
    → (j : ℕ) (ver : Vertex) → get_elem? (change_next f g i) j ≡ some ver
    → All (Resolves g) ver.next
changed-Resolves f g i keeps c j ver e = elim (Option-cases (get_elem? g j)) [
  | inl out ↦ absurd (ground (arith, get_elem?-change_next f g i j, e, out))
  | inr (x, at) ↦ elim (Bool-cases (i == j)) [
    | inl here ↦
        let same : record x { next = f x.next } ≡ ver =
          ground (arith, get_elem?-change_next f g i j, e, at, here) in
        rw (← same) (keeps x.next (c.resolves j x at))
    | inr differ ↦
        let same : x ≡ ver = ground (arith, get_elem?-change_next f g i j, e, at, differ) in
        rw (← same) (c.resolves j x at)
  ]
]

-- A change of one list of edges that puts in vertices only.
change_next-IsClosed :
    (f : List Pair → List Pair) (g : Graph) (i : ℕ)
    → ((ps : List Pair) → All (Resolves g) ps → All (Resolves g) (f ps))
    → IsClosed g
    → IsClosed (change_next f g i)
change_next-IsClosed f g i keeps c = record {
  resolves = λ j ver e.
      All-mono (Resolves g) (Resolves (change_next f g i)) ver.next
        (λ p (k, r). (k, search_vertex-change_next f g i p ∙ r))
        (changed-Resolves f g i keeps c j ver e);
  room = omega (arith, length-change_next f g i, c.room);
}

All-remove_first :
    (P : Pair → Type 0) (t : ℕ) (ps : List Pair) → All P ps → All P (remove_first t ps)
unfolding remove_first
All-remove_first P t [] h = tt
All-remove_first P t (p ∷ ps) h =
    if_keeps (λ (qs : List Pair). All P qs) (p.th_id == t) h.1 (h.0, All-remove_first P t ps h.1)

pub remove_edge-IsClosed : (g : Graph) (u v : Pair) → IsClosed g → IsClosed (remove_edge g u v)
unfolding remove_edge
remove_edge-IsClosed g u v c = elim (Option-cases (search_vertex g u)) [
  | inl e ↦ let same : remove_edge g u v ≡ g = ground (arith, e) in rw same c
  | inr (i, e) ↦ elim (Option-cases (search_vertex g v)) [
    | inl f ↦ let same : remove_edge g u v ≡ g = ground (arith, e, f) in rw same c
    | inr (j, f) ↦
        let same : remove_edge g u v ≡ change_next (remove_first v.th_id) g i =
          ground (arith, e, f) in
        rw same (
          change_next-IsClosed (remove_first v.th_id) g i
            (λ ps h. All-remove_first (Resolves g) v.th_id ps h) c)
  ]
]

add_edge-IsClosed : (g h : Graph) (u v : Pair) → IsClosed g → add_edge g u v ≡ some h → IsClosed h
unfolding add_edge
add_edge-IsClosed g h u v c e =
    let (g1, e1, r1) = >>=-eq-some (add_vertex g u) _ e in
    let (g2, e2, r2) = >>=-eq-some (add_vertex g1 v) _ r1 in
    let (i, e3, r3) = >>=-eq-some (search_vertex g2 u) _ r2 in
    let (c1, _, _) = add_vertex-IsClosed g g1 u c e1 in
    let (c2, found, _) = add_vertex-IsClosed g1 g2 v c1 e2 in
    let app : List Pair → List Pair = λ ps. ps ++ v ∷ [] in
    let same : change_next app g2 i ≡ h = ground (arith, r3) in
    rw (← same) (
      change_next-IsClosed app g2 i (λ ps a. All-append (Resolves g2) ps (v ∷ []) a (found, tt)) c2)

pub wait_for-IsClosed :
    (g h : Graph) (u v : Pair) → IsClosed g → wait_for g u v ≡ some h → IsClosed h
unfolding wait_for
wait_for-IsClosed g h u v c e =
    let (g1, e1, r1) = >>=-eq-some (add_vertex g u) _ e in
    let (g2, e2, r2) = >>=-eq-some (add_vertex g1 v) _ r1 in
    let (c1, _, _) = add_vertex-IsClosed g g1 u c e1 in
    let (c2, _, _) = add_vertex-IsClosed g1 g2 v c1 e2 in
    elim (Bool-cases (verify_edge g2 u v)) [
      | inl there ↦ let same : g2 ≡ h = ground (arith, r2, there) in rw (← same) c2
      | inr missing ↦ add_edge-IsClosed g2 h u v c2 (ground (arith, r2, missing))
    ]
