-- ===== src/DeadlockCheck/Circle/Typed.antt =====
-- The edges of deadlock_check/deadlock_check.c's graph lead to threads, so that verify_edge, which
-- compares the numbers alone, finds the edges that the search follows.
use linux_cpp_learn.Prelude.{
  ℕ, zero, suc, true, List, [], ◌∷◌, ◌++◌, some, ◌≡◌, ◌≢◌, arith, Option-cases, Bool-cases, inl,
  inr, All, All-append, All-get_elem?, >>=-eq-some, ◌==◌, length, ltb,
}
use linux_cpp_learn.DeadlockCheck.{
  Graph, Pair, process, search_vertex, add_vertex, change_next, add_edge, verify_edge, leads_to,
  max,
}
use linux_cpp_learn.DeadlockCheck.Search.Walks.{Leads, Edge}
use linux_cpp_learn.DeadlockCheck.Edges.{search_vertex-get_elem?}
use linux_cpp_learn.DeadlockCheck.Links.{IsLinked, IsLinked-at}
use linux_cpp_learn.DeadlockCheck.Locks.{thread, wait_for}
use mathlib.Core.Path.{subst}

abbrev ToThreads : List Pair → Type 0
ToThreads ps = All (λ p. p.th_type ≡ process) ps

abbrev pub IsTyped : Graph → Type 0
IsTyped g = All (λ v. ToThreads v.next) g

add_vertex-IsTyped : (g h : Graph) (p : Pair) → add_vertex g p ≡ some h → IsTyped g → IsTyped h
unfolding add_vertex
add_vertex-IsTyped g h p e t = elim (Option-cases (search_vertex g p)) [
  | inr (i, f) ↦ let same : g ≡ h = ground (arith, e, f) in subst IsTyped same t
  | inl f ↦ elim (Bool-cases (ltb (length g) max)) [
    | inr full ↦ absurd (ground (arith, e, f, full))
    | inl room ↦
        let new : Graph = record { pair = p; next = [] } ∷ [] in
        let same : g ++ new ≡ h = ground (arith, e, f, room) in
        subst IsTyped same (All-append (λ v. ToThreads v.next) g new t (tt, tt))
  ]
]

change_next-IsTyped :
    (f : List Pair → List Pair) (g : Graph) (i : ℕ)
    → ((ps : List Pair) → ToThreads ps → ToThreads (f ps))
    → IsTyped g
    → IsTyped (change_next f g i)
unfolding change_next
change_next-IsTyped f [] i k t = t
change_next-IsTyped f (v ∷ g) zero k (t, ts) = (k v.next t, ts)
change_next-IsTyped f (v ∷ g) (suc i) k (t, ts) = (t, change_next-IsTyped f g i k ts)

add_edge-IsTyped :
    (g h : Graph) (u v : Pair)
    → v.th_type ≡ process
    → add_edge g u v ≡ some h
    → IsTyped g
    → IsTyped h
unfolding add_edge
add_edge-IsTyped g h u v ty e t =
    let (g1, e1, r1) = >>=-eq-some (add_vertex g u) _ e in
    let (g2, e2, r2) = >>=-eq-some (add_vertex g1 v) _ r1 in
    let (i, e3, r3) = >>=-eq-some (search_vertex g2 u) _ r2 in
    let app : List Pair → List Pair = λ ps. ps ++ v ∷ [] in
    let same : change_next app g2 i ≡ h = ground (arith, r3) in
    subst IsTyped same (
      change_next-IsTyped app g2 i
        (λ ps k. All-append (λ p. p.th_type ≡ process) ps (v ∷ []) k (ty, tt))
        (add_vertex-IsTyped g1 g2 v e2 (add_vertex-IsTyped g g1 u e1 t)))

pub wait_for-IsTyped :
    (g h : Graph) (u v : Pair)
    → v.th_type ≡ process
    → wait_for g u v ≡ some h
    → IsTyped g
    → IsTyped h
unfolding wait_for
wait_for-IsTyped g h u v ty e t =
    let (g1, e1, r1) = >>=-eq-some (add_vertex g u) _ e in
    let (g2, e2, r2) = >>=-eq-some (add_vertex g1 v) _ r1 in
    let t2 = add_vertex-IsTyped g1 g2 v e2 (add_vertex-IsTyped g g1 u e1 t) in
    elim (Bool-cases (verify_edge g2 u v)) [
      | inl there ↦ let same : g2 ≡ h = ground (arith, r2, there) in subst IsTyped same t2
      | inr missing ↦ add_edge-IsTyped g2 h u v ty (ground (arith, r2, missing)) t2
    ]

-- An edge list that leads to the thread b leads to its vertex.
leads_to-Leads :
    (g : Graph) (ps : List Pair) (b j : ℕ)
    → search_vertex g (thread b) ≡ some j
    → ToThreads ps
    → leads_to ps b ≡ true
    → Leads g ps j
unfolding leads_to
leads_to-Leads g [] b j f t l = cc
leads_to-Leads g (p ∷ ps) b j f (ty, t) l = elim (Bool-cases (p.th_id == b)) [
  | inl same ↦
      let number : p.th_id ≡ b = ground (arith, same) in
      let eq : thread b ≡ p = cc in inl (subst (λ q. search_vertex g q ≡ some j) eq f)
  | inr differ ↦ inr (leads_to-Leads g ps b j f t (ground (arith, l, differ)))
]

-- An edge that verify_edge finds between two threads is an edge between their vertices.
pub IsLinked-Edge :
    (g : Graph) (a b i j : ℕ)
    → IsTyped g
    → a ≢ b
    → search_vertex g (thread a) ≡ some i
    → search_vertex g (thread b) ≡ some j
    → IsLinked g (thread a) (thread b)
    → Edge g i j
unfolding leads_to
IsLinked-Edge g a b i j t ne at_a at_b l =
    let (k, x, at, got, led) = IsLinked-at g (thread a) (thread b) l in
    let same : k ≡ i = ground (arith, at, at_a) in
    let (y, got', own) = search_vertex-get_elem? g (thread a) k at in
    let own' : x.pair.th_id ≡ a = ground (arith, got, got', own) in
    let next_led : leads_to x.next b ≡ true = ground (arith, led, own', ne) in
    (
      x,
      rw (← same) got,
      leads_to-Leads g x.next b j at_b (All-get_elem? (λ v. ToThreads v.next) g k x t got) next_led,
    )
