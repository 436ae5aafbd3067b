-- ===== src/DeadlockCheck/Search/Sound.antt =====
-- Where each thread waits for one other at most, what deadlock_check/deadlock_check.c flags is a cycle.
use linux_cpp_learn.Prelude.{
  ℕ, zero, suc, ◌<◌, ◌≤◌, true, false, List, [], ◌∷◌, some, length, get_elem?, ◌≡◌, ◌↔◌, refl,
  arith, Option, inl, inr, ◌>>=◌, >>=-eq-some, Bool-cases, update, ◌==◌, sym, ◌∙◌,
}
use mathlib.Core.Path.{subst}
use linux_cpp_learn.DeadlockCheck.{Graph, Vertex, Pair, search_vertex}
use linux_cpp_learn.DeadlockCheck.Search.{
  Check, pop, visit_all, dfs, depth, reset, search_all, search_for_cycle, check_from,
  check_dead_lock,
}
use linux_cpp_learn.DeadlockCheck.Search.Walks.{
  Leads, Edge, Path1, edge, then_edge, Cycle, IsClosed, search_vertex-lt, get_elem?-bound,
}
use linux_cpp_learn.DeadlockCheck.Search.Ends.{check_dead_lock_ends}
use linux_cpp_learn.DeadlockCheck.Search.Complete.{dfs-new, entered, check_dead_lock-Short}

-- Each thread waits for one other at most.
abbrev pub IsSingle : Graph → Type 0
IsSingle g = (i : ℕ) (ver : Vertex) → get_elem? g i ≡ some ver → length ver.next ≤ 1

-- The vertices visited are those on the way to j.
abbrev Behind : Graph → ℕ → Check → Type 0
Behind g j s = (v : ℕ) → v < length g → s.visited v ≡ true → Path1 g v j

abbrev AnyCycle : Graph → Type 0
AnyCycle g = (i : ℕ) × Cycle g i

pop-flag : (s : Check) → (pop s).deadlock ≡ s.deadlock
unfolding pop
pop-flag s = ground arith

-- With one edge at most, a flag comes from the vertex that it leads to.
visit_all-flag :
    (visit : ℕ → Check → Option Check) (g : Graph) (ps : List Pair) (s t : Check)
    → length ps ≤ 1
    → visit_all visit g ps s ≡ some t
    → s.deadlock ≡ false
    → t.deadlock ≡ true
    → (k : ℕ) × (u : Check) × (visit k s ≡ some u)
      × (u.deadlock ≡ true)
      × (k < length g)
      × Leads g ps k
unfolding visit_all
visit_all-flag visit g [] s t one e clear flagged = absurd (ground (arith, e, clear, flagged))
visit_all-flag visit g (p ∷ []) s t one e clear flagged =
    let (k, f, e1) = >>=-eq-some (search_vertex g p) _ e in
    let (u, q, e2) = >>=-eq-some (visit k s) _ e1 in
    (k, u, q, sym (pop-flag u) ∙ ground (arith, e2, flagged), search_vertex-lt g p k f, inl f)
visit_all-flag visit g (p ∷ q ∷ ps) s t one e clear flagged = absurd (omega arith)

search_all-flag :
    (visit : ℕ → Check → Option Check) (g : Graph) (i : ℕ) (ps : List Pair) (s t : Check)
    → length ps ≤ 1
    → search_all visit g i ps s ≡ some t
    → s.deadlock ≡ false
    → t.deadlock ≡ true
    → (k : ℕ) × (u : Check) × (visit k (reset g i s) ≡ some u)
      × (u.deadlock ≡ true)
      × (k < length g)
      × Leads g ps k
unfolding search_all
search_all-flag visit g i [] s t one e clear flagged = absurd (ground (arith, e, clear, flagged))
search_all-flag visit g i (p ∷ []) s t one e clear flagged =
    let (k, f, e1) = >>=-eq-some (search_vertex g p) _ e in
    let (u, q, e2) = >>=-eq-some (visit k (reset g i s)) _ e1 in
    (k, u, q, ground (arith, e2, flagged), search_vertex-lt g p k f, inl f)
search_all-flag visit g i (p ∷ q ∷ ps) s t one e clear flagged = absurd (omega arith)

module _ (g : Graph) (single : IsSingle g) where
  Behind-entered : (j k : ℕ) (s : Check) → Edge g j k → Behind g j s → Behind g k (entered j s)
  Behind-entered j k s e h v lt seen = elim (Bool-cases (j == v)) [
    | inl same ↦ let eq : j ≡ v = ground arith in subst (λ (x : ℕ). Path1 g x k) eq (edge e)
    | inr differ ↦ then_edge (h v lt (ground arith)) e
  ]

  dfs-Sound :
      (n j : ℕ) (s t : Check)
      → j < length g
      → Behind g j s
      → dfs n g j s ≡ some t
      → s.deadlock ≡ false
      → t.deadlock ≡ true
      → AnyCycle g
  unfolding dfs visit_all
  dfs-Sound zero j s t lt h e clear flagged = cc
  dfs-Sound (suc n) j s t lt h e clear flagged = elim (Bool-cases (s.visited j)) [
    | inl seen ↦ (j, h j lt seen)
    | inr new ↦
        let (ver, f, k) = dfs-new g n j s t new e in
        let (i, u, q, flag_u, lt_i, l) =
          visit_all-flag (dfs n g) g ver.next (entered j s) t (single j ver f) k clear flagged in
        dfs-Sound n i (entered j s) u lt_i (Behind-entered j i s (ver, f, l) h) q clear flag_u
  ]

  Behind-reset : (i k : ℕ) (s : Check) → Edge g i k → Behind g k (reset g i s)
  unfolding reset
  Behind-reset i k s e v lt seen = elim (Bool-cases (i == v)) [
    | inl same ↦ let eq : i ≡ v = ground arith in subst (λ (x : ℕ). Path1 g x k) eq (edge e)
    | inr differ ↦ absurd (ground (arith, seen))
  ]

  search_for_cycle-Sound :
      (i : ℕ) (s t : Check)
      → search_for_cycle g i s ≡ some t
      → s.deadlock ≡ false
      → t.deadlock ≡ true
      → AnyCycle g
  unfolding search_for_cycle reset
  search_for_cycle-Sound i s t e clear flagged =
      let (ver, f, e1) = >>=-eq-some (get_elem? g i) _ e in
      let root : Check = record s { visited = update s.visited i true; path = i ∷ [] } in
      let (k, u, q, flag_u, lt_k, l) =
        search_all-flag (dfs (depth g) g) g i ver.next root t (single i ver f) e1 clear flagged in
      dfs-Sound (depth g) k (reset g i root) u lt_k (Behind-reset i k root (ver, f, l)) q clear
        flag_u

  check_from-Sound :
      (n i : ℕ) (s t : Check)
      → check_from n g i s ≡ some t
      → s.deadlock ≡ false
      → t.deadlock ≡ true
      → AnyCycle g
  unfolding check_from
  check_from-Sound zero i s t e clear flagged = absurd (ground (arith, e, clear, flagged))
  check_from-Sound (suc n) i s t e clear flagged =
      let e1 : (search_for_cycle g i s >>= λ u. check_from n g (suc i) u) ≡ some t =
        ground (arith, clear, e) in
      let (u, f, e2) = >>=-eq-some (search_for_cycle g i s) _ e1 in
      elim (Bool-cases u.deadlock) [
        | inl now ↦ search_for_cycle-Sound i s u f clear now
        | inr later ↦ check_from-Sound n (suc i) u t e2 later flagged
      ]

Cycle-lt : (g : Graph) (i j : ℕ) → Path1 g i j → i < length g
Cycle-lt g i j (edge (ver, e, l)) = get_elem?-bound g i ver e
Cycle-lt g i j (then_edge p e) = Cycle-lt g i _ p

-- In a graph whose edges lead to its vertices, of which there are 100 at most, a cycle of any form is
-- found: the check ends within its arrays, and it raises the flag.
pub check_dead_lock_finds :
    (g : Graph) (s : Check) (i : ℕ)
    → IsClosed g
    → Cycle g i
    → (t : Check) × (check_dead_lock g s ≡ some t) × (t.deadlock ≡ true)
check_dead_lock_finds g s i closed c =
    let (t, e) = check_dead_lock_ends g s closed in
    (
      t,
      e,
      elim (Bool-cases t.deadlock) [
        | inl flagged ↦ flagged
        | inr clear ↦ absurd (check_dead_lock-Short g s t e clear i (Cycle-lt g i i c) c)
      ],
    )

-- In such a graph, if each thread waits for one other at most: the check ends within its arrays, and
-- it raises the flag exactly if there is a cycle.
pub check_dead_lock_decides :
    (g : Graph) (s : Check)
    → IsClosed g
    → IsSingle g
    → (t : Check) × (check_dead_lock g s ≡ some t) × ((t.deadlock ≡ true) ↔ ((i : ℕ) × Cycle g i))
unfolding check_dead_lock
check_dead_lock_decides g s closed single =
    let (t, e) = check_dead_lock_ends g s closed in
    (
      t,
      e,
      (
        λ flagged.
            check_from-Sound g single (length g) 0 (record s { deadlock = false }) t e refl flagged,
        λ (i, c).
            let (u, f, flagged) = check_dead_lock_finds g s i closed c in
            ground (arith, e, f, flagged),
      ),
    )
