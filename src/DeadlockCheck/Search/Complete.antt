-- ===== src/DeadlockCheck/Search/Complete.antt =====
-- A search of deadlock_check/deadlock_check.c that raises no flag has followed every walk to its end.
use linux_cpp_learn.Prelude.{
  ℕ, zero, suc, ◌+◌, ◌<◌, ◌≤◌, true, false, List, [], ◌∷◌, some, length, get_elem?, ◌≡◌, arith,
  Option-cases, Option, inl, inr, ◌>>=◌, >>=-eq-some, Bool-cases, update, ◌==◌, sym, ◌∙◌,
}
use mathlib.Core.Path.{subst}
use linux_cpp_learn.DeadlockCheck.{Graph, Vertex, Pair, search_vertex}
use linux_cpp_learn.DeadlockCheck.Search.{
  Check, push, pop, print_deadlock, revisit, enter, visit_all, dfs, depth, reset, search_all,
  search_for_cycle, check_from, check_dead_lock,
}
use linux_cpp_learn.DeadlockCheck.Search.Walks.{Leads, Leads-same, Walk, Cycle, walks_of_Cycle}

-- The flag stays, and without it every walk from the vertex is shorter than n.
abbrev Short : Graph → ℕ → (ℕ → Check → Option Check) → Type 0
Short g n visit =
    (j : ℕ) (s t : Check)
    → visit j s ≡ some t
    → t.deadlock ≡ false
    → (s.deadlock ≡ false) × ¬ Walk g n j

pop-deadlock : (s : Check) → (pop s).deadlock ≡ s.deadlock
unfolding pop
pop-deadlock s = ground arith

visit_all-Short :
    (g : Graph) (n : ℕ) (visit : ℕ → Check → Option Check)
    → Short g n visit
    → (ps : List Pair) (s t : Check) → visit_all visit g ps s ≡ some t
    → t.deadlock ≡ false
    → (s.deadlock ≡ false) × ((j : ℕ) → Leads g ps j → ¬ Walk g n j)
unfolding visit_all
visit_all-Short g n visit short [] s t e d = (ground (arith, e, d), λ j l. absurd l)
visit_all-Short g n visit short (p ∷ ps) s t e d =
    let (i, f, e1) = >>=-eq-some (search_vertex g p) _ e in
    let (u, k, e2) = >>=-eq-some (visit i s) _ e1 in
    let (clear, rest) = visit_all-Short g n visit short ps (pop u) t e2 d in
    let (clear_s, none_i) = short i s u k (sym (pop-deadlock u) ∙ clear) in
    (
      clear_s,
      λ j l w. elim l [
        | inl here ↦ none_i (subst (Walk g n) (ground (arith, f, here)) w)
        | inr later ↦ rest j later w
      ],
    )

-- A vertex that was visited before raises the flag.
pub dfs-seen :
    (g : Graph) (n j : ℕ) (s t : Check)
    → s.visited j ≡ true
    → dfs (suc n) g j s ≡ some t
    → t.deadlock ≡ true
unfolding dfs revisit push print_deadlock
dfs-seen g n j s t seen e = elim (Option-cases (get_elem? g j)) [
  | inl f ↦ absurd (ground (arith, seen, f, e))
  | inr (ver, f) ↦ ground (arith, seen, f, e)
]

abbrev pub entered : ℕ → Check → Check
entered j s = record s { visited = update s.visited j true; path = j ∷ s.path }

-- Any other has its edges followed.
pub dfs-new :
    (g : Graph) (n j : ℕ) (s t : Check)
    → s.visited j ≡ false
    → dfs (suc n) g j s ≡ some t
    → (ver : Vertex) × (get_elem? g j ≡ some ver)
      × (visit_all (dfs n g) g ver.next (entered j s) ≡ some t)
unfolding dfs enter push
dfs-new g n j s t new e = elim (Option-cases (get_elem? g j)) [
  | inl f ↦ absurd (ground (arith, new, f, e))
  | inr (ver, f) ↦ (ver, f, ground (arith, new, f, e))
]

dfs-Short : (g : Graph) (n : ℕ) → Short g n (dfs n g)
unfolding dfs
dfs-Short g zero = λ j s t e d. cc
dfs-Short g (suc n) = λ j s t e d. elim (Bool-cases (s.visited j)) [
  | inl seen ↦ absurd (ground (arith, dfs-seen g n j s t seen e, d))
  | inr new ↦
      let (ver, f, k) = dfs-new g n j s t new e in
      let (clear, none_from) =
        visit_all-Short g n (dfs n g) (dfs-Short g n) ver.next (entered j s) t k d in
      (clear, λ (i, (ver', f', l), w). none_from i (Leads-same g j i ver' ver f' f l) w)
]

search_all-Short :
    (g : Graph) (n i : ℕ) (ps : List Pair) (s t : Check)
    → search_all (dfs n g) g i ps s ≡ some t
    → t.deadlock ≡ false
    → (s.deadlock ≡ false) × ((j : ℕ) → Leads g ps j → ¬ Walk g n j)
unfolding search_all reset
search_all-Short g n i [] s t e d = (ground (arith, e, d), λ j l. absurd l)
search_all-Short g n i (p ∷ ps) s t e d =
    let (k, f, e1) = >>=-eq-some (search_vertex g p) _ e in
    let (u, q, e2) = >>=-eq-some (dfs n g k (reset g i s)) _ e1 in
    let (clear, rest) = search_all-Short g n i ps u t e2 d in
    let (clear_s, none_k) = dfs-Short g n k (reset g i s) u q clear in
    (
      clear_s,
      λ j l w. elim l [
        | inl here ↦ none_k (subst (Walk g n) (ground (arith, f, here)) w)
        | inr later ↦ rest j later w
      ],
    )

search_for_cycle-Short :
    (g : Graph) (i : ℕ) (s t : Check)
    → search_for_cycle g i s ≡ some t
    → t.deadlock ≡ false
    → (s.deadlock ≡ false) × ¬ Cycle g i
unfolding search_for_cycle
search_for_cycle-Short g i s t e d =
    let (ver, f, e1) = >>=-eq-some (get_elem? g i) _ e in
    let (clear, none_from) = search_all-Short g (depth g) i ver.next _ t e1 d in
    (
      clear,
      λ c.
          let (j, (ver', f', l), w) = walks_of_Cycle g i c (suc (depth g)) in
          none_from j (Leads-same g i j ver' ver f' f l) w,
    )

-- The flag stays.
check_from-clear :
    (n : ℕ) (g : Graph) (i : ℕ) (s t : Check)
    → check_from n g i s ≡ some t
    → t.deadlock ≡ false
    → s.deadlock ≡ false
unfolding check_from
check_from-clear zero g i s t e d = ground (arith, e, d)
check_from-clear (suc n) g i s t e d = elim (Bool-cases s.deadlock) [
  | inl flagged ↦ absurd (ground (arith, flagged, e, d))
  | inr clear ↦ clear
]

check_from-Short :
    (n : ℕ) (g : Graph) (i : ℕ) (s t : Check)
    → check_from n g i s ≡ some t
    → t.deadlock ≡ false
    → (j : ℕ) → i ≤ j
    → j < i + n
    → ¬ Cycle g j
unfolding check_from
check_from-Short zero g i s t e d j le lt c = absurd (omega arith)
check_from-Short (suc n) g i s t e d j le lt c = elim (Bool-cases s.deadlock) [
  | inl flagged ↦ absurd (ground (arith, flagged, e, d))
  | inr clear ↦
      let e1 : (search_for_cycle g i s >>= λ u. check_from n g (suc i) u) ≡ some t =
        ground (arith, clear, e) in
      let (u, f, e2) = >>=-eq-some (search_for_cycle g i s) _ e1 in
      elim (Bool-cases (i == j)) [
        | inr differ ↦ check_from-Short n g (suc i) u t e2 d j (ground arith) (omega arith) c
        | inl same ↦
            let none_i = search_for_cycle-Short g i s u f (check_from-clear n g (suc i) u t e2 d) in
            none_i.1 (subst (Cycle g) (ground arith) c)
      ]
]

-- If the check raises no flag, then no vertex is on a cycle.
pub check_dead_lock-Short :
    (g : Graph) (s t : Check)
    → check_dead_lock g s ≡ some t
    → t.deadlock ≡ false
    → (j : ℕ) → j < length g
    → ¬ Cycle g j
unfolding check_dead_lock
check_dead_lock-Short g s t e d j lt =
    check_from-Short (length g) g 0 (record s { deadlock = false }) t e d j (omega arith)
      (omega arith)
