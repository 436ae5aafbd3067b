-- ===== src/DeadlockCheck/Search/Ends.antt =====
-- The search of deadlock_check/deadlock_check.c ends within its fuel and within its arrays.
use linux_cpp_learn.Prelude.{
  ℕ, zero, suc, ◌+◌, ◌<◌, ◌≤◌, Bool, true, false, List, [], ◌∷◌, some, length, All, ◌≡◌, refl,
  arith, Option, inl, inr, if◌then◌else◌, Bool-cases, update, ◌==◌,
}
use linux_cpp_learn.DeadlockCheck.{Graph, Pair, search_vertex, max}
use linux_cpp_learn.DeadlockCheck.Search.{
  Check, push, pop, print_deadlock, revisit, enter, visit_all, dfs, depth, reset, search_all,
  search_for_cycle, check_from, check_dead_lock,
}
use linux_cpp_learn.DeadlockCheck.Search.Walks.{IsClosed, search_vertex-lt, get_elem?-lt}

-- The vertices below n that were not visited.
abbrev pub unvisited : ℕ → (ℕ → Bool) → ℕ
unvisited zero f = 0
unvisited (suc n) f = if f n then unvisited n f else suc (unvisited n f)

-- What was visited or flagged stays so.
pub record Grows (s t : Check) : Type 0 where
  pub visited_t : (v : ℕ) → s.visited v ≡ true → t.visited v ≡ true
  pub deadlock_t : s.deadlock ≡ true → t.deadlock ≡ true

unvisited-Grows :
    (n : ℕ) (f h : ℕ → Bool) → ((v : ℕ) → f v ≡ true → h v ≡ true) → unvisited n h ≤ unvisited n f
unvisited-Grows zero f h g = omega arith
unvisited-Grows (suc n) f h g = ground (arith, g n, unvisited-Grows n f h g)

unvisited-update_above :
    (n i : ℕ) (f : ℕ → Bool) → n ≤ i → unvisited n (update f i true) ≡ unvisited n f
unvisited-update_above zero i f h = refl
unvisited-update_above (suc n) i f h = ground (arith, unvisited-update_above n i f (omega arith))

unvisited-update :
    (n i : ℕ) (f : ℕ → Bool)
    → i < n
    → f i ≡ false
    → suc (unvisited n (update f i true)) ≡ unvisited n f
unvisited-update zero i f h e = absurd (omega arith)
unvisited-update (suc n) i f h e = elim (Bool-cases (i == n)) [
  | inl same ↦ ground (arith, unvisited-update_above n i f (ground arith))
  | inr differ ↦ ground (arith, unvisited-update n i f (ground arith) e)
]

-- The search of the vertex j ended: its number was put on the path.
pub record Visits (j : ℕ) (s t : Check) : Type 0 where
  pub path_t : t.path ≡ j ∷ s.path
  pub grows : Grows s t

-- There is fuel for the vertices not visited, and room on the path.
pub record Ready (n fuel : ℕ) (s : Check) : Type 0 where
  pub fueled : unvisited n s.visited < fuel
  pub short : length s.path + unvisited n s.visited ≤ n

abbrev Ends : ℕ → ℕ → (ℕ → Check → Option Check) → Type 0
Ends n fuel visit =
    (j : ℕ) (s : Check) → j < n → Ready n fuel s → (t : Check) × (visit j s ≡ some t) × Visits j s t

pop_lem : (j : ℕ) (s t : Check) → t.path ≡ j ∷ s.path → pop t ≡ record t { path = s.path }
unfolding pop
pop_lem j s t e = ground (arith, e)

Grows-trans : (s t z : Check) → Grows s t → Grows t z → Grows s z
Grows-trans s t z a b = record {
  visited_t = λ v e. b.visited_t v (a.visited_t v e);
  deadlock_t = λ e. b.deadlock_t (a.deadlock_t e);
}

visit_all-Ends :
    (g : Graph) (fuel : ℕ) (visit : ℕ → Check → Option Check)
    → Ends (length g) fuel visit
    → (ps : List Pair) (s : Check) → All (λ p. (j : ℕ) × (search_vertex g p ≡ some j)) ps
    → Ready (length g) fuel s
    → (t : Check) × (visit_all visit g ps s ≡ some t) × (t.path ≡ s.path) × Grows s t
unfolding visit_all
visit_all-Ends g fuel visit ends [] s r h =
    (s, refl, refl, record { visited_t = λ v e. e; deadlock_t = λ e. e })
visit_all-Ends g fuel visit ends (p ∷ ps) s ((j, e), r) h =
    let (t, f, v) = ends j s (search_vertex-lt g p j e) h in
    let fewer = unvisited-Grows (length g) s.visited t.visited v.grows.visited_t in
    let t' : Check = record t { path = s.path } in
    let back : Grows t t' = record { visited_t = λ v e. e; deadlock_t = λ e. e } in
    let ready : Ready (length g) fuel t' = record {
      fueled = omega (arith, fewer);
      short = omega (arith, fewer);
    } in
    let (z, k, q, w) = visit_all-Ends g fuel visit ends ps t' r ready in
    (
      z,
      ground (arith, e, f, pop_lem j s t v.path_t, k),
      q,
      Grows-trans s t z v.grows (Grows-trans t t' z back w),
    )

push_lem :
    (j : ℕ) (s : Check) → length s.path ≤ max → push j s ≡ some (record s { path = j ∷ s.path })
unfolding push
push_lem j s h = ground arith

pub dfs-Ends : (g : Graph) → IsClosed g → (fuel : ℕ) → Ends (length g) fuel (dfs fuel g)
unfolding dfs revisit enter print_deadlock
dfs-Ends g c zero = λ j s lt h. absurd (omega (arith, h.fueled))
dfs-Ends g c (suc fuel) = λ j s lt h. elim (Bool-cases (s.visited j)) [
  | inl seen ↦
      let (ver, e) = get_elem?-lt g j lt in
      let pushed = push_lem j s (omega (arith, h.short, c.room)) in
      let s' : Check = record s { path = j ∷ s.path } in
      (
        record (print_deadlock s') { deadlock = true },
        ground (arith, seen, e, pushed),
        record { path_t = refl; grows = record { visited_t = λ v e. e; deadlock_t = λ e. refl } },
      )
  | inr new ↦
      let (ver, e) = get_elem?-lt g j lt in
      let s' : Check = record s { visited = update s.visited j true } in
      let fewer = unvisited-update (length g) j s.visited lt new in
      let pushed = push_lem j s' (omega (arith, h.short, c.room)) in
      let ready : Ready (length g) fuel (record s' { path = j ∷ s.path }) = record {
        fueled = omega (arith, fewer, h.fueled);
        short = omega (arith, fewer, h.short);
      } in
      let (t, f, q, w) =
        visit_all-Ends g fuel (dfs fuel g) (dfs-Ends g c fuel) ver.next
          (record s' { path = j ∷ s.path }) (c.resolves j ver e) ready in
      (
        t,
        ground (arith, new, e, pushed, f),
        record {
          path_t = q;
          grows = record {
            visited_t = λ v e. w.visited_t v (ground (arith, e));
            deadlock_t = w.deadlock_t;
          };
        },
      )
]

unvisited-all : (n : ℕ) (f : ℕ → Bool) → unvisited n f ≤ n
unvisited-all zero f = omega arith
unvisited-all (suc n) f = ground (arith, unvisited-all n f)

unvisited-one : (n i : ℕ) (f : ℕ → Bool) → i < n → f i ≡ true → suc (unvisited n f) ≤ n
unvisited-one zero i f h e = absurd (omega arith)
unvisited-one (suc n) i f h e = elim (Bool-cases (i == n)) [
  | inl same ↦ ground (arith, unvisited-all n f)
  | inr differ ↦ ground (arith, unvisited-one n i f (ground arith) e)
]

reset-Ready :
    (g : Graph) (i : ℕ) (s : Check)
    → i < length g
    → s.visited i ≡ true
    → Ready (length g) (depth g) (reset g i s)
unfolding reset
reset-Ready g i s lt e =
    let one = unvisited-one (length g) i (reset g i s).visited lt (ground (arith, e)) in
    record { fueled = omega (arith, one); short = omega (arith, one) }

search_all_ends :
    (g : Graph) (i : ℕ)
    → IsClosed g
    → i < length g
    → (ps : List Pair) (s : Check) → All (λ p. (j : ℕ) × (search_vertex g p ≡ some j)) ps
    → s.visited i ≡ true
    → (t : Check) × (search_all (dfs (depth g) g) g i ps s ≡ some t)
      × (s.deadlock ≡ true → t.deadlock ≡ true)
unfolding search_all reset
search_all_ends g i c lt [] s r e = (s, refl, λ f. f)
search_all_ends g i c lt (p ∷ ps) s ((j, e), r) here =
    let (t, f, v) =
      dfs-Ends g c (depth g) j (reset g i s) (search_vertex-lt g p j e)
        (reset-Ready g i s lt here) in
    let (z, k, w) = search_all_ends g i c lt ps t r (v.grows.visited_t i (ground (arith, here))) in
    (z, ground (arith, e, f, k), λ d. w (v.grows.deadlock_t d))

pub search_for_cycle_ends :
    (g : Graph) (i : ℕ) (s : Check)
    → IsClosed g
    → i < length g
    → (t : Check) × (search_for_cycle g i s ≡ some t) × (s.deadlock ≡ true → t.deadlock ≡ true)
unfolding search_for_cycle
search_for_cycle_ends g i s c lt =
    let (ver, e) = get_elem?-lt g i lt in
    let (t, f, d) =
      search_all_ends g i c lt ver.next
        (record s { visited = update s.visited i true; path = i ∷ [] }) (c.resolves i ver e)
        (ground arith) in
    (t, ground (arith, e, f), d)

check_from_ends :
    (n : ℕ) (g : Graph) (i : ℕ) (s : Check)
    → IsClosed g
    → i + n ≤ length g
    → (t : Check) × (check_from n g i s ≡ some t)
unfolding check_from
check_from_ends zero g i s c le = (s, refl)
check_from_ends (suc n) g i s c le = elim (Bool-cases s.deadlock) [
  | inl flagged ↦ (s, ground (arith, flagged))
  | inr clear ↦
      let (t, e, d) = search_for_cycle_ends g i s c (omega arith) in
      let (z, f) = check_from_ends n g (suc i) t c (omega arith) in (z, ground (arith, clear, e, f))
]

pub check_dead_lock_ends :
    (g : Graph) (s : Check) → IsClosed g → (t : Check) × (check_dead_lock g s ≡ some t)
unfolding check_dead_lock
check_dead_lock_ends g s c =
    check_from_ends (length g) g 0 (record s { deadlock = false }) c (omega arith)
