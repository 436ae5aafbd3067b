-- ===== src/DeadlockCheck/Races.antt =====
-- Orders of the hooks' calls after which deadlock_check/deadlock_check.c's lists are wrong.
use linux_cpp_learn.Prelude.{
  ℕ, zero, suc, true, [], ◌∷◌, some, ◌≡◌, ◌≢◌, refl, arith, Option-cases, inl, inr, >>=-eq-some,
  Bool-cases, get_elem?, get_elem?-set_self, sym, ◌∙◌, ◌⊎◌,
}
use linux_cpp_learn.Prelude.Int.{ℤ, pos, negsuc}
use linux_cpp_learn.DeadlockCheck.{
  Graph, Vertex, Pair, verify_edge, remove_edge, add_vertex, leads_to,
}
use linux_cpp_learn.DeadlockCheck.Edges.{verify_edge-at, search_vertex-get_elem?, add_vertex-found}
use linux_cpp_learn.DeadlockCheck.Links.{
  IsLinked, add_vertex-Resolves, wait_for-IsLinked, wait_for-links, remove_edge-IsLinked,
}
use linux_cpp_learn.DeadlockCheck.Locks.{
  TaskGraph, LockInfo, thread, wait_for, lock_before, lock_after, unlock_after, plus_one, minus_one,
}
use linux_cpp_learn.DeadlockCheck.Entries.{
  HasEntry, lock_before-HasEntry, lock_after-HasEntry, unlock_after-set,
}
use linux_cpp_learn.DeadlockCheck.Program.{before_lock, after_lock, after_unlock, run, step}

plus_minus : (n : ℤ) → minus_one (plus_one n) ≡ n
plus_minus (pos n) = refl
plus_minus (negsuc zero) = refl
plus_minus (negsuc (suc n)) = refl

-- A lock's entry counts no thread, and a thread b asks for the lock. If its owner a then gives the
-- lock back, and b gets it and runs `lock_after` before a runs `unlock_after`, then at the end the
-- entry is empty although b has the lock, where these calls stay within the arrays.
pub entry_wiped :
    (tg u : TaskGraph) (a b l i : ℕ) (x : LockInfo)
    → HasEntry tg.lock_list l i x
    → x.degress ≡ pos 0
    → run (before_lock b l ∷ after_lock b l ∷ after_unlock a l ∷ []) tg ≡ some u
    → get_elem? u.lock_list i ≡ some (record { th_id = 0; lock_id = 0; degress = pos 0 })
unfolding run step
entry_wiped tg u a b l i x h none_counted e =
    let (v, e1, r1) = >>=-eq-some (lock_before b l tg) _ e in
    let (w, e2, r2) = >>=-eq-some (lock_after b l v) _ r1 in
    let (z, e3, r3) = >>=-eq-some (unlock_after a l w) _ r2 in
    let h1 = lock_before-HasEntry b l i tg v x h e1 in
    let h2 = lock_after-HasEntry b l i v w _ h1 e2 in
    let list = unlock_after-set a l i w z _ h2 (plus_minus x.degress ∙ none_counted) e3 in
    let same : z ≡ u = ground (arith, r3) in
    rw (← same) (rw list (get_elem?-set_self w.lock_list i _ _ h2.at))

leads_to_own :
    (x : Vertex) (p : Pair) → x.pair.th_id ≡ p.th_id → leads_to (x.pair ∷ x.next) p.th_id ≡ true
unfolding leads_to
leads_to_own x p e = ground arith

wait_for_self : (g h : Graph) (p : Pair) → wait_for g p p ≡ some h → add_vertex g p ≡ some h
unfolding wait_for
wait_for_self g h p e =
    let (g1, e1, r1) = >>=-eq-some (add_vertex g p) _ e in
    let (g2, e2, r2) = >>=-eq-some (add_vertex g1 p) _ r1 in
    let (i, f) = add_vertex-Resolves g g1 p e1 in
    let (x, at, t) = search_vertex-get_elem? g1 p i f in
    let again : g2 ≡ g1 = ground (arith, e2, add_vertex-found g1 p i f) in
    let own : verify_edge g1 p p ≡ true =
      ground (arith, verify_edge-at g1 p p i x f at, leads_to_own x p t) in
    e1 ∙ ground (arith, r2, again, own)

-- A thread that asks for a lock of its own gets no edge: it is a vertex, and nothing else changes in
-- the graph.
pub own_lock_unseen :
    (tg u : TaskGraph) (l i : ℕ) (x : LockInfo)
    → HasEntry tg.lock_list l i x
    → lock_before x.th_id l tg ≡ some u
    → add_vertex tg.vertex_list (thread x.th_id) ≡ some u.vertex_list
unfolding lock_before
own_lock_unseen tg u l i x h e =
    elim (Option-cases (wait_for tg.vertex_list (thread x.th_id) (thread x.th_id))) [
      | inl full ↦ absurd (ground (arith, e, h.found, h.at, full))
      | inr (g, w) ↦
          ground (arith, e, h.found, h.at, w, wait_for_self tg.vertex_list g (thread x.th_id) w)
    ]

module _ (t l i : ℕ) (tg u : TaskGraph) (x : LockInfo) (h : HasEntry tg.lock_list l i x) where
  pub lock_before-wait_for :
      lock_before t l tg ≡ some u
      → wait_for tg.vertex_list (thread t) (thread x.th_id) ≡ some u.vertex_list
  unfolding lock_before
  lock_before-wait_for e =
      elim (Option-cases (wait_for tg.vertex_list (thread t) (thread x.th_id))) [
        | inl full ↦ absurd (ground (arith, e, h.found, h.at, full))
        | inr (g, w) ↦ ground (arith, e, h.found, h.at, w)
      ]

  -- Getting a lock leaves the edges of other threads and those to other threads than its owner.
  lock_after-IsLinked :
      (p q : ℕ)
      → (t ≢ p) ⊎ (x.th_id ≢ q)
      → lock_after t l tg ≡ some u
      → IsLinked tg.vertex_list (thread p) (thread q)
      → IsLinked u.vertex_list (thread p) (thread q)
  unfolding lock_after
  lock_after-IsLinked p q other e l =
      let kept =
        remove_edge-IsLinked tg.vertex_list (thread t) (thread x.th_id) (thread p) (thread q) other
          l in
      elim (Bool-cases (verify_edge tg.vertex_list (thread t) (thread x.th_id))) [
        | inl there ↦
            let list : u.vertex_list ≡ remove_edge tg.vertex_list (thread t) (thread x.th_id) =
              ground (arith, e, h.found, h.at, there) in
            rw list kept
        | inr missing ↦
            let list : u.vertex_list ≡ tg.vertex_list = ground (arith, e, h.found, h.at, missing) in
            rw list l
      ]

-- A thread a has a lock, and threads b and c ask for it, in this order. If c gets it first and b
-- after c, and these calls stay within the arrays, then b's edge to a is still there at the end,
-- although b has the lock and waits for nobody.
pub edge_left :
    (tg u : TaskGraph) (a b c l i : ℕ) (x : LockInfo)
    → HasEntry tg.lock_list l i x
    → x.th_id ≡ a
    → b ≢ c
    → c ≢ a
    → run (before_lock b l ∷ before_lock c l ∷ after_lock c l ∷ after_lock b l ∷ []) tg ≡ some u
    → IsLinked u.vertex_list (thread b) (thread a)
unfolding run step
edge_left tg u a b c l i x h own b_c c_a e =
    let (t1, e1, r1) = >>=-eq-some (lock_before b l tg) _ e in
    let (t2, e2, r2) = >>=-eq-some (lock_before c l t1) _ r1 in
    let (t3, e3, r3) = >>=-eq-some (lock_after c l t2) _ r2 in
    let (t4, e4, r4) = >>=-eq-some (lock_after b l t3) _ r3 in
    let h1 = lock_before-HasEntry b l i tg t1 x h e1 in
    let h2 = lock_before-HasEntry c l i t1 t2 _ h1 e2 in
    let h3 = lock_after-HasEntry c l i t2 t3 _ h2 e3 in
    let w1 = lock_before-wait_for b l i tg t1 x h e1 in
    let l1 : IsLinked t1.vertex_list (thread b) (thread a) =
      rw (← own) (wait_for-links tg.vertex_list t1.vertex_list (thread b) (thread x.th_id) w1) in
    let w2 = lock_before-wait_for c l i t1 t2 _ h1 e2 in
    let l2 =
      wait_for-IsLinked t1.vertex_list t2.vertex_list (thread c) _ (thread b) (thread a) w2 l1 in
    let l3 = lock_after-IsLinked c l i t2 t3 _ h2 b a (inl (λ f. b_c (sym f))) e3 l2 in
    let l4 = lock_after-IsLinked b l i t3 t4 _ h3 b a (inr c_a) e4 l3 in
    let same : t4 ≡ u = ground (arith, r4) in rw (← same) l4
