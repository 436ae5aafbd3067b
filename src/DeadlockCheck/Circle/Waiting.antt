-- ===== src/DeadlockCheck/Circle/Waiting.antt =====
-- deadlock_check/test.c's threads behind the sleep: each asks for the next one's mutex.
use linux_cpp_learn.Prelude.{
  ℕ, Bool, true, List, [], ◌∷◌, some, ◌≡◌, refl, arith, >>=-eq-some, Option-cases, Bool-cases, inl,
  inr, set, sym, ap,
}
use mathlib.Core.Path.{subst}
use linux_cpp_learn.DeadlockCheck.Search.Walks.{IsClosed}
use linux_cpp_learn.DeadlockCheck.Links.{IsLinked, wait_for-IsLinked, wait_for-links}
use linux_cpp_learn.DeadlockCheck.Locks.{
  TaskGraph, LockInfo, thread, lock_before, wait_for, plus_one,
}
use linux_cpp_learn.DeadlockCheck.Entries.{HasEntry}
use linux_cpp_learn.DeadlockCheck.Races.{lock_before-wait_for}
use linux_cpp_learn.DeadlockCheck.Program.{step, lock_before-Closed}
use linux_cpp_learn.DeadlockCheck.Circle.{
  Routine, next_routine, Stage, asks_first, waits_first, got_first, asks_second, waits_second,
  got_second, gives_second, gave_second, gives_first, gave_first, through, routine_step, move_on,
  hook_at, hook_of, apply_hook, Circle, circle_step, circle_run,
}
use linux_cpp_learn.DeadlockCheck.Circle.Held.{
  Held, firsts, bit, circle_step-Held, circle_step-move_on,
}
use linux_cpp_learn.DeadlockCheck.Circle.Entered.{IsOwned, IsOwned-set}
use linux_cpp_learn.DeadlockCheck.Circle.Routines.{all_changed}
use linux_cpp_learn.DeadlockCheck.Circle.Typed.{IsTyped, wait_for-IsTyped}

-- `lock_before` of an entered mutex: the edge to its owner, and every mutex keeps its owner.
lock_before-IsOwned :
    (t l o : ℕ) (tg u : TaskGraph)
    → IsOwned tg.lock_list l o
    → lock_before t l tg ≡ some u
    → (wait_for tg.vertex_list (thread t) (thread o) ≡ some u.vertex_list)
      × ((k p : ℕ) → IsOwned tg.lock_list k p → IsOwned u.lock_list k p)
unfolding lock_before
lock_before-IsOwned t l o tg u (i, x, found, at, own) e =
    let h : HasEntry tg.lock_list l i x = record { found = found; at = at } in
    let w = lock_before-wait_for t l i tg u x h e in
    let y : LockInfo = record x { degress = plus_one x.degress } in
    let list : u.lock_list ≡ set tg.lock_list i y =
      elim (Option-cases (wait_for tg.vertex_list (thread t) (thread x.th_id))) [
        | inl full ↦ absurd (ground (arith, e, found, at, full))
        | inr (g, f) ↦ ground (arith, e, found, at, f)
      ] in
    (rw (← own) w, λ k p q. rw list (IsOwned-set tg.lock_list k p i x y at refl refl q))

module _ (self address : Routine → ℕ) where
  -- Behind the sleep and not through with the second lock: a thread that asked is linked to the next.
  abbrev pub Asked : Routine → Stage → TaskGraph → Type 0
  Asked r asks_second tg = Unit
  Asked r waits_second tg =
      IsLinked tg.vertex_list (thread (self r)) (thread (self (next_routine r)))
  Asked r st tg = ⊥

  pub record Waiting (c : Circle) : Type 0 where
    pub held : Held c
    pub closed : IsClosed c.tg.vertex_list
    pub typed : IsTyped c.tg.vertex_list
    pub owned : (r : Routine) → IsOwned c.tg.lock_list (address r) (self r)
    pub asked : (r : Routine) → Asked r (c.stage r) c.tg

  Asked-firsts : (r : Routine) (st : Stage) (tg : TaskGraph) → Asked r st tg → firsts st ≡ 1
  Asked-firsts r asks_second tg h = refl
  Asked-firsts r waits_second tg h = refl
  Asked-firsts r asks_first tg h = absurd h
  Asked-firsts r waits_first tg h = absurd h
  Asked-firsts r got_first tg h = absurd h
  Asked-firsts r got_second tg h = absurd h
  Asked-firsts r gives_second tg h = absurd h
  Asked-firsts r gave_second tg h = absurd h
  Asked-firsts r gives_first tg h = absurd h
  Asked-firsts r gave_first tg h = absurd h
  Asked-firsts r through tg h = absurd h

  Asked-kept :
      (r : Routine) (st : Stage) (tg u : TaskGraph)
      → ((p q : ℕ)
          → IsLinked tg.vertex_list (thread p) (thread q)
          → IsLinked u.vertex_list (thread p) (thread q))
      → Asked r st tg
      → Asked r st u
  Asked-kept r asks_second tg u k h = h
  Asked-kept r waits_second tg u k h = k (self r) (self (next_routine r)) h
  Asked-kept r asks_first tg u k h = h
  Asked-kept r waits_first tg u k h = h
  Asked-kept r got_first tg u k h = h
  Asked-kept r got_second tg u k h = h
  Asked-kept r gives_second tg u k h = h
  Asked-kept r gave_second tg u k h = h
  Asked-kept r gives_first tg u k h = h
  Asked-kept r gave_first tg u k h = h
  Asked-kept r through tg u k h = h

  all_locked : (c : Circle) → Waiting c → (r : Routine) → c.locked r ≡ true
  all_locked c h r = elim (Bool-cases (c.locked r)) [
    | inl e ↦ e
    | inr e ↦
        absurd (omega (arith, h.held r, ap bit e, Asked-firsts r (c.stage r) c.tg (h.asked r)))
  ]

  -- What a step brings to the hooks' graph, where the next thread's mutex is locked.
  record Steps (r : Routine) (now : Stage) (tg u : TaskGraph) : Type 0 where
    closed_u : IsClosed u.vertex_list
    typed_u : IsTyped u.vertex_list
    owned_u : (q : Routine) → IsOwned u.lock_list (address q) (self q)
    linked_u :
        (p q : ℕ)
        → IsLinked tg.vertex_list (thread p) (thread q)
        → IsLinked u.vertex_list (thread p) (thread q)
    asked_u : Asked r now u

  hook-Steps :
      (st : Stage) (b1 : Bool) (first : ℕ) (r : Routine) (c : Circle) (u : TaskGraph)
      → c.stage r ≡ st
      → apply_hook (hook_at st (self r) first (address (next_routine r))) c.tg ≡ some u
      → Waiting c
      → Steps r (routine_step st b1 true).0 c.tg u
  unfolding routine_step apply_hook hook_at step
  hook-Steps asks_second b1 first r c u at e h =
      let t = thread (self r) in
      let v = thread (self (next_routine r)) in
      let (w, owned) =
        lock_before-IsOwned (self r) (address (next_routine r)) (self (next_routine r)) c.tg u
          (h.owned (next_routine r)) e in
      record {
        closed_u = lock_before-Closed (self r) (address (next_routine r)) c.tg u h.closed e;
        typed_u = wait_for-IsTyped c.tg.vertex_list u.vertex_list t v refl w h.typed;
        owned_u = λ q. owned (address q) (self q) (h.owned q);
        linked_u =
            λ p q. wait_for-IsLinked c.tg.vertex_list u.vertex_list t v (thread p) (thread q) w;
        asked_u = wait_for-links c.tg.vertex_list u.vertex_list t v w;
      }
  hook-Steps waits_second b1 first r c u at e h =
      let same : c.tg ≡ u = ground (arith, e) in
      subst (λ (x : TaskGraph). Steps r waits_second c.tg x) same
        (record {
          closed_u = h.closed;
          typed_u = h.typed;
          owned_u = h.owned;
          linked_u = λ p q l. l;
          asked_u = subst (λ st. Asked r st c.tg) at (h.asked r);
        })
  hook-Steps asks_first b1 first r c u at e h =
      absurd (subst (λ st. Asked r st c.tg) at (h.asked r))
  hook-Steps waits_first b1 first r c u at e h =
      absurd (subst (λ st. Asked r st c.tg) at (h.asked r))
  hook-Steps got_first b1 first r c u at e h = absurd (subst (λ st. Asked r st c.tg) at (h.asked r))
  hook-Steps got_second b1 first r c u at e h =
      absurd (subst (λ st. Asked r st c.tg) at (h.asked r))
  hook-Steps gives_second b1 first r c u at e h =
      absurd (subst (λ st. Asked r st c.tg) at (h.asked r))
  hook-Steps gave_second b1 first r c u at e h =
      absurd (subst (λ st. Asked r st c.tg) at (h.asked r))
  hook-Steps gives_first b1 first r c u at e h =
      absurd (subst (λ st. Asked r st c.tg) at (h.asked r))
  hook-Steps gave_first b1 first r c u at e h =
      absurd (subst (λ st. Asked r st c.tg) at (h.asked r))
  hook-Steps through b1 first r c u at e h = absurd (subst (λ st. Asked r st c.tg) at (h.asked r))

  step-Waiting :
      (r : Routine) (c d : Circle) → circle_step self address r c ≡ some d → Waiting c → Waiting d
  unfolding circle_step hook_of move_on
  step-Waiting r c d e h =
      let (tg, e1, same) = circle_step-move_on self address r c d e in
      let locked = all_locked c h (next_routine r) in
      let k = hook-Steps (c.stage r) (c.locked r) (address r) r c tg refl e1 h in
      let now = (routine_step (c.stage r) (c.locked r) (c.locked (next_routine r))).0 in
      let here : Asked r now tg =
        subst (λ b. Asked r (routine_step (c.stage r) (c.locked r) b).0 tg) (sym locked)
          k.asked_u in
      let asked =
        all_changed (λ q st. Asked q st tg) c.stage r now here
          (λ q ne. Asked-kept q (c.stage q) c.tg tg k.linked_u (h.asked q)) in
      let held = circle_step-Held self address r c d e h.held in
      subst Waiting same (record {
        held = subst Held (sym same) held;
        closed = k.closed_u;
        typed = k.typed_u;
        owned = k.owned_u;
        asked = asked;
      })

  pub run-Waiting :
      (rs : List Routine) (c d : Circle)
      → circle_run self address rs c ≡ some d
      → Waiting c
      → Waiting d
  unfolding circle_run
  run-Waiting [] c d e h = let same : c ≡ d = ground (arith, e) in subst Waiting same h
  run-Waiting (r ∷ rs) c d e h =
      let (b, e1, e2) = >>=-eq-some (circle_step self address r c) _ e in
      run-Waiting rs b d e2 (step-Waiting r c b e1 h)
