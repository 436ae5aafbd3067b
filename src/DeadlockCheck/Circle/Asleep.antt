-- ===== src/DeadlockCheck/Circle/Asleep.antt =====
-- deadlock_check/test.c's threads up to the sleep: each enters its own mutex in the hooks' list.
use linux_cpp_learn.Prelude.{
  ℕ, Bool, true, false, List, [], ◌∷◌, ◌++◌, none, some, ◌≡◌, ◌≢◌, refl, arith, >>=-eq-some,
  Bool-cases, inl, inr, length, sym, ◌∙◌, ap,
}
use mathlib.Core.Path.{subst}
use linux_cpp_learn.Prelude.Int.{ℤ}
use linux_cpp_learn.DeadlockCheck.Locks.{
  TaskGraph, LockInfo, start_check, lock_after, search_lock, search_empty_lock,
}
use linux_cpp_learn.DeadlockCheck.Program.{step}
use linux_cpp_learn.DeadlockCheck.Circle.{
  Routine, next_routine, Stage, asks_first, waits_first, got_first, asks_second, waits_second,
  got_second, gives_second, gave_second, gives_first, gave_first, through, routine_step, move_on,
  hook_at, hook_of, apply_hook, same_routine, changed, Circle, circle_step, circle_run,
  circle_start,
}
use linux_cpp_learn.DeadlockCheck.Circle.Held.{circle_step-move_on}
use linux_cpp_learn.DeadlockCheck.Circle.Routines.{same_routine_lem, same_routine_self, all_changed}
use linux_cpp_learn.DeadlockCheck.Circle.Entered.{
  IsOwned, search_lock-missing, IsOwned-append, IsOwned-added, search_empty_lock-added,
  lock_before-none, lock_after-none,
}

-- Before the end of the sleep.
abbrev IsEarly : Stage → Type 0
IsEarly asks_first = Unit
IsEarly waits_first = Unit
IsEarly got_first = Unit
IsEarly asks_second = Unit
IsEarly st = ⊥

IsEarly-before : (st : Stage) (b1 b2 : Bool) → IsEarly (routine_step st b1 b2).0 → IsEarly st
unfolding routine_step
IsEarly-before asks_first b1 b2 h = tt
IsEarly-before waits_first b1 b2 h = tt
IsEarly-before got_first b1 b2 h = tt
IsEarly-before asks_second b1 b2 h = tt
IsEarly-before waits_second b1 true h = h
IsEarly-before waits_second b1 false h = h
IsEarly-before got_second b1 b2 h = h
IsEarly-before gives_second b1 b2 h = h
IsEarly-before gave_second b1 b2 h = h
IsEarly-before gives_first b1 b2 h = h
IsEarly-before gave_first b1 b2 h = h
IsEarly-before through b1 b2 h = h

abbrev AllEarly : Circle → Type 0
AllEarly c = (r : Routine) → IsEarly (c.stage r)

move_on-AllEarly :
    (r : Routine) (c : Circle) (tg : TaskGraph) → AllEarly (move_on r c tg) → AllEarly c
unfolding move_on
move_on-AllEarly r c tg all q = elim (Bool-cases (same_routine r q)) [
  | inr differ ↦
      let there : (move_on r c tg).stage q ≡ c.stage q = rw differ refl in
      subst IsEarly there (all q)
  | inl same ↦
      let now = (routine_step (c.stage r) (c.locked r) (c.locked (next_routine r))).0 in
      let here : (move_on r c tg).stage r ≡ now = rw (same_routine_self r) refl in
      subst (λ p. IsEarly (c.stage p)) (same_routine_lem r q same)
        (IsEarly-before (c.stage r) (c.locked r) (c.locked (next_routine r))
          (subst IsEarly here (all r)))
]

-- The lock l of the thread t: not entered, or entered with its owner.
abbrev Listed : Stage → List LockInfo → (l t : ℕ) → Type 0
Listed asks_first xs l t = search_lock xs l ≡ none
Listed waits_first xs l t = search_lock xs l ≡ none
Listed got_first xs l t = search_lock xs l ≡ none
Listed st xs l t = IsOwned xs l t

module _ (self address : Routine → ℕ) (apart : (r q : Routine) → r ≢ q → address r ≢ address q)
    (nonzero : (r : Routine) → address r ≢ 0) where
  record Asleep (f : Routine → Stage) (tg : TaskGraph) : Type 0 where
    graph : tg.vertex_list ≡ []
    filled : search_empty_lock tg.lock_list ≡ length tg.lock_list
    listed : (r : Routine) → Listed (f r) tg.lock_list (address r) (self r)

  -- A step that leaves the list.
  Asleep-same :
      (f : Routine → Stage) (r : Routine) (now : Stage) (tg u : TaskGraph)
      → tg ≡ u
      → Listed now tg.lock_list (address r) (self r)
      → Asleep f tg
      → Asleep (changed f r now) u
  Asleep-same f r now tg u same here h = rw (← same) (record {
    graph = h.graph;
    filled = h.filled;
    listed =
        all_changed (λ q st. Listed st tg.lock_list (address q) (self q)) f r now here
          (λ q ne. h.listed q);
  })

  Listed-append :
      (st : Stage) (xs : List LockInfo) (x : LockInfo) (l t : ℕ)
      → x.lock_id ≢ l
      → Listed st xs l t
      → Listed st (xs ++ x ∷ []) l t
  Listed-append asks_first xs x l t ne h = search_lock-missing xs x l h ne
  Listed-append waits_first xs x l t ne h = search_lock-missing xs x l h ne
  Listed-append got_first xs x l t ne h = search_lock-missing xs x l h ne
  Listed-append asks_second xs x l t ne h = IsOwned-append xs (x ∷ []) l t h
  Listed-append waits_second xs x l t ne h = IsOwned-append xs (x ∷ []) l t h
  Listed-append got_second xs x l t ne h = IsOwned-append xs (x ∷ []) l t h
  Listed-append gives_second xs x l t ne h = IsOwned-append xs (x ∷ []) l t h
  Listed-append gave_second xs x l t ne h = IsOwned-append xs (x ∷ []) l t h
  Listed-append gives_first xs x l t ne h = IsOwned-append xs (x ∷ []) l t h
  Listed-append gave_first xs x l t ne h = IsOwned-append xs (x ∷ []) l t h
  Listed-append through xs x l t ne h = IsOwned-append xs (x ∷ []) l t h

  -- The thread enters its mutex.
  Asleep-entered :
      (f : Routine → Stage) (r : Routine) (tg u : TaskGraph)
      → search_lock tg.lock_list (address r) ≡ none
      → lock_after (self r) (address r) tg ≡ some u
      → Asleep f tg
      → Asleep (changed f r asks_second) u
  Asleep-entered f r tg u new e h =
      let (same, x, list, lock, owner) = lock_after-none (self r) (address r) tg u new h.filled e in
      let xs = tg.lock_list in
      record {
        graph = same ∙ h.graph;
        filled = rw list (search_empty_lock-added xs x h.filled (λ z. nonzero r (sym lock ∙ z)));
        listed = rw list (
            all_changed (λ q st. Listed st (xs ++ x ∷ []) (address q) (self q)) f r asks_second
              (rw (← lock, ← owner) (IsOwned-added xs x (rw lock new)))
              (λ q ne.
                Listed-append (f q) xs x (address q) (self q) (λ z. apart r q ne (sym lock ∙ z))
                  (h.listed q)));
      }

  hook-Asleep :
      (st : Stage) (b1 b2 : Bool) (second : ℕ) (f : Routine → Stage) (r : Routine)
      (tg u : TaskGraph)
      → f r ≡ st
      → IsEarly (routine_step st b1 b2).0
      → apply_hook (hook_at st (self r) (address r) second) tg ≡ some u
      → Asleep f tg
      → Asleep (changed f r (routine_step st b1 b2).0) u
  unfolding routine_step apply_hook hook_at step
  hook-Asleep asks_first b1 b2 second f r tg u at early e h =
      let new : search_lock tg.lock_list (address r) ≡ none =
        subst (λ st. Listed st tg.lock_list (address r) (self r)) at (h.listed r) in
      Asleep-same f r waits_first tg u
        (ground (arith, e, lock_before-none (self r) (address r) tg new)) new h
  hook-Asleep waits_first true b2 second f r tg u at early e h =
      Asleep-same f r waits_first tg u (ground (arith, e))
        (subst (λ st. Listed st tg.lock_list (address r) (self r)) at (h.listed r)) h
  hook-Asleep waits_first false b2 second f r tg u at early e h =
      Asleep-same f r got_first tg u (ground (arith, e))
        (subst (λ st. Listed st tg.lock_list (address r) (self r)) at (h.listed r)) h
  hook-Asleep got_first b1 b2 second f r tg u at early e h =
      Asleep-entered f r tg u
        (subst (λ st. Listed st tg.lock_list (address r) (self r)) at (h.listed r)) e h
  hook-Asleep asks_second b1 b2 second f r tg u at early e h = absurd early
  hook-Asleep waits_second b1 true second f r tg u at early e h = absurd early
  hook-Asleep waits_second b1 false second f r tg u at early e h = absurd early
  hook-Asleep got_second b1 b2 second f r tg u at early e h = absurd early
  hook-Asleep gives_second b1 b2 second f r tg u at early e h = absurd early
  hook-Asleep gave_second b1 b2 second f r tg u at early e h = absurd early
  hook-Asleep gives_first b1 b2 second f r tg u at early e h = absurd early
  hook-Asleep gave_first b1 b2 second f r tg u at early e h = absurd early
  hook-Asleep through b1 b2 second f r tg u at early e h = absurd early

  step-Asleep :
      (r : Routine) (c d : Circle)
      → circle_step self address r c ≡ some d
      → IsEarly (d.stage r)
      → Asleep c.stage c.tg
      → Asleep d.stage d.tg
  unfolding circle_step hook_of move_on
  step-Asleep r c d e early h =
      let (tg, e1, same) = circle_step-move_on self address r c d e in
      let now = (routine_step (c.stage r) (c.locked r) (c.locked (next_routine r))).0 in
      let here : (move_on r c tg).stage r ≡ now = rw (same_routine_self r) refl in
      let early' : IsEarly now =
        subst IsEarly (ap (λ (x : Circle). x.stage r) (sym same) ∙ here) early in
      subst (λ (x : Circle). Asleep x.stage x.tg) same
        (hook-Asleep (c.stage r) (c.locked r) (c.locked (next_routine r)) (address (next_routine r))
          c.stage r c.tg tg refl early' e1 h)

  step-AllEarly :
      (r : Routine) (c d : Circle) → circle_step self address r c ≡ some d → AllEarly d → AllEarly c
  unfolding circle_step
  step-AllEarly r c d e all =
      let (tg, e1, same) = circle_step-move_on self address r c d e in
      move_on-AllEarly r c tg (subst AllEarly (sym same) all)

  run-AllEarly :
      (rs : List Routine) (c d : Circle)
      → circle_run self address rs c ≡ some d
      → AllEarly d
      → AllEarly c
  unfolding circle_run
  run-AllEarly [] c d e all = let same : c ≡ d = ground (arith, e) in subst AllEarly (sym same) all
  run-AllEarly (r ∷ rs) c d e all =
      let (b, e1, e2) = >>=-eq-some (circle_step self address r c) _ e in
      step-AllEarly r c b e1 (run-AllEarly rs b d e2 all)

  run-Asleep :
      (rs : List Routine) (c d : Circle)
      → circle_run self address rs c ≡ some d
      → ((r : Routine) → d.stage r ≡ asks_second)
      → Asleep c.stage c.tg
      → Asleep d.stage d.tg
  unfolding circle_run
  run-Asleep [] c d e all h =
      let same : c ≡ d = ground (arith, e) in subst (λ (x : Circle). Asleep x.stage x.tg) same h
  run-Asleep (r ∷ rs) c d e all h =
      let (b, e1, e2) = >>=-eq-some (circle_step self address r c) _ e in
      let early : AllEarly b = run-AllEarly rs b d e2 (λ q. subst IsEarly (sym (all q)) tt) in
      run-Asleep rs b d e2 all (step-Asleep r c b e1 (early r) h)

  start-Asleep : (uninit : ℕ → ℤ) → let c = circle_start (start_check uninit) in Asleep c.stage c.tg
  unfolding circle_start start_check search_lock search_empty_lock
  start-Asleep uninit = record { graph = refl; filled = refl; listed = λ r. refl }

  -- When all four are behind the sleep and none has asked for its second mutex: no thread waits for
  -- another in the graph, and each mutex is entered with the thread that has it.
  pub sleepers :
      (uninit : ℕ → ℤ) (rs : List Routine) (c : Circle)
      → circle_run self address rs (circle_start (start_check uninit)) ≡ some c
      → ((r : Routine) → c.stage r ≡ asks_second)
      → (c.tg.vertex_list ≡ []) × ((r : Routine) → IsOwned c.tg.lock_list (address r) (self r))
  sleepers uninit rs c e all =
      let h = run-Asleep rs (circle_start (start_check uninit)) c e all (start-Asleep uninit) in
      (
        h.graph,
        λ r. subst (λ st. Listed st c.tg.lock_list (address r) (self r)) (all r) (h.listed r),
      )
