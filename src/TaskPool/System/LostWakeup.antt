-- ===== src/TaskPool/System/LostWakeup.antt =====
-- The destructor stores the stop and broadcasts without the mutex, so both can fall between a
-- worker's test and its sleep.
use linux_cpp_learn.Prelude.{
  ℕ, zero, suc, true, false, List, [], ◌∷◌, Option, none, some, arith, set, get_elem?, ◌≡◌, ◌≢◌,
  refl, map, All, if_keeps, get_elem?-set_self, get_elem?-set_ne,
}
use native.Mathlib.Decide.{ℕ_discrete}
use linux_cpp_learn.TaskPool.{
  Task, Added, queued, full, stopped, Poll, sleep, leave, undefined_front, took, Ran, called,
  skipped, bad_call, Code,
}
use linux_cpp_learn.TaskPool.System.{
  Worker, ready, about_to_wait, waiting, exited, running, Sys, Action, adds, turn, deliver,
  spurious, stops, broadcasts, after_add, after_poll, after_call, turn_of, deliver_to, wake, act,
  step, run, mutex_free,
}
use linux_cpp_learn.TaskPool.System.Shutdown.{Guards}

module _ {T : Type 0} where
  -- Everything but a spurious wake-up and a second broadcast.
  abbrev pub IsPlain : Action T → Type 0
  IsPlain (spurious i) = ⊥
  IsPlain broadcasts = ⊥
  IsPlain stops = Unit
  IsPlain (adds t) = Unit
  IsPlain (turn i) = Unit
  IsPlain (deliver i) = Unit

  -- Worker i sleeps in a stopped pool that owes no wake-up.
  record IsStuck (i : ℕ) (s : Sys T) : Type 0 where
    asleep : get_elem? s.workers i ≡ some waiting
    off : s.shared.m_stop ≡ true
    silent : s.signals ≡ 0

  still :
      (i j : ℕ) (ws : List (Worker T)) (v w : Worker T)
      → get_elem? ws i ≡ some waiting
      → get_elem? ws j ≡ some w
      → w ≢ waiting
      → get_elem? (set ws j v) i ≡ some waiting
  still i j ws v w e f ne = elim (ℕ_discrete j i) [
    | yes same ↦ absurd (ne (ground arith))
    | no other ↦ rw (get_elem?-set_ne ws j i v other) e
  ]

  still_wake :
      (ws : List (Worker T)) (i : ℕ)
      → get_elem? ws i ≡ some about_to_wait
      → get_elem? (map wake ws) i ≡ some about_to_wait
  still_wake [] i e = cc
  still_wake (w ∷ ws) zero e = let same : w ≡ about_to_wait = ground arith in rw same refl
  still_wake (w ∷ ws) (suc i) e = still_wake ws i e

module _ {T : Type 0} (c : Code T) (guards : Guards c) where
  add-IsStuck :
      (i : ℕ) (s : Sys T) (t : Task T) (r : Added T)
      → c.add_task s.shared t ≡ r
      → IsStuck i s
      → IsStuck i (after_add s t r)
  unfolding after_add
  add-IsStuck i s t (queued sh) e v = ground (arith, guards s.shared t v.off)
  add-IsStuck i s t full e v = v
  add-IsStuck i s t stopped e v = v

  after_poll-IsStuck :
      (i j : ℕ) (s : Sys T) (r : Poll T)
      → c.poll s.shared ≡ r
      → get_elem? s.workers j ≡ some ready
      → IsStuck i s
      → IsStuck i (after_poll s j r)
  unfolding after_poll
  after_poll-IsStuck i j s sleep e f v = record {
    asleep = still i j s.workers about_to_wait ready v.asleep f (λ q. cc);
    off = v.off;
    silent = v.silent;
  }
  after_poll-IsStuck i j s leave e f v = record {
    asleep = still i j s.workers exited ready v.asleep f (λ q. cc);
    off = v.off;
    silent = v.silent;
  }
  after_poll-IsStuck i j s undefined_front e f v = record {
    asleep = v.asleep;
    off = v.off;
    silent = v.silent;
  }
  after_poll-IsStuck i j s (took t sh) e f v = record {
    asleep = still i j s.workers (running t) ready v.asleep f (λ q. cc);
    off = rw (c.poll-took s.shared t sh e).1 v.off;
    silent = v.silent;
  }

  after_call-IsStuck :
      (i j : ℕ) (s : Sys T) (t : Task T) (r : Ran T)
      → get_elem? s.workers j ≡ some (running t)
      → IsStuck i s
      → IsStuck i (after_call s j t r)
  unfolding after_call
  after_call-IsStuck i j s t (called g) f v = record {
    asleep = still i j s.workers ready (running t) v.asleep f (λ q. cc);
    off = v.off;
    silent = v.silent;
  }
  after_call-IsStuck i j s t skipped f v = record {
    asleep = still i j s.workers ready (running t) v.asleep f (λ q. cc);
    off = v.off;
    silent = v.silent;
  }
  after_call-IsStuck i j s t bad_call f v = record {
    asleep = v.asleep;
    off = v.off;
    silent = v.silent;
  }

  turn_of-IsStuck :
      (i j : ℕ) (s : Sys T) (w : Option (Worker T))
      → get_elem? s.workers j ≡ w
      → IsStuck i s
      → IsStuck i (turn_of c s j w)
  unfolding turn_of
  turn_of-IsStuck i j s none f v = v
  turn_of-IsStuck i j s (some ready) f v =
      if_keeps (IsStuck i) (mutex_free s.workers)
        (after_poll-IsStuck i j s (c.poll s.shared) refl f v) v
  turn_of-IsStuck i j s (some about_to_wait) f v = record {
    asleep = still i j s.workers waiting about_to_wait v.asleep f (λ q. cc);
    off = v.off;
    silent = v.silent;
  }
  turn_of-IsStuck i j s (some waiting) f v = v
  turn_of-IsStuck i j s (some exited) f v = v
  turn_of-IsStuck i j s (some (running t)) f v = after_call-IsStuck i j s t (c.call t) f v

  deliver_to-IsStuck :
      (i j n : ℕ) (s : Sys T) (w : Option (Worker T))
      → s.signals ≡ n
      → IsStuck i s
      → IsStuck i (deliver_to s n j w)
  unfolding deliver_to
  deliver_to-IsStuck i j zero s w e v = v
  deliver_to-IsStuck i j (suc n) s w e v = absurd (omega (arith, v.silent))

  act-IsStuck : (i : ℕ) (a : Action T) (s : Sys T) → IsPlain a → IsStuck i s → IsStuck i (act c a s)
  unfolding act
  act-IsStuck i (adds t) s p v =
      if_keeps (IsStuck i) (mutex_free s.workers) (add-IsStuck i s t (c.add_task s.shared t) refl v)
        v
  act-IsStuck i (turn j) s p v = turn_of-IsStuck i j s (get_elem? s.workers j) refl v
  act-IsStuck i (deliver j) s p v =
      deliver_to-IsStuck i j s.signals s (get_elem? s.workers j) refl v
  act-IsStuck i (spurious j) s p v = absurd p
  act-IsStuck i stops s p v = record {
    asleep = v.asleep;
    off = (c.request_stop_lem s.shared).1;
    silent = v.silent;
  }
  act-IsStuck i broadcasts s p v = absurd p

  run-IsStuck :
      (i : ℕ) (acts : List (Action T)) (s : Sys T)
      → All IsPlain acts
      → IsStuck i s
      → IsStuck i (run c acts s)
  unfolding run step
  run-IsStuck i [] s p v = v
  run-IsStuck i (a ∷ rest) s p v =
      run-IsStuck i rest (step c a s) p.1
        (if_keeps (IsStuck i) s.aborted v (act-IsStuck i a s p.0 v))

  stop_before_wait :
      (s : Sys T) (i : ℕ)
      → s.aborted ≡ false
      → s.signals ≡ 0
      → get_elem? s.workers i ≡ some about_to_wait
      → IsStuck i (run c (stops ∷ broadcasts ∷ turn i ∷ []) s)
  unfolding run step act turn_of
  stop_before_wait s i live quiet here =
      let kept = still_wake s.workers i here in
      ground (
        arith,
        kept,
        get_elem?-set_self (map wake s.workers) i waiting about_to_wait kept,
        c.request_stop_lem s.shared,
      )

  -- Where worker i, having seen an empty queue and no stop, holds the mutex and is about to wait,
  -- and no wake-up is owed: if the destructor stores the stop and broadcasts now, and the worker
  -- then goes to sleep, it sleeps on through every schedule with no spurious wake-up and no second
  -- broadcast, so that the destructor's join with it does not return. This holds of every pool
  -- whose `addTask` accepts nothing after the stop.
  pub stop_before_wait_hangs :
      (s : Sys T) (i : ℕ) (acts : List (Action T))
      → s.aborted ≡ false
      → s.signals ≡ 0
      → get_elem? s.workers i ≡ some about_to_wait
      → All IsPlain acts
      → get_elem? (run c acts (run c (stops ∷ broadcasts ∷ turn i ∷ []) s)).workers i ≡ some waiting
  stop_before_wait_hangs s i acts live quiet here plain =
      (run-IsStuck i acts (run c (stops ∷ broadcasts ∷ turn i ∷ []) s) plain
        (stop_before_wait s i live quiet here)).asleep
