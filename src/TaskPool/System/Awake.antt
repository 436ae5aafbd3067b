-- ===== src/TaskPool/System/Awake.antt =====
-- A task in the queue of a pool that guards its stop has a worker that will come for it.
use linux_cpp_learn.Prelude.{
  ℕ, zero, suc, ◌+◌, ◌≤◌, ◌<◌, false, List, [], ◌∷◌, Option, none, some, arith, set, get_elem?, ◌≡◌,
  ◌≢◌, refl, map, Bool-cases, inl, inr, All, All-get_elem?, length, if_keeps, if◌then◌else◌,
}
use linux_cpp_learn.TaskPool.{
  Task, Shared, Added, queued, full, stopped, Poll, sleep, leave, undefined_front, took, Ran,
  called, skipped, bad_call, Code,
}
use linux_cpp_learn.TaskPool.System.{
  Worker, ready, about_to_wait, waiting, exited, running, Sys, Action, adds, turn, deliver,
  spurious, stops, broadcasts, after_add, after_poll, after_call, turn_of, deliver_to, wake_one,
  wake, act, run, run_keeps, start, mutex_free, any_waiting,
}
use linux_cpp_learn.TaskPool.System.Shutdown.{Guards, Knows, IsSound, act-IsSound}
use linux_cpp_learn.TaskPool.System.Workers.{length-act}
use linux_cpp_learn.TaskPool.System.Complete.{start-IsSound, length-start}

module _ {T : Type 0} where
  abbrev wakefulness : Worker T → ℕ
  wakefulness ready = 1
  wakefulness (running t) = 1
  wakefulness w = 0

  -- The workers that will come back to the queue by themselves.
  abbrev pub awake : List (Worker T) → ℕ
  awake [] = 0
  awake (w ∷ ws) = wakefulness w + awake ws

  awake-set :
      (ws : List (Worker T)) (i : ℕ) (v w : Worker T)
      → get_elem? ws i ≡ some w
      → awake (set ws i v) + wakefulness w ≡ awake ws + wakefulness v
  awake-set [] i v w e = cc
  awake-set (x ∷ ws) zero v w e = let same : x ≡ w = ground arith in rw same (omega arith)
  awake-set (x ∷ ws) (suc i) v w e = omega (arith, awake-set ws i v w e)

  awake-get :
      (ws : List (Worker T)) (i : ℕ) (w : Worker T)
      → get_elem? ws i ≡ some w
      → wakefulness w ≤ awake ws
  awake-get [] i w e = cc
  awake-get (x ∷ ws) zero w e = let same : x ≡ w = ground arith in rw same (omega arith)
  awake-get (x ∷ ws) (suc i) w e = omega (arith, awake-get ws i w e)

  wakefulness-wake : (w : Worker T) → wakefulness w ≤ wakefulness (wake w)
  wakefulness-wake ready = omega arith
  wakefulness-wake about_to_wait = omega arith
  wakefulness-wake waiting = omega arith
  wakefulness-wake exited = omega arith
  wakefulness-wake (running t) = omega arith

  awake-wake : (ws : List (Worker T)) → awake ws ≤ awake (map wake ws)
  awake-wake [] = omega arith
  awake-wake (w ∷ ws) = omega (arith, wakefulness-wake w, awake-wake ws)

  -- Where nobody waits and the queue is not empty, everybody is awake.
  awake-eq-length :
      (sh : Shared T) (ws : List (Worker T))
      → sh.m_tasks ≢ []
      → any_waiting ws ≡ false
      → All (Knows sh) ws
      → awake ws ≡ length ws
  awake-eq-length sh [] ne lost k = refl
  awake-eq-length sh (ready ∷ ws) ne lost k = omega (arith, awake-eq-length sh ws ne lost k.1)
  awake-eq-length sh (running t ∷ ws) ne lost k = omega (arith, awake-eq-length sh ws ne lost k.1)
  awake-eq-length sh (waiting ∷ ws) ne lost k = cc
  awake-eq-length sh (about_to_wait ∷ ws) ne lost k = absurd (ne k.0)
  awake-eq-length sh (exited ∷ ws) ne lost k = absurd (ne k.0.0)

  abbrev IsAttended : Sys T → Type 0
  IsAttended s = s.shared.m_tasks ≢ [] → 0 < s.signals + awake s.workers

  record Inv (s : Sys T) : Type 0 where
    sound : IsSound s
    staffed : 0 < length s.workers
    attended : IsAttended s

module _ {T : Type 0} (c : Code T) where
  after_add-IsAttended :
      (s : Sys T) (t : Task T) (r : Added T) → Inv s → IsAttended (after_add s t r)
  unfolding after_add
  after_add-IsAttended s t (queued sh) v = λ ne. omega arith
  after_add-IsAttended s t full v = v.attended
  after_add-IsAttended s t stopped v = v.attended

  after_poll-IsAttended :
      (s : Sys T) (i : ℕ) (r : Poll T)
      → c.poll s.shared ≡ r
      → get_elem? s.workers i ≡ some ready
      → Inv s
      → IsAttended (after_poll s i r)
  unfolding after_poll
  after_poll-IsAttended s i sleep e w v = λ ne. absurd (ne (c.poll-sleep s.shared e).0)
  after_poll-IsAttended s i leave e w v = λ ne. absurd (ne (c.poll-leave s.shared e).0)
  after_poll-IsAttended s i undefined_front e w v = v.attended
  after_poll-IsAttended s i (took t sh) e w v =
      λ ne. omega (arith, awake-set s.workers i (running t) ready w, awake-get s.workers i ready w)

  after_call-IsAttended :
      (s : Sys T) (i : ℕ) (t : Task T) (r : Ran T)
      → get_elem? s.workers i ≡ some (running t)
      → Inv s
      → IsAttended (after_call s i t r)
  unfolding after_call
  after_call-IsAttended s i t (called f) w v =
      λ ne. omega (arith, awake-set s.workers i ready (running t) w)
  after_call-IsAttended s i t skipped w v =
      λ ne. omega (arith, awake-set s.workers i ready (running t) w)
  after_call-IsAttended s i t bad_call w v = v.attended

  turn_of-IsAttended :
      (s : Sys T) (i : ℕ) (w : Option (Worker T))
      → get_elem? s.workers i ≡ w
      → Inv s
      → IsAttended (turn_of c s i w)
  unfolding turn_of
  turn_of-IsAttended s i none e v = v.attended
  turn_of-IsAttended s i (some ready) e v =
      if_keeps IsAttended (mutex_free s.workers)
        (after_poll-IsAttended s i (c.poll s.shared) refl e v) v.attended
  turn_of-IsAttended s i (some about_to_wait) e v =
      λ ne. absurd (ne (All-get_elem? (Knows s.shared) s.workers i about_to_wait v.sound e))
  turn_of-IsAttended s i (some waiting) e v = v.attended
  turn_of-IsAttended s i (some exited) e v = v.attended
  turn_of-IsAttended s i (some (running t)) e v = after_call-IsAttended s i t (c.call t) e v

  signal_lost :
      (s : Sys T) (n : ℕ)
      → s.signals ≡ suc n
      → Inv s
      → IsAttended (if any_waiting s.workers then s else record s { signals = n })
  signal_lost s n e v = elim (Bool-cases (any_waiting s.workers)) [
    | inl more ↦ rw more v.attended
    | inr lost ↦
        rw lost (λ ne. omega (arith, awake-eq-length s.shared s.workers ne lost v.sound, v.staffed))
  ]

  deliver_to-IsAttended :
      (s : Sys T) (n i : ℕ) (w : Option (Worker T))
      → s.signals ≡ n
      → get_elem? s.workers i ≡ w
      → Inv s
      → IsAttended (deliver_to s n i w)
  unfolding deliver_to
  deliver_to-IsAttended s zero i w m e v = v.attended
  deliver_to-IsAttended s (suc n) i (some waiting) m e v =
      λ ne. omega (arith, awake-set s.workers i ready waiting e)
  deliver_to-IsAttended s (suc n) i w m e v = signal_lost s n m v

  wake_one-IsAttended :
      (s : Sys T) (i : ℕ) (w : Option (Worker T))
      → get_elem? s.workers i ≡ w
      → Inv s
      → IsAttended (wake_one s i w)
  unfolding wake_one
  wake_one-IsAttended s i (some waiting) e v =
      λ ne. omega (arith, awake-set s.workers i ready waiting e)
  wake_one-IsAttended s i w e v = v.attended

  act-IsAttended : (a : Action T) (s : Sys T) → Inv s → IsAttended (act c a s)
  unfolding act
  act-IsAttended (adds t) s v =
      if_keeps IsAttended (mutex_free s.workers)
        (after_add-IsAttended s t (c.add_task s.shared t) v) v.attended
  act-IsAttended (turn i) s v = turn_of-IsAttended s i (get_elem? s.workers i) refl v
  act-IsAttended (deliver i) s v =
      deliver_to-IsAttended s s.signals i (get_elem? s.workers i) refl refl v
  act-IsAttended (spurious i) s v = wake_one-IsAttended s i (get_elem? s.workers i) refl v
  act-IsAttended stops s v =
      let same = (c.request_stop_lem s.shared).0 in λ ne. v.attended (rw same at ne)
  act-IsAttended broadcasts s v = λ ne. omega (arith, awake-wake s.workers, v.attended ne)

  act-Inv : Guards c → (a : Action T) (s : Sys T) → Inv s → Inv (act c a s)
  act-Inv guards a s v = record {
    sound = act-IsSound c guards a s v.sound;
    staffed = omega (arith, length-act c a s, v.staffed);
    attended = act-IsAttended a s v;
  }

  -- In a pool with a worker, whose `addTask` accepts nothing after the stop: whenever the queue
  -- holds a task, a wake-up is still owed, or a worker is in a job or on its way to the queue.
  pub queued_task_attended :
      (sh : Shared T) (n : ℕ) (acts : List (Action T))
      → Guards c
      → sh.m_tasks ≡ []
      → 0 < n
      → let s = run c acts (start c sh n) in s.shared.m_tasks ≢ [] → 0 < s.signals + awake s.workers
  unfolding start
  queued_task_attended sh n acts guards empty pos =
      let first : Inv (start c sh n) = record {
        sound = start-IsSound c sh empty n;
        staffed = omega (arith, length-start c sh empty n);
        attended = λ ne. absurd (ne empty);
      } in
      (run_keeps c Inv (act-Inv guards) acts (start c sh n) first).attended
