-- ===== src/TaskPool/System/Jobs.antt =====
-- The jobs that a pool's workers are in: every task that was taken is done, or is in one of them.
use mathlib.Core.List.{Perm, perm_append_comm, perm_append_singleton}
use mathlib.Core.List.Perm
use linux_cpp_learn.Prelude.{
  ℕ, zero, suc, List, [], ◌∷◌, ◌++◌, Option, none, some, arith, append_assoc, set, get_elem?, ◌≡◌,
  refl, map, ap, Bool-cases, inl, inr,
}
use linux_cpp_learn.TaskPool.{
  Task, Added, queued, full, stopped, Poll, sleep, leave, undefined_front, took, Ran, called,
  skipped, bad_call, Code,
}
use linux_cpp_learn.TaskPool.System.{
  Worker, ready, about_to_wait, waiting, exited, running, Sys, Action, adds, turn, deliver,
  spurious, stops, broadcasts, after_add, after_poll, after_call, turn_of, deliver_to, wake_one,
  wake, act, run, run_keeps, mutex_free, any_waiting,
}

perm_left_comm {ℓ} : {A : Type ℓ} (xs ys zs : List A) → Perm (xs ++ (ys ++ zs)) (ys ++ (xs ++ zs))
perm_left_comm xs ys zs =
    rw (← append_assoc xs ys zs, ← append_assoc ys xs zs)
      (Perm.append_right zs (perm_append_comm xs ys))

module _ {T : Type 0} where
  abbrev pub job_of : Worker T → List (Task T)
  job_of (running t) = t ∷ []
  job_of w = []

  abbrev pub jobs : List (Worker T) → List (Task T)
  jobs [] = []
  jobs (w ∷ ws) = job_of w ++ jobs ws

  pub jobs-set :
      (ws : List (Worker T)) (i : ℕ) (v w : Worker T)
      → get_elem? ws i ≡ some w
      → Perm (job_of v ++ jobs ws) (job_of w ++ jobs (set ws i v))
  jobs-set [] i v w e = cc
  jobs-set (x ∷ ws) zero v w e =
      let same : x ≡ w = ground arith in rw same (perm_left_comm (job_of v) (job_of w) (jobs ws))
  jobs-set (x ∷ ws) (suc i) v w e = Perm.trans (perm_left_comm (job_of v) (job_of x) (jobs ws)) (
      Perm.trans (Perm.append_left (job_of x) (jobs-set ws i v w e))
        (perm_left_comm (job_of x) (job_of w) (jobs (set ws i v))))

  -- The tasks that were taken are those done and those in a job, each as often.
  abbrev pub IsAccounted : Sys T → Type 0
  IsAccounted s = Perm s.started (s.finished ++ jobs s.workers)

  -- A worker that goes from one state without a job to another.
  idle_move :
      (s : Sys T) (i : ℕ) (v w : Worker T)
      → get_elem? s.workers i ≡ some w
      → job_of v ≡ []
      → job_of w ≡ []
      → IsAccounted s
      → Perm s.started (s.finished ++ jobs (set s.workers i v))
  idle_move s i v w e hv hw h =
      Perm.trans h (Perm.append_left s.finished (rw (hv, hw) at (jobs-set s.workers i v w e)))

  jobs-wake : (ws : List (Worker T)) → jobs (map wake ws) ≡ jobs ws
  jobs-wake [] = refl
  jobs-wake (ready ∷ ws) = jobs-wake ws
  jobs-wake (about_to_wait ∷ ws) = jobs-wake ws
  jobs-wake (waiting ∷ ws) = jobs-wake ws
  jobs-wake (exited ∷ ws) = jobs-wake ws
  jobs-wake (running t ∷ ws) = ap (◌∷◌ t) (jobs-wake ws)

  finish :
      (s : Sys T) (i : ℕ) (t : Task T)
      → get_elem? s.workers i ≡ some (running t)
      → IsAccounted s
      → Perm s.started ((s.finished ++ t ∷ []) ++ jobs (set s.workers i ready))
  finish s i t e h =
      rw (append_assoc s.finished (t ∷ []) (jobs (set s.workers i ready)))
        (Perm.trans h (Perm.append_left s.finished (jobs-set s.workers i ready (running t) e)))

module _ {T : Type 0} (c : Code T) where
  after_poll-IsAccounted :
      (s : Sys T) (i : ℕ) (r : Poll T)
      → get_elem? s.workers i ≡ some ready
      → IsAccounted s
      → IsAccounted (after_poll s i r)
  unfolding after_poll
  after_poll-IsAccounted s i sleep e h = idle_move s i about_to_wait ready e refl refl h
  after_poll-IsAccounted s i leave e h = idle_move s i exited ready e refl refl h
  after_poll-IsAccounted s i undefined_front e h = h
  after_poll-IsAccounted s i (took t sh) e h = Perm.trans (Perm.append_right (t ∷ []) h) (
      rw (append_assoc s.finished (jobs s.workers) (t ∷ [])) (
        Perm.append_left s.finished (
          Perm.trans (perm_append_singleton t (jobs s.workers))
            (jobs-set s.workers i (running t) ready e))))

  after_call-IsAccounted :
      (s : Sys T) (i : ℕ) (t : Task T) (r : Ran T)
      → get_elem? s.workers i ≡ some (running t)
      → IsAccounted s
      → IsAccounted (after_call s i t r)
  unfolding after_call
  after_call-IsAccounted s i t (called f) e h = finish s i t e h
  after_call-IsAccounted s i t skipped e h = finish s i t e h
  after_call-IsAccounted s i t bad_call e h = h

  turn_of-IsAccounted :
      (s : Sys T) (i : ℕ) (w : Option (Worker T))
      → get_elem? s.workers i ≡ w
      → IsAccounted s
      → IsAccounted (turn_of c s i w)
  unfolding turn_of
  turn_of-IsAccounted s i none e h = h
  turn_of-IsAccounted s i (some ready) e h = elim (Bool-cases (mutex_free s.workers)) [
    | inl free ↦ rw free (after_poll-IsAccounted s i (c.poll s.shared) e h)
    | inr held ↦ rw held h
  ]
  turn_of-IsAccounted s i (some about_to_wait) e h =
      idle_move s i waiting about_to_wait e refl refl h
  turn_of-IsAccounted s i (some waiting) e h = h
  turn_of-IsAccounted s i (some exited) e h = h
  turn_of-IsAccounted s i (some (running t)) e h = after_call-IsAccounted s i t (c.call t) e h

  deliver_to-IsAccounted :
      (s : Sys T) (n i : ℕ) (w : Option (Worker T))
      → get_elem? s.workers i ≡ w
      → IsAccounted s
      → IsAccounted (deliver_to s n i w)
  unfolding deliver_to
  deliver_to-IsAccounted s zero i w e h = h
  deliver_to-IsAccounted s (suc n) i (some waiting) e h = idle_move s i ready waiting e refl refl h
  deliver_to-IsAccounted s (suc n) i w e h = elim (Bool-cases (any_waiting s.workers)) [
    | inl more ↦ rw more h
    | inr lost ↦ rw lost h
  ]

  wake_one-IsAccounted :
      (s : Sys T) (i : ℕ) (w : Option (Worker T))
      → get_elem? s.workers i ≡ w
      → IsAccounted s
      → IsAccounted (wake_one s i w)
  unfolding wake_one
  wake_one-IsAccounted s i (some waiting) e h = idle_move s i ready waiting e refl refl h
  wake_one-IsAccounted s i w e h = h

  add-IsAccounted :
      (s : Sys T) (t : Task T) (r : Added T) → IsAccounted s → IsAccounted (after_add s t r)
  unfolding after_add
  add-IsAccounted s t (queued sh) h = h
  add-IsAccounted s t full h = h
  add-IsAccounted s t stopped h = h

  act-IsAccounted : (a : Action T) (s : Sys T) → IsAccounted s → IsAccounted (act c a s)
  unfolding act
  act-IsAccounted (adds t) s h = elim (Bool-cases (mutex_free s.workers)) [
    | inl free ↦ rw free (add-IsAccounted s t (c.add_task s.shared t) h)
    | inr held ↦ rw held h
  ]
  act-IsAccounted (turn i) s h = turn_of-IsAccounted s i (get_elem? s.workers i) refl h
  act-IsAccounted (deliver i) s h =
      deliver_to-IsAccounted s s.signals i (get_elem? s.workers i) refl h
  act-IsAccounted (spurious i) s h = wake_one-IsAccounted s i (get_elem? s.workers i) refl h
  act-IsAccounted stops s h = h
  act-IsAccounted broadcasts s h = rw (jobs-wake s.workers) h

  pub run-IsAccounted :
      (acts : List (Action T)) (s : Sys T) → IsAccounted s → IsAccounted (run c acts s)
  run-IsAccounted = run_keeps c IsAccounted act-IsAccounted
