-- ===== src/TaskPool/System/Complete.antt =====
-- The histories of whole runs, from the constructor on.
use mathlib.Core.List.{Perm}
use mathlib.Core.List.Perm
use linux_cpp_learn.Prelude.{
  ℕ, zero, suc, ◌<◌, List, [], ◌∷◌, ◌++◌, arith, append-nil, replicate, ◌≡◌, refl, sym, All, length,
  length-replicate,
}
use linux_cpp_learn.TaskPool.{Shared, Code}
use linux_cpp_learn.TaskPool.System.{Worker, ready, exited, Action, run, start}
use linux_cpp_learn.TaskPool.System.History.{IsFifo, run-IsFifo}
use linux_cpp_learn.TaskPool.System.Jobs.{IsAccounted, jobs, run-IsAccounted}
use linux_cpp_learn.TaskPool.System.Workers.{run-length}
use linux_cpp_learn.TaskPool.System.Shutdown.{Guards, Knows, IsSound, run-IsSound}

module _ {T : Type 0} where
  jobs-replicate : (n : ℕ) → jobs {T = T} (replicate n ready) ≡ []
  jobs-replicate zero = refl
  jobs-replicate (suc n) = jobs-replicate n

  All-ready : (sh : Shared T) (n : ℕ) → All (Knows sh) (replicate n ready)
  All-ready sh zero = tt
  All-ready sh (suc n) = (tt, All-ready sh n)

  jobs-exited : (ws : List (Worker T)) → All (λ w. w ≡ exited) ws → jobs ws ≡ []
  jobs-exited [] h = refl
  jobs-exited (w ∷ ws) h = rw h.0 (jobs-exited ws h.1)

  Knows-exited :
      (sh : Shared T) (ws : List (Worker T))
      → 0 < length ws
      → All (λ w. w ≡ exited) ws
      → All (Knows sh) ws
      → sh.m_tasks ≡ []
  Knows-exited sh [] n h k = absurd (omega arith)
  Knows-exited sh (w ∷ ws) n h k = (rw h.0 at k.0).0

module _ {T : Type 0} (c : Code T) (sh : Shared T) (empty : sh.m_tasks ≡ []) where
  start-IsFifo : (n : ℕ) → IsFifo (start c sh n)
  unfolding start
  start-IsFifo n = sym empty

  start-IsAccounted : (n : ℕ) → IsAccounted (start c sh n)
  unfolding start
  start-IsAccounted n = rw (jobs-replicate n) Perm.nil

  -- Whatever the threads do, the tasks taken out of the queue and those still in it are, in this
  -- order, the tasks that `addTask` accepted; and each task taken is done or in a worker, once.
  pub run-history :
      (n : ℕ) (acts : List (Action T))
      → let s = run c acts (start c sh n) in
        (s.accepted ≡ s.started ++ s.shared.m_tasks) × Perm s.started (s.finished ++ jobs s.workers)
  run-history n acts = (
    run-IsFifo c acts (start c sh n) (start-IsFifo n),
    run-IsAccounted c acts (start c sh n) (start-IsAccounted n),
  )

  pub start-IsSound : (n : ℕ) → IsSound (start c sh n)
  unfolding start
  start-IsSound n = All-ready sh n

  pub length-start : (n : ℕ) → length (start c sh n).workers ≡ n
  unfolding start
  length-start n = length-replicate n ready

  -- Of a pool with a worker, whose `addTask` accepts nothing after the stop: when every worker has
  -- left its loop, the queue is empty, and the tasks done are all that were accepted, each once.
  pub exited_complete :
      (n : ℕ) (acts : List (Action T))
      → Guards c
      → 0 < n
      → All (λ w. w ≡ exited) (run c acts (start c sh n)).workers
      → ((run c acts (start c sh n)).shared.m_tasks ≡ [])
        × Perm (run c acts (start c sh n)).finished (run c acts (start c sh n)).accepted
  exited_complete n acts guards pos out =
      let (fifo, accounted) = run-history n acts in
      let sound = run-IsSound c guards acts (start c sh n) (start-IsSound n) in
      let count = run-length c acts (start c sh n) in
      let none_left =
        Knows-exited (run c acts (start c sh n)).shared (run c acts (start c sh n)).workers
          (omega (arith, length-start n)) out sound in
      (
        none_left,
        rw fifo (
            rw none_left (
              rw (append-nil (run c acts (start c sh n)).started) (
                Perm.symm (
                  rw
                    (
                      jobs-exited (run c acts (start c sh n)).workers out,
                      append-nil (run c acts (start c sh n)).finished,
                    )
                    at accounted)))),
      )
