-- ===== src/TaskPool/Pools.antt =====
-- The three pools of the repository under any interleaving of their workers, of the clients that
-- call `addTask`, and of the destructor.
use mathlib.Core.List.{Perm}
use linux_cpp_learn.Prelude.{
  ℕ, ◌+◌, ◌<◌, false, List, [], ◌∷◌, ◌++◌, some, arith, ◌≡◌, ◌≢◌, refl, All, get_elem?,
}
use linux_cpp_learn.TaskPool.{Shared, Code}
use linux_cpp_learn.TaskPool.System.{
  about_to_wait, waiting, exited, Sys, Action, turn, stops, broadcasts, run, start,
}
use linux_cpp_learn.TaskPool.Raw
use linux_cpp_learn.TaskPool.Cpp11
use linux_cpp_learn.TaskPool.Echo
use linux_cpp_learn.TaskPool.System.Jobs.{jobs}
use linux_cpp_learn.TaskPool.System.Awake.{awake, queued_task_attended}
use linux_cpp_learn.TaskPool.System.Complete.{run-history, exited_complete}
use linux_cpp_learn.TaskPool.System.Shutdown.{Guards}
use linux_cpp_learn.TaskPool.System.LostWakeup.{IsPlain, stop_before_wait_hangs}

pub data Pool : Type 0 where
  raw cpp11 echo : Pool

module _ {T : Type 0} where
  -- The code of each pool.
  unfoldable pub code : Pool → Code T
  unfolding Raw.code Cpp11.code Echo.code
  code raw = Raw.code
  code cpp11 = Cpp11.code
  code echo = Echo.code

  -- The state that each constructor sets up.
  unfoldable pub create : Pool → Shared T
  unfolding Raw.create Cpp11.create Echo.create
  create raw = Raw.create
  create cpp11 = Cpp11.create
  create echo = Echo.create

  unfoldable pub launch : Pool → ℕ → Sys T
  unfolding code create start
  launch p n = start (code p) (create p) n

  create-m_tasks : (p : Pool) → (create p).m_tasks ≡ []
  unfolding create
  create-m_tasks raw = refl
  create-m_tasks cpp11 = refl
  create-m_tasks echo = refl

  code-Guards : (p : Pool) → p ≢ echo → Guards (code p)
  unfolding code Raw.code Cpp11.code Raw.add_task Cpp11.add_task
  code-Guards raw h s t off = ground arith
  code-Guards cpp11 h s t off = ground arith
  code-Guards echo h s t off = absurd (h refl)

  -- In each of the three pools, with any number of workers and whatever the threads do: the tasks
  -- taken out of the queue, in the order of taking, followed by those still in it, are the tasks
  -- that `addTask` accepted, in the order of acceptance; and the tasks taken are those done and
  -- those that a worker is in, each as often.
  pub pool_history :
      (p : Pool) (n : ℕ) (acts : List (Action T))
      → let s = run (code p) acts (launch p n) in
        (s.accepted ≡ s.started ++ s.shared.m_tasks) × Perm s.started (s.finished ++ jobs s.workers)
  unfolding launch
  pool_history p n acts = run-history (code p) (create p) (create-m_tasks p) n acts

  -- In the raw and the C++11 pool with at least one worker, after any schedule at whose end every
  -- worker has left its loop: the queue is empty, and the tasks done are all the accepted ones, each
  -- as often.
  pub pool_exited_complete :
      (p : Pool) (n : ℕ) (acts : List (Action T))
      → p ≢ echo
      → 0 < n
      → All (λ w. w ≡ exited) (run (code p) acts (launch p n)).workers
      → ((run (code p) acts (launch p n)).shared.m_tasks ≡ [])
        × Perm (run (code p) acts (launch p n)).finished (run (code p) acts (launch p n)).accepted
  unfolding launch
  pool_exited_complete p n acts guarded =
      exited_complete (code p) (create p) (create-m_tasks p) n acts (code-Guards p guarded)

  -- In the raw and the C++11 pool with at least one worker, after any schedule: if the queue holds a
  -- task, then `addTask` still owes a wake-up, or some worker is in a job or at the head of its loop.
  pub pool_task_attended :
      (p : Pool) (n : ℕ) (acts : List (Action T))
      → p ≢ echo
      → 0 < n
      → (run (code p) acts (launch p n)).shared.m_tasks ≢ []
      → 0
        < (run (code p) acts (launch p n)).signals + awake (run (code p) acts (launch p n)).workers
  unfolding launch
  pool_task_attended p n acts guarded pos =
      queued_task_attended (code p) (create p) n acts (code-Guards p guarded) (create-m_tasks p) pos

  -- In the raw and the C++11 pool: from every state that is not aborted, where no wake-up is owed and
  -- worker i holds the mutex, having seen an empty queue and no stop, if the destructor now stores
  -- the stop and broadcasts and the worker then begins its wait, it is asleep at the end of every
  -- further schedule with no spurious wake-up and no second broadcast.
  pub pool_stop_hangs :
      (p : Pool) (s : Sys T) (i : ℕ) (acts : List (Action T))
      → p ≢ echo
      → s.aborted ≡ false
      → s.signals ≡ 0
      → get_elem? s.workers i ≡ some about_to_wait
      → All IsPlain acts
      → get_elem? (run (code p) acts (run (code p) (stops ∷ broadcasts ∷ turn i ∷ []) s)).workers i
        ≡ some waiting
  pool_stop_hangs p s i acts guarded =
      stop_before_wait_hangs (code p) (code-Guards p guarded) s i acts
