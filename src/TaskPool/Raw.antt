-- ===== src/TaskPool/Raw.antt =====
-- thread_pool/raw_version/thread_pool.cpp: the pool over pthread mutexes, whose queue has no limit.
use linux_cpp_learn.Prelude.{
  Bool, not, ◌&&◌, [], ◌∷◌, ◌++◌, none, some, arith, if◌then◌else◌, is_empty, ◌≡◌, ◌≢◌,
}
use linux_cpp_learn.TaskPool.{
  Task, Shared, Added, queued, stopped, Poll, sleep, leave, undefined_front, took, Ran, called,
  bad_call, Code,
}

module _ {T : Type 0} where
  unfoldable pub create : Shared T
  create = record { m_tasks = []; m_stop = Bool.false }

  -- The destructor's first statement; it does not take the mutex.
  unfoldable pub request_stop : Shared T → Shared T
  request_stop s = record s { m_stop = Bool.true }

  unfoldable pub add_task : Shared T → Task T → Added T
  add_task s t = if s.m_stop then stopped else queued (record s { m_tasks = s.m_tasks ++ t ∷ [] })

  take_front : Shared T → Poll T
  take_front s = elim s.m_tasks [
    | [] ↦ undefined_front
    | t ∷ rest ↦ took t (record s { m_tasks = rest })
  ]

  -- `run` between the lock and the unlock; `sleep` is one round of the inner `while`.
  unfoldable pub poll : Shared T → Poll T
  unfolding take_front
  poll s =
      if not s.m_stop && is_empty s.m_tasks
      then sleep
      else if s.m_stop && is_empty s.m_tasks
      then leave
      else take_front s

  -- `job()`
  unfoldable pub call : Task T → Ran T
  call none = bad_call
  call (some f) = called f

  pub add_task-queued :
      (s : Shared T) (t : Task T) (s' : Shared T)
      → add_task s t ≡ queued s'
      → (s'.m_tasks ≡ s.m_tasks ++ t ∷ []) × (s'.m_stop ≡ s.m_stop)
  unfolding add_task
  add_task-queued s t s' h = ground arith

  pub poll-sleep : (s : Shared T) → poll s ≡ sleep → (s.m_tasks ≡ []) × (s.m_stop ≡ Bool.false)
  unfolding poll
  poll-sleep s h = ground arith

  pub poll-leave : (s : Shared T) → poll s ≡ leave → (s.m_tasks ≡ []) × (s.m_stop ≡ Bool.true)
  unfolding poll
  poll-leave s h = ground arith

  pub poll-defined : (s : Shared T) → poll s ≢ undefined_front
  unfolding poll
  poll-defined s h = ground arith

  pub poll-took :
      (s : Shared T) (t : Task T) (s' : Shared T)
      → poll s ≡ took t s'
      → (s.m_tasks ≡ t ∷ s'.m_tasks) × (s'.m_stop ≡ s.m_stop)
  unfolding poll
  poll-took s t s' h = ground arith

  pub request_stop_lem :
      (s : Shared T)
      → ((request_stop s).m_tasks ≡ s.m_tasks) × ((request_stop s).m_stop ≡ Bool.true)
  unfolding request_stop
  request_stop_lem s = ground arith

  unfoldable pub code : Code T
  unfolding create add_task poll request_stop call
  code = record {
    add_task = add_task;
    poll = poll;
    request_stop = request_stop;
    call = call;
    add_task-queued = add_task-queued;
    poll-sleep = poll-sleep;
    poll-leave = poll-leave;
    poll-defined = poll-defined;
    poll-took = poll-took;
    request_stop_lem = request_stop_lem;
  }
