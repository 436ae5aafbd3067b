-- ===== src/TaskPool.antt =====
-- What the three thread pools share: the state behind the mutex, what a call of `addTask` and one
-- pass of a worker through its critical section can do, and the interface that each pool's code
-- fills. The fields are those of class threadPool in thread_pool/raw_version/thread_pool.h.
pub mod System
pub mod Raw
pub mod Cpp11
pub mod Echo
pub mod Pools
pub mod EchoLimits
mod Tests
use linux_cpp_learn.Prelude.{Bool, true, false, List, [], ◌∷◌, ◌++◌, ◌≡◌, ◌≢◌, Option}

-- A std::function<void()>: `none` is the empty one, which cannot be called.
abbrev pub Task : Type 0 → Type 0
Task T = Option T

-- The fields that the mutex is there for.
pub record Shared (T : Type 0) : Type 0 where
  pub m_tasks : List (Task T)
  pub m_stop : Bool

-- How `addTask` ends: the new state, the result `false`, or the exception.
pub data Added (T : Type 0) : Type 0 where
  queued : Shared T → Added T
  full stopped : Added T

-- How a worker's pass through the critical section ends: it goes to sleep on the condition
-- variable, it leaves the loop, it takes a job out of the queue, or it reads the front of an empty
-- queue, which C++ leaves undefined.
pub data Poll (T : Type 0) : Type 0 where
  sleep leave undefined_front : Poll T
  took : Task T → Shared T → Poll T

-- How a job ends: it ran, it was skipped, or it threw std::bad_function_call.
pub data Ran (T : Type 0) : Type 0 where
  called : T → Ran T
  skipped bad_call : Ran T

-- The code of a pool, and what its workers and clients rely on.
pub record Code (T : Type 0) : Type 0 where
  pub add_task : Shared T → Task T → Added T
  pub poll : Shared T → Poll T
  pub request_stop : Shared T → Shared T
  pub call : Task T → Ran T
  pub add_task-queued :
      (s : Shared T) (t : Task T) (s' : Shared T)
      → add_task s t ≡ queued s'
      → (s'.m_tasks ≡ s.m_tasks ++ t ∷ []) × (s'.m_stop ≡ s.m_stop)
  pub poll-sleep : (s : Shared T) → poll s ≡ sleep → (s.m_tasks ≡ []) × (s.m_stop ≡ false)
  pub poll-leave : (s : Shared T) → poll s ≡ leave → (s.m_tasks ≡ []) × (s.m_stop ≡ true)
  pub poll-defined : (s : Shared T) → poll s ≢ undefined_front
  pub poll-took :
      (s : Shared T) (t : Task T) (s' : Shared T)
      → poll s ≡ took t s'
      → (s.m_tasks ≡ t ∷ s'.m_tasks) × (s'.m_stop ≡ s.m_stop)
  pub request_stop_lem :
      (s : Shared T) → ((request_stop s).m_tasks ≡ s.m_tasks) × ((request_stop s).m_stop ≡ true)
