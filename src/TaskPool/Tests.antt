-- ===== src/TaskPool/Tests.antt =====
-- Runs of the three pools, and the theorems about them at those runs.
use mathlib.Core.List.{Perm}
use linux_cpp_learn.Prelude.{
  ℕ, ◌+◌, ◌<◌, ◌≤◌, true, false, List, [], ◌∷◌, ◌++◌, some, none, arith, ◌≡◌, ◌≢◌, refl, All,
  length, get_elem?,
}
use linux_cpp_learn.TaskPool.System.{
  about_to_wait, waiting, exited, Sys, Action, adds, turn, deliver, stops, broadcasts, run, start,
}
use linux_cpp_learn.TaskPool.System.Jobs.{jobs}
use linux_cpp_learn.TaskPool.System.Awake.{awake}
use linux_cpp_learn.TaskPool.Echo
use linux_cpp_learn.TaskPool.Echo.{m_max_tasks}
use linux_cpp_learn.TaskPool.Pools.{
  raw, cpp11, echo, code, launch, pool_history, pool_exited_complete, pool_task_attended,
  pool_stop_hangs,
}
use linux_cpp_learn.TaskPool.EchoLimits.{echo_queue_bounded, echo_late_task_never_starts}

-- Worker 0 goes to sleep, two tasks come, worker 0 is woken and takes the first.
abbrev two_tasks : List (Action ℕ)
two_tasks = turn 0 ∷ turn 0 ∷ adds (some 7) ∷ adds (some 8) ∷ deliver 0 ∷ turn 0 ∷ []

-- The same to the end: the job is done, worker 1 does the other, and both leave.
abbrev to_the_end : List (Action ℕ)
to_the_end = two_tasks ++ (turn 0 ∷ turn 1 ∷ turn 1 ∷ stops ∷ broadcasts ∷ turn 0 ∷ turn 1 ∷ [])

two_tasks_started : (run (code raw) two_tasks (launch raw 2)).started ≡ some 7 ∷ []
unfolding run launch
two_tasks_started = refl

two_tasks_left : (run (code cpp11) two_tasks (launch cpp11 2)).shared.m_tasks ≡ some 8 ∷ []
unfolding run launch
two_tasks_left = refl

end_finished : (run (code raw) to_the_end (launch raw 2)).finished ≡ some 7 ∷ some 8 ∷ []
unfolding run launch
end_finished = refl

end_exited : (run (code raw) to_the_end (launch raw 2)).workers ≡ exited ∷ exited ∷ []
unfolding run launch
end_exited = refl

-- An empty std::function aborts the raw pool, and the C++11 pool skips it.
empty_task_aborts :
    (run {T = ℕ} (code raw) (adds none ∷ turn 0 ∷ turn 0 ∷ []) (launch raw 1)).aborted ≡ true
unfolding run launch
empty_task_aborts = refl

empty_task_skipped :
    (run {T = ℕ} (code cpp11) (adds none ∷ turn 0 ∷ turn 0 ∷ []) (launch cpp11 1)).aborted ≡ false
unfolding run launch
empty_task_skipped = refl

pool_history_example :
    let s = run (code echo) two_tasks (launch echo 2) in
    (s.accepted ≡ s.started ++ s.shared.m_tasks) × Perm s.started (s.finished ++ jobs s.workers)
pool_history_example = pool_history echo 2 two_tasks

workers_left : All (λ w. w ≡ exited) (run (code raw) to_the_end (launch raw 2)).workers
unfolding run launch
workers_left = (refl, (refl, tt))

pool_exited_complete_example :
    ((run (code raw) to_the_end (launch raw 2)).shared.m_tasks ≡ [])
    × Perm
        (run (code raw) to_the_end (launch raw 2)).finished
        (run (code raw) to_the_end (launch raw 2)).accepted
pool_exited_complete_example =
    pool_exited_complete raw 2 to_the_end (λ e. cc) (omega arith) workers_left

one_queued : (run (code cpp11) two_tasks (launch cpp11 2)).shared.m_tasks ≢ []
one_queued e = cc two_tasks_left

pool_task_attended_example :
    0
    < (run (code cpp11) two_tasks (launch cpp11 2)).signals
      + awake (run (code cpp11) two_tasks (launch cpp11 2)).workers
pool_task_attended_example = pool_task_attended cpp11 2 two_tasks (λ e. cc) (omega arith) one_queued

-- One worker that has tested the empty queue and not begun its wait.
abbrev tested : Sys ℕ
tested = record {
  shared = record { m_tasks = []; m_stop = false };
  workers = about_to_wait ∷ [];
  signals = 0;
  accepted = [];
  started = [];
  finished = [];
  aborted = false;
}

tested_reached : run (code raw) (turn 0 ∷ []) (launch raw 1) ≡ tested
unfolding run launch
tested_reached = refl

pool_stop_hangs_example :
    get_elem?
      (run
        (code raw)
        (turn 0 ∷ deliver 0 ∷ adds (some 1) ∷ turn 0 ∷ [])
        (run (code raw) (stops ∷ broadcasts ∷ turn 0 ∷ []) tested)).workers
      0
    ≡ some waiting
pool_stop_hangs_example =
    pool_stop_hangs raw tested 0 (turn 0 ∷ deliver 0 ∷ adds (some 1) ∷ turn 0 ∷ []) (λ e. cc) refl
      refl refl (tt, (tt, (tt, (tt, tt))))

echo_queue_bounded_example :
    length (run Echo.code two_tasks (start Echo.code Echo.create 2)).shared.m_tasks ≤ m_max_tasks
echo_queue_bounded_example = echo_queue_bounded 2 two_tasks

-- The echo server's pool after the stop, its one worker gone.
abbrev deserted : Sys ℕ
deserted = record {
  shared = record { m_tasks = []; m_stop = true };
  workers = exited ∷ [];
  signals = 0;
  accepted = [];
  started = [];
  finished = [];
  aborted = false;
}

deserted_reached :
    run Echo.code (stops ∷ broadcasts ∷ turn 0 ∷ []) (start Echo.code Echo.create 1) ≡ deserted
unfolding run start Echo.code
deserted_reached = refl

late_task_stays :
    ((run Echo.code (adds (some 5) ∷ []) deserted).accepted ≡ some 5 ∷ [])
    × ((run Echo.code
          (deliver 0 ∷ turn 0 ∷ [])
          (run Echo.code (adds (some 5) ∷ []) deserted)).started
        ≡ [])
late_task_stays =
    echo_late_task_never_starts deserted (some 5) (deliver 0 ∷ turn 0 ∷ []) refl (omega arith)
      (refl, tt)
