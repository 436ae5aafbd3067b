-- ===== src/EchoServer/Tests.antt =====
-- The echo server at small inputs.
use linux_cpp_learn.Prelude.{
  ◌+◌, count, ◌≤◌, length, ◌-◌, true, false, List, [], ◌∷◌, ◌++◌, some, ◌≡◌, refl, map,
}
use linux_cpp_learn.TaskPool.Echo
use linux_cpp_learn.TaskPool.Echo.{m_max_tasks}
use linux_cpp_learn.EchoServer.{
  got, eagain, eof, Effect, says, writes, closes, epoll_del, working, Event, accept_fails, accepts,
  client, Server, handle_all,
}
use linux_cpp_learn.EchoServer.Main.{
  Wait, wait_fails, times_out, reports, returns, exits, server_main, events, turned_away,
  server_main_lem,
}
use linux_cpp_learn.EchoServer.Working.{joined, written, EndsWith, working_echoes}
use linux_cpp_learn.EchoServer.Client.{client_main, outgoing}
use linux_cpp_learn.EchoServer.Session.{
  Action, types, client_reads, event, reset, works, left, reading, run, start,
}
use linux_cpp_learn.EchoServer.Echoes.{received, held}
use linux_cpp_learn.EchoServer.Ending.{session_left, session_counts}
use linux_cpp_learn.EchoServer.Hang.{session_hangs}
use linux_cpp_learn.EchoServer.Events.{newcomers, callers, take, handle_all_lem}

-- "hi" and then silence.
hi_then_silence :
    working 5 (got (104 ∷ 105 ∷ []) ∷ eagain ∷ eof ∷ [])
    ≡ some (says (104 ∷ 105 ∷ []) ∷ writes (104 ∷ 105 ∷ []) ∷ closes 5 ∷ epoll_del 5 ∷ [])
unfolding working
hi_then_silence = refl

working_echoes_example :
    (es : List Effect) × (working 5 (map got ((104 ∷ []) ∷ (105 ∷ []) ∷ []) ++ eagain ∷ [])
      ≡ some es)
    × (written es ≡ joined ((104 ∷ []) ∷ (105 ∷ []) ∷ []))
    × EndsWith (closes 5 ∷ epoll_del 5 ∷ []) es
working_echoes_example = working_echoes 5 ((104 ∷ []) ∷ (105 ∷ []) ∷ []) eagain [] tt

abbrev quiet : Server
quiet = record { registered = 6 ∷ []; closed = []; pool = record { m_tasks = []; m_stop = false } }

abbrev batch : List Event
batch = accepts 7 true true ∷ client 6 ∷ accepts 8 true false ∷ accept_fails ∷ []

after_batch : (handle_all batch quiet).pool.m_tasks ≡ some 6 ∷ []
unfolding handle_all Echo.add_task
after_batch = refl

handle_all_lem_example :
    ((handle_all batch quiet).registered ≡ 6 ∷ [] ++ newcomers batch)
    × ((handle_all batch quiet).pool.m_tasks ≡ [] ++ take (m_max_tasks - 0) (callers batch))
handle_all_lem_example = handle_all_lem batch quiet

-- Two lines, each with an event and a task of its own: the first task echoes the first line, the
-- second reads the second line, and the first finds nothing more and closes before the second writes.
abbrev two_tasks : List Action
two_tasks =
    types (104 ∷ 105 ∷ 10 ∷ [])
    ∷ event
    ∷ works 0 9
    ∷ works 0 9
    ∷ client_reads 9
    ∷ types (104 ∷ 111 ∷ 10 ∷ [])
    ∷ event
    ∷ works 0 9
    ∷ works 1 9
    ∷ works 1 9
    ∷ works 0 9
    ∷ reset
    ∷ []

two_tasks-received : received (run two_tasks start).rounds ≡ 104 ∷ 105 ∷ 10 ∷ []
unfolding run
two_tasks-received = refl

two_tasks-lost : (run two_tasks start).lost ≡ 104 ∷ 111 ∷ 10 ∷ []
unfolding run
two_tasks-lost = refl

two_tasks-left : (run two_tasks start).typing ≡ left
unfolding run
two_tasks-left = refl

session_counts_example :
    count 104 (received (run two_tasks start).rounds)
      + (count 104 (run two_tasks start).to_client
          + (count 104 (held (run two_tasks start).tasks)
              + (count 104 (run two_tasks start).to_server + count 104 (run two_tasks start).lost)))
    ≡ count 104 (run two_tasks start).sent
session_counts_example = session_counts 104 two_tasks

session_left_example :
    (cs : List Effect) × (client_main true true 3 (run two_tasks start).rounds ≡ some cs)
    × (written cs ≡ (run two_tasks start).sent)
    × (count 105 (received (run two_tasks start).rounds)
          + (count 105 (run two_tasks start).to_client
              + (count 105 (held (run two_tasks start).tasks)
                  + (count 105 (run two_tasks start).to_server
                      + count 105 (run two_tasks start).lost)))
        ≡ count 105 (written cs))
session_left_example = session_left 105 3 two_tasks two_tasks-left

session_hangs_example :
    run (types [] ∷ event ∷ client_reads 3 ∷ works 0 3 ∷ []) start
    ≡ record start { typing = reading [] }
unfolding outgoing
session_hangs_example = session_hangs [] (event ∷ client_reads 3 ∷ works 0 3 ∷ []) refl

-- Two batches, between which a worker takes a task.
abbrev waits : List Wait
waits =
    reports 0 (accepts 5 true true ∷ accepts 6 true false ∷ [])
    ∷ times_out
    ∷ reports 0 (client 5 ∷ client 5 ∷ [])
    ∷ reports 1 (accepts 7 true true ∷ client 5 ∷ [])
    ∷ []

server_main_lem_example :
    (t : Server) × (server_main true true true true (waits ++ wait_fails ∷ []) ≡ some (exits t))
    × (t.registered ≡ newcomers (events waits))
    × (t.closed ≡ turned_away (events waits))
    × (length t.pool.m_tasks ≤ m_max_tasks)
server_main_lem_example = server_main_lem waits [] (tt, (tt, (tt, (tt, tt))))

waits-queue :
    server_main true true true true (waits ++ wait_fails ∷ [])
    ≡ some (
        exits (record {
          registered = 5 ∷ 7 ∷ [];
          closed = 6 ∷ [];
          pool = record { m_tasks = some 5 ∷ some 5 ∷ []; m_stop = false };
        }))
unfolding server_main handle_all Echo.add_task
waits-queue = refl

no_listen : server_main true true false true waits ≡ some (returns false)
unfolding server_main
no_listen = refl
