-- ===== src/EchoServer/Main.antt =====
-- echo_tcpServer/server.cpp: main, over what its system calls answer.
use linux_cpp_learn.Prelude.{
  ℕ, zero, suc, ◌≤◌, Bool, true, false, ◌&&◌, List, [], ◌∷◌, ◌++◌, Option, none, some, ◌≡◌, refl,
  ap, sym, ◌∙◌, append_assoc, append-nil, length, length-append, All, arith, if◌then◌else◌,
}
use linux_cpp_learn.TaskPool.{Task}
use linux_cpp_learn.TaskPool.Echo
use linux_cpp_learn.TaskPool.Echo.{m_max_tasks}
use linux_cpp_learn.EchoServer.{
  Event, accept_fails, accepts, client, Server, submit, handle, handle_all,
}
use linux_cpp_learn.EchoServer.Events.{newcomers, handle_all_lem}

-- What epoll_wait answers: -1, 0, or events, before which the workers took some tasks.
pub data Wait : Type 0 where
  wait_fails times_out : Wait
  reports : ℕ → List Event → Wait

-- How main ends: by a return after a failed call of its set-up, with the note whether the pool was
-- made, or by exit(-1), where the server's state is that of the last event.
pub data Ending : Type 0 where
  returns : Bool → Ending
  exits : Server → Ending

unfoldable pub take_tasks : ℕ → List (Task ℕ) → List (Task ℕ)
take_tasks zero ts = ts
take_tasks (suc n) [] = []
take_tasks (suc n) (t ∷ ts) = take_tasks n ts

unfoldable pub workers_take : ℕ → Server → Server
unfolding take_tasks
workers_take n s = record s {
  pool = record { m_tasks = take_tasks n s.pool.m_tasks; m_stop = s.pool.m_stop };
}

-- The loop of main; `none` where the answers run out and it goes on.
unfoldable pub serve_all : List Wait → Server → Option Ending
unfolding workers_take handle_all
serve_all [] s = none
serve_all (wait_fails ∷ ws) s = some (exits s)
serve_all (times_out ∷ ws) s = serve_all ws s
serve_all (reports n es ∷ ws) s = serve_all ws (handle_all es (workers_take n s))

unfoldable pub server_start : Server
unfolding Echo.create
server_start = record { registered = []; closed = []; pool = Echo.create }

-- `main`, given whether socket, bind, listen and epoll_create1 succeed.
unfoldable pub server_main :
    (socket_ok bind_ok listen_ok epoll_ok : Bool) → List Wait → Option Ending
unfolding serve_all server_start
server_main socket_ok bind_ok listen_ok epoll_ok ws =
    if socket_ok && (bind_ok && listen_ok)
    then (if epoll_ok then serve_all ws server_start else some (returns true))
    else some (returns false)

-- The events of a sequence of answers, in order.
pub events : List Wait → List Event
events [] = []
events (wait_fails ∷ ws) = events ws
events (times_out ∷ ws) = events ws
events (reports n es ∷ ws) = es ++ events ws

-- The sockets that could not be set non-blocking.
pub turned_away : List Event → List ℕ
turned_away [] = []
turned_away (accepts fd true true ∷ es) = turned_away es
turned_away (accepts fd true false ∷ es) = fd ∷ turned_away es
turned_away (accepts fd false ok ∷ es) = fd ∷ turned_away es
turned_away (accept_fails ∷ es) = turned_away es
turned_away (client fd ∷ es) = turned_away es

abbrev pub IsAnswer : Wait → Type 0
IsAnswer wait_fails = ⊥
IsAnswer times_out = Unit
IsAnswer (reports n es) = Unit

newcomers-append : (es fs : List Event) → newcomers (es ++ fs) ≡ newcomers es ++ newcomers fs
unfolding newcomers
newcomers-append [] fs = refl
newcomers-append (accepts fd true true ∷ es) fs = ap (λ xs. fd ∷ xs) (newcomers-append es fs)
newcomers-append (accepts fd true false ∷ es) fs = newcomers-append es fs
newcomers-append (accepts fd false ok ∷ es) fs = newcomers-append es fs
newcomers-append (accept_fails ∷ es) fs = newcomers-append es fs
newcomers-append (client fd ∷ es) fs = newcomers-append es fs

turned_away-append :
    (es fs : List Event) → turned_away (es ++ fs) ≡ turned_away es ++ turned_away fs
unfolding turned_away
turned_away-append [] fs = refl
turned_away-append (accepts fd true true ∷ es) fs = turned_away-append es fs
turned_away-append (accepts fd true false ∷ es) fs = ap (λ xs. fd ∷ xs) (turned_away-append es fs)
turned_away-append (accepts fd false ok ∷ es) fs = ap (λ xs. fd ∷ xs) (turned_away-append es fs)
turned_away-append (accept_fails ∷ es) fs = turned_away-append es fs
turned_away-append (client fd ∷ es) fs = turned_away-append es fs

submit-closed : (s : Server) (fd : ℕ) → (submit s fd).closed ≡ s.closed
unfolding submit Echo.add_task
submit-closed s fd = ground arith

handle_all-closed :
    (es : List Event) (s : Server) → (handle_all es s).closed ≡ s.closed ++ turned_away es
unfolding handle_all turned_away
handle_all-closed [] s = sym (append-nil s.closed)
handle_all-closed (accepts fd true true ∷ es) s =
    handle_all-closed es (handle (accepts fd true true) s)
handle_all-closed (accepts fd true false ∷ es) s =
    handle_all-closed es (handle (accepts fd true false) s)
    ∙ append_assoc s.closed (fd ∷ []) (turned_away es)
handle_all-closed (accepts fd false ok ∷ es) s =
    handle_all-closed es (handle (accepts fd false ok) s)
    ∙ append_assoc s.closed (fd ∷ []) (turned_away es)
handle_all-closed (accept_fails ∷ es) s = handle_all-closed es s
handle_all-closed (client fd ∷ es) s =
    handle_all-closed es (submit s fd) ∙ ap (λ xs. xs ++ turned_away es) (submit-closed s fd)

abbrev Fits : Server → Type 0
Fits s = length s.pool.m_tasks ≤ m_max_tasks

submit-Fits : (s : Server) (fd : ℕ) → Fits s → Fits (submit s fd)
unfolding submit Echo.add_task
submit-Fits s fd h = ground (arith, h, length-append s.pool.m_tasks (some fd ∷ []))

handle_all-Fits : (es : List Event) (s : Server) → Fits s → Fits (handle_all es s)
unfolding handle_all
handle_all-Fits [] s h = h
handle_all-Fits (accepts fd true true ∷ es) s h =
    handle_all-Fits es (handle (accepts fd true true) s) h
handle_all-Fits (accepts fd true false ∷ es) s h =
    handle_all-Fits es (handle (accepts fd true false) s) h
handle_all-Fits (accepts fd false ok ∷ es) s h =
    handle_all-Fits es (handle (accepts fd false ok) s) h
handle_all-Fits (accept_fails ∷ es) s h = handle_all-Fits es s h
handle_all-Fits (client fd ∷ es) s h = handle_all-Fits es (submit s fd) (submit-Fits s fd h)

take_tasks-length : (n : ℕ) (ts : List (Task ℕ)) → length (take_tasks n ts) ≤ length ts
unfolding take_tasks
take_tasks-length zero ts = omega arith
take_tasks-length (suc n) [] = omega arith
take_tasks-length (suc n) (t ∷ ts) = omega (arith, take_tasks-length n ts)

-- What the server's state is to a sequence of events since s.
record Served (s t : Server) (es : List Event) : Type 0 where
  registered_t : t.registered ≡ s.registered ++ newcomers es
  closed_t : t.closed ≡ s.closed ++ turned_away es
  fits : Fits t

serve_all_lem :
    (ws rest : List Wait) (s : Server)
    → All IsAnswer ws
    → Fits s
    → (t : Server) × (serve_all (ws ++ wait_fails ∷ rest) s ≡ some (exits t))
      × Served s t (events ws)
unfolding serve_all events newcomers turned_away
serve_all_lem [] rest s h f = (
  s,
  refl,
  record {
    registered_t = sym (append-nil s.registered);
    closed_t = sym (append-nil s.closed);
    fits = f;
  },
)
serve_all_lem (wait_fails ∷ ws) rest s (h, hs) f = absurd h
serve_all_lem (times_out ∷ ws) rest s (h, hs) f = serve_all_lem ws rest s hs f
serve_all_lem (reports n es ∷ ws) rest s (h, hs) f =
    let before = workers_take n s in
    let f1 : Fits before = omega (arith, f, take_tasks-length n s.pool.m_tasks) in
    let (t, e, k) =
      serve_all_lem ws rest (handle_all es before) hs (handle_all-Fits es before f1) in
    let (reg, _) = handle_all_lem es before in
    (
      t,
      e,
      record {
        registered_t =
            k.registered_t
            ∙ (ap (λ xs. xs ++ newcomers (events ws)) reg
                ∙ (append_assoc s.registered (newcomers es) (newcomers (events ws))
                    ∙ ap (λ xs. s.registered ++ xs) (sym (newcomers-append es (events ws)))));
        closed_t =
            k.closed_t
            ∙ (ap (λ xs. xs ++ turned_away (events ws)) (handle_all-closed es before)
                ∙ (append_assoc s.closed (turned_away es) (turned_away (events ws))
                    ∙ ap (λ xs. s.closed ++ xs) (sym (turned_away-append es (events ws)))));
        fits = k.fits;
      },
    )

-- The server, where its set-up succeeds, until epoll_wait fails, whatever events come before in
-- whatever batches and however many tasks the workers take in between: main ends by exit, after it has
-- handled all the events. The epoll set has then gained exactly the accepted sockets that could be set
-- non-blocking, in order, those that could not be are closed, in order, and the queue is within the
-- pool's limit.
pub server_main_lem :
    (ws rest : List Wait)
    → All IsAnswer ws
    → (t : Server) × (server_main true true true true (ws ++ wait_fails ∷ rest) ≡ some (exits t))
      × (t.registered ≡ newcomers (events ws))
      × (t.closed ≡ turned_away (events ws))
      × (length t.pool.m_tasks ≤ m_max_tasks)
unfolding server_main server_start
server_main_lem ws rest h =
    let (t, e, k) = serve_all_lem ws rest server_start h (omega arith) in
    (t, e, k.registered_t, k.closed_t, k.fits)
