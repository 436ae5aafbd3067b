-- ===== src/EchoServer/Events.antt =====
-- A batch of events: what the epoll set and the pool's queue hold after it.
use linux_cpp_learn.Prelude.{
  ℕ, zero, suc, ◌-◌, true, false, List, [], ◌∷◌, ◌++◌, some, arith, ◌≡◌, refl, append_assoc,
  append-nil, length, length-append, ap, ◌∙◌, sym,
}
use linux_cpp_learn.TaskPool.{Task}
use linux_cpp_learn.TaskPool.Echo
use linux_cpp_learn.TaskPool.Echo.{m_max_tasks}
use linux_cpp_learn.EchoServer.{
  Event, accept_fails, accepts, client, Server, submit, handle, handle_all,
}

-- The new sockets of a batch that could be set non-blocking.
unfoldable pub newcomers : List Event → List ℕ
newcomers [] = []
newcomers (accepts fd true true ∷ es) = fd ∷ newcomers es
newcomers (e ∷ es) = newcomers es

-- The clients' sockets with an event, in order.
pub callers : List Event → List (Task ℕ)
callers [] = []
callers (client fd ∷ es) = some fd ∷ callers es
callers (e ∷ es) = callers es

pub take : ℕ → List (Task ℕ) → List (Task ℕ)
take zero xs = []
take (suc n) [] = []
take (suc n) (x ∷ xs) = x ∷ take n xs

abbrev room : Server → ℕ
room s = m_max_tasks - length s.pool.m_tasks

submit-room :
    (s : Server) (fd k : ℕ)
    → room s ≡ suc k
    → ((submit s fd).pool.m_tasks ≡ s.pool.m_tasks ++ some fd ∷ [])
      × (room (submit s fd) ≡ k)
      × ((submit s fd).registered ≡ s.registered)
unfolding submit Echo.add_task
submit-room s fd k h = ground (arith, length-append s.pool.m_tasks (some fd ∷ []))

submit-registered : (s : Server) (fd : ℕ) → (submit s fd).registered ≡ s.registered
unfolding submit Echo.add_task
submit-registered s fd = ground arith

submit-full : (s : Server) (fd : ℕ) → room s ≡ 0 → submit s fd ≡ s
unfolding submit Echo.add_task
submit-full s fd h = ground arith

handle_all-registered :
    (es : List Event) (s : Server) → (handle_all es s).registered ≡ s.registered ++ newcomers es
unfolding handle_all newcomers
handle_all-registered [] s = sym (append-nil s.registered)
handle_all-registered (accept_fails ∷ es) s = handle_all-registered es s
handle_all-registered (accepts fd true true ∷ es) s =
    handle_all-registered es (handle (accepts fd true true) s)
    ∙ append_assoc s.registered (fd ∷ []) (newcomers es)
handle_all-registered (accepts fd true false ∷ es) s =
    handle_all-registered es (handle (accepts fd true false) s)
handle_all-registered (accepts fd false ok ∷ es) s =
    handle_all-registered es (handle (accepts fd false ok) s)
handle_all-registered (client fd ∷ es) s =
    handle_all-registered es (submit s fd)
    ∙ ap (λ (r : List ℕ). r ++ newcomers es) (submit-registered s fd)

handle_all-queue :
    (es : List Event) (s : Server) (k : ℕ)
    → room s ≡ k
    → (handle_all es s).pool.m_tasks ≡ s.pool.m_tasks ++ take k (callers es)
unfolding handle_all callers take
handle_all-queue [] s zero h = sym (append-nil s.pool.m_tasks)
handle_all-queue [] s (suc k) h = sym (append-nil s.pool.m_tasks)
handle_all-queue (accept_fails ∷ es) s k h = handle_all-queue es s k h
handle_all-queue (accepts fd true true ∷ es) s k h =
    handle_all-queue es (handle (accepts fd true true) s) k h
handle_all-queue (accepts fd true false ∷ es) s k h =
    handle_all-queue es (handle (accepts fd true false) s) k h
handle_all-queue (accepts fd false ok ∷ es) s k h =
    handle_all-queue es (handle (accepts fd false ok) s) k h
handle_all-queue (client fd ∷ es) s zero h =
    ap (λ (t : Server). (handle_all es t).pool.m_tasks) (submit-full s fd h)
    ∙ handle_all-queue es s zero h
handle_all-queue (client fd ∷ es) s (suc k) h =
    let (more, less, _) = submit-room s fd k h in
    handle_all-queue es (submit s fd) k less
    ∙ (ap (λ (q : List (Task ℕ)). q ++ take k (callers es)) more
        ∙ append_assoc s.pool.m_tasks (some fd ∷ []) (take k (callers es)))

-- After the loop over a batch of events, with no worker at the queue in between: the epoll set has
-- gained exactly the accepted sockets that could be set non-blocking, in order, and the queue the
-- tasks of the first clients of the batch for which it had room; the events of the other clients
-- leave no trace.
pub handle_all_lem :
    (es : List Event) (s : Server)
    → ((handle_all es s).registered ≡ s.registered ++ newcomers es)
      × ((handle_all es s).pool.m_tasks
          ≡ s.pool.m_tasks ++ take (m_max_tasks - length s.pool.m_tasks) (callers es))
handle_all_lem es s = (handle_all-registered es s, handle_all-queue es s (room s) refl)
