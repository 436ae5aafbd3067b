-- ===== src/EchoServer.antt =====
-- echo_tcpServer/server.cpp: the task that serves a client, and the loop over the events that
-- epoll_wait reports. What the system calls answer is part of the input; what they are called with
-- is the output.
pub mod Working
pub mod Events
pub mod Main
pub mod Client
pub mod Session
pub mod Echoes
pub mod Kept
pub mod Ending
pub mod Hang
mod Tests
use linux_cpp_learn.Prelude.{
  ℕ, zero, suc, ◌+◌, Bool, true, false, not, ◌&&◌, List, [], ◌∷◌, ◌++◌, Option, none, some, ◌==◌,
  leb, if◌then◌else◌, length,
}
use linux_cpp_learn.TaskPool.{Shared, Added, queued, full, stopped}
use linux_cpp_learn.TaskPool.Echo

-- What `read` answers: bytes, EAGAIN, the end of the stream, or another error.
pub data Incoming : Type 0 where
  got : List ℕ → Incoming
  eagain eof failed : Incoming

-- The calls that `working` makes; what `write` answers is not looked at and left out. `says` is the
-- client's line as printf's %s reads it from the buffer; `overruns` is the same where the buffer holds
-- no terminator and %s reads past its end.
pub data Effect : Type 0 where
  says writes : List ℕ → Effect
  overruns closed_note read_error : Effect
  closes epoll_del : ℕ → Effect

-- `char buf[1024]`
abbrev pub buf_size : ℕ
buf_size = 1024

-- The bytes before the first 0, with the note whether one was found.
unfoldable pub c_string : List ℕ → List ℕ × Bool
c_string [] = ([], false)
c_string (b ∷ bs) =
    let (rest, found) = c_string bs in if b == 0 then ([], true) else (b ∷ rest, found)

-- The buffer was zeroed, so it has a terminator unless it was filled to its end.
unfoldable pub say : List ℕ → Effect
unfolding c_string
say bytes =
    let (line, found) = c_string bytes in
    if found then says line else (if leb buf_size (length bytes) then overruns else says line)

unfoldable pub leave : ℕ → List Effect
leave cfd = closes cfd ∷ epoll_del cfd ∷ []

-- `working` over the answers of `read`; `none` where they run out and the loop goes on.
unfoldable pub working : ℕ → List Incoming → Option (List Effect)
unfolding say leave
working cfd [] = none
working cfd (got bytes ∷ rest) = elim (working cfd rest) [
  | none ↦ none
  | some effects ↦ some (say bytes ∷ writes bytes ∷ effects)
]
working cfd (eagain ∷ rest) = some (leave cfd)
working cfd (eof ∷ rest) = some (closed_note ∷ leave cfd)
working cfd (failed ∷ rest) = some (read_error ∷ leave cfd)

-- An event: on the listening socket, with accept's answer and for a new socket the two answers of
-- fcntl (false for -1), or on a client's socket.
pub data Event : Type 0 where
  accept_fails : Event
  accepts : ℕ → Bool → Bool → Event
  client : ℕ → Event

unfoldable pub set_nonblocking : Bool → Bool → Bool
set_nonblocking flags_ok set_ok = if flags_ok then set_ok else false

-- The sockets in the epoll set besides the listening one, those closed by the loop, and the pool's
-- queue, where the task for a socket is its number.
pub record Server : Type 0 where
  pub registered : List ℕ
  pub closed : List ℕ
  pub pool : Shared ℕ

-- The result of addTask is not looked at.
unfoldable pub submit : Server → ℕ → Server
submit s fd = elim (Echo.add_task s.pool (some fd)) [
  | queued p ↦ record s { pool = p }
  | full ↦ s
  | stopped ↦ s
]

unfoldable pub handle : Event → Server → Server
unfolding submit set_nonblocking
handle accept_fails s = s
handle (accepts cfd flags_ok set_ok) s =
    if set_nonblocking flags_ok set_ok
    then record s { registered = s.registered ++ cfd ∷ [] }
    else record s { closed = s.closed ++ cfd ∷ [] }
handle (client fd) s = submit s fd

-- The loop over the events of one epoll_wait.
unfoldable pub handle_all : List Event → Server → Server
unfolding handle
handle_all [] s = s
handle_all (e ∷ es) s = handle_all es (handle e s)
