-- ===== src/EchoServer/Session.antt =====
-- echo_tcpServer: a client and the tasks that serve it, joined by two streams of bytes. A step is what
-- one side does next; how many bytes a `read` finds and a `write` takes is part of the step. That a
-- write after a reset may end the client by a signal is left out, and so is a socket of another client
-- that gets the number of the closed one while a task still uses it.
use linux_cpp_learn.Prelude.{
  ℕ, zero, suc, ◌%◌, Bool, true, false, List, [], ◌∷◌, ◌++◌, Option, none, some, is_empty,
  if◌then◌else◌,
}
use linux_cpp_learn.EchoServer.{got, eof, failed, buf_size}
use linux_cpp_learn.EchoServer.Client.{Round, outgoing}

-- A task in `working`: before `read`, between `read` and `write` with what was read, after the loop, or
-- after the close.
pub data Task : Type 0 where
  looping : Task
  holding : List ℕ → Task
  leaving gone : Task

-- The client: before fgets, in `read` after a line was sent, or after its loop.
pub data Typing : Type 0 where
  at_prompt : Typing
  reading : List ℕ → Typing
  left : Typing

-- `is_open` is the server's side of the connection. `to_server` and `to_client` are the bytes under
-- way, `lost` those that came to the closed socket or that a `write` did not take, and `sent` all that
-- the client sent. `rounds` are the client's, in order.
pub record Session : Type 0 where
  pub typing : Typing
  pub is_open : Bool
  pub tasks : List Task
  pub to_server : List ℕ
  pub to_client : List ℕ
  pub sent : List ℕ
  pub lost : List ℕ
  pub rounds : List Round

-- `works i n` is the next call of the task number i, in which `read` or `write` is given n.
pub data Action : Type 0 where
  types : List ℕ → Action
  client_reads : ℕ → Action
  event : Action
  reset : Action
  works : (task n : ℕ) → Action

-- The first n bytes and the rest.
unfoldable pub cut : ℕ → List ℕ → List ℕ × List ℕ
cut zero bs = ([], bs)
cut (suc n) [] = ([], [])
cut (suc n) (b ∷ bs) = let (front, rest) = cut n bs in (b ∷ front, rest)

-- fgets and write.
unfoldable pub send : Bool → List ℕ → Session → Session
unfolding outgoing
send false line s = record s {
  typing = reading line;
  sent = s.sent ++ outgoing line;
  lost = s.lost ++ outgoing line;
}
send true line s = record s {
  typing = reading line;
  sent = s.sent ++ outgoing line;
  to_server = s.to_server ++ outgoing line;
}

unfoldable pub type_line : Typing → List ℕ → Session → Session
unfolding send
type_line at_prompt line s = send s.is_open line s
type_line (reading old) line s = s
type_line left line s = s

-- The end of the stream is there once the server has closed its side and all was read; a client that
-- finds no bytes before waits.
unfoldable pub at_end : Bool → List ℕ → Session → Session
at_end true line s = s
at_end false line s = record s {
  typing = left;
  rounds = s.rounds ++ record { line = line; reply = eof } ∷ [];
}

-- `read` finds 1 to 1024 bytes, as many as there are at most.
unfoldable pub read_reply : Typing → ℕ → Session → Session
unfolding at_end cut
read_reply at_prompt n s = s
read_reply left n s = s
read_reply (reading line) n s =
    let (front, rest) = cut (suc (n % buf_size)) s.to_client in
    if is_empty s.to_client then at_end s.is_open line s else record s {
      typing = at_prompt;
      to_client = rest;
      rounds = s.rounds ++ record { line = line; reply = got front } ∷ [];
    }

-- Bytes that came to a closed socket are answered by a reset, at which `read` fails.
unfoldable pub read_reset : Typing → Bool → Session → Session
read_reset (reading line) false s = if is_empty s.lost then s else record s {
  typing = left;
  rounds = s.rounds ++ record { line = line; reply = failed } ∷ [];
}
read_reset (reading line) true s = s
read_reset at_prompt v s = s
read_reset left v s = s

-- epoll reports the socket, to which something was sent, and a worker takes the new task, whether or
-- not another task serves the socket. An event may come late, when another task has read the bytes.
unfoldable pub notify : Session → Session
notify s = if is_empty s.sent then s else record s { tasks = looping ∷ s.tasks }

unfoldable pub task_at : ℕ → List Task → Option Task
task_at i [] = none
task_at zero (t ∷ ts) = some t
task_at (suc i) (t ∷ ts) = task_at i ts

unfoldable pub set_task : ℕ → Task → List Task → List Task
set_task i u [] = []
set_task zero u (t ∷ ts) = u ∷ ts
set_task (suc i) u (t ∷ ts) = t ∷ set_task i u ts

-- `read`: bytes, EAGAIN, or an error where another task has closed the socket.
unfoldable pub task_read : Bool → ℕ → ℕ → Session → Session
unfolding cut set_task
task_read false i n s = record s { tasks = set_task i leaving s.tasks }
task_read true i n s =
    let (front, rest) = cut (suc (n % buf_size)) s.to_server in
    if is_empty s.to_server
    then record s { tasks = set_task i leaving s.tasks }
    else record s { to_server = rest; tasks = set_task i (holding front) s.tasks }

-- `write`, which takes n of the bytes at most, and none where another task has closed the socket; what
-- it answers is not looked at.
unfoldable pub task_write : Bool → ℕ → List ℕ → ℕ → Session → Session
unfolding cut set_task
task_write false i bytes n s = record s {
  lost = s.lost ++ bytes;
  tasks = set_task i looping s.tasks;
}
task_write true i bytes n s =
    let (front, rest) = cut n bytes in
    record s {
      to_client = s.to_client ++ front;
      lost = s.lost ++ rest;
      tasks = set_task i looping s.tasks;
    }

-- The next call of a task.
unfoldable pub serve : Option Task → ℕ → ℕ → Session → Session
unfolding task_read task_write set_task
serve none i n s = s
serve (some looping) i n s = task_read s.is_open i n s
serve (some (holding bytes)) i n s = task_write s.is_open i bytes n s
serve (some leaving) i n s = record s {
  is_open = false;
  to_server = [];
  lost = s.lost ++ s.to_server;
  tasks = set_task i gone s.tasks;
}
serve (some gone) i n s = s

unfoldable pub step : Action → Session → Session
unfolding type_line read_reply read_reset notify serve task_at
step (types line) s = type_line s.typing line s
step (client_reads n) s = read_reply s.typing n s
step reset s = read_reset s.typing s.is_open s
step event s = notify s
step (works i n) s = serve (task_at i s.tasks) i n s

unfoldable pub run : List Action → Session → Session
unfolding step
run [] s = s
run (a ∷ rest) s = run rest (step a s)

abbrev pub start : Session
start = record {
  typing = at_prompt;
  is_open = true;
  tasks = [];
  to_server = [];
  to_client = [];
  sent = [];
  lost = [];
  rounds = [];
}
