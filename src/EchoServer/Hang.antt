-- ===== src/EchoServer/Hang.antt =====
-- echo_tcpServer/client.cpp: the input that ends before the first line.
use linux_cpp_learn.Prelude.{ℕ, ◌≡◌, refl, List, [], ◌∷◌, ap, ◌∙◌}
use linux_cpp_learn.EchoServer.Client.{outgoing}
use linux_cpp_learn.EchoServer.Session.{
  Session, reading, Action, types, client_reads, event, reset, works, send, type_line, at_end,
  read_reply, read_reset, notify, task_at, serve, step, run, start,
}

-- The client waits for an answer to nothing.
abbrev stalled : List ℕ → Session
stalled line = record start { typing = reading line }

stalled-types : (line : List ℕ) → outgoing line ≡ [] → step (types line) start ≡ stalled line
unfolding step type_line send
stalled-types line h = rw h refl

stalled-step : (a : Action) (line : List ℕ) → step a (stalled line) ≡ stalled line
unfolding step type_line read_reply at_end read_reset notify task_at serve
stalled-step (types new) line = refl
stalled-step (client_reads n) line = refl
stalled-step event line = refl
stalled-step reset line = refl
stalled-step (works i n) line = refl

stalled-run : (acts : List Action) (line : List ℕ) → run acts (stalled line) ≡ stalled line
unfolding run
stalled-run [] line = refl
stalled-run (a ∷ acts) line = ap (run acts) (stalled-step a line) ∙ stalled-run acts line

-- If there is nothing to send in what the client first takes from its input, as at the end of the
-- input, no action, of the client, of the server or of the system, changes the session any more: the
-- client stays in `read` and no task is taken up.
pub session_hangs :
    (line : List ℕ) (acts : List Action)
    → outgoing line ≡ []
    → run (types line ∷ acts) start ≡ record start { typing = reading line }
unfolding run
session_hangs line acts h = ap (run acts) (stalled-types line h) ∙ stalled-run acts line
