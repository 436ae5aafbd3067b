-- ===== src/EchoServer/Client.antt =====
-- echo_tcpServer/client.cpp: main, over what the system calls answer and the lines that are typed.
use linux_cpp_learn.Prelude.{ℕ, Bool, List, [], ◌∷◌, Option, none, some, if◌then◌else◌, ◌&&◌}
use linux_cpp_learn.EchoServer.{
  Incoming, got, eagain, eof, failed, Effect, writes, read_error, closes, c_string, say,
}

-- The bytes that `write` sends: those of writeBuf before the first 0. writeBuf was zeroed, and fgets
-- leaves it so at the end of the input.
unfoldable pub outgoing : List ℕ → List ℕ
unfolding c_string
outgoing line = (c_string line).0

-- A round of the loop: the line that fgets puts in writeBuf, and what `read` answers.
pub record Round : Type 0 where
  pub line : List ℕ
  pub reply : Incoming

-- The loop after the write, by the answer of `read`, with the rounds that follow.
unfoldable pub after_read : ℕ → Incoming → Option (List Effect) → Option (List Effect)
unfolding say
after_read sockfd (got bytes) rest = elim rest [ none ↦ none | some es ↦ some (say bytes ∷ es) ]
after_read sockfd eof rest = some (closes sockfd ∷ [])
after_read sockfd eagain rest = some (read_error ∷ closes sockfd ∷ [])
after_read sockfd failed rest = some (read_error ∷ closes sockfd ∷ [])

-- The loop and the close; `none` where the rounds run out and the loop goes on.
unfoldable pub client_loop : ℕ → List Round → Option (List Effect)
unfolding outgoing after_read
client_loop sockfd [] = none
client_loop sockfd (r ∷ rs) = elim (after_read sockfd r.reply (client_loop sockfd rs)) [
  | none ↦ none
  | some es ↦ some (writes (outgoing r.line) ∷ es)
]

-- `main`, given whether `socket` and `connect` succeed; where one fails, it exits.
unfoldable pub client_main : (socket_ok connect_ok : Bool) → ℕ → List Round → Option (List Effect)
unfolding client_loop
client_main socket_ok connect_ok sockfd rounds =
    if socket_ok && connect_ok then client_loop sockfd rounds else some []
