-- ===== src/EchoServer/Ending.antt =====
-- echo_tcpServer: where the bytes of a client are, and what its loop has done when it is over.
use linux_cpp_learn.Prelude.{
  ◌+◌, count, ℕ, true, ◌≡◌, refl, List, [], ◌∷◌, ◌++◌, append-nil, Option, some, All, ap, sym, ◌∙◌,
}
use linux_cpp_learn.EchoServer.{
  Incoming, got, eagain, eof, failed, Effect, writes, read_error, closes, say,
}
use linux_cpp_learn.EchoServer.Working.{written, IsStop, written-say}
use linux_cpp_learn.EchoServer.Client.{Round, outgoing, after_read, client_loop, client_main}
use linux_cpp_learn.EchoServer.Session.{Typing, at_prompt, reading, left, Action, run, start}
use linux_cpp_learn.EchoServer.Echoes.{received, uttered, open_line, held, IsGot, Rounds, Keeps}
use linux_cpp_learn.EchoServer.Kept.{Keeps-run}

start-Keeps : Keeps start
unfolding count
start-Keeps = record { counted = λ b. refl; said = refl; answered = tt }

-- The loop over rounds that were all answered, and one more that stops it.
last_round :
    (sockfd : ℕ) (r : Round) (reply : Incoming)
    → r.reply ≡ reply
    → IsStop reply
    → (cs : List Effect) × (client_loop sockfd (r ∷ []) ≡ some cs) × (written cs ≡ outgoing r.line)
unfolding client_loop after_read
last_round sockfd r (got bytes) e h = absurd h
last_round sockfd r eof e h =
    (writes (outgoing r.line) ∷ closes sockfd ∷ [], rw e refl, append-nil (outgoing r.line))
last_round sockfd r eagain e h = (
  writes (outgoing r.line) ∷ read_error ∷ closes sockfd ∷ [],
  rw e refl,
  append-nil (outgoing r.line),
)
last_round sockfd r failed e h = (
  writes (outgoing r.line) ∷ read_error ∷ closes sockfd ∷ [],
  rw e refl,
  append-nil (outgoing r.line),
)

after_read-got :
    (sockfd : ℕ) (reply : Incoming) (bytes : List ℕ) (rest : Option (List Effect))
    (cs : List Effect)
    → reply ≡ got bytes
    → rest ≡ some cs
    → after_read sockfd reply rest ≡ some (say bytes ∷ cs)
unfolding after_read
after_read-got sockfd reply bytes rest cs g e = rw (g, e) refl

client_loop-front :
    (sockfd : ℕ) (front : List Round) (r : Round)
    → All IsGot front
    → IsStop r.reply
    → (cs : List Effect) × (client_loop sockfd (front ++ r ∷ []) ≡ some cs)
      × (written cs ≡ uttered (front ++ r ∷ []))
unfolding client_loop after_read
client_loop-front sockfd [] r h stop =
    let (cs, e, w) = last_round sockfd r r.reply refl stop in
    (cs, e, w ∙ sym (append-nil (outgoing r.line)))
client_loop-front sockfd (q ∷ front) r ((bytes, g), h) stop =
    let (cs, e, w) = client_loop-front sockfd front r h stop in
    (
      writes (outgoing q.line) ∷ say bytes ∷ cs,
      rw
          (
            client_loop,
            after_read-got sockfd q.reply bytes (client_loop sockfd (front ++ r ∷ [])) cs g e,
          )
          refl,
      ap (λ bs. outgoing q.line ++ bs) (written-say bytes cs ∙ w),
    )

-- The loop of a client that left.
left-Rounds :
    (sockfd : ℕ) (p : Typing) (rs : List Round)
    → p ≡ left
    → Rounds p rs
    → (cs : List Effect) × (client_loop sockfd rs ≡ some cs) × (written cs ≡ uttered rs)
left-Rounds sockfd at_prompt rs e h = cc
left-Rounds sockfd (reading line) rs e h = cc
left-Rounds sockfd left rs e (front, r, whole, g, stop) =
    let (cs, c, w) = client_loop-front sockfd front r g stop in
    (cs, ap (λ xs. client_loop sockfd xs) whole ∙ c, w ∙ ap uttered (sym whole))

-- Whatever the order in which a client and the tasks that serve it act, also several tasks at one time
-- on its socket, and however many bytes each read finds and each write takes: each byte was sent as
-- often as the client has read it, it is under way to the client, a task has read and not yet written
-- it, it is under way to the server, and it was lost, at the closed socket or in a write that did not
-- take it, all together. No byte is echoed that was not sent, and none twice.
pub session_counts :
    (b : ℕ) (acts : List Action)
    → let s = run acts start in
      count b (received s.rounds)
        + (count b s.to_client + (count b (held s.tasks) + (count b s.to_server + count b s.lost)))
      ≡ count b s.sent
session_counts b acts = (Keeps-run acts start start-Keeps).counted b

-- Whatever the order in which a client and the tasks that serve it act, once the client has left its
-- loop, its main, where socket and connect succeeded, over the lines that were typed and the answers
-- that its reads got, ends and has written all the bytes that were sent, in order; and each byte that
-- it wrote is as often among those that it has read, that are under way to it, that a task has read
-- and not yet written, that are under way to the server, and that were lost, all together.
pub session_left :
    (b sockfd : ℕ) (acts : List Action)
    → (run acts start).typing ≡ left
    → let s = run acts start in
      (cs : List Effect) × (client_main true true sockfd s.rounds ≡ some cs)
      × (written cs ≡ s.sent)
      × (count b (received s.rounds)
            + (count b s.to_client
                + (count b (held s.tasks) + (count b s.to_server + count b s.lost)))
          ≡ count b (written cs))
unfolding client_main
session_left b sockfd acts gone =
    let s = run acts start in
    let k = Keeps-run acts start start-Keeps in
    let (cs, c, w) = left-Rounds sockfd s.typing s.rounds gone k.answered in
    let said : written cs ≡ s.sent =
      w
      ∙ (sym (append-nil (uttered s.rounds))
          ∙ (ap (λ p. uttered s.rounds ++ open_line p) (sym gone) ∙ k.said)) in
    (cs, c, said, session_counts b acts ∙ ap (count b) (sym said))
