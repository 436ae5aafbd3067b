-- ===== src/EchoServer/Working.antt =====
-- What a client gets back, and how its task ends.
use linux_cpp_learn.Prelude.{
  ℕ, false, List, [], ◌∷◌, ◌++◌, some, arith, ◌≡◌, ◌≢◌, refl, All, length, map, ap, ◌∙◌,
}
use linux_cpp_learn.EchoServer.{
  Incoming, got, eagain, eof, failed, Effect, writes, overruns, closed_note, read_error, closes,
  epoll_del, buf_size, c_string, say, working,
}

-- The bytes of a list of chunks.
abbrev pub joined : List (List ℕ) → List ℕ
joined [] = []
joined (c ∷ cs) = c ++ joined cs

-- The bytes that are written to the client.
abbrev pub written : List Effect → List ℕ
written [] = []
written (writes bytes ∷ es) = bytes ++ written es
written (e ∷ es) = written es

abbrev pub IsStop : Incoming → Type 0
IsStop (got bytes) = ⊥
IsStop eagain = Unit
IsStop eof = Unit
IsStop failed = Unit

-- The calls with which a list of effects ends.
abbrev pub EndsWith : List Effect → List Effect → Type 0
EndsWith tail es = (front : List Effect) × (es ≡ front ++ tail)

pub written-say : (bytes : List ℕ) (es : List Effect) → written (say bytes ∷ es) ≡ written es
unfolding say
written-say bytes es = ground arith

stop_alone :
    (cfd : ℕ) (stop : Incoming) (rest : List Incoming)
    → IsStop stop
    → (es : List Effect) × (working cfd (stop ∷ rest) ≡ some es)
      × (written es ≡ [])
      × EndsWith (closes cfd ∷ epoll_del cfd ∷ []) es
unfolding working
stop_alone cfd (got bytes) rest h = absurd h
stop_alone cfd eagain rest h = (_, refl, refl, ([], refl))
stop_alone cfd eof rest h = (_, refl, refl, (closed_note ∷ [], refl))
stop_alone cfd failed rest h = (_, refl, refl, (read_error ∷ [], refl))

-- Whatever chunks of bytes arrive before read() answers EAGAIN, the end of the stream or an error:
-- the task ends, its calls of write had exactly the bytes that it read, in order, and its last calls
-- close the client's socket and take it out of the epoll set, also where the client only paused. How
-- much of the bytes a write takes is not part of it.
pub working_echoes :
    (cfd : ℕ) (chunks : List (List ℕ)) (stop : Incoming) (rest : List Incoming)
    → IsStop stop
    → (es : List Effect) × (working cfd (map got chunks ++ stop ∷ rest) ≡ some es)
      × (written es ≡ joined chunks)
      × EndsWith (closes cfd ∷ epoll_del cfd ∷ []) es
unfolding working
working_echoes cfd [] stop rest h = stop_alone cfd stop rest h
working_echoes cfd (c ∷ chunks) stop rest h =
    let (es, e, same, (front, ends)) = working_echoes cfd chunks stop rest h in
    (
      say c ∷ writes c ∷ es,
      rw (e, working) refl,
      written-say c (writes c ∷ es) ∙ ap (◌++◌ c) same,
      (say c ∷ writes c ∷ front, ap (λ t. say c ∷ writes c ∷ t) ends),
    )

c_string-nonzero : (bytes : List ℕ) → All (λ b. b ≢ 0) bytes → (c_string bytes).1 ≡ false
unfolding c_string
c_string-nonzero [] h = refl
c_string-nonzero (b ∷ bs) h = ground (arith, c_string-nonzero bs h.1)

-- Where read() fills the buffer with bytes that are not 0, the printf that follows reads past the
-- buffer's end.
pub say_overruns :
    (bytes : List ℕ) → length bytes ≡ buf_size → All (λ b. b ≢ 0) bytes → say bytes ≡ overruns
unfolding say
say_overruns bytes full nonzero = ground (arith, c_string-nonzero bytes nonzero)
