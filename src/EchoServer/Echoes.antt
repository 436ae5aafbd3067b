-- ===== src/EchoServer/Echoes.antt =====
-- What a client of the echo server gets back: the bytes of a session, wherever they are.
use linux_cpp_learn.Prelude.{
  ◌+◌, count, count-++, arith, some, ℕ, zero, suc, ◌≡◌, refl, List, [], ◌∷◌, ◌++◌, append-nil,
  append_assoc, All, ap, sym, ◌∙◌,
}
use linux_cpp_learn.EchoServer.{Incoming, got, eagain, eof, failed}
use linux_cpp_learn.EchoServer.Working.{IsStop}
use linux_cpp_learn.EchoServer.Client.{Round, outgoing}
use linux_cpp_learn.EchoServer.Session.{
  Task, looping, holding, leaving, gone, Typing, at_prompt, reading, left, Session, cut, task_at,
  set_task,
}

-- The bytes that the client read, and those that it sent in its rounds.
abbrev pub reply_bytes : Incoming → List ℕ
reply_bytes (got bytes) = bytes
reply_bytes eagain = []
reply_bytes eof = []
reply_bytes failed = []

abbrev pub received : List Round → List ℕ
received [] = []
received (r ∷ rs) = reply_bytes r.reply ++ received rs

abbrev pub uttered : List Round → List ℕ
uttered [] = []
uttered (r ∷ rs) = outgoing r.line ++ uttered rs

-- The line that waits for an answer.
abbrev pub open_line : Typing → List ℕ
open_line at_prompt = []
open_line (reading line) = outgoing line
open_line left = []

-- The bytes that the tasks have read and not yet written.
abbrev pub task_bytes : Task → List ℕ
task_bytes looping = []
task_bytes (holding bytes) = bytes
task_bytes leaving = []
task_bytes gone = []

abbrev pub held : List Task → List ℕ
held [] = []
held (t ∷ ts) = task_bytes t ++ held ts

abbrev pub IsGot : Round → Type 0
IsGot r = (bytes : List ℕ) × (r.reply ≡ got bytes)

-- The rounds of the client's loop so far.
abbrev pub Rounds : Typing → List Round → Type 0
Rounds at_prompt rs = All IsGot rs
Rounds (reading line) rs = All IsGot rs
Rounds left rs =
    (front : List Round) × (r : Round) × (rs ≡ front ++ r ∷ []) × All IsGot front × IsStop r.reply

-- How often the byte b was sent, and how often it is somewhere.
abbrev pub Counted : ℕ → Session → Type 0
Counted b s =
    count b (received s.rounds)
      + (count b s.to_client + (count b (held s.tasks) + (count b s.to_server + count b s.lost)))
    ≡ count b s.sent

pub record Keeps (s : Session) : Type 0 where
  pub counted : (b : ℕ) → Counted b s
  pub said : uttered s.rounds ++ open_line s.typing ≡ s.sent
  pub answered : Rounds s.typing s.rounds

pub cut-join : (n : ℕ) (bs : List ℕ) → (cut n bs).0 ++ (cut n bs).1 ≡ bs
unfolding cut
cut-join zero bs = refl
cut-join (suc n) [] = refl
cut-join (suc n) (b ∷ bs) = ap (λ xs. b ∷ xs) (cut-join n bs)

pub received-end :
    (rs : List Round) (r : Round) → received (rs ++ r ∷ []) ≡ received rs ++ reply_bytes r.reply
received-end [] r = append-nil (reply_bytes r.reply)
received-end (q ∷ rs) r =
    ap (λ xs. reply_bytes q.reply ++ xs) (received-end rs r)
    ∙ sym (append_assoc (reply_bytes q.reply) (received rs) (reply_bytes r.reply))

pub uttered-end :
    (rs : List Round) (r : Round) → uttered (rs ++ r ∷ []) ≡ uttered rs ++ outgoing r.line
uttered-end [] r = append-nil (outgoing r.line)
uttered-end (q ∷ rs) r =
    ap (λ xs. outgoing q.line ++ xs) (uttered-end rs r)
    ∙ sym (append_assoc (outgoing q.line) (uttered rs) (outgoing r.line))

pub All-end : (rs : List Round) (r : Round) → All IsGot rs → IsGot r → All IsGot (rs ++ r ∷ [])
All-end [] r h g = (g, tt)
All-end (q ∷ rs) r (h, hs) g = (h, All-end rs r hs g)

pub count-cut : (b n : ℕ) (bs : List ℕ) → count b (cut n bs).0 + count b (cut n bs).1 ≡ count b bs
count-cut b n bs = sym (count-++ b (cut n bs).0 (cut n bs).1) ∙ ap (count b) (cut-join n bs)

pub count-received :
    (b : ℕ) (rs : List Round) (r : Round)
    → count b (received (rs ++ r ∷ [])) ≡ count b (received rs) + count b (reply_bytes r.reply)
count-received b rs r =
    ap (count b) (received-end rs r) ∙ count-++ b (received rs) (reply_bytes r.reply)

-- A task that is at another point: what it held before is gone, what it holds now is there.
pub count-set_task :
    (b i : ℕ) (t u : Task) (ts : List Task)
    → task_at i ts ≡ some t
    → count b (held (set_task i u ts)) + count b (task_bytes t)
      ≡ count b (held ts) + count b (task_bytes u)
unfolding task_at set_task
count-set_task b i t u [] e = cc
count-set_task b zero t u (x ∷ ts) e =
    let same : x ≡ t = cc in
    rw (count-++ b (task_bytes u) (held ts), count-++ b (task_bytes x) (held ts), same)
      (omega arith)
count-set_task b (suc i) t u (x ∷ ts) e =
    let ih = count-set_task b i t u ts e in
    rw (count-++ b (task_bytes x) (held (set_task i u ts)), count-++ b (task_bytes x) (held ts))
      (omega arith)
