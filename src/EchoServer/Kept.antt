-- ===== src/EchoServer/Kept.antt =====
-- Each step of a session of the echo server keeps the bytes: none is made up and none written twice.
pub mod Input
use linux_cpp_learn.Prelude.{
  ℕ, suc, ◌+◌, ◌%◌, ◌≡◌, refl, Bool, true, false, List, [], ◌∷◌, ◌++◌, Option, some, none, is_empty,
  count, count-++, arith, ap, sym, ◌∙◌, Bool-cases, Option-cases, inl, inr,
}
use linux_cpp_learn.EchoServer.{buf_size}
use linux_cpp_learn.EchoServer.Session.{
  Task, looping, holding, leaving, gone, Session, Action, types, client_reads, event, reset, works,
  cut, notify, task_at, set_task, task_read, task_write, serve, step, run,
}
use linux_cpp_learn.EchoServer.Echoes.{held, task_bytes, Counted, Keeps, count-cut, count-set_task}
use linux_cpp_learn.EchoServer.Kept.Input.{Keeps-type_line, Keeps-read_reset, Keeps-read_reply}

Keeps-notify : (s : Session) → Keeps s → Keeps (notify s)
unfolding notify
Keeps-notify s k = elim (Bool-cases (is_empty s.sent)) [
  | inl nothing ↦ rw nothing k
  | inr bytes ↦ rw bytes (record { counted = k.counted; said = k.said; answered = k.answered })
]

-- A task that held nothing goes on and holds nothing.
count-same :
    (b i : ℕ) (t u : Task) (ts : List Task)
    → task_at i ts ≡ some t
    → task_bytes t ≡ []
    → task_bytes u ≡ []
    → count b (held (set_task i u ts)) ≡ count b (held ts)
unfolding count
count-same b i t u ts e old new =
    let there = count-set_task b i t u ts e in
    let before : count b (task_bytes t) ≡ 0 = ap (count b) old in
    let after : count b (task_bytes u) ≡ 0 = ap (count b) new in omega arith

Keeps-leaving :
    (i : ℕ) (s : Session)
    → task_at i s.tasks ≡ some looping
    → Keeps s
    → Keeps (record s { tasks = set_task i leaving s.tasks })
Keeps-leaving i s e k = record {
  counted = λ b.
      let before : Counted b s = k.counted b in
      let same = count-same b i looping leaving s.tasks e refl refl in omega arith;
  said = k.said;
  answered = k.answered;
}

Keeps-task_read :
    (v : Bool) (i n : ℕ) (s : Session)
    → task_at i s.tasks ≡ some looping
    → Keeps s
    → Keeps (task_read v i n s)
unfolding task_read count
Keeps-task_read false i n s e k = Keeps-leaving i s e k
Keeps-task_read true i n s e k = elim (Bool-cases (is_empty s.to_server)) [
  | inl nothing ↦ rw nothing (Keeps-leaving i s e k)
  | inr bytes ↦
      let m = suc (n % buf_size) in
      rw bytes (record {
        counted = λ b.
            let before : Counted b s = k.counted b in
            let parts = count-cut b m s.to_server in
            let there = count-set_task b i looping (holding (cut m s.to_server).0) s.tasks e in
            omega arith;
        said = k.said;
        answered = k.answered;
      })
]

Keeps-task_write :
    (v : Bool) (i : ℕ) (bytes : List ℕ) (n : ℕ) (s : Session)
    → task_at i s.tasks ≡ some (holding bytes)
    → Keeps s
    → Keeps (task_write v i bytes n s)
unfolding task_write count
Keeps-task_write false i bytes n s e k = record {
  counted = λ b.
      let before : Counted b s = k.counted b in
      let there = count-set_task b i (holding bytes) looping s.tasks e in
      rw (count-++ b s.lost bytes) (omega arith);
  said = k.said;
  answered = k.answered;
}
Keeps-task_write true i bytes n s e k = record {
  counted = λ b.
      let before : Counted b s = k.counted b in
      let parts = count-cut b n bytes in
      let there = count-set_task b i (holding bytes) looping s.tasks e in
      rw (count-++ b s.to_client (cut n bytes).0, count-++ b s.lost (cut n bytes).1) (omega arith);
  said = k.said;
  answered = k.answered;
}

Keeps-serve :
    (t : Option Task) (i n : ℕ) (s : Session)
    → task_at i s.tasks ≡ t
    → Keeps s
    → Keeps (serve t i n s)
unfolding serve count
Keeps-serve none i n s e k = k
Keeps-serve (some looping) i n s e k = Keeps-task_read s.is_open i n s e k
Keeps-serve (some (holding bytes)) i n s e k = Keeps-task_write s.is_open i bytes n s e k
Keeps-serve (some gone) i n s e k = k
Keeps-serve (some leaving) i n s e k = record {
  counted = λ b.
      let before : Counted b s = k.counted b in
      let same = count-same b i leaving gone s.tasks e refl refl in
      rw (count-++ b s.lost s.to_server) (omega arith);
  said = k.said;
  answered = k.answered;
}

Keeps-step : (a : Action) (s : Session) → Keeps s → Keeps (step a s)
unfolding step
Keeps-step (types line) s k = Keeps-type_line s.typing line s refl k
Keeps-step (client_reads n) s k = Keeps-read_reply s.typing n s refl k
Keeps-step reset s k = Keeps-read_reset s.typing s.is_open s refl k
Keeps-step event s k = Keeps-notify s k
Keeps-step (works i n) s k = Keeps-serve (task_at i s.tasks) i n s refl k

pub Keeps-run : (acts : List Action) (s : Session) → Keeps s → Keeps (run acts s)
unfolding run
Keeps-run [] s k = k
Keeps-run (a ∷ acts) s k = Keeps-run acts (step a s) (Keeps-step a s k)
