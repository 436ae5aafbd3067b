-- ===== src/MsgQueue.antt =====
-- msgqueue/send.c and recv.c: two programs that share a System V message queue. A step is one call of
-- one of them. What the calls do with the queue is what their manual says: messages leave it in the
-- order in which they came, for msgrcv with the type 0. Whether msgget and msgsnd find room is part of
-- the step.
pub mod Flows
pub mod Order
mod Tests
use linux_cpp_learn.Prelude.{
  ℕ, zero, suc, ◌+◌, Bool, true, false, ◌&&◌, List, [], ◌∷◌, ◌++◌, Option, none, some,
  if◌then◌else◌, length, ◌==◌,
}

-- `Msgbuf`; the text is what stands before the first 0.
pub record Msgbuf : Type 0 where
  pub mtype : ℕ
  pub mtext : List ℕ

-- "message " and a digit.
abbrev pub text : ℕ → List ℕ
text digit = 109 ∷ 101 ∷ 115 ∷ 115 ∷ 97 ∷ 103 ∷ 101 ∷ 32 ∷ digit ∷ []

-- The messages of send.c: of type 1, 2 and 3, with the digits 1, 2 and 3.
abbrev pub message : ℕ → Msgbuf
message n = record { mtype = suc n; mtext = text (49 + n) }

-- send.c: before msgget, before the msgsnd of a message, and after its end.
pub data Sender : Type 0 where
  opens : Sender
  sends : ℕ → Sender
  exits : Sender

-- recv.c: before msgget, in the loop with `count`, at an end by an error, and after the end.
pub data Receiver : Type 0 where
  joins : Receiver
  counts : ℕ → Receiver
  fails : Receiver
  ends : Receiver

-- The queue, `none` where there is none; `received` and `qnums` are what recv.c prints, `accepted` the
-- messages that msgsnd took, and `removed` those that were still in the queue at its end.
pub record Queues : Type 0 where
  pub queue : Option (List Msgbuf)
  pub sender : Sender
  pub receiver : Receiver
  pub accepted : List Msgbuf
  pub received : List Msgbuf
  pub qnums : List ℕ
  pub removed : List Msgbuf

abbrev pub contents : Option (List Msgbuf) → List Msgbuf
contents none = []
contents (some ms) = ms

-- After the first message the result of msgsnd is not looked at.
unfoldable pub after_send : ℕ → Bool → Sender
after_send zero taken = if taken then sends 1 else exits
after_send (suc zero) taken = sends 2
after_send (suc (suc n)) taken = exits

-- msgsnd, which fails on a queue that was removed.
unfoldable pub msgsnd : Option (List Msgbuf) → ℕ → Bool → Queues → Queues
unfolding after_send
msgsnd none n ok s = record s { sender = after_send n false }
msgsnd (some ms) n ok s =
    if ok
    then record s {
      queue = some (ms ++ message n ∷ []);
      accepted = s.accepted ++ message n ∷ [];
      sender = after_send n true;
    }
    else record s { sender = after_send n false }

-- msgget with IPC_CREAT.
unfoldable pub msgget : Option (List Msgbuf) → List Msgbuf
msgget none = []
msgget (some ms) = ms

unfoldable pub send_step : Sender → Bool → Queues → Queues
unfolding msgget msgsnd
send_step opens ok s =
    if ok
    then record s { queue = some (msgget s.queue); sender = sends 0 }
    else record s { sender = exits }
send_step (sends n) ok s = msgsnd s.queue n ok s
send_step exits ok s = s

-- The loop's end: `count == 3`, and then IPC_RMID.
unfoldable pub after_recv : ℕ → List Msgbuf → Queues → Queues
after_recv count ms s =
    if suc count == 3
    then record s { queue = none; receiver = ends; removed = s.removed ++ ms }
    else record s { queue = some ms; receiver = counts (suc count) }

-- msgrcv waits at an empty queue and fails at one that was removed.
unfoldable pub msgrcv : Option (List Msgbuf) → ℕ → Queues → Queues
unfolding after_recv
msgrcv none count s = record s { receiver = fails }
msgrcv (some []) count s = s
msgrcv (some (m ∷ ms)) count s =
    after_recv count ms
      (record s { received = s.received ++ m ∷ []; qnums = s.qnums ++ length ms ∷ [] })

-- The number of messages is printed before the loop too.
unfoldable pub recv_step : Receiver → Bool → Queues → Queues
unfolding msgget msgrcv
recv_step joins ok s =
    if ok
    then record s {
      queue = some (msgget s.queue);
      receiver = counts 0;
      qnums = s.qnums ++ length (msgget s.queue) ∷ [];
    }
    else record s { receiver = fails }
recv_step (counts n) ok s = msgrcv s.queue n s
recv_step fails ok s = s
recv_step ends ok s = s

-- A step of send.c or of recv.c, and whether its call has what it needs from the system.
pub data Call : Type 0 where
  by_send by_recv : Bool → Call

unfoldable pub call_step : Call → Queues → Queues
unfolding send_step recv_step
call_step (by_send ok) s = send_step s.sender ok s
call_step (by_recv ok) s = recv_step s.receiver ok s

unfoldable pub call_all : List Call → Queues → Queues
unfolding call_step
call_all [] s = s
call_all (c ∷ cs) s = call_all cs (call_step c s)

-- Both programs before their first call, with the queue that may be there.
abbrev pub programs : Option (List Msgbuf) → Queues
programs queue = record {
  queue = queue;
  sender = opens;
  receiver = joins;
  accepted = [];
  received = [];
  qnums = [];
  removed = [];
}
