-- ===== src/MsgQueue/Order.antt =====
-- What msgqueue/recv.c gets of what msgqueue/send.c sends.
use linux_cpp_learn.Prelude.{
  ◌≤◌, ◌≡◌, refl, ap, sym, ◌∙◌, List, [], ◌∷◌, ◌++◌, append-nil, length, length-append, Option,
  arith,
}
use mathlib.Core.Path.{subst}
use linux_cpp_learn.MsgQueue.{
  Msgbuf, message, Sender, opens, sends, exits, Receiver, joins, counts, fails, ends, contents,
  Call, call_all, programs,
}
use linux_cpp_learn.MsgQueue.Flows.{
  Taken, Taken-missed, Sending, Receiving, call_all-Flows, programs-Flows,
}

Receiving-few :
    (p : Receiver) (received removed : List Msgbuf)
    → Receiving p received removed
    → length received ≤ 3
Receiving-few joins received removed (e, _) = omega (arith, e)
Receiving-few (counts n) received removed (few, e, _) = omega (arith, e, few)
Receiving-few fails received removed few = omega (arith, few)
Receiving-few ends received removed e = omega (arith, e)

-- Whatever the queue holds at the start, in any order of the two programs' calls and whichever of them
-- fail: the messages that recv.c has printed, of which there are three at most, followed by those that
-- it removed with the queue and those in the queue, are the messages at the start followed by those
-- that msgsnd took, in this order.
pub call_all_in_order :
    (queue : Option (List Msgbuf)) (cs : List Call)
    → let s = call_all cs (programs queue) in
      (s.received ++ (s.removed ++ contents s.queue) ≡ contents queue ++ s.accepted)
      × (length s.received ≤ 3)
call_all_in_order queue cs =
    let s = call_all cs (programs queue) in
    let h = call_all-Flows (contents queue) cs (programs queue) (programs-Flows queue) in
    (h.order, Receiving-few s.receiver s.received s.removed h.receiving)

Sending-few : (p : Sender) (ms : List Msgbuf) → Sending p ms → Taken 3 ms
Sending-few opens ms t = Taken-missed 0 3 ms (omega arith) t
Sending-few (sends n) ms (few, t) = Taken-missed n 3 ms (omega (arith, few)) t
Sending-few exits ms t = t

no_more : (xs ys zs : List Msgbuf) → xs ++ ys ≡ zs → length zs ≤ length xs → (ys ≡ []) × (zs ≡ xs)
no_more xs [] zs e h = (refl, sym e ∙ append-nil xs)
no_more xs (y ∷ ys) zs e h = absurd (omega (arith, h, ap length e, length-append xs (y ∷ ys)))

append-is_nil : (xs ys : List Msgbuf) → xs ++ ys ≡ [] → (xs ≡ []) × (ys ≡ [])
append-is_nil [] ys e = (refl, e)
append-is_nil (x ∷ xs) ys e = cc

-- If there is no queue at the start or an empty one, then in any order of the two programs' calls and
-- whichever of them fail: when recv.c has come to its end, it has printed the three messages of send.c
-- in their order, and none was removed or is left.
pub call_all_delivers :
    (queue : Option (List Msgbuf)) (cs : List Call)
    → contents queue ≡ []
    → (call_all cs (programs queue)).receiver ≡ ends
    → let s = call_all cs (programs queue) in
      (s.received ≡ message 0 ∷ message 1 ∷ message 2 ∷ [])
      × (s.removed ≡ [])
      × (contents s.queue ≡ [])
call_all_delivers queue cs empty over =
    let s = call_all cs (programs queue) in
    let h = call_all-Flows (contents queue) cs (programs queue) (programs-Flows queue) in
    let order : s.received ++ (s.removed ++ contents s.queue) ≡ s.accepted =
      h.order ∙ ap (λ xs. xs ++ s.accepted) empty in
    let read : length s.received ≡ 3 =
      subst (λ p. Receiving p s.received s.removed) over h.receiving in
    let (few, all) = Sending-few s.sender s.accepted h.sending in
    let (rest, same) =
      no_more s.received (s.removed ++ contents s.queue) s.accepted order
        (omega (arith, few, read)) in
    let (gone, left) = append-is_nil s.removed (contents s.queue) rest in
    (sym same ∙ all (ap length same ∙ read), gone, left)
