-- ===== src/MsgQueue/Flows.antt =====
-- What each call of msgqueue/send.c and recv.c keeps.
use linux_cpp_learn.Prelude.{
  ℕ, zero, suc, ◌≤◌, ◌<◌, ◌≡◌, refl, ap, sym, ◌∙◌, Bool, true, false, List, [], ◌∷◌, ◌++◌,
  append-nil, append_assoc, length, length-append, Option, none, some, arith, Bool-cases, inl, inr,
  ◌==◌,
}
use mathlib.Core.Path.{subst}
use linux_cpp_learn.MsgQueue.{
  Msgbuf, message, Sender, opens, sends, exits, Receiver, joins, counts, fails, ends, Queues,
  contents, after_send, msgsnd, msgget, send_step, after_recv, msgrcv, recv_step, Call, by_send,
  by_recv, call_step, call_all, programs,
}

-- The messages that send.c has before its n-th.
abbrev pub prefix : ℕ → List Msgbuf
prefix zero = []
prefix (suc n) = prefix n ++ message n ∷ []

-- Of the first n messages no more than n were taken, and all of them if n were.
abbrev pub Taken : ℕ → List Msgbuf → Type 0
Taken n ms = (length ms ≤ n) × (length ms ≡ n → ms ≡ prefix n)

Taken-added : (n : ℕ) (ms : List Msgbuf) → Taken n ms → Taken (suc n) (ms ++ message n ∷ [])
Taken-added n ms (few, all) =
    let more = length-append ms (message n ∷ []) in
    (omega (arith, few, more), λ e. ap (λ xs. xs ++ message n ∷ []) (all (omega (arith, e, more))))

pub Taken-missed : (n k : ℕ) (ms : List Msgbuf) → n < k → Taken n ms → Taken k ms
Taken-missed n k ms lt (few, all) =
    (omega (arith, few, lt), λ e. absurd (omega (arith, e, few, lt)))

-- The messages that send.c is behind.
abbrev pub Sending : Sender → List Msgbuf → Type 0
Sending opens ms = Taken 0 ms
Sending (sends n) ms = (n ≤ 2) × Taken n ms
Sending exits ms = Taken 3 ms

after_send-taken :
    (n : ℕ) (ms : List Msgbuf)
    → Sending (sends n) ms
    → Sending (after_send n true) (ms ++ message n ∷ [])
unfolding after_send
after_send-taken zero ms (few, t) = (omega arith, Taken-added 0 ms t)
after_send-taken (suc zero) ms (few, t) = (omega arith, Taken-added 1 ms t)
after_send-taken (suc (suc zero)) ms (few, t) = Taken-added 2 ms t
after_send-taken (suc (suc (suc n))) ms (few, t) = absurd (omega (arith, few))

after_send-missed :
    (n : ℕ) (ms : List Msgbuf) → Sending (sends n) ms → Sending (after_send n false) ms
unfolding after_send
after_send-missed zero ms (few, t) = Taken-missed 0 3 ms (omega arith) t
after_send-missed (suc zero) ms (few, t) = (omega arith, Taken-missed 1 2 ms (omega arith) t)
after_send-missed (suc (suc zero)) ms (few, t) = Taken-missed 2 3 ms (omega arith) t
after_send-missed (suc (suc (suc n))) ms (few, t) = absurd (omega (arith, few))

-- How many messages recv.c has read, and that none was removed before its end.
abbrev pub Receiving : Receiver → (received removed : List Msgbuf) → Type 0
Receiving joins received removed = (length received ≡ 0) × (removed ≡ [])
Receiving (counts n) received removed = (n ≤ 2) × (length received ≡ n) × (removed ≡ [])
Receiving fails received removed = length received ≤ 2
Receiving ends received removed = length received ≡ 3

pub record Flows (first : List Msgbuf) (s : Queues) : Type 0 where
  pub order : s.received ++ (s.removed ++ contents s.queue) ≡ first ++ s.accepted
  pub sending : Sending s.sender s.accepted
  pub receiving : Receiving s.receiver s.received s.removed

contents-msgget : (queue : Option (List Msgbuf)) → msgget queue ≡ contents queue
unfolding msgget
contents-msgget none = refl
contents-msgget (some ms) = refl

send_last :
    (received removed ms first accepted new : List Msgbuf)
    → received ++ (removed ++ ms) ≡ first ++ accepted
    → received ++ (removed ++ (ms ++ new)) ≡ first ++ (accepted ++ new)
send_last received removed ms first accepted new e =
    ap (λ xs. received ++ xs) (sym (append_assoc removed ms new))
    ∙ (sym (append_assoc received (removed ++ ms) new)
        ∙ (ap (λ xs. xs ++ new) e ∙ append_assoc first accepted new))

module _ (first : List Msgbuf) where
  msgsnd-Flows :
      (queue : Option (List Msgbuf)) (n : ℕ) (ok : Bool) (s : Queues)
      → s.queue ≡ queue
      → s.sender ≡ sends n
      → Flows first s
      → Flows first (msgsnd queue n ok s)
  unfolding msgsnd
  msgsnd-Flows none n ok s e at h = record {
    order = h.order;
    sending = after_send-missed n s.accepted (subst (λ p. Sending p s.accepted) at h.sending);
    receiving = h.receiving;
  }
  msgsnd-Flows (some ms) n false s e at h = record {
    order = h.order;
    sending = after_send-missed n s.accepted (subst (λ p. Sending p s.accepted) at h.sending);
    receiving = h.receiving;
  }
  msgsnd-Flows (some ms) n true s e at h = record {
    order =
        send_last s.received s.removed ms first s.accepted (message n ∷ [])
          (ap (λ q. s.received ++ (s.removed ++ contents q)) (sym e) ∙ h.order);
    sending = after_send-taken n s.accepted (subst (λ p. Sending p s.accepted) at h.sending);
    receiving = h.receiving;
  }

  opened :
      (s : Queues)
      → Flows first s
      → s.received ++ (s.removed ++ msgget s.queue) ≡ first ++ s.accepted
  opened s h = ap (λ q. s.received ++ (s.removed ++ q)) (contents-msgget s.queue) ∙ h.order

  send_step-Flows :
      (p : Sender) (ok : Bool) (s : Queues)
      → s.sender ≡ p
      → Flows first s
      → Flows first (send_step p ok s)
  unfolding send_step
  send_step-Flows opens true s at h = record {
    order = opened s h;
    sending = (omega arith, subst (λ p. Sending p s.accepted) at h.sending);
    receiving = h.receiving;
  }
  send_step-Flows opens false s at h = record {
    order = h.order;
    sending =
        Taken-missed 0 3 s.accepted (omega arith) (subst (λ p. Sending p s.accepted) at h.sending);
    receiving = h.receiving;
  }
  send_step-Flows (sends n) ok s at h = msgsnd-Flows s.queue n ok s refl at h
  send_step-Flows exits ok s at h = h

  after_recv-Flows :
      (count : ℕ) (m : Msgbuf) (ms : List Msgbuf) (s : Queues)
      → s.queue ≡ some (m ∷ ms)
      → s.receiver ≡ counts count
      → Flows first s
      → Flows first (
          after_recv count ms
            (record s { received = s.received ++ m ∷ []; qnums = s.qnums ++ length ms ∷ [] }))
  unfolding after_recv
  after_recv-Flows count m ms s e at h =
      let (few, read, none_removed) =
        subst (λ p. Receiving p s.received s.removed) at h.receiving in
      let more = length-append s.received (m ∷ []) in
      let order : (s.received ++ m ∷ []) ++ ms ≡ first ++ s.accepted =
        append_assoc s.received (m ∷ []) ms
        ∙ (ap (λ xs. s.received ++ (xs ++ (m ∷ ms))) (sym none_removed)
            ∙ (ap (λ q. s.received ++ (s.removed ++ contents q)) (sym e) ∙ h.order)) in
      elim (Bool-cases (suc count == 3)) [
        | inl last ↦ rw last (record {
          order =
              ap (λ xs. (s.received ++ m ∷ []) ++ xs)
                (append-nil (s.removed ++ ms) ∙ ap (λ xs. xs ++ ms) none_removed)
              ∙ order;
          sending = h.sending;
          receiving = ground (arith, read, more, last);
        })
        | inr next ↦ rw next (record {
          order = ap (λ xs. (s.received ++ m ∷ []) ++ (xs ++ ms)) none_removed ∙ order;
          sending = h.sending;
          receiving = (ground (arith, few, next), omega (arith, read, more), none_removed);
        })
      ]

  msgrcv-Flows :
      (queue : Option (List Msgbuf)) (count : ℕ) (s : Queues)
      → s.queue ≡ queue
      → s.receiver ≡ counts count
      → Flows first s
      → Flows first (msgrcv queue count s)
  unfolding msgrcv
  msgrcv-Flows none count s e at h =
      let (few, read, none_removed) =
        subst (λ p. Receiving p s.received s.removed) at h.receiving in
      record { order = h.order; sending = h.sending; receiving = omega (arith, few, read) }
  msgrcv-Flows (some []) count s e at h = h
  msgrcv-Flows (some (m ∷ ms)) count s e at h = after_recv-Flows count m ms s e at h

  recv_step-Flows :
      (p : Receiver) (ok : Bool) (s : Queues)
      → s.receiver ≡ p
      → Flows first s
      → Flows first (recv_step p ok s)
  unfolding recv_step
  recv_step-Flows joins true s at h =
      let (read, none_removed) = subst (λ p. Receiving p s.received s.removed) at h.receiving in
      record {
        order = opened s h;
        sending = h.sending;
        receiving = (omega arith, read, none_removed);
      }
  recv_step-Flows joins false s at h =
      let (read, none_removed) = subst (λ p. Receiving p s.received s.removed) at h.receiving in
      record { order = h.order; sending = h.sending; receiving = omega (arith, read) }
  recv_step-Flows (counts n) ok s at h = msgrcv-Flows s.queue n s refl at h
  recv_step-Flows fails ok s at h = h
  recv_step-Flows ends ok s at h = h

  call_step-Flows : (c : Call) (s : Queues) → Flows first s → Flows first (call_step c s)
  unfolding call_step
  call_step-Flows (by_send ok) s h = send_step-Flows s.sender ok s refl h
  call_step-Flows (by_recv ok) s h = recv_step-Flows s.receiver ok s refl h

  pub call_all-Flows : (cs : List Call) (s : Queues) → Flows first s → Flows first (call_all cs s)
  unfolding call_all
  call_all-Flows [] s h = h
  call_all-Flows (c ∷ cs) s h = call_all-Flows cs (call_step c s) (call_step-Flows c s h)

pub programs-Flows : (queue : Option (List Msgbuf)) → Flows (contents queue) (programs queue)
programs-Flows queue = record {
  order = sym (append-nil (contents queue));
  sending = (omega arith, λ e. refl);
  receiving = (refl, refl);
}
