-- ===== src/MsgQueue/Tests.antt =====
-- The two programs of msgqueue in a few orders.
use linux_cpp_learn.Prelude.{
  true, false, List, [], ◌∷◌, ◌++◌, Option, none, some, ◌≡◌, ◌≤◌, refl, length,
}
use linux_cpp_learn.MsgQueue.{
  Msgbuf, message, ends, contents, Call, by_send, by_recv, call_all, programs,
}
use linux_cpp_learn.MsgQueue.Order.{call_all_in_order, call_all_delivers}

-- recv.c starts first and waits.
abbrev waits_first : List Call
waits_first =
    by_recv true
    ∷ by_recv true
    ∷ by_send true
    ∷ by_send true
    ∷ by_recv true
    ∷ by_send true
    ∷ by_send true
    ∷ by_recv true
    ∷ by_recv true
    ∷ []

waits_first-ends : (call_all waits_first (programs none)).receiver ≡ ends
unfolding call_all
waits_first-ends = refl

waits_first-qnums : (call_all waits_first (programs none)).qnums ≡ 0 ∷ 0 ∷ 1 ∷ 0 ∷ []
unfolding call_all
waits_first-qnums = refl

call_all_delivers_example :
    ((call_all waits_first (programs none)).received ≡ message 0 ∷ message 1 ∷ message 2 ∷ [])
    × ((call_all waits_first (programs none)).removed ≡ [])
    × (contents (call_all waits_first (programs none)).queue ≡ [])
call_all_delivers_example = call_all_delivers none waits_first refl waits_first-ends

-- Three messages are there from before.
abbrev stale : Option (List Msgbuf)
stale = some (message 2 ∷ message 1 ∷ message 0 ∷ [])

abbrev over_stale : List Call
over_stale =
    by_send true
    ∷ by_send true
    ∷ by_recv true
    ∷ by_recv true
    ∷ by_recv true
    ∷ by_recv true
    ∷ by_send true
    ∷ []

over_stale-removed : (call_all over_stale (programs stale)).removed ≡ message 0 ∷ []
unfolding call_all
over_stale-removed = refl

call_all_in_order_example :
    ((call_all over_stale (programs stale)).received
        ++ ((call_all over_stale (programs stale)).removed
            ++ contents (call_all over_stale (programs stale)).queue)
      ≡ contents stale ++ (call_all over_stale (programs stale)).accepted)
    × (length (call_all over_stale (programs stale)).received ≤ 3)
call_all_in_order_example = call_all_in_order stale over_stale

-- msgsnd fails for the second message, and recv.c waits.
refused :
    (call_all
      (by_send true ∷ by_send true ∷ by_send false ∷ by_send true ∷ [])
      (programs none)).accepted
    ≡ message 0 ∷ message 2 ∷ []
unfolding call_all
refused = refl
