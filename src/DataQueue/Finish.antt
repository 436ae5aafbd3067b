-- ===== src/DataQueue/Finish.antt =====
-- What holds of the producer and the consumer of bagu/thread.cpp after every schedule.
use linux_cpp_learn.Prelude.{
  ℕ, zero, suc, ◌+◌, ◌≤◌, List, [], ◌∷◌, ◌++◌, append-nil, ◌≡◌, refl, ap, sym, ◌∙◌, arith, ltb,
  length, length-append, Bool-cases, List-cases, inl, inr, replicate,
}
use linux_cpp_learn.DataQueue.{
  Sys, waiting, left, Action, produces, consumes, step, run, start, produce, consume, take, rounds,
}
use linux_cpp_learn.DataQueue.Values.{below, below-split}
use linux_cpp_learn.DataQueue.Order.{
  Inv, start-Inv, run-Inv, produce-Inv, consume-Inv, produce-room, produce-full, consume-ready,
  consume-idle, Consumer-cases,
}

-- Whatever the two threads do: the values taken, followed by those in the queue, are 0, 1, ... in
-- order up to the producer's i, which does not pass 5.
pub run_order :
    (acts : List Action)
    → let s = run acts start in (s.consumed ++ s.data_queue ≡ below s.i) × (s.i ≤ rounds)
run_order acts = let v = run-Inv acts start start-Inv in (v.history, v.bound)

-- After any schedule at whose end the consumer has left its loop, it has taken all of the producer's
-- values, each once and in order, and the queue is empty.
pub run_left :
    (acts : List Action)
    → (run acts start).consumer ≡ left
    → ((run acts start).consumed ≡ below rounds) × ((run acts start).data_queue ≡ [])
run_left acts e =
    let v = run-Inv acts start start-Inv in
    let s = run acts start in
    let (empty, full) = v.gone e in
    (
      sym (append-nil s.consumed)
          ∙ ap (λ (xs : List ℕ). s.consumed ++ xs) (sym empty)
          ∙ v.history
          ∙ ap below full,
      empty,
    )

-- After any schedule at whose end the consumer waits, the queue is empty: no wake-up was missed.
pub run_waiting :
    (acts : List Action) → (run acts start).consumer ≡ waiting → (run acts start).data_queue ≡ []
run_waiting acts e = (run-Inv acts start start-Inv).idle e

run-append : (xs ys : List Action) (s : Sys) → run (xs ++ ys) s ≡ run ys (run xs s)
unfolding run
run-append [] ys s = refl
run-append (a ∷ xs) ys s = run-append xs ys (step a s)

produce-grows : (s : Sys) (k : ℕ) → Inv s → rounds ≤ s.i + suc k → rounds ≤ (produce s).i + k
produce-grows s k v h = elim (Bool-cases (ltb s.i rounds)) [
  | inl room ↦ rw (produce-room s (ground arith)) (omega arith)
  | inr full ↦ rw (produce-full s full) (ground arith)
]

run-produces :
    (k : ℕ) (s : Sys)
    → Inv s
    → rounds ≤ s.i + k
    → Inv (run (replicate k produces) s) × (rounds ≤ (run (replicate k produces) s).i)
unfolding run step
run-produces zero s v h = (v, omega arith)
run-produces (suc k) s v h = run-produces k (produce s) (produce-Inv s v) (produce-grows s k v h)

-- With all values pushed, the consumer has left or takes one more.
consume-grows :
    (s : Sys) (k : ℕ)
    → Inv s
    → rounds ≤ s.i
    → rounds ≤ length s.consumed + suc k
    → (rounds ≤ (consume s).i) × (rounds ≤ length (consume s).consumed + k)
unfolding take
consume-grows s k v full h =
    let sizes = below-split s.i s.consumed s.data_queue v.history in
    elim (Consumer-cases s.consumer) [
      | inr (inl e) ↦ absurd (ground (arith, v.idle e, v.here (λ f. cc), sizes))
      | inr (inr e) ↦ rw (consume-idle s (λ f. cc)) (full, ground (arith, (v.gone e).0, sizes))
      | inl e ↦ elim (List-cases s.data_queue) [
        | inl f ↦ absurd (ground (arith, v.here (λ g. cc), sizes))
        | inr (value, rest, f) ↦
            rw (consume-ready s v e ∙ ap (take s) f)
              (full, omega (arith, length-append s.consumed (value ∷ [])))
      ]
    ]

run-consumes :
    (k : ℕ) (s : Sys)
    → Inv s
    → rounds ≤ s.i
    → rounds ≤ length s.consumed + k
    → (run (replicate k consumes) s).consumer ≡ left
unfolding run step
run-consumes zero s v full h = elim (Consumer-cases s.consumer) [
  | inl e ↦ absurd (ground (arith, v.here (λ f. cc)))
  | inr (inl e) ↦ absurd (ground (arith, v.here (λ f. cc)))
  | inr (inr e) ↦ e
]
run-consumes (suc k) s v full h =
    let (full', h') = consume-grows s k v full h in
    run-consumes k (consume s) (consume-Inv s v) full' h'

-- However the two threads were scheduled so far, they are not stuck: five rounds of the producer and
-- then five of the consumer, of which those do nothing that come after the thread's end, bring the
-- consumer to its end.
pub run_finishes :
    (acts : List Action)
    → (run (acts ++ replicate rounds produces ++ replicate rounds consumes) start).consumer ≡ left
run_finishes acts =
    let s = run acts start in
    let (v, full) = run-produces rounds s (run-Inv acts start start-Inv) (omega arith) in
    let t = run (replicate rounds produces) s in
    let ps = replicate rounds produces in
    let cs = replicate rounds consumes in
    ap (λ (z : Sys). z.consumer)
      (run-append (acts ++ ps) cs start ∙ ap (run cs) (run-append acts ps start))
    ∙ run-consumes rounds t v full (omega arith)
