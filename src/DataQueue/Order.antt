-- ===== src/DataQueue/Order.antt =====
-- The invariant of the producer and the consumer of bagu/thread.cpp, step by step.
use linux_cpp_learn.Prelude.{
  ℕ, suc, ◌<◌, ◌≤◌, false, List, [], ◌∷◌, ◌++◌, append_assoc, ◌≡◌, ◌≢◌, refl, ap, sym, ◌∙◌, arith,
  ltb, length, length-append, Bool-cases, List-cases, inl, inr, ◌⊎◌,
}
use linux_cpp_learn.DataQueue.Values.{below, below-next, below-split}
use linux_cpp_learn.DataQueue.{
  Sys, Consumer, ready, waiting, left, Action, produces, consumes, wakes, step, run, start, produce,
  consume, take, notify_one, rounds,
}

pub record Inv (s : Sys) : Type 0 where
  pub history : s.consumed ++ s.data_queue ≡ below s.i
  pub bound : s.i ≤ rounds
  pub idle : s.consumer ≡ waiting → s.data_queue ≡ []
  pub gone : s.consumer ≡ left → (s.data_queue ≡ []) × (s.i ≡ rounds)
  pub here : s.consumer ≢ left → length s.consumed < rounds

pub start-Inv : Inv start
start-Inv = record {
  history = refl;
  bound = omega arith;
  idle = λ e. refl;
  gone = λ e. cc;
  here = λ e. omega arith;
}

notify_one-waiting : (c : Consumer) → notify_one c ≢ waiting
unfolding notify_one
notify_one-waiting ready = λ e. cc
notify_one-waiting waiting = λ e. cc
notify_one-waiting left = λ e. cc

pub notify_one-left : (c : Consumer) → notify_one c ≡ left → c ≡ left
unfolding notify_one
notify_one-left ready e = cc
notify_one-left waiting e = cc
notify_one-left left e = refl

notify_one-kept : (c : Consumer) → c ≡ left → notify_one c ≡ left
unfolding notify_one
notify_one-kept ready e = cc
notify_one-kept waiting e = cc
notify_one-kept left e = refl

produced-Inv :
    (s : Sys)
    → Inv s
    → s.i < rounds
    → Inv (record s {
      data_queue = s.data_queue ++ s.i ∷ [];
      i = suc s.i;
      consumer = notify_one s.consumer;
    })
produced-Inv s v room = record {
  history =
      sym (append_assoc s.consumed s.data_queue (s.i ∷ []))
      ∙ ap (λ (xs : List ℕ). xs ++ s.i ∷ []) v.history;
  bound = room;
  idle = λ e. absurd (notify_one-waiting s.consumer e);
  gone = λ e. absurd (omega (arith, (v.gone (notify_one-left s.consumer e)).1));
  here = λ e. v.here (λ f. omega (arith, (v.gone f).1));
}

pub produce-room :
    (s : Sys)
    → s.i < rounds
    → produce s ≡ record s {
      data_queue = s.data_queue ++ s.i ∷ [];
      i = suc s.i;
      consumer = notify_one s.consumer;
    }
unfolding produce
produce-room s h = ground arith

pub produce-full : (s : Sys) → ltb s.i rounds ≡ false → produce s ≡ s
unfolding produce
produce-full s h = ground arith

pub produce-Inv : (s : Sys) → Inv s → Inv (produce s)
produce-Inv s v = elim (Bool-cases (ltb s.i rounds)) [
  | inr full ↦ rw (produce-full s full) v
  | inl room ↦ rw (produce-room s (ground arith)) (produced-Inv s v (ground arith))
]

module _ (s : Sys) (v : Inv s) (is_ready : s.consumer ≡ ready) where
  emptied-Inv : s.data_queue ≡ [] → Inv (record s { consumer = waiting })
  emptied-Inv e = record {
    history = v.history;
    bound = v.bound;
    idle = λ f. e;
    gone = λ f. cc;
    here = λ f. v.here (λ g. cc);
  }

  taken-Inv :
      (value : ℕ) (rest : List ℕ) → s.data_queue ≡ value ∷ rest → Inv (take s (value ∷ rest))
  unfolding take
  taken-Inv value rest e =
      let h : s.consumed ++ value ∷ rest ≡ below s.i =
        ap (λ (xs : List ℕ). s.consumed ++ xs) (sym e) ∙ v.history in
      let next = below-next s.i s.consumed rest value h in
      let sizes = below-split s.i s.consumed (value ∷ rest) h in
      let room = v.here (λ g. cc) in
      let longer = length-append s.consumed (value ∷ []) in
      record {
        history = append_assoc s.consumed (value ∷ []) rest ∙ h;
        bound = v.bound;
        idle = λ f. ground arith;
        gone = λ f. (ground (arith, next, sizes, v.bound), ground (arith, next, sizes, v.bound));
        here = λ f. ground (arith, next, room, longer);
      }

  pub consume-ready : consume s ≡ take s s.data_queue
  unfolding consume
  consume-ready = ground (arith, is_ready)

  ready-Inv : Inv (consume s)
  unfolding take
  ready-Inv = elim (List-cases s.data_queue) [
    | inl e ↦ rw (consume-ready ∙ ap (take s) e) (emptied-Inv e)
    | inr (value, rest, e) ↦ rw (consume-ready ∙ ap (take s) e) (taken-Inv value rest e)
  ]

pub Consumer-cases : (c : Consumer) → (c ≡ ready) ⊎ ((c ≡ waiting) ⊎ (c ≡ left))
Consumer-cases ready = inl refl
Consumer-cases waiting = inr (inl refl)
Consumer-cases left = inr (inr refl)

pub consume-idle : (s : Sys) → s.consumer ≢ ready → consume s ≡ s
unfolding consume
consume-idle s h = elim (Consumer-cases s.consumer) [
  | inl e ↦ absurd (h e)
  | inr (inl e) ↦ ground (arith, e)
  | inr (inr e) ↦ ground (arith, e)
]

pub consume-Inv : (s : Sys) → Inv s → Inv (consume s)
consume-Inv s v = elim (Consumer-cases s.consumer) [
  | inl e ↦ ready-Inv s v e
  | inr (inl e) ↦ rw (consume-idle s (λ f. cc)) v
  | inr (inr e) ↦ rw (consume-idle s (λ f. cc)) v
]

woken-Inv : (s : Sys) → Inv s → Inv (record s { consumer = notify_one s.consumer })
woken-Inv s v = record {
  history = v.history;
  bound = v.bound;
  idle = λ e. absurd (notify_one-waiting s.consumer e);
  gone = λ e. v.gone (notify_one-left s.consumer e);
  here = λ e. v.here (λ f. e (notify_one-kept s.consumer f));
}

pub step-Inv : (a : Action) (s : Sys) → Inv s → Inv (step a s)
unfolding step
step-Inv produces s v = produce-Inv s v
step-Inv consumes s v = consume-Inv s v
step-Inv wakes s v = woken-Inv s v

pub run-Inv : (acts : List Action) (s : Sys) → Inv s → Inv (run acts s)
unfolding run
run-Inv [] s v = v
run-Inv (a ∷ rest) s v = run-Inv rest (step a s) (step-Inv a s v)
