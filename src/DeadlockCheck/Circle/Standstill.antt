-- ===== src/DeadlockCheck/Circle/Standstill.antt =====
-- Where none of deadlock_check/test.c's threads can get any further.
use linux_cpp_learn.Prelude.{
  ℕ, Bool, true, false, List, some, ◌≡◌, refl, ◌⊎◌, ◌↔◌, inl, inr, arith, ap, Bool-cases,
}
use linux_cpp_learn.DeadlockCheck.Locks.{TaskGraph}
use linux_cpp_learn.DeadlockCheck.Circle.{
  Routine, one, two, three, four, next_routine, Stage, asks_first, waits_first, got_first,
  asks_second, waits_second, got_second, gives_second, gave_second, gives_first, gave_first,
  through, routine_step, Circle, circle_run, circle_start,
}
use linux_cpp_learn.DeadlockCheck.Circle.Held.{
  Held, firsts, seconds, bit, previous, circle_run-Held, circle_start-Held,
}

-- No thread's next step takes it any further.
abbrev pub IsStuck : Circle → Type 0
IsStuck c =
    (r : Routine)
    → (routine_step (c.stage r) (c.locked r) (c.locked (next_routine r))).0 ≡ c.stage r

-- Where a thread's step takes it no further.
abbrev Halts : Stage → (b1 b2 : Bool) → Type 0
Halts st b1 b2 =
    (st ≡ through) ⊎ ((st ≡ waits_first) × (b1 ≡ true)) ⊎ ((st ≡ waits_second) × (b2 ≡ true))

Halts_lem : (st : Stage) (b1 b2 : Bool) → (routine_step st b1 b2).0 ≡ st → Halts st b1 b2
unfolding routine_step
Halts_lem asks_first b1 b2 h = cc
Halts_lem waits_first true b2 h = inr (inl (refl, refl))
Halts_lem waits_first false b2 h = cc
Halts_lem got_first b1 b2 h = cc
Halts_lem asks_second b1 b2 h = cc
Halts_lem waits_second b1 true h = inr (inr (refl, refl))
Halts_lem waits_second b1 false h = cc
Halts_lem got_second b1 b2 h = cc
Halts_lem gives_second b1 b2 h = cc
Halts_lem gave_second b1 b2 h = cc
Halts_lem gives_first b1 b2 h = cc
Halts_lem gave_first b1 b2 h = cc
Halts_lem through b1 b2 h = inl refl

Halts-seconds : (st : Stage) (b1 b2 : Bool) → Halts st b1 b2 → seconds st ≡ 0
Halts-seconds st b1 b2 (inl e) = rw e refl
Halts-seconds st b1 b2 (inr (inl (e, l))) = rw e refl
Halts-seconds st b1 b2 (inr (inr (e, l))) = rw e refl

previous-next_routine : (r : Routine) → previous (next_routine r) ≡ r
unfolding next_routine
previous-next_routine one = refl
previous-next_routine two = refl
previous-next_routine three = refl
previous-next_routine four = refl

module _ (c : Circle) (h : Held c) where
  module _ (stuck : IsStuck c) where
    halts : (r : Routine) → Halts (c.stage r) (c.locked r) (c.locked (next_routine r))
    halts r = Halts_lem (c.stage r) (c.locked r) (c.locked (next_routine r)) (stuck r)

    idle_seconds : (r : Routine) → seconds (c.stage r) ≡ 0
    idle_seconds r = Halts-seconds (c.stage r) (c.locked r) (c.locked (next_routine r)) (halts r)

    -- A thread that stands at its first mutex would wait for one that does not.
    waits_or_through :
        (r : Routine)
        → (c.stage r ≡ through) ⊎ ((c.stage r ≡ waits_second) × (c.locked (next_routine r) ≡ true))
    waits_or_through r = elim (halts r) [
      | inl e ↦ inl e
      | inr (inr e) ↦ inr e
      | inr (inl (e, l)) ↦
          absurd (omega (arith, h r, ap bit l, ap firsts e, idle_seconds (previous r)))
    ]

    -- Where a thread waits, the next one does.
    next_waits : (r : Routine) → c.stage r ≡ waits_second → c.stage (next_routine r) ≡ waits_second
    next_waits r e = elim (waits_or_through (next_routine r)) [
      | inr (f, l) ↦ f
      | inl f ↦ elim (waits_or_through r) [
        | inl g ↦ absurd (cc)
        | inr (g, l) ↦ absurd (
            omega (
              arith,
              h (next_routine r),
              ap bit l,
              ap firsts f,
              idle_seconds (previous (next_routine r)),
            ))
      ]
    ]

    all_wait : c.stage one ≡ waits_second → (r : Routine) → c.stage r ≡ waits_second
    unfolding next_routine
    all_wait e one = e
    all_wait e two = next_waits one e
    all_wait e three = next_waits two (next_waits one e)
    all_wait e four = next_waits three (next_waits two (next_waits one e))

    one_waits : (r : Routine) → c.stage r ≡ waits_second → c.stage one ≡ waits_second
    unfolding next_routine
    one_waits one e = e
    one_waits four e = next_waits four e
    one_waits three e = next_waits four (next_waits three e)
    one_waits two e = next_waits four (next_waits three (next_waits two e))

    all_or_none : ((r : Routine) → c.stage r ≡ waits_second) ⊎ ((r : Routine) → c.stage r ≡ through)
    all_or_none = elim (waits_or_through one) [
      | inr (e, l) ↦ inl (all_wait e)
      | inl e ↦ inr (λ r. elim (waits_or_through r) [
        | inl f ↦ f
        | inr (f, l) ↦ let first = one_waits r f in absurd (cc)
      ])
    ]

  waits-locked : ((r : Routine) → c.stage r ≡ waits_second) → (r : Routine) → c.locked r ≡ true
  waits-locked all r = elim (Bool-cases (c.locked r)) [
    | inl e ↦ e
    | inr e ↦ absurd (omega (arith, h r, ap bit e, ap firsts (all r)))
  ]

  stays : ((r : Routine) → c.stage r ≡ waits_second) → IsStuck c
  unfolding routine_step
  stays all r = rw (all r, waits-locked all (next_routine r)) refl

ended-IsStuck : (c : Circle) → ((r : Routine) → c.stage r ≡ through) → IsStuck c
unfolding routine_step
ended-IsStuck c all r = rw (all r) refl

-- The threads of test.c under the hooks, in any order of their steps that stays within the hooks'
-- arrays: no thread can get any further exactly if all four wait for their second mutex, or all four
-- are through. There is no other way for them to get stuck.
pub circle_standstill :
    (self address : Routine → ℕ) (tg : TaskGraph) (rs : List Routine) (c : Circle)
    → circle_run self address rs (circle_start tg) ≡ some c
    → IsStuck c
      ↔ (((r : Routine) → c.stage r ≡ waits_second) ⊎ ((r : Routine) → c.stage r ≡ through))
circle_standstill self address tg rs c e =
    let h = circle_run-Held self address rs (circle_start tg) c e (circle_start-Held tg) in
    (all_or_none c h, λ way. elim way [ inl all ↦ stays c h all | inr all ↦ ended-IsStuck c all ])
