-- ===== src/DeadlockCheck/Circle/Routines.antt =====
-- The four threads of deadlock_check/test.c, and a change of one of them.
use linux_cpp_learn.Prelude.{true, false, ◌≡◌, ◌≢◌, refl, Bool-cases, inl, inr, ◌∙◌}
use mathlib.Core.Path.{subst}
use linux_cpp_learn.DeadlockCheck.Circle.{
  Routine, one, two, three, four, Stage, same_routine, changed,
}

pub same_routine_lem : (r q : Routine) → same_routine r q ≡ true → r ≡ q
same_routine_lem one one e = refl
same_routine_lem two two e = refl
same_routine_lem three three e = refl
same_routine_lem four four e = refl
same_routine_lem one two e = cc
same_routine_lem one three e = cc
same_routine_lem one four e = cc
same_routine_lem two one e = cc
same_routine_lem two three e = cc
same_routine_lem two four e = cc
same_routine_lem three one e = cc
same_routine_lem three two e = cc
same_routine_lem three four e = cc
same_routine_lem four one e = cc
same_routine_lem four two e = cc
same_routine_lem four three e = cc

pub same_routine_self : (r : Routine) → same_routine r r ≡ true
same_routine_self one = refl
same_routine_self two = refl
same_routine_self three = refl
same_routine_self four = refl

differs : (r q : Routine) → r ≡ q → same_routine r q ≡ false → ⊥
differs r q e f =
    let own = same_routine_self r ∙ refl in
    let same : same_routine r q ≡ true = subst (λ p. same_routine r p ≡ true) e own in absurd (cc)

-- What holds of each thread's stage after one thread's has changed.
pub all_changed {κ} :
    (P : Routine → Stage → Type κ) (f : Routine → Stage) (r : Routine) (x : Stage)
    → P r x
    → ((q : Routine) → r ≢ q → P q (f q))
    → (q : Routine) → P q (changed f r x q)
all_changed P f r x here there q = elim (Bool-cases (same_routine r q)) [
  | inl same ↦ rw same (subst (λ p. P p x) (same_routine_lem r q same) here)
  | inr differ ↦ rw differ (there q (λ e. differs r q e differ))
]
