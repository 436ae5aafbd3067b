-- ===== src/LeakCheck/Files.antt =====
-- The directory ./mem of memoryleak_check: a file for each block of memory, named by its address.
use linux_cpp_learn.Prelude.{
  ℕ, ◌≡◌, refl, List, [], ◌∷◌, ◌++◌, Bool, true, false, ◌||◌, Option, none, some, if◌then◌else◌,
  ◌==◌, arith, Bool-cases, inl, inr,
}

-- The file `name`.mem and what is written in it: the place of the call of malloc, and the size.
pub record File (A : Type 0) : Type 0 where
  pub name : ℕ
  pub place : A
  pub size : ℕ

module _ {A : Type 0} where
  unfoldable pub has : ℕ → List (File A) → Bool
  has p [] = false
  has p (f ∷ fs) = if f.name == p then true else has p fs

  unfoldable pub without : ℕ → List (File A) → List (File A)
  without p [] = []
  without p (f ∷ fs) = let rest = without p fs in if f.name == p then rest else f ∷ rest

  -- fopen(name, "w") and the writing: a file of that name is lost.
  unfoldable pub write_file : File A → List (File A) → List (File A)
  unfolding without
  write_file f fs = without f.name fs ++ f ∷ []

  -- `none` is the answer -1.
  unfoldable pub unlink : ℕ → List (File A) → Option (List (File A))
  unfolding has without
  unlink p fs = if has p fs then some (without p fs) else none

  pub without-absent : (p : ℕ) (fs : List (File A)) → has p fs ≡ false → without p fs ≡ fs
  unfolding has without
  without-absent p [] e = refl
  without-absent p (f ∷ fs) e = ground (arith, e, without-absent p fs)

  has-++ : (p : ℕ) (fs gs : List (File A)) → has p (fs ++ gs) ≡ (has p fs || has p gs)
  unfolding has
  has-++ p [] gs = refl
  has-++ p (f ∷ fs) gs = ground (arith, has-++ p fs gs)

  pub has-without :
      (p q : ℕ) (fs : List (File A)) → has p (without q fs) ≡ (if p == q then false else has p fs)
  unfolding has without
  has-without p q [] = ground arith
  has-without p q (f ∷ fs) = ground (arith, has-without p q fs)

  pub has-write_file :
      (p : ℕ) (f : File A) (fs : List (File A))
      → has p (write_file f fs) ≡ (if f.name == p then true else has p fs)
  unfolding write_file has
  has-write_file p f fs =
      let apart = has-++ p (without f.name fs) (f ∷ []) in
      let gone = has-without p f.name fs in
      elim (Bool-cases (f.name == p)) [
        | inl e ↦ ground (arith, e, apart, gone)
        | inr e ↦ ground (arith, e, apart, gone)
      ]
