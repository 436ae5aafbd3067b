-- ===== src/MyString/Tests.antt =====
-- Runs of the string class on small inputs, and inputs that the theorems apply to.
use linux_cpp_learn.Prelude.{
  update, ℕ, suc, zero, List, [], ◌∷◌, none, some, length, ◌≡◌, refl, arith, ap,
}
use linux_cpp_learn.MyString.{Store, append, assign_from}
use linux_cpp_learn.MyString.Memory.{terminated, IsText, read_string-terminated, read_string}
use linux_cpp_learn.MyString.Represents.{Strings, Represents}
use linux_cpp_learn.MyString.Refines.{no_strings, run_refines, run_frees_all}
use linux_cpp_learn.MyString.Faults.{assign_from_own_text, append_overruns}
use linux_cpp_learn.MyString.System.{
  Action, makes, makes_from, makes_copy, destroys, appends, run, resolve, Runs, done, does,
  does_make, does_make_from, does_make_copy, does_destroy, does_append, does_append_self, array,
  c_str, empty_store, array_says,
}

abbrev hello : List ℕ
hello = 104 ∷ 105 ∷ []

-- main's objects: one from a text, a copy of it, and one that the copy is appended to.
abbrev main_acts : List Action
main_acts = makes_from 0 (array (terminated hello)) ∷ makes_copy 1 0 ∷ makes 2 ∷ appends 2 1 ∷ []

abbrev main_strings : Strings
main_strings =
    update (update (update (update no_strings 0 (some hello)) 1 (some hello)) 2 (some [])) 2
      (some hello)

main_Runs : Runs no_strings main_acts main_strings
unfolding read_string terminated
main_Runs = does (does_make_from refl (array_says refl) (omega arith)) (
    does (does_make_copy refl refl)
      (does (does_make refl) (does (does_append refl refl refl (omega arith)) done)))

run_refines_example : (t : Store) × (run main_acts empty_store ≡ some t) × Represents main_strings t
run_refines_example = run_refines main_acts main_strings main_Runs

abbrev short_acts : List Action
short_acts = makes 0 ∷ appends 0 0 ∷ destroys 0 ∷ []

short_Runs :
    Runs no_strings short_acts (update (update (update no_strings 0 (some [])) 0 (some [])) 0 none)
short_Runs =
    does (does_make refl)
      (does (does_append_self refl (omega arith)) (does (does_destroy refl) done))

run_frees_all_example :
    (t : Store) × (run short_acts empty_store ≡ some t) × ((b : ℕ) → t.block b ≡ none)
run_frees_all_example =
    run_frees_all short_acts (update (update (update no_strings 0 (some [])) 0 (some [])) 0 none)
      short_Runs (λ i. ground arith)

abbrev main_store : Store
main_store = (run_refines main_acts main_strings main_Runs).0

main_store-Represents : Represents main_strings main_store
main_store-Represents = (run_refines main_acts main_strings main_Runs).2

own_text_faults : assign_from main_store 1 (resolve main_store (c_str 1 1)) ≡ none
own_text_faults = assign_from_own_text main_strings main_store 1 1 hello main_store-Represents refl

-- A string of n letters.
unfoldable letters : ℕ → List ℕ
letters zero = []
letters (suc n) = 65 ∷ letters n

letters-IsText : (n : ℕ) → IsText (letters n)
unfolding letters
letters-IsText zero = tt
letters-IsText (suc n) = (omega arith, letters-IsText n)

length-letters : (n : ℕ) → length (letters n) ≡ n
unfolding letters
length-letters zero = refl
length-letters (suc n) = ap suc (length-letters n)

-- A string of 2 ^ 31 letters, and an empty one.
abbrev big_text : List ℕ
big_text = letters 2147483648

abbrev big_acts : List Action
big_acts = makes_from 0 (array (terminated big_text)) ∷ makes 1 ∷ []

abbrev big_strings : Strings
big_strings = update (update no_strings 0 (some big_text)) 1 (some [])

length-big_text : length big_text ≡ 2147483648
length-big_text = length-letters 2147483648

big_Runs : Runs no_strings big_acts big_strings
big_Runs =
    does
      (does_make_from refl
        (array_says (read_string-terminated big_text (letters-IsText 2147483648)))
        (omega (arith, length-big_text)))
      (does (does_make refl) done)

big_overruns : append (run_refines big_acts big_strings big_Runs).0 1 0 ≡ none
big_overruns =
    append_overruns big_strings (run_refines big_acts big_strings big_Runs).0 1 0 [] big_text
      (run_refines big_acts big_strings big_Runs).2 refl refl refl (omega (arith, length-big_text))
      (omega (arith, length-big_text))
