-- ===== src/LeakCheck/Macro.antt =====
-- memoryleak_check/macro_hook.c: the same by macros, with the place of a call in the source.
use linux_cpp_learn.Prelude.{ℕ, List, ◌∷◌, none, some}
use linux_cpp_learn.LeakCheck.Files.{File, write_file, unlink}

-- `__FILE__`, `__FUNCTION__` and `__LINE__`
pub record Place : Type 0 where
  pub file : List ℕ
  pub func : List ℕ
  pub line : ℕ

-- A call of malloc, with the address that it is given.
pub record HookCall : Type 0 where
  pub bytes : ℕ
  pub place : Place
  pub address : ℕ

-- The files, the addresses given to free, and the double frees printed, the last first.
pub record Log : Type 0 where
  pub files : List (File Place)
  pub freed : List ℕ
  pub reported : List ℕ

unfoldable pub hook_file : HookCall → File Place
hook_file r = record { name = r.address; place = r.place; size = r.bytes }

-- `malloc_hook`, which returns r.address
unfoldable pub malloc_hook : Log → HookCall → Log
unfolding hook_file write_file
malloc_hook s r = record s { files = write_file (hook_file r) s.files }

unfoldable pub free_hook : Log → ℕ → Log
unfolding unlink
free_hook s p = elim (unlink p s.files) [
  | none ↦ record s { reported = p ∷ s.reported }
  | some fs ↦ record s { files = fs; freed = p ∷ s.freed }
]
