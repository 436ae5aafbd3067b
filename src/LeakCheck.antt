-- ===== src/LeakCheck.antt =====
-- memoryleak_check/dlsym_hook.c: malloc and free that keep a file for each block of memory. What the
-- C library answers is given with a call; the output of printf is left out.
pub mod Files
pub mod Macro
pub mod Program
pub mod Leaks
pub mod Faults
mod Tests
use linux_cpp_learn.Prelude.{
  ℕ, zero, suc, ◌+◌, ◌-◌, ◌%◌, ◌^◌, List, [], ◌∷◌, Bool, true, false, Option, none, some, ◌>>=◌,
  ltb, if◌then◌else◌,
}
use linux_cpp_learn.LeakCheck.Files.{File, write_file, unlink}

-- A call of malloc: the size, the return address of the call, the address that malloc_f gives, and
-- where dladdr1 says that the code of the caller was loaded.
pub record Request : Type 0 where
  pub bytes : ℕ
  pub caller : ℕ
  pub address : ℕ
  pub l_addr : ℕ

-- The hooks' flags, the files, the number of files open, the addresses given to free_f, and the
-- double frees printed, the last first.
pub record Hooks : Type 0 where
  pub enable_malloc_hook : Bool
  pub enable_free_hook : Bool
  pub files : List (File ℕ)
  pub opened : ℕ
  pub freed : List ℕ
  pub reported : List ℕ

-- `ConvertToELF`
unfoldable pub convert_to_elf : (addr l_addr : ℕ) → ℕ
convert_to_elf addr l_addr = (addr + 2 ^ 64 - l_addr) % 2 ^ 64

-- What the hook writes for a call.
unfoldable pub file_of : Request → File ℕ
unfolding convert_to_elf
file_of r = record { name = r.address; place = convert_to_elf r.caller r.l_addr; size = r.bytes }

-- The calls of malloc that a function of the C library makes.
unfoldable pub inner_calls : (Hooks → Request → Option Hooks) → List Request → Hooks → Option Hooks
inner_calls alloc [] s = some s
inner_calls alloc (r ∷ rs) s = do s' ← alloc s r; inner_calls alloc rs s'

-- From fopen to fflush. fopen answers NULL when `limit` files are open, and fprintf then is a fault.
unfoldable pub record_block : (limit : ℕ) → Request → Hooks → Option Hooks
unfolding file_of write_file
record_block limit r s =
    if ltb s.opened limit
    then some (record s { files = write_file (file_of r) s.files; opened = suc s.opened })
    else none

-- `malloc`, which returns r.address. fopen calls malloc itself, as `inner` says; the fuel bounds the
-- depth of such calls.
unfoldable pub malloc : (limit : ℕ) → List Request → ℕ → Hooks → Request → Option Hooks
unfolding inner_calls record_block
malloc limit inner zero s r = none
malloc limit inner (suc fuel) s r =
    if s.enable_malloc_hook
    then (do
      s1 ← inner_calls (malloc limit inner fuel) inner (record s { enable_malloc_hook = false })
      s2 ← record_block limit r s1
      some (record s2 { enable_malloc_hook = true }))
    else some s

-- `free`; the hooked call of malloc that printf may make for its buffer is left out.
unfoldable pub free : Hooks → ℕ → Hooks
unfolding unlink
free s ptr =
    if s.enable_free_hook
    then elim (unlink ptr s.files) [
      | none ↦ record s { enable_free_hook = false; reported = ptr ∷ s.reported }
      | some fs ↦ record s { enable_free_hook = true; files = fs; freed = ptr ∷ s.freed }
    ]
    else record s { freed = ptr ∷ s.freed }
