-- ===== src/SharedPtr.antt =====
-- bagu/simpleShared_ptr.cpp: the counted pointer over an explicit heap of counts and objects.
-- `none` is a fault: a read of a count that was deleted, or a second delete of an object.
-- The assignment operator is left out: it compares a pointer with an object and does not compile
-- when it is used.
pub mod System
pub mod Counts
mod Tests
use linux_cpp_learn.Prelude.{
  update, ℕ, zero, suc, ◌+◌, ◌-◌, Bool, true, false, Option, none, some, ◌==◌, if◌then◌else◌,
}

-- The counts and whether each object is alive; both are numbered by `new`.
pub record Heap : Type 0 where
  pub counts : ℕ → Option ℕ
  pub alive : ℕ → Bool
  pub next : ℕ

-- myShared_ptr's fields: the number of the object and of its count.
pub record Handle : Type 0 where
  pub ptr : ℕ
  pub count : ℕ

-- `myShared_ptr(new T)`: the object and its count, which starts at 1.
unfoldable pub make : Heap → Heap × Handle
make h = (
  record h {
    counts = update h.counts h.next (some 1);
    alive = update h.alive h.next true;
    next = suc h.next;
  },
  record { ptr = h.next; count = h.next },
)

-- The copy constructor; the count pointer is never null.
unfoldable pub copy : Heap → Handle → Option (Heap × Handle)
copy h s = elim (h.counts s.count) [
  | none ↦ none
  | some n ↦ some (record h { counts = update h.counts s.count (some (n + 1)) }, s)
]

-- `delete ptr; delete count;`
unfoldable pub delete_both : Heap → Handle → Option Heap
delete_both h s =
    if h.alive s.ptr
    then some
        (record h { counts = update h.counts s.count none; alive = update h.alive s.ptr false })
    else none

-- `release`, which is the destructor.
unfoldable pub release : Heap → Handle → Option Heap
unfolding delete_both
release h s = elim (h.counts s.count) [
  | none ↦ none
  | some n ↦
      if n - 1 == 0
      then delete_both h s
      else some (record h { counts = update h.counts s.count (some (n - 1)) })
]

unfoldable pub use_count : Heap → Handle → Option ℕ
use_count h s = h.counts s.count
