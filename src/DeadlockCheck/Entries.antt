-- ===== src/DeadlockCheck/Entries.antt =====
-- The entry of a lock in deadlock_check/deadlock_check.c's lock_list under the hooks.
use linux_cpp_learn.Prelude.{
  ℕ, suc, List, [], ◌∷◌, some, ◌≡◌, refl, arith, Option-cases, inl, inr, Bool-cases, get_elem?, set,
  get_elem?-set_self, ◌==◌,
}
use linux_cpp_learn.Prelude.Int.{pos}
use linux_cpp_learn.DeadlockCheck.Locks.{
  TaskGraph, LockInfo, thread, wait_for, lock_before, lock_after, unlock_after, search_lock,
  plus_one, minus_one,
}

search_lock-get_elem? :
    (xs : List LockInfo) (l i : ℕ)
    → search_lock xs l ≡ some i
    → (x : LockInfo) × (get_elem? xs i ≡ some x) × (x.lock_id ≡ l)
unfolding search_lock
search_lock-get_elem? [] l i h = cc
search_lock-get_elem? (x ∷ xs) l i h = elim (Bool-cases (x.lock_id == l)) [
  | inl same ↦ (x, ground (arith, h, same), ground (arith, same))
  | inr differ ↦ elim (Option-cases (search_lock xs l)) [
    | inl e ↦ absurd (ground (arith, h, e, differ))
    | inr (j, e) ↦
        let (y, f, t) = search_lock-get_elem? xs l j e in (y, ground (arith, h, e, f, differ), t)
  ]
]

-- A change of the found entry that keeps its lock leaves it the one found.
search_lock-set :
    (xs : List LockInfo) (l i : ℕ) (x : LockInfo)
    → search_lock xs l ≡ some i
    → x.lock_id ≡ l
    → search_lock (set xs i x) l ≡ some i
unfolding search_lock
search_lock-set [] l i x h e = cc
search_lock-set (y ∷ xs) l i x h e = elim (Bool-cases (y.lock_id == l)) [
  | inl same ↦ let first : i ≡ 0 = ground (arith, h, same) in rw first (ground (arith, e))
  | inr differ ↦ elim (Option-cases (search_lock xs l)) [
    | inl f ↦ absurd (ground (arith, h, f, differ))
    | inr (j, f) ↦
        let later : i ≡ suc j = ground (arith, h, f, differ) in
        rw later (ground (arith, search_lock-set xs l j x f e, differ))
  ]
]

-- The entry of the lock l is x, at the place i.
pub record HasEntry (xs : List LockInfo) (l i : ℕ) (x : LockInfo) : Type 0 where
  pub found : search_lock xs l ≡ some i
  pub at : get_elem? xs i ≡ some x

HasEntry-lock_id : (xs : List LockInfo) (l i : ℕ) (x : LockInfo) → HasEntry xs l i x → x.lock_id ≡ l
HasEntry-lock_id xs l i x h =
    let (y, f, e) = search_lock-get_elem? xs l i h.found in ground (arith, f, e, h.at)

HasEntry-set :
    (xs : List LockInfo) (l i : ℕ) (x y : LockInfo)
    → HasEntry xs l i x
    → y.lock_id ≡ l
    → HasEntry (set xs i y) l i y
HasEntry-set xs l i x y h e = record {
  found = search_lock-set xs l i y h.found e;
  at = get_elem?-set_self xs i y x h.at;
}

module _ (t l i : ℕ) (tg u : TaskGraph) (x : LockInfo) (h : HasEntry tg.lock_list l i x) where
  -- A thread that asks for a lock with an entry is counted there.
  pub lock_before-HasEntry :
      lock_before t l tg ≡ some u
      → HasEntry u.lock_list l i (record x { degress = plus_one x.degress })
  unfolding lock_before
  lock_before-HasEntry e =
      let y : LockInfo = record x { degress = plus_one x.degress } in
      let list : u.lock_list ≡ set tg.lock_list i y =
        elim (Option-cases (wait_for tg.vertex_list (thread t) (thread x.th_id))) [
          | inl full ↦ absurd (ground (arith, e, h.found, h.at, full))
          | inr (g, w) ↦ ground (arith, e, h.found, h.at, w)
        ] in
      rw list (HasEntry-set tg.lock_list l i x y h (HasEntry-lock_id tg.lock_list l i x h))

  -- A thread that gets such a lock is its owner.
  pub lock_after-HasEntry :
      lock_after t l tg ≡ some u
      → HasEntry u.lock_list l i (record { th_id = t; lock_id = l; degress = minus_one x.degress })
  unfolding lock_after
  lock_after-HasEntry e =
      let y : LockInfo = record { th_id = t; lock_id = l; degress = minus_one x.degress } in
      let list : u.lock_list ≡ set tg.lock_list i y =
        ground (arith, e, h.found, h.at, HasEntry-lock_id tg.lock_list l i x h) in
      rw list (HasEntry-set tg.lock_list l i x y h refl)

  -- With no thread counted, `unlock_after` empties the entry.
  pub unlock_after-set :
      x.degress ≡ pos 0
      → unlock_after t l tg ≡ some u
      → u.lock_list ≡ set tg.lock_list i (record { th_id = 0; lock_id = 0; degress = pos 0 })
  unfolding unlock_after
  unlock_after-set zero_count e = ground (arith, e, h.found, h.at, zero_count)
