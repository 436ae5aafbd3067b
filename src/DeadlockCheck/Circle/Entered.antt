-- ===== src/DeadlockCheck/Circle/Entered.antt =====
-- The list of locks of deadlock_check/deadlock_check.c while every lock of a program is entered once.
use linux_cpp_learn.Prelude.{
  ℕ, zero, suc, List, [], ◌∷◌, ◌++◌, none, some, ◌≡◌, ◌≢◌, refl, arith, Option-cases, Bool-cases,
  inl, inr, get_elem?, set, length, ◌==◌, ltb,
}
use linux_cpp_learn.DeadlockCheck.{max}
use linux_cpp_learn.DeadlockCheck.Links.{get_elem?-append}
use linux_cpp_learn.DeadlockCheck.Locks.{
  TaskGraph, LockInfo, lock_before, lock_after, search_lock, search_empty_lock, claim,
}

-- The lock l has an entry, with the owner t.
abbrev pub IsOwned : List LockInfo → (l t : ℕ) → Type 0
IsOwned xs l t =
    (i : ℕ) × (x : LockInfo) × (search_lock xs l ≡ some i)
    × (get_elem? xs i ≡ some x)
    × (x.th_id ≡ t)

search_lock-append :
    (xs ys : List LockInfo) (l i : ℕ)
    → search_lock xs l ≡ some i
    → search_lock (xs ++ ys) l ≡ some i
unfolding search_lock
search_lock-append [] ys l i e = cc
search_lock-append (x ∷ xs) ys l i e = elim (Option-cases (search_lock xs l)) [
  | inl f ↦ ground (arith, e, f)
  | inr (j, f) ↦ ground (arith, e, f, search_lock-append xs ys l j f)
]

pub search_lock-missing :
    (xs : List LockInfo) (x : LockInfo) (l : ℕ)
    → search_lock xs l ≡ none
    → x.lock_id ≢ l
    → search_lock (xs ++ x ∷ []) l ≡ none
unfolding search_lock
search_lock-missing [] x l e ne = ground (arith, ne)
search_lock-missing (y ∷ xs) x l e ne = elim (Option-cases (search_lock xs l)) [
  | inl f ↦ ground (arith, e, f, search_lock-missing xs x l f ne)
  | inr (j, f) ↦ ground (arith, e, f)
]

search_lock-added :
    (xs : List LockInfo) (x : LockInfo)
    → search_lock xs x.lock_id ≡ none
    → search_lock (xs ++ x ∷ []) x.lock_id ≡ some (length xs)
unfolding search_lock
search_lock-added [] x e = ground arith
search_lock-added (y ∷ xs) x e = elim (Option-cases (search_lock xs x.lock_id)) [
  | inl f ↦ ground (arith, e, f, search_lock-added xs x f)
  | inr (j, f) ↦ absurd (ground (arith, e, f))
]

pub get_elem?-length {ℓ} : {A : Type ℓ} (xs : List A) → get_elem? xs (length xs) ≡ none
get_elem?-length [] = refl
get_elem?-length (x ∷ xs) = get_elem?-length xs

get_elem?-added {ℓ} :
    {A : Type ℓ} (xs : List A) (x : A) → get_elem? (xs ++ x ∷ []) (length xs) ≡ some x
get_elem?-added [] x = refl
get_elem?-added (y ∷ xs) x = get_elem?-added xs x

pub IsOwned-append : (xs ys : List LockInfo) (l t : ℕ) → IsOwned xs l t → IsOwned (xs ++ ys) l t
IsOwned-append xs ys l t (i, x, f, at, o) =
    (i, x, search_lock-append xs ys l i f, get_elem?-append xs ys i x at, o)

pub IsOwned-added :
    (xs : List LockInfo) (x : LockInfo)
    → search_lock xs x.lock_id ≡ none
    → IsOwned (xs ++ x ∷ []) x.lock_id x.th_id
IsOwned-added xs x e = (length xs, x, search_lock-added xs x e, get_elem?-added xs x, refl)

pub search_empty_lock-added :
    (xs : List LockInfo) (x : LockInfo)
    → search_empty_lock xs ≡ length xs
    → x.lock_id ≢ 0
    → search_empty_lock (xs ++ x ∷ []) ≡ length (xs ++ x ∷ [])
unfolding search_empty_lock
search_empty_lock-added [] x e ne = ground (arith, ne)
search_empty_lock-added (y ∷ xs) x e ne = elim (Bool-cases (y.lock_id == 0)) [
  | inl f ↦ absurd (ground (arith, e, f))
  | inr f ↦ ground (arith, e, f, search_empty_lock-added xs x (ground (arith, e, f)) ne)
]

-- An entry changed to one of the same lock leaves each lock its entry.
search_lock-set_same :
    (xs : List LockInfo) (l i : ℕ) (x y : LockInfo)
    → get_elem? xs i ≡ some x
    → y.lock_id ≡ x.lock_id
    → search_lock (set xs i y) l ≡ search_lock xs l
unfolding search_lock
search_lock-set_same [] l i x y e f = refl
search_lock-set_same (z ∷ xs) l zero x y e f = ground (arith, e, f)
search_lock-set_same (z ∷ xs) l (suc i) x y e f =
    ground (arith, search_lock-set_same xs l i x y e f)

set-th_id :
    (xs : List LockInfo) (i j : ℕ) (x y z : LockInfo)
    → get_elem? xs i ≡ some x
    → y.th_id ≡ x.th_id
    → get_elem? xs j ≡ some z
    → (w : LockInfo) × (get_elem? (set xs i y) j ≡ some w) × (w.th_id ≡ z.th_id)
set-th_id [] i j x y z e f g = cc
set-th_id (v ∷ xs) zero zero x y z e f g = (y, refl, ground (arith, e, f, g))
set-th_id (v ∷ xs) zero (suc j) x y z e f g = (z, g, refl)
set-th_id (v ∷ xs) (suc i) zero x y z e f g = (z, g, refl)
set-th_id (v ∷ xs) (suc i) (suc j) x y z e f g = set-th_id xs i j x y z e f g

-- Counting a thread that waits leaves each lock its owner.
pub IsOwned-set :
    (xs : List LockInfo) (l t i : ℕ) (x y : LockInfo)
    → get_elem? xs i ≡ some x
    → y.lock_id ≡ x.lock_id
    → y.th_id ≡ x.th_id
    → IsOwned xs l t
    → IsOwned (set xs i y) l t
IsOwned-set xs l t i x y e f g (j, z, h, at, o) =
    let (w, k, same) = set-th_id xs i j x y z e g at in
    (j, w, ground (arith, search_lock-set_same xs l i x y e f, h), k, ground (arith, same, o))

-- `lock_before` of a lock with no entry does nothing.
pub lock_before-none :
    (t l : ℕ) (tg : TaskGraph) → search_lock tg.lock_list l ≡ none → lock_before t l tg ≡ some tg
unfolding lock_before
lock_before-none t l tg e = ground (arith, e)

-- `lock_after` of such a lock enters it behind a list with no empty entry.
pub lock_after-none :
    (t l : ℕ) (tg u : TaskGraph)
    → search_lock tg.lock_list l ≡ none
    → search_empty_lock tg.lock_list ≡ length tg.lock_list
    → lock_after t l tg ≡ some u
    → (u.vertex_list ≡ tg.vertex_list)
      × (x : LockInfo) × (u.lock_list ≡ tg.lock_list ++ x ∷ [])
      × (x.lock_id ≡ l)
      × (x.th_id ≡ t)
unfolding lock_after claim
lock_after-none t l tg u e f g =
    let last = get_elem?-length tg.lock_list in
    elim (Bool-cases (ltb (length tg.lock_list) max)) [
      | inr out ↦ absurd (ground (arith, e, f, g, last, out))
      | inl room ↦ (
        ground (arith, e, f, g, last, room),
        record { th_id = t; lock_id = l; degress = tg.uninit (length tg.lock_list) },
        ground (arith, e, f, g, last, room),
        refl,
        refl,
      )
    ]
