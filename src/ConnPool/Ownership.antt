-- ===== src/ConnPool/Ownership.antt =====
-- Every connection that was made is idle, lent or deleted, and in one place only.
use mathlib.Core.List.{Perm, perm_middle, perm_append_comm, map-append}
use mathlib.Core.List.Perm
use linux_cpp_learn.Prelude.{
  ℕ, zero, suc, Bool, List, [], ◌∷◌, ◌++◌, Option, none, some, arith, append_assoc, map, ◌≡◌, refl,
  inl, inr, Option-cases, ltb, Bool-cases, leb, length,
}
use linux_cpp_learn.ConnPool.{
  Conn, ConnPool, give_back, produce_conn, recycle_conn, create, add_conn, fill,
}
use linux_cpp_learn.Prelude.Int.{to_unsigned}
use linux_cpp_learn.ConnPool.JsonConf.{Root, parsed}
use linux_cpp_learn.ConnPool.Recycle.{recycle_conn-Recycled}
use linux_cpp_learn.ConnPool.System.{
  Sys, Action, gets, returns, produces, recycles, pick, step, run, after_get, after_pick,
  after_produce, passes,
}
use linux_cpp_learn.ConnPool.Limits.{grant, get_conn_lem}

abbrev pub ids : List Conn → List ℕ
ids = map λ c. c.id

-- The numbers below n.
abbrev pub below : ℕ → List ℕ
below zero = []
below (suc n) = n ∷ below n

abbrev pub IsOwned : Sys → Type 0
IsOwned s = Perm (ids s.pool.queue ++ (ids s.lent ++ ids s.deleted)) (below s.pool.made)

left_comm : (xs ys zs : List ℕ) → Perm (xs ++ (ys ++ zs)) (ys ++ (xs ++ zs))
left_comm xs ys zs =
    rw (← append_assoc xs ys zs, ← append_assoc ys xs zs)
      (Perm.append_right zs (perm_append_comm xs ys))

after_grant-IsOwned :
    (s : Sys) (now : ℕ) (ok : Bool) (q : List Conn)
    → s.pool.queue ≡ q
    → IsOwned s
    → IsOwned (after_get s (grant s.pool now ok q))
unfolding after_get grant
after_grant-IsOwned s now ok (c ∷ rest) e h =
    Perm.trans (perm_middle (ids rest) (ids s.lent ++ ids s.deleted)) (rw e at h)
after_grant-IsOwned s now ok [] e h = elim (Bool-cases (ltb 0 s.pool.max_size)) [
  | inl made ↦ rw made (Perm.cons s.pool.made (rw e at h))
  | inr none_made ↦ rw none_made h
]

pick-perm :
    (i : ℕ) (cs rest : List Conn) (c : Conn)
    → pick i cs ≡ some (c, rest)
    → Perm (c.id ∷ ids rest) (ids cs)
unfolding pick
pick-perm i [] rest c e = cc
pick-perm zero (d ∷ cs) rest c e =
    let same : d ≡ c = ground arith in
    let tail : cs ≡ rest = ground arith in rw (same, tail) Perm.rfl
pick-perm (suc i) (d ∷ cs) rest c e = elim (Option-cases (pick i cs)) [
  | inl missing ↦ absurd (ground arith)
  | inr ((x, others), found) ↦
      let same : x ≡ c = ground arith in
      let tail : d ∷ others ≡ rest = ground arith in
      rw (← same, ← tail)
        (Perm.trans (Perm.swap d.id x.id (ids others))
          (Perm.cons d.id (pick-perm i cs others x found)))
]

add-IsOwned :
    (s : Sys) (now : ℕ) (ok : Bool)
    → IsOwned s
    → IsOwned (record s { pool = add_conn s.pool now ok })
unfolding add_conn
add-IsOwned s now ok h =
    rw
      (
        map-append (λ (c : Conn). c.id) s.pool.queue _,
        append_assoc (ids s.pool.queue) (s.pool.made ∷ []) (ids s.lent ++ ids s.deleted),
      )
      (Perm.trans (perm_middle (ids s.pool.queue) (ids s.lent ++ ids s.deleted))
        (Perm.cons s.pool.made h))

produce-IsOwned :
    (s : Sys) (now : ℕ) (ok : Bool)
    → IsOwned s
    → IsOwned (after_produce s (produce_conn s.pool now ok))
unfolding after_produce produce_conn
produce-IsOwned s now ok h = elim (Bool-cases (leb s.pool.min_size (length s.pool.queue))) [
  | inl enough ↦ rw enough h
  | inr few ↦ rw few (add-IsOwned s now ok h)
]

return-IsOwned :
    (s : Sys) (i now : ℕ) (r : Option (Conn × List Conn))
    → pick i s.lent ≡ r
    → IsOwned s
    → IsOwned (after_pick s now r)
unfolding after_pick give_back
return-IsOwned s i now none e h = h
return-IsOwned s i now (some (c, rest)) e h =
    rw
      (
        map-append (λ (c : Conn). c.id) s.pool.queue _,
        append_assoc (ids s.pool.queue) (c.id ∷ []) (ids rest ++ ids s.deleted),
      )
      (Perm.trans
        (Perm.append_left (ids s.pool.queue)
          (Perm.append_right (ids s.deleted) (pick-perm i s.lent rest c e)))
        h)

recycle_perm :
    (q kept gone : List Conn) (lent deleted : List ℕ)
    → q ≡ gone ++ kept
    → Perm (ids kept ++ (lent ++ (ids gone ++ deleted))) (ids q ++ (lent ++ deleted))
recycle_perm q kept gone lent deleted e =
    rw (e, map-append (λ (c : Conn). c.id) gone kept)
      (Perm.trans (Perm.append_left (ids kept) (left_comm lent (ids gone) deleted)) (
        Perm.trans (left_comm (ids kept) (ids gone) (lent ++ deleted))
          (rw (append_assoc (ids gone) (ids kept) (lent ++ deleted)) Perm.rfl)))

recycle-IsOwned : (s : Sys) (now : ℕ) → IsOwned s → IsOwned (step (recycles now) s)
unfolding step recycle_conn
recycle-IsOwned s now h =
    let (_, gone) = recycle_conn s.pool now in
    rw (map-append (λ (c : Conn). c.id) gone s.deleted) (
      Perm.trans
        (recycle_perm s.pool.queue _ gone (ids s.lent) (ids s.deleted)
          (recycle_conn-Recycled s.pool now).split)
        h)

step-IsOwned : (a : Action) (s : Sys) → IsOwned s → IsOwned (step a s)
unfolding step
step-IsOwned (gets now ok) s h =
    rw (get_conn_lem passes s.pool now ok (omega arith))
      (after_grant-IsOwned s now ok s.pool.queue refl h)
step-IsOwned (returns i now) s h = return-IsOwned s i now (pick i s.lent) refl h
step-IsOwned (produces now ok) s h = produce-IsOwned s now ok h
step-IsOwned (recycles now) s h = recycle-IsOwned s now h

run-IsOwned : (acts : List Action) (s : Sys) → IsOwned s → IsOwned (run acts s)
unfolding run
run-IsOwned [] s h = h
run-IsOwned (a ∷ rest) s h = run-IsOwned rest (step a s) (step-IsOwned a s h)

abbrev pub opened : ConnPool → Sys
opened p = record { pool = p; lent = []; deleted = [] }

fill-IsOwned :
    (n : ℕ) (p : ConnPool) (env : ℕ → ℕ × Bool)
    → IsOwned (opened p)
    → IsOwned (opened (fill n p env))
unfolding fill
fill-IsOwned zero p env h = h
fill-IsOwned (suc n) p env h =
    fill-IsOwned n (add_conn p (env p.made).0 (env p.made).1) env
      (add-IsOwned (opened p) (env p.made).0 (env p.made).1 h)

create-IsOwned :
    (r : Root) (env : ℕ → ℕ × Bool) (p : ConnPool) → create r env ≡ some p → IsOwned (opened p)
unfolding create
create-IsOwned r env p e = elim (Bool-cases r.is_object) [
  | inl read ↦
      let same : fill (to_unsigned 32 r.min_size) (blank r) env ≡ p = ground arith in
      rw (← same) (fill-IsOwned (to_unsigned 32 r.min_size) (blank r) env Perm.nil)
  | inr failed ↦ absurd (ground arith)
]
  where
    blank : Root → ConnPool
    blank r = record { config = parsed r; queue = []; made = 0 }

-- From a pool that the constructor set up, after any sequence of calls of getConn, returned
-- connections and rounds of the producer and the recycler, at any times and with any answers of the
-- server: the connections that are idle, lent or deleted are all that were ever made, each in
-- exactly one of the three and there once.
pub run-IsOwned_of_create :
    (r : Root) (env : ℕ → ℕ × Bool) (p : ConnPool) (acts : List Action)
    → create r env ≡ some p
    → let s = run acts (opened p) in
      Perm (ids s.pool.queue ++ (ids s.lent ++ ids s.deleted)) (below s.pool.made)
run-IsOwned_of_create r env p acts e = run-IsOwned acts (opened p) (create-IsOwned r env p e)
