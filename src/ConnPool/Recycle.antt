-- ===== src/ConnPool/Recycle.antt =====
-- The inner loop of recycleConn against a description of what it may delete.
use linux_cpp_learn.Prelude.{
  ℕ, suc, ◌≤◌, ◌<◌, true, false, List, [], ◌∷◌, ◌++◌, arith, ◌≡◌, refl, ◌⊎◌, inl, inr, All, length,
  length-append, ltb, Bool-cases, ltb→lt, ap,
}
use linux_cpp_learn.Prelude.Int.{ℤ, at_least}
use linux_cpp_learn.ConnPool.{Conn, ConnPool, get_alive_time, recycle_loop, recycle_conn}

module _ (min : ℕ) (idle : ℤ) (now : ℕ) where
  -- It has been idle for as long as the limit says.
  abbrev pub IsExpired : Conn → Type 0
  IsExpired c = at_least (get_alive_time now c) idle ≡ true

  -- The first connection, if any, has not expired.
  abbrev pub HeadIsFresh : List Conn → Type 0
  HeadIsFresh [] = Unit
  HeadIsFresh (c ∷ cs) = at_least (get_alive_time now c) idle ≡ false

  -- The queue is split in two: the part deleted, in front, has expired; the loop stopped at the
  -- lower limit or at a connection that has not; and it deleted nothing below the limit.
  pub record Recycled (queue kept gone : List Conn) : Type 0 where
    pub split : queue ≡ gone ++ kept
    pub all_expired : All IsExpired gone
    pub stopped : (length kept ≤ min) ⊎ HeadIsFresh kept
    pub floor : (gone ≡ []) ⊎ (min ≤ length kept)

  kept_floor :
      (cs kept gone : List Conn) → min < suc (length cs) → Recycled cs kept gone → min ≤ length kept
  kept_floor cs kept gone h r = elim r.floor [
    | inl nothing ↦ omega (arith, ap length r.split, length-append gone kept, ap length nothing)
    | inr enough ↦ enough
  ]

  pub recycle_loop-Recycled :
      (q : List Conn) → Recycled q (recycle_loop min idle now q).0 (recycle_loop min idle now q).1
  unfolding recycle_loop
  recycle_loop-Recycled [] = record {
    split = refl;
    all_expired = tt;
    stopped = inr tt;
    floor = inl refl;
  }
  recycle_loop-Recycled (c ∷ cs) = elim (Bool-cases (ltb min (length (c ∷ cs)))) [
    | inr low ↦
        rw low (record {
          split = refl;
          all_expired = tt;
          stopped = inl (ground arith);
          floor = inl refl;
        })
    | inl above ↦ elim (Bool-cases (at_least (get_alive_time now c) idle)) [
      | inr fresh ↦
          rw (above, fresh)
            (record { split = refl; all_expired = tt; stopped = inr fresh; floor = inl refl })
      | inl old ↦
          let rest = recycle_loop-Recycled cs in
          rw (above, old)
            (record {
              split = ap (◌∷◌ c) rest.split;
              all_expired = (old, rest.all_expired);
              stopped = rest.stopped;
              floor = inr (kept_floor cs _ _ (ltb→lt _ _ above) rest);
            })
    ]
  ]

-- recycleConn splits the queue in two: the connections deleted are the first ones and have all been
-- idle for the limit or longer; the rest stay in order; it stops at `min_size` or at a connection
-- that is not old enough; and where it deletes, at least `min_size` connections stay.
pub recycle_conn-Recycled :
    (p : ConnPool) (now : ℕ)
    → Recycled p.min_size p.max_idle_time now p.queue
        (recycle_conn p now).0.queue
        (recycle_conn p now).1
unfolding recycle_conn
recycle_conn-Recycled p now = recycle_loop-Recycled p.min_size p.max_idle_time now p.queue
