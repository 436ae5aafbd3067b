-- ===== src/ConnPool/Limits.antt =====
-- How many connections there are: what one call of getConn does, what the constructor and the
-- producer make, and that the upper limit does not count the connections that are lent.
use linux_cpp_learn.Prelude.{
  ℕ, zero, suc, ◌+◌, ◌-◌, ◌≤◌, ◌<◌, Bool, true, false, List, [], ◌∷◌, none, some, arith, ◌≡◌, refl,
  length, length-append, ltb, if◌then◌else◌, replicate, ap,
}
use linux_cpp_learn.Prelude.Int.{to_unsigned}
use linux_cpp_learn.ConnPool.{
  Conn, ConnPool, Got, took, waits, add_conn, get_conn, produce_conn, fill, create,
}
use linux_cpp_learn.ConnPool.JsonConf.{Root, Config, parsed}
use linux_cpp_learn.ConnPool.System.{Sys, gets, step, run, after_get, passes}

-- What getConn does, without its loop: the oldest idle connection, or a new one, or the wait.
unfoldable pub grant : ConnPool → ℕ → Bool → List Conn → Got
grant p now ok (c ∷ rest) = took c (record p { queue = rest })
grant p now ok [] =
    if ltb 0 p.max_size
    then took (record { id = p.made; connected = ok; alive_time = now })
        (record p { queue = []; made = suc p.made })
    else waits

get_conn-grant :
    (f : ℕ) (p : ConnPool) (now : ℕ) (ok : Bool) (q : List Conn)
    → p.queue ≡ q
    → get_conn (suc (suc f)) p now ok ≡ grant p now ok q
unfolding get_conn grant
get_conn-grant f p now ok [] e = ground arith
get_conn-grant f p now ok (c ∷ rest) e = ground arith

-- Two passes of getConn's loop are enough: it hands out the oldest idle connection; if none is idle
-- it makes one, whether or not `connect` succeeds, and hands that out; and it waits only if the
-- upper limit is 0.
pub get_conn_lem :
    (fuel : ℕ) (p : ConnPool) (now : ℕ) (ok : Bool)
    → 2 ≤ fuel
    → get_conn fuel p now ok ≡ grant p now ok p.queue
get_conn_lem zero p now ok h = absurd (omega arith)
get_conn_lem (suc zero) p now ok h = absurd (omega arith)
get_conn_lem (suc (suc f)) p now ok h = get_conn-grant f p now ok p.queue refl

length-add_conn :
    (p : ConnPool) (now : ℕ) (ok : Bool) → length (add_conn p now ok).queue ≡ suc (length p.queue)
unfolding add_conn
length-add_conn p now ok =
    omega
      (arith, length-append p.queue (record { id = p.made; connected = ok; alive_time = now } ∷ []))

after_grant-lent :
    (s : Sys) (now : ℕ) (ok : Bool)
    → 0 < s.pool.max_size
    → s.pool.queue ≡ []
    → let t = step (gets now ok) s in
      (length t.lent ≡ suc (length s.lent)) × (t.pool.queue ≡ []) × (t.pool.config ≡ s.pool.config)
unfolding step after_get grant
after_grant-lent s now ok pos e = ground (arith, get_conn_lem passes s.pool now ok, e)

-- The upper limit bounds no number of connections: from a pool with none idle whose upper limit is
-- not 0, any number n of calls of getConn, with nothing returned, lends n connections more.
pub lent_beyond_max_size :
    (n : ℕ) (s : Sys) (now : ℕ) (ok : Bool)
    → 0 < s.pool.max_size
    → s.pool.queue ≡ []
    → length (run (replicate n (gets now ok)) s).lent ≡ n + length s.lent
unfolding run
lent_beyond_max_size zero s now ok pos e = omega arith
lent_beyond_max_size (suc n) s now ok pos e =
    let (more, still, same) = after_grant-lent s now ok pos e in
    omega (
      arith,
      more,
      lent_beyond_max_size n (step (gets now ok) s) now ok
          (rw (ap (λ (c : Config). c.max_size) same) pos) still,
    )

length-fill :
    (n : ℕ) (p : ConnPool) (env : ℕ → ℕ × Bool) → length (fill n p env).queue ≡ length p.queue + n
unfolding fill
length-fill zero p env = omega arith
length-fill (suc n) p env = omega (
  arith,
  length-fill n (add_conn p (env p.made).0 (env p.made).1) env,
  length-add_conn p (env p.made).0 (env p.made).1,
)

-- A pool that the constructor sets up has exactly as many idle connections as the file's minSize
-- says when it is converted to a 32-bit unsigned number.
pub length-create :
    (r : Root) (env : ℕ → ℕ × Bool) (p : ConnPool)
    → create r env ≡ some p
    → length p.queue ≡ to_unsigned 32 r.min_size
unfolding create
length-create r env p e = ground (
  arith,
  length-fill (to_unsigned 32 r.min_size) (record { config = parsed r; queue = []; made = 0 }) env,
)

-- The inner loop of produceConn with every call of addConn it makes before the next wait; the flag
-- is true where it waits, and false where the model's fuel runs out.
pub produce_until : ℕ → ConnPool → (ℕ → ℕ × Bool) → ConnPool × Bool
produce_until zero p env = (p, false)
produce_until (suc fuel) p env = elim (produce_conn p (env p.made).0 (env p.made).1) [
  | none ↦ (p, true)
  | some q ↦ produce_until fuel q env
]

-- The producer reaches its wait: with fuel for one round more than there are connections missing,
-- it has made those, so that `min_size` are idle, or as many as before if there were more.
pub produce_until_waits :
    (fuel : ℕ) (p : ConnPool) (env : ℕ → ℕ × Bool)
    → p.min_size - length p.queue < fuel
    → ((produce_until fuel p env).1 ≡ true)
      × (length (produce_until fuel p env).0.queue ≡ length p.queue + (p.min_size - length p.queue))
unfolding produce_until produce_conn
produce_until_waits zero p env h = absurd (omega arith)
produce_until_waits (suc fuel) p env h =
    let (now, ok) = env p.made in
    ground (arith, length-add_conn p now ok, produce_until_waits fuel (add_conn p now ok) env)
