-- ===== src/ConnPool/Bench/Bound.antt =====
-- How many connections there are while the threads of connection_pool/main.cpp's test2 run.
use linux_cpp_learn.Prelude.{
  ℕ, ◌+◌, ◌≤◌, ◌<◌, ◌≡◌, ◌⊎◌, refl, Bool, List, [], ◌∷◌, Option, none, some, arith, get_elem?, set,
  All, length, length-append, length-set, total, total-set, total-le, ltb, leb, Bool-cases, inl,
  inr, ap, ◌∙◌,
}
use linux_cpp_learn.ConnPool.{Conn, ConnPool, produce_conn, add_conn, recycle_conn}
use linux_cpp_learn.ConnPool.System.{passes}
use linux_cpp_learn.ConnPool.Limits.{grant, get_conn_lem}
use linux_cpp_learn.ConnPool.Recycle.{recycle_conn-Recycled}
use linux_cpp_learn.ConnPool.Bench.{
  Phase, at_top, has, sent, Client, after_get_conn, op2_step, Bench, Move, client, produces,
  recycles, client_step, after_produce, step, run, start,
}

-- The connections of a thread in this phase.
unfoldable pub held_in : Phase → ℕ
held_in at_top = 0
held_in (has c) = 1
held_in (sent c) = 1

abbrev pub held : Client → ℕ
held t = held_in t.phase

held_in-le : (ph : Phase) → held_in ph ≤ 1
unfolding held_in
held_in-le at_top = omega arith
held_in-le (has c) = omega arith
held_in-le (sent c) = omega arith

-- After a step of a thread: either the connections are as many as before, or none is idle; and the
-- lower limit is the same.
pub record Moved (t t' : Client) (p p' : ConnPool) : Type 0 where
  pub few : (length p'.queue + held t' ≡ length p.queue + held t) ⊎ (length p'.queue ≡ 0)
  pub same_min : p'.min_size ≡ p.min_size

grant-Moved :
    (t : Client) (pool : ConnPool) (now : ℕ) (ok : Bool) (q : List Conn)
    → t.phase ≡ at_top
    → pool.queue ≡ q
    → let r = after_get_conn t pool (grant pool now ok q) in Moved t r.0 pool r.1
unfolding after_get_conn grant held_in
grant-Moved t pool now ok [] e q = elim (Bool-cases (ltb 0 pool.max_size)) [
  | inl made ↦ rw made (record { few = inr refl; same_min = refl })
  | inr none_made ↦ rw none_made (record { few = inl refl; same_min = refl })
]
grant-Moved t pool now ok (c ∷ rest) e q = record {
  few = inl (omega (arith, ap length q, ap held_in e));
  same_min = refl;
}

op2_step-Moved :
    (ph : Phase) (t : Client) (pool : ConnPool) (now : ℕ) (ok : Bool)
    → t.phase ≡ ph
    → let r = op2_step ph t pool now ok in Moved t r.0 pool r.1
unfolding op2_step held_in
op2_step-Moved at_top t pool now ok e = elim (Bool-cases (ltb t.i t.last)) [
  | inl more ↦
      let lem = get_conn_lem passes pool now ok (omega arith) in
      rw (more, lem) (grant-Moved t pool now ok pool.queue e refl)
  | inr over ↦ rw over (record { few = inl refl; same_min = refl })
]
op2_step-Moved (has c) t pool now ok e = record {
  few = inl (omega (arith, ap held_in e));
  same_min = refl;
}
op2_step-Moved (sent c) t pool now ok e = record {
  few =
      inl (
        omega (arith, ap held_in e, length-append pool.queue (record c { alive_time = now } ∷ [])));
  same_min = refl;
}

-- With n threads there are at most m + n connections that are idle or with a thread.
pub record IsBounded (m n : ℕ) (s : Bench) : Type 0 where
  pub few : length s.pool.queue + total held s.clients ≤ m + n
  pub threads : length s.clients ≡ n
  pub lower : s.pool.min_size ≤ m

client_step-IsBounded :
    (m n k : ℕ) (o : Option Client) (now : ℕ) (ok : Bool) (s : Bench)
    → get_elem? s.clients k ≡ o
    → IsBounded m n s
    → IsBounded m n (client_step k o now ok s)
unfolding client_step
client_step-IsBounded m n k none now ok s e b = b
client_step-IsBounded m n k (some t) now ok s e b =
    let r = op2_step t.phase t s.pool now ok in
    let v = op2_step-Moved t.phase t s.pool now ok refl in
    let sums = total-set held s.clients k t r.0 e in
    let most = total-le held (set s.clients k r.0) (λ x. held_in-le x.phase) in
    let same = length-set s.clients k r.0 in
    record {
      few = elim v.few [
        | inl kept ↦ omega (arith, kept, sums, b.few)
        | inr empty ↦ omega (arith, empty, most, same, b.threads)
      ];
      threads = same ∙ b.threads;
      lower = omega (arith, v.same_min, b.lower);
    }

produce-IsBounded :
    (m n now : ℕ) (ok : Bool) (s : Bench)
    → IsBounded m n s
    → IsBounded m n (after_produce s (produce_conn s.pool now ok))
unfolding after_produce produce_conn add_conn
produce-IsBounded m n now ok s b = elim (Bool-cases (leb s.pool.min_size (length s.pool.queue))) [
  | inl enough ↦ rw enough b
  | inr missing ↦
      let new : Conn = record { id = s.pool.made; connected = ok; alive_time = now } in
      let most = total-le held s.clients (λ x. held_in-le x.phase) in
      let more = length-append s.pool.queue (new ∷ []) in
      let few : length s.pool.queue < s.pool.min_size = ground arith in
      rw missing (record {
        few = omega (arith, few, most, more, b.threads, b.lower);
        threads = b.threads;
        lower = b.lower;
      })
]

recycle-IsBounded :
    (m n now : ℕ) (s : Bench) → IsBounded m n s → IsBounded m n (step (recycles now) s)
unfolding step recycle_conn
recycle-IsBounded m n now s b =
    let (kept, gone) = recycle_conn s.pool now in
    let split = ap length (recycle_conn-Recycled s.pool now).split in
    record {
      few = omega (arith, split, b.few, length-append gone kept.queue);
      threads = b.threads;
      lower = b.lower;
    }

step-IsBounded : (m n : ℕ) (a : Move) (s : Bench) → IsBounded m n s → IsBounded m n (step a s)
unfolding step
step-IsBounded m n (client k now ok) s b =
    client_step-IsBounded m n k (get_elem? s.clients k) now ok s refl b
step-IsBounded m n (produces now ok) s b = produce-IsBounded m n now ok s b
step-IsBounded m n (recycles now) s b = recycle-IsBounded m n now s b

run-IsBounded : (m n : ℕ) (ms : List Move) (s : Bench) → IsBounded m n s → IsBounded m n (run ms s)
unfolding run
run-IsBounded m n [] s b = b
run-IsBounded m n (a ∷ ms) s b = run-IsBounded m n ms (step a s) (step-IsBounded m n a s b)

total-fresh : (ts : List Client) → All (λ t. t.phase ≡ at_top) ts → total held ts ≡ 0
unfolding total held_in
total-fresh [] h = refl
total-fresh (t ∷ ts) (h, hs) = omega (arith, ap held_in h, total-fresh ts hs)

-- Threads of op2 on a pool that has no more idle connections than m, and whose lower limit is no more
-- than m, beside the producer and the recycler, in any order of their steps, at any times and with
-- any answers of the server: the connections that are idle and those that threads have are never more
-- than m and one for each thread.
pub run_few_connections :
    (m : ℕ) (pool : ConnPool) (clients : List Client) (moves : List Move)
    → length pool.queue ≤ m
    → pool.min_size ≤ m
    → All (λ t. t.phase ≡ at_top) clients
    → let s = run moves (start pool clients) in
      length s.pool.queue + total held s.clients ≤ m + length clients
run_few_connections m pool clients moves idle lower fresh =
    (run-IsBounded m (length clients) moves (start pool clients) (record {
      few = omega (arith, idle, total-fresh clients fresh);
      threads = refl;
      lower = lower;
    })).few
