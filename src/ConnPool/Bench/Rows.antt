-- ===== src/ConnPool/Bench/Rows.antt =====
-- For which rows the threads of connection_pool/main.cpp's test2 send an INSERT.
use linux_cpp_learn.Prelude.{
  ℕ, suc, ◌+◌, ◌≤◌, ◌≡◌, refl, Bool, true, List, [], ◌∷◌, ◌++◌, Option, none, some, arith,
  get_elem?, All, range, hit, count, count-++, total, total-set, ltb, Bool-cases, Option-cases, inl,
  inr, ap, ◌∙◌,
}
use linux_cpp_learn.ConnPool.{
  ConnPool, Got, took, waits, out_of_fuel, undefined_front, get_conn, produce_conn,
}
use linux_cpp_learn.ConnPool.System.{passes}
use linux_cpp_learn.ConnPool.Client.{Insert, rows}
use linux_cpp_learn.ConnPool.Bench.{
  Phase, at_top, has, sent, Client, after_get_conn, op2_step, Bench, Move, client, produces,
  recycles, client_step, after_produce, step, run, start,
}

-- How often the row a is still to be sent by a thread in this phase.
unfoldable pub due : ℕ → Phase → (i last : ℕ) → ℕ
unfolding hit range
due a at_top i last = range a i last
due a (has c) i last = hit a i + range a (suc i) last
due a (sent c) i last = range a (suc i) last

abbrev pub pending : ℕ → Client → ℕ
pending a t = due a t.phase t.i t.last

after_get_conn-pending :
    (a : ℕ) (t : Client) (pool : ConnPool) (g : Got)
    → t.phase ≡ at_top
    → ltb t.i t.last ≡ true
    → (pending a (after_get_conn t pool g).0 ≡ pending a t) × ((after_get_conn t pool g).2 ≡ [])
unfolding after_get_conn due
after_get_conn-pending a t pool (took c p) e more = (ground (arith, e, more), refl)
after_get_conn-pending a t pool waits e more = (refl, refl)
after_get_conn-pending a t pool out_of_fuel e more = (refl, refl)
after_get_conn-pending a t pool undefined_front e more = (refl, refl)

op2_step-pending :
    (a : ℕ) (ph : Phase) (t : Client) (pool : ConnPool) (now : ℕ) (ok : Bool)
    → t.phase ≡ ph
    → let r = op2_step ph t pool now ok in count a (rows r.2) + pending a r.0 ≡ pending a t
unfolding op2_step due count rows
op2_step-pending a at_top t pool now ok e = elim (Bool-cases (ltb t.i t.last)) [
  | inl more ↦
      let g = get_conn passes pool now ok in
      let (same, none_sent) = after_get_conn-pending a t pool g e more in
      let out : op2_step at_top t pool now ok ≡ after_get_conn t pool g = ground (arith, more) in
      let all = ap (λ r. count a (rows r.2) + pending a r.0) out in
      omega (arith, all, same, ap (λ r. count a (rows r)) none_sent)
  | inr over ↦ ground (arith, over)
]
op2_step-pending a (has c) t pool now ok e = ground (arith, e)
op2_step-pending a (sent c) t pool now ok e = ground (arith, e)

rows-++ : (new old : List Insert) → rows (new ++ old) ≡ rows new ++ rows old
unfolding rows
rows-++ [] old = refl
rows-++ (i ∷ is) old = ap (λ r. i.id ∷ r) (rows-++ is old)

-- The rows whose INSERT was sent and those to come.
abbrev all_rows : ℕ → Bench → ℕ
all_rows a s = count a (rows s.statements) + total (pending a) s.clients

client_step-all_rows :
    (a k : ℕ) (o : Option Client) (now : ℕ) (ok : Bool) (s : Bench)
    → get_elem? s.clients k ≡ o
    → all_rows a (client_step k o now ok s) ≡ all_rows a s
unfolding client_step
client_step-all_rows a k none now ok s e = refl
client_step-all_rows a k (some t) now ok s e =
    let r = op2_step t.phase t s.pool now ok in
    let both =
      ap (count a) (rows-++ r.2 s.statements) ∙ count-++ a (rows r.2) (rows s.statements) in
    omega (
      arith,
      both,
      op2_step-pending a t.phase t s.pool now ok refl,
      total-set (pending a) s.clients k t r.0 e,
    )

step-all_rows : (a : ℕ) (m : Move) (s : Bench) → all_rows a (step m s) ≡ all_rows a s
unfolding step after_produce
step-all_rows a (client k now ok) s = client_step-all_rows a k (get_elem? s.clients k) now ok s refl
step-all_rows a (produces now ok) s = elim (Option-cases (produce_conn s.pool now ok)) [
  | inl e ↦ ground (arith, e)
  | inr (p, e) ↦ ground (arith, e)
]
step-all_rows a (recycles now) s = refl

run-all_rows : (a : ℕ) (ms : List Move) (s : Bench) → all_rows a (run ms s) ≡ all_rows a s
unfolding run
run-all_rows a [] s = refl
run-all_rows a (m ∷ ms) s = run-all_rows a ms (step m s) ∙ step-all_rows a m s

-- A thread that is through all of its rounds.
pub record IsThrough (t : Client) : Type 0 where
  pub outside : t.phase ≡ at_top
  pub over : t.last ≤ t.i

total-through : (a : ℕ) (ts : List Client) → All IsThrough ts → total (pending a) ts ≡ 0
unfolding total due
total-through a [] h = refl
total-through a (t ∷ ts) (h, hs) =
    let now = ap (λ ph. due a ph t.i t.last) h.outside in
    let ih = total-through a ts hs in let over = h.over in ground (arith, now, ih, over)

total-fresh :
    (a : ℕ) (ts : List Client)
    → All (λ t. t.phase ≡ at_top) ts
    → total (pending a) ts ≡ total (λ t. range a t.i t.last) ts
unfolding total due
total-fresh a [] h = refl
total-fresh a (t ∷ ts) (h, hs) =
    let now = ap (λ ph. due a ph t.i t.last) h in omega (arith, now, total-fresh a ts hs)

-- Any number of threads run op2 on one pool, each on rows of its own or on rows that others have too,
-- beside the pool's producer and recycler, in any order of their steps, at any times and with any
-- answers of the server: when all of the threads are through, update was called with the INSERT of
-- each row once for each thread that has the row in its range, and with no other row. Whether a call
-- succeeded is not part of it: the connection may be one that is not connected.
pub run_sends :
    (pool : ConnPool) (clients : List Client) (moves : List Move)
    → All (λ t. t.phase ≡ at_top) clients
    → All IsThrough (run moves (start pool clients)).clients
    → (a : ℕ)
    → count a (rows (run moves (start pool clients)).statements)
      ≡ total (λ t. range a t.i t.last) clients
unfolding rows count
run_sends pool clients moves fresh through a =
    let all = run-all_rows a moves (start pool clients) in
    omega (
      arith,
      all,
      total-through a (run moves (start pool clients)).clients through,
      total-fresh a clients fresh,
    )
