-- ===== src/ConnPool/Bench/Finish.antt =====
-- That the threads of connection_pool/main.cpp's test2 come to their end.
use linux_cpp_learn.Prelude.{
  ℕ, zero, suc, ◌+◌, ◌-◌, ◌*◌, ◌≤◌, ◌<◌, ◌≡◌, ◌≢◌, refl, Bool, true, List, [], ◌∷◌, Option, none,
  some, arith, get_elem?, set, get_elem?-set_self, get_elem?-set_ne, All, All-get_elem?, ltb, leb,
  length, ◌==◌, if◌then◌else◌, Bool-cases, inl, inr, ap, sym, ◌∙◌,
}
use linux_cpp_learn.ConnPool.{Conn, ConnPool, produce_conn, add_conn, recycle_conn}
use linux_cpp_learn.ConnPool.System.{passes}
use linux_cpp_learn.ConnPool.Limits.{grant, get_conn_lem}
use linux_cpp_learn.ConnPool.Bench.{
  Phase, at_top, has, sent, Client, after_get_conn, op2_step, Bench, Move, client, produces,
  recycles, client_step, after_produce, step, run, start,
}
use linux_cpp_learn.ConnPool.Bench.Rows.{IsThrough}
use mathlib.Core.Path.{subst}

-- The steps that a thread in this phase has before it.
unfoldable pub steps_of : Phase → ℕ → ℕ
steps_of at_top rounds = 3 * rounds
steps_of (has c) rounds = 3 * rounds - 1
steps_of (sent c) rounds = 3 * rounds - 2

abbrev work : Client → ℕ
work t = steps_of t.phase (t.last - t.i)

-- A thread with a connection is in a round.
abbrev Inside : Phase → (i last : ℕ) → Type 0
Inside at_top i last = Unit
Inside (has c) i last = i < last
Inside (sent c) i last = i < last

abbrev InRange : Client → Type 0
InRange t = Inside t.phase t.i t.last

-- What a step of a thread does where the upper limit is not 0.
record Advances (t t' : Client) (p p' : ConnPool) : Type 0 where
  less : work t' ≤ work t - 1
  inside : InRange t'
  same_max : p'.max_size ≡ p.max_size

grant-Advances :
    (t : Client) (pool : ConnPool) (now : ℕ) (ok : Bool) (q : List Conn)
    → t.phase ≡ at_top
    → t.i < t.last
    → 0 < pool.max_size
    → let r = after_get_conn t pool (grant pool now ok q) in Advances t r.0 pool r.1
unfolding after_get_conn grant steps_of
grant-Advances t pool now ok [] e more pos =
    let made : ltb 0 pool.max_size ≡ true = ground (arith, pos) in
    let now_work : work t ≡ 3 * (t.last - t.i) = ap (λ ph. steps_of ph (t.last - t.i)) e in
    rw made (record { less = omega (arith, now_work); inside = more; same_max = refl })
grant-Advances t pool now ok (c ∷ rest) e more pos =
    let now_work : work t ≡ 3 * (t.last - t.i) = ap (λ ph. steps_of ph (t.last - t.i)) e in
    record { less = omega (arith, now_work); inside = more; same_max = refl }

op2_step-Advances :
    (ph : Phase) (t : Client) (pool : ConnPool) (now : ℕ) (ok : Bool)
    → t.phase ≡ ph
    → InRange t
    → 0 < pool.max_size
    → let r = op2_step ph t pool now ok in Advances t r.0 pool r.1
unfolding op2_step steps_of
op2_step-Advances at_top t pool now ok e h pos = elim (Bool-cases (ltb t.i t.last)) [
  | inl more ↦
      let lem = get_conn_lem passes pool now ok (omega arith) in
      rw (more, lem) (grant-Advances t pool now ok pool.queue e (ground (arith, more)) pos)
  | inr over ↦
      let now_work : work t ≡ 3 * (t.last - t.i) = ap (λ ph. steps_of ph (t.last - t.i)) e in
      let all : t.last ≤ t.i = ground (arith, over) in
      rw over (record { less = omega (arith, now_work, all); inside = h; same_max = refl })
]
op2_step-Advances (has c) t pool now ok e h pos =
    let now_work : work t ≡ 3 * (t.last - t.i) - 1 = ap (λ ph. steps_of ph (t.last - t.i)) e in
    let more : t.i < t.last = subst (λ ph. Inside ph t.i t.last) e h in
    record { less = omega (arith, now_work, more); inside = more; same_max = refl }
op2_step-Advances (sent c) t pool now ok e h pos =
    let now_work : work t ≡ 3 * (t.last - t.i) - 2 = ap (λ ph. steps_of ph (t.last - t.i)) e in
    let more : t.i < t.last = subst (λ ph. Inside ph t.i t.last) e h in
    record { less = omega (arith, now_work, more); inside = tt; same_max = refl }

-- How often the k-th thread has its turn.
abbrev turn : ℕ → Move → ℕ
turn k (client j now ok) = if j == k then 1 else 0
turn k (produces now ok) = 0
turn k (recycles now) = 0

unfoldable pub turns : ℕ → List Move → ℕ
turns k [] = 0
turns k (a ∷ rest) = turn k a + turns k rest

-- Each thread k has n k steps before it, at most.
record Within (n : ℕ → ℕ) (s : Bench) : Type 0 where
  bounded : (k : ℕ) (t : Client) → get_elem? s.clients k ≡ some t → InRange t × (work t ≤ n k)
  limit : 0 < s.pool.max_size

client_step-Within :
    (n : ℕ → ℕ) (j : ℕ) (o : Option Client) (now : ℕ) (ok : Bool) (s : Bench)
    → get_elem? s.clients j ≡ o
    → Within n s
    → Within (λ k. n k - turn k (client j now ok)) (client_step j o now ok s)
unfolding client_step
client_step-Within n j none now ok s e w = record {
  bounded = λ k t f. elim (Bool-cases (j == k)) [
    | inl same ↦
        let eq : j ≡ k = ground (arith, same) in
        let out : get_elem? s.clients k ≡ none = ap (get_elem? s.clients) (sym eq) ∙ e in cc
    | inr differ ↦ let (r, b) = w.bounded k t f in (r, ground (arith, b, differ))
  ];
  limit = w.limit;
}
client_step-Within n j (some t0) now ok s e w =
    let r = op2_step t0.phase t0 s.pool now ok in
    let (r0, b0) = w.bounded j t0 e in
    let v = op2_step-Advances t0.phase t0 s.pool now ok refl r0 w.limit in
    record {
      bounded = λ k t f. elim (Bool-cases (j == k)) [
        | inl same ↦
            let eq : j ≡ k = ground (arith, same) in
            let here = get_elem?-set_self s.clients j r.0 t0 e in
            let there : get_elem? (set s.clients j r.0) j ≡ some t =
              ap (get_elem? (set s.clients j r.0)) eq ∙ f in
            let same_t : r.0 ≡ t = cc in
            (
              subst InRange same_t v.inside,
              ground (arith, v.less, b0, ap work same_t, ap n eq, same),
            )
        | inr differ ↦
            let ne : j ≢ k = ground (arith, differ) in
            let there = sym (get_elem?-set_ne s.clients j k r.0 ne) ∙ f in
            let (q, b) = w.bounded k t there in (q, ground (arith, b, differ))
      ];
      limit = omega (arith, v.same_max, w.limit);
    }

same_bounds :
    (n : ℕ → ℕ) (s : Bench)
    → Within n s
    → (k : ℕ) (t : Client) → get_elem? s.clients k ≡ some t
    → InRange t × (work t ≤ n k - 0)
same_bounds n s w k t e = let (r, b) = w.bounded k t e in (r, omega (arith, b))

step-Within :
    (n : ℕ → ℕ) (a : Move) (s : Bench) → Within n s → Within (λ k. n k - turn k a) (step a s)
unfolding step after_produce produce_conn add_conn recycle_conn
step-Within n (client j now ok) s w = client_step-Within n j (get_elem? s.clients j) now ok s refl w
step-Within n (produces now ok) s w =
    elim (Bool-cases (leb s.pool.min_size (length s.pool.queue))) [
      | inl enough ↦ rw enough (record { bounded = same_bounds n s w; limit = w.limit })
      | inr missing ↦ rw missing (record { bounded = same_bounds n s w; limit = w.limit })
    ]
step-Within n (recycles now) s w = record { bounded = same_bounds n s w; limit = w.limit }

run-Within :
    (n : ℕ → ℕ) (ms : List Move) (s : Bench)
    → Within n s
    → (k : ℕ) (t : Client) → get_elem? (run ms s).clients k ≡ some t
    → InRange t × (work t ≤ n k - turns k ms)
unfolding run turns
run-Within n [] s w k t e = same_bounds n s w k t e
run-Within n (a ∷ ms) s w k t e =
    let (r, b) = run-Within (λ j. n j - turn j a) ms (step a s) (step-Within n a s w) k t e in
    (r, omega (arith, b))

All-of_elements {ℓ κ} :
    {A : Type ℓ} (P : A → Type κ) (xs : List A)
    → ((k : ℕ) (x : A) → get_elem? xs k ≡ some x → P x)
    → All P xs
All-of_elements P [] h = tt
All-of_elements P (x ∷ xs) h = (h zero x refl, All-of_elements P xs (λ k y e. h (suc k) y e))

idle-IsThrough : (ph : Phase) (t : Client) → t.phase ≡ ph → InRange t → work t ≤ 0 → IsThrough t
unfolding steps_of
idle-IsThrough at_top t e h none_left =
    let now_work : work t ≡ 3 * (t.last - t.i) = ap (λ ph. steps_of ph (t.last - t.i)) e in
    record { outside = e; over = omega (arith, now_work, none_left) }
idle-IsThrough (has c) t e h none_left =
    let now_work : work t ≡ 3 * (t.last - t.i) - 1 = ap (λ ph. steps_of ph (t.last - t.i)) e in
    let more : t.i < t.last = subst (λ ph. Inside ph t.i t.last) e h in
    absurd (omega (arith, now_work, none_left, more))
idle-IsThrough (sent c) t e h none_left =
    let now_work : work t ≡ 3 * (t.last - t.i) - 2 = ap (λ ph. steps_of ph (t.last - t.i)) e in
    let more : t.i < t.last = subst (λ ph. Inside ph t.i t.last) e h in
    absurd (omega (arith, now_work, none_left, more))

-- Threads of op2 on a pool whose upper limit is not 0, beside the producer and the recycler, in any
-- order of their steps, at any times and with any answers of the server: if each thread has its turn
-- three times at least for each row of its range, then all of them are through; none waits for a
-- connection for ever.
pub run_completes :
    (pool : ConnPool) (clients : List Client) (moves : List Move)
    → 0 < pool.max_size
    → All (λ t. t.phase ≡ at_top) clients
    → ((k : ℕ) (t : Client) → get_elem? clients k ≡ some t → 3 * (t.last - t.i) ≤ turns k moves)
    → All IsThrough (run moves (start pool clients)).clients
unfolding steps_of
run_completes pool clients moves pos fresh enough =
    let w : Within (λ k. turns k moves) (start pool clients) = record {
      bounded = λ k t e.
          let top = All-get_elem? (λ t. t.phase ≡ at_top) clients k t fresh e in
          let now_work : work t ≡ 3 * (t.last - t.i) = ap (λ ph. steps_of ph (t.last - t.i)) top in
          (subst (λ ph. Inside ph t.i t.last) (sym top) tt, omega (arith, now_work, enough k t e));
      limit = pos;
    } in
    All-of_elements IsThrough (run moves (start pool clients)).clients (λ k t e.
      let (r, b) = run-Within (λ k. turns k moves) moves (start pool clients) w k t e in
      idle-IsThrough t.phase t refl r (omega (arith, b)))
