-- ===== src/ConnPool/Client.antt =====
-- connection_pool/main.cpp: the client op2, which takes a connection for each row that it inserts.
-- The text of a statement is known by the values that vary, and the answer of update is not read.
use linux_cpp_learn.Prelude.{
  ℕ, zero, suc, ◌≡◌, ◌≢◌, refl, ap, sym, ◌∙◌, Bool, List, [], ◌∷◌, ◌++◌, append_assoc, append-nil,
  Option, none, some, ◌>>=◌, List-cases, inl, inr, arith,
}
use linux_cpp_learn.ConnPool.{
  Conn, ConnPool, took, waits, out_of_fuel, undefined_front, get_conn, give_back,
}
use linux_cpp_learn.ConnPool.System.{passes}
use linux_cpp_learn.ConnPool.Limits.{get_conn_lem, grant}

-- The time of getConn, the server's answer if a connection is made, and the time of the return.
pub record Turn : Type 0 where
  pub now : ℕ
  pub ok : Bool
  pub returned : ℕ

-- A statement that was sent, and on which connection.
pub record Insert : Type 0 where
  pub conn : ℕ
  pub id : ℕ
  pub age : ℕ

-- `op2` from `begin` on, with `count` rounds left; `none` if getConn waits for ever.
unfoldable pub op2 : ConnPool → (begin count : ℕ) → (ℕ → Turn) → Option (List Insert × ConnPool)
unfolding get_conn give_back
op2 pool begin zero env = some ([], pool)
op2 pool begin (suc count) env = elim (get_conn passes pool (env begin).now (env begin).ok) [
  | took c p ↦ (do
    (sent, p') ← op2 (give_back p c (env begin).returned) (suc begin) count env
    some (record { conn = c.id; id = begin; age = 19 } ∷ sent, p'))
  | waits ↦ none
  | out_of_fuel ↦ none
  | undefined_front ↦ none
]

unfoldable pub conns : List Insert → List ℕ
conns [] = []
conns (i ∷ is) = i.conn ∷ conns is

unfoldable pub rows : List Insert → List ℕ
rows [] = []
rows (i ∷ is) = i.id ∷ rows is

unfoldable pub numbers : ℕ → ℕ → List ℕ
numbers begin zero = []
numbers begin (suc count) = begin ∷ numbers (suc begin) count

unfoldable pub idle : List Conn → List ℕ
idle [] = []
idle (c ∷ cs) = c.id ∷ idle cs

idle-++ : (cs ds : List Conn) → idle (cs ++ ds) ≡ idle cs ++ idle ds
unfolding idle
idle-++ [] ds = refl
idle-++ (c ∷ cs) ds = ap (λ is. c.id ∷ is) (idle-++ cs ds)

not_empty : (cs : List Conn) (c : Conn) → cs ++ c ∷ [] ≢ []
not_empty [] c e = cc
not_empty (d ∷ cs) c e = cc

-- On a pool with a connection that is idle, where nobody else calls it: op2 gets through, inserts the
-- rows from `begin` on in order, makes no connection, and takes the connections in turn: those used,
-- followed by those idle at the end, are those idle at the start, followed by those used.
pub op2_takes_turns :
    (pool : ConnPool) (begin count : ℕ) (env : ℕ → Turn)
    → pool.queue ≢ []
    → (sent : List Insert) × (p : ConnPool) × (op2 pool begin count env ≡ some (sent, p))
      × (rows sent ≡ numbers begin count)
      × (conns sent ++ idle p.queue ≡ idle pool.queue ++ conns sent)
      × (p.made ≡ pool.made)
unfolding op2 conns rows numbers idle grant give_back
op2_takes_turns pool begin zero env some_idle =
    ([], pool, refl, refl, sym (append-nil (idle pool.queue)), refl)
op2_takes_turns pool begin (suc count) env some_idle = elim (List-cases pool.queue) [
  | inl e ↦ absurd (some_idle e)
  | inr (c, rest, e) ↦
      let turn = env begin in
      let back : Conn = record c { alive_time = turn.returned } in
      let p1 : ConnPool = record pool { queue = rest ++ back ∷ [] } in
      let got : get_conn passes pool turn.now turn.ok ≡ took c (record pool { queue = rest }) =
        get_conn_lem passes pool turn.now turn.ok (omega arith)
        ∙ ap (grant pool turn.now turn.ok) e in
      let (sent, p, f, in_order, turns, none_made) =
        op2_takes_turns p1 (suc begin) count env (not_empty rest back) in
      let start : idle pool.queue ≡ c.id ∷ idle rest = ap idle e in
      (
        record { conn = c.id; id = begin; age = 19 } ∷ sent,
        p,
        ground (arith, got, f),
        ap (λ is. begin ∷ is) in_order,
        ap (λ is. c.id ∷ is)
              (turns
                ∙ ap (λ is. is ++ conns sent) (idle-++ rest (back ∷ []))
                ∙ append_assoc (idle rest) (c.id ∷ []) (conns sent))
            ∙ ap (λ is. is ++ c.id ∷ conns sent) (sym start),
        none_made,
      )
]
