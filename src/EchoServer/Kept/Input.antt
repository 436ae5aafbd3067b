-- ===== src/EchoServer/Kept/Input.antt =====
-- What the client of the echo server does keeps the bytes of the session.
use linux_cpp_learn.Prelude.{
  ℕ, suc, ◌%◌, ◌≡◌, refl, Bool, true, false, List, [], ◌∷◌, ◌++◌, append-nil, is_empty, count,
  count-++, arith, ap, sym, ◌∙◌, Bool-cases, inl, inr,
}
use linux_cpp_learn.EchoServer.{Incoming, got, eof, failed, buf_size}
use linux_cpp_learn.EchoServer.Working.{IsStop}
use linux_cpp_learn.EchoServer.Client.{Round, outgoing}
use linux_cpp_learn.EchoServer.Session.{
  Typing, at_prompt, reading, left, Session, cut, send, type_line, at_end, read_reply, read_reset,
}
use linux_cpp_learn.EchoServer.Echoes.{
  reply_bytes, uttered, open_line, Rounds, Counted, Keeps, uttered-end, All-end, count-cut,
  count-received,
}
use mathlib.Core.Path.{subst}

said_more :
    (s : Session) (new : List ℕ)
    → s.typing ≡ at_prompt
    → Keeps s
    → uttered s.rounds ++ new ≡ s.sent ++ new
said_more s new t k =
    ap (λ bs. bs ++ new)
      (sym (append-nil (uttered s.rounds))
        ∙ (ap (λ p. uttered s.rounds ++ open_line p) (sym t) ∙ k.said))

Keeps-send :
    (v : Bool) (line : List ℕ) (s : Session)
    → s.typing ≡ at_prompt
    → Keeps s
    → Keeps (send v line s)
unfolding send
Keeps-send true line s t k = record {
  counted = λ b.
      let before : Counted b s = k.counted b in
      rw (count-++ b s.to_server (outgoing line), count-++ b s.sent (outgoing line)) (omega arith);
  said = said_more s (outgoing line) t k;
  answered = subst (λ p. Rounds p s.rounds) t k.answered;
}
Keeps-send false line s t k = record {
  counted = λ b.
      let before : Counted b s = k.counted b in
      rw (count-++ b s.lost (outgoing line), count-++ b s.sent (outgoing line)) (omega arith);
  said = said_more s (outgoing line) t k;
  answered = subst (λ p. Rounds p s.rounds) t k.answered;
}

pub Keeps-type_line :
    (p : Typing) (line : List ℕ) (s : Session) → s.typing ≡ p → Keeps s → Keeps (type_line p line s)
unfolding type_line
Keeps-type_line at_prompt line s t k = Keeps-send s.is_open line s t k
Keeps-type_line (reading old) line s t k = k
Keeps-type_line left line s t k = k

-- The client's last round.
Keeps-left :
    (line : List ℕ) (reply : Incoming) (s : Session)
    → s.typing ≡ reading line
    → IsStop reply
    → reply_bytes reply ≡ []
    → Keeps s
    → Keeps (record s {
      typing = left;
      rounds = s.rounds ++ record { line = line; reply = reply } ∷ [];
    })
unfolding count
Keeps-left line reply s t stop empty k =
    let r : Round = record { line = line; reply = reply } in
    record {
      counted = λ b.
          let before : Counted b s = k.counted b in
          let none_read : count b (reply_bytes reply) ≡ 0 = ap (count b) empty in
          rw (count-received b s.rounds r) (omega arith);
      said =
          append-nil (uttered (s.rounds ++ r ∷ []))
          ∙ (uttered-end s.rounds r ∙ (ap (λ p. uttered s.rounds ++ open_line p) (sym t) ∙ k.said));
      answered = (s.rounds, r, refl, subst (λ p. Rounds p s.rounds) t k.answered, stop);
    }

Keeps-at_end :
    (v : Bool) (line : List ℕ) (s : Session)
    → s.typing ≡ reading line
    → Keeps s
    → Keeps (at_end v line s)
unfolding at_end
Keeps-at_end true line s t k = k
Keeps-at_end false line s t k = Keeps-left line eof s t tt refl k

pub Keeps-read_reset :
    (p : Typing) (v : Bool) (s : Session) → s.typing ≡ p → Keeps s → Keeps (read_reset p v s)
unfolding read_reset
Keeps-read_reset at_prompt v s t k = k
Keeps-read_reset left v s t k = k
Keeps-read_reset (reading line) true s t k = k
Keeps-read_reset (reading line) false s t k = elim (Bool-cases (is_empty s.lost)) [
  | inl none_lost ↦ rw none_lost k
  | inr some_lost ↦ rw some_lost (Keeps-left line failed s t tt refl k)
]

pub Keeps-read_reply :
    (p : Typing) (n : ℕ) (s : Session) → s.typing ≡ p → Keeps s → Keeps (read_reply p n s)
unfolding read_reply
Keeps-read_reply at_prompt n s t k = k
Keeps-read_reply left n s t k = k
Keeps-read_reply (reading line) n s t k = elim (Bool-cases (is_empty s.to_client)) [
  | inl none_there ↦ rw none_there (Keeps-at_end s.is_open line s t k)
  | inr some_there ↦
      let m = suc (n % buf_size) in
      let front = (cut m s.to_client).0 in
      let r : Round = record { line = line; reply = got front } in
      rw some_there (record {
        counted = λ b.
            let before : Counted b s = k.counted b in
            let parts = count-cut b m s.to_client in rw (count-received b s.rounds r) (omega arith);
        said =
            append-nil (uttered (s.rounds ++ r ∷ []))
            ∙ (uttered-end s.rounds r
                ∙ (ap (λ p. uttered s.rounds ++ open_line p) (sym t) ∙ k.said));
        answered = All-end s.rounds r (subst (λ p. Rounds p s.rounds) t k.answered) (front, refl);
      })
]
