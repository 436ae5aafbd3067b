-- ===== src/MemPool/Fuel.antt =====
-- The calls of mp_alloc and mp_alloc_large in mem_pool/mempool.c by one another.
use linux_cpp_learn.Prelude.{
  ℕ, zero, suc, ◌≤◌, ◌<◌, ◌≡◌, ◌≢◌, inl, inr, [], ◌∷◌, none, All, length, arith, List-cases, refl,
  ap,
}
use mathlib.Core.Path.{subst}
use linux_cpp_learn.MemPool.{Pool, Os, answer, ask, large_bytes, mp_alloc, mp_alloc_large, reuse}

-- In a pool whose small sizes end below 16 bytes, and which has no large block: `mp_alloc` of a
-- larger size does not return while malloc answers, since the entry for the large block asks for a
-- large block of its own; however many calls are allowed, they are used up.
pub mp_alloc_recurs :
    (fuel : ℕ) (pool : Pool) (size : ℕ) (os : Os)
    → pool.max < large_bytes
    → pool.max < size
    → pool.large ≡ []
    → All (λ a. a ≢ 0) os.answers
    → fuel ≤ length os.answers
    → mp_alloc fuel pool size os ≡ none
unfolding mp_alloc mp_alloc_large ask reuse
mp_alloc_recurs zero pool size os tiny big l ok enough = refl
mp_alloc_recurs (suc fuel) pool size os tiny big l ok enough = elim (List-cases os.answers) [
  | inl e ↦ absurd (omega (arith, ap length e))
  | inr (a, rest, e) ↦
      let ok' : All (λ b. b ≢ 0) (a ∷ rest) = subst (All (λ b. b ≢ 0)) e ok in
      let os1 : Os = record os { answers = rest; given = a ∷ os.given } in
      let asked : ask os ≡ os1 = ground (arith, e, ok'.0) in
      let first : answer os ≡ a = ground (arith, e) in
      let ih =
        mp_alloc_recurs fuel pool large_bytes os1 tiny tiny l ok'.1 (omega (arith, ap length e)) in
      ground (arith, first, ok'.0, l, asked, ih)
]
