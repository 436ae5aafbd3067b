-- ===== src/DataQueue/Values.antt =====
-- The values that the producer of bagu/thread.cpp pushes: 0, 1, ... in order.
use linux_cpp_learn.Prelude.{
  ℕ, zero, suc, ◌+◌, ◌<◌, List, [], ◌∷◌, ◌++◌, ◌≡◌, refl, ap, sym, ◌∙◌, arith, ◌==◌, length,
  get_elem?, some, length-append, Bool-cases, inl, inr,
}

-- 0, 1, ... up to and without n.
abbrev pub below : ℕ → List ℕ
below zero = []
below (suc n) = below n ++ n ∷ []

pub length-below : (n : ℕ) → length (below n) ≡ n
length-below zero = refl
length-below (suc n) = omega (arith, length-append (below n) (n ∷ []), length-below n)

get_elem?-middle : (xs rest : List ℕ) (x : ℕ) → get_elem? (xs ++ x ∷ rest) (length xs) ≡ some x
get_elem?-middle [] rest x = refl
get_elem?-middle (y ∷ xs) rest x = get_elem?-middle xs rest x

get_elem?-front : (xs ys : List ℕ) (k : ℕ) → k < length xs → get_elem? (xs ++ ys) k ≡ get_elem? xs k
get_elem?-front [] ys k h = absurd (omega arith)
get_elem?-front (x ∷ xs) ys zero h = refl
get_elem?-front (x ∷ xs) ys (suc k) h = get_elem?-front xs ys k (omega arith)

get_elem?-below : (n k : ℕ) → k < n → get_elem? (below n) k ≡ some k
get_elem?-below zero k h = absurd (omega arith)
get_elem?-below (suc n) k h = elim (Bool-cases (k == n)) [
  | inl same ↦
      let e : n ≡ length (below n) = sym (length-below n) in
      ground (arith, get_elem?-middle (below n) [] n, length-below n)
  | inr differ ↦
      get_elem?-front (below n) (n ∷ []) k (ground (arith, length-below n))
      ∙ get_elem?-below n k (ground arith)
]

pub below-split : (n : ℕ) (xs ys : List ℕ) → xs ++ ys ≡ below n → length xs + length ys ≡ n
below-split n xs ys e = sym (length-append xs ys) ∙ ap length e ∙ length-below n

-- The value at the front of the queue is the number of the values taken.
pub below-next : (n : ℕ) (xs rest : List ℕ) (x : ℕ) → xs ++ x ∷ rest ≡ below n → x ≡ length xs
below-next n xs rest x e =
    let sizes = below-split n xs (x ∷ rest) e in
    let there = get_elem?-below n (length xs) (omega (arith, sizes)) in
    let same = ap (λ (zs : List ℕ). get_elem? zs (length xs)) e in
    ground (arith, get_elem?-middle xs rest x, there, same)
