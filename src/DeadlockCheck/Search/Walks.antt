-- ===== src/DeadlockCheck/Search/Walks.antt =====
-- The graph of deadlock_check/deadlock_check.c as edges between vertex numbers, its walks and cycles.
use linux_cpp_learn.Prelude.{
  ℕ, zero, suc, ◌<◌, ◌≤◌, List, [], ◌∷◌, some, length, get_elem?, All, ◌≡◌, refl, ◌⊎◌, arith,
  Option-cases, inl, inr,
}
use mathlib.Core.Path.{subst}
use linux_cpp_learn.DeadlockCheck.{Graph, Vertex, Pair, search_vertex, max}

-- One of the pairs is that of the vertex j.
abbrev pub Leads : Graph → List Pair → ℕ → Type 0
Leads g [] j = ⊥
Leads g (p ∷ ps) j = (search_vertex g p ≡ some j) ⊎ Leads g ps j

abbrev pub Edge : Graph → ℕ → ℕ → Type 0
Edge g i j = (ver : Vertex) × (get_elem? g i ≡ some ver) × Leads g ver.next j

-- A walk of one edge or more.
pub data Path1 (g : Graph) : ℕ → ℕ → Type 0 where
  edge : {i j : ℕ} → Edge g i j → Path1 g i j
  then_edge : {i j k : ℕ} → Path1 g i j → Edge g j k → Path1 g i k

abbrev pub Cycle : Graph → ℕ → Type 0
Cycle g i = Path1 g i i

-- A walk of n edges.
abbrev pub Walk : Graph → ℕ → ℕ → Type 0
Walk g zero i = Unit {0}
Walk g (suc n) i = (j : ℕ) × Edge g i j × Walk g n j

-- Each pair in an edge list is a vertex, and the vertices fit into vertex_list.
pub record IsClosed (g : Graph) : Type 0 where
  pub resolves :
      (i : ℕ) (ver : Vertex)
      → get_elem? g i ≡ some ver
      → All (λ p. (j : ℕ) × (search_vertex g p ≡ some j)) ver.next
  pub room : length g ≤ max

pub search_vertex-lt : (g : Graph) (p : Pair) (j : ℕ) → search_vertex g p ≡ some j → j < length g
unfolding search_vertex
search_vertex-lt [] p j h = cc
search_vertex-lt (v ∷ g) p j h = elim (Option-cases (search_vertex g p)) [
  | inl e ↦ ground arith
  | inr (i, e) ↦ ground (arith, search_vertex-lt g p i e)
]

pub get_elem?-lt {ℓ} :
    {A : Type ℓ} (xs : List A) (i : ℕ) → i < length xs → (x : A) × (get_elem? xs i ≡ some x)
get_elem?-lt [] i h = absurd (omega arith)
get_elem?-lt (x ∷ xs) zero h = (x, refl)
get_elem?-lt (x ∷ xs) (suc i) h = get_elem?-lt xs i (omega arith)

Walk-shorter : (g : Graph) (n i : ℕ) → Walk g (suc n) i → Walk g n i
Walk-shorter g zero i w = tt
Walk-shorter g (suc n) i (j, e, w) = (j, e, Walk-shorter g n j w)

-- A walk behind a path is one edge longer, at least.
Walk-behind : (g : Graph) (n : ℕ) {i j : ℕ} → Path1 g i j → Walk g n j → Walk g (suc n) i
Walk-behind g n (edge e) w = (_, e, w)
Walk-behind g n {i = i} (then_edge p e) w =
    Walk-shorter g (suc n) i (Walk-behind g (suc n) p (_, e, w))

pub walks_of_Cycle : (g : Graph) (i : ℕ) → Cycle g i → (n : ℕ) → Walk g n i
walks_of_Cycle g i c zero = tt
walks_of_Cycle g i c (suc n) = Walk-behind g n c (walks_of_Cycle g i c n)

pub Leads-same :
    (g : Graph) (i j : ℕ) (x y : Vertex)
    → get_elem? g i ≡ some x
    → get_elem? g i ≡ some y
    → Leads g x.next j
    → Leads g y.next j
Leads-same g i j x y e f l =
    let same : x ≡ y = cc in subst (λ (z : Vertex). Leads g z.next j) same l

pub get_elem?-bound {ℓ} :
    {A : Type ℓ} (xs : List A) (i : ℕ) (x : A) → get_elem? xs i ≡ some x → i < length xs
get_elem?-bound [] i x e = cc
get_elem?-bound (y ∷ xs) zero x e = omega arith
get_elem?-bound (y ∷ xs) (suc i) x e = omega (arith, get_elem?-bound xs i x e)
