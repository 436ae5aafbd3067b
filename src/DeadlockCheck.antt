-- ===== src/DeadlockCheck.antt =====
-- deadlock_check/deadlock_check.c: the graph of threads that wait for threads. `none` is an access
-- outside an array. A vertex's list of edges is reached from that vertex only, so it is the list of
-- the pairs in it; the fields lock_id and degress of a vertex's pair are never read and left out.
pub mod Search
pub mod Edges
pub mod Closed
pub mod Links
pub mod Program
pub mod Entries
pub mod Races
mod Tests
pub mod Locks
pub mod Circle
use linux_cpp_learn.Prelude.{
  ℕ, zero, suc, Bool, true, false, ◌&&◌, ◌||◌, List, [], ◌∷◌, ◌++◌, Option, none, some, ◌>>=◌, ◌==◌,
  ltb, if◌then◌else◌, length, get_elem?,
}

-- `MAX`
abbrev pub max : ℕ
max = 100

-- `enum Type`; only threads become vertices.
pub data VertexType : Type 0 where
  process resource : VertexType

abbrev pub same_type : VertexType → VertexType → Bool
same_type process process = true
same_type process resource = false
same_type resource process = false
same_type resource resource = true

pub record Pair : Type 0 where
  pub th_id : ℕ
  pub th_type : VertexType

pub record Vertex : Type 0 where
  pub pair : Pair
  pub next : List Pair

-- `vertex_list` up to `vertex_num`
abbrev pub Graph : Type 0
Graph = List Vertex

abbrev pub same_pair : Pair → Pair → Bool
same_pair p q = same_type p.th_type q.th_type && p.th_id == q.th_id

-- `none` is -1.
unfoldable pub search_vertex : Graph → Pair → Option ℕ
search_vertex [] p = none
search_vertex (v ∷ g) p =
    if same_pair v.pair p then some 0 else (do i ← search_vertex g p; some (suc i))

unfoldable pub add_vertex : Graph → Pair → Option Graph
add_vertex g p = elim (search_vertex g p) [
  | some i ↦ some g
  | none ↦ if ltb (length g) max then some (g ++ record { pair = p; next = [] } ∷ []) else none
]

-- The vertex i with its list of edges changed.
unfoldable pub change_next : (List Pair → List Pair) → Graph → ℕ → Graph
change_next f [] i = []
change_next f (v ∷ g) zero = record v { next = f v.next } ∷ g
change_next f (v ∷ g) (suc i) = v ∷ change_next f g i

unfoldable pub add_edge : Graph → Pair → Pair → Option Graph
unfolding add_vertex change_next
add_edge g u v = do
  g1 ← add_vertex g u
  g2 ← add_vertex g1 v
  i ← search_vertex g2 u
  some (change_next (λ ps. ps ++ v ∷ []) g2 i)

-- Whether a list of edges leads to the thread.
unfoldable pub leads_to : List Pair → ℕ → Bool
leads_to [] t = false
leads_to (p ∷ ps) t = p.th_id == t || leads_to ps t

-- The walk starts at the vertex u itself.
unfoldable pub verify_edge : Graph → Pair → Pair → Bool
unfolding leads_to
verify_edge g u v = elim (search_vertex g u) [
  | none ↦ false
  | some i ↦ elim (get_elem? g i) [ none ↦ false | some x ↦ leads_to (x.pair ∷ x.next) v.th_id ]
]

unfoldable pub remove_first : ℕ → List Pair → List Pair
remove_first t [] = []
remove_first t (p ∷ ps) = if p.th_id == t then ps else p ∷ remove_first t ps

unfoldable pub remove_edge : Graph → Pair → Pair → Graph
unfolding change_next remove_first
remove_edge g u v = elim (search_vertex g u) [
  | none ↦ g
  | some i ↦ elim (search_vertex g v) [ none ↦ g | some j ↦ change_next (remove_first v.th_id) g i ]
]
