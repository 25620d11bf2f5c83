-- ===== src/Semantics/Cycles.antt =====
-- HasCycle: a depth-first search for a cycle in a directed graph from nodes to lists of successors.
pub mod Meaning
pub mod Decides
use causalontology.Semantics.Paths.{Graph, successors}
use causalontology.Prelude.{
  ℕ, zero, suc, ◌+◌, String, List, [], ◌∷◌, Bool, true, false, Option, none, some, Map, find,
  insert, length,
}

-- Grey and black, the marks 1 and 2; white, the mark 0, is an absent key.
pub data Mark : Type 0 where
  on_path finished : Mark

-- the loop of visit over the successors of a node, with visit for them; the marks so far and the
-- answer, `none` where the fuel ran out
unfoldable pub visit_nexts :
    (String → Map Mark → Option (Map Mark × Bool))
    → String
    → List String
    → Map Mark
    → Option (Map Mark × Bool)
visit_nexts visit node [] state = some (insert state node finished, false)
visit_nexts visit node (next ∷ nexts) state = elim (find state next) [
  | some on_path ↦ some (state, true)
  | some finished ↦ visit_nexts visit node nexts state
  | none ↦ elim (visit next state) [
    | none ↦ none
    | some (after, true) ↦ some (after, true)
    | some (after, false) ↦ visit_nexts visit node nexts after
  ]
]

-- visit, with fuel for one level of recursion each
unfoldable pub visit : ℕ → Graph → String → Map Mark → Option (Map Mark × Bool)
visit zero edges node state = none
visit (suc fuel) edges node state =
    visit_nexts (visit fuel edges) node (successors edges node) (insert state node on_path)

-- the loop over the keys
unfoldable pub visit_all : ℕ → Graph → List String → Map Mark → Option Bool
visit_all fuel edges [] state = some false
visit_all fuel edges (node ∷ nodes) state = elim (find state node) [
  | some mark ↦ visit_all fuel edges nodes state
  | none ↦ elim (visit fuel edges node state) [
    | none ↦ none
    | some (after, true) ↦ some true
    | some (after, false) ↦ visit_all fuel edges nodes after
  ]
]

-- the keys, in the order in which the range visits them
unfoldable pub nodes_of : Graph → List String
nodes_of [] = []
nodes_of ((node, out) ∷ edges) = node ∷ nodes_of edges

-- the keys and all successors
unfoldable pub node_count : Graph → ℕ
node_count [] = 0
node_count ((node, out) ∷ edges) = suc (length out + node_count edges)

-- HasCycle: a level of the search marks a key or a successor
unfoldable pub has_cycle : Graph → Option Bool
has_cycle edges = visit_all (node_count edges) edges (nodes_of edges) []
