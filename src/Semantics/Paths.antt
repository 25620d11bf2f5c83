-- ===== src/Semantics/Paths.antt =====
-- pathExists: reachability in a directed graph by a worklist. A graph is Go's
-- map[string]map[string]bool; a node that is no key has no successors.
pub mod Fuel
pub mod Decides
use causalontology.Prelude.{
  ℕ, zero, suc, ◌+◌, String, List, [], ◌∷◌, Bool, true, false, Option, none, some, ◌==◌, ◌≡◌,
  if◌then◌else◌, length,
}
use causalontology.Sets.{contains_string, StringSet, set_add}

abbrev pub Graph : Type 0
Graph = List (String × StringSet)

-- `edges[node]`
unfoldable pub successors : Graph → String → StringSet
successors [] node = []
successors ((n, out) ∷ g) node = let rest = successors g node in if n == node then out else rest

-- `for next := range edges[node] { stack = append(stack, next) }`; the top stands first
unfoldable pub push_all : List String → List String → List String
push_all [] stack = stack
push_all (next ∷ nexts) stack = push_all nexts (next ∷ stack)

-- The loop, with fuel for one pop each; `none` means that the fuel ran out.
unfoldable pub path_loop : ℕ → Graph → String → StringSet → List String → Option Bool
path_loop fuel g dst seen [] = some false
path_loop zero g dst seen (node ∷ stack) = none
path_loop (suc fuel) g dst seen (node ∷ stack) =
    let again = path_loop fuel g dst seen stack in
    let onward = path_loop fuel g dst (set_add seen node) (push_all (successors g node) stack) in
    if node == dst then some true else if contains_string seen node then again else onward

-- the edges of the graph
unfoldable pub edge_count : Graph → ℕ
edge_count [] = 0
edge_count ((n, out) ∷ g) = length out + edge_count g

-- pathExists: a node is pushed once at the start and once for each edge
unfoldable pub path_exists : Graph → String → String → Option Bool
unfolding path_loop edge_count
path_exists g src dst = path_loop (suc (edge_count g)) g dst [] (src ∷ [])

-- The walks of the graph.
pub data Reach (g : Graph) (src : String) : String → Type 0 where
  here : Reach g src src
  step : {u v : String} → Reach g src u → contains_string (successors g u) v ≡ true → Reach g src v
